-- ===== src/AsyncComm.antt =====
-- server/async_comm: asynchronous talk between peers, by a mailbox, a log of events and a sync.
pub mod Clock
pub mod Types
pub mod Lines
pub mod Mailbox
pub mod Log
pub mod Resolver
pub mod Sync
pub mod Snapshot
pub mod Peer
mod Examples
mod LogExamples
mod PeerExamples
