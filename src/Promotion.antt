-- ===== src/Promotion.antt =====
-- The core of the promotion pipeline, server/distill_team/promotion/.
pub mod Graph
pub mod Cascade
pub mod State
pub mod Retest
pub mod Dedup
pub mod Promote
pub mod Manager
mod Examples
mod ManagerExamples
