-- ===== src/Lib.antt =====
-- team_harness: a verification library for the Python server of TeamHarness.
--
-- The library models five parts of the server. The first is the asynchronous talk between peers,
-- server/async_comm: events, vector clocks, the mailbox, the conversation log, the conflict
-- resolver, the sync protocol that joins them, the snapshots of peers, and the questions that are
-- asked of a peer, of a tag or of a shadow. The second is the promotion of rules,
-- server/distill_team/promotion: the graph registry, the cascade of updates over it, the search
-- for duplicates, the retest, the promotion to a layer, and the orchestrator that joins them. The
-- third is the outbox worker that writes the vectors of assets, server/infra_db/outbox.py. The
-- fourth is the asset index that fills its queue, server/infra_db/asset_index.py, with the
-- compensation, the migration between embedding models and the reconciliation with git. The fifth
-- is the daily token budget of the personal distillation, server/distill_personal/budget.py.
--
--   Prelude            shared names; Python's dict, str, sort and exceptions
--   AsyncComm/Clock    VectorClock of server/async_comm/types.py
--   AsyncComm/Types    events and constants of types.py and constants.py
--   AsyncComm/Lines    the ids of a JSONL file
--   AsyncComm/Mailbox  Mailbox of mailbox.py
--   AsyncComm/Log      ConversationLog of conversation_log.py
--   AsyncComm/Resolver ConflictResolver of conflict_resolver.py
--   AsyncComm/Sync     SyncProtocol of sync_protocol.py, with Message and SyncResult of
--                      server/transport/types.py
--   AsyncComm/Snapshot PeerSnapshotManager of peer_snapshot.py
--   AsyncComm/Peer     PeerComm of peer_comm.py, with its single questions in Peer/Asks, what it
--                      works on in Peer/Types and ShadowComm of shadow_comm.py in Peer/Shadow
--   Promotion/Graph    GraphRegistry of server/distill_team/promotion/graph.py
--   Promotion/Cascade  CascadeUpdater of server/distill_team/promotion/cascade.py
--   Promotion/State    the data of server/distill_team/promotion/models.py and adapters/base.py
--   Promotion/Retest   RetestRunner of retest.py
--   Promotion/Dedup    DedupChecker of dedup.py
--   Promotion/Promote  PromotionManager of promote.py
--   Promotion/Manager  PromotionOrchestrator of manager.py: the loop; the steps behind it are in
--                      Manager/Finish, and promote as a whole in Manager/Pipeline
--   Outbox             OutboxWorker of server/infra_db/outbox.py, with its rows of
--                      server/infra_db/models.py
--   Index              AssetIndex of server/infra_db/asset_index.py, with its readings in Index/Query
--   Index/History      sequences of its writes and deletions
--   Index/Reconcile    ReconcileEmbeddingTask of server/infra_db/reconcile_embedding.py
--   Index/Migration    EmbeddingMigration of server/infra_db/embedding_migration.py, with the versions
--                      of EmbeddingService and SyncService.run_reconcile_embedding
--   Index/Cron         ReconciliationCron of server/infra_db/reconciliation.py
--   Budget             LLMBudget of server/distill_personal/llm_provider.py and BudgetManager of
--                      budget.py, with its candidates and their processor in Budget/Pending
--
-- Each operation has the name of the Python function that it models, without the leading
-- underscore. An object is a record of its fields and of the files it owns, a method that changes
-- it returns the record after the call, and a method that may raise returns a Result. The loops of
-- a method are functions of their own, above it.
--
-- The sync protocol uses the mailbox and the log through their operations. The transport and the
-- resolver are injected there: they are functions of the record Context, as are the sources of
-- fresh ids and of the time, and they answer or raise. PeerComm and ShadowComm share the mailbox,
-- the log and the snapshots; their transport is the record Network, each of whose methods is told
-- how many calls came before. A method of theirs is a Step: it takes the state and returns the
-- next one with an answer or an exception, and what was written before an exception stays. The
-- outbox worker is a function on its tables, with the embedding service and the vector store in
-- the record Worker; the text of an exception there begins with the name of its type.
--
-- A JSONL file is the list of its complete lines: blank, malformed, or an object whose keys have
-- the types that the writer gives them or are missing. An absent file has no lines. A payload
-- value is a text, a dict of numbers or another value that is known by an identity alone. A text
-- that is none of the constants of constants.py is the constructor `other`, and `other` never
-- holds the text of a constant. A dict is its items in insertion order; the order in which Python
-- walks a set is taken to be the order of insertion. A similarity is an exact fraction where
-- Python has a float; str.lower and the printing of a float are parameters. Limits are not
-- negative. The directory of snapshots is a dict of directories, a JSON file that is absent or
-- unreadable is none, and what pathlib, re and datetime say of a text are the fields of Files. A
-- directory of a snapshot is removed as a whole or not at all. A time that is computed with is a
-- number of microseconds, in PeerComm of the clock's own units. The lifetime of a snapshot in days
-- is not negative.
--
-- graph.md is its three tables: cells hold no bars, line breaks or outer blanks, a missing
-- category is none, and a relation has one of the six types. The status of a node that is
-- registered is not empty.
--
-- Four loops run on fuel. `load_thread` has two more than the events of the log: each round of its
-- loops takes an id that was not seen. `detect_cycle` has one more than the relations: each
-- relation is pushed once at most. `cascade_from` has one more than the ends of the relations: its
-- stack holds no node twice. The loop of `promote` has three rounds: each round that goes on moves
-- the rule one layer up, and there are three layers.
--
-- The queue of the worker is the list of its rows. A statement is written out as what it selects
-- and updates; rows of one time keep the order of the table, one worker runs at a time, and the
-- session's commit does not fail. The loop of its thread is a number of runs. The index writes to
-- the same tables: the id of a new task is the next one of the sequence, a session is one step,
-- and a table without an order is scanned in the order of its list. The vector store whose
-- collection is dropped is that of the memory backend. The orchestrator calls the modelled
-- registry and cascade; the adapter of a coding software, the archive and the other projects are
-- the record Services, whose functions are told how many calls came before, and an exception of
-- any of them ends the promotion. A ratio of difflib is an exact fraction. The directory of
-- waiting candidates is a dict of files by their names, of which an unreadable one is none; a
-- number of tokens is not negative, and the callback is a function that is told how many calls
-- came before.
--
-- Not modelled: locks and threads (each method is one step), crashes between two writes, logging,
-- the Markdown text of graph.md, and the rest of the server (transport, web API, webhook
-- synchronisation, the Markdown of the archive, recall, distillation, governance, client, MCP
-- server, front end), which is input and output, frameworks and language models for the most part.
pub mod Prelude
pub mod AsyncComm
pub mod Promotion
pub mod Outbox
pub mod Index
pub mod Budget
