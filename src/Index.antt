-- ===== src/Index.antt =====
-- The asset index of server/infra_db/asset_index.py, with the rows of server/infra_db/models.py: each
-- write puts its embedding tasks into the outbox queue in the same transaction. A table is scanned in
-- the order of its list; `Platform` holds the readings of the clock, json.dumps, what SQL's LIKE
-- matches, and what the database does with the bindings of a row that is deleted.
pub mod Types
pub mod Query
pub mod Queue
pub mod Writes
pub mod Bindings
pub mod History
pub mod Reconcile
pub mod Migration
pub mod Cron
mod Examples
use team_harness.Prelude.{
  ℕ, suc, ◌+◌, String, Bool, true, false, not, ◌&&◌, Option, none, some, List, [], ◌∷◌, ◌++◌, ◌==◌,
  nonempty, if◌then◌else◌,
}
use team_harness.Prelude.Dict
use team_harness.Prelude.Dict.{Dict}
use team_harness.Outbox.Tables.{
  EmbeddingTask, AssetIndex, AgentBinding, Database, pending, or_empty,
}
use team_harness.Index.Types.{Platform, Versions, Asset, or_text}

module _ (p : Platform) where
  -- _enqueue_embedding_task
  abbrev pub new_task : String → String → String → Database → EmbeddingTask
  new_task asset_id task_type model_version db = record {
    id = db.next_id;
    asset_id = asset_id;
    task_type = task_type;
    model_version = model_version;
    status = pending;
    leased_at = none;
    lease_owner = none;
    embedding_id = none;
    retry_count = 0;
    max_retries = 3;
    last_error = none;
    created_at = p.clock db.time_at;
    completed_at = none;
  }

  unfoldable pub enqueue : String → String → String → Database → Database
  enqueue asset_id task_type model_version db = record db {
    tasks = db.tasks ++ new_task asset_id task_type model_version db ∷ [];
    next_id = suc db.next_id;
    time_at = suc db.time_at;
  }

  -- the task of the active version, and that of the shadow version where there is one
  unfoldable pub enqueue_versions : Versions → String → String → Database → Database
  unfolding enqueue
  enqueue_versions v asset_id task_type db =
      let active = enqueue asset_id task_type v.active_version db in
      if nonempty v.shadow_version
      then enqueue asset_id task_type v.shadow_version active
      else active

  abbrev pub new_row : Versions → Asset → String → String → ℕ → AssetIndex
  new_row v a git_commit content_snapshot now = record {
    type_ = a.type_;
    owner = a.owner;
    scope = a.scope;
    content_hash = a.content_hash;
    embedding_id = none;
    active_embedding_version = v.active_version;
    version = a.version;
    tags = p.dumps a.tags;
    related_to = p.dumps a.related_to;
    git_path = or_empty a.content_file_ref;
    git_commit = git_commit;
    module_path = a.module_path;
    category = a.category;
    status = "active";
    schema_version = a.schema_version;
    created_at = now;
    updated_at = now;
    indexed_at = now;
    content_snapshot = or_text content_snapshot a.content;
  }

  -- the row was computed for another version
  abbrev pub is_outdated : Versions → AssetIndex → Bool
  is_outdated v row =
      nonempty row.active_embedding_version
      && not (row.active_embedding_version == v.active_version)

  abbrev pub updated_row : Versions → Asset → String → String → ℕ → AssetIndex → AssetIndex
  updated_row v a git_commit content_snapshot now row = record row {
    type_ = a.type_;
    owner = a.owner;
    scope = a.scope;
    content_hash = a.content_hash;
    embedding_id = if is_outdated v row then none else row.embedding_id;
    active_embedding_version = v.active_version;
    version = a.version;
    tags = p.dumps a.tags;
    related_to = p.dumps a.related_to;
    git_path = or_text (or_empty a.content_file_ref) row.git_path;
    git_commit = git_commit;
    module_path = a.module_path;
    category = a.category;
    status = "active";
    schema_version = a.schema_version;
    updated_at = now;
    indexed_at = now;
    content_snapshot = or_text content_snapshot a.content;
  }

  abbrev pub row_after : Versions → Asset → String → String → ℕ → Option AssetIndex → AssetIndex
  row_after v a git_commit content_snapshot now none = new_row v a git_commit content_snapshot now
  row_after v a git_commit content_snapshot now (some row) =
      updated_row v a git_commit content_snapshot now row

  unfoldable pub upsert : Versions → Asset → String → String → Bool → Database → Database × String
  unfolding enqueue_versions
  upsert v a git_commit content_snapshot enqueue_embedding db =
      let row =
        row_after v a git_commit content_snapshot (p.clock db.time_at) (Dict.get a.id db.assets) in
      let written = record db { assets = Dict.put a.id row db.assets; time_at = suc db.time_at } in
      (if enqueue_embedding then enqueue_versions v a.id "upsert" written else written, a.id)

  -- enabled = false where asset_id is the asset and the binding is enabled
  unfoldable pub disable_bindings : String → ℕ → List AgentBinding → List AgentBinding
  disable_bindings asset_id now [] = []
  disable_bindings asset_id now (b ∷ bs) =
      (if (b.asset_id == asset_id) && b.enabled
        then record b { enabled = false; invalidated_at = some now }
        else b)
      ∷ disable_bindings asset_id now bs

  -- the row of a soft or of a hard deletion
  abbrev pub mark_deleted : String → AssetIndex → Database → Database
  mark_deleted asset_id row db = record db {
    assets =
        Dict.put asset_id (record row { status = "deleted"; updated_at = p.clock db.time_at })
          db.assets;
    bindings = disable_bindings asset_id (p.clock (suc db.time_at)) db.bindings;
    time_at = suc (suc db.time_at);
  }

  abbrev pub drop_row : String → Database → Database
  drop_row asset_id db = record db {
    assets = Dict.remove asset_id db.assets;
    bindings = p.on_delete asset_id db.bindings;
  }

  unfoldable pub delete : Versions → String → Bool → Bool → Database → Database × Bool
  unfolding enqueue_versions disable_bindings
  delete v asset_id soft_delete enqueue_embedding db = elim (Dict.get asset_id db.assets) [
    | none ↦ (db, false)
    | some row ↦
        let removed = if soft_delete then mark_deleted asset_id row db else drop_row asset_id db in
        (if enqueue_embedding then enqueue_versions v asset_id "delete" removed else removed, true)
  ]
