-- ===== src/Index/Migration.antt =====
-- The change of the embedding model of server/infra_db/embedding_migration.py, with the versions of
-- server/infra_db/embedding.py: both versions are written while the vectors of the new one are made,
-- then the new one becomes active. The collection that is dropped is that of the memory backend: the
-- keys of its store are part of the state. A table is scanned in the order of its list.
pub mod Types
pub mod Batches
pub mod Starves
pub mod Switch
pub mod Rollback
use team_harness.Prelude.{
  ℕ, zero, suc, String, Bool, true, false, not, ◌&&◌, Option, none, some, List, [], ◌∷◌, map,
  select, take, length, contains, leb, eqb, ◌==◌, nonempty, if◌then◌else◌,
}
use team_harness.Prelude.Dict.{Dict}
use team_harness.Prelude.Result.{ok, raise}
use team_harness.Outbox.Tables.{
  TaskStatus, EmbeddingTask, AssetIndex, EmbeddingVector, Database, pending, in_progress, done,
  failed, orphan_compensated, other,
}
use team_harness.Index.Types.{Platform, Versions, set_embedding_versions, is_waiting}
use team_harness.Index.{enqueue}
use team_harness.Index.Reconcile.{ReconcileEmbeddingResult, run}
use team_harness.Index.Migration.Types.{
  switch_active_version, start_shadow_write, stop_shadow_write, Migration, MigrateBatchResult,
  MigrationProgress, drop_collection,
}

-- start_migration, with the exception
unfoldable pub start_migration : String → Migration → Migration × Option String
start_migration new_version m =
    elim (if new_version == m.embedding.active_version
      then raise "ValueError"
      else start_shadow_write new_version m.embedding) [
        | raise e ↦ (m, some e)
        | ok e ↦ (
          record m {
            embedding = e;
            index = set_embedding_versions m.embedding.active_version new_version m.index;
          },
          none,
        )
      ]

-- a task of the version that waits
abbrev pub is_waiting_task : String → EmbeddingTask → Bool
is_waiting_task version t = (t.model_version == version) && is_waiting t.status

unfoldable pub rollback_migration : Migration → Migration
rollback_migration m =
    let shadow = m.embedding.shadow_version in
    if nonempty shadow
    then record m {
      embedding = stop_shadow_write m.embedding;
      index = set_embedding_versions m.embedding.active_version "" m.index;
      db = record m.db {
        tasks = select (λ (t : EmbeddingTask). not (is_waiting_task shadow t)) m.db.tasks;
      };
      store = drop_collection shadow m.store;
    }
    else m

-- the assets that have a vector of the version
unfoldable pub have_ids : String → List EmbeddingVector → List String
have_ids version vs =
    map (λ (x : EmbeddingVector). x.asset_id)
      (select (λ (x : EmbeddingVector). x.model_version == version) vs)

-- the assets that have a task of the version that waits
unfoldable pub waiting_ids : String → List EmbeddingTask → List String
waiting_ids version ts =
    map (λ (t : EmbeddingTask). t.asset_id) (select (is_waiting_task version) ts)

-- the rows that a batch scans
abbrev pub is_candidate : String → AssetIndex → Bool
is_candidate active row = (row.status == "active") && (row.active_embedding_version == active)

unfoldable pub candidates : String → ℕ → Dict AssetIndex → Dict AssetIndex
candidates active batch_size assets =
    take batch_size (select (λ (x : String × AssetIndex). is_candidate active x.1) assets)

module _ (p : Platform) where
  -- a row of a batch
  unfoldable pub migrate_row :
      String
      → List String
      → List String
      → String
      → Database × MigrateBatchResult
      → Database × MigrateBatchResult
  unfolding enqueue
  migrate_row shadow have waits i (db, r) =
      if contains i have
      then (db, record r { already_done = suc r.already_done })
      else (if contains i waits
          then (db, r)
          else (enqueue p i "reindex" shadow db, record r { enqueued = suc r.enqueued }))

  -- the loop of `migrate_batch`
  unfoldable pub migrate_rows :
      String
      → List String
      → List String
      → Dict AssetIndex
      → Database × MigrateBatchResult
      → Database × MigrateBatchResult
  unfolding migrate_row
  migrate_rows shadow have waits [] acc = acc
  migrate_rows shadow have waits ((i, row) ∷ rows) acc =
      migrate_rows shadow have waits rows (migrate_row shadow have waits i acc)

  unfoldable pub migrate_batch : ℕ → Migration → Migration × MigrateBatchResult
  unfolding migrate_rows candidates have_ids waiting_ids
  migrate_batch batch_size m =
      let shadow = m.embedding.shadow_version in
      let rows = candidates m.embedding.active_version batch_size m.db.assets in
      let (db, r) =
        migrate_rows shadow (have_ids shadow m.db.vectors) (waiting_ids shadow m.db.tasks) rows
          (m.db, record { scanned = length rows; enqueued = 0; already_done = 0 }) in
      if nonempty shadow
      then (record m { db = db }, r)
      else (m, record { scanned = 0; enqueued = 0; already_done = 0 })

  -- the documented loop, as far as it has run
  unfoldable pub migrate_batches : ℕ → ℕ → Migration → Migration
  unfolding migrate_batch
  migrate_batches batch_size zero m = m
  migrate_batches batch_size (suc n) m = migrate_batches batch_size n (migrate_batch batch_size m).0

-- the counts are those of the rows that pass
unfoldable pub verify_progress : Migration → MigrationProgress
unfolding have_ids waiting_ids
verify_progress m =
    let active = m.embedding.active_version in
    let shadow = m.embedding.shadow_version in
    let total = length (select (λ (x : String × AssetIndex). x.1.status == "active") m.db.assets) in
    let shadow_count = if nonempty shadow then length (have_ids shadow m.db.vectors) else 0 in
    let waits = if nonempty shadow then length (waiting_ids shadow m.db.tasks) else 0 in
    record {
      active_version = active;
      shadow_version = shadow;
      total_assets = total;
      active_embedding_count = length (have_ids active m.db.vectors);
      shadow_embedding_count = shadow_count;
      pending_tasks = waits;
      ready_to_switch = nonempty shadow && leb total shadow_count && eqb waits 0;
    }

-- UPDATE asset_index SET active_embedding_version, embedding_id = NULL WHERE status = 'active'; the
-- column `updated_at` is set by its `onupdate`
unfoldable pub reset_versions : String → ℕ → Dict AssetIndex → Dict AssetIndex
reset_versions new_active now [] = []
reset_versions new_active now ((i, row) ∷ rows) =
    (
      i,
      if row.status == "active"
          then record row {
            active_embedding_version = new_active;
            embedding_id = none;
            updated_at = now;
          }
          else row,
    )
    ∷ reset_versions new_active now rows

unfoldable pub switch_active : Platform → String → Migration → Migration
unfolding reset_versions
switch_active p new_active m =
    let e = switch_active_version new_active m.embedding in
    if new_active == m.embedding.active_version then m else record m {
      embedding = e;
      index = set_embedding_versions new_active e.shadow_version m.index;
      db = record m.db {
        assets = reset_versions new_active (p.clock m.db.time_at) m.db.assets;
        time_at = suc m.db.time_at;
      };
    }

-- SyncService.run_reconcile_embedding, with the versions of the moment
abbrev pub run_reconcile_embedding : Platform → ℕ → Migration → Database × ReconcileEmbeddingResult
run_reconcile_embedding p stale_seconds m =
    let v : Versions = record {
      active_version = m.embedding.active_version;
      shadow_version = m.embedding.shadow_version;
    } in
    run p v stale_seconds 500 m.db

-- status in ["pending", "in_progress", "failed"]
abbrev pub is_droppable : TaskStatus → Bool
is_droppable pending = true
is_droppable in_progress = true
is_droppable failed = true
is_droppable done = false
is_droppable orphan_compensated = false
is_droppable (other s) = false

abbrev pub is_droppable_task : String → EmbeddingTask → Bool
is_droppable_task version t = (t.model_version == version) && is_droppable t.status

unfoldable pub drop_old_version : String → Migration → Migration × ℕ
drop_old_version old_version m =
    let gone = select (λ (x : EmbeddingVector). x.model_version == old_version) m.db.vectors in
    (
      record m {
        db = record m.db {
          vectors =
              select (λ (x : EmbeddingVector). not (x.model_version == old_version)) m.db.vectors;
          tasks = select (λ (t : EmbeddingTask). not (is_droppable_task old_version t)) m.db.tasks;
        };
        store = drop_collection old_version m.store;
      },
      length gone,
    )
