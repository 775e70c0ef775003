-- ===== src/Outbox.antt =====
-- The outbox worker of server/infra_db/outbox.py, with the rows of server/infra_db/models.py that
-- it reads and writes. A time is a number of microseconds; the readings of the clock are a stream.
-- The embedding service and the vector store are injected: each of their calls is a function of
-- `Worker`, which is told how many calls came before. What SQLAlchemy does with the statements is
-- written out: a filter, a stable sort, a prefix, an update by the primary key.
pub mod Tables
pub mod Rows
pub mod Lifecycle
pub mod Runs
pub mod Settles
pub mod Effects
mod Examples
use team_harness.Prelude.{
  ℕ, zero, suc, ◌+◌, String, Option, none, some, List, [], ◌∷◌, map, select, take, ◌==◌,
  if◌then◌else◌,
}
use team_harness.Prelude.Dict
use team_harness.Prelude.Dict.{Dict}
use team_harness.Prelude.Result.{Result, ok, raise}
use team_harness.Outbox.Tables.{
  TaskStatus, EmbeddingTask, AssetIndex, EmbeddingResult, VectorRecord, Worker, Database, save,
  save_all, order_by_created, is_claimable, delete_embedding_track, upsert_embedding_track,
  metadata_of, called, is_active_for, settled, in_progress, done, orphan_compensated,
}

module _ (w : Worker) where
  abbrev pub lease : ℕ → EmbeddingTask → EmbeddingTask
  lease now t = record t {
    status = in_progress;
    leased_at = some now;
    lease_owner = some w.worker_id;
  }

  -- the rows that `_claim_tasks` selects
  unfoldable pub select_tasks : ℕ → ℕ → List EmbeddingTask → List EmbeddingTask
  unfolding order_by_created
  select_tasks batch_size now ts = take batch_size (
      order_by_created
        (select (λ (t : EmbeddingTask). is_claimable w.lease_timeout now t.status t.leased_at) ts))

  -- _claim_tasks
  unfoldable pub claim_tasks : ℕ → Database → Database × List EmbeddingTask
  unfolding save_all select_tasks
  claim_tasks batch_size db =
      let now = w.clock db.time_at in
      let claimed = map (lease now) (select_tasks batch_size now db.tasks) in
      (record db { tasks = save_all claimed db.tasks; time_at = suc db.time_at }, claimed)

  -- the row of a task that ends: `status` and `completed_at`
  abbrev pub complete : TaskStatus → EmbeddingTask → Database → Database × Result EmbeddingTask
  complete s t db = (
    record db { time_at = suc db.time_at },
    ok (record t { status = s; completed_at = some (w.clock db.time_at) }),
  )

  abbrev pub untrack : EmbeddingTask → Database → Database
  untrack t db = record db {
    vectors = delete_embedding_track t.asset_id t.model_version db.vectors;
  }

  -- the `delete` task
  unfoldable pub execute_delete : EmbeddingTask → Database → Database × Result EmbeddingTask
  execute_delete t db = elim (w.delete db.calls t.asset_id t.model_version) [
    | raise e ↦ (called db, raise e)
    | ok b ↦ complete done t (untrack t (called db))
  ]

  -- the asset is gone: the store's failure to delete is only logged
  unfoldable pub compensate : EmbeddingTask → Database → Database × Result EmbeddingTask
  compensate t db = complete orphan_compensated t (untrack t (called db))

  -- the tracking row of a vector that the store has taken
  abbrev pub track : EmbeddingTask → EmbeddingResult → Database → Database
  track t emb db = record db {
    vectors = upsert_embedding_track (w.clock db.time_at) t.asset_id t.model_version emb db.vectors;
    time_at = suc db.time_at;
  }

  -- asset_row.embedding_id = point_id
  unfoldable pub write_back : AssetIndex → EmbeddingTask → String → Database → Database
  write_back a t point_id db =
      if is_active_for a t
      then record db {
        assets =
            Dict.put t.asset_id
              (record a { embedding_id = some point_id; updated_at = w.clock db.time_at })
              db.assets;
        time_at = suc db.time_at;
      }
      else db

  -- what follows the write to the vector store
  unfoldable pub index_done :
      AssetIndex
      → EmbeddingTask
      → EmbeddingResult
      → String
      → Database
      → Database × Result EmbeddingTask
  unfolding upsert_embedding_track write_back
  index_done a t emb point_id db =
      complete done (record t { embedding_id = some point_id; last_error = none })
        (write_back a t point_id (track t emb db))

  -- `embed`, then the write to the vector store
  unfoldable pub store_vector :
      AssetIndex → EmbeddingTask → EmbeddingResult → Database → Database × Result EmbeddingTask
  unfolding index_done
  store_vector a t emb db =
      let vector_record : VectorRecord = record {
        asset_id = t.asset_id;
        vector = emb.vector;
        dim = emb.dim;
        metadata = metadata_of a t;
      } in
      elim (w.upsert db.calls vector_record t.model_version) [
        | raise e ↦ (called db, raise e)
        | ok point_id ↦ index_done a t emb point_id (called db)
      ]

  unfoldable pub execute_index :
      AssetIndex → EmbeddingTask → Database → Database × Result EmbeddingTask
  unfolding store_vector
  execute_index a t db = elim (w.embed db.calls a.content_snapshot t.model_version) [
    | raise e ↦ (called db, raise e)
    | ok emb ↦ store_vector a t emb (called db)
  ]

  -- the upsert and the reindex task
  unfoldable pub execute_upsert :
      Option AssetIndex → EmbeddingTask → Database → Database × Result EmbeddingTask
  unfolding compensate execute_index
  execute_upsert none t db = compensate t db
  execute_upsert (some a) t db =
      if a.status == "deleted" then compensate t db else execute_index a t db

  -- _execute_task
  unfoldable pub execute_task : EmbeddingTask → Database → Database × Result EmbeddingTask
  unfolding execute_delete execute_upsert
  execute_task t db =
      if t.task_type == "delete"
      then execute_delete t db
      else execute_upsert (Dict.get t.asset_id db.assets) t db

  -- the loop of `run_once`
  unfoldable pub run_tasks : List EmbeddingTask → ℕ → Database → Database × ℕ
  unfolding execute_task
  run_tasks [] processed db = (db, processed)
  run_tasks (t ∷ ts) processed db =
      let (after, u, n) = settled t (execute_task t db) in
      run_tasks ts (processed + n) (record after { tasks = save u after.tasks })

  unfoldable pub run_once : ℕ → Database → Database × ℕ
  unfolding claim_tasks run_tasks
  run_once batch_size db = let (claimed, ts) = claim_tasks batch_size db in run_tasks ts 0 claimed

  -- the loop of the background thread, as far as it has run
  unfoldable pub run_times : ℕ → ℕ → Database → Database
  unfolding run_once
  run_times batch_size zero db = db
  run_times batch_size (suc n) db = run_times batch_size n (run_once batch_size db).0
