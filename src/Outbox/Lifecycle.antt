-- ===== src/Outbox/Lifecycle.antt =====
-- The states of a task, as the documentation of `EmbeddingTaskQueue` has them, and that the worker
-- moves a task along them alone.
use team_harness.Prelude.{
  ℕ, suc, ◌≤◌, ◌<◌, String, ◌≡◌, refl, ap, Option, none, some, leb, arith, Bool-cases, inl, inr,
  ◌==◌,
}
use team_harness.Prelude.Dict
use team_harness.Prelude.Result.{Result, ok, raise}
use team_harness.Outbox.Tables.{
  TaskStatus, pending, in_progress, done, failed, orphan_compensated, EmbeddingTask, AssetIndex,
  EmbeddingResult, Worker, Database, save, handle_failure, called, settled, is_active_for,
  metadata_of,
}
use team_harness.Outbox.{
  complete, untrack, execute_delete, compensate, track, write_back, index_done, store_vector,
  execute_index, execute_upsert, execute_task,
}

-- a status that a worker takes
pub data Claim : TaskStatus → Type 0 where
  claim : Claim pending
  reclaim : Claim in_progress

-- What becomes of a task with `m` retries at most that a worker has taken: its status and the
-- number of its retries.
pub data Step (m : ℕ) : TaskStatus → ℕ → TaskStatus → ℕ → Type 0 where
  finish : {r : ℕ} → Step m in_progress r done r
  orphan : {r : ℕ} → Step m in_progress r orphan_compensated r
  retry : {r : ℕ} → suc r < m → Step m in_progress r pending (suc r)
  give_up : {r : ℕ} → m ≤ suc r → Step m in_progress r failed (suc r)

-- what a worker never writes: the limit of the retries, the asset, the type and the version
abbrev pub fixed : EmbeddingTask → ℕ × String × String × String
fixed t = (t.max_retries, t.asset_id, t.task_type, t.model_version)

-- `u` is what has become of `t`
abbrev pub Ends : EmbeddingTask → EmbeddingTask → Type 0
Ends t u =
    (u.id ≡ t.id)
    × (fixed u ≡ fixed t)
    × Step t.max_retries in_progress t.retry_count u.status u.retry_count

handle_failure-Ends : (e : String) (t : EmbeddingTask) → Ends t (handle_failure e t)
unfolding handle_failure
handle_failure-Ends e t = elim (Bool-cases (leb t.max_retries (suc t.retry_count))) [
  | inl over ↦ rw over (refl, refl, give_up (ground arith))
  | inr under ↦ rw under (refl, refl, retry (ground arith))
]

-- an execution leaves the queue alone, and a row that it returns has ended
abbrev Kept : Database → EmbeddingTask → Database × Result EmbeddingTask → Type 0
Kept db t (after, ok u) = (after.tasks ≡ db.tasks) × Ends t u
Kept db t (after, raise e) = after.tasks ≡ db.tasks

module _ (w : Worker) where
  compensate-Kept : (t : EmbeddingTask) (db : Database) → Kept db t (compensate w t db)
  unfolding compensate
  compensate-Kept t db = (refl, (refl, refl, orphan))

  execute_delete-Kept : (t : EmbeddingTask) (db : Database) → Kept db t (execute_delete w t db)
  unfolding execute_delete
  execute_delete-Kept t db =
      elim (w.delete db.calls t.asset_id t.model_version)
        as (λ r. Kept db t (elim r [
          | raise e ↦ (called db, raise e)
          | ok b ↦ complete w done t (untrack w t (called db))
        ])) [ raise e ↦ refl | ok b ↦ (refl, (refl, refl, finish)) ]

  tasks-write_back :
      (a : AssetIndex) (t : EmbeddingTask) (point_id : String) (db : Database)
      → (write_back w a t point_id db).tasks ≡ db.tasks
  unfolding write_back
  tasks-write_back a t point_id db = elim (Bool-cases (is_active_for a t)) [
    | inl active ↦ rw active refl
    | inr other_version ↦ rw other_version refl
  ]

  index_done-Kept :
      (a : AssetIndex) (t : EmbeddingTask) (emb : EmbeddingResult) (point_id : String)
      (db : Database)
      → Kept db t (index_done w a t emb point_id db)
  unfolding index_done
  index_done-Kept a t emb point_id db =
      (tasks-write_back a t point_id (track w t emb db), (refl, refl, finish))

  store_vector-Kept :
      (a : AssetIndex) (t : EmbeddingTask) (emb : EmbeddingResult) (db : Database)
      → Kept db t (store_vector w a t emb db)
  unfolding store_vector
  store_vector-Kept a t emb db =
      elim (w.upsert db.calls
          (record {
            asset_id = t.asset_id;
            vector = emb.vector;
            dim = emb.dim;
            metadata = metadata_of a t;
          })
          t.model_version)
        as (λ r. Kept db t (elim r [
          | raise e ↦ (called db, raise e)
          | ok point_id ↦ index_done w a t emb point_id (called db)
        ])) [ raise e ↦ refl | ok point_id ↦ index_done-Kept a t emb point_id (called db) ]

  execute_index-Kept :
      (a : AssetIndex) (t : EmbeddingTask) (db : Database) → Kept db t (execute_index w a t db)
  unfolding execute_index
  execute_index-Kept a t db =
      elim (w.embed db.calls a.content_snapshot t.model_version)
        as (λ r. Kept db t (elim r [
          | raise e ↦ (called db, raise e)
          | ok emb ↦ store_vector w a t emb (called db)
        ])) [ raise e ↦ refl | ok emb ↦ store_vector-Kept a t emb (called db) ]

  execute_upsert-Kept :
      (o : Option AssetIndex) (t : EmbeddingTask) (db : Database)
      → Kept db t (execute_upsert w o t db)
  unfolding execute_upsert
  execute_upsert-Kept none t db = compensate-Kept t db
  execute_upsert-Kept (some a) t db = elim (Bool-cases (a.status == "deleted")) [
    | inl gone ↦ rw gone (compensate-Kept t db)
    | inr there ↦ rw there (execute_index-Kept a t db)
  ]

  execute_task-Kept : (t : EmbeddingTask) (db : Database) → Kept db t (execute_task w t db)
  unfolding execute_task
  execute_task-Kept t db = elim (Bool-cases (t.task_type == "delete")) [
    | inl deletes ↦ rw deletes (execute_delete-Kept t db)
    | inr indexes ↦ rw indexes (execute_upsert-Kept (Dict.get t.asset_id db.assets) t db)
  ]

  settled-Ends :
      (t : EmbeddingTask) (db : Database) (r : Database × Result EmbeddingTask)
      → Kept db t r
      → ((settled t r).0.tasks ≡ db.tasks) × Ends t (settled t r).1
  settled-Ends t db (after, ok u) h = h
  settled-Ends t db (after, raise e) h = (h, handle_failure-Ends e t)

  -- the database after one turn of the loop
  abbrev pub turn : EmbeddingTask → Database → Database
  turn t db =
      let (after, u, n) = settled t (execute_task w t db) in
      record after { tasks = save u after.tasks }

  -- what a turn does to the queue
  pub tasks-turn :
      (t : EmbeddingTask) (db : Database)
      → (u : EmbeddingTask) × ((turn t db).tasks ≡ save u db.tasks) × Ends t u
  tasks-turn t db =
      let (same, ends) = settled-Ends t db (execute_task w t db) (execute_task-Kept t db) in
      (
        (settled t (execute_task w t db)).1,
        ap (save (settled t (execute_task w t db)).1) same,
        ends,
      )
