-- ===== src/Index/Reconcile.antt =====
-- The hourly compensation of server/infra_db/reconcile_embedding.py: an asset that has been without a
-- vector for longer than `stale_seconds` gets a new task, unless one waits already.
pub mod Scan
pub mod Covers
use team_harness.Prelude.{ℕ, suc, ◌+◌, String, [], ◌∷◌, length, if◌then◌else◌}
use team_harness.Prelude.Dict.{Dict}
use team_harness.Outbox.Tables.{AssetIndex, Database}
use team_harness.Index.Types.{Platform, Versions}
use team_harness.Index.{enqueue_versions}
use team_harness.Index.Query.{list_null_embedding}
use team_harness.Index.Queue.{has_waiting}

pub record ReconcileEmbeddingResult : Type 0 where
  pub scanned : ℕ
  pub requeued : ℕ
  pub still_null : ℕ

module _ (p : Platform) (v : Versions) where
  -- one row: the tasks that are added, and what is added to `requeued`
  unfoldable pub requeue_one : String → Database → Database × ℕ
  unfolding has_waiting enqueue_versions
  requeue_one i db =
      if has_waiting i v.active_version db.tasks
      then (db, 0)
      else (enqueue_versions p v i "reindex" db, 1)

  -- the loop of `run`
  unfoldable pub requeue : Dict AssetIndex → Database → Database × ℕ
  unfolding requeue_one
  requeue [] db = (db, 0)
  requeue ((i, row) ∷ rows) db =
      let (one, m) = requeue_one i db in let (all, n) = requeue rows one in (all, m + n)

  unfoldable pub requeue_all :
      ℕ → ℕ → Dict AssetIndex → Database → Database × ReconcileEmbeddingResult
  unfolding requeue list_null_embedding
  requeue_all stale_seconds max_requeue [] db =
      (db, record { scanned = 0; requeued = 0; still_null = 0 })
  requeue_all stale_seconds max_requeue (x ∷ xs) db =
      let (queued, n) = requeue (x ∷ xs) (record db { time_at = suc db.time_at }) in
      let (after, left) = list_null_embedding p stale_seconds max_requeue queued in
      (after, record { scanned = length (x ∷ xs); requeued = n; still_null = length left })

  -- ReconcileEmbeddingTask.run
  unfoldable pub run : ℕ → ℕ → Database → Database × ReconcileEmbeddingResult
  unfolding requeue_all
  run stale_seconds max_requeue db =
      let (scanned, null_assets) = list_null_embedding p stale_seconds max_requeue db in
      requeue_all stale_seconds max_requeue null_assets scanned
