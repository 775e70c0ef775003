-- ===== src/Outbox/Settles.antt =====
-- Every task that waits ends: the worker gives up a task that always fails.
use team_harness.Prelude.{
  ℕ, zero, suc, ◌+◌, ◌≤◌, ◌<◌, ◌≡◌, ◌⊎◌, refl, ap, ◌∙◌, String, Option, some, length, arith, inl,
  inr, false,
}
use team_harness.Outbox.Tables.{
  TaskStatus, pending, in_progress, done, failed, orphan_compensated, other, EmbeddingTask, Worker,
  Database, is_claimable,
}
use team_harness.Outbox.{run_once, run_times}
use team_harness.Outbox.Rows.{find_task, has_id-select_tasks, IsKeyed}
use team_harness.Outbox.Lifecycle.{fixed, Step, finish, orphan, retry, give_up}
use team_harness.Outbox.Runs.{run_once-cases, run_once-IsKeyed}

-- a status that no worker changes
pub data Settled : TaskStatus → Type 0 where
  is_done : Settled done
  is_failed : Settled failed
  is_compensated : Settled orphan_compensated

module _ (w : Worker) (batch_size : ℕ) where
  IsSettled : ℕ → ℕ × String × String × String → Database → Type 0
  IsSettled k m db =
      (u : EmbeddingTask) × (find_task k db.tasks ≡ some u) × (fixed u ≡ m) × Settled u.status

  unclaimable :
      (now : ℕ) (s : TaskStatus) (at : Option ℕ)
      → Settled s
      → is_claimable w.lease_timeout now s at ≡ false
  unclaimable now done at is_done = refl
  unclaimable now failed at is_failed = refl
  unclaimable now orphan_compensated at is_compensated = refl
  unclaimable now pending at s = elim s [ ]
  unclaimable now in_progress at s = elim s [ ]
  unclaimable now (other a) at s = elim s [ ]

  run_times-IsSettled :
      (n k : ℕ) (m : ℕ × String × String × String) (db : Database)
      → IsKeyed db.tasks
      → IsSettled k m db
      → IsSettled k m (run_times w batch_size n db)
  unfolding run_times IsSettled
  run_times-IsSettled zero k m db keyed h = h
  run_times-IsSettled (suc n) k m db keyed (u, at, is, s) =
      run_times-IsSettled n k m (run_once w batch_size db).0
        (run_once-IsKeyed w batch_size db keyed).0
        (elim (run_once-cases w batch_size k u db keyed at) [
          | inl (left, same) ↦ (u, same, is, s)
          | inr ((found, can), ended) ↦
              absurd (cc (can, unclaimable (w.clock db.time_at) u.status u.leased_at s))
        ])

  -- the row of `k` waits, with one retry more than `t` has
  abbrev Waits : ℕ → EmbeddingTask → Database → Type 0
  Waits k t db =
      (u : EmbeddingTask) × (find_task k db.tasks ≡ some u)
      × (u.status ≡ pending)
      × (fixed u ≡ fixed t)
      × (u.retry_count ≡ suc t.retry_count)
      × (suc t.retry_count < t.max_retries)

  step_cases :
      (m r : ℕ) (s : TaskStatus) (k : ℕ)
      → Step m in_progress r s k
      → Settled s ⊎ ((s ≡ pending) × (k ≡ suc r) × (suc r < m))
  step_cases m r done k finish = inl is_done
  step_cases m r orphan_compensated k orphan = inl is_compensated
  step_cases m r pending k (retry more) = inr (refl, refl, more)
  step_cases m r failed k (give_up over) = inl is_failed
  step_cases m r in_progress k s = elim s [ ]
  step_cases m r (other a) k s = elim s [ ]

  run_once-Waits :
      (k : ℕ) (t : EmbeddingTask) (db : Database)
      → IsKeyed db.tasks
      → length db.tasks ≤ batch_size
      → find_task k db.tasks ≡ some t
      → t.status ≡ pending
      → let after = (run_once w batch_size db).0 in IsSettled k (fixed t) after ⊎ Waits k t after
  unfolding IsSettled
  run_once-Waits k t db keyed enough at waits =
      let now = w.clock db.time_at in
      elim (run_once-cases w batch_size k t db keyed at) [
        | inl (left, same) ↦ absurd (
            cc (
              left,
              has_id-select_tasks k t w batch_size now db.tasks enough at
                  (ap (λ s. is_claimable w.lease_timeout now s t.leased_at) waits),
            ))
        | inr (taken, (u, there, max, step)) ↦ elim (step_cases _ _ _ _ step) [
          | inl s ↦ inl (u, there, max, s)
          | inr (again, count, more) ↦ inr (u, there, again, max, count, more)
        ]
      ]

  most : (t u : EmbeddingTask) → fixed u ≡ fixed t → u.max_retries ≡ t.max_retries
  most t u = ap (λ (m : ℕ × String × String × String). m.0)

  -- The task that has ended is that of its asset, type and version.
  pub run_times-IsSettledAs :
      (n k : ℕ) (t : EmbeddingTask) (db : Database)
      → IsKeyed db.tasks
      → length db.tasks ≤ batch_size
      → find_task k db.tasks ≡ some t
      → t.status ≡ pending
      → t.max_retries ≤ suc n + t.retry_count
      → (u : EmbeddingTask) × (find_task k (run_times w batch_size (suc n) db).tasks ≡ some u)
        × (fixed u ≡ fixed t)
        × Settled u.status
  unfolding run_times IsSettled
  run_times-IsSettledAs zero k t db keyed enough at waits bound =
      elim (run_once-Waits k t db keyed enough at waits) [
        | inl settled ↦ settled
        | inr (u, there, again, max, count, more) ↦ absurd (omega (arith, most t u max))
      ]
  run_times-IsSettledAs (suc n) k t db keyed enough at waits bound =
      let (still, size) = run_once-IsKeyed w batch_size db keyed in
      let after = (run_once w batch_size db).0 in
      elim (run_once-Waits k t db keyed enough at waits) [
        | inl settled ↦ run_times-IsSettled (suc n) k (fixed t) after still settled
        | inr (u, there, again, max, count, more) ↦
            let (v, found, same, s) =
              run_times-IsSettledAs n k u after still (omega arith) there again
                (omega (arith, most t u max)) in
            (v, found, same ∙ max, s)
      ]

  -- Where the ids are a key and the batch holds the whole queue, a task that waits has ended after
  -- as many runs as it has retries left, and one at least: it is done, given up or compensated,
  -- whatever the embedding service and the vector store answer or raise and whatever the other
  -- tasks do.
  pub run_times-Settled :
      (n k : ℕ) (t : EmbeddingTask) (db : Database)
      → IsKeyed db.tasks
      → length db.tasks ≤ batch_size
      → find_task k db.tasks ≡ some t
      → t.status ≡ pending
      → t.max_retries ≤ suc n + t.retry_count
      → (u : EmbeddingTask) × (find_task k (run_times w batch_size (suc n) db).tasks ≡ some u)
        × Settled u.status
  run_times-Settled n k t db keyed enough at waits bound =
      let (u, there, same, s) = run_times-IsSettledAs n k t db keyed enough at waits bound in
      (u, there, s)
