-- ===== src/Outbox/Runs.antt =====
-- What one run of the worker does to each row of the queue.
use team_harness.Prelude.{
  some-injective, All, All-map, ℕ, ◌+◌, String, ◌≡◌, ◌≢◌, ◌⊎◌, refl, sym, ap, ◌∙◌, subst, true,
  false, Option, some, List, [], ◌∷◌, map, length, eqb, arith, Bool-cases, inl, inr,
}
use team_harness.Outbox.Tables.{
  TaskStatus, pending, in_progress, done, failed, orphan_compensated, other, EmbeddingTask, Worker,
  Database, save, is_claimable, settled,
}
use team_harness.Outbox.{lease, select_tasks, claim_tasks, execute_task, run_tasks, run_once}
use team_harness.Outbox.Rows.{
  find_task, has_id, IsKeyed, HasRow, save-HasRow, map-All, has_id-map, save_all-IsKeyed,
  save_all-HasRow, find_task-save_all_other, find_task-save_other, find_task-save, length-save,
  save-IsKeyed, select_tasks-All,
}
use team_harness.Outbox.Lifecycle.{Claim, claim, reclaim, Step, fixed, turn, tasks-turn}

module _ (w : Worker) where
  -- the row of `k` is one that a worker has taken, with `r` retries and what is fixed, and has ended
  abbrev pub Ended : ℕ → ℕ → ℕ × String × String × String → Database → Type 0
  Ended k r m db =
      (u : EmbeddingTask) × (find_task k db.tasks ≡ some u)
      × (fixed u ≡ m)
      × Step m.0 in_progress r u.status u.retry_count

  -- it counts `r` retries, and has what is fixed
  abbrev SameCounts : ℕ → ℕ → ℕ × String × String × String → EmbeddingTask → Type 0
  SameCounts k r m c = c.id ≡ k → (c.retry_count ≡ r) × (fixed c ≡ m)

  turn-Ended :
      (r : ℕ) (m : ℕ × String × String × String) (c : EmbeddingTask) (db : Database)
      → HasRow c.id db.tasks
      → (c.retry_count ≡ r) × (fixed c ≡ m)
      → Ended c.id r m (turn w c db)
  turn-Ended r m c db (t, at) (retries, most) =
      let (u, same, (id, max, step)) = tasks-turn w c db in
      (
        u,
        ap (find_task c.id) same
            ∙ subst (λ k. find_task k (save u db.tasks) ≡ some u) id
                (find_task-save u t db.tasks (ap (λ k. find_task k db.tasks) id ∙ at)),
        max ∙ most,
        subst (λ (k : ℕ × String × String × String). Step k.0 in_progress r u.status u.retry_count)
            most
            (subst (λ k. Step c.max_retries in_progress k u.status u.retry_count) retries step),
      )

  find_task-turn_other :
      (k : ℕ) (c : EmbeddingTask) (db : Database)
      → c.id ≢ k
      → find_task k (turn w c db).tasks ≡ find_task k db.tasks
  find_task-turn_other k c db ne =
      let (u, same, (id, max, step)) = tasks-turn w c db in
      ap (find_task k) same ∙ find_task-save_other k u db.tasks (λ is. ne (sym id ∙ is))

  turn-HasRow :
      (k : ℕ) (c : EmbeddingTask) (db : Database) → HasRow k db.tasks → HasRow k (turn w c db).tasks
  turn-HasRow k c db found =
      let (u, same, rest) = tasks-turn w c db in
      subst (HasRow k) (sym same) (save-HasRow k u db.tasks found)

  -- the loop leaves a row that it has not been given, and ends one that it has
  run_tasks-Ended :
      (k r : ℕ) (m : ℕ × String × String × String) (ts : List EmbeddingTask) (n : ℕ) (db : Database)
      → All (SameCounts k r m) ts
      → HasRow k db.tasks
      → ((has_id k ts ≡ false) × (find_task k (run_tasks w ts n db).0.tasks ≡ find_task k db.tasks))
        ⊎ ((has_id k ts ≡ true) × Ended k r m (run_tasks w ts n db).0)
  unfolding run_tasks has_id
  run_tasks-Ended k r m [] n db h found = inl (refl, refl)
  run_tasks-Ended k r m (c ∷ cs) n db (p, h) found =
      let rest =
        run_tasks-Ended k r m cs (n + (settled c (execute_task w c db)).2) (turn w c db) h
          (turn-HasRow k c db found) in
      elim (Bool-cases (eqb c.id k)) [
        | inl same ↦
            let is : c.id ≡ k = ground arith in
            let (u, at, max, step) =
              subst (λ k. Ended k r m (turn w c db)) is
                (turn-Ended r m c db (subst (λ k. HasRow k db.tasks) (sym is) found) (p is)) in
            elim rest [
              | inl (left, unchanged) ↦ inr (rw same refl, (u, unchanged ∙ at, max, step))
              | inr (later, ended) ↦ inr (rw same refl, ended)
            ]
        | inr differs ↦ elim rest [
          | inl (left, unchanged) ↦
              inl (rw (differs, left) refl, unchanged ∙ find_task-turn_other k c db (ground arith))
          | inr (later, ended) ↦ inr (rw (differs, later) refl, ended)
        ]
      ]

  is_claimable-Claim :
      (timeout now : ℕ) (s : TaskStatus) (at : Option ℕ)
      → is_claimable timeout now s at ≡ true
      → Claim s
  is_claimable-Claim timeout now pending at h = claim
  is_claimable-Claim timeout now in_progress at h = reclaim
  is_claimable-Claim timeout now done at h = absurd (cc)
  is_claimable-Claim timeout now failed at h = absurd (cc)
  is_claimable-Claim timeout now orphan_compensated at h = absurd (cc)
  is_claimable-Claim timeout now (other s) at h = absurd (cc)

  -- the rows that a worker takes at `now`: each is the row of its id, and can be taken
  abbrev IsTaken : ℕ → List EmbeddingTask → EmbeddingTask → Type 0
  IsTaken now ts c =
      (find_task c.id ts ≡ some c) × (is_claimable w.lease_timeout now c.status c.leased_at ≡ true)

  find_task-IsTaken :
      (k now : ℕ) (t : EmbeddingTask) (ts cs : List EmbeddingTask)
      → All (IsTaken now ts) cs
      → find_task k ts ≡ some t
      → has_id k cs ≡ true
      → IsTaken now ts t
  unfolding has_id
  find_task-IsTaken k now t ts [] h at there = absurd (cc)
  find_task-IsTaken k now t ts (c ∷ cs) ((found, can), h) at there =
      elim (Bool-cases (eqb c.id k)) [
        | inl same ↦
            let is : some c ≡ some t = sym found ∙ ap (λ i. find_task i ts) (ground arith) ∙ at in
            subst (IsTaken now ts) (some-injective is) (found, can)
        | inr differs ↦ find_task-IsTaken k now t ts cs h at (ground arith)
      ]

  -- what a run of the worker does to the row of `k`
  pub run_once-cases :
      (batch_size k : ℕ) (t : EmbeddingTask) (db : Database)
      → IsKeyed db.tasks
      → find_task k db.tasks ≡ some t
      → let now = w.clock db.time_at in
        let cs = select_tasks w batch_size now db.tasks in
        let after = (run_once w batch_size db).0 in
        ((has_id k cs ≡ false) × (find_task k after.tasks ≡ some t))
        ⊎ (IsTaken now db.tasks t × Ended k t.retry_count (fixed t) after)
  unfolding run_once claim_tasks
  run_once-cases batch_size k t db keyed at =
      let now = w.clock db.time_at in
      let cs = select_tasks w batch_size now db.tasks in
      let P : EmbeddingTask → Type 0 = λ c. find_task c.id db.tasks ≡ some c in
      let taken : All (IsTaken now db.tasks) cs =
        select_tasks-All P w batch_size now db.tasks keyed in
      let counts =
        map-All (IsTaken now db.tasks) (SameCounts k t.retry_count (fixed t)) (lease w now) cs
          (λ c (found, can) is.
            let same : c ≡ t =
              some-injective (sym found ∙ ap (λ i. find_task i db.tasks) is ∙ at) in
            (ap (λ (x : EmbeddingTask). x.retry_count) same, ap fixed same))
          taken in
      let claimed = (claim_tasks w batch_size db).0 in
      let ids = has_id-map k (lease w now) cs (λ c. refl) in
      elim (run_tasks-Ended k t.retry_count (fixed t) (map (lease w now) cs) 0 claimed counts
        (save_all-HasRow k (map (lease w now) cs) db.tasks (t, at))) [
          | inl (left, unchanged) ↦ inl (
            sym ids ∙ left,
            unchanged ∙ find_task-save_all_other k (map (lease w now) cs) db.tasks left ∙ at,
          )
          | inr (there, ended) ↦
              inr (find_task-IsTaken k now t db.tasks cs taken at (sym ids ∙ there), ended)
        ]

  -- Where the ids are a key, a run either leaves the row of a task or takes it from a status that a
  -- worker may take along one step of the documented states: done or compensated with the same
  -- number of retries, waiting again with one more that is under the limit, or failed with one more
  -- that reaches it.
  pub run_once-Step :
      (batch_size k : ℕ) (t : EmbeddingTask) (db : Database)
      → IsKeyed db.tasks
      → find_task k db.tasks ≡ some t
      → (u : EmbeddingTask) × (find_task k (run_once w batch_size db).0.tasks ≡ some u)
        × ((u ≡ t)
            ⊎ (Claim t.status
                × (u.max_retries ≡ t.max_retries)
                × Step t.max_retries in_progress t.retry_count u.status u.retry_count))
  run_once-Step batch_size k t db keyed at = elim (run_once-cases batch_size k t db keyed at) [
    | inl (left, same) ↦ (t, same, inl refl)
    | inr ((found, can), (u, now, max, step)) ↦ (
      u,
      now,
      inr (
        is_claimable-Claim w.lease_timeout (w.clock db.time_at) t.status t.leased_at can,
        ap (λ (x : ℕ × String × String × String). x.0) max,
        step,
      ),
    )
  ]

  run_tasks-IsKeyed :
      (ts : List EmbeddingTask) (n : ℕ) (db : Database)
      → All (λ (c : EmbeddingTask). HasRow c.id db.tasks) ts
      → IsKeyed db.tasks
      → IsKeyed (run_tasks w ts n db).0.tasks
        × (length (run_tasks w ts n db).0.tasks ≡ length db.tasks)
  unfolding run_tasks
  run_tasks-IsKeyed [] n db found h = (h, refl)
  run_tasks-IsKeyed (c ∷ cs) n db ((t, at), found) h =
      let (u, same, (id, max, step)) = tasks-turn w c db in
      let keyed = save-IsKeyed u t db.tasks (ap (λ i. find_task i db.tasks) id ∙ at) h in
      let (still, size) =
        run_tasks-IsKeyed cs (n + (settled c (execute_task w c db)).2) (turn w c db)
          (All-map cs (λ v f. turn-HasRow v.id c db f) found) (subst IsKeyed (sym same) keyed) in
      (still, size ∙ ap length same ∙ length-save u db.tasks)

  -- A run keeps the key of the queue and the number of its rows.
  pub run_once-IsKeyed :
      (batch_size : ℕ) (db : Database)
      → IsKeyed db.tasks
      → let after = (run_once w batch_size db).0 in
        IsKeyed after.tasks × (length after.tasks ≡ length db.tasks)
  unfolding run_once claim_tasks
  run_once-IsKeyed batch_size db keyed =
      let now = w.clock db.time_at in
      let cs = select_tasks w batch_size now db.tasks in
      let P : EmbeddingTask → Type 0 = λ c. find_task c.id db.tasks ≡ some c in
      let ts = map (lease w now) cs in
      let found : All (λ (c : EmbeddingTask). HasRow c.id db.tasks) ts =
        map-All (IsTaken now db.tasks) (λ (c : EmbeddingTask). HasRow c.id db.tasks) (lease w now)
          cs (λ c (is, can). (c, is)) (select_tasks-All P w batch_size now db.tasks keyed) in
      let (claimed, size) = save_all-IsKeyed ts db.tasks found keyed in
      let (after, kept) =
        run_tasks-IsKeyed ts 0 (claim_tasks w batch_size db).0
          (All-map ts (λ c f. save_all-HasRow c.id ts db.tasks f) found) claimed in
      (after, kept ∙ size)
