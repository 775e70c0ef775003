-- ===== src/Index/Cron/Lag.antt =====
-- How the cron job of server/infra_db/reconciliation.py counts the periods that the index lags.
use team_harness.Prelude.{
  ℕ, zero, suc, ◌+◌, ◌≡◌, refl, ap, ◌∙◌, String, Bool, true, false, some, List, [], ◌∷◌, leb, ◌==◌,
  nonempty, arith,
}
use team_harness.Prelude.Result.{Result, ok, raise}
use team_harness.Index.Cron.{
  IndexSyncState, Services, after_sync, read_lag_periods, run_sync, run_once, run_times,
}

-- the synchronisation raised, or returned errors
abbrev pub is_failure : Result (List String) → Bool
is_failure (ok []) = false
is_failure (ok (e ∷ es)) = true
is_failure (raise e) = true

module _ (s : Services) where
  -- where the index stands at a commit, every run finds another head, and its synchronisation fails
  -- and leaves the row
  abbrev pub Fails : String → Type 0
  Fails commit =
      (n : ℕ) (row : IndexSyncState)
      → row.last_synced_commit ≡ commit
      → (head : String) × (error : Result (List String)) × (s.head n ≡ ok head)
        × (nonempty head ≡ true)
        × ((row.last_synced_commit == head) ≡ false)
        × (s.trigger_sync n head (some row) ≡ (some row, error))
        × (is_failure error ≡ true)

  after_sync-failure :
      (row : IndexSyncState) (x : Result (List String))
      → is_failure x ≡ true
      → (after_sync (some row, x)).0
        ≡ some (record row { lag_periods = row.lag_periods + 1; status = "lagging" })
  unfolding after_sync
  after_sync-failure row (ok []) h = absurd (cc)
  after_sync-failure row (ok (e ∷ es)) h = refl
  after_sync-failure row (raise e) h = refl

  run_sync-lag :
      (n : ℕ) (head : String) (row now : IndexSyncState)
      → (after_sync (s.trigger_sync n head (some row))).0 ≡ some now
      → let (after, r) = run_sync s n head row in
        (after ≡ some now)
        × (r.lag_periods ≡ now.lag_periods)
        × (r.alert_lagging ≡ leb s.lag_threshold now.lag_periods)
        × (r.triggered_sync ≡ true)
  unfolding run_sync
  run_sync-lag n head row now is =
      (is, ap read_lag_periods is, ap (λ x. leb s.lag_threshold (read_lag_periods x)) is, refl)

  -- one run that fails
  run_once-lag :
      (n : ℕ) (commit : String) (row : IndexSyncState)
      → Fails commit
      → row.last_synced_commit ≡ commit
      → let (after, r) = run_once s n (some row) in
        (after ≡ some (record row { lag_periods = row.lag_periods + 1; status = "lagging" }))
        × (r.lag_periods ≡ row.lag_periods + 1)
        × (r.alert_lagging ≡ leb s.lag_threshold (row.lag_periods + 1))
        × (r.triggered_sync ≡ true)
  unfolding run_once
  run_once-lag n commit row fails at =
      let (head, error, found, named, newer, sync, failed) = fails n row at in
      let after : (after_sync (s.trigger_sync n head (some row))).0
          ≡ some (record row { lag_periods = row.lag_periods + 1; status = "lagging" }) =
        ap (λ x. (after_sync x).0) sync ∙ after_sync-failure row error failed in
      rw (found, run_once)
        (rw named (
          rw newer (
            run_sync-lag n head row
              (record row { lag_periods = row.lag_periods + 1; status = "lagging" }) after)))

  -- the runs that fail so far
  lagging :
      (k : ℕ) (commit : String) (row : IndexSyncState)
      → Fails commit
      → row.last_synced_commit ≡ commit
      → (now : IndexSyncState) × (run_times s k (some row) ≡ some now)
        × (now.lag_periods ≡ row.lag_periods + k)
        × (now.last_synced_commit ≡ commit)
  unfolding run_times
  lagging zero commit row fails at = (row, refl, omega arith, at)
  lagging (suc k) commit row fails at =
      let (now, is, lag, same) = lagging k commit row fails at in
      let (after, periods, alert, triggered) = run_once-lag k commit now fails same in
      (
        record now { lag_periods = now.lag_periods + 1; status = "lagging" },
        ap (λ x. (run_once s k x).0) is ∙ after,
        omega arith,
        same,
      )

  -- Where the index stands at a commit and every synchronisation with a newer head fails and leaves
  -- the row, each run counts one more period, and the run after k failures alerts exactly if k + 1
  -- periods more than at the start reach the threshold.
  pub run_times-lag :
      (k : ℕ) (commit : String) (row : IndexSyncState)
      → Fails commit
      → row.last_synced_commit ≡ commit
      → let after = run_times s k (some row) in
        let r = (run_once s k after).1 in
        ((now : IndexSyncState) × (after ≡ some now)
          × (now.lag_periods ≡ row.lag_periods + k)
          × (now.last_synced_commit ≡ commit))
        × (r.triggered_sync ≡ true)
        × (r.lag_periods ≡ row.lag_periods + k + 1)
        × (r.alert_lagging ≡ leb s.lag_threshold (row.lag_periods + k + 1))
  run_times-lag k commit row fails at =
      let (now, is, lag, same) = lagging k commit row fails at in
      let (after, periods, alert, triggered) = run_once-lag k commit now fails same in
      rw is (
        (now, refl, lag, same),
        triggered,
        periods ∙ ap (λ l. l + 1) lag,
        alert ∙ ap (λ l. leb s.lag_threshold (l + 1)) lag,
      )
