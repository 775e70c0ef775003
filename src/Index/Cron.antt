-- ===== src/Index/Cron.antt =====
-- The cron job of server/infra_db/reconciliation.py: it compares the commit that the index has with
-- the head, and counts the periods in which the index lags. The head and the synchronisation are
-- injected; `Services` is told how many runs came before. The texts of the log are not modelled.
pub mod Lag
use Prim.Native.String.{◌++◌ as str_append}
use team_harness.Prelude.{
  ℕ, zero, suc, ◌+◌, String, Bool, true, false, Option, none, some, List, [], ◌∷◌, leb, ◌==◌,
  nonempty, if◌then◌else◌,
}
use team_harness.Prelude.Result.{Result, ok, raise}

-- IndexSyncState, the row of "singleton", as far as it is read and written here
pub record IndexSyncState : Type 0 where
  pub last_synced_commit : String
  pub status : String
  pub lag_periods : ℕ

pub record ReconcileResult : Type 0 where
  pub head_commit : String
  pub last_synced_commit : String
  pub triggered_sync : Bool
  pub lag_periods : ℕ
  pub alert_lagging : Bool
  pub error : Option String

pub record Services : Type 0 where
  -- head_resolver() or ""
  pub head : ℕ → Result String
  -- trigger_sync: the row afterwards, and its list of errors
  pub trigger_sync :
      ℕ → String → Option IndexSyncState → Option IndexSyncState × Result (List String)
  pub lag_threshold : ℕ

abbrev pub new_result : ReconcileResult
new_result = record {
  head_commit = "";
  last_synced_commit = "";
  triggered_sync = false;
  lag_periods = 0;
  alert_lagging = false;
  error = none;
}

-- the row, which is made where it is missing
abbrev pub or_new : Option IndexSyncState → IndexSyncState
or_new none = record { last_synced_commit = ""; status = "ok"; lag_periods = 0 }
or_new (some s) = s

-- _increment_lag_periods
abbrev pub increment_lag_periods : Option IndexSyncState → Option IndexSyncState
increment_lag_periods none = none
increment_lag_periods (some s) =
    some (record s { lag_periods = s.lag_periods + 1; status = "lagging" })

-- _reset_lag_periods
abbrev pub reset_lag_periods : Option IndexSyncState → Option IndexSyncState
reset_lag_periods none = none
reset_lag_periods (some s) = some (record s { lag_periods = 0; status = "ok" })

-- _read_lag_periods
abbrev pub read_lag_periods : Option IndexSyncState → ℕ
read_lag_periods none = 0
read_lag_periods (some s) = s.lag_periods

-- ";".join(errors)
unfoldable pub join_errors : String → List String → String
join_errors e [] = e
join_errors e (f ∷ fs) = str_append e (str_append ";" (join_errors f fs))

-- what follows the synchronisation: the row, and the error
unfoldable pub after_sync :
    Option IndexSyncState × Result (List String) → Option IndexSyncState × Option String
unfolding join_errors
after_sync (row, ok []) = (reset_lag_periods row, none)
after_sync (row, ok (e ∷ es)) = (increment_lag_periods row, some (join_errors e es))
after_sync (row, raise e) = (increment_lag_periods row, some (str_append "trigger_sync 失败: " e))

module _ (s : Services) where
  -- the index lags: it is synchronised, and the periods are counted
  unfoldable pub run_sync : ℕ → String → IndexSyncState → Option IndexSyncState × ReconcileResult
  unfolding after_sync
  run_sync n head row =
      let (after, error) = after_sync (s.trigger_sync n head (some row)) in
      let lag = read_lag_periods after in
      (
        after,
        record {
          head_commit = head;
          last_synced_commit = row.last_synced_commit;
          triggered_sync = true;
          lag_periods = lag;
          alert_lagging = leb s.lag_threshold lag;
          error = error;
        },
      )

  unfoldable pub run_head : ℕ → String → IndexSyncState → Option IndexSyncState × ReconcileResult
  unfolding run_sync
  run_head n head row =
      let found : ReconcileResult = record new_result {
        head_commit = head;
        last_synced_commit = row.last_synced_commit;
      } in
      if nonempty head
      then (if row.last_synced_commit == head
          then (some (record row { lag_periods = 0; status = "ok" }), found)
          else run_sync n head row)
      else (some row, record found { error = some "head_commit 为空，跳过" })

  -- run_once, the run of number n
  unfoldable pub run_once : ℕ → Option IndexSyncState → Option IndexSyncState × ReconcileResult
  unfolding run_head
  run_once n row = elim (s.head n) [
    | raise e ↦ (row, record new_result { error = some (str_append "head_resolver 失败: " e) })
    | ok head ↦ run_head n head (or_new row)
  ]

  -- the runs of the background thread, as far as it has run
  unfoldable pub run_times : ℕ → Option IndexSyncState → Option IndexSyncState
  unfolding run_once
  run_times zero row = row
  run_times (suc n) row = (run_once n (run_times n row)).0
