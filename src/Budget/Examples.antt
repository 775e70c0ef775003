-- ===== src/Budget/Examples.antt =====
-- Runs of the budgets: a member has 100 tokens a day, and two candidates wait.
use team_harness.Prelude.{
  ℕ, ◌+◌, ◌≤◌, String, List, ◌++◌, contains, min, ◌≡◌, true, false, none, some, [], ◌∷◌, length,
  ◌==◌, arith, if◌then◌else◌,
}
use team_harness.Prelude.Dict
use team_harness.Prelude.Result.{Result, ok, raise}
use team_harness.Budget.{Calendar, LlmBudget, BudgetManager, remaining}
use team_harness.Budget.Bounds.{consume_all, total, consume_all-min}
use team_harness.Budget.Pending.{
  PendingCandidate, PendingStore, CallbackResult, process_pending, limited_candidates, list_all,
}
use team_harness.Budget.Counts.{taken, lines, Spends, process_pending-Handled}

abbrev budget : LlmBudget
budget = record {
  member_id = "alice";
  daily_token_budget = 100;
  used = 0;
  reset_at = "tomorrow";
  degraded = false;
}

consume_all-min_example :
    let (after, granted) = consume_all (60 ∷ 30 ∷ 40 ∷ []) budget in
    (granted ≡ min (total (60 ∷ 30 ∷ 40 ∷ [])) (remaining budget))
    × (after.used ≡ 0 + granted)
    × (after.used ≤ after.daily_token_budget)
consume_all-min_example = consume_all-min (60 ∷ 30 ∷ 40 ∷ []) budget (omega arith)

abbrev calendar : Calendar
calendar = record { next_day = λ n. "tomorrow"; now = λ n. n; parse = λ s. some 1000 }

abbrev candidate : PendingCandidate
candidate = record {
  candidate_id = "c1";
  intent = [];
  created_at = "t1";
  reason = "budget_exhausted";
  source_session_ids = [];
}

abbrev waiting : PendingStore
waiting =
    ("c1", some candidate)
    ∷ ("c2", some (record candidate { candidate_id = "c2"; created_at = "t2" }))
    ∷ []

-- the callback takes the first candidate and raises on the second
abbrev deep : ℕ → PendingCandidate → Result CallbackResult
deep n cand =
    if cand.candidate_id == "c1"
    then ok (record { success = true; total_tokens = 60; error = "" })
    else raise "no model"

abbrev manager : BudgetManager
manager = record { default_daily_budget = 100; budgets = ("alice", budget) ∷ []; time_at = 0 }

process_pending-Handled_example :
    let (m, after, r) = process_pending calendar deep "alice" none manager waiting in
    (done : List PendingCandidate) × (left : List PendingCandidate) × (limited_candidates none
        (list_all waiting)
      ≡ done ++ left)
    × (r.processed ≡ length done)
    × (r.succeeded + r.failed ≡ r.processed)
    × (r.succeeded ≡ length (taken calendar deep "alice" 0 done))
    × (r.errors ≡ lines calendar deep "alice" 0 done)
    × Spends calendar deep "alice" 0 done left manager m
    × ((i : String)
        → Dict.get i after
          ≡ (if contains i (taken calendar deep "alice" 0 done) then none else Dict.get i waiting))
process_pending-Handled_example = process_pending-Handled calendar deep "alice" none manager waiting
