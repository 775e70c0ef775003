-- ===== src/Promotion/Manager/Pipeline.antt =====
-- `promote` and `promote_batch` of server/distill_team/promotion/manager.py as a whole: the loop, the
-- steps behind it, and the exception of any of them.
use team_harness.Prelude.{ℕ, ◌+◌, String, false, Option, none, some, List, [], ◌∷◌, if◌then◌else◌}
use team_harness.Promotion.State.{
  project, PromotionStatus, promoting, promoted, pending_confirmation, RuleEntry, PromotionState,
  Tools,
}
use team_harness.Promotion.Dedup.{MemoryLayout}
use team_harness.Promotion.Graph.Types.{GraphFile}
use team_harness.Promotion.Manager.{
  Services, Session, Turn, next, leave, failed, is_promoting, with_status, rounds,
}
use team_harness.Promotion.Manager.Finish.{archive_step, register_step, cross_step}

-- a step behind another: an exception leaves the rest out
unfoldable pub then_step : Turn → (RuleEntry → Session → Option Turn) → Option Turn
then_step (next rule p) f = f rule p
then_step (leave rule p) f = f rule p
then_step (failed e p) f = some (failed e p)

abbrev pub then_option : Option Turn → (RuleEntry → Session → Option Turn) → Option Turn
then_option none f = none
then_option (some x) f = then_step x f

-- the status at the end, and the exception of any step
abbrev pub end_status : PromotionStatus → PromotionStatus
end_status status = if is_promoting status then promoted else status

unfoldable pub conclude : Turn → Session
conclude (next rule p) = record (with_status (end_status p.state.status) p) {
  final_status = end_status p.state.status;
}
conclude (leave rule p) = record (with_status (end_status p.state.status) p) {
  final_status = end_status p.state.status;
}
conclude (failed e p) = record (with_status pending_confirmation p) {
  error = some e;
  final_status = pending_confirmation;
}

module _ (t : Tools) (s : Services) (layout : MemoryLayout) where
  -- steps 4 to 7
  unfoldable pub finish : String → RuleEntry → Session → Option Turn
  unfolding then_step archive_step register_step cross_step
  finish source_session rule p =
      then_option
        (then_step (archive_step t s layout source_session rule p)
          (λ r q. register_step t s layout r q.archive_entry_id q))
        (cross_step t s layout)

  abbrev pub new_state : List String → ℕ → PromotionState
  new_state source_cases time_at = record {
    current_layer = project;
    status = promoting;
    dedup_count = 0;
    retest_count = 0;
    promote_count = 0;
    global_iteration = 0;
    last_dedup_verdict = none;
    last_retest_result = none;
    last_strategy = none;
    source_case_ids = source_cases;
    is_archived = false;
    archive_id = none;
    archived_at = none;
    graph_node_id = none;
    circuit_breaker_reason = none;
    created_at = s.clock time_at;
    updated_at = s.clock (time_at + 1);
  }

  abbrev pub new_session : List String → GraphFile → ℕ → ℕ → Session
  new_session source_cases g calls time_at = record {
    state = new_state source_cases time_at;
    dedup_result = none;
    retest_outcome = none;
    promotion_result = none;
    archive_entry_id = none;
    graph_node_id = none;
    cross_project_triggered = false;
    cascade_result = none;
    final_status = promoting;
    error = none;
    graph = g;
    calls = calls;
    time_at = time_at + 2;
  }

  -- PromotionOrchestrator.promote, with fuel for three rounds
  unfoldable pub promote_rule :
      RuleEntry → List String → String → GraphFile → ℕ → ℕ → Option Session
  unfolding rounds finish conclude
  promote_rule rule source_cases source_session g calls time_at =
      elim (then_option (rounds t s layout 3 rule (new_session source_cases g calls time_at))
        (finish source_session)) [ none ↦ none | some x ↦ some (conclude x) ]

  -- promote_batch
  unfoldable pub promote_batch : List RuleEntry → String → GraphFile → ℕ → ℕ → Option (List Session)
  unfolding promote_rule
  promote_batch [] source_session g calls time_at = some []
  promote_batch (r ∷ rs) source_session g calls time_at =
      elim (promote_rule r [] source_session g calls time_at) [
        | none ↦ none
        | some p ↦ elim (promote_batch rs source_session p.graph p.calls p.time_at) [
          | none ↦ none
          | some ps ↦ some (p ∷ ps)
        ]
      ]
