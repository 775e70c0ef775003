-- ===== src/Promotion/Manager.antt =====
-- The whole promotion of a rule, server/distill_team/promotion/manager.py: the loop of the search for
-- duplicates, the retest and the promotion, then the archive, the graph and the cascade, on the models
-- of those parts. `Services` holds the adapter, archive.py and cross_project.py, whose calls are told
-- how many came before; `today` and the readings of the clock are given. A round that has no fuel left
-- answers `none`.
pub mod Levels
pub mod Stages
pub mod Rounds
pub mod Finish
pub mod Pipeline
pub mod Outcomes
pub mod Ends
pub mod Rejected
use Prim.Native.String.{◌++◌ as str_append}
use team_harness.Prelude.{
  ℕ, zero, suc, ◌+◌, String, Bool, true, false, Option, none, some, leb, if◌then◌else◌,
}
use team_harness.Prelude.Result.{Result, ok, raise}
use team_harness.Promotion.State.{
  PromotionStatus, promoting, promoted, pending_confirmation, not_to_top, archived, DedupVerdict,
  exact_duplicate, subset_duplicate, cross_duplicate, no_duplicate, global_iteration_max, RuleEntry,
  PromotionState, Tools,
}
use team_harness.Promotion.Retest.{RetestOutcome, run_retest}
use team_harness.Promotion.Dedup.{MemoryLayout, Adapter, DedupResult, check}
use team_harness.Promotion.Promote.{PromotionResult, promote}
use team_harness.Promotion.Graph.Types.{GraphFile}
use team_harness.Promotion.Cascade.{Cascade}

-- ArchiveEntry, without the text of its strategy
pub record ArchiveEntry : Type 0 where
  pub entry_id : String
  pub title : String
  pub promoted_to : String
  pub promoted_at : ℕ
  pub original_case : String
  pub source_session : String

-- TriggerFailureCase: its texts name the two rules
pub record TriggerFailureCase : Type 0 where
  pub case_id : String
  pub rule_id : String
  pub new_rule_id : String
  pub occurred_at : ℕ

pub record Services : Type 0 where
  pub adapter : Adapter
  pub clock : ℕ → ℕ
  pub today : String
  -- ArchiveManager
  pub get_next_entry_id : ℕ → Result String
  pub archive_experience : ℕ → ArchiveEntry → Result Bool
  pub get_next_failure_case_id : ℕ → Result String
  pub record_trigger_failure : ℕ → TriggerFailureCase → Result Bool
  -- CrossProjectPromoter.check_and_promote: the graph that it leaves, and `triggered`
  pub check_and_promote : ℕ → GraphFile → GraphFile × Result Bool
  -- the number of a node id behind its "R", and the node id of a number
  pub node_number : String → Option ℕ
  pub node_id_of : ℕ → String

-- the state of a promotion and its PromotionOutcome, with the graph and the places of the streams
pub record Session : Type 0 where
  pub state : PromotionState
  pub dedup_result : Option DedupResult
  pub retest_outcome : Option RetestOutcome
  pub promotion_result : Option PromotionResult
  pub archive_entry_id : Option String
  pub graph_node_id : Option String
  pub cross_project_triggered : Bool
  pub cascade_result : Option Cascade
  pub final_status : PromotionStatus
  pub error : Option String
  pub graph : GraphFile
  pub calls : ℕ
  pub time_at : ℕ

-- how a part of `promote` ends: the loop goes on, it is left, or there is an exception
pub data Turn : Type 0 where
  next : RuleEntry → Session → Turn
  leave : RuleEntry → Session → Turn
  failed : String → Session → Turn

abbrev pub is_pending : PromotionStatus → Bool
is_pending promoting = false
is_pending promoted = false
is_pending pending_confirmation = true
is_pending not_to_top = false
is_pending archived = false

abbrev pub is_not_to_top : PromotionStatus → Bool
is_not_to_top promoting = false
is_not_to_top promoted = false
is_not_to_top pending_confirmation = false
is_not_to_top not_to_top = true
is_not_to_top archived = false

abbrev pub is_promoting : PromotionStatus → Bool
is_promoting promoting = true
is_promoting promoted = false
is_promoting pending_confirmation = false
is_promoting not_to_top = false
is_promoting archived = false

abbrev pub with_status : PromotionStatus → Session → Session
with_status status p = record p { state = record p.state { status = status } }

module _ (t : Tools) (s : Services) (layout : MemoryLayout) where
  -- a duplicate: the state is archived
  abbrev pub archive_duplicate : RuleEntry → Session → Turn
  archive_duplicate rule p =
      leave rule (record (with_status archived p) { final_status = archived })

  -- _record_trigger_failure
  unfoldable pub record_failure : RuleEntry → RuleEntry → Session → Turn
  record_failure rule existing p = elim (s.get_next_failure_case_id p.calls) [
    | raise e ↦ failed e (record p { calls = p.calls + 1 })
    | ok case_id ↦
        let failure : TriggerFailureCase = record {
          case_id = case_id;
          rule_id = existing.rule_id;
          new_rule_id = rule.rule_id;
          occurred_at = s.clock p.time_at;
        } in
        let called : Session = record p { calls = p.calls + 2; time_at = p.time_at + 1 } in
        elim (s.record_trigger_failure (p.calls + 1) failure) [
          | raise e ↦ failed e called
          | ok b ↦ archive_duplicate rule called
        ]
  ]

  unfoldable pub duplicate : RuleEntry → Option RuleEntry → Session → Turn
  unfolding record_failure
  duplicate rule none p = archive_duplicate rule p
  duplicate rule (some existing) p = record_failure rule existing p

  -- what follows the promotion
  unfoldable pub after_promote : RuleEntry → Result PromotionResult → Session → Turn
  after_promote rule (raise e) p = failed e p
  after_promote rule (ok r) p =
      let moved : Session = record p {
        state = r.state;
        promotion_result = some r;
        time_at = p.time_at + (if r.is_promoted then 1 else 0);
      } in
      if is_not_to_top r.state.status
      then leave rule (record moved { final_status = not_to_top })
      else (if r.is_promoted then next r.rule moved else leave rule moved)

  -- an adapter is called where the rule moves up
  unfoldable pub after_outcome : RuleEntry → Bool → PromotionState → Session → Turn
  unfolding after_promote promote
  after_outcome rule true st p =
      after_promote rule (promote t s.adapter p.calls (s.clock p.time_at) rule st layout)
        (record p { calls = p.calls + 1 })
  after_outcome rule false st p = leave rule (record p { final_status = st.status })

  -- what follows the retest
  unfoldable pub after_retest : RuleEntry → Result RetestOutcome → Session → Turn
  unfolding after_outcome
  after_retest rule (raise e) p = failed e p
  after_retest rule (ok o) p =
      let tested : Session = record p {
        state = o.state;
        retest_outcome = some o;
        time_at = p.time_at + (if o.should_promote then 0 else 1);
      } in
      if is_pending o.state.status
      then leave rule (record tested { error = some "回测循环熔断" })
      else after_outcome rule o.should_promote o.state tested

  -- the branches of the verdict
  unfoldable pub after_verdict : RuleEntry → DedupVerdict → Option RuleEntry → Session → Turn
  unfolding duplicate after_retest run_retest
  after_verdict rule exact_duplicate existing p = duplicate rule existing p
  after_verdict rule subset_duplicate existing p = duplicate rule existing p
  after_verdict rule cross_duplicate existing p =
      after_retest rule (run_retest t rule (s.clock p.time_at) p.state) p
  after_verdict rule no_duplicate existing p =
      after_retest rule (run_retest t rule (s.clock p.time_at) p.state) p

  -- what follows the search for duplicates
  unfoldable pub after_check : RuleEntry → Result DedupResult → Session → Turn
  unfolding after_verdict
  after_check rule (raise e) p = failed e p
  after_check rule (ok d) p =
      let checked : Session = record p {
        state = d.state;
        dedup_result = some d;
        time_at = p.time_at + 1;
      } in
      if is_pending d.state.status
      then leave rule (record checked { error = some "查重循环熔断" })
      else after_verdict rule d.verdict d.existing_rule checked

  -- the body of the loop
  unfoldable pub turn : RuleEntry → Session → Turn
  unfolding after_check check
  turn rule p =
      let (calls, found) = check t s.adapter rule p.calls (s.clock p.time_at) p.state layout in
      if leb global_iteration_max p.state.global_iteration
      then leave rule (record p {
        state = record p.state {
          status = pending_confirmation;
          circuit_breaker_reason =
              some (str_append "全局迭代熔断：" (str_append (t.show p.state.global_iteration) "次"));
        };
      })
      else after_check rule found (record p { calls = calls })

  -- while state.status == PROMOTING
  unfoldable pub rounds : ℕ → RuleEntry → Session → Option Turn
  unfolding turn
  rounds zero rule p = none
  rounds (suc n) rule p =
      if is_promoting p.state.status
      then elim (turn rule p) [
        | next r q ↦ rounds n r q
        | leave r q ↦ some (leave r q)
        | failed e q ↦ some (failed e q)
      ]
      else some (leave rule p)
