-- ===== src/Promotion/Manager/Rounds.antt =====
-- The loop of server/distill_team/promotion/manager.py ends, and how far its counters come: each round
-- that goes on moves the rule one layer up.
use team_harness.Prelude.{
  ℕ, zero, suc, ◌+◌, ◌≤◌, ◌≡◌, refl, ap, sym, subst, ◌∙◌, true, false, Option, none, some, leb,
  arith, Bool-cases, inl, inr,
}
use team_harness.Prelude.Result.{Result, ok, raise, Result-cases}
use team_harness.Promotion.State.{
  Layer, project, rules_file, global_top, promoting, promoted, archived, DedupVerdict,
  exact_duplicate, subset_duplicate, cross_duplicate, no_duplicate, RuleEntry, PromotionState,
  is_top, Tools,
}
use team_harness.Promotion.Dedup.{
  MemoryLayout, DedupResult, check, checked_state, parse_dirs, scan_dirs,
}
use team_harness.Promotion.Manager.{
  Session, Turn, next, leave, failed, Services, is_promoting, is_pending, is_not_to_top,
  record_failure, duplicate, after_verdict, after_check, turn, rounds,
}
use team_harness.Promotion.Manager.Levels.{
  level, level_below, level_top, IsBounded, IsUnbroken, IsReady, IsChecked, IsReady-IsUnbroken,
  IsChecked-IsUnbroken,
}
use team_harness.Promotion.Manager.Stages.{TurnEnds, after_retest-TurnEnds}

module _ (t : Tools) (s : Services) (layout : MemoryLayout) where
  -- the first checks do not trip the breaker
  pub checked_state-IsChecked :
      (verdict : DedupVerdict) (now : ℕ) (st : PromotionState)
      → IsReady st
      → is_top st.current_layer ≡ false
      → IsChecked (checked_state t verdict now st)
        × ((checked_state t verdict now st).current_layer ≡ st.current_layer)
  checked_state-IsChecked verdict now st h below =
      let low = level_below st.current_layer below in
      let few : leb 6 (st.dedup_count + 1) ≡ false = ground (arith, h.dedup, low) in
      rw few (
        record {
          below = below;
          dedup = omega (arith, h.dedup);
          retest = h.retest;
          promote = h.promote;
          iteration = omega (arith, h.iteration);
          unbroken = h.unbroken;
          status = h.status ∙ rw below refl;
        },
        refl,
      )

  archived-IsBounded :
      (st : PromotionState) → IsChecked st → IsBounded (record st { status = archived })
  archived-IsBounded st h =
      let low = level_below st.current_layer h.below in
      record {
        dedup = omega (arith, h.dedup, low);
        retest = omega (arith, h.retest);
        promote = omega (arith, h.promote, low);
        iteration = omega (arith, h.iteration, low);
        unbroken = h.unbroken;
        decided = refl;
        reaches = refl;
      }

  duplicate-TurnEnds :
      (rule : RuleEntry) (existing : Option RuleEntry) (p : Session)
      → IsChecked p.state
      → TurnEnds (level p.state.current_layer) (duplicate t s layout rule existing p)
  unfolding duplicate record_failure
  duplicate-TurnEnds rule none p h = archived-IsBounded p.state h
  duplicate-TurnEnds rule (some existing) p h =
      elim (Result-cases (s.get_next_failure_case_id p.calls)) [
        | inl (e, is) ↦ rw (is, record_failure) (IsChecked-IsUnbroken p.state h)
        | inr (case_id, is) ↦
            rw (is, record_failure)
              (elim (Result-cases (
                s.record_trigger_failure (p.calls + 1) (record {
                  case_id = case_id;
                  rule_id = existing.rule_id;
                  new_rule_id = rule.rule_id;
                  occurred_at = s.clock p.time_at;
                }))) [
                  | inl (e, raised) ↦ rw raised (IsChecked-IsUnbroken p.state h)
                  | inr (b, done) ↦ rw done (archived-IsBounded p.state h)
                ])
      ]

  after_verdict-TurnEnds :
      (rule : RuleEntry) (verdict : DedupVerdict) (existing : Option RuleEntry) (p : Session)
      → IsChecked p.state
      → TurnEnds (level p.state.current_layer) (after_verdict t s layout rule verdict existing p)
  unfolding after_verdict
  after_verdict-TurnEnds rule exact_duplicate existing p h = duplicate-TurnEnds rule existing p h
  after_verdict-TurnEnds rule subset_duplicate existing p h = duplicate-TurnEnds rule existing p h
  after_verdict-TurnEnds rule cross_duplicate existing p h =
      after_retest-TurnEnds t s layout rule (s.clock p.time_at) p h
  after_verdict-TurnEnds rule no_duplicate existing p h =
      after_retest-TurnEnds t s layout rule (s.clock p.time_at) p h

  -- what a check answers
  abbrev pub Checks : ℕ → PromotionState → Result DedupResult → Type 0
  Checks now st (raise e) = Unit
  Checks now st (ok d) = d.state ≡ checked_state t d.verdict now st

  pub check-Checks :
      (rule : RuleEntry) (calls now : ℕ) (st : PromotionState)
      → Checks now st (check t s.adapter rule calls now st layout).1
  unfolding check
  check-Checks rule calls now st =
      elim (Result-cases (parse_dirs t s.adapter calls (scan_dirs t s.adapter rule st layout)).1) [
        | inl (e, is) ↦ rw (is, check) tt
        | inr (existing, is) ↦ rw (is, check) refl
      ]

  after_check-TurnEnds :
      (rule : RuleEntry) (now : ℕ) (found : Result DedupResult) (p : Session)
      → IsReady p.state
      → is_top p.state.current_layer ≡ false
      → Checks now p.state found
      → TurnEnds (level p.state.current_layer) (after_check t s layout rule found p)
  unfolding after_check
  after_check-TurnEnds rule now (raise e) p h below checks = IsReady-IsUnbroken p.state h
  after_check-TurnEnds rule now (ok d) p h below checks =
      let (fresh, same) = checked_state-IsChecked d.verdict now p.state h below in
      let checked : IsChecked d.state = subst IsChecked (sym checks) fresh in
      let layer : d.state.current_layer ≡ p.state.current_layer =
        ap (λ (x : PromotionState). x.current_layer) checks ∙ same in
      let goes_on : is_pending d.state.status ≡ false = ap is_pending checked.status in
      rw goes_on (
        subst
          (λ k. TurnEnds k (
            after_verdict t s layout rule d.verdict d.existing_rule
              (record p { state = d.state; dedup_result = some d; time_at = p.time_at + 1 })))
          (ap level layer)
          (after_verdict-TurnEnds rule d.verdict d.existing_rule
            (record p { state = d.state; dedup_result = some d; time_at = p.time_at + 1 }) checked))

  turn-TurnEnds :
      (rule : RuleEntry) (p : Session)
      → IsReady p.state
      → is_top p.state.current_layer ≡ false
      → TurnEnds (level p.state.current_layer) (turn t s layout rule p)
  unfolding turn
  turn-TurnEnds rule p h below =
      let low = level_below p.state.current_layer below in
      let few : leb 10 p.state.global_iteration ≡ false = ground (arith, h.iteration, low) in
      let now = s.clock p.time_at in
      let answer = check t s.adapter rule p.calls now p.state layout in
      rw few (
        after_check-TurnEnds rule now answer.1 (record p { calls = answer.0 }) h below
          (check-Checks rule p.calls now p.state))

  -- how the loop ends
  abbrev pub LoopEnds : Turn → Type 0
  LoopEnds (next rule p) = ⊥
  LoopEnds (leave rule p) = IsBounded p.state
  LoopEnds (failed e p) = IsUnbroken p.state

  abbrev pub Ends : Option Turn → Type 0
  Ends r = (x : Turn) × (r ≡ some x) × LoopEnds x

  top-IsBounded : (st : PromotionState) → IsReady st → is_top st.current_layer ≡ true → IsBounded st
  top-IsBounded st h top =
      let high : level st.current_layer ≤ 2 = level_top st.current_layer in
      let is : st.status ≡ promoted = h.status ∙ rw top refl in
      record {
        dedup = omega (arith, h.dedup, high);
        retest = omega (arith, h.retest);
        promote = omega (arith, h.promote, high);
        iteration = omega (arith, h.iteration, high);
        unbroken = h.unbroken;
        decided = ap is_pending is;
        reaches = ap is_not_to_top is;
      }
    where
      level_top : (l : Layer) → level l ≤ 2
      level_top project = omega arith
      level_top rules_file = omega arith
      level_top global_top = omega arith

  pub rounds-Ends :
      (n : ℕ) (rule : RuleEntry) (p : Session)
      → IsReady p.state
      → 3 ≤ n + level p.state.current_layer
      → Ends (rounds t s layout n rule p)
  unfolding rounds
  rounds-Ends zero rule p h enough = absurd (ground (arith, level_top p.state.current_layer))
    where
      top_level : (l : Layer) → level l ≤ 2
      top_level project = omega arith
      top_level rules_file = omega arith
      top_level global_top = omega arith
  rounds-Ends (suc n) rule p h enough = elim (Bool-cases (is_top p.state.current_layer)) [
    | inl top ↦
        let at_top : p.state.status ≡ promoted = h.status ∙ rw top refl in
        let ends : is_promoting p.state.status ≡ false = ap is_promoting at_top in
        rw ends (leave rule p, refl, top-IsBounded p.state h top)
    | inr below ↦
        let going : p.state.status ≡ promoting = h.status ∙ rw below refl in
        let goes_on : is_promoting p.state.status ≡ true = ap is_promoting going in
        rw goes_on (
          after_turn n (turn t s layout rule p) (level p.state.current_layer) enough
            (turn-TurnEnds rule p h below) (λ r q. rounds-Ends n r q))
  ]
    where
      after_turn :
          (n : ℕ) (x : Turn) (l : ℕ)
          → 3 ≤ suc n + l
          → TurnEnds l x
          → ((r : RuleEntry) (q : Session)
              → IsReady q.state
              → 3 ≤ n + level q.state.current_layer
              → Ends (rounds t s layout n r q))
          → Ends (elim x [
            | next r q ↦ rounds t s layout n r q
            | leave r q ↦ some (leave r q)
            | failed e q ↦ some (failed e q)
          ])
      after_turn n (next r q) l enough (ready, up) rest = rest r q ready (omega arith)
      after_turn n (leave r q) l enough bounded rest = (leave r q, refl, bounded)
      after_turn n (failed e q) l enough unbroken rest = (failed e q, refl, unbroken)
