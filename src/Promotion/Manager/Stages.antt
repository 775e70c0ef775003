-- ===== src/Promotion/Manager/Stages.antt =====
-- The stages of a round of server/distill_team/promotion/manager.py: how far the retest and the
-- promotion bring the counters of a state.
use team_harness.Prelude.{
  ℕ, suc, ◌+◌, ◌≡◌, refl, ap, sym, subst, ◌∙◌, Bool, true, false, leb, arith, if◌then◌else◌,
  Bool-cases, inl, inr,
}
use team_harness.Prelude.Result.{Result, ok, raise, Result-cases}
use team_harness.Promotion.State.{
  Layer, project, rules_file, global_top, promoting, RuleEntry, PromotionState, is_top, Tools,
  retest_limit,
}
use team_harness.Promotion.Retest.{RetestOutcome, run_retest}
use team_harness.Promotion.Retest.Outcomes.{IsCounted, run_retest-Retested}
use team_harness.Promotion.Dedup.{MemoryLayout}
use team_harness.Promotion.Promote.{
  PromotionResult, promote, check_promotion_eligibility, move_up, promoted_state, write_to_layer,
  abstract_rule, stays,
}
use team_harness.Promotion.Manager.{
  Session, Turn, next, leave, failed, Services, is_pending, is_not_to_top, after_promote,
  after_outcome, after_retest,
}
use team_harness.Promotion.Manager.Levels.{
  level, level_below, IsBounded, IsUnbroken, IsReady, IsChecked, IsChecked-IsUnbroken,
}

-- a state that goes on is one layer higher
abbrev pub TurnEnds : ℕ → Turn → Type 0
TurnEnds l (next rule p) = IsReady p.state × (level p.state.current_layer ≡ suc l)
TurnEnds l (leave rule p) = IsBounded p.state
TurnEnds l (failed e p) = IsUnbroken p.state

abbrev PromoteEnds : ℕ → Result PromotionResult → Type 0
PromoteEnds l (raise e) = Unit
PromoteEnds l (ok r) =
    (is_not_to_top r.state.status ≡ false)
    × (r.is_promoted ≡ true → IsReady r.state × (level r.state.current_layer ≡ suc l))
    × (r.is_promoted ≡ false → IsBounded r.state)

stays-PromoteEnds :
    (t : Tools) (rule : RuleEntry) (st : PromotionState)
    → IsChecked st
    → PromoteEnds (level st.current_layer) (ok (stays t rule st))
stays-PromoteEnds t rule st h =
    let low = level_below st.current_layer h.below in
    (
      refl,
      λ e. absurd (cc),
      λ e. record {
        dedup = omega (arith, h.dedup, low);
        retest = omega (arith, h.retest);
        promote = omega (arith, h.promote, low);
        iteration = omega (arith, h.iteration, low);
        unbroken = h.unbroken;
        decided = refl;
        reaches = refl;
      },
    )

pub promoted_state-IsReady :
    (t : Tools) (target : Layer) (now : ℕ) (st : PromotionState)
    → IsChecked st
    → level target ≡ suc (level st.current_layer)
    → IsReady (promoted_state t target now st)
      × ((promoted_state t target now st).current_layer ≡ target)
      × (is_not_to_top (promoted_state t target now st).status ≡ false)
promoted_state-IsReady t target now st h up =
    let low = level_below st.current_layer h.below in
    let few : leb 6 (st.promote_count + 1) ≡ false = ground (arith, h.promote, low) in
    rw few (elim (Bool-cases (is_top target)) [
      | inl top ↦ rw top (
        record {
          dedup = omega (arith, h.dedup, up);
          retest = h.retest;
          promote = omega (arith, h.promote, up);
          iteration = omega (arith, h.iteration, up);
          unbroken = h.unbroken;
          status = rw top refl;
        },
        refl,
        refl,
      )
      | inr below ↦ rw below (
        record {
          dedup = omega (arith, h.dedup, up);
          retest = h.retest;
          promote = omega (arith, h.promote, up);
          iteration = omega (arith, h.iteration, up);
          unbroken = h.unbroken;
          status = rw below refl;
        },
        refl,
        refl,
      )
    ])

module _ (t : Tools) (s : Services) (layout : MemoryLayout) where
  move_up-PromoteEnds :
      (calls now : ℕ) (rule : RuleEntry) (target : Layer) (st : PromotionState)
      → IsChecked st
      → level target ≡ suc (level st.current_layer)
      → PromoteEnds (level st.current_layer) (move_up t s.adapter calls now rule target st layout)
  unfolding move_up
  move_up-PromoteEnds calls now rule target st h up =
      let (ready, moved, reaches) = promoted_state-IsReady t target now st h up in
      elim (Result-cases
        (write_to_layer t s.adapter calls (abstract_rule t rule target) target layout)) [
          | inl (e, is) ↦ rw (is, move_up) tt
          | inr (path, is) ↦
              rw (is, move_up) (reaches, (λ e. (ready, ap level moved ∙ up)), λ e. absurd (cc))
        ]

  -- the target of a promotion is one layer up
  eligible_up :
      (rule : RuleEntry) (l : Layer)
      → is_top l ≡ false
      → (check_promotion_eligibility t rule l).should_promote ≡ true
      → level (check_promotion_eligibility t rule l).target_layer ≡ suc (level l)
  unfolding check_promotion_eligibility
  eligible_up rule project h e = ground (arith, e)
  eligible_up rule rules_file h e = ground (arith, e)
  eligible_up rule global_top h e = absurd (cc)

  promote-PromoteEnds :
      (calls now : ℕ) (rule : RuleEntry) (st : PromotionState)
      → IsChecked st
      → PromoteEnds (level st.current_layer) (promote t s.adapter calls now rule st layout)
  unfolding promote
  promote-PromoteEnds calls now rule st h =
      let d = check_promotion_eligibility t rule st.current_layer in
      elim (Bool-cases d.should_promote) [
        | inl up ↦
            rw (h.below, promote)
              (rw up (
                move_up-PromoteEnds calls now rule d.target_layer st h
                  (eligible_up rule st.current_layer h.below up)))
        | inr stay ↦ rw (h.below, promote) (rw stay (stays-PromoteEnds t rule st h))
      ]

  after_promote-TurnEnds :
      (rule : RuleEntry) (l : ℕ) (r : Result PromotionResult) (p : Session)
      → IsUnbroken p.state
      → PromoteEnds l r
      → TurnEnds l (after_promote t s layout rule r p)
  unfolding after_promote
  after_promote-TurnEnds rule l (raise e) p before h = before
  after_promote-TurnEnds rule l (ok r) p before (reaches, goes_on, stops) =
      rw reaches (elim (Bool-cases r.is_promoted) [
        | inl moved ↦ rw moved (goes_on moved)
        | inr stays_there ↦ rw stays_there (stops stays_there)
      ])

  -- the first retest that fails does not trip the breaker
  first_retest :
      (st : PromotionState) → IsChecked st → leb (retest_limit st) (st.retest_count + 1) ≡ false
  first_retest st h = rw h.below (ground (arith, h.retest))

  passed-IsChecked :
      (st : PromotionState) (o : RetestOutcome)
      → IsChecked st
      → IsCounted t st o
      → o.should_promote ≡ true
      → IsChecked o.state × (level o.state.current_layer ≡ level st.current_layer)
  passed-IsChecked st o h (last, count, layer, cases, status, dedup, promoted_, total, reason)
        passes =
      let same = ap level layer in
      let none_more : ◌≡◌ {A = ℕ} (if o.should_promote then 0 else 1) 0 = rw passes refl in
      (
        record {
          below = ap is_top layer ∙ h.below;
          dedup = omega (arith, dedup, h.dedup, same);
          retest = omega (arith, count, none_more, h.retest);
          promote = omega (arith, promoted_, h.promote, same);
          iteration = omega (arith, total, none_more, h.iteration, same);
          unbroken = reason (first_retest st h) ∙ h.unbroken;
          status = status ∙ rw passes h.status;
        },
        same,
      )

  pub failed-IsBounded :
      (st : PromotionState) (o : RetestOutcome)
      → IsChecked st
      → IsCounted t st o
      → o.should_promote ≡ false
      → IsBounded o.state × (o.state.status ≡ promoting)
  failed-IsBounded st o h (last, count, layer, cases, status, dedup, promoted_, total, reason)
        fails =
      let low = level_below st.current_layer h.below in
      let one_more : ◌≡◌ {A = ℕ} (if o.should_promote then 0 else 1) 1 = rw fails refl in
      let goes_on : o.state.status ≡ promoting =
        status ∙ rw fails (rw (first_retest st h) h.status) in
      (
        record {
          dedup = omega (arith, dedup, h.dedup, low);
          retest = omega (arith, count, one_more, h.retest);
          promote = omega (arith, promoted_, h.promote, low);
          iteration = omega (arith, total, one_more, h.iteration, low);
          unbroken = reason (first_retest st h) ∙ h.unbroken;
          decided = ap is_pending goes_on;
          reaches = ap is_not_to_top goes_on;
        },
        goes_on,
      )

  after_outcome-TurnEnds :
      (rule : RuleEntry) (b : Bool) (l : ℕ) (st : PromotionState) (p : Session)
      → p.state ≡ st
      → (b ≡ true → IsChecked st × (level st.current_layer ≡ l))
      → (b ≡ false → IsBounded st)
      → TurnEnds l (after_outcome t s layout rule b st p)
  unfolding after_outcome
  after_outcome-TurnEnds rule true l st p is checked bounded =
      let (h, same) = checked refl in
      let now = s.clock p.time_at in
      after_promote-TurnEnds rule l (promote t s.adapter p.calls now rule st layout)
        (record p { calls = p.calls + 1 }) (subst IsUnbroken (sym is) (IsChecked-IsUnbroken st h))
        (subst (λ k. PromoteEnds k (promote t s.adapter p.calls now rule st layout)) same
          (promote-PromoteEnds p.calls now rule st h))
  after_outcome-TurnEnds rule false l st p is checked bounded =
      subst IsBounded (sym is) (bounded refl)

  pub undecided :
      (st : PromotionState) (o : RetestOutcome)
      → IsChecked st
      → IsCounted t st o
      → is_pending o.state.status ≡ false
  undecided st o h c = elim (Bool-cases o.should_promote) [
    | inl passes ↦ ap is_pending (passed-IsChecked st o h c passes).0.status
    | inr fails ↦ ap is_pending (failed-IsBounded st o h c fails).1
  ]

  retested-TurnEnds :
      (rule : RuleEntry) (p : Session) (o : RetestOutcome)
      → IsChecked p.state
      → IsCounted t p.state o
      → TurnEnds (level p.state.current_layer) (after_retest t s layout rule (ok o) p)
  unfolding after_retest
  retested-TurnEnds rule p o h c = rw (undecided p.state o h c) (
      after_outcome-TurnEnds rule o.should_promote (level p.state.current_layer) o.state _ refl
        (λ passes. passed-IsChecked p.state o h c passes)
        (λ fails. (failed-IsBounded p.state o h c fails).0))

  pub after_retest-TurnEnds :
      (rule : RuleEntry) (now : ℕ) (p : Session)
      → IsChecked p.state
      → TurnEnds
          (level p.state.current_layer)
          (after_retest t s layout rule (run_retest t rule now p.state) p)
  after_retest-TurnEnds rule now p h =
      let (o, is, (result, pass, promotes, strategy, counts)) =
        run_retest-Retested t rule now p.state in
      rw is (retested-TurnEnds rule p o h counts)
