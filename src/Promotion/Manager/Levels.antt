-- ===== src/Promotion/Manager/Levels.antt =====
-- The counters of a promotion in server/distill_team/promotion/manager.py, by the layer of the rule.
use team_harness.Prelude.{ℕ, suc, ◌+◌, ◌≤◌, ◌≡◌, false, none, arith, if◌then◌else◌}
use team_harness.Promotion.State.{
  Layer, project, rules_file, global_top, promoting, promoted, PromotionState, is_top,
}
use team_harness.Promotion.Manager.{is_pending, is_not_to_top}

abbrev pub level : Layer → ℕ
level project = 0
level rules_file = 1
level global_top = 2

-- the counters of a state that no breaker has stopped
pub record IsBounded (st : PromotionState) : Type 0 where
  pub dedup : st.dedup_count ≤ 2
  pub retest : st.retest_count ≤ 1
  pub promote : st.promote_count ≤ 2
  pub iteration : st.global_iteration ≤ 5
  pub unbroken : st.circuit_breaker_reason ≡ none
  pub decided : is_pending st.status ≡ false
  pub reaches : is_not_to_top st.status ≡ false

-- the same, with a status that an exception may set
pub record IsUnbroken (st : PromotionState) : Type 0 where
  pub dedup : st.dedup_count ≤ 2
  pub retest : st.retest_count ≤ 1
  pub promote : st.promote_count ≤ 2
  pub iteration : st.global_iteration ≤ 5
  pub unbroken : st.circuit_breaker_reason ≡ none

-- the state at the head of the loop: a rule has been moved up once for each layer
pub record IsReady (st : PromotionState) : Type 0 where
  pub dedup : st.dedup_count ≡ level st.current_layer
  pub retest : st.retest_count ≡ 0
  pub promote : st.promote_count ≡ level st.current_layer
  pub iteration : st.global_iteration ≡ level st.current_layer + level st.current_layer
  pub unbroken : st.circuit_breaker_reason ≡ none
  pub status : st.status ≡ (if is_top st.current_layer then promoted else promoting)

-- the state behind the search for duplicates, below the top
pub record IsChecked (st : PromotionState) : Type 0 where
  pub below : is_top st.current_layer ≡ false
  pub dedup : st.dedup_count ≡ suc (level st.current_layer)
  pub retest : st.retest_count ≡ 0
  pub promote : st.promote_count ≡ level st.current_layer
  pub iteration : st.global_iteration ≡ suc (level st.current_layer + level st.current_layer)
  pub unbroken : st.circuit_breaker_reason ≡ none
  pub status : st.status ≡ promoting

pub level_below : (l : Layer) → is_top l ≡ false → level l ≤ 1
level_below project h = omega arith
level_below rules_file h = omega arith
level_below global_top h = absurd (cc)

pub level_top : (l : Layer) → level l ≤ 2
level_top project = omega arith
level_top rules_file = omega arith
level_top global_top = omega arith

pub IsBounded-IsUnbroken : (st : PromotionState) → IsBounded st → IsUnbroken st
IsBounded-IsUnbroken st h = record {
  dedup = h.dedup;
  retest = h.retest;
  promote = h.promote;
  iteration = h.iteration;
  unbroken = h.unbroken;
}

pub IsReady-IsUnbroken : (st : PromotionState) → IsReady st → IsUnbroken st
IsReady-IsUnbroken st h =
    let high = level_top st.current_layer in
    record {
      dedup = omega (arith, h.dedup, high);
      retest = omega (arith, h.retest);
      promote = omega (arith, h.promote, high);
      iteration = omega (arith, h.iteration, high);
      unbroken = h.unbroken;
    }

pub IsChecked-IsUnbroken : (st : PromotionState) → IsChecked st → IsUnbroken st
IsChecked-IsUnbroken st h =
    let low = level_below st.current_layer h.below in
    record {
      dedup = omega (arith, h.dedup, low);
      retest = omega (arith, h.retest);
      promote = omega (arith, h.promote, low);
      iteration = omega (arith, h.iteration, low);
      unbroken = h.unbroken;
    }
