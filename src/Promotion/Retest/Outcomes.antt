-- ===== src/Promotion/Retest/Outcomes.antt =====
-- What a retest of server/distill_team/promotion/retest.py answers, and when its circuit breaker trips.
use team_harness.Prelude.{
  ℕ, ◌+◌, ◌≡◌, ◌≢◌, refl, ◌∙◌, String, false, some, List, [], ◌∷◌, length, leb, eqb, arith,
  if◌then◌else◌, Bool-cases, inl, inr,
}
use team_harness.Prelude.Result.{ok}
use team_harness.Promotion.State.{
  pending_confirmation, RetestResult, partial_pass, all_fail, RetestStrategy, split_rule, RuleEntry,
  PromotionState, retest_limit, Tools,
}
use team_harness.Promotion.Retest.{
  RetestOutcome, count_passes, find_failed_cases, result_of, select_strategy, retest_rule,
  run_result, run_retest, retest_failed,
}

module _ (t : Tools) where
  -- each case passes or fails
  pub count_passes-find_failed_cases :
      (rule : RuleEntry) (cases : List String)
      → count_passes t rule cases + length (find_failed_cases t rule cases) ≡ length cases
  unfolding count_passes find_failed_cases
  count_passes-find_failed_cases rule [] = omega arith
  count_passes-find_failed_cases rule (c ∷ cs) =
      ground (arith, count_passes-find_failed_cases rule cs)

  retest_rule-result_of :
      (rule : RuleEntry) (cases : List String)
      → result_of (count_passes t rule cases) (length cases) ≡ retest_rule t rule cases
  unfolding retest_rule result_of count_passes
  retest_rule-result_of rule [] = refl
  retest_rule-result_of rule (c ∷ cs) = refl

  -- the state after a run: one that fails is counted, and trips the breaker at the limit
  abbrev pub IsCounted : PromotionState → RetestOutcome → Type 0
  IsCounted s o =
      (o.state.last_retest_result ≡ some o.result)
      × (o.state.retest_count ≡ s.retest_count + (if o.should_promote then 0 else 1))
      × (o.state.current_layer ≡ s.current_layer)
      × (o.state.source_case_ids ≡ s.source_case_ids)
      × (o.state.status ≡ (
          if o.should_promote
          then s.status
          else (if leb (retest_limit s) (s.retest_count + 1)
              then pending_confirmation
              else s.status)))
      × (o.state.dedup_count ≡ s.dedup_count)
      × (o.state.promote_count ≡ s.promote_count)
      × (o.state.global_iteration ≡ s.global_iteration + (if o.should_promote then 0 else 1))
      × (leb (retest_limit s) (s.retest_count + 1) ≡ false
          → o.state.circuit_breaker_reason ≡ s.circuit_breaker_reason)

  -- what a run of the retest answers
  abbrev pub Retested : RuleEntry → ℕ → PromotionState → RetestOutcome → Type 0
  Retested rule now s o =
      (o.result ≡ retest_rule t rule s.source_case_ids)
      × (o.pass_count + length (find_failed_cases t rule s.source_case_ids) ≡ o.total_count)
      × (o.should_promote ≡ eqb (length (find_failed_cases t rule s.source_case_ids)) 0)
      × (o.strategy ≢ some split_rule)
      × IsCounted s o

  -- the same, for the counts that a run has made
  abbrev Answers : ℕ → ℕ → PromotionState → RetestOutcome → Type 0
  Answers p n s o =
      (o.result ≡ result_of p n)
      × (o.pass_count ≡ p)
      × (o.total_count ≡ n)
      × (o.should_promote ≡ eqb p n)
      × (o.strategy ≢ some split_rule)
      × IsCounted s o

  retest_failed-IsCounted :
      (r : RetestResult) (strategy : RetestStrategy) (p n now : ℕ) (s : PromotionState)
      → IsCounted s (retest_failed t r strategy p n now s)
  retest_failed-IsCounted r strategy p n now s =
      elim (Bool-cases (leb (retest_limit s) (s.retest_count + 1))) [
        | inl trips ↦ rw trips (refl, refl, refl, refl, refl, refl, refl, refl, λ h. absurd (cc))
        | inr holds ↦ rw holds (refl, refl, refl, refl, refl, refl, refl, refl, λ h. refl)
      ]

  run_result-Answers :
      (p n now : ℕ) (s : PromotionState)
      → (o : RetestOutcome) × (run_result t (result_of p n) p n now s ≡ ok o) × Answers p n s o
  unfolding run_result select_strategy result_of
  run_result-Answers p n now s = elim (Bool-cases (eqb p n)) [
    | inl all ↦ rw all (
      _,
      refl,
      (
        refl,
        refl,
        refl,
        refl,
        (λ h. absurd (cc)),
        (refl, omega arith, refl, refl, refl, refl, refl, omega arith, λ h. refl),
      ),
    )
    | inr some_fail ↦ elim (Bool-cases (eqb p 0)) [
      | inl zero_pass ↦ rw some_fail (
          rw zero_pass (
            _,
            refl,
            (
              refl,
              refl,
              refl,
              refl,
              (λ h. absurd (ground (arith, h, zero_pass))),
              retest_failed-IsCounted all_fail _ p n now s,
            ),
          ))
      | inr pass ↦ rw some_fail (
          rw pass (
            _,
            refl,
            (
              refl,
              refl,
              refl,
              refl,
              (λ h. absurd (ground (arith, h, pass))),
              retest_failed-IsCounted partial_pass _ p n now s,
            ),
          ))
    ]
  ]

  -- A retest always returns, with the result of `retest_rule`; each case passes or fails, and the
  -- rule may be promoted exactly if none fails. The strategy is never to split the rule. The
  -- counters are as before but for a failure, which is counted, and which sets the status to
  -- pending exactly at the limit of the layer.
  pub run_retest-Retested :
      (rule : RuleEntry) (now : ℕ) (s : PromotionState)
      → (o : RetestOutcome) × (run_retest t rule now s ≡ ok o) × Retested rule now s o
  unfolding run_retest
  run_retest-Retested rule now s =
      let cases = s.source_case_ids in
      let p = count_passes t rule cases in
      let (o, is, (result, pass, total, promotes, strategy, rest)) =
        run_result-Answers p (length cases) now s in
      let counts = count_passes-find_failed_cases rule cases in
      (
        o,
        is,
        (
          result ∙ retest_rule-result_of rule cases,
          ground (arith, pass, total, counts),
          promotes ∙ ground (arith, counts),
          strategy,
          rest,
        ),
      )
