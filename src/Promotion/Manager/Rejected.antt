-- ===== src/Promotion/Manager/Rejected.antt =====
-- What `promote` of server/distill_team/promotion/manager.py does with a rule that fails its retest.
use team_harness.Prelude.{
  ℕ, ◌+◌, ◌≡◌, ◌⊎◌, refl, ap, sym, subst, ◌∙◌, String, true, false, none, some, List, is_some,
  length, eqb, if◌then◌else◌, inl, inr,
}
use team_harness.Prelude.Result.{ok}
use team_harness.Promotion.State.{
  PromotionStatus, promoting, promoted, pending_confirmation, no_duplicate, RuleEntry,
  PromotionState, Tools,
}
use team_harness.Promotion.Retest.{RetestOutcome, find_failed_cases}
use team_harness.Promotion.Retest.Outcomes.{IsCounted, run_retest-Retested}
use team_harness.Promotion.Dedup.{MemoryLayout, DedupResult, check, checked_state}
use team_harness.Promotion.Graph.Types.{GraphFile}
use team_harness.Promotion.Manager.{
  Session, Turn, next, leave, failed, Services, is_pending, after_outcome, after_retest,
  after_verdict, after_check, turn, rounds,
}
use team_harness.Promotion.Manager.Levels.{IsBounded, IsChecked}
use team_harness.Promotion.Manager.Stages.{failed-IsBounded, undecided}
use team_harness.Promotion.Manager.Rounds.{Checks, checked_state-IsChecked, check-Checks}
use team_harness.Promotion.Manager.Outcomes.{Raises}
use team_harness.Promotion.Manager.Pipeline.{
  conclude, end_status, new_state, new_session, promote_rule,
}
use team_harness.Promotion.Manager.Ends.{Done, finish-DoneTo, new_session-IsReady}

module _ (t : Tools) (s : Services) (layout : MemoryLayout) where
  -- the loop is left, and the rule still counts as one that is being promoted
  abbrev Leaves : RuleEntry → Turn → Type 0
  Leaves rule x =
      (q : Session) × (x ≡ leave rule q) × IsBounded q.state × (q.state.status ≡ promoting)

  after_retest-Leaves :
      (rule : RuleEntry) (p : Session) (o : RetestOutcome)
      → IsChecked p.state
      → IsCounted t p.state o
      → o.should_promote ≡ false
      → Leaves rule (after_retest t s layout rule (ok o) p)
  unfolding after_retest after_outcome
  after_retest-Leaves rule p o h c fails =
      let (bounded, goes_on) = failed-IsBounded t s layout p.state o h c fails in
      let tested : Session = record p {
        state = o.state;
        retest_outcome = some o;
        time_at = p.time_at + (if o.should_promote then 0 else 1);
      } in
      rw (undecided t s layout p.state o h c) (
        record tested { final_status = o.state.status },
        ap (λ b. after_outcome t s layout rule b o.state tested) fails,
        bounded,
        goes_on,
      )

  -- the first check finds no duplicate, and the retest fails
  after_check-Leaves :
      (rule : RuleEntry) (d : DedupResult) (p : Session)
      → IsChecked d.state
      → d.state.source_case_ids ≡ p.state.source_case_ids
      → d.verdict ≡ no_duplicate
      → eqb (length (find_failed_cases t rule p.state.source_case_ids)) 0 ≡ false
      → Leaves rule (after_check t s layout rule (ok d) p)
  unfolding after_check after_verdict
  after_check-Leaves rule d p checked cases verdict fails =
      let q : Session = record p {
        state = d.state;
        dedup_result = some d;
        time_at = p.time_at + 1;
      } in
      let (o, is, (result, pass, promotes, strategy, counts)) =
        run_retest-Retested t rule (s.clock (p.time_at + 1)) d.state in
      let goes_on : is_pending d.state.status ≡ false = ap is_pending checked.status in
      let rejected : o.should_promote ≡ false =
        promotes ∙ ap (λ cs. eqb (length (find_failed_cases t rule cs)) 0) cases ∙ fails in
      rw goes_on (
        subst (λ v. Leaves rule (after_verdict t s layout rule v d.existing_rule q)) (sym verdict)
          (rw is (after_retest-Leaves rule q o checked counts rejected)))

  -- the answer of the first check
  abbrev pub FirstCheck : RuleEntry → List String → ℕ → ℕ → DedupResult → Type 0
  FirstCheck rule cases calls time_at d =
      (check t s.adapter rule calls (s.clock (time_at + 2)) (new_state t s layout cases time_at)
        layout).1
      ≡ ok d

  turn-Leaves :
      (rule : RuleEntry) (cases : List String) (g : GraphFile) (calls time_at : ℕ) (d : DedupResult)
      → FirstCheck rule cases calls time_at d
      → d.verdict ≡ no_duplicate
      → eqb (length (find_failed_cases t rule cases)) 0 ≡ false
      → Leaves rule (turn t s layout rule (new_session t s layout cases g calls time_at))
  unfolding turn
  turn-Leaves rule cases g calls time_at d is verdict fails =
      let p = new_session t s layout cases g calls time_at in
      let now = s.clock (time_at + 2) in
      let answer = check t s.adapter rule calls now p.state layout in
      let from : d.state ≡ checked_state t d.verdict now p.state =
        subst (Checks t s layout now p.state) is (check-Checks t s layout rule calls now p.state) in
      let (fresh, same) =
        checked_state-IsChecked t s layout d.verdict now p.state
          (new_session-IsReady t s layout cases g calls time_at) refl in
      subst (λ r. Leaves rule (after_check t s layout rule r (record p { calls = answer.0 })))
        (sym is)
        (after_check-Leaves rule d (record p { calls = answer.0 })
          (subst IsChecked (sym from) fresh) (ap (λ (x : PromotionState). x.source_case_ids) from)
          verdict fails)

  -- the noted error is an exception of the archive or of the other projects
  abbrev pub IsRaised : Session → Type 0
  IsRaised p =
      (e : String) × (p.error ≡ some e)
      × Raises t s layout e
      × (p.state.circuit_breaker_reason ≡ none)
      × (p.final_status ≡ pending_confirmation)

  concluded :
      (status : PromotionStatus) (y : Turn)
      → status ≡ promoting
      → Done t s layout status y
      → (((conclude y).final_status ≡ promoted) × (is_some (conclude y).archive_entry_id ≡ true))
        ⊎ IsRaised (conclude y)
  unfolding conclude
  concluded status (next r q) is done = elim done [ ]
  concluded status (failed e q) is (unbroken, raised) =
      inr (e, refl, raised, unbroken.unbroken, refl)
  concluded status (leave r q) is (bounded, same, entry) = inl (ap end_status (same ∙ is), entry)

  -- Where the first search finds no duplicate and a case fails the retest, `promote` nevertheless
  -- ends with the rule promoted and in the archive, unless the archive or the promotion to other
  -- projects raises: then the error is that exception, no breaker has tripped, and the rule waits
  -- for confirmation.
  pub promote_rule-rejected :
      (rule : RuleEntry) (cases : List String) (source_session : String) (g : GraphFile)
      (calls time_at : ℕ) (d : DedupResult)
      → FirstCheck rule cases calls time_at d
      → d.verdict ≡ no_duplicate
      → eqb (length (find_failed_cases t rule cases)) 0 ≡ false
      → (p : Session) × (promote_rule t s layout rule cases source_session g calls time_at ≡ some p)
        × (((p.final_status ≡ promoted) × (is_some p.archive_entry_id ≡ true)) ⊎ IsRaised p)
  unfolding promote_rule rounds
  promote_rule-rejected rule cases source_session g calls time_at d is verdict fails =
      let (q, left, bounded, goes_on) = turn-Leaves rule cases g calls time_at d is verdict fails in
      let (y, at, done) = finish-DoneTo t s layout source_session rule q bounded in
      rw (left, promote_rule) (rw at (_, refl, concluded q.state.status y goes_on done))
