-- ===== src/Promotion/Manager/Ends.antt =====
-- `promote` of server/distill_team/promotion/manager.py as a whole: it ends for every rule, no circuit
-- breaker trips, and what leaves the loop without an exception goes into the archive.
use team_harness.Prelude.{
  ℕ, ◌≡◌, ◌⊎◌, refl, ◌∙◌, String, true, false, Option, none, some, List, is_some, arith, inl, inr,
}
use team_harness.Promotion.State.{
  PromotionStatus, promoting, promoted, pending_confirmation, not_to_top, archived, RuleEntry,
  PromotionState, Tools,
}
use team_harness.Promotion.Dedup.{MemoryLayout}
use team_harness.Promotion.Graph.Types.{GraphFile}
use team_harness.Promotion.Manager.{
  Session, Turn, next, leave, failed, Services, is_pending, is_not_to_top,
}
use team_harness.Promotion.Manager.Levels.{IsBounded, IsUnbroken, IsReady, IsBounded-IsUnbroken}
use team_harness.Promotion.Manager.Rounds.{LoopEnds, rounds-Ends}
use team_harness.Promotion.Manager.Finish.{archive_step, register_step, cross_step}
use team_harness.Promotion.Manager.Pipeline.{
  then_step, then_option, finish, conclude, end_status, new_session, promote_rule,
}
use team_harness.Promotion.Manager.Outcomes.{
  Raises, Steps, HasEntry, archive_step-Steps, register_step-StepsTo, cross_step-StepsTo,
}

-- a rule that is through: it is promoted, or archived as a duplicate, and its entry is in the archive
abbrev pub IsThrough : Session → Type 0
IsThrough p =
    (is_some p.archive_entry_id ≡ true)
    × ((p.final_status ≡ promoted) ⊎ (p.final_status ≡ archived))

-- an error is noted, no breaker has tripped, and the rule waits for confirmation
abbrev pub IsStopped : Session → Type 0
IsStopped p =
    (is_some p.error ≡ true)
    × (p.state.circuit_breaker_reason ≡ none)
    × (p.final_status ≡ pending_confirmation)

module _ (t : Tools) (s : Services) (layout : MemoryLayout) where
  -- the steps behind the loop
  abbrev pub Done : PromotionStatus → Turn → Type 0
  Done status (next r q) = ⊥
  Done status (leave r q) =
      IsBounded q.state × (q.state.status ≡ status) × (is_some q.archive_entry_id ≡ true)
  Done status (failed e q) = IsUnbroken q.state × Raises t s layout e

  -- the whole, with an exception of any service
  abbrev Concluded : Turn → Type 0
  Concluded (next r q) = ⊥
  Concluded (leave r q) = IsBounded q.state × (is_some q.archive_entry_id ≡ true)
  Concluded (failed e q) = IsUnbroken q.state

  Done-Concluded : (status : PromotionStatus) (x : Turn) → Done status x → Concluded x
  Done-Concluded status (next r q) done = done
  Done-Concluded status (leave r q) (bounded, same, entry) = (bounded, entry)
  Done-Concluded status (failed e q) (unbroken, raised) = unbroken

  abbrev pub DoneTo : PromotionStatus → Option Turn → Type 0
  DoneTo status r = (x : Turn) × (r ≡ some x) × Done status x

  after_register :
      (status : PromotionStatus) (p : Session) (x : Turn)
      → p.state.status ≡ status
      → is_some p.archive_entry_id ≡ true
      → Steps t s layout p x
      → DoneTo status (then_step x (cross_step t s layout))
  unfolding then_step
  after_register status p (next r q) is entry steps = elim steps [ ]
  after_register status p (failed e q) is entry unbroken = (failed e q, refl, unbroken)
  after_register status p (leave r q) is entry (bounded, same, keeps) =
      let (x, at, steps) = cross_step-StepsTo t s layout r q bounded in
      (x, at, after_cross status q x (same ∙ is) (keeps entry) steps)
    where
      after_cross :
          (status : PromotionStatus) (q : Session) (x : Turn)
          → q.state.status ≡ status
          → is_some q.archive_entry_id ≡ true
          → Steps t s layout q x
          → Done status x
      after_cross status q (next a b) is entry steps = elim steps [ ]
      after_cross status q (failed e b) is entry unbroken = unbroken
      after_cross status q (leave a b) is entry (bounded, same, keeps) =
          (bounded, same ∙ is, keeps entry)

  after_archive :
      (status : PromotionStatus) (p : Session) (x : Turn)
      → p.state.status ≡ status
      → Steps t s layout p x
      → HasEntry t s layout x
      → DoneTo status (
          then_option
            (then_step x (λ r q. register_step t s layout r q.archive_entry_id q))
            (cross_step t s layout))
  unfolding then_step
  after_archive status p (next r q) is steps entry = elim steps [ ]
  after_archive status p (failed e q) is unbroken entry = (failed e q, refl, unbroken)
  after_archive status p (leave r q) is (bounded, same, keeps) entry =
      let (x, at, steps) = register_step-StepsTo t s layout r q.archive_entry_id q bounded in
      rw at (after_register status q x (same ∙ is) entry steps)

  pub finish-DoneTo :
      (source_session : String) (rule : RuleEntry) (p : Session)
      → IsBounded p.state
      → DoneTo p.state.status (finish t s layout source_session rule p)
  unfolding finish
  finish-DoneTo source_session rule p h =
      let (steps, entry) = archive_step-Steps t s layout source_session rule p h in
      after_archive p.state.status p (archive_step t s layout source_session rule p) refl steps
        entry

  -- a status that no breaker has set ends as promoted or archived
  end_status-cases :
      (status : PromotionStatus)
      → is_pending status ≡ false
      → is_not_to_top status ≡ false
      → (end_status status ≡ promoted) ⊎ (end_status status ≡ archived)
  end_status-cases promoting h g = inl refl
  end_status-cases promoted h g = inl refl
  end_status-cases archived h g = inr refl
  end_status-cases pending_confirmation h g = absurd (cc)
  end_status-cases not_to_top h g = absurd (cc)

  with-IsUnbroken :
      (status : PromotionStatus) (st : PromotionState)
      → IsUnbroken st
      → IsUnbroken (record st { status = status })
  with-IsUnbroken status st h = record {
    dedup = h.dedup;
    retest = h.retest;
    promote = h.promote;
    iteration = h.iteration;
    unbroken = h.unbroken;
  }

  -- how `promote` ends
  abbrev pub Promotes : Session → Type 0
  Promotes p = IsUnbroken p.state × (p.final_status ≡ p.state.status) × (IsThrough p ⊎ IsStopped p)

  conclude-Promotes : (x : Turn) → Concluded x → Promotes (conclude x)
  unfolding conclude
  conclude-Promotes (next r q) done = elim done [ ]
  conclude-Promotes (leave r q) (bounded, entry) = (
    with-IsUnbroken _ q.state (IsBounded-IsUnbroken q.state bounded),
    refl,
    inl (entry, end_status-cases q.state.status bounded.decided bounded.reaches),
  )
  conclude-Promotes (failed e q) unbroken =
      (with-IsUnbroken _ q.state unbroken, refl, inr (refl, unbroken.unbroken, refl))

  after_loop :
      (source_session : String) (x : Turn)
      → LoopEnds t s layout x
      → (y : Turn) × (then_step x (finish t s layout source_session) ≡ some y) × Concluded y
  unfolding then_step
  after_loop source_session (next r q) ends = elim ends [ ]
  after_loop source_session (leave r q) bounded =
      let (y, at, done) = finish-DoneTo source_session r q bounded in
      (y, at, Done-Concluded q.state.status y done)
  after_loop source_session (failed e q) unbroken = (failed e q, refl, unbroken)

  pub new_session-IsReady :
      (cases : List String) (g : GraphFile) (calls time_at : ℕ)
      → IsReady (new_session t s layout cases g calls time_at).state
  new_session-IsReady cases g calls time_at = record {
    dedup = refl;
    retest = refl;
    promote = refl;
    iteration = refl;
    unbroken = refl;
    status = refl;
  }

  -- `promote` ends for every rule, with fuel for three rounds. Of its counters, two searches for
  -- duplicates, one failed retest and two promotions are the most, and the reason of a circuit
  -- breaker is never set. At the end the rule is promoted or archived and has an entry in the
  -- archive, or an exception has been noted and the rule waits for confirmation.
  pub promote_rule-Promotes :
      (rule : RuleEntry) (cases : List String) (source_session : String) (g : GraphFile)
      (calls time_at : ℕ)
      → (p : Session) × (promote_rule t s layout rule cases source_session g calls time_at ≡ some p)
        × Promotes p
  unfolding promote_rule
  promote_rule-Promotes rule cases source_session g calls time_at =
      let start = new_session t s layout cases g calls time_at in
      let (x, is, ends) =
        rounds-Ends t s layout 3 rule start (new_session-IsReady cases g calls time_at)
          (omega arith) in
      let (y, at, done) = after_loop source_session x ends in
      rw (is, promote_rule) (rw at (_, refl, conclude-Promotes y done))
