-- ===== src/Promotion/Manager/Outcomes.antt =====
-- How the steps behind the loop of server/distill_team/promotion/manager.py end.
use team_harness.Prelude.{
  ℕ, ◌+◌, ◌≡◌, ◌⊎◌, refl, String, true, Option, none, some, is_some, nonempty, Bool-cases, inl, inr,
}
use team_harness.Prelude.Result.{raise, Result-cases}
use team_harness.Promotion.State.{RuleEntry, Tools}
use team_harness.Promotion.Dedup.{MemoryLayout}
use team_harness.Promotion.Graph.Types.{GraphFile}
use team_harness.Promotion.Graph.{add_relation, detect_cycle}
use team_harness.Promotion.Cascade.Ends.{cascade_from-Returns}
use team_harness.Promotion.Manager.{ArchiveEntry, Session, Turn, next, leave, failed, Services}
use team_harness.Promotion.Manager.Levels.{IsBounded, IsUnbroken, IsBounded-IsUnbroken}
use team_harness.Promotion.Manager.Finish.{
  archive_rule, archive_step, register_step, register_graph_node, cross_step, cascade_step,
  entry_of, archived_session,
}

module _ (t : Tools) (s : Services) (layout : MemoryLayout) where
  -- the archive or the other projects raise the exception
  abbrev pub Raises : String → Type 0
  Raises e =
      ((n : ℕ) × (s.get_next_entry_id n ≡ raise e))
      ⊎ ((n : ℕ) × (entry : ArchiveEntry) × (s.archive_experience n entry ≡ raise e))
      ⊎ ((n : ℕ) × (g : GraphFile) × ((s.check_and_promote n g).1 ≡ raise e))

  -- a step that ends: the state is as before but for the ids, or one of the services has raised
  abbrev pub Steps : Session → Turn → Type 0
  Steps p (next r q) = ⊥
  Steps p (leave r q) =
      IsBounded q.state
      × (q.state.status ≡ p.state.status)
      × (is_some p.archive_entry_id ≡ true → is_some q.archive_entry_id ≡ true)
  Steps p (failed e q) = IsUnbroken q.state × Raises e

  abbrev pub StepsTo : Session → Option Turn → Type 0
  StepsTo p r = (x : Turn) × (r ≡ some x) × Steps p x

  -- a rule that leaves the step has its entry in the archive
  abbrev pub HasEntry : Turn → Type 0
  HasEntry (next r q) = ⊥
  HasEntry (leave r q) = is_some q.archive_entry_id ≡ true
  HasEntry (failed e q) = Unit

  archived-IsBounded :
      (entry_id : String) (p : Session)
      → IsBounded p.state
      → IsBounded (archived_session t s layout entry_id p).state
  archived-IsBounded entry_id p h = record {
    dedup = h.dedup;
    retest = h.retest;
    promote = h.promote;
    iteration = h.iteration;
    unbroken = h.unbroken;
    decided = h.decided;
    reaches = h.reaches;
  }

  archive_rule-Steps :
      (source_session : String) (rule : RuleEntry) (p : Session)
      → IsBounded p.state
      → Steps p (archive_rule t s layout source_session rule p)
        × HasEntry (archive_rule t s layout source_session rule p)
  unfolding archive_rule
  archive_rule-Steps source_session rule p h = elim (Result-cases (s.get_next_entry_id p.calls)) [
    | inl (e, is) ↦ rw (is, archive_rule) ((IsBounded-IsUnbroken p.state h, inl (p.calls, is)), tt)
    | inr (entry_id, is) ↦
        rw (is, archive_rule)
          (elim (Result-cases (
            s.archive_experience (p.calls + 1)
              (entry_of t s layout source_session rule entry_id p))) [
                | inl (e, raised) ↦
                    rw raised
                      ((IsBounded-IsUnbroken p.state h, inr (inl (p.calls + 1, _, raised))), tt)
                | inr (b, done) ↦ rw done ((archived-IsBounded entry_id p h, refl, λ e. refl), refl)
              ])
  ]

  pub archive_step-Steps :
      (source_session : String) (rule : RuleEntry) (p : Session)
      → IsBounded p.state
      → Steps p (archive_step t s layout source_session rule p)
        × HasEntry (archive_step t s layout source_session rule p)
  unfolding archive_step
  archive_step-Steps source_session rule p h =
      rw (h.decided, h.reaches) (archive_rule-Steps source_session rule p h)

  -- a PROMOTED_FROM relation closes no circle of DEPENDS_ON
  register_graph_node-StepsTo :
      (entry_id : String) (rule : RuleEntry) (p : Session)
      → IsBounded p.state
      → StepsTo p (register_graph_node t s layout entry_id rule p)
  unfolding register_graph_node add_relation detect_cycle
  register_graph_node-StepsTo entry_id rule p h = (
    _,
    refl,
    (
      record {
        dedup = h.dedup;
        retest = h.retest;
        promote = h.promote;
        iteration = h.iteration;
        unbroken = h.unbroken;
        decided = h.decided;
        reaches = h.reaches;
      },
      refl,
      λ e. e,
    ),
  )

  pub register_step-StepsTo :
      (rule : RuleEntry) (entry_id : Option String) (p : Session)
      → IsBounded p.state
      → StepsTo p (register_step t s layout rule entry_id p)
  unfolding register_step
  register_step-StepsTo rule none p h = (_, refl, (h, refl, λ e. e))
  register_step-StepsTo rule (some entry_id) p h = elim (Bool-cases (nonempty entry_id)) [
    | inl named ↦ rw named (register_graph_node-StepsTo entry_id rule p h)
    | inr empty ↦ rw empty (_, refl, (h, refl, λ e. e))
  ]

  cascade_step-StepsTo :
      (rule : RuleEntry) (node_id : Option String) (p : Session)
      → IsBounded p.state
      → StepsTo p (cascade_step t s layout rule node_id p)
  unfolding cascade_step
  cascade_step-StepsTo rule none p h = (_, refl, (h, refl, λ e. e))
  cascade_step-StepsTo rule (some node_id) p h =
      let (c, is, same) = cascade_from-Returns s.today t.show node_id "modified" p.graph in
      rw (is, cascade_step) (_, refl, (h, refl, λ e. e))

  pub cross_step-StepsTo :
      (rule : RuleEntry) (p : Session)
      → IsBounded p.state
      → StepsTo p (cross_step t s layout rule p)
  unfolding cross_step
  cross_step-StepsTo rule p h = elim (Result-cases (s.check_and_promote p.calls p.graph).1) [
    | inl (e, is) ↦
        rw (is, cross_step)
          (_, refl, (IsBounded-IsUnbroken p.state h, inr (inr (p.calls, p.graph, is))))
    | inr (b, is) ↦ rw (is, cross_step) (cascade_step-StepsTo rule p.state.graph_node_id _ h)
  ]
