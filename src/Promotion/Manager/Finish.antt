-- ===== src/Promotion/Manager/Finish.antt =====
-- What server/distill_team/promotion/manager.py does behind its loop: the archive, the node of the
-- rule in the graph, the other projects and the cascade.
use Prim.Native.String.{◌++◌ as str_append}
use team_harness.Prelude.{
  ℕ, ◌+◌, max, String, true, ◌||◌, Option, none, some, List, [], ◌∷◌, nonempty, if◌then◌else◌,
}
use team_harness.Prelude.Result.{Result, ok, raise}
use team_harness.Promotion.State.{RuleEntry, Tools, join_with, starts_with}
use team_harness.Promotion.Dedup.{MemoryLayout}
use team_harness.Promotion.Graph.Types.{GraphFile, GraphNode, GraphRelation, promoted_from}
use team_harness.Promotion.Graph.{register_node, add_relation}
use team_harness.Promotion.Cascade.{cascade_from}
use team_harness.Promotion.Manager.{
  ArchiveEntry, Services, Session, Turn, leave, failed, is_pending, is_not_to_top,
}

-- "\n".join(cases), of no cases the empty text
unfoldable pub join_lines : List String → String
unfolding join_with
join_lines [] = ""
join_lines (c ∷ cs) = join_with "\n" c cs

-- what begins with "R", and the greatest number behind it
unfoldable pub max_number : (String → Option ℕ) → List GraphNode → ℕ
max_number number [] = 0
max_number number (n ∷ ns) =
    let rest = max_number number ns in
    if starts_with "R" n.node_id
    then elim (number n.node_id) [ none ↦ rest | some k ↦ max k rest ]
    else rest

module _ (t : Tools) (s : Services) (layout : MemoryLayout) where
  -- _generate_node_id
  abbrev pub generate_node_id : GraphFile → String
  generate_node_id g = s.node_id_of (max_number s.node_number g.nodes + 1)

  -- the state once the rule is in the archive
  abbrev pub archived_session : String → Session → Session
  archived_session entry_id p = record p {
    state = record p.state {
      archive_id = some entry_id;
      is_archived = true;
      archived_at = some (s.clock (p.time_at + 1));
    };
    archive_entry_id = some entry_id;
    calls = p.calls + 2;
    time_at = p.time_at + 2;
  }

  abbrev pub entry_of : String → RuleEntry → String → Session → ArchiveEntry
  entry_of source_session rule entry_id p = record {
    entry_id = entry_id;
    title = rule.title;
    promoted_to = rule.rule_id;
    promoted_at = s.clock p.time_at;
    original_case = join_lines p.state.source_case_ids;
    source_session = source_session;
  }

  -- _archive_rule
  unfoldable pub archive_rule : String → RuleEntry → Session → Turn
  unfolding join_lines
  archive_rule source_session rule p = elim (s.get_next_entry_id p.calls) [
    | raise e ↦ failed e (record p { calls = p.calls + 1 })
    | ok entry_id ↦
        elim (s.archive_experience (p.calls + 1) (entry_of source_session rule entry_id p)) [
          | raise e ↦ failed e (record p { calls = p.calls + 2; time_at = p.time_at + 1 })
          | ok b ↦ leave rule (archived_session entry_id p)
        ]
  ]

  -- step 4: the archive, unless a breaker has stopped the rule
  unfoldable pub archive_step : String → RuleEntry → Session → Turn
  unfolding archive_rule
  archive_step source_session rule p =
      if is_pending p.state.status || is_not_to_top p.state.status
      then leave rule p
      else archive_rule source_session rule p

  abbrev pub rule_node : String → RuleEntry → GraphNode
  rule_node node_id rule = record {
    node_id = node_id;
    node_type = "rule";
    name = rule.title;
    location = rule.file_path;
    category = rule.category;
    status = "active";
  }

  abbrev pub experience_node : String → RuleEntry → GraphNode
  experience_node entry_id rule = record {
    node_id = entry_id;
    node_type = "experience";
    name = rule.title;
    location = layout.archive_path;
    category = none;
    status = "archived";
  }

  abbrev pub promoted_relation : String → String → GraphRelation
  promoted_relation node_id entry_id = record {
    source_id = node_id;
    target_id = entry_id;
    relation_type = promoted_from;
    note = str_append "从 " (str_append entry_id " 升维而来");
  }

  -- a cycle is an exception; the node is noted behind it
  abbrev pub registered : RuleEntry → String → Session → GraphFile × Result {0} Unit → Turn
  registered rule node_id p (g, ok u) = leave rule (record p {
    state = record p.state { graph_node_id = some node_id };
    graph_node_id = some node_id;
    graph = g;
  })
  registered rule node_id p (g, raise e) = failed e (record p { graph = g })

  -- _register_graph_node, for the rule that has been archived; `none` where the graph gives none
  unfoldable pub register_graph_node : String → RuleEntry → Session → Option Turn
  unfolding register_node add_relation
  register_graph_node entry_id rule p =
      let node_id = generate_node_id p.graph in
      let nodes =
        register_node s.today (experience_node entry_id rule)
          (register_node s.today (rule_node node_id rule) p.graph) in
      elim (add_relation s.today (promoted_relation node_id entry_id) nodes) [
        | none ↦ none
        | some x ↦ some (registered rule node_id p x)
      ]

  -- step 5: a new state has no node
  unfoldable pub register_step : RuleEntry → Option String → Session → Option Turn
  unfolding register_graph_node
  register_step rule none p = some (leave rule p)
  register_step rule (some entry_id) p =
      if nonempty entry_id then register_graph_node entry_id rule p else some (leave rule p)

  -- step 7
  unfoldable pub cascade_step : RuleEntry → Option String → Session → Option Turn
  cascade_step rule none p = some (leave rule p)
  cascade_step rule (some node_id) p =
      elim (cascade_from s.today t.show node_id "modified" p.graph) [
        | none ↦ none
        | some c ↦ some (leave rule (record p { graph = c.graph; cascade_result = some c }))
      ]

  -- steps 6 and 7
  unfoldable pub cross_step : RuleEntry → Session → Option Turn
  unfolding cascade_step
  cross_step rule p =
      let (g, triggered) = s.check_and_promote p.calls p.graph in
      let called : Session = record p { graph = g; calls = p.calls + 1 } in
      elim triggered [
        | raise e ↦ some (failed e called)
        | ok b ↦
            cascade_step rule p.state.graph_node_id (record called { cross_project_triggered = b })
      ]
