-- ===== src/Promotion/Examples.antt =====
-- Runs of the graph registry on three rules, of which each depends on the next.
use team_harness.Prelude.{String, ◌≡◌, ◌≢◌, ◌⊎◌, refl, ap, ◌==◌, true, false, none, some, [], ◌∷◌}
use team_harness.Prelude.Dict
use team_harness.Prelude.Result.{Result}
use team_harness.Promotion.Graph.Types.{depends_on, GraphNode, GraphRelation, GraphFile}
use team_harness.Promotion.Graph.{
  get_relations, log_change, register_node, detect_cycle, add_relation,
}
use team_harness.Promotion.Cascade.{Cascade, cascade_from}
use team_harness.Promotion.Cascade.Ends.{Returns, cascade_from-Returns}
use team_harness.Promotion.Cascade.Back.{Noted, cascade_from-Noted}
use team_harness.Promotion.Graph.Cycle.{Depends, detect_cycle-Depends}
use team_harness.Promotion.Graph.Acyclic.{IsAcyclic, Addition, add_relation-IsAcyclic}
use team_harness.Promotion.Graph.History.{Reached, absent, registered, IsSound, Reached-IsSound}

abbrev rule : GraphNode
rule = record {
  node_id = "R1";
  node_type = "rule";
  name = "owner check";
  location = "rules.md";
  category = none;
  status = "active";
}

abbrev depends : String → String → GraphRelation
depends a b = record { source_id = a; target_id = b; relation_type = depends_on; note = "" }

abbrev graph : GraphFile
graph = record {
  nodes = rule ∷ [];
  relations = depends "R1" "R2" ∷ depends "R2" "R3" ∷ [];
  logs = [];
}

-- closing the circle is refused, and a shortcut is not
refused : detect_cycle graph "R3" "R1" depends_on ≡ some true
unfolding detect_cycle Dict.get Dict.put
refused = refl

passed : detect_cycle graph "R1" "R3" depends_on ≡ some false
unfolding detect_cycle Dict.get Dict.put
passed = refl

detect_cycle-Depends_example :
    ((depends_on ≡ depends_on)
      × (detect_cycle graph "R3" "R1" depends_on ≡ some true)
      × Depends graph.relations "R1" "R3")
    ⊎ ((depends_on ≡ depends_on)
        × (detect_cycle graph "R3" "R1" depends_on ≡ some false)
        × (¬ Depends graph.relations "R1" "R3"))
    ⊎ ((depends_on ≢ depends_on) × (detect_cycle graph "R3" "R1" depends_on ≡ some false))
detect_cycle-Depends_example = detect_cycle-Depends graph "R3" "R1" depends_on

add_relation-IsAcyclic_example :
    (out : GraphFile × Result {0} Unit) × (add_relation "2026-01-01" (depends "R3" "R1") graph
      ≡ some out)
    × Addition "2026-01-01" (depends "R3" "R1") graph out
    × (IsAcyclic graph.relations → IsAcyclic out.0.relations)
add_relation-IsAcyclic_example = add_relation-IsAcyclic "2026-01-01" (depends "R3" "R1") graph

abbrev blank : GraphFile
blank = record { nodes = []; relations = []; logs = [] }

abbrev first : GraphFile
first = register_node "2026-01-01" rule blank

linked :
    (out : GraphFile × Result {0} Unit) × (add_relation "2026-01-01" (depends "R1" "R2") first
      ≡ some out)
linked =
    let (out, e, added, acyclic) = add_relation-IsAcyclic "2026-01-01" (depends "R1" "R2") first in
    (out, e)

Reached-IsSound_example : IsSound linked.0.0
Reached-IsSound_example = Reached-IsSound (
    Reached.related_to "2026-01-01" (depends "R1" "R2") linked.0
      (registered "2026-01-01" rule absent) linked.1)

-- "R1" depends on "R2": no circle at all
abbrev chain : GraphFile
chain = record { nodes = rule ∷ []; relations = depends "R1" "R2" ∷ []; logs = [] }

cascade_from-Returns_example :
    Returns chain.relations (cascade_from "d" (λ n. "n") "R1" "modified" chain)
cascade_from-Returns_example = cascade_from-Returns "d" (λ n. "n") "R1" "modified" chain

cascade_from-Noted_example :
    (d : Cascade) × (cascade_from "d" (λ n. "n") "R1" "modified" chain ≡ some d)
    × Noted ("R1" ∷ "R2" ∷ "R1" ∷ []) d
cascade_from-Noted_example =
    cascade_from-Noted "d" (λ n. "n") "R1" "modified" chain [] (depends "R1" "R2") [] refl refl
      (λ e. cc (ap (λ i. i == "R1") e))

-- the source of a change waits for a human, though nothing is circular
left_pending :
    (d : Cascade) × (cascade_from "d" (λ n. "n") "R1" "modified" chain ≡ some d)
    × (d.pending_confirmation_nodes ≡ "R1" ∷ [])
unfolding cascade_from get_relations log_change
left_pending = (_, refl, refl)
