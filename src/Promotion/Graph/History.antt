-- ===== src/Promotion/Graph/History.antt =====
-- graph.md over its whole life: what every sequence of operations on an absent file keeps.
use team_harness.Prelude.{String, ◌≡◌, inl, inr, sym, ◌∙◌, subst, some, List, [], select, Distinct}
use team_harness.Prelude.Result.{Result, ok, raise}
use team_harness.Promotion.Graph.Types.{RelationType, GraphNode, GraphRelation, GraphFile}
use team_harness.Promotion.Graph.{
  register_node, update_node_status, add_relation, remove_relation, log_change,
}
use team_harness.Promotion.Graph.Acyclic.{
  IsAcyclic, Fewer-IsAcyclic, Addition, add_relation-IsAcyclic,
}
use team_harness.Promotion.Graph.Tables.{
  node_ids, register_node-Registered, update_node_status-Registered,
}
use team_harness.Promotion.Graph.Relations.{
  IsUnique, store_relation-IsUnique, nodes-store_relation, spared, remove_relation-select,
  select-Fewer, select-IsUnique,
}

-- graph.md after some operations on an absent file; an exception of theirs is caught
pub data Reached : GraphFile → Type 0 where
  absent : Reached (record { nodes = []; relations = []; logs = [] })
  registered :
      {g : GraphFile} (today : String) (n : GraphNode)
      → Reached g
      → Reached (register_node today n g)
  status_set :
      {g : GraphFile} (today i status : String)
      → Reached g
      → Reached (update_node_status today i status g).0
  related_to :
      {g : GraphFile} (today : String) (r : GraphRelation) (out : GraphFile × Result {0} Unit)
      → Reached g
      → add_relation today r g ≡ some out
      → Reached out.0
  unrelated :
      {g : GraphFile} (today source target : String) (type_ : RelationType)
      → Reached g
      → Reached (remove_relation today source target type_ g)
  logged :
      {g : GraphFile} (today description : String) (involved : List String)
      → Reached g
      → Reached (log_change today description involved g)

pub record IsSound (g : GraphFile) : Type 0 where
  pub acyclic : IsAcyclic g.relations
  pub unique : IsUnique g.relations
  pub distinct : Distinct (node_ids g.nodes)

some-eq : {a b : GraphFile × Result {0} Unit} → some a ≡ some b → a ≡ b
some-eq h = cc

Addition-IsSound :
    (today : String) (r : GraphRelation) (g : GraphFile) (out : GraphFile × Result {0} Unit)
    → Addition today r g out
    → IsAcyclic out.0.relations
    → IsSound g
    → IsSound out.0
Addition-IsSound today r g (g', raise e) (same, refused, cycle_) acyclic s =
    subst IsSound (sym same) s
Addition-IsSound today r g (g', ok u) (stored, allowed) acyclic s = record {
  acyclic = acyclic;
  unique =
      subst (λ (f : GraphFile). IsUnique f.relations) (sym stored)
        (store_relation-IsUnique today r g s.unique);
  distinct =
      subst (λ (f : GraphFile). Distinct (node_ids f.nodes)) (sym stored)
        (subst (λ ns. Distinct (node_ids ns)) (sym (nodes-store_relation today r g)) s.distinct);
}

-- After any sequence of operations on an absent graph.md no node depends on itself, directly or
-- through others, no relation stands twice in the file, and no node does.
pub Reached-IsSound : {g : GraphFile} → Reached g → IsSound g
unfolding log_change
Reached-IsSound absent = record { acyclic = λ a b t p. absurd (cc t); unique = tt; distinct = tt }
Reached-IsSound (registered {g = g} today n h) =
    let s = Reached-IsSound h in
    let (lookup, same, distinct) = register_node-Registered today n g in
    record {
      acyclic = subst IsAcyclic (sym same) s.acyclic;
      unique = subst IsUnique (sym same) s.unique;
      distinct = distinct s.distinct;
    }
Reached-IsSound (status_set {g = g} today i status h) =
    let s = Reached-IsSound h in
    elim (update_node_status-Registered today i status g) [
      | inl (absent_, same, raised) ↦ subst IsSound (sym same) s
      | inr (n, at, done, (lookup, same, distinct)) ↦ record {
        acyclic = subst IsAcyclic (sym same) s.acyclic;
        unique = subst IsUnique (sym same) s.unique;
        distinct = distinct s.distinct;
      }
    ]
Reached-IsSound (related_to {g = g} today r out h e) =
    let s = Reached-IsSound h in
    let (out', e', added, acyclic) = add_relation-IsAcyclic today r g in
    subst (λ (o : GraphFile × Result {0} Unit). IsSound o.0) (some-eq (sym e' ∙ e))
      (Addition-IsSound today r g out' added (acyclic s.acyclic) s)
Reached-IsSound (unrelated {g = g} today source target type_ h) =
    let s = Reached-IsSound h in
    let (kept, same) = remove_relation-select today source target type_ g in
    let stays = spared source target type_ in
    record {
      acyclic = subst IsAcyclic (sym kept) (
          Fewer-IsAcyclic (select stays g.relations) g.relations (select-Fewer stays g.relations)
            s.acyclic);
      unique = subst IsUnique (sym kept) (select-IsUnique stays g.relations s.unique);
      distinct = subst (λ ns. Distinct (node_ids ns)) (sym same) s.distinct;
    }
Reached-IsSound (logged today description involved h) =
    let s = Reached-IsSound h in
    record { acyclic = s.acyclic; unique = s.unique; distinct = s.distinct }
