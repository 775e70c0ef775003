-- ===== src/Promotion/Graph.antt =====
-- `GraphRegistry` of server/distill_team/promotion/graph.py, with `GraphNode`, `GraphRelation` and
-- `GraphRelationType` of models.py. The file graph.md is its three tables; an absent file is the
-- three empty tables. `today` is the date that an operation reads from the clock.
pub mod Types
pub mod Cycle
pub mod Acyclic
pub mod Tables
pub mod Relations
pub mod History
pub mod Links
use Prim.Native.String.{◌++◌ as str_append}
use team_harness.Prelude.{
  ℕ, zero, suc, String, Bool, true, false, not, ◌&&◌, ◌||◌, Option, none, some, List, [], ◌∷◌, ◌++◌,
  length, select, contains, ◌==◌, nonempty, if◌then◌else◌,
}
use team_harness.Prelude.Dict
use team_harness.Prelude.Dict.{Dict}
use team_harness.Prelude.Result.{Result, ok, raise}
use team_harness.Promotion.Graph.Types.{
  RelationType, promoted_from, covers, references, depends_on, same_source, registered_in,
  relation_text, relation_zh, same_type, GraphNode, GraphRelation, LogRow, GraphFile, join,
}

-- the first node of that id is replaced; `none` if there is none
unfoldable pub replace_node :
    String → (GraphNode → GraphNode) → List GraphNode → Option (List GraphNode)
replace_node node_id f [] = none
replace_node node_id f (n ∷ ns) =
    let rest = replace_node node_id f ns in
    if n.node_id == node_id
    then some (f n ∷ ns)
    else elim rest [ none ↦ none | some ns' ↦ some (n ∷ ns') ]

unfoldable pub register_node : String → GraphNode → GraphFile → GraphFile
register_node today node g = elim (replace_node node.node_id (λ _. node) g.nodes) [
  | some ns ↦ record g {
    nodes = ns;
    logs = g.logs ++ (today, str_append "更新节点 " node.node_id, node.node_id) ∷ [];
  }
  | none ↦ record g {
    nodes = g.nodes ++ node ∷ [];
    logs =
        g.logs
        ++ (
          today,
          str_append "新增节点 "
              (str_append node.node_id (str_append " (" (str_append node.node_type ")"))),
          node.node_id,
        )
          ∷ [];
  }
]

unfoldable pub find_node : String → List GraphNode → Option GraphNode
find_node node_id [] = none
find_node node_id (n ∷ ns) = if n.node_id == node_id then some n else find_node node_id ns

abbrev pub get_node : GraphFile → String → Option GraphNode
get_node g node_id = find_node node_id g.nodes

abbrev pub list_nodes : GraphFile → List GraphNode
list_nodes g = g.nodes

-- on a ValueError the file is not written
unfoldable pub update_node_status :
    String → String → String → GraphFile → GraphFile × Result {0} Unit
update_node_status today node_id status g =
    elim (replace_node node_id (λ n. record n { status = status }) g.nodes) [
      | none ↦ (g, raise (str_append "节点 " (str_append node_id " 不存在")))
      | some ns ↦ (
        record g {
          nodes = ns;
          logs =
              g.logs
              ++ (
                today,
                str_append "更新节点 " (str_append node_id (str_append " 状态为 " status)),
                node_id,
              )
                ∷ [];
        },
        ok tt,
      )
    ]

-- adj.get(node, [])
abbrev pub targets_at : String → Dict (List String) → List String
targets_at node adj = elim (Dict.get node adj) [ none ↦ [] | some ts ↦ ts ]

-- the adjacency of DEPENDS_ON: `adj.setdefault(source_id, []).append(target_id)` for each relation
unfoldable pub adjacency : Dict (List String) → List GraphRelation → Dict (List String)
adjacency adj [] = adj
adjacency adj (r ∷ rs) =
    let next =
      if same_type r.relation_type depends_on
      then Dict.put r.source_id (targets_at r.source_id adj ++ r.target_id ∷ []) adj
      else adj in
    adjacency next rs

-- stack.extend(nodes), on a stack whose first element is the one that `pop` takes
abbrev pub push_all : List String → List String → List String
push_all [] stack = stack
push_all (n ∷ ns) stack = push_all ns (n ∷ stack)

-- the end of the loop's body: (visited, stack)
unfoldable pub visit :
    Dict (List String) → String → List String → List String → List String × List String
visit adj node visited stack =
    if contains node visited
    then (visited, stack)
    else (node ∷ visited, push_all (targets_at node adj) stack)

-- the `while` loop of `detect_cycle`; `none` is out of fuel
unfoldable pub search : Dict (List String) → String → ℕ → List String → List String → Option Bool
unfolding visit
search adj source_id zero visited [] = some false
search adj source_id zero visited (node ∷ stack) = none
search adj source_id (suc fuel) visited [] = some false
search adj source_id (suc fuel) visited (node ∷ stack) =
    let (visited', stack') = visit adj node visited stack in
    let rest = search adj source_id fuel visited' stack' in
    if node == source_id then some true else rest

-- the relations are as many as the pushes of the loop, at most
unfoldable pub detect_cycle : GraphFile → String → String → RelationType → Option Bool
unfolding adjacency search
detect_cycle g source_id target_id relation_type =
    if not (same_type relation_type depends_on)
    then some false
    else search (adjacency [] g.relations) source_id (suc (length g.relations)) [] (target_id ∷ [])

abbrev pub same_relation : String → String → RelationType → GraphRelation → Bool
same_relation source_id target_id relation_type r =
    (r.source_id == source_id)
    && (r.target_id == target_id)
    && same_type r.relation_type relation_type

-- what the loop over the relations finds: no such relation, one that needs no change, or one with
-- another note, and the relations with the new note
pub data Found : Type 0 where
  missing up_to_date : Found
  outdated : List GraphRelation → Found

abbrev pub behind : GraphRelation → Found → Found
behind r missing = missing
behind r up_to_date = up_to_date
behind r (outdated rs) = outdated (r ∷ rs)

unfoldable pub find_relation : GraphRelation → List GraphRelation → Found
find_relation new [] = missing
find_relation new (r ∷ rs) =
    let rest = find_relation new rs in
    if same_relation new.source_id new.target_id new.relation_type r
    then if nonempty new.note && not (r.note == new.note)
      then outdated (record r { note = new.note } ∷ rs)
      else up_to_date
    else behind r rest

abbrev arrow : String → String → String → String
arrow source_id target_id type_ =
    str_append source_id
      (str_append " → " (str_append target_id (str_append " (" (str_append type_ ")"))))

abbrev relation_row : String → String → GraphRelation → LogRow
relation_row today change r = (
  today,
  str_append change (arrow r.source_id r.target_id (relation_zh r.relation_type)),
  join (r.source_id ∷ r.target_id ∷ []),
)

-- the part of `add_relation` behind the cycle check
unfoldable pub store_relation : String → GraphRelation → GraphFile → GraphFile
unfolding find_relation
store_relation today r g = elim (find_relation r g.relations) [
  | up_to_date ↦ g
  | outdated rs ↦ record g { relations = rs; logs = g.logs ++ relation_row today "更新关系 " r ∷ [] }
  | missing ↦ record g {
    relations = g.relations ++ r ∷ [];
    logs = g.logs ++ relation_row today "新增关系 " r ∷ [];
  }
]

abbrev pub cycle_error : GraphRelation → String
cycle_error r =
    str_append "添加关系 "
      (str_append (arrow r.source_id r.target_id (relation_text r.relation_type)) " 会形成环")

-- `none` would be a cycle check that does not end
unfoldable pub add_relation :
    String → GraphRelation → GraphFile → Option (GraphFile × Result {0} Unit)
unfolding detect_cycle store_relation
add_relation today r g = elim (detect_cycle g r.source_id r.target_id r.relation_type) [
  | none ↦ none
  | some true ↦ some (g, raise (cycle_error r))
  | some false ↦ some (store_relation today r g, ok tt)
]

unfoldable pub get_relations : GraphFile → String → List GraphRelation
get_relations g node_id =
    select (λ r. (r.source_id == node_id) || (r.target_id == node_id)) g.relations

-- the loop of `remove_relation`: the relations that stay, and whether one went
unfoldable pub drop_relation :
    String → String → RelationType → List GraphRelation → List GraphRelation × Bool
drop_relation source_id target_id relation_type [] = ([], false)
drop_relation source_id target_id relation_type (r ∷ rs) =
    let (kept, removed) = drop_relation source_id target_id relation_type rs in
    if same_relation source_id target_id relation_type r then (kept, true) else (r ∷ kept, removed)

unfoldable pub remove_relation : String → String → String → RelationType → GraphFile → GraphFile
unfolding drop_relation
remove_relation today source_id target_id relation_type g =
    let (kept, removed) = drop_relation source_id target_id relation_type g.relations in
    if removed
    then record g {
      relations = kept;
      logs =
          g.logs
          ++ (
            today,
            str_append "移除关系 " (arrow source_id target_id (relation_zh relation_type)),
            join (source_id ∷ target_id ∷ []),
          )
            ∷ [];
    }
    else g

unfoldable pub log_change : String → String → List String → GraphFile → GraphFile
log_change today description involved_nodes g = record g {
  logs = g.logs ++ (today, description, join involved_nodes) ∷ [];
}
