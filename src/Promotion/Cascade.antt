-- ===== src/Promotion/Cascade.antt =====
-- `CascadeUpdater` of server/distill_team/promotion/cascade.py, over the graph registry: a change of
-- a node is followed along its relations, in both directions. `today` is the date, and `show` prints
-- a number.
pub mod Ends
pub mod Back
use Prim.Native.String.{◌++◌ as str_append}
use team_harness.Prelude.{
  ℕ, zero, suc, ◌+◌, String, true, false, Option, none, some, List, [], ◌∷◌, ◌++◌, length, contains,
  is_some, ◌==◌, if◌then◌else◌,
}
use team_harness.Promotion.Graph.Types.{
  RelationType, promoted_from, covers, references, depends_on, same_source, registered_in,
  relation_text, GraphRelation, GraphFile,
}
use team_harness.Promotion.Graph.{get_node, update_node_status, get_relations, log_change}

pub record CascadeUpdate : Type 0 where
  pub node_id : String
  pub action : String
  pub relation_type : RelationType
  pub detail : String

-- CascadeResult without its source, with the graph that is written on the way
pub record Cascade : Type 0 where
  pub graph : GraphFile
  pub updates : List CascadeUpdate
  pub cycles_detected : List (List String)
  pub pending_confirmation_nodes : List String

-- visited_stack[visited_stack.index(node_id):]
unfoldable pub from_first : String → List String → List String
from_first node_id [] = []
from_first node_id (i ∷ is) = if i == node_id then i ∷ is else from_first node_id is

-- " → ".join(path)
unfoldable pub join_path : List String → String
join_path [] = ""
join_path (i ∷ []) = i
join_path (i ∷ j ∷ is) = str_append i (str_append " → " (join_path (j ∷ is)))

-- relation.target_id if relation.source_id == node_id else relation.source_id
abbrev pub other_end : String → GraphRelation → String
other_end node_id r = if r.source_id == node_id then r.target_id else r.source_id

-- the loop over the relations of a node
unfoldable pub walk :
    (GraphRelation → Cascade → Option Cascade) → List GraphRelation → Cascade → Option Cascade
walk f [] c = some c
walk f (r ∷ rs) c = elim (f r c) [ none ↦ none | some d ↦ walk f rs d ]

-- why a circle needs a human
abbrev pub cycle_reason : RelationType → String
cycle_reason depends_on = "依赖关系成环，循环依赖需人工拆解"
cycle_reason promoted_from = "混合关系成环，需人工审查"
cycle_reason covers = "混合关系成环，需人工审查"
cycle_reason references = "混合关系成环，需人工审查"
cycle_reason same_source = "混合关系成环，需人工审查"
cycle_reason registered_in = "混合关系成环，需人工审查"

module _ (today : String) where
  -- update_node_status(node_id, "pending_confirmation"), where the node is there
  unfoldable pub mark_pending : String → GraphFile → GraphFile
  mark_pending node_id g =
      if is_some (get_node g node_id)
      then (update_node_status today node_id "pending_confirmation" g).0
      else g

  -- the part of `_handle_cycle` for any type but SAME_SOURCE
  unfoldable pub pend : String → RelationType → List String → Cascade → Cascade
  unfolding mark_pending join_path
  pend node_id relation_type path c =
      let reason = cycle_reason relation_type in
      record {
        graph =
            log_change today
              (str_append "检测到环："
                (str_append (join_path path) (str_append "（" (str_append reason "）"))))
              path (mark_pending node_id c.graph);
        updates =
            c.updates
            ++ record {
              node_id = node_id;
              action = "cycle_detected";
              relation_type = relation_type;
              detail = str_append reason (str_append "：" (join_path path));
            }
              ∷ [];
        cycles_detected = c.cycles_detected;
        pending_confirmation_nodes = c.pending_confirmation_nodes ++ node_id ∷ [];
      }

  -- a circle of SAME_SOURCE is only noted
  unfoldable pub note_same_source : String → List String → Cascade → Cascade
  unfolding join_path
  note_same_source node_id path c = record c {
    updates =
        c.updates
        ++ record {
          node_id = node_id;
          action = "cycle_detected";
          relation_type = same_source;
          detail = str_append "同源关系成环 " (str_append (join_path path) (str_append "，" "正常双向关系，不处理"));
        }
          ∷ [];
  }

  -- _handle_cycle
  abbrev pub handle_cycle : String → RelationType → List String → Cascade → Cascade
  handle_cycle node_id same_source path c = note_same_source node_id path c
  handle_cycle node_id depends_on path c = pend node_id depends_on path c
  handle_cycle node_id promoted_from path c = pend node_id promoted_from path c
  handle_cycle node_id covers path c = pend node_id covers path c
  handle_cycle node_id references path c = pend node_id references path c
  handle_cycle node_id registered_in path c = pend node_id registered_in path c

  -- the branch of `_evaluate_node` for a node that is on the stack
  unfoldable pub close_cycle : String → RelationType → List String → Cascade → Cascade
  unfolding from_first pend note_same_source
  close_cycle node_id relation_type stack c =
      let path = from_first node_id stack ++ node_id ∷ [] in
      handle_cycle node_id relation_type path
        (record c { cycles_detected = c.cycles_detected ++ path ∷ [] })

  -- _apply_update
  unfoldable pub apply_update : String → String → String → RelationType → Cascade → Cascade
  apply_update change_type node_id source_id relation_type c = record c {
    graph =
        log_change today
          (str_append "连锁更新：" (
            str_append source_id (
              str_append " 变更(" (
                str_append change_type (
                  str_append ")，检查关联节点 " (
                    str_append node_id
                      (str_append "（关系: " (str_append (relation_text relation_type) "）"))))))))
          (source_id ∷ node_id ∷ []) c.graph;
    updates =
        c.updates
        ++ record {
          node_id = node_id;
          action = "status_updated";
          relation_type = relation_type;
          detail = str_append "节点 " (
              str_append node_id (
                str_append " 因 " (
                  str_append source_id (
                    str_append " 的 " (
                      str_append (relation_text relation_type)
                        (str_append " 关系变更(" (str_append change_type ")需要检查")))))));
        }
          ∷ [];
  }

  -- _evaluate_node; `_needs_update` is always true. `none` if the fuel ends.
  unfoldable pub evaluate_node :
      String → ℕ → String → String → RelationType → List String → Cascade → Option Cascade
  unfolding walk close_cycle apply_update
  evaluate_node change_type zero node_id source_id relation_type stack c = none
  evaluate_node change_type (suc n) node_id source_id relation_type stack c =
      let next : GraphRelation → Cascade → Option Cascade = λ r.
        evaluate_node change_type n (other_end node_id r) node_id r.relation_type
          (stack ++ node_id ∷ []) in
      let updated = apply_update change_type node_id source_id relation_type c in
      elim (contains node_id stack) [
        | true ↦ some (close_cycle node_id relation_type stack c)
        | false ↦ walk next (get_relations updated.graph node_id) updated
      ]

  -- the last line of the log
  unfoldable pub log_cascade : (ℕ → String) → String → String → Cascade → Cascade
  log_cascade show source_node_id change_type c = record c {
    graph =
        log_change today
          (str_append "连锁更新：节点 " (
            str_append source_node_id (
              str_append " 变更(" (
                str_append change_type (
                  str_append ")，执行了 " (
                    str_append (show (length c.updates)) (
                      str_append " 个关联操作，检测到 "
                        (str_append (show (length c.cycles_detected)) " 个环"))))))))
          (source_node_id ∷ []) c.graph;
  }

  unfoldable pub cascade_from : (ℕ → String) → String → String → GraphFile → Option Cascade
  unfolding evaluate_node log_cascade
  cascade_from show source_node_id change_type g =
      let fuel = suc (length g.relations + length g.relations) in
      elim (walk
        (λ r.
          evaluate_node change_type fuel (other_end source_node_id r) source_node_id r.relation_type
            (source_node_id ∷ []))
        (get_relations g source_node_id)
        (record {
          graph = g;
          updates = [];
          cycles_detected = [];
          pending_confirmation_nodes = [];
        })) [ none ↦ none | some c ↦ some (log_cascade show source_node_id change_type c) ]
