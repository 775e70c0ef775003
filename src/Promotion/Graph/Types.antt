-- ===== src/Promotion/Graph/Types.antt =====
-- `GraphRelationType`, `GraphNode` and `GraphRelation` of
-- server/distill_team/promotion/models.py, and the tables of graph.md.
use Prim.Native.String.{◌++◌ as str_append}
use team_harness.Prelude.{String, Bool, true, false, Option, List, [], ◌∷◌}

-- GraphRelationType
pub data RelationType : Type 0 where
  promoted_from covers references depends_on same_source registered_in : RelationType

-- the text of a relation type
abbrev pub relation_text : RelationType → String
relation_text promoted_from = "promoted_from"
relation_text covers = "covers"
relation_text references = "references"
relation_text depends_on = "depends_on"
relation_text same_source = "same_source"
relation_text registered_in = "registered_in"

-- _RELATION_TYPE_TO_ZH
abbrev pub relation_zh : RelationType → String
relation_zh promoted_from = "升维自"
relation_zh covers = "覆盖"
relation_zh references = "引用"
relation_zh depends_on = "依赖"
relation_zh same_source = "同源"
relation_zh registered_in = "登记于"

-- a == b on two relation types
abbrev pub same_type : RelationType → RelationType → Bool
same_type promoted_from promoted_from = true
same_type covers covers = true
same_type references references = true
same_type depends_on depends_on = true
same_type same_source same_source = true
same_type registered_in registered_in = true
same_type _ _ = false

pub record GraphNode : Type 0 where
  pub node_id : String
  pub node_type : String
  pub name : String
  pub location : String
  pub category : Option String
  pub status : String

pub record GraphRelation : Type 0 where
  pub source_id : String
  pub target_id : String
  pub relation_type : RelationType
  pub note : String

-- time, description, involved nodes
abbrev pub LogRow : Type 0
LogRow = String × String × String

pub record GraphFile : Type 0 where
  pub nodes : List GraphNode
  pub relations : List GraphRelation
  pub logs : List LogRow

-- ", ".join(ids)
abbrev pub join : List String → String
join [] = ""
join (i ∷ []) = i
join (i ∷ j ∷ is) = str_append i (str_append ", " (join (j ∷ is)))
