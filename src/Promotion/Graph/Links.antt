-- ===== src/Promotion/Graph/Links.antt =====
-- `generate_links_block` of server/distill_team/promotion/graph.py: the loop that sorts the
-- relations of a node into six lists, and the text.
use Prim.Native.String.{◌++◌ as str_append}
use team_harness.Prelude.{
  String, ◌≡◌, refl, Bool, true, false, ◌&&◌, List, [], ◌∷◌, ◌++◌, append-nil, append_assoc, arith,
  contains, ==_iff, select, ◌==◌, if◌then◌else◌, sym, ap, ◌∙◌, Bool-cases, inl, inr, map,
}
use team_harness.Promotion.Graph.Types.{
  RelationType, promoted_from, covers, references, depends_on, same_source, registered_in,
  same_type, GraphRelation, GraphFile, join,
}
use team_harness.Promotion.Graph.Cycle.{targets}

pub record Links : Type 0 where
  pub promoted_from : List String
  pub covers : List String
  pub references : List String
  pub depends_on : List String
  pub same_source : List String
  pub registered_in : List String

abbrev no_links : Links
no_links = record {
  promoted_from = [];
  covers = [];
  references = [];
  depends_on = [];
  same_source = [];
  registered_in = [];
}

-- what the body of the loop appends: to which list, and what
abbrev entry : String → GraphRelation → List String
entry node r =
    if r.source_id == node
    then r.target_id ∷ []
    else if same_type r.relation_type same_source && (r.target_id == node)
    then r.source_id ∷ []
    else []

-- the body of the loop
unfoldable pub add_link : String → RelationType → GraphRelation → Links → Links
add_link node promoted_from r l = record l { promoted_from = l.promoted_from ++ entry node r }
add_link node covers r l = record l { covers = l.covers ++ entry node r }
add_link node references r l = record l { references = l.references ++ entry node r }
add_link node depends_on r l = record l { depends_on = l.depends_on ++ entry node r }
add_link node same_source r l = record l { same_source = l.same_source ++ entry node r }
add_link node registered_in r l = record l { registered_in = l.registered_in ++ entry node r }

unfoldable pub collect : String → Links → List GraphRelation → Links
unfolding add_link
collect node l [] = l
collect node l (r ∷ rs) = collect node (add_link node r.relation_type r l) rs

unfoldable pub links_of : GraphFile → String → Links
unfolding collect
links_of g node = collect node no_links g.relations

-- fmt
abbrev shown : List String → String
shown ids = str_append "[" (str_append (join ids) "]")

-- "\n".join(lines)
abbrev lines_text : List String → String
lines_text [] = ""
lines_text (l ∷ []) = l
lines_text (l ∷ m ∷ ls) = str_append l (str_append "\n" (lines_text (m ∷ ls)))

unfoldable pub generate_links_block : GraphFile → String → String
unfolding links_of
generate_links_block g node =
    let l = links_of g node in
    lines_text (
      "links:"
      ∷ str_append "  升维自: " (shown l.promoted_from)
      ∷ str_append "  覆盖: " (shown l.covers)
      ∷ str_append "  引用: " (shown l.references)
      ∷ str_append "  依赖: " (shown l.depends_on)
      ∷ str_append "  同源: " (shown l.same_source)
      ∷ str_append "  登记于: " (shown l.registered_in)
      ∷ [])

abbrev list_of : RelationType → Links → List String
list_of promoted_from l = l.promoted_from
list_of covers l = l.covers
list_of references l = l.references
list_of depends_on l = l.depends_on
list_of same_source l = l.same_source
list_of registered_in l = l.registered_in

-- what the relations of a type append
abbrev appended : String → RelationType → List GraphRelation → List String
appended node t [] = []
appended node t (r ∷ rs) =
    let rest = appended node t rs in
    if same_type r.relation_type t then entry node r ++ rest else rest

list_of-add_link :
    (node : String) (t s : RelationType) (r : GraphRelation) (l : Links)
    → list_of t (add_link node s r l)
      ≡ (if same_type s t then list_of t l ++ entry node r else list_of t l)
unfolding add_link
list_of-add_link node promoted_from s r l = ground arith
list_of-add_link node covers s r l = ground arith
list_of-add_link node references s r l = ground arith
list_of-add_link node depends_on s r l = ground arith
list_of-add_link node same_source s r l = ground arith
list_of-add_link node registered_in s r l = ground arith

list_of-collect :
    (node : String) (t : RelationType) (l : Links) (rs : List GraphRelation)
    → list_of t (collect node l rs) ≡ list_of t l ++ appended node t rs
unfolding collect
list_of-collect node t l [] = sym (append-nil (list_of t l))
list_of-collect node t l (r ∷ rs) =
    list_of-collect node t (add_link node r.relation_type r l) rs
    ∙ ap (λ ids. ids ++ appended node t rs) (list_of-add_link node t r.relation_type r l)
    ∙ joined (list_of t l) (entry node r) (appended node t rs) (same_type r.relation_type t)
  where
    joined :
        (a b c : List String) (test : Bool)
        → (if test then a ++ b else a) ++ c ≡ a ++ (if test then b ++ c else c)
    joined a b c true = append_assoc a b c
    joined a b c false = refl

-- the targets of a node's relations of a type
abbrev pub named : RelationType → String → List GraphRelation → List String
named t node rs =
    map (λ r. r.target_id) (select (λ r. same_type r.relation_type t && (r.source_id == node)) rs)

one_sided :
    (s t : RelationType)
    → same_type s t ≡ true
    → same_type t same_source ≡ false
    → same_type s same_source ≡ false
one_sided promoted_from t h k = refl
one_sided covers t h k = refl
one_sided references t h k = refl
one_sided depends_on t h k = refl
one_sided same_source t h k = ground arith
one_sided registered_in t h k = refl

appended-named :
    (node : String) (t : RelationType) (rs : List GraphRelation)
    → same_type t same_source ≡ false
    → appended node t rs ≡ named t node rs
appended-named node t [] other_ = refl
appended-named node t (r ∷ rs) other_ = elim (Bool-cases (same_type r.relation_type t)) [
  | inr differs ↦ rw differs (appended-named node t rs other_)
  | inl same ↦ elim (Bool-cases (r.source_id == node)) [
    | inl at ↦ rw (same, at) (ap (λ ids. r.target_id ∷ ids) (appended-named node t rs other_))
    | inr apart ↦
        rw (same, apart, one_sided r.relation_type t same other_) (appended-named node t rs other_)
  ]
]

named-targets :
    (node : String) (rs : List GraphRelation) → named depends_on node rs ≡ targets node rs
named-targets node [] = refl
named-targets node (r ∷ rs) =
    elim (Bool-cases (same_type r.relation_type depends_on && (r.source_id == node))) [
      | inl edge ↦ rw edge (ap (λ ids. r.target_id ∷ ids) (named-targets node rs))
      | inr no_ ↦ rw no_ (named-targets node rs)
    ]

peers_sym :
    (a b : String) (rs : List GraphRelation)
    → contains b (appended a same_source rs) ≡ contains a (appended b same_source rs)
peers_sym a b [] = refl
peers_sym a b (r ∷ rs) = elim (Bool-cases (same_type r.relation_type same_source)) [
  | inr other_ ↦ rw other_ (peers_sym a b rs)
  | inl same ↦ rw same (
      ground (
        arith,
        peers_sym a b rs,
        ==_iff r.source_id a,
        ==_iff r.source_id b,
        ==_iff r.target_id a,
        ==_iff r.target_id b,
      ))
]

-- The block of a node lists, for each type but the symmetric one, the targets of its relations of
-- that type in the order of the file; its dependencies are those of the cycle check. "Same source"
-- is symmetric: one node is in the other's list if and only if the other is in its list.
pub links_of-named :
    (g : GraphFile) (node : String)
    → ((links_of g node).promoted_from ≡ named promoted_from node g.relations)
      × ((links_of g node).covers ≡ named covers node g.relations)
      × ((links_of g node).references ≡ named references node g.relations)
      × ((links_of g node).depends_on ≡ targets node g.relations)
      × ((links_of g node).registered_in ≡ named registered_in node g.relations)
      × ((other_ : String)
          → contains other_ (links_of g node).same_source
            ≡ contains node (links_of g other_).same_source)
unfolding links_of
links_of-named g node =
    let at = λ (t : RelationType). list_of-collect node t no_links g.relations in
    (
      at promoted_from ∙ appended-named node promoted_from g.relations refl,
      at covers ∙ appended-named node covers g.relations refl,
      at references ∙ appended-named node references g.relations refl,
      at depends_on
          ∙ appended-named node depends_on g.relations refl
          ∙ named-targets node g.relations,
      at registered_in ∙ appended-named node registered_in g.relations refl,
      λ other_.
          ap (contains other_) (at same_source)
          ∙ peers_sym node other_ g.relations
          ∙ sym (ap (contains node) (list_of-collect other_ same_source no_links g.relations)),
    )
