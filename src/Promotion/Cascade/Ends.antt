-- ===== src/Promotion/Cascade/Ends.antt =====
-- A cascade ends: its stack holds no node twice, so that it is never longer than the graph is wide.
use team_harness.Prelude.{
  ℕ, zero, suc, ◌+◌, ◌≤◌, ◌<◌, String, ◌≡◌, refl, sym, ◌∙◌, subst, Bool, true, false, ◌||◌, Option,
  some, is_some, List, [], ◌∷◌, ◌++◌, All, All-map, length, contains, contains-append, select, ◌==◌,
  ==_iff, ==_refl, arith, if◌then◌else◌, Bool-cases, Option-cases, inl, inr,
}
use team_harness.Promotion.Graph.Types.{
  RelationType, promoted_from, covers, references, depends_on, same_source, registered_in,
  GraphRelation, GraphFile,
}
use team_harness.Promotion.Graph.{
  get_node, replace_node, update_node_status, get_relations, log_change,
}
use team_harness.Promotion.Cascade.{
  Cascade, other_end, walk, mark_pending, pend, note_same_source, handle_cycle, close_cycle,
  apply_update, evaluate_node, log_cascade, cascade_from, from_first,
}

-- the node is an end of some relation
abbrev is_end : String → List GraphRelation → Bool
is_end i [] = false
is_end i (r ∷ rs) = ((r.source_id == i) || (r.target_id == i)) || is_end i rs

-- how many ends of relations are not on the stack
abbrev fresh : List String → List GraphRelation → ℕ
fresh stack [] = 0
fresh stack (r ∷ rs) =
    (if contains r.source_id stack then 0 else 1)
    + ((if contains r.target_id stack then 0 else 1) + fresh stack rs)

-- one end counts less once `x` is on the stack
fresh_end : List String → String → ℕ
fresh_end stack i = if contains i stack then 0 else 1

fresh_end_falls :
    (stack : List String) (x i : String) → fresh_end (stack ++ x ∷ []) i ≤ fresh_end stack i
unfolding fresh_end
fresh_end_falls stack x i = ground (arith, contains-append i stack (x ∷ []))

fresh_end_new :
    (stack : List String) (x i : String)
    → contains x stack ≡ false
    → (i == x) ≡ true
    → suc (fresh_end (stack ++ x ∷ []) i) ≤ fresh_end stack i
unfolding fresh_end
fresh_end_new stack x i new same =
    ground (arith, contains-append i stack (x ∷ []), ==_iff i x, ==_iff x i)

fresh_falls :
    (stack : List String) (x : String) (rs : List GraphRelation)
    → fresh (stack ++ x ∷ []) rs ≤ fresh stack rs
unfolding fresh_end
fresh_falls stack x [] = omega arith
fresh_falls stack x (r ∷ rs) = omega (
  arith,
  fresh_end_falls stack x r.source_id,
  fresh_end_falls stack x r.target_id,
  fresh_falls stack x rs,
)

fresh_new :
    (stack : List String) (x : String) (rs : List GraphRelation)
    → contains x stack ≡ false
    → is_end x rs ≡ true
    → suc (fresh (stack ++ x ∷ []) rs) ≤ fresh stack rs
unfolding fresh_end
fresh_new stack x [] new end = absurd (cc)
fresh_new stack x (r ∷ rs) new end = elim (Bool-cases (r.source_id == x)) [
  | inl same ↦ omega (
    arith,
    fresh_end_new stack x r.source_id new same,
    fresh_end_falls stack x r.target_id,
    fresh_falls stack x rs,
  )
  | inr differs ↦ elim (Bool-cases (r.target_id == x)) [
    | inl same ↦ omega (
      arith,
      fresh_end_falls stack x r.source_id,
      fresh_end_new stack x r.target_id new same,
      fresh_falls stack x rs,
    )
    | inr differs_too ↦ omega (
      arith,
      fresh_end_falls stack x r.source_id,
      fresh_end_falls stack x r.target_id,
      fresh_new stack x rs new (ground arith),
    )
  ]
]

fresh-le : (stack : List String) (rs : List GraphRelation) → fresh stack rs ≤ length rs + length rs
fresh-le stack [] = omega arith
fresh-le stack (r ∷ rs) = ground (arith, fresh-le stack rs)

-- both ends of a relation are ends
abbrev BothEnd : List GraphRelation → GraphRelation → Type 0
BothEnd rs r = (is_end r.source_id rs ≡ true) × (is_end r.target_id rs ≡ true)

relations-BothEnd : (rs : List GraphRelation) → All (BothEnd rs) rs
relations-BothEnd [] = tt
relations-BothEnd (r ∷ rs) = (
  (ground (arith, ==_refl r.source_id), ground (arith, ==_refl r.target_id)),
  All-map rs (λ q (s, t). (ground (arith, s), ground (arith, t))) (relations-BothEnd rs),
)

relations-update_node_status :
    (today i status : String) (g : GraphFile)
    → (update_node_status today i status g).0.relations ≡ g.relations
unfolding update_node_status
relations-update_node_status today i status g =
    elim (Option-cases (replace_node i (λ n. record n { status = status }) g.nodes)) [
      | inl unknown ↦ rw (unknown, update_node_status) refl
      | inr (ns, is) ↦ rw (is, update_node_status) refl
    ]

relations-mark_pending :
    (today i : String) (g : GraphFile) → (mark_pending today i g).relations ≡ g.relations
unfolding mark_pending
relations-mark_pending today i g = elim (Bool-cases (is_some (get_node g i))) [
  | inl there ↦ rw there (relations-update_node_status today i "pending_confirmation" g)
  | inr missing ↦ rw missing refl
]

relations-pend :
    (today i : String) (type_ : RelationType) (path : List String) (c : Cascade)
    → (pend today i type_ path c).graph.relations ≡ c.graph.relations
unfolding pend log_change
relations-pend today i type_ path c = relations-mark_pending today i c.graph

pub relations-handle_cycle :
    (today i : String) (type_ : RelationType) (path : List String) (c : Cascade)
    → (handle_cycle today i type_ path c).graph.relations ≡ c.graph.relations
unfolding note_same_source
relations-handle_cycle today i same_source path c = refl
relations-handle_cycle today i depends_on path c = relations-pend today i depends_on path c
relations-handle_cycle today i promoted_from path c = relations-pend today i promoted_from path c
relations-handle_cycle today i covers path c = relations-pend today i covers path c
relations-handle_cycle today i references path c = relations-pend today i references path c
relations-handle_cycle today i registered_in path c = relations-pend today i registered_in path c

pub relations-close_cycle :
    (today i : String) (type_ : RelationType) (stack : List String) (c : Cascade)
    → (close_cycle today i type_ stack c).graph.relations ≡ c.graph.relations
unfolding close_cycle
relations-close_cycle today i type_ stack c =
    relations-handle_cycle today i type_ (from_first i stack ++ i ∷ [])
      (record c { cycles_detected = c.cycles_detected ++ (from_first i stack ++ i ∷ []) ∷ [] })

-- it returns, and the relations stay
abbrev pub Returns : List GraphRelation → Option Cascade → Type 0
Returns rs o = (d : Cascade) × (o ≡ some d) × (d.graph.relations ≡ rs)

walk-Returns :
    (rs : List GraphRelation) (P : GraphRelation → Type 0)
    (f : GraphRelation → Cascade → Option Cascade) (sub : List GraphRelation) (c : Cascade)
    → ((r : GraphRelation) (d : Cascade) → P r → d.graph.relations ≡ rs → Returns rs (f r d))
    → All P sub
    → c.graph.relations ≡ rs
    → Returns rs (walk f sub c)
unfolding walk
walk-Returns rs P f [] c g h same = (c, refl, same)
walk-Returns rs P f (r ∷ sub) c g (p, h) same =
    let (d, is, still) = g r c p same in rw (is, walk) (walk-Returns rs P f sub d g h still)

All-select :
    (P : GraphRelation → Type 0) (p : GraphRelation → Bool) (rs : List GraphRelation)
    → All P rs
    → All P (select p rs)
All-select P p [] h = tt
All-select P p (r ∷ rs) (q, h) = elim (Bool-cases (p r)) [
  | inl taken ↦ rw taken (q, All-select P p rs h)
  | inr left ↦ rw left (All-select P p rs h)
]

get_relations-BothEnd :
    (rs : List GraphRelation) (i : String) (g : GraphFile)
    → g.relations ≡ rs
    → All (BothEnd rs) (get_relations g i)
unfolding get_relations
get_relations-BothEnd rs i g same =
    All-select (BothEnd rs) _ g.relations
      (subst (λ qs. All (BothEnd rs) qs) (sym same) (relations-BothEnd rs))

is_end-other_end :
    (rs : List GraphRelation) (i : String) (r : GraphRelation)
    → BothEnd rs r
    → is_end (other_end i r) rs ≡ true
is_end-other_end rs i r (s, t) = elim (Bool-cases (r.source_id == i)) [
  | inl out ↦ rw out t
  | inr back ↦ rw back s
]

module _ (today change_type : String) (rs : List GraphRelation) where
  pub relations-apply_update :
      (i source : String) (type_ : RelationType) (c : Cascade)
      → (apply_update today change_type i source type_ c).graph.relations ≡ c.graph.relations
  unfolding apply_update log_change
  relations-apply_update i source type_ c = refl

  evaluate_node-Returns :
      (n : ℕ) (i source : String) (type_ : RelationType) (stack : List String) (c : Cascade)
      → fresh stack rs < n
      → is_end i rs ≡ true
      → c.graph.relations ≡ rs
      → Returns rs (evaluate_node today change_type n i source type_ stack c)
  unfolding evaluate_node
  evaluate_node-Returns zero i source type_ stack c enough end same = absurd (omega arith)
  evaluate_node-Returns (suc n) i source type_ stack c enough end same =
      elim (Bool-cases (contains i stack)) [
        | inl there ↦
            rw (there, evaluate_node) (_, refl, relations-close_cycle today i type_ stack c ∙ same)
        | inr new ↦
            rw (new, evaluate_node)
              (walk-Returns rs (BothEnd rs) _ _ _
                (λ r d both still.
                  evaluate_node-Returns n (other_end i r) i r.relation_type (stack ++ i ∷ []) d
                    (omega (arith, fresh_new stack i rs new end)) (is_end-other_end rs i r both)
                    still)
                (get_relations-BothEnd rs i _ (relations-apply_update i source type_ c ∙ same))
                (relations-apply_update i source type_ c ∙ same))
      ]

-- the walk over the relations of the source
pub cascade_walks :
    (today source change_type : String) (g : GraphFile)
    → Returns g.relations (
        walk
          (λ r.
            evaluate_node today change_type
              (suc (length g.relations + length g.relations))
              (other_end source r)
              source
              r.relation_type
              (source ∷ []))
          (get_relations g source)
          (record {
            graph = g;
            updates = [];
            cycles_detected = [];
            pending_confirmation_nodes = [];
          }))
cascade_walks today source change_type g =
    let rs = g.relations in
    let fuel = suc (length rs + length rs) in
    walk-Returns rs (BothEnd rs) _ (get_relations g source) _
      (λ r d both still.
        evaluate_node-Returns today change_type rs fuel (other_end source r) source r.relation_type
          (source ∷ []) d (omega (arith, fresh-le (source ∷ []) rs))
          (is_end-other_end rs source r both) still)
      (get_relations-BothEnd rs source g refl) refl

-- A cascade ends on every graph, circular or not, and leaves the relations of the graph as they
-- are.
pub cascade_from-Returns :
    (today : String) (show : ℕ → String) (source change_type : String) (g : GraphFile)
    → Returns g.relations (cascade_from today show source change_type g)
unfolding cascade_from log_cascade log_change
cascade_from-Returns today show source change_type g =
    let (d, is, same) = cascade_walks today source change_type g in
    rw (is, cascade_from) (_, refl, same)
