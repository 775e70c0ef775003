-- ===== src/Promotion/Cascade/Back.antt =====
-- A cascade follows each relation of its source back again, and takes that for a circle.
use team_harness.Prelude.{
  some-injective, ℕ, zero, suc, ◌+◌, String, ◌≡◌, ◌≢◌, refl, sym, ap, ◌∙◌, subst, Bool, true, false,
  ◌||◌, Option, none, some, List, [], ◌∷◌, ◌++◌, append-nil, append_assoc, length, contains, select,
  select-append, ◌==◌, ==_iff, ==_refl, arith, Bool-cases, Option-cases, inl, inr,
}
use team_harness.Promotion.Graph.Types.{
  RelationType, promoted_from, covers, references, depends_on, same_source, registered_in,
  GraphRelation, GraphFile,
}
use team_harness.Promotion.Graph.{get_relations, log_change}
use team_harness.Promotion.Cascade.{
  Cascade, other_end, walk, pend, note_same_source, handle_cycle, close_cycle, apply_update,
  evaluate_node, log_cascade, cascade_from, from_first,
}
use team_harness.Promotion.Cascade.Ends.{
  relations-close_cycle, relations-apply_update, cascade_walks,
}

-- `d` comes later than `c`: the relations are the same, and no circle is forgotten
abbrev Later : Cascade → Cascade → Type 0
Later c d =
    (d.graph.relations ≡ c.graph.relations)
    × ((more : List (List String)) × (d.cycles_detected ≡ c.cycles_detected ++ more))

Later-refl : (c : Cascade) → Later c c
Later-refl c = (refl, ([], sym (append-nil c.cycles_detected)))

Later-trans : (b c d : Cascade) → Later b c → Later c d → Later b d
Later-trans b c d (p, (xs, q)) (r, (ys, s)) =
    (r ∙ p, (xs ++ ys, s ∙ ap (λ l. l ++ ys) q ∙ append_assoc b.cycles_detected xs ys))

-- a walk that returned: its first step did, and the rest
walk_cases :
    (f : GraphRelation → Cascade → Option Cascade) (r : GraphRelation) (rs : List GraphRelation)
    (c d : Cascade)
    → walk f (r ∷ rs) c ≡ some d
    → (b : Cascade) × (f r c ≡ some b) × (walk f rs b ≡ some d)
unfolding walk
walk_cases f r rs c d h = elim (Option-cases (f r c)) [
  | inl stopped ↦
      let step : walk f (r ∷ rs) c ≡ none = rw (stopped, walk) refl in absurd (cc (step, h))
  | inr (b, is) ↦
      let step : walk f (r ∷ rs) c ≡ walk f rs b = rw (is, walk) refl in (b, is, sym step ∙ h)
]

walk-Later :
    (f : GraphRelation → Cascade → Option Cascade) (rs : List GraphRelation) (c d : Cascade)
    → ((r : GraphRelation) (b e : Cascade) → f r b ≡ some e → Later b e)
    → walk f rs c ≡ some d
    → Later c d
unfolding walk
walk-Later f [] c d g h = subst (Later c) (some-injective h) (Later-refl c)
walk-Later f (r ∷ rs) c d g h =
    let (b, is, rest) = walk_cases f r rs c d h in
    Later-trans c b d (g r c b is) (walk-Later f rs b d g rest)

cycles-handle_cycle :
    (today i : String) (type_ : RelationType) (path : List String) (c : Cascade)
    → (handle_cycle today i type_ path c).cycles_detected ≡ c.cycles_detected
unfolding pend note_same_source
cycles-handle_cycle today i same_source path c = refl
cycles-handle_cycle today i depends_on path c = refl
cycles-handle_cycle today i promoted_from path c = refl
cycles-handle_cycle today i covers path c = refl
cycles-handle_cycle today i references path c = refl
cycles-handle_cycle today i registered_in path c = refl

cycles-close_cycle :
    (today i : String) (type_ : RelationType) (stack : List String) (c : Cascade)
    → (close_cycle today i type_ stack c).cycles_detected
      ≡ c.cycles_detected ++ (from_first i stack ++ i ∷ []) ∷ []
unfolding close_cycle
cycles-close_cycle today i type_ stack c =
    cycles-handle_cycle today i type_ (from_first i stack ++ i ∷ [])
      (record c { cycles_detected = c.cycles_detected ++ (from_first i stack ++ i ∷ []) ∷ [] })

module _ (today change_type : String) where
  apply_update-Later :
      (i source : String) (type_ : RelationType) (c : Cascade)
      → Later c (apply_update today change_type i source type_ c)
  unfolding apply_update log_change
  apply_update-Later i source type_ c = Later-refl c

  -- the relations of a node that is new on the stack are followed
  evaluate_node_new :
      (n : ℕ) (i source : String) (type_ : RelationType) (stack : List String) (c : Cascade)
      → contains i stack ≡ false
      → evaluate_node today change_type (suc n) i source type_ stack c
        ≡ walk
            (λ r.
              evaluate_node today change_type n (other_end i r) i r.relation_type (stack ++ i ∷ []))
            (get_relations (apply_update today change_type i source type_ c).graph i)
            (apply_update today change_type i source type_ c)
  unfolding evaluate_node
  evaluate_node_new n i source type_ stack c new = rw (new, evaluate_node) refl

  evaluate_node_closed :
      (n : ℕ) (i source : String) (type_ : RelationType) (stack : List String) (c : Cascade)
      → contains i stack ≡ true
      → evaluate_node today change_type (suc n) i source type_ stack c
        ≡ some (close_cycle today i type_ stack c)
  unfolding evaluate_node
  evaluate_node_closed n i source type_ stack c there = rw (there, evaluate_node) refl

  evaluate_node-Later :
      (n : ℕ) (i source : String) (type_ : RelationType) (stack : List String) (c d : Cascade)
      → evaluate_node today change_type n i source type_ stack c ≡ some d
      → Later c d
  unfolding evaluate_node
  evaluate_node-Later zero i source type_ stack c d h = absurd (cc)
  evaluate_node-Later (suc n) i source type_ stack c d h = elim (Bool-cases (contains i stack)) [
    | inl there ↦
        subst (Later c)
          (some-injective (sym (evaluate_node_closed n i source type_ stack c there) ∙ h))
          (
            relations-close_cycle today i type_ stack c,
            (_, cycles-close_cycle today i type_ stack c),
          )
    | inr new ↦
        Later-trans c (apply_update today change_type i source type_ c) d
          (apply_update-Later i source type_ c)
          (walk-Later _ _ _ d
            (λ r b e. evaluate_node-Later n (other_end i r) i r.relation_type (stack ++ i ∷ []) b e)
            (sym (evaluate_node_new n i source type_ stack c new) ∙ h))
  ]

-- the path is among the circles
abbrev pub Noted : List String → Cascade → Type 0
Noted path c =
    (before : List (List String)) × (after : List (List String)) × (c.cycles_detected
      ≡ before ++ path ∷ after)

Noted-Later : (path : List String) (c d : Cascade) → Noted path c → Later c d → Noted path d
Noted-Later path c d (xs, ys, p) (same, (more, q)) =
    (xs, ys ++ more, q ∙ ap (λ l. l ++ more) p ∙ append_assoc xs (path ∷ ys) more)

walk-Noted :
    (path : List String) (f : GraphRelation → Cascade → Option Cascade) (xs : List GraphRelation)
    (r : GraphRelation) (ys : List GraphRelation) (c d : Cascade)
    → ((q : GraphRelation) (b e : Cascade) → f q b ≡ some e → Later b e)
    → ((b e : Cascade) → b.graph.relations ≡ c.graph.relations → f r b ≡ some e → Noted path e)
    → walk f (xs ++ r ∷ ys) c ≡ some d
    → Noted path d
walk-Noted path f [] r ys c d later hit h =
    let (b, is, rest) = walk_cases f r ys c d h in
    Noted-Later path b d (hit c b refl is) (walk-Later f ys b d later rest)
walk-Noted path f (q ∷ xs) r ys c d later hit h =
    let (b, is, rest) = walk_cases f q (xs ++ r ∷ ys) c d h in
    let (same, more) = later q c b is in
    walk-Noted path f xs r ys b d later (λ a e p k. hit a e (p ∙ same) k) rest

get_relations-touching :
    (i : String) (g : GraphFile) (xs : List GraphRelation) (r : GraphRelation)
    (ys : List GraphRelation)
    → g.relations ≡ xs ++ r ∷ ys
    → ((r.source_id == i) || (r.target_id == i)) ≡ true
    → let touches : GraphRelation → Bool = λ q. (q.source_id == i) || (q.target_id == i) in
      get_relations g i ≡ select touches xs ++ r ∷ select touches ys
unfolding get_relations
get_relations-touching i g xs r ys is touching =
    let touches : GraphRelation → Bool = λ q. (q.source_id == i) || (q.target_id == i) in
    ap (select touches) is
    ∙ select-append touches xs (r ∷ ys)
    ∙ ap (λ l. select touches xs ++ l) (rw touching refl)

-- the way back over a relation leads to where it came from
other_end-back :
    (s : String) (r : GraphRelation)
    → ((r.source_id == s) || (r.target_id == s)) ≡ true
    → other_end (other_end s r) r ≡ s
other_end-back s r touching = ground (
  arith,
  ==_iff r.source_id s,
  ==_iff r.target_id s,
  ==_iff r.source_id r.target_id,
  ==_iff r.source_id r.source_id,
)

touching_back :
    (s : String) (r : GraphRelation)
    → ((r.source_id == other_end s r) || (r.target_id == other_end s r)) ≡ true
touching_back s r = elim (Bool-cases (r.source_id == s)) [
  | inl out ↦ rw out (ground (arith, ==_refl r.target_id))
  | inr back ↦ rw back (ground (arith, ==_refl r.source_id))
]

module _ (today change_type s t : String) (xs : List GraphRelation) (r : GraphRelation)
    (ys : List GraphRelation) where
  closed :
      (n : ℕ) (b e : Cascade)
      → evaluate_node today change_type n s t r.relation_type (s ∷ t ∷ []) b ≡ some e
      → Noted (s ∷ t ∷ s ∷ []) e
  unfolding evaluate_node from_first
  closed zero b e h = absurd (cc)
  closed (suc n) b e h =
      let path : from_first s (s ∷ t ∷ []) ++ s ∷ [] ≡ s ∷ t ∷ s ∷ [] = rw (==_refl s) refl in
      let there : contains s (s ∷ t ∷ []) ≡ true = ground (arith, ==_refl s) in
      subst (Noted (s ∷ t ∷ s ∷ []))
        (some-injective (
          sym (evaluate_node_closed today change_type n s t r.relation_type (s ∷ t ∷ []) b there)
          ∙ h))
        (
          b.cycles_detected,
          [],
          cycles-close_cycle today s r.relation_type (s ∷ t ∷ []) b
              ∙ ap (λ l. b.cycles_detected ++ l ∷ []) path,
        )

  -- the walk from the other end closes the path
  evaluate_node-Noted :
      (n : ℕ) (b e : Cascade)
      → other_end t r ≡ s
      → ((r.source_id == t) || (r.target_id == t)) ≡ true
      → s ≢ t
      → b.graph.relations ≡ xs ++ r ∷ ys
      → evaluate_node today change_type n t s r.relation_type (s ∷ []) b ≡ some e
      → Noted (s ∷ t ∷ s ∷ []) e
  unfolding evaluate_node
  evaluate_node-Noted zero b e back touching ne same h = absurd (cc)
  evaluate_node-Noted (suc n) b e back touching ne same h =
      let updated = apply_update today change_type t s r.relation_type b in
      let next : GraphRelation → Cascade → Option Cascade =
        λ q. evaluate_node today change_type n (other_end t q) t q.relation_type (s ∷ t ∷ []) in
      let rels =
        get_relations-touching t updated.graph xs r ys
          (relations-apply_update today change_type (xs ++ r ∷ ys) t s r.relation_type b ∙ same)
          touching in
      walk-Noted (s ∷ t ∷ s ∷ []) next _ r _ updated e
        (λ q a d k.
          evaluate_node-Later today change_type n (other_end t q) t q.relation_type (s ∷ t ∷ []) a d
            k)
        (λ a d p k. closed n a d (
          subst (λ i. evaluate_node today change_type n i t r.relation_type (s ∷ t ∷ []) a ≡ some d)
            back k))
        (sym (ap (λ l. walk next l updated) rels)
          ∙ sym (
              evaluate_node_new today change_type n t s r.relation_type (s ∷ []) b
                (ground (arith, ==_iff s t, ==_iff t s)))
          ∙ h)

-- For each relation between the source of a change and another node, the cascade returns with the
-- path from the source to that node and back among the circles that it has detected.
pub cascade_from-Noted :
    (today : String) (show : ℕ → String) (s change_type : String) (g : GraphFile)
    (xs : List GraphRelation) (r : GraphRelation) (ys : List GraphRelation)
    → g.relations ≡ xs ++ r ∷ ys
    → ((r.source_id == s) || (r.target_id == s)) ≡ true
    → s ≢ other_end s r
    → (d : Cascade) × (cascade_from today show s change_type g ≡ some d)
      × Noted (s ∷ other_end s r ∷ s ∷ []) d
unfolding cascade_from log_cascade
cascade_from-Noted today show s change_type g xs r ys is touching ne =
    let fuel = suc (length g.relations + length g.relations) in
    let next : GraphRelation → Cascade → Option Cascade =
      λ q. evaluate_node today change_type fuel (other_end s q) s q.relation_type (s ∷ []) in
    let start : Cascade = record {
      graph = g;
      updates = [];
      cycles_detected = [];
      pending_confirmation_nodes = [];
    } in
    let (d, returned, same) = cascade_walks today s change_type g in
    let rels = get_relations-touching s g xs r ys is touching in
    let noted =
      walk-Noted (s ∷ other_end s r ∷ s ∷ []) next _ r _ start d
        (λ q a e k.
          evaluate_node-Later today change_type fuel (other_end s q) s q.relation_type (s ∷ []) a e
            k)
        (λ a e p k.
          evaluate_node-Noted today change_type s (other_end s r) xs r ys fuel a e
            (other_end-back s r touching) (touching_back s r) ne (p ∙ is) k)
        (sym (ap (λ l. walk next l start) rels) ∙ returned) in
    rw (returned, cascade_from) (_, refl, noted)
