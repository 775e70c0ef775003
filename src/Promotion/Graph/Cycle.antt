-- ===== src/Promotion/Graph/Cycle.antt =====
-- The cycle check: the loop ends within its fuel, and it finds exactly the dependencies.
use team_harness.Prelude.{
  ℕ, zero, suc, ◌+◌, ◌≤◌, String, ◌≡◌, ◌≢◌, ◌⊎◌, inl, inr, refl, sym, ap, ◌∙◌, subst, Bool, true,
  false, not, ◌&&◌, ◌||◌, Option, some, List, [], ◌∷◌, ◌++◌, append-nil, append_assoc, arith,
  length, contains, ◌==◌, ==_iff, ==_refl, if◌then◌else◌, Bool-cases,
}
use team_harness.Prelude.Dict
use team_harness.Prelude.Dict.{Dict, get-put}
use team_harness.Promotion.Graph.Types.{
  RelationType, depends_on, same_type, GraphRelation, GraphFile,
}
use team_harness.Promotion.Graph.{targets_at, adjacency, push_all, visit, search, detect_cycle}

-- what `node` directly depends on
abbrev pub targets : String → List GraphRelation → List String
targets node [] = []
targets node (r ∷ rs) =
    let rest = targets node rs in
    if same_type r.relation_type depends_on && (r.source_id == node)
    then r.target_id ∷ rest
    else rest

-- a node is reached from another along DEPENDS_ON relations
pub data Depends (rs : List GraphRelation) : String → String → Type 0 where
  here : {a b : String} → a ≡ b → Depends rs a b
  step : {a b c : String} → contains b (targets a rs) ≡ true → Depends rs b c → Depends rs a c

targets_at-put :
    (k j : String) (ts : List String) (adj : Dict (List String))
    → targets_at j (Dict.put k ts adj) ≡ (if k == j then ts else targets_at j adj)
targets_at-put k j ts adj = ground (arith, get-put k j ts adj)

-- one relation more in the adjacency
targets_at-more :
    (source target node : String) (ts : List String) (adj : Dict (List String))
    → targets_at node (Dict.put source (targets_at source adj ++ target ∷ []) adj) ++ ts
      ≡ targets_at node adj ++ (if source == node then target ∷ ts else ts)
targets_at-more source target node ts adj = elim (Bool-cases (source == node)) [
  | inl same ↦
      rw (targets_at-put source node (targets_at source adj ++ target ∷ []) adj, same)
        (append_assoc (targets_at source adj) (target ∷ []) ts
          ∙ ap (λ i. targets_at i adj ++ target ∷ ts) ((==_iff source node).0 same))
  | inr differs ↦
      rw (targets_at-put source node (targets_at source adj ++ target ∷ []) adj, differs) refl
]

targets_at-adjacency :
    (rs : List GraphRelation) (adj : Dict (List String)) (node : String)
    → targets_at node (adjacency adj rs) ≡ targets_at node adj ++ targets node rs
unfolding adjacency
targets_at-adjacency [] adj node = sym (append-nil (targets_at node adj))
targets_at-adjacency (r ∷ rs) adj node = elim (Bool-cases (same_type r.relation_type depends_on)) [
  | inr other_ ↦ rw other_ (targets_at-adjacency rs adj node)
  | inl dep ↦ rw dep (
      targets_at-adjacency rs
        (Dict.put r.source_id (targets_at r.source_id adj ++ r.target_id ∷ []) adj) node
      ∙ targets_at-more r.source_id r.target_id node (targets node rs) adj)
]

contains-push_all :
    (i : String) (ns stack : List String)
    → contains i (push_all ns stack) ≡ (contains i ns || contains i stack)
contains-push_all i [] stack = refl
contains-push_all i (n ∷ ns) stack = ground (arith, contains-push_all i ns (n ∷ stack))

length-push_all : (ns stack : List String) → length (push_all ns stack) ≡ length ns + length stack
length-push_all [] stack = omega arith
length-push_all (n ∷ ns) stack = omega (arith, length-push_all ns (n ∷ stack))

-- the relations whose source was not visited
abbrev waiting : List String → List GraphRelation → ℕ
waiting visited [] = 0
waiting visited (r ∷ rs) =
    (if same_type r.relation_type depends_on && not (contains r.source_id visited) then 1 else 0)
    + waiting visited rs

waiting-le-length :
    (visited : List String) (rs : List GraphRelation) → waiting visited rs ≤ length rs
waiting-le-length visited [] = omega arith
waiting-le-length visited (r ∷ rs) = ground (arith, waiting-le-length visited rs)

waiting-visit :
    (node : String) (visited : List String) (rs : List GraphRelation)
    → contains node visited ≡ false
    → waiting (node ∷ visited) rs + length (targets node rs) ≡ waiting visited rs
waiting-visit node visited [] new = omega arith
waiting-visit node visited (r ∷ rs) new =
    ground
      (arith, waiting-visit node visited rs new, ==_iff node r.source_id, ==_iff r.source_id node)

module _ (rs : List GraphRelation) (source : String) where
  abbrev adj : Dict (List String)
  adj = adjacency [] rs

  targets_at-adj : (node : String) → targets_at node adj ≡ targets node rs
  unfolding Dict.get
  targets_at-adj node = targets_at-adjacency rs [] node

  abbrev work : List String → List String → ℕ
  work visited stack = waiting visited rs + length stack

  work-visit :
      (node : String) (visited stack : List String)
      → work (visit adj node visited stack).0 (visit adj node visited stack).1 ≡ work visited stack
  unfolding visit
  work-visit node visited stack = elim (Bool-cases (contains node visited)) [
    | inl old ↦ rw (old, visit) refl
    | inr new ↦
        rw (new, visit, targets_at-adj node)
          (omega
            (arith, length-push_all (targets node rs) stack, waiting-visit node visited rs new))
  ]

  search_ends :
      (fuel : ℕ) (visited stack : List String)
      → work visited stack ≤ fuel
      → (found : Bool) × (search adj source fuel visited stack ≡ some found)
  unfolding search
  search_ends zero visited [] h = (false, refl)
  search_ends zero visited (node ∷ stack) h = absurd (omega arith)
  search_ends (suc fuel) visited [] h = (false, refl)
  search_ends (suc fuel) visited (node ∷ stack) h =
      let next = visit adj node visited stack in
      let (found, e) =
        search_ends fuel next.0 next.1 (omega (arith, work-visit node visited stack)) in
      elim (Bool-cases (node == source)) [
        | inl at ↦ (true, rw at refl)
        | inr past ↦ (found, rw past e)
      ]

  -- a node of the list from which the source is reached
  abbrev Reaches : List String → Type 0
  Reaches ns = (n : String) × (contains n ns ≡ true) × Depends rs n source

  Reaches-visit :
      (node : String) (visited stack : List String)
      → Reaches (visit adj node visited stack).1
      → Reaches (node ∷ stack)
  unfolding visit
  Reaches-visit node visited stack (n, on, p) = elim (Bool-cases (contains node visited)) [
    | inl old ↦ (n, ground arith, p)
    | inr new ↦ elim (Bool-cases (contains n (targets node rs))) [
      | inl next ↦ (node, ground (arith, ==_refl node), step next p)
      | inr apart ↦ (
        n,
        ground (arith, contains-push_all n (targets_at node adj) stack, targets_at-adj node),
        p,
      )
    ]
  ]

  search_sound :
      (fuel : ℕ) (visited stack : List String)
      → search adj source fuel visited stack ≡ some true
      → Reaches stack
  unfolding search
  search_sound zero visited [] h = absurd (cc)
  search_sound zero visited (node ∷ stack) h = absurd (cc)
  search_sound (suc fuel) visited [] h = absurd (cc)
  search_sound (suc fuel) visited (node ∷ stack) h = elim (Bool-cases (node == source)) [
    | inl at ↦ (node, ground (arith, ==_refl node), here ((==_iff node source).0 at))
    | inr past ↦
        let next = visit adj node visited stack in
        Reaches-visit node visited stack (search_sound fuel next.0 next.1 (ground arith))
  ]

  -- The source was not met, and what a visited node depends on is visited or waits.
  record Inv (start : String) (visited stack : List String) : Type 0 where
    unmet : contains source visited ≡ false
    begun : (contains start visited || contains start stack) ≡ true
    closed :
        (n i : String)
        → contains n visited ≡ true
        → contains i (targets n rs) ≡ true
        → (contains i visited || contains i stack) ≡ true

  Inv-visit :
      (start node : String) (visited stack : List String)
      → (node == source) ≡ false
      → Inv start visited (node ∷ stack)
      → Inv start (visit adj node visited stack).0 (visit adj node visited stack).1
  unfolding visit
  Inv-visit start node visited stack past h = elim (Bool-cases (contains node visited)) [
    | inl old ↦
        rw (old, visit)
          (record {
            unmet = h.unmet;
            begun = ground (arith, h.begun, ==_iff node start);
            closed = λ n i v t. ground (arith, h.closed n i, ==_iff node i);
          })
    | inr new ↦
        rw (new, visit, targets_at-adj node)
          (record {
            unmet = ground (arith, h.unmet);
            begun = ground (arith, h.begun, contains-push_all start (targets node rs) stack);
            closed = λ n i v t.
                ground
                  (arith, h.closed n i, contains-push_all i (targets node rs) stack, ==_iff node n);
          })
  ]

  -- with nothing left on the stack, the dependencies of a visited node are visited
  visited-Depends :
      (start : String) (visited : List String)
      → Inv start visited []
      → {a b : String} → contains a visited ≡ true
      → Depends rs a b
      → contains b visited ≡ true
  visited-Depends start visited h v (here e) = subst (λ i. contains i visited ≡ true) e v
  visited-Depends start visited h {a} {b} v (step {b = i} t p) =
      visited-Depends start visited h (ground (arith, h.closed a i)) p

  finished :
      (start : String) (visited : List String) → Inv start visited [] → ¬ Depends rs start source
  finished start visited h p =
      cc (visited-Depends start visited h (ground (arith, h.begun)) p, h.unmet)

  search_complete :
      (start : String) (fuel : ℕ) (visited stack : List String)
      → Inv start visited stack
      → search adj source fuel visited stack ≡ some false
      → ¬ Depends rs start source
  unfolding search
  search_complete start zero visited [] h e = finished start visited h
  search_complete start zero visited (node ∷ stack) h e = absurd (cc)
  search_complete start (suc fuel) visited [] h e = finished start visited h
  search_complete start (suc fuel) visited (node ∷ stack) h e = elim (Bool-cases (node == source)) [
    | inl at ↦ absurd (ground arith)
    | inr past ↦
        let next = visit adj node visited stack in
        search_complete start fuel next.0 next.1 (Inv-visit start node visited stack past h)
          (ground arith)
  ]

module _ (rs : List GraphRelation) (source target : String) where
  abbrev searched : Option Bool
  searched = search (adjacency [] rs) source (suc (length rs)) [] (target ∷ [])

  abbrev Decided : Type 0
  Decided =
      ((searched ≡ some true) × Depends rs target source)
      ⊎ ((searched ≡ some false) × (¬ Depends rs target source))

  decided : (found : Bool) → searched ≡ some found → Decided
  decided true e =
      let (n, on, p) = search_sound rs source (suc (length rs)) [] (target ∷ []) e in
      let n-eq : target ≡ n = (==_iff target n).0 (ground arith) in
      inl (e, subst (λ i. Depends rs i source) (sym n-eq) p)
  decided false e =
      let start : Inv rs source target [] (target ∷ []) = record {
        unmet = refl;
        begun = ground (arith, ==_refl target);
        closed = λ n i v t. absurd (cc v);
      } in
      inr (e, search_complete rs source target (suc (length rs)) [] (target ∷ []) start e)

  pub search_decides : Decided
  search_decides =
      let (found, ends) =
        search_ends rs source (suc (length rs)) [] (target ∷ [])
          (omega (arith, waiting-le-length [] rs)) in
      decided found ends

pub same_type-eq : (t : RelationType) → same_type t depends_on ≡ true → t ≡ depends_on
same_type-eq t h = ground arith

-- The check that `detect_cycle` makes of a DEPENDS_ON relation ends, and it says whether the target
-- already depends on the source, directly or through others. Any other relation passes.
pub detect_cycle-Depends :
    (g : GraphFile) (source target : String) (type_ : RelationType)
    → ((type_ ≡ depends_on)
        × (detect_cycle g source target type_ ≡ some true)
        × Depends g.relations target source)
      ⊎ ((type_ ≡ depends_on)
          × (detect_cycle g source target type_ ≡ some false)
          × (¬ Depends g.relations target source))
      ⊎ ((type_ ≢ depends_on) × (detect_cycle g source target type_ ≡ some false))
unfolding detect_cycle
detect_cycle-Depends g source target type_ = elim (Bool-cases (same_type type_ depends_on)) [
  | inr other_ ↦
      inr (inr ((λ e. cc (subst (λ t. same_type t depends_on ≡ false) e other_)), rw other_ refl))
  | inl dep ↦
      let is = same_type-eq type_ dep in
      elim (search_decides g.relations source target) [
        | inl (e, p) ↦ inl (is, rw dep e, p)
        | inr (e, p) ↦ inr (inl (is, rw dep e, p))
      ]
]
