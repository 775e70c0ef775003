-- ===== src/Promotion/Graph/Acyclic.antt =====
-- No sequence of operations brings a DEPENDS_ON cycle into graph.md, or the same relation twice.
use team_harness.Prelude.{
  String, ◌≡◌, ◌≢◌, ◌⊎◌, inl, inr, refl, sym, subst, true, false, not, ◌&&◌, some, List, [], ◌∷◌,
  ◌++◌, arith, contains, contains-append, nonempty, ◌==◌, ==_iff, Bool-cases,
}
use team_harness.Prelude.Result.{Result, ok, raise}
use team_harness.Promotion.Graph.Types.{depends_on, same_type, GraphRelation, GraphFile}
use team_harness.Promotion.Graph.{
  same_relation, Found, missing, up_to_date, outdated, find_relation, behind, cycle_error,
  store_relation, add_relation,
}
use team_harness.Promotion.Graph.Cycle.{
  targets, Depends, here, step, same_type-eq, detect_cycle-Depends,
}

-- nothing depends on itself through a relation
abbrev pub IsAcyclic : List GraphRelation → Type 0
IsAcyclic rs = (a b : String) → contains b (targets a rs) ≡ true → ¬ Depends rs b a

-- every dependency of `more` is one of `rs`
abbrev pub Fewer : List GraphRelation → List GraphRelation → Type 0
Fewer more rs =
    (a b : String) → contains b (targets a more) ≡ true → contains b (targets a rs) ≡ true

Fewer-Depends :
    (more rs : List GraphRelation)
    → Fewer more rs
    → {a b : String} → Depends more a b
    → Depends rs a b
Fewer-Depends more rs f (here e) = here e
Fewer-Depends more rs f {a} {b} (step {b = i} t p) = step (f a i t) (Fewer-Depends more rs f p)

pub Fewer-IsAcyclic : (more rs : List GraphRelation) → Fewer more rs → IsAcyclic rs → IsAcyclic more
Fewer-IsAcyclic more rs f h a b t p = h a b (f a b t) (Fewer-Depends more rs f p)

module _ (rs more : List GraphRelation) (source target : String) where
  -- the dependencies of `more` are those of `rs`, and the source's on the target
  abbrev OneMore : Type 0
  OneMore =
      (a b : String)
      → contains b (targets a more) ≡ true
      → (contains b (targets a rs) ≡ true) ⊎ ((a ≡ source) × (b ≡ target))

  OneMore-Depends :
      OneMore
      → {a b : String} → Depends more a b
      → Depends rs a b ⊎ (Depends rs a source × Depends rs target b)
  OneMore-Depends f (here e) = inl (here e)
  OneMore-Depends f {a} {b} (step {b = i} t p) = elim (f a i t) [
    | inl old ↦ elim (OneMore-Depends f p) [
      | inl q ↦ inl (step old q)
      | inr (q, s) ↦ inr (step old q, s)
    ]
    | inr (at, next) ↦ elim (OneMore-Depends f p) [
      | inl q ↦ inr (here at, subst (λ x. Depends rs x b) next q)
      | inr (q, s) ↦ inr (here at, s)
    ]
  ]

  Depends-trans : {a b c : String} → Depends rs a b → Depends rs b c → Depends rs a c
  Depends-trans {a} {b} {c} (here e) q = subst (λ x. Depends rs x c) (sym e) q
  Depends-trans (step t p) q = step t (Depends-trans p q)

  OneMore-IsAcyclic : OneMore → (¬ Depends rs target source) → IsAcyclic rs → IsAcyclic more
  OneMore-IsAcyclic f apart h a b t p = elim (f a b t) [
    | inl old ↦ elim (OneMore-Depends f p) [
      | inl q ↦ h a b old q
      | inr (q, s) ↦ apart (Depends-trans s (step old q))
    ]
    | inr (at, next) ↦ elim (OneMore-Depends f p) [
      | inl q ↦ apart (subst (λ x. Depends rs target x) at (subst (λ x. Depends rs x a) next q))
      | inr (q, s) ↦ apart (subst (λ x. Depends rs x source) next q)
    ]
  ]

-- what `find_relation` finds
abbrev Finding : GraphRelation → List GraphRelation → Found → Type 0
Finding new rs missing = Unit
Finding new rs up_to_date = Unit
Finding new rs (outdated rs') = (n : String) → targets n rs' ≡ targets n rs

find_relation-Finding :
    (new : GraphRelation) (rs : List GraphRelation) → Finding new rs (find_relation new rs)
unfolding find_relation
find_relation-Finding new [] = tt
find_relation-Finding new (r ∷ rs) =
    elim (Bool-cases (same_relation new.source_id new.target_id new.relation_type r)) [
      | inl same ↦ elim (Bool-cases (nonempty new.note && not (r.note == new.note))) [
        | inl change ↦ rw (same, change) (λ n. refl)
        | inr keep ↦ rw (same, keep) tt
      ]
      | inr differs ↦
          rw differs (behind_Finding (find_relation new rs) (find_relation-Finding new rs))
    ]
  where
    behind_Finding : (f : Found) → Finding new rs f → Finding new (r ∷ rs) (behind r f)
    behind_Finding missing h = tt
    behind_Finding up_to_date h = tt
    behind_Finding (outdated rs') h = λ n. ground (arith, h n)

targets-snoc :
    (n : String) (rs : List GraphRelation) (r : GraphRelation)
    → targets n (rs ++ r ∷ []) ≡ targets n rs ++ targets n (r ∷ [])
targets-snoc n [] r = refl
targets-snoc n (x ∷ rs) r = ground (arith, targets-snoc n rs r)

-- one relation as the last one
snoc-OneMore :
    (rs : List GraphRelation) (r : GraphRelation)
    → OneMore rs (rs ++ r ∷ []) r.source_id r.target_id
snoc-OneMore rs r a b t = ground (
  arith,
  targets-snoc a rs r,
  contains-append b (targets a rs) (targets a (r ∷ [])),
  ==_iff r.source_id a,
  ==_iff r.target_id b,
)

snoc-Fewer :
    (rs : List GraphRelation) (r : GraphRelation)
    → same_type r.relation_type depends_on ≡ false
    → Fewer (rs ++ r ∷ []) rs
snoc-Fewer rs r other_ a b t =
    ground (arith, targets-snoc a rs r, contains-append b (targets a rs) (targets a (r ∷ [])))

store_relation-IsAcyclic :
    (today : String) (r : GraphRelation) (g : GraphFile)
    → ((r.relation_type ≢ depends_on) ⊎ (¬ Depends g.relations r.target_id r.source_id))
    → IsAcyclic g.relations
    → IsAcyclic (store_relation today r g).relations
unfolding store_relation
store_relation-IsAcyclic today r g may h =
    of (find_relation r g.relations) refl (find_relation-Finding r g.relations)
  where
    of :
        (f : Found)
        → find_relation r g.relations ≡ f
        → Finding r g.relations f
        → IsAcyclic (store_relation today r g).relations
    of up_to_date e k = rw (e, store_relation) h
    of (outdated rs') e k =
        rw (e, store_relation) (Fewer-IsAcyclic rs' g.relations (λ a b t. ground (arith, k a)) h)
    of missing e k =
        rw (e, store_relation)
          (elim may [
            | inr apart ↦
                OneMore-IsAcyclic g.relations (g.relations ++ r ∷ []) r.source_id r.target_id
                  (snoc-OneMore g.relations r) apart h
            | inl other_ ↦
                Fewer-IsAcyclic (g.relations ++ r ∷ []) g.relations
                  (snoc-Fewer g.relations r
                    (elim (Bool-cases (same_type r.relation_type depends_on)) [
                      | inl dep ↦ absurd (other_ (same_type-eq r.relation_type dep))
                      | inr no_ ↦ no_
                    ]))
                  h
          ])

-- What `add_relation` does: it refuses exactly the DEPENDS_ON relations whose target depends on the
-- source already, and leaves the file as it is; any other relation it stores.
abbrev pub Addition : String → GraphRelation → GraphFile → GraphFile × Result {0} Unit → Type 0
Addition today r g (g', raise e) =
    (g' ≡ g) × (r.relation_type ≡ depends_on) × Depends g.relations r.target_id r.source_id
Addition today r g (g', ok u) =
    (g' ≡ store_relation today r g)
    × ((r.relation_type ≢ depends_on) ⊎ (¬ Depends g.relations r.target_id r.source_id))

-- `add_relation` always ends. It refuses exactly the DEPENDS_ON relations whose target depends on
-- the source already, directly or through others, and then leaves the file as it is; any other
-- relation it stores. If nothing depended on itself before, nothing does after.
pub add_relation-IsAcyclic :
    (today : String) (r : GraphRelation) (g : GraphFile)
    → (out : GraphFile × Result {0} Unit) × (add_relation today r g ≡ some out)
      × Addition today r g out
      × (IsAcyclic g.relations → IsAcyclic out.0.relations)
unfolding add_relation
add_relation-IsAcyclic today r g =
    elim (detect_cycle-Depends g r.source_id r.target_id r.relation_type) [
      | inl (dep, e, p) ↦
          ((g, raise (cycle_error r)), rw (add_relation, e) refl, (refl, dep, p), λ h. h)
      | inr (inl (dep, e, apart)) ↦ (
        (store_relation today r g, ok tt),
        rw (add_relation, e) refl,
        (refl, inr apart),
        store_relation-IsAcyclic today r g (inr apart),
      )
      | inr (inr (other_, e)) ↦ (
        (store_relation today r g, ok tt),
        rw (add_relation, e) refl,
        (refl, inl other_),
        store_relation-IsAcyclic today r g (inl other_),
      )
    ]
