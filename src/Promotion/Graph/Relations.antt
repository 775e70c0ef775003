-- ===== src/Promotion/Graph/Relations.antt =====
-- The relation table: a relation stands in it once, and removing one removes that one.
use team_harness.Prelude.{
  String, ◌≡◌, inl, inr, refl, sym, ap, ◌∙◌, Bool, true, false, not, ◌&&◌, ◌||◌, List, [], ◌∷◌,
  ◌++◌, arith, contains, nonempty, ◌==◌, ==_iff, if◌then◌else◌, select, Bool-cases,
}
use team_harness.Promotion.Graph.Types.{
  RelationType, promoted_from, covers, references, depends_on, same_source, registered_in,
  same_type, GraphRelation, GraphFile,
}
use team_harness.Promotion.Graph.{
  same_relation, Found, missing, up_to_date, outdated, behind, find_relation, store_relation,
  drop_relation, remove_relation,
}
use team_harness.Promotion.Graph.Cycle.{targets}
use team_harness.Promotion.Graph.Acyclic.{Fewer}

same_type_sym : (s t : RelationType) → same_type s t ≡ same_type t s
same_type_sym promoted_from t = ground arith
same_type_sym covers t = ground arith
same_type_sym references t = ground arith
same_type_sym depends_on t = ground arith
same_type_sym same_source t = ground arith
same_type_sym registered_in t = ground arith

==_sym : (s t : String) → (s == t) ≡ (t == s)
==_sym s t = ground (arith, ==_iff s t, ==_iff t s)

or_assoc : (a b c : Bool) → (a || (b || c)) ≡ ((a || b) || c)
or_assoc true b c = refl
or_assoc false b c = refl

or_false : (a : Bool) → (a || false) ≡ a
or_false true = refl
or_false false = refl

false_of_or : (a b : Bool) → (a || b) ≡ false → (a ≡ false) × (b ≡ false)
false_of_or false b h = (refl, h)
false_of_or true b h = absurd (cc)

-- the relation is among them, up to its note
abbrev pub related : GraphRelation → List GraphRelation → Bool
related new [] = false
related new (r ∷ rs) =
    same_relation new.source_id new.target_id new.relation_type r || related new rs

-- no two of the relations have the same source, target and type
abbrev pub IsUnique : List GraphRelation → Type 0
IsUnique [] = Unit
IsUnique (r ∷ rs) = (related r rs ≡ false) × IsUnique rs

abbrev alike : GraphRelation → GraphRelation → Bool
alike a b = same_relation a.source_id a.target_id a.relation_type b

alike_sym : (a b : GraphRelation) → alike a b ≡ alike b a
alike_sym a b = rw (
  ==_sym b.source_id a.source_id,
  ==_sym b.target_id a.target_id,
  same_type_sym b.relation_type a.relation_type,
)

related-snoc :
    (a : GraphRelation) (rs : List GraphRelation) (b : GraphRelation)
    → related a (rs ++ b ∷ []) ≡ (related a rs || alike a b)
related-snoc a [] b = or_false (alike a b)
related-snoc a (r ∷ rs) b =
    ap (λ t. alike a r || t) (related-snoc a rs b) ∙ or_assoc (alike a r) (related a rs) (alike a b)

IsUnique-snoc :
    (rs : List GraphRelation) (new : GraphRelation)
    → related new rs ≡ false
    → IsUnique rs
    → IsUnique (rs ++ new ∷ [])
IsUnique-snoc [] new h u = (refl, tt)
IsUnique-snoc (r ∷ rs) new h u =
    let (apart, rest) = false_of_or (alike new r) (related new rs) h in
    (related-snoc r rs new ∙ (rw (u.0, alike_sym r new) apart), IsUnique-snoc rs new rest u.1)

-- changing a note changes nothing here
related-note :
    (a r : GraphRelation) (note : String) (rs : List GraphRelation)
    → related a (record r { note = note } ∷ rs) ≡ related a (r ∷ rs)
related-note a r note rs = refl

-- what `find_relation` finds
abbrev Finding : GraphRelation → List GraphRelation → Found → Type 0
Finding new rs missing = related new rs ≡ false
Finding new rs up_to_date = Unit
Finding new rs (outdated rs') =
    ((a : GraphRelation) → related a rs' ≡ related a rs) × (IsUnique rs → IsUnique rs')

behind-Finding :
    (new r : GraphRelation) (rs : List GraphRelation) (f : Found)
    → alike new r ≡ false
    → Finding new rs f
    → Finding new (r ∷ rs) (behind r f)
behind-Finding new r rs missing past h = rw (past, h)
behind-Finding new r rs up_to_date past h = tt
behind-Finding new r rs (outdated rs') past (same, unique) =
    (λ a. ap (λ t. alike a r || t) (same a), λ u. (same r ∙ u.0, unique u.1))

find_relation-Finding :
    (new : GraphRelation) (rs : List GraphRelation) → Finding new rs (find_relation new rs)
unfolding find_relation
find_relation-Finding new [] = refl
find_relation-Finding new (r ∷ rs) = elim (Bool-cases (alike new r)) [
  | inl same ↦ elim (Bool-cases (nonempty new.note && not (r.note == new.note))) [
    | inl change ↦ rw (same, change) (λ a. refl, λ u. u)
    | inr keep ↦ rw (same, keep) tt
  ]
  | inr differs ↦
      rw differs
        (behind-Finding new r rs (find_relation new rs) differs (find_relation-Finding new rs))
]

pub store_relation-IsUnique :
    (today : String) (r : GraphRelation) (g : GraphFile)
    → IsUnique g.relations
    → IsUnique (store_relation today r g).relations
unfolding store_relation
store_relation-IsUnique today r g u =
    of (find_relation r g.relations) refl (find_relation-Finding r g.relations)
  where
    of :
        (f : Found)
        → find_relation r g.relations ≡ f
        → Finding r g.relations f
        → IsUnique (store_relation today r g).relations
    of missing e h = rw (e, store_relation) (IsUnique-snoc g.relations r h u)
    of up_to_date e h = rw (e, store_relation) u
    of (outdated rs') e h = rw (e, store_relation) (h.1 u)

pub nodes-store_relation :
    (today : String) (r : GraphRelation) (g : GraphFile)
    → (store_relation today r g).nodes ≡ g.nodes
unfolding store_relation
nodes-store_relation today r g = of (find_relation r g.relations) refl
  where
    of : (f : Found) → find_relation r g.relations ≡ f → (store_relation today r g).nodes ≡ g.nodes
    of missing e = rw (e, store_relation) refl
    of up_to_date e = rw (e, store_relation) refl
    of (outdated rs') e = rw (e, store_relation) refl

abbrev pub spared : String → String → RelationType → GraphRelation → Bool
spared source target type_ r = not (same_relation source target type_ r)

drop_relation-select :
    (source target : String) (type_ : RelationType) (rs : List GraphRelation)
    → let out = drop_relation source target type_ rs in
      (out.0 ≡ select (spared source target type_) rs) × (out.1 ≡ false → out.0 ≡ rs)
unfolding drop_relation
drop_relation-select source target type_ [] = (refl, λ _. refl)
drop_relation-select source target type_ (r ∷ rs) =
    let (kept, same) = drop_relation-select source target type_ rs in
    elim (Bool-cases (same_relation source target type_ r)) [
      | inl gone ↦ rw gone (kept, λ h. absurd (cc))
      | inr stays ↦ rw stays (ap (λ l. r ∷ l) kept, λ h. ap (λ l. r ∷ l) (same h))
    ]

-- Removing a relation removes exactly the relations of that source, target and type; the rest keep
-- their order, and the nodes are as before.
pub remove_relation-select :
    (today source target : String) (type_ : RelationType) (g : GraphFile)
    → let after = remove_relation today source target type_ g in
      (after.relations ≡ select (spared source target type_) g.relations) × (after.nodes ≡ g.nodes)
unfolding remove_relation
remove_relation-select today source target type_ g =
    let (kept, same) = drop_relation-select source target type_ g.relations in
    elim (Bool-cases (drop_relation source target type_ g.relations).1) [
      | inl gone ↦ rw (gone, remove_relation) (kept, refl)
      | inr stays ↦ rw (stays, remove_relation) (sym (same stays) ∙ kept, refl)
    ]

contains-wider :
    (b x : String) (test : Bool) (ts : List String)
    → contains b ts ≡ true
    → contains b (if test then x ∷ ts else ts) ≡ true
contains-wider b x true ts h = ground arith
contains-wider b x false ts h = h

contains-kept :
    (b x : String) (test : Bool) (some_ all_ : List String)
    → (contains b some_ ≡ true → contains b all_ ≡ true)
    → contains b (if test then x ∷ some_ else some_) ≡ true
    → contains b (if test then x ∷ all_ else all_) ≡ true
contains-kept b x true some_ all_ f h = ground (arith, f)
contains-kept b x false some_ all_ f h = f h

module _ (p : GraphRelation → Bool) where
  pub select-Fewer : (rs : List GraphRelation) → Fewer (select p rs) rs
  select-Fewer [] a b t = t
  select-Fewer (r ∷ rs) a b t =
      let edge = same_type r.relation_type depends_on && (r.source_id == a) in
      elim (Bool-cases (p r)) [
        | inl stays ↦
            contains-kept b r.target_id edge (targets a (select p rs)) (targets a rs)
              (select-Fewer rs a b) (rw stays at t)
        | inr gone ↦
            contains-wider b r.target_id edge (targets a rs) (select-Fewer rs a b (rw gone at t))
      ]

  related-select :
      (a : GraphRelation) (rs : List GraphRelation)
      → related a rs ≡ false
      → related a (select p rs) ≡ false
  related-select a [] h = h
  related-select a (r ∷ rs) h =
      let (apart, rest) = false_of_or (alike a r) (related a rs) h in
      elim (Bool-cases (p r)) [
        | inl stays ↦ rw (stays, apart, related-select a rs rest)
        | inr gone ↦ rw gone (related-select a rs rest)
      ]

  pub select-IsUnique : (rs : List GraphRelation) → IsUnique rs → IsUnique (select p rs)
  select-IsUnique [] u = tt
  select-IsUnique (r ∷ rs) u = elim (Bool-cases (p r)) [
    | inl stays ↦ rw stays (related-select r rs u.0, select-IsUnique rs u.1)
    | inr gone ↦ rw gone (select-IsUnique rs u.1)
  ]
