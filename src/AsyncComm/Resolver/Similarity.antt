-- ===== src/AsyncComm/Resolver/Similarity.antt =====
-- The Jaccard similarity of two texts: a fraction in [0, 1], symmetric, and 1 for equal sets.
use team_harness.Prelude.{
  ℕ, ◌+◌, ◌≤◌, ◌<◌, String, ◌≡◌, refl, sym, ◌∙◌, true, false, List, [], ◌∷◌, arith, length,
  if◌then◌else◌,
}
use team_harness.AsyncComm.Resolver.{
  Strings, codes, member, set_of, size_both, size_only, size_any, jaccard, default_similarity,
}

-- no number stands twice
abbrev pub IsUnique : List ℕ → Type 0
IsUnique [] = Unit
IsUnique (x ∷ xs) = (member x xs ≡ false) × IsUnique xs

pub set_of-IsUnique : (xs : List ℕ) → IsUnique (set_of xs)
unfolding set_of
set_of-IsUnique [] = tt
set_of-IsUnique (x ∷ xs) = ground (arith, set_of-IsUnique xs)

pub member-set_of : (x : ℕ) (xs : List ℕ) → member x (set_of xs) ≡ member x xs
unfolding set_of
member-set_of x [] = refl
member-set_of x (y ∷ ys) = ground (arith, member-set_of x ys, member-set_of y ys)

size_both-nil : (as_ : List ℕ) → size_both as_ [] ≡ 0
unfolding size_both
size_both-nil [] = refl
size_both-nil (a ∷ as_) = omega (arith, size_both-nil as_)

size_both-cons :
    (b : ℕ) (as_ bs : List ℕ)
    → IsUnique as_
    → member b bs ≡ false
    → size_both as_ (b ∷ bs) ≡ (if member b as_ then 1 else 0) + size_both as_ bs
unfolding size_both
size_both-cons b [] bs d new = omega arith
size_both-cons b (a ∷ as_) bs d new = ground (arith, size_both-cons b as_ bs)

size_both_comm :
    (as_ bs : List ℕ) → IsUnique as_ → IsUnique bs → size_both as_ bs ≡ size_both bs as_
unfolding size_both
size_both_comm [] bs d e = sym (size_both-nil bs)
size_both_comm (a ∷ as_) bs d e =
    omega (arith, size_both_comm as_ bs d.1 e, size_both-cons a bs as_ e d.0)

size_only-both : (as_ bs : List ℕ) → size_only as_ bs + size_both bs as_ ≡ length bs
unfolding size_only size_both
size_only-both as_ [] = omega arith
size_only-both as_ (b ∷ bs) = ground (arith, size_only-both as_ bs)

size_both-le : (as_ bs : List ℕ) → size_both as_ bs ≤ length as_
unfolding size_both
size_both-le [] bs = omega arith
size_both-le (a ∷ as_) bs = ground (arith, size_both-le as_ bs)

jaccard_comm : (as_ bs : List ℕ) → IsUnique as_ → IsUnique bs → jaccard as_ bs ≡ jaccard bs as_
unfolding jaccard
jaccard_comm [] [] d e = refl
jaccard_comm [] (b ∷ bs) d e = refl
jaccard_comm (a ∷ as_) [] d e = refl
jaccard_comm (a ∷ as_) (b ∷ bs) d e =
    let xs = a ∷ as_ in
    let ys = b ∷ bs in
    let num = size_both_comm xs ys d e in
    let den : size_any xs ys ≡ size_any ys xs =
      omega (arith, num, size_only-both xs ys, size_only-both ys xs) in
    λ i. record { num = num i; den = den i }

jaccard_bounds :
    (as_ bs : List ℕ) → (0 < (jaccard as_ bs).den) × ((jaccard as_ bs).num ≤ (jaccard as_ bs).den)
unfolding jaccard
jaccard_bounds [] [] = omega arith
jaccard_bounds [] (b ∷ bs) = omega arith
jaccard_bounds (a ∷ as_) [] = omega arith
jaccard_bounds (a ∷ as_) (b ∷ bs) = omega (arith, size_both-le (a ∷ as_) (b ∷ bs))

-- all of `as_` is in `bs`
size_both-all :
    (as_ bs : List ℕ)
    → ((x : ℕ) → member x as_ ≡ true → member x bs ≡ true)
    → size_both as_ bs ≡ length as_
unfolding size_both
size_both-all [] bs h = refl
size_both-all (a ∷ as_) bs h = ground (arith, size_both-all as_ bs (λ x m. h x (ground arith)), h a)

-- no element of `bs` is new to `as_`
size_only-none :
    (as_ bs : List ℕ) → ((x : ℕ) → member x bs ≡ true → member x as_ ≡ true) → size_only as_ bs ≡ 0
unfolding size_only
size_only-none as_ [] h = refl
size_only-none as_ (b ∷ bs) h =
    ground (arith, size_only-none as_ bs (λ x m. h x (ground arith)), h b)

member_self : (x : ℕ) (xs : List ℕ) → member x (x ∷ xs) ≡ true
member_self x xs = ground arith

nil_of_same : (b : ℕ) (bs : List ℕ) → ((x : ℕ) → member x [] ≡ member x (b ∷ bs)) → ⊥
nil_of_same b bs h = cc (h b, member_self b bs)

jaccard-same :
    (as_ bs : List ℕ)
    → ((x : ℕ) → member x as_ ≡ member x bs)
    → (jaccard as_ bs).num ≡ (jaccard as_ bs).den
unfolding jaccard
jaccard-same [] [] h = refl
jaccard-same [] (b ∷ bs) h = absurd (nil_of_same b bs h)
jaccard-same (a ∷ as_) [] h = absurd (nil_of_same a as_ (λ x. sym (h x)))
jaccard-same (a ∷ as_) (b ∷ bs) h = omega (
  arith,
  size_both-all (a ∷ as_) (b ∷ bs) (λ x m. sym (h x) ∙ m),
  size_only-none (a ∷ as_) (b ∷ bs) (λ x m. h x ∙ m),
)

-- The default similarity does not depend on the order of the texts, lies between 0 and 1, and is 1
-- for two texts with the same characters once they are in lower case.
pub default_similarity-Jaccard :
    (py : Strings) (a b : String)
    → let s = default_similarity py a b in
      (s ≡ default_similarity py b a)
      × (0 < s.den)
      × (s.num ≤ s.den)
      × (((c : ℕ) → member c (codes (py.lower a)) ≡ member c (codes (py.lower b))) → s.num ≡ s.den)
unfolding default_similarity
default_similarity-Jaccard py a b =
    let xs = codes (py.lower a) in
    let ys = codes (py.lower b) in
    let (positive, bounded) = jaccard_bounds (set_of xs) (set_of ys) in
    (
      jaccard_comm (set_of xs) (set_of ys) (set_of-IsUnique xs) (set_of-IsUnique ys),
      positive,
      bounded,
      λ same.
          jaccard-same (set_of xs) (set_of ys)
            (λ c. member-set_of c xs ∙ same c ∙ sym (member-set_of c ys)),
    )
