-- ===== src/Prelude/Unique.antt =====
-- Lists of texts in which no text stands twice.
use mathlib.Core.Path.{◌≡◌, refl}
use mathlib.Core.Bool.{Bool, true, false}
use mathlib.Core.Logic.{inl, inr}
use mathlib.Core.List.{List, [], ◌∷◌, ◌++◌}
use native.Mathlib.Omega.{arith}
use Prim.Native.String.{String}
use team_harness.Prelude.Tests.{Bool-cases}
use team_harness.Prelude.Lists.{contains, contains-append, select}
use team_harness.Prelude.Text.{==_iff}

abbrev pub Distinct : List String → Type 0
Distinct [] = Unit
Distinct (x ∷ xs) = (contains x xs ≡ false) × Distinct xs

pub Distinct-snoc :
    (x : String) (xs : List String) → contains x xs ≡ false → Distinct xs → Distinct (xs ++ x ∷ [])
Distinct-snoc x [] h d = (refl, tt)
Distinct-snoc x (y ∷ ys) h d = (
  ground (arith, contains-append y ys (x ∷ []), ==_iff x y, ==_iff y x),
  Distinct-snoc x ys (ground arith) d.1,
)

pub contains-select :
    (p : String → Bool) (x : String) (xs : List String)
    → contains x (select p xs) ≡ true
    → contains x xs ≡ true
contains-select p x [] h = h
contains-select p x (y ∷ ys) h = ground (arith, contains-select p x ys)

pub Distinct-select : (p : String → Bool) (xs : List String) → Distinct xs → Distinct (select p xs)
Distinct-select p [] d = tt
Distinct-select p (x ∷ xs) d = elim (Bool-cases (p x)) [
  | inl e ↦ rw e (ground (arith, contains-select p x xs), Distinct-select p xs d.1)
  | inr e ↦ rw e (Distinct-select p xs d.1)
]
