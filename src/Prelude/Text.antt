-- ===== src/Prelude/Text.antt =====
-- Python's `str`: equality, emptiness and the order of the code points.
use Prim.Native.String.{String, [], ◌∷◌, then, compare}
use Prim.Native.Char.{code}
use Prim.Native.Nat.{ℕ, Ordering, compare as compare_ℕ}
use mathlib.Core.Path.{◌≡◌, refl}
use mathlib.Core.Logic.{◌↔◌}
use mathlib.Core.Bool.{Bool, true, false, not}
use native.Mathlib.Omega.{arith}
use Prim.Native.String.compare
use text.Mathlib.Text
use text.Mathlib.TextEquality.{eq_iff}

-- a == b
infix 50 ◌==◌
abbrev pub ◌==◌ : String → String → Bool
a == b = Text.◌==◌ a b

pub ==_iff : (s t : String) → ((s == t) ≡ true) ↔ (s ≡ t)
==_iff s t = eq_iff s t

pub ==_refl : (s : String) → (s == s) ≡ true
==_refl s = (eq_iff s s).1 refl

-- bool(s)
abbrev pub nonempty : String → Bool
nonempty s = not (s == "")

-- a <= b
unfoldable pub str_le : String → String → Bool
str_le a b = elim (compare a b) [ Ordering.gt ↦ false | _ ↦ true ]

abbrev flip : Ordering → Ordering
flip Ordering.lt = Ordering.gt
flip Ordering.eq = Ordering.eq
flip Ordering.gt = Ordering.lt

compare_ℕ_flip : (m n : ℕ) → compare_ℕ n m ≡ flip (compare_ℕ m n)
compare_ℕ_flip m n = ground arith

then-flip : (o o' r r' : Ordering) → o' ≡ flip o → r' ≡ flip r → then o' r' ≡ flip (then o r)
then-flip o o' r r' p q = ground arith

compare-flip : (s t : String) → compare t s ≡ flip (compare s t)
compare-flip [] [] = rw compare.nil-nil
compare-flip [] (d ∷ t) = rw (compare.nil-cons, compare.cons-nil)
compare-flip (c ∷ s) [] = rw (compare.nil-cons, compare.cons-nil)
compare-flip (c ∷ s) (d ∷ t) =
    rw (compare.cons-cons d c t s, compare.cons-cons c d s t)
      (then-flip _ _ _ _ (compare_ℕ_flip (code c) (code d)) (compare-flip s t))

-- Of two texts one is before the other.
pub str_le_total : (a b : String) → str_le a b ≡ false → str_le b a ≡ true
unfolding str_le
str_le_total a b h = ground (arith, compare-flip a b)
