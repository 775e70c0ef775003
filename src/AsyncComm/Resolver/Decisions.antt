-- ===== src/AsyncComm/Resolver/Decisions.antt =====
-- The three intervals of `_decide`, and the methods that go through it.
use team_harness.Prelude.{
  ◌*◌, ◌≤◌, ◌<◌, String, ◌≡◌, ◌↔◌, ◌⊎◌, inl, inr, true, false, Option, arith, Bool-cases,
}
use native.Mathlib.Nat.{le_of_mul-le-mul_left, mul-le-mul_right}
use team_harness.AsyncComm.Types.{get_or}
use team_harness.Prelude.Result.{ok, raise}
use team_harness.AsyncComm.Resolver.{
  Ratio, ratio_le, Strings, ConflictResolver, new_resolver, confirmed, revised, needs_human_review,
  decide, default_similarity,
}

-- a ≤ b, with the denominators multiplied out
abbrev pub AtMost : Ratio → Ratio → Type 0
AtMost a b = a.num * b.den ≤ b.num * a.den

ratio_le-AtMost : (a b : Ratio) → (ratio_le a b ≡ true) ↔ AtMost a b
unfolding ratio_le
ratio_le-AtMost a b = (λ h. ground arith, λ h. ground arith)

ratio_gt : (a b : Ratio) → ratio_le a b ≡ false → b.num * a.den < a.num * b.den
unfolding ratio_le
ratio_gt a b h = ground arith

AtMost-trans : (a b c : Ratio) → 0 < b.den → AtMost a b → AtMost b c → AtMost a c
AtMost-trans a b c pos h k =
    le_of_mul-le-mul_left
      (let h' : b.den * (a.num * c.den) ≤ (b.num * a.den) * c.den =
          omega (arith, mul-le-mul_right c.den h) in
        let k' : (b.num * c.den) * a.den ≤ (c.num * b.den) * a.den = mul-le-mul_right a.den k in
        omega arith)
      pos

decide_cases :
    (r : ConflictResolver) (s : Ratio)
    → 0 < s.den
    → (r.conflict_threshold.num * r.auto_confirm_threshold.den
        < r.auto_confirm_threshold.num * r.conflict_threshold.den)
    → ((decide r s ≡ confirmed) ↔ AtMost r.auto_confirm_threshold s)
      × ((decide r s ≡ needs_human_review) ↔ AtMost s r.conflict_threshold)
      × ((decide r s ≡ revised)
          ↔ ((¬ AtMost r.auto_confirm_threshold s) × (¬ AtMost s r.conflict_threshold)))
unfolding decide ratio_le
decide_cases r s s_pos apart =
    let disjoint = AtMost-trans r.auto_confirm_threshold s r.conflict_threshold s_pos in
    (
      (λ h. ground arith, λ h. ground arith),
      (λ h. ground arith, λ h. ground (arith, disjoint)),
      (λ h. (λ k. ground arith, λ k. ground arith), λ h. ground arith),
    )

-- A resolver that the constructor returns has disjoint intervals: it decides "confirmed" exactly
-- from the upper threshold on, "needs_human_review" exactly up to the lower one, and "revised"
-- exactly between them. The constructor refuses thresholds in any other order. The denominators are
-- positive.
pub decide_intervals :
    (py : Strings) (hi lo : Ratio) (f : Option (String → String → Ratio)) (s : Ratio)
    → 0 < hi.den
    → 0 < lo.den
    → 0 < s.den
    → ((new_resolver py hi lo f
          ≡ raise "auto_confirm_threshold must be greater than conflict_threshold")
        × AtMost hi lo)
      ⊎ ((r : ConflictResolver) × (new_resolver py hi lo f ≡ ok r)
          × ((decide r s ≡ confirmed) ↔ AtMost hi s)
          × ((decide r s ≡ needs_human_review) ↔ AtMost s lo)
          × ((decide r s ≡ revised) ↔ ((¬ AtMost hi s) × (¬ AtMost s lo))))
unfolding new_resolver
decide_intervals py hi lo f s hi_pos lo_pos s_pos = elim (Bool-cases (ratio_le hi lo)) [
  | inl le ↦ inl (rw le, (ratio_le-AtMost hi lo).0 le)
  | inr gt ↦
      let r : ConflictResolver = record {
        auto_confirm_threshold = hi;
        conflict_threshold = lo;
        similarity_func = get_or f (default_similarity py);
      } in
      let (confirms, escalates, revises) = decide_cases r s s_pos (ratio_gt hi lo gt) in
      inr (r, rw gt, confirms, escalates, revises)
]
