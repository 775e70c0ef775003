-- ===== src/Budget/Bounds.antt =====
-- What a budget grants.
use team_harness.Prelude.{
  ℕ, ◌+◌, ◌-◌, ◌≤◌, min, ◌≡◌, refl, List, [], ◌∷◌, eqb, arith, Bool-cases, inl, inr,
}
use team_harness.Budget.{LlmBudget, remaining, consume_tokens}

-- the budget after a day of requests, and the sum of what they were granted
unfoldable pub consume_all : List ℕ → LlmBudget → LlmBudget × ℕ
consume_all [] b = (b, 0)
consume_all (t ∷ ts) b =
    let (after, actual) = consume_tokens t b in
    let (last, sum) = consume_all ts after in (last, actual + sum)

abbrev pub total : List ℕ → ℕ
total [] = 0
total (t ∷ ts) = t + total ts

consume_tokens-remaining :
    (t : ℕ) (b : LlmBudget)
    → b.used ≤ b.daily_token_budget
    → let (after, actual) = consume_tokens t b in
      (actual ≡ min t (remaining b))
      × (after.daily_token_budget ≡ b.daily_token_budget)
      × (after.used ≡ b.used + actual)
unfolding consume_tokens
consume_tokens-remaining t b h = elim (Bool-cases (eqb t 0)) [
  | inl zero_asked ↦ rw zero_asked (ground arith, refl, ground arith)
  | inr some_asked ↦
      elim (Bool-cases (eqb (b.daily_token_budget - (b.used + min t (remaining b))) 0)) [
        | inl spent ↦ rw (some_asked, spent) (refl, refl, refl)
        | inr left ↦ rw (some_asked, left) (refl, refl, refl)
      ]
]

-- A budget that is not overdrawn grants to any sequence of requests together the least of what they
-- ask for and what remains, uses exactly that, and is not overdrawn afterwards.
pub consume_all-min :
    (ts : List ℕ) (b : LlmBudget)
    → b.used ≤ b.daily_token_budget
    → let (after, granted) = consume_all ts b in
      (granted ≡ min (total ts) (remaining b))
      × (after.used ≡ b.used + granted)
      × (after.used ≤ after.daily_token_budget)
unfolding consume_all
consume_all-min [] b h = (ground arith, omega arith, h)
consume_all-min (t ∷ ts) b h =
    let (actual, same, spent) = consume_tokens-remaining t b h in
    let (granted, sum, within) =
      consume_all-min ts (consume_tokens t b).0 (ground (arith, actual, same, spent)) in
    (ground (arith, actual, same, spent, granted), omega (arith, spent, sum), within)
