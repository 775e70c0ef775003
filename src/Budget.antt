-- ===== src/Budget.antt =====
-- The daily token budgets of server/distill_personal/budget.py, with `LLMBudget` of llm_provider.py:
-- a member's budget, and the candidates that wait while it is exhausted. A number of tokens is not
-- negative. `Calendar` holds what datetime says, and the readings of the clock.
pub mod Bounds
pub mod Pending
pub mod Counts
mod Examples
use team_harness.Prelude.{
  ℕ, suc, ◌+◌, ◌-◌, min, String, Bool, true, false, Option, none, some, [], ◌∷◌, length, leb, eqb,
  nonempty, if◌then◌else◌,
}
use team_harness.Prelude.Dict
use team_harness.Prelude.Dict.{Dict}

pub record Calendar : Type 0 where
  -- `_next_day_iso` and `datetime.now` at a reading
  pub next_day : ℕ → String
  pub now : ℕ → ℕ
  -- fromisoformat; `none` on a ValueError
  pub parse : String → Option ℕ

pub record LlmBudget : Type 0 where
  pub member_id : String
  pub daily_token_budget : ℕ
  pub used : ℕ
  pub reset_at : String
  pub degraded : Bool

-- max(0, daily_token_budget - used)
abbrev pub remaining : LlmBudget → ℕ
remaining b = b.daily_token_budget - b.used

abbrev pub exhausted : LlmBudget → Bool
exhausted b = eqb (remaining b) 0

-- LLMBudget.consume
unfoldable pub consume_tokens : ℕ → LlmBudget → LlmBudget × ℕ
consume_tokens tokens b =
    let actual = min tokens (remaining b) in
    let spent : LlmBudget = record b { used = b.used + actual } in
    if eqb tokens 0
    then (b, 0)
    else (if eqb (remaining spent) 0 then record spent { degraded = true } else spent, actual)

pub record BudgetManager : Type 0 where
  pub default_daily_budget : ℕ
  pub budgets : Dict LlmBudget
  pub time_at : ℕ

-- daily_budget or self.default_daily_budget
abbrev pub or_default : Option ℕ → ℕ → ℕ
or_default none d = d
or_default (some n) d = if eqb n 0 then d else n

abbrev pub is_due : Option ℕ → ℕ → Bool
is_due none now = false
is_due (some reset_dt) now = leb reset_dt now

module _ (c : Calendar) where
  -- default_budget
  abbrev pub new_budget : String → ℕ → ℕ → LlmBudget
  new_budget member_id daily time_at = record {
    member_id = member_id;
    daily_token_budget = daily;
    used = 0;
    reset_at = c.next_day time_at;
    degraded = false;
  }

  -- ensure_member: the manager and the budget
  unfoldable pub ensure_member : String → Option ℕ → BudgetManager → BudgetManager × LlmBudget
  ensure_member member_id daily m = elim (Dict.get member_id m.budgets) [
    | some b ↦ (m, b)
    | none ↦
        let b = new_budget member_id (or_default daily m.default_daily_budget) m.time_at in
        (record m { budgets = Dict.put member_id b m.budgets; time_at = suc m.time_at }, b)
  ]

  -- LLMBudget.reset
  abbrev pub reset_budget : ℕ → LlmBudget → LlmBudget
  reset_budget time_at b = record b { used = 0; degraded = false; reset_at = c.next_day time_at }

  -- _maybe_reset_if_crossed_day
  unfoldable pub maybe_reset : ℕ → LlmBudget → LlmBudget
  maybe_reset time_at b =
      if nonempty b.reset_at
      then (if is_due (c.parse b.reset_at) (c.now time_at) then reset_budget time_at b else b)
      else b

  unfoldable pub get_budget : String → BudgetManager → BudgetManager × LlmBudget
  unfolding ensure_member maybe_reset
  get_budget member_id m =
      let (n, b) = ensure_member member_id none m in
      let current = maybe_reset n.time_at b in
      (
        record n { budgets = Dict.put member_id current n.budgets; time_at = suc n.time_at },
        current,
      )

  unfoldable pub consume : String → ℕ → BudgetManager → BudgetManager × ℕ
  unfolding get_budget consume_tokens
  consume member_id tokens m =
      let (n, b) = get_budget member_id m in
      let (after, actual) = consume_tokens tokens b in
      (record n { budgets = Dict.put member_id after n.budgets }, actual)

  unfoldable pub set_daily_budget : String → ℕ → BudgetManager → BudgetManager
  unfolding ensure_member
  set_daily_budget member_id daily m =
      let (n, b) = ensure_member member_id none m in
      record n { budgets = Dict.put member_id (record b { daily_token_budget = daily }) n.budgets }

  unfoldable pub is_degraded : String → BudgetManager → BudgetManager × Bool
  unfolding get_budget
  is_degraded member_id m = let (n, b) = get_budget member_id m in (n, b.degraded)

  unfoldable pub reset_member : String → BudgetManager → BudgetManager
  unfolding ensure_member
  reset_member member_id m =
      let (n, b) = ensure_member member_id none m in
      record n {
        budgets = Dict.put member_id (reset_budget n.time_at b) n.budgets;
        time_at = suc n.time_at;
      }

  unfoldable pub reset_values : Dict LlmBudget → ℕ → Dict LlmBudget
  reset_values [] time_at = []
  reset_values ((i, b) ∷ d) time_at = (i, reset_budget time_at b) ∷ reset_values d (suc time_at)

  unfoldable pub reset_all : BudgetManager → BudgetManager
  unfolding reset_values
  reset_all m = record m {
    budgets = reset_values m.budgets m.time_at;
    time_at = m.time_at + length m.budgets;
  }
