-- ===== src/Promotion/Dedup.antt =====
-- The search for duplicates of a rule, server/distill_team/promotion/dedup.py. The rules that are
-- there are what the adapter of the coding software parses; `Adapter` is told how many of its calls
-- came before.
use Prim.Native.String.{◌++◌ as str_append}
use team_harness.Prelude.{
  ℕ, suc, ◌*◌, String, Bool, true, false, Option, none, some, List, [], ◌∷◌, ◌++◌, select, all, leb,
  ltb, ◌==◌, if◌then◌else◌,
}
use team_harness.Prelude.Result.{Result, ok, raise}
use team_harness.Promotion.State.{
  pending_confirmation, DedupVerdict, exact_duplicate, subset_duplicate, cross_duplicate,
  no_duplicate, dedup_max, RuleEntry, PromotionState, increment_dedup, is_top_layer, Fraction,
  Tools, len, is_in,
}

-- the directories and files of MemoryLayout that the pipeline uses
pub record MemoryLayout : Type 0 where
  pub project_rules_dir : String
  pub global_rules_dir : String
  pub user_profile_path : String
  pub archive_path : String

pub record Adapter : Type 0 where
  pub parse_existing_rules : ℕ → String → Result (List RuleEntry)
  -- the path that is written
  pub write_rule : ℕ → String → RuleEntry → Result String
  pub write_hotspot_rule : ℕ → String → RuleEntry → Result Bool

pub record DedupResult : Type 0 where
  pub verdict : DedupVerdict
  pub existing_rule : Option RuleEntry
  pub action : String
  pub state : PromotionState

-- _VERDICT_ACTION_MAP
abbrev pub verdict_action : DedupVerdict → String
verdict_action exact_duplicate = "find_untriggered_reason"
verdict_action subset_duplicate = "skip"
verdict_action cross_duplicate = "split"
verdict_action no_duplicate = "no_duplicate"

-- bucket_lookup
abbrev pub bucket_lookup : Option String → MemoryLayout → List String
bucket_lookup none layout = layout.project_rules_dir ∷ layout.global_rules_dir ∷ []
bucket_lookup (some category) layout = layout.project_rules_dir ∷ []

-- the fraction is n tenths at least
abbrev pub is_tenths : ℕ → Fraction → Bool
is_tenths n f = leb (n * f.den) (10 * f.num)

-- a < b
abbrev pub less : Fraction → Fraction → Bool
less a b = ltb (a.num * b.den) (b.num * a.den)

module _ (t : Tools) where
  -- _same_category
  abbrev pub same_category : Option String → Option String → Bool
  same_category none none = true
  same_category none (some b) = false
  same_category (some a) none = false
  same_category (some a) (some b) = t.lower (t.strip a) == t.lower (t.strip b)

  abbrev pub rule_words : RuleEntry → String
  rule_words rule = str_append rule.title (str_append "\n" rule.content)

  -- _extract_keywords; what is asked of the set does not depend on its order or on repetitions
  unfoldable pub keywords : String → List String
  unfolding len
  keywords text = select (λ w. leb 2 (len w)) (t.split_words (t.lower text))

  abbrev pub all_in : List String → String → Bool
  all_in [] text = false
  all_in (k ∷ ks) text = all (λ kw. is_in kw text) (k ∷ ks)

  -- _is_subset
  unfoldable pub is_subset : RuleEntry → RuleEntry → Bool
  unfolding keywords is_in
  is_subset new_rule existing =
      if same_category new_rule.category existing.category
      then all_in (keywords (rule_words new_rule)) (t.lower (rule_words existing))
      else false

  -- the first rule of the greatest similarity above the best so far
  unfoldable pub best_match :
      RuleEntry → List RuleEntry → Fraction × Option RuleEntry → Fraction × Option RuleEntry
  best_match new_rule [] best = best
  best_match new_rule (r ∷ rs) best =
      let ratio = t.ratio new_rule.content r.content in
      best_match new_rule rs (if less best.0 ratio then (ratio, some r) else best)

  -- the first rule that contains the new one
  unfoldable pub first_superset : RuleEntry → List RuleEntry → Option RuleEntry
  unfolding is_subset
  first_superset new_rule [] = none
  first_superset new_rule (r ∷ rs) =
      let rest = first_superset new_rule rs in if is_subset new_rule r then some r else rest

  -- the category of a match; a similarity of 0.9 has one
  abbrev pub matches_category : RuleEntry → Option RuleEntry → Bool
  matches_category new_rule none = false
  matches_category new_rule (some r) = same_category new_rule.category r.category

  abbrev pub or_cross :
      Fraction × Option RuleEntry → Option RuleEntry → DedupVerdict × Option RuleEntry
  or_cross (ratio, found) (some r) = (subset_duplicate, some r)
  or_cross (ratio, found) none =
      if is_tenths 6 ratio then (cross_duplicate, found) else (no_duplicate, none)

  -- the verdict for the best match
  unfoldable pub verdict_of :
      RuleEntry → List RuleEntry → Fraction × Option RuleEntry → DedupVerdict × Option RuleEntry
  unfolding first_superset
  verdict_of new_rule existing (ratio, found) =
      if is_tenths 9 ratio
      then (if matches_category new_rule found
          then (exact_duplicate, found)
          else (cross_duplicate, found))
      else or_cross (ratio, found) (first_superset new_rule existing)

  -- _compute_duplicate
  unfoldable pub compute_duplicate : RuleEntry → List RuleEntry → DedupVerdict × Option RuleEntry
  unfolding best_match verdict_of
  compute_duplicate new_rule [] = (no_duplicate, none)
  compute_duplicate new_rule (r ∷ rs) =
      verdict_of new_rule (r ∷ rs)
        (best_match new_rule (r ∷ rs) (record { num = 0; den = 1 }, none))

  unfoldable pub check_duplicate : RuleEntry → List RuleEntry → DedupVerdict
  unfolding compute_duplicate
  check_duplicate new_rule existing = (compute_duplicate new_rule existing).0

  -- the state of a check: the sixth one trips the breaker
  abbrev pub checked_state : DedupVerdict → ℕ → PromotionState → PromotionState
  checked_state verdict now s =
      let counted : PromotionState = record (increment_dedup now s) {
        last_dedup_verdict = some verdict;
      } in
      if leb dedup_max counted.dedup_count
      then record counted {
        status = pending_confirmation;
        circuit_breaker_reason = some "查重循环熔断：6次";
      }
      else counted

  module _ (a : Adapter) where
    -- the rules of the directories
    unfoldable pub parse_dirs : ℕ → List String → ℕ × Result (List RuleEntry)
    parse_dirs calls [] = (calls, ok [])
    parse_dirs calls (d ∷ ds) =
        let (later, rest) = parse_dirs (suc calls) ds in
        elim (a.parse_existing_rules calls d) [
          | raise e ↦ (suc calls, raise e)
          | ok rules ↦ (later, elim rest [ raise e ↦ raise e | ok more ↦ ok (rules ++ more) ])
        ]

    abbrev pub scan_dirs : RuleEntry → PromotionState → MemoryLayout → List String
    scan_dirs rule s layout = bucket_lookup (if is_top_layer s then none else rule.category) layout

    -- DedupChecker.check
    unfoldable pub check :
        RuleEntry → ℕ → ℕ → PromotionState → MemoryLayout → ℕ × Result DedupResult
    unfolding parse_dirs compute_duplicate
    check rule calls now s layout =
        let (later, parsed) = parse_dirs calls (scan_dirs rule s layout) in
        (
          later,
          elim parsed [
            | raise e ↦ raise e
            | ok existing ↦
                let found = compute_duplicate rule existing in
                ok (record {
                  verdict = found.0;
                  existing_rule = found.1;
                  action = verdict_action found.0;
                  state = checked_state found.0 now s;
                })
          ],
        )
