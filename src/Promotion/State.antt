-- ===== src/Promotion/State.antt =====
-- The promotion of a rule: the data of server/distill_team/promotion/models.py and of adapters/base.py,
-- and what the pipeline uses of Python's texts. `Tools` holds the regular expressions, difflib and the
-- methods of `str` that depend on Unicode tables.
use Prim.Native.String.{[] as nil, ◌∷◌ as cons, ◌++◌ as str_append}
use Prim.Native.Char.{code}
use team_harness.Prelude.{
  ℕ, suc, ◌+◌, String, Bool, true, false, ◌&&◌, ◌||◌, Option, List, [], ◌∷◌, eqb, if◌then◌else◌,
}
use team_harness.Prelude.Dict.{Dict}

pub data Layer : Type 0 where
  project rules_file global_top : Layer

pub data PromotionStatus : Type 0 where
  promoting promoted pending_confirmation not_to_top archived : PromotionStatus

pub data DedupVerdict : Type 0 where
  exact_duplicate subset_duplicate cross_duplicate no_duplicate : DedupVerdict

pub data RetestResult : Type 0 where
  all_pass partial_pass all_fail : RetestResult

pub data RetestStrategy : Type 0 where
  add_constraint split_rule change_angle restart : RetestStrategy

-- CircuitBreakerLimits
abbrev pub dedup_max : ℕ
dedup_max = 6

abbrev pub retest_normal_max : ℕ
retest_normal_max = 4

abbrev pub retest_top_max : ℕ
retest_top_max = 8

abbrev pub promote_max : ℕ
promote_max = 6

abbrev pub global_iteration_max : ℕ
global_iteration_max = 10

pub record RuleEntry : Type 0 where
  pub rule_id : String
  pub title : String
  pub content : String
  pub file_path : String
  pub category : Option String
  pub frontmatter : Dict String

-- PromotionState, without the relations that the pipeline does not use
pub record PromotionState : Type 0 where
  pub current_layer : Layer
  pub status : PromotionStatus
  pub dedup_count : ℕ
  pub retest_count : ℕ
  pub promote_count : ℕ
  pub global_iteration : ℕ
  pub last_dedup_verdict : Option DedupVerdict
  pub last_retest_result : Option RetestResult
  pub last_strategy : Option RetestStrategy
  pub source_case_ids : List String
  pub is_archived : Bool
  pub archive_id : Option String
  pub archived_at : Option ℕ
  pub graph_node_id : Option String
  pub circuit_breaker_reason : Option String
  pub created_at : ℕ
  pub updated_at : ℕ

abbrev pub increment_dedup : ℕ → PromotionState → PromotionState
increment_dedup now s = record s {
  dedup_count = s.dedup_count + 1;
  global_iteration = s.global_iteration + 1;
  updated_at = now;
}

abbrev pub increment_retest : ℕ → PromotionState → PromotionState
increment_retest now s = record s {
  retest_count = s.retest_count + 1;
  global_iteration = s.global_iteration + 1;
  updated_at = now;
}

abbrev pub increment_promote : ℕ → PromotionState → PromotionState
increment_promote now s = record s {
  promote_count = s.promote_count + 1;
  global_iteration = s.global_iteration + 1;
  updated_at = now;
}

abbrev pub is_top : Layer → Bool
is_top project = false
is_top rules_file = false
is_top global_top = true

abbrev pub is_top_layer : PromotionState → Bool
is_top_layer s = is_top s.current_layer

abbrev pub retest_limit : PromotionState → ℕ
retest_limit s = if is_top_layer s then retest_top_max else retest_normal_max

-- a number between 0 and 1
pub record Fraction : Type 0 where
  pub num : ℕ
  pub den : ℕ

pub record Tools : Type 0 where
  -- re.findall with the pattern of retest.py, and re.split(r"\W+", ...) of dedup.py
  pub findall : String → List String
  pub split_words : String → List String
  -- SequenceMatcher(None, a, b).ratio()
  pub ratio : String → String → Fraction
  pub lower : String → String
  pub strip : String → String
  pub splitlines : String → List String
  -- pattern.search and pattern.sub("...", ...) of the pattern of a number
  pub search : ℕ → String → Bool
  pub sub : ℕ → String → String
  -- str(n), and the text of a rule id
  pub show : ℕ → String

-- len(s)
unfoldable pub len : String → ℕ
len nil = 0
len (cons c s) = suc (len s)

abbrev pub starts_with : String → String → Bool
starts_with nil s = true
starts_with (cons c p) nil = false
starts_with (cons c p) (cons d s) = eqb (code c) (code d) && starts_with p s

-- p in s
unfoldable pub is_in : String → String → Bool
is_in p nil = starts_with p nil
is_in p (cons c s) = starts_with p (cons c s) || is_in p s

-- sep.join(...) of a list that begins with a text
unfoldable pub join_with : String → String → List String → String
join_with sep x [] = x
join_with sep x (y ∷ ys) = str_append x (str_append sep (join_with sep y ys))
