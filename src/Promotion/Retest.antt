-- ===== src/Promotion/Retest.antt =====
-- The retest of a rule by its cases, server/distill_team/promotion/retest.py. The number `now` is what
-- the clock says at the one reading of a run; the texts of the log are not modelled.
pub mod Outcomes
use Prim.Native.String.{◌++◌ as str_append}
use team_harness.Prelude.{
  ℕ, suc, ◌+◌, ◌*◌, String, Bool, true, false, not, ◌&&◌, ◌||◌, Option, none, some, List, [], ◌∷◌,
  ◌++◌, select, take, length, contains, leb, eqb, if◌then◌else◌,
}
use team_harness.Prelude.Dict
use team_harness.Prelude.Dict.{Dict}
use team_harness.Prelude.Result.{Result, ok, raise}
use team_harness.Promotion.State.{
  pending_confirmation, RetestResult, all_pass, partial_pass, all_fail, RetestStrategy,
  add_constraint, split_rule, change_angle, restart, RuleEntry, PromotionState, increment_retest,
  retest_limit, Fraction, Tools, len, is_in, join_with,
}

-- _STOP_WORDS
abbrev stop_words_zh : List String
stop_words_zh =
    "的" ∷ "了" ∷ "在" ∷ "是" ∷ "和" ∷ "与" ∷ "或" ∷ "及" ∷ "也" ∷ "都" ∷ "不" ∷ "要" ∷ "会" ∷ "能" ∷ "可" ∷ "以"
    ∷ "对" ∷ "为" ∷ "由" ∷ "从" ∷ "这" ∷ "那" ∷ "其" ∷ "之" ∷ "于" ∷ "等" ∷ "被" ∷ "把" ∷ "让" ∷ "使" ∷ []

abbrev stop_words_en : List String
stop_words_en =
    "the" ∷ "a" ∷ "an" ∷ "is" ∷ "are" ∷ "was" ∷ "were" ∷ "be" ∷ "been" ∷ "and" ∷ "or" ∷ "not" ∷ "no"
    ∷ "for" ∷ "with" ∷ "in" ∷ "on" ∷ "at" ∷ "to" ∷ "of" ∷ "as" ∷ "by" ∷ "this" ∷ "that" ∷ "it"
    ∷ "from" ∷ "if" ∷ "then" ∷ "else" ∷ "when" ∷ "while" ∷ "do" ∷ "did" ∷ "has" ∷ "have" ∷ []

unfoldable pub is_stop_word : String → Bool
is_stop_word t = contains t stop_words_zh || contains t stop_words_en

-- the fraction is 0.5 at least
abbrev pub is_half : Fraction → Bool
is_half f = leb f.den (2 * f.num)

pub record RetestOutcome : Type 0 where
  pub result : RetestResult
  pub strategy : Option RetestStrategy
  pub pass_count : ℕ
  pub total_count : ℕ
  pub should_promote : Bool
  pub state : PromotionState

-- a list that is not empty has a share of hits of one half at least
unfoldable pub keywords_hit : String → List String → Bool
unfolding is_in
keywords_hit rule_text [] = false
keywords_hit rule_text (k ∷ ks) =
    is_half
      (record { num = length (select (λ kw. is_in kw rule_text) (k ∷ ks)); den = length (k ∷ ks) })

-- the count of a word so far
abbrev pub or_zero : Option ℕ → ℕ
or_zero none = 0
or_zero (some n) = n

-- Counter(words)
unfoldable pub count_words : Dict ℕ → List String → Dict ℕ
unfolding Dict.get Dict.put
count_words d [] = d
count_words d (w ∷ ws) = count_words (Dict.put w (suc (or_zero (Dict.get w d))) d) ws

-- most_common: the greatest counts first, equal ones in the order of the items
unfoldable pub insert_by_count : String × ℕ → Dict ℕ → Dict ℕ
insert_by_count x [] = x ∷ []
insert_by_count x (y ∷ ys) = if leb y.1 x.1 then x ∷ y ∷ ys else y ∷ insert_by_count x ys

unfoldable pub order_by_count : Dict ℕ → Dict ℕ
unfolding insert_by_count
order_by_count [] = []
order_by_count (x ∷ xs) = insert_by_count x (order_by_count xs)

-- pass_count against the number of the cases
unfoldable pub result_of : ℕ → ℕ → RetestResult
result_of pass_count total_count =
    if eqb pass_count total_count
    then all_pass
    else (if eqb pass_count 0 then all_fail else partial_pass)

-- was_merged = False where `run` calls it
unfoldable pub select_strategy : RetestResult → ℕ → ℕ → Bool → Result RetestStrategy
select_strategy all_pass pass_count total_count was_merged = raise "ALL_PASS 无需选择修正策略"
select_strategy r pass_count total_count was_merged = ok (
    if eqb pass_count 0
    then restart
    else (if was_merged
        then split_rule
        else (if not (eqb total_count 0) && is_half (record { num = pass_count; den = total_count })
            then add_constraint
            else change_angle)))

module _ (t : Tools) where
  -- _case_passes
  unfoldable pub case_passes : String → String → Bool
  unfolding keywords_hit is_stop_word
  case_passes rule_text case_text =
      keywords_hit rule_text (select (λ k. not (is_stop_word k)) (t.findall case_text))
      || is_half (t.ratio rule_text case_text)

  -- the text that a rule is tested by
  abbrev pub rule_text : RuleEntry → String
  rule_text rule = t.lower (str_append rule.title (str_append "\n" rule.content))

  abbrev pub passes : RuleEntry → String → Bool
  passes rule case_ = case_passes (rule_text rule) (t.lower case_)

  -- _count_passes
  unfoldable pub count_passes : RuleEntry → List String → ℕ
  unfolding case_passes
  count_passes rule [] = 0
  count_passes rule (c ∷ cs) = (if passes rule c then 1 else 0) + count_passes rule cs

  -- _find_failed_cases
  unfoldable pub find_failed_cases : RuleEntry → List String → List String
  unfolding case_passes
  find_failed_cases rule cases = select (λ c. not (passes rule c)) cases

  -- the tokens of the cases that count
  unfoldable pub words_of : List String → List String
  unfolding is_stop_word
  words_of [] = []
  words_of (c ∷ cs) =
      select (λ w. not (is_stop_word w || leb (len w) 1)) (t.findall c) ++ words_of cs

  -- _extract_keywords, with ADD_CONSTRAINT_KEYWORD_LIMIT
  unfoldable pub extract_keywords : List String → List String
  unfolding words_of count_words order_by_count
  extract_keywords cases = Dict.keys (take 5 (order_by_count (count_words [] (words_of cases))))

  unfoldable pub retest_rule : RuleEntry → List String → RetestResult
  unfolding count_passes result_of
  retest_rule rule [] = all_pass
  retest_rule rule (c ∷ cs) = result_of (count_passes rule (c ∷ cs)) (length (c ∷ cs))

  -- the keywords of the cases that failed, put behind the content
  abbrev pub with_keywords : RuleEntry → List String → RuleEntry
  with_keywords rule [] = rule
  with_keywords rule (k ∷ ks) = record rule {
    content =
        str_append rule.content (str_append "\n\n## 补充约束（来自回测失败案例）\n- " (join_with "\n- " k ks));
  }

  unfoldable pub apply_strategy : RuleEntry → RetestStrategy → List String → RuleEntry
  unfolding extract_keywords find_failed_cases join_with
  apply_strategy rule add_constraint cases =
      with_keywords rule (extract_keywords (find_failed_cases rule cases))
  apply_strategy rule split_rule cases = rule
  apply_strategy rule change_angle cases = rule
  apply_strategy rule restart cases = record rule { content = "" }

  -- the state after a retest that fails
  abbrev pub failed_state : RetestResult → RetestStrategy → ℕ → PromotionState → PromotionState
  failed_state result strategy now s =
      let counted : PromotionState =
        increment_retest now
          (record s { last_retest_result = some result; last_strategy = some strategy }) in
      if leb (retest_limit counted) counted.retest_count
      then record counted {
        status = pending_confirmation;
        circuit_breaker_reason =
            some (str_append "回测循环熔断：" (str_append (t.show counted.retest_count) "次"));
      }
      else counted

  abbrev pub retest_failed :
      RetestResult → RetestStrategy → ℕ → ℕ → ℕ → PromotionState → RetestOutcome
  retest_failed result strategy pass_count total_count now s = record {
    result = result;
    strategy = some strategy;
    pass_count = pass_count;
    total_count = total_count;
    should_promote = false;
    state = failed_state result strategy now s;
  }

  unfoldable pub run_result : RetestResult → ℕ → ℕ → ℕ → PromotionState → Result RetestOutcome
  unfolding select_strategy
  run_result all_pass pass_count total_count now s = ok (record {
    result = all_pass;
    strategy = none;
    pass_count = pass_count;
    total_count = total_count;
    should_promote = true;
    state = record s { last_retest_result = some all_pass };
  })
  run_result r pass_count total_count now s =
      elim (select_strategy r pass_count total_count false) [
        | raise e ↦ raise e
        | ok strategy ↦ ok (retest_failed r strategy pass_count total_count now s)
      ]

  -- RetestRunner.run
  unfoldable pub run_retest : RuleEntry → ℕ → PromotionState → Result RetestOutcome
  unfolding count_passes result_of run_result
  run_retest rule now s =
      let cases = s.source_case_ids in
      let pass_count = count_passes rule cases in
      run_result (result_of pass_count (length cases)) pass_count (length cases) now s
