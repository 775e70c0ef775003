-- ===== src/Promotion/Promote.antt =====
-- The promotion of a rule to the next layer, server/distill_team/promotion/promote.py. The patterns of
-- project specific marks are numbered in their order.
use team_harness.Prelude.{
  ℕ, String, Bool, true, false, not, ◌||◌, Option, none, some, List, [], ◌∷◌, leb, nonempty,
  if◌then◌else◌,
}
use team_harness.Prelude.Result.{Result, ok, raise}
use team_harness.Promotion.State.{
  Layer, project, rules_file, global_top, promoting, promoted, not_to_top, promote_max, RuleEntry,
  PromotionState, increment_promote, is_top, is_top_layer, Tools, len, join_with,
}
use team_harness.Promotion.Dedup.{MemoryLayout, Adapter}

-- _PROJECT_SPECIFIC_PATTERNS, by their number
abbrev pub patterns : List ℕ
patterns = 0 ∷ 1 ∷ 2 ∷ 3 ∷ 4 ∷ 5 ∷ 6 ∷ 7 ∷ 8 ∷ 9 ∷ []

pub record PromotionDecision : Type 0 where
  pub should_promote : Bool
  pub target_layer : Layer
  pub reason : String
  pub checklist_results : List Bool

-- PromotionResult, without the text of its reason
pub record PromotionResult : Type 0 where
  pub is_promoted : Bool
  pub target_layer : Layer
  pub target_path : Option String
  pub rule : RuleEntry
  pub state : PromotionState

module _ (t : Tools) where
  -- _is_project_specific
  unfoldable pub matches_any : List ℕ → String → Bool
  matches_any [] content = false
  matches_any (p ∷ ps) content = t.search p content || matches_any ps content

  unfoldable pub is_project_specific : String → Bool
  unfolding matches_any
  is_project_specific content = matches_any patterns content

  -- _is_top_layer_eligible
  unfoldable pub is_top_layer_eligible : RuleEntry → Bool
  unfolding is_project_specific len
  is_top_layer_eligible rule =
      if is_project_specific rule.content then false else leb (len rule.content) 200

  abbrev pub has_category : Option String → Bool
  has_category none = false
  has_category (some c) = true

  -- _run_checklist, the answers in the order of PROMOTION_CHECKLIST
  unfoldable pub run_checklist : RuleEntry → List Bool
  unfolding is_project_specific is_top_layer_eligible
  run_checklist rule =
      let is_specific = is_project_specific rule.content in
      not is_specific
      ∷ false
      ∷ not is_specific
      ∷ is_top_layer_eligible rule
      ∷ has_category rule.category
      ∷ true
      ∷ []

  unfoldable pub check_promotion_eligibility : RuleEntry → Layer → PromotionDecision
  unfolding run_checklist
  check_promotion_eligibility rule global_top = record {
    should_promote = false;
    target_layer = global_top;
    reason = "已达顶层（GLOBAL_TOP），无需升维";
    checklist_results = [];
  }
  check_promotion_eligibility rule project =
      if is_project_specific rule.content
      then record {
        should_promote = false;
        target_layer = project;
        reason = "规则绑定特定项目场景，留在项目级";
        checklist_results = run_checklist rule;
      }
      else record {
        should_promote = true;
        target_layer = rules_file;
        reason = "规则内容通用，升维到规则文件级";
        checklist_results = run_checklist rule;
      }
  check_promotion_eligibility rule rules_file =
      if is_top_layer_eligible rule
      then record {
        should_promote = true;
        target_layer = global_top;
        reason = "规则足够通用且高频，升维到顶层";
        checklist_results = run_checklist rule;
      }
      else record {
        should_promote = false;
        target_layer = rules_file;
        reason = "规则未达顶层标准，留在规则文件级";
        checklist_results = run_checklist rule;
      }

  -- _generalize_content
  unfoldable pub generalize : List ℕ → String → String
  generalize [] content = content
  generalize (p ∷ ps) content = generalize ps (t.sub p content)

  -- the lines of the first paragraph; `begun` where a line has been collected
  unfoldable pub first_paragraph : Bool → List String → List String
  first_paragraph begun [] = []
  first_paragraph begun (l ∷ ls) =
      let stripped = t.strip l in
      let more = first_paragraph true ls in
      let skipped = first_paragraph false ls in
      if nonempty stripped then stripped ∷ more else (if begun then [] else skipped)

  abbrev pub or_content : String → List String → String
  or_content content [] = content
  or_content content (l ∷ ls) = join_with "\n" l ls

  -- _abstract_to_principle
  unfoldable pub abstract_to_principle : String → String
  unfolding first_paragraph join_with
  abstract_to_principle content =
      or_content content (first_paragraph false (t.splitlines (t.strip content)))

  unfoldable pub abstract_rule : RuleEntry → Layer → RuleEntry
  unfolding generalize abstract_to_principle
  abstract_rule rule project = rule
  abstract_rule rule rules_file = record rule { content = generalize patterns rule.content }
  abstract_rule rule global_top = record rule { content = abstract_to_principle rule.content }

  -- the state after the rule is written to the layer
  abbrev pub promoted_state : Layer → ℕ → PromotionState → PromotionState
  promoted_state target now s =
      let counted : PromotionState = record (increment_promote now s) { current_layer = target } in
      if leb promote_max counted.promote_count
      then record counted { status = not_to_top; circuit_breaker_reason = some "升维循环熔断：6次，停在当前层级" }
      else (if is_top target
          then record counted { status = promoted }
          else record counted { status = promoting })

  -- not promoted: the state is marked as promoted
  abbrev pub stays : RuleEntry → PromotionState → PromotionResult
  stays rule s = record {
    is_promoted = false;
    target_layer = s.current_layer;
    target_path = none;
    rule = rule;
    state = record s { status = promoted };
  }

  module _ (a : Adapter) where
    -- _write_to_layer
    unfoldable pub write_to_layer : ℕ → RuleEntry → Layer → MemoryLayout → Result String
    write_to_layer calls rule project layout = a.write_rule calls layout.project_rules_dir rule
    write_to_layer calls rule rules_file layout = a.write_rule calls layout.global_rules_dir rule
    write_to_layer calls rule global_top layout =
        elim (a.write_hotspot_rule calls layout.user_profile_path rule) [
          | raise e ↦ raise e
          | ok b ↦ ok layout.user_profile_path
        ]

    -- the rule is abstracted and written, and the state moves up
    unfoldable pub move_up :
        ℕ → ℕ → RuleEntry → Layer → PromotionState → MemoryLayout → Result PromotionResult
    unfolding abstract_rule write_to_layer
    move_up calls now rule target s layout =
        let lifted = abstract_rule rule target in
        elim (write_to_layer calls lifted target layout) [
          | raise e ↦ raise e
          | ok path ↦ ok (record {
            is_promoted = true;
            target_layer = target;
            target_path = some path;
            rule = record lifted { file_path = path };
            state = promoted_state target now s;
          })
        ]

    -- PromotionManager.promote
    unfoldable pub promote :
        ℕ → ℕ → RuleEntry → PromotionState → MemoryLayout → Result PromotionResult
    unfolding check_promotion_eligibility move_up
    promote calls now rule s layout =
        let d = check_promotion_eligibility rule s.current_layer in
        if is_top_layer s
        then ok (stays rule s)
        else (if d.should_promote
            then move_up calls now rule d.target_layer s layout
            else ok (stays rule s))
