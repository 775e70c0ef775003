-- ===== src/Promotion/ManagerExamples.antt =====
-- Runs of the promotion: no rule is there yet, and a case passes where the rule names its words.
use team_harness.Prelude.{
  ℕ, ◌≡◌, ◌⊎◌, refl, String, true, false, Option, none, some, List, [], ◌∷◌, is_some, length,
}
use team_harness.Prelude.Result.{ok}
use team_harness.Promotion.State.{PromotionStatus, promoted, no_duplicate, RuleEntry, Tools}
use team_harness.Promotion.Retest.{RetestOutcome, run_retest, find_failed_cases}
use team_harness.Promotion.Retest.Outcomes.{Retested, run_retest-Retested}
use team_harness.Promotion.Dedup.{MemoryLayout, DedupResult, check, checked_state}
use team_harness.Promotion.Graph.Types.{GraphFile}
use team_harness.Promotion.Graph.{
  get_relations, replace_node, log_change, find_node, update_node_status,
}
use team_harness.Promotion.Cascade.{cascade_from}
use mathlib.Core.Option
use team_harness.Promotion.Manager.{Services, Session}
use team_harness.Promotion.Manager.Pipeline.{new_state, promote_rule}
use team_harness.Promotion.Manager.Ends.{Promotes, promote_rule-Promotes}
use team_harness.Promotion.Manager.Rejected.{IsRaised, promote_rule-rejected}

-- no two texts are alike
abbrev tools : Tools
tools = record {
  findall = λ s. s ∷ [];
  split_words = λ s. s ∷ [];
  ratio = λ a b. record { num = 0; den = 1 };
  lower = λ s. s;
  strip = λ s. s;
  splitlines = λ s. s ∷ [];
  search = λ n s. false;
  sub = λ n s. s;
  show = λ n. "1";
}

abbrev services : Services
services = record {
  adapter = record {
    parse_existing_rules = λ n dir. ok [];
    write_rule = λ n dir rule. ok "rules/r1.md";
    write_hotspot_rule = λ n path rule. ok true;
  };
  clock = λ n. n;
  today = "2026-01-01";
  get_next_entry_id = λ n. ok "E001";
  archive_experience = λ n entry. ok true;
  get_next_failure_case_id = λ n. ok "TF-001";
  record_trigger_failure = λ n failure. ok true;
  check_and_promote = λ n g. (g, ok false);
  node_number = λ i. none;
  node_id_of = λ n. "R001";
}

abbrev layout : MemoryLayout
layout = record {
  project_rules_dir = "project";
  global_rules_dir = "global";
  user_profile_path = "user_profile.md";
  archive_path = "archive.md";
}

abbrev rule : RuleEntry
rule = record {
  rule_id = "r1";
  title = "quote paths";
  content = "always quote paths";
  file_path = "project/r1.md";
  category = none;
  frontmatter = [];
}

abbrev graph : GraphFile
graph = record { nodes = []; relations = []; logs = [] }

abbrev cases : List String
cases = "timeout" ∷ []

run_retest-Retested_example :
    (o : RetestOutcome) × (run_retest tools rule 7 (new_state tools services layout cases 0) ≡ ok o)
    × Retested tools rule 7 (new_state tools services layout cases 0) o
run_retest-Retested_example =
    run_retest-Retested tools rule 7 (new_state tools services layout cases 0)

promote_rule-Promotes_example :
    (p : Session) × (promote_rule tools services layout rule cases "s1" graph 0 0 ≡ some p)
    × Promotes tools services layout p
promote_rule-Promotes_example =
    promote_rule-Promotes tools services layout rule cases "s1" graph 0 0

abbrev first_result : DedupResult
first_result = record {
  verdict = no_duplicate;
  existing_rule = none;
  action = "no_duplicate";
  state = checked_state tools no_duplicate 2 (new_state tools services layout cases 0);
}

-- no case passes, and the rule is promoted
promote_rule-rejected_example :
    (p : Session) × (promote_rule tools services layout rule cases "s1" graph 0 0 ≡ some p)
    × (((p.final_status ≡ promoted) × (is_some p.archive_entry_id ≡ true))
        ⊎ IsRaised tools services layout p)
unfolding check find_failed_cases
promote_rule-rejected_example =
    promote_rule-rejected tools services layout rule cases "s1" graph 0 0 first_result refl refl
      refl

-- its entry is in the archive, its node in the graph
rejected_run :
    Option.map {B = PromotionStatus × Option String × ℕ}
      (λ (p : Session). (p.final_status, p.archive_entry_id, length p.graph.nodes))
      (promote_rule tools services layout rule cases "s1" graph 0 0)
    ≡ some (promoted, some "E001", 2)
unfolding promote_rule cascade_from get_relations replace_node log_change find_node
    update_node_status
rejected_run = refl
