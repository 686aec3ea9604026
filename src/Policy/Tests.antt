-- ===== src/Policy/Tests.antt =====
-- A policy of two rules, and what it decides.
use ai_software_engineering.Prelude.{
  ◌≡◌, refl, true, false, not, ◌&&◌, none, some, List, [], ◌∷◌, any, All,
}
use ai_software_engineering.Contracts.Json.{str, end, get_field}
use ai_software_engineering.Policy.Data.{
  r1, internal, local, process_restricted, os_sandboxed, PolicyInput, Requirements, exists,
  starts_with, leaf, not_of, allow_rule, deny_rule, PolicyRule,
}
use ai_software_engineering.Policy.Condition.{
  referenced_value, strip_prefix, leaf_result, operand_result, evaluate_condition, evaluate_all,
}
use ai_software_engineering.Policy.Merge.{
  Merging, merge_isolation, merge_least, add_scopes, merge_from,
}
use ai_software_engineering.Policy.Evaluate.{
  hard_invariant_violations, indeterminate, is_deny, decision, match_rules, decide_matched,
  decide_policy,
}
use ai_software_engineering.Policy.Decision.{is_allowed, matches, undecided, decide_policy_sound}
use ai_software_engineering.Policy.Strictest.{IsMet, merge_strictest}
use ai_software_engineering.Samples.{sample_runtime}

abbrev ten_seconds : Requirements
ten_seconds = record {
  required_scopes = some ("files.read" ∷ []);
  minimum_isolation_level = some process_restricted;
  timeout_ms = some 10000;
  max_concurrency = none;
  post_verification_required = none;
}

abbrev sandboxed : Requirements
sandboxed = record ten_seconds {
  minimum_isolation_level = some os_sandboxed;
  timeout_ms = some 5000;
}

abbrev read_rule : PolicyRule
read_rule = record {
  rule_id = "allow-read";
  domain = "workspace";
  subject_types = "AGENT" ∷ [];
  action = "read";
  resource_types = "FILE" ∷ [];
  when = not_of (leaf exists "constant.BLOCKED" none);
  rule_effect = allow_rule;
  requirements = ten_seconds;
  reason_code = "READ_ALLOWED";
  metadata = end;
}

abbrev sample_rules : List PolicyRule
sample_rules =
    record read_rule { when = leaf starts_with "input.subjectType" (some (str "AG")) }
    ∷ record read_rule { rule_id = "deny-write"; action = "write"; rule_effect = deny_rule }
    ∷ []

abbrev sample_input : PolicyInput
sample_input = record {
  domain = "workspace";
  subject_type = "AGENT";
  action = "read";
  resource_type = "FILE";
  risk_class = r1;
  data_classification = internal;
  direction = local;
  authority_mutation = false;
  control_verified = false;
  permission_scopes = [];
  capability_ids = [];
}

-- A constant that is not there makes its rule undecided, and the decision indeterminate.
missing_constant :
    (decide_policy sample_runtime end (read_rule ∷ []) sample_input).outcome ≡ indeterminate
unfolding decide_policy hard_invariant_violations match_rules decision evaluate_condition
    evaluate_all referenced_value get_field operand_result strip_prefix
missing_constant = refl

allowed : is_allowed (decide_policy sample_runtime end sample_rules sample_input).outcome ≡ true
unfolding decide_policy hard_invariant_violations match_rules decision evaluate_condition
    evaluate_all referenced_value get_field operand_result leaf_result strip_prefix decide_matched
    merge_from merge_isolation merge_least add_scopes
allowed = refl

decide_policy_sound_example :
    (hard_invariant_violations sample_input ≡ [])
    × (any
          (undecided (λ r. evaluate_condition sample_runtime sample_input end r.when) sample_input)
          sample_rules
        ≡ false)
    × (any
          (λ r.
            matches (λ r. evaluate_condition sample_runtime sample_input end r.when) sample_input r
            && is_deny r)
          sample_rules
        ≡ false)
    × (any
          (λ r.
            matches (λ r. evaluate_condition sample_runtime sample_input end r.when) sample_input r
            && not (is_deny r))
          sample_rules
        ≡ true)
decide_policy_sound_example =
    decide_policy_sound sample_runtime end sample_rules sample_input allowed

abbrev strict : Merging
strict = record {
  scopes = "files.read" ∷ [];
  isolation = some os_sandboxed;
  timeout = some 5000;
  concurrency = none;
  verification = false;
}

merge_strictest_example : All (IsMet strict) (ten_seconds ∷ sandboxed ∷ [])
unfolding merge_from merge_isolation merge_least add_scopes
merge_strictest_example = merge_strictest (ten_seconds ∷ sandboxed ∷ []) strict refl
