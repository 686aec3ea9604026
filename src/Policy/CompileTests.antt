-- ===== src/Policy/CompileTests.antt =====
-- A policy set of one rule that is compiled, put in a snapshot and evaluated.
use ai_software_engineering.Prelude.{
  String, ◌≡◌, refl, true, false, ◌||◌, none, some, List, [], ◌∷◌, any, all, ok, err,
}
use ai_software_engineering.Contracts.Json.{
  Json, bool, str, arr, obj, Fields, end, field, natural, items, elements, texts, object, get_field,
}
use ai_software_engineering.Contracts.Canonical.{canonical_json, canonical_json_sha256}
use ai_software_engineering.Policy.Data.{
  r1, internal, local, eq, Condition, leaf, not_of, allow_rule, release, CompiledPolicySet,
  invalid_policy_set,
}
use ai_software_engineering.Policy.Condition.{
  strip_prefix, leaf_result, operand_result, evaluate_condition,
}
use ai_software_engineering.Policy.Merge.{merge_from}
use ai_software_engineering.Policy.Patterns.{
  uuid_v7, semver, stable_code, rule_id_pattern, constant_name, is_rfc3339_date_time,
}
use ai_software_engineering.Policy.Values.{
  failure, keys, distinct, assert_policy_json, required_string, exact_keys, sorted_unique_strings,
}
use ai_software_engineering.Policy.Evaluate.{decision, decide_matched, decide_policy}
use ai_software_engineering.Policy.Decision.{is_allowed}
use ai_software_engineering.Policy.CompileCondition.{leaf_operator, compile_condition}
use ai_software_engineering.Policy.CompileRule.{
  compile_requirements, rule_head, rule_members, compile_rule,
}
use ai_software_engineering.Policy.CompileSet.{
  rule_json, policy_set_json, hash_policy_value, compile_rules, sort_rules, sort_fields, enumerated,
  check_names, set_head, set_members, Compiled, compile_policy_set,
}
use ai_software_engineering.Policy.WellFormed.{IsWellFormed, compile_condition-IsWellFormed}
use ai_software_engineering.Policy.CompiledSet.{IsCompiledSet, compile_policy_set-IsCompiledSet}
use ai_software_engineering.Policy.Evaluation.{
  EvaluationInput, validate_input, validate_snapshot, create_decision, decide_snapshot,
  decide_values, evaluate_policy, SnapshotMetadata, snapshot_fields, create_policy_snapshot,
}
use ai_software_engineering.Policy.Authorised.{IsAuthorised, evaluate_policy_sound}
use ai_software_engineering.Policy.References.{compiled_leaf_has_value}
use ai_software_engineering.Samples.{digest, sample_runtime}

abbrev sample_id : String
sample_id = "01890000-0000-7000-8000-000000000001"

uuid_v7_accepts : uuid_v7 sample_id ≡ true
unfolding uuid_v7
uuid_v7_accepts = refl

semver_accepts : all semver ("1.0.0" ∷ "0.10.2-rc.1+build-7" ∷ []) ≡ true
unfolding semver
semver_accepts = refl

semver_refuses : any semver ("1.0" ∷ "01.0.0" ∷ "1.0.0-" ∷ "1.0.0+a+b" ∷ []) ≡ false
unfolding semver
semver_refuses = refl

rfc3339_accepts :
    all is_rfc3339_date_time
      ("2026-01-01T00:00:00.000Z" ∷ "2024-02-29t23:59:60+23:59" ∷ "2000-02-29T00:00:00z" ∷ [])
    ≡ true
unfolding is_rfc3339_date_time
rfc3339_accepts = refl

rfc3339_refuses :
    any is_rfc3339_date_time (
      "2026-02-29T00:00:00Z" ∷ "1900-02-29T00:00:00Z" ∷ "2026-01-01T24:00:00Z"
      ∷ "2026-01-01T00:00:00" ∷ "2026-01-01T00:00:00.Z" ∷ [])
    ≡ false
unfolding is_rfc3339_date_time
rfc3339_refuses = refl

codes_refused :
    any stable_code ("READ_" ∷ "1READ" ∷ "READ__X" ∷ [])
      || any rule_id_pattern ("-a" ∷ "a--b" ∷ "A" ∷ [])
    ≡ false
unfolding stable_code rule_id_pattern
codes_refused = refl

abbrev condition_value : Json
condition_value = object (
    ("operator", some (str "not"))
    ∷ (
      "condition",
      some (
          object (
            ("operator", some (str "eq"))
            ∷ ("reference", some (str "constant.BLOCKED"))
            ∷ ("operand", some (bool true))
            ∷ [])),
    )
    ∷ [])

abbrev sample_condition : Condition
sample_condition = not_of (leaf eq "constant.BLOCKED" (some (bool true)))

abbrev sample_constants : Fields
sample_constants = field "BLOCKED" (bool false) end

abbrev rule_value : Json
rule_value = object (
    ("schemaVersion", some (str "1.0.0"))
    ∷ ("ruleId", some (str "allow-read"))
    ∷ ("domain", some (str "workspace"))
    ∷ ("subjectSelector", some (object (("subjectTypes", some (texts ("AGENT" ∷ []))) ∷ [])))
    ∷ ("action", some (str "read"))
    ∷ ("resourceSelector", some (object (("resourceTypes", some (texts ("FILE" ∷ []))) ∷ [])))
    ∷ ("when", some condition_value)
    ∷ ("ruleEffect", some (str "ALLOW"))
    ∷ ("requirements", some (object (("timeoutMs", some (natural 5000)) ∷ [])))
    ∷ ("reasonCode", some (str "READ_ALLOWED"))
    ∷ ("metadata", some (object []))
    ∷ [])

abbrev set_value : List Json → Json
set_value rules = object (
    ("schemaVersion", some (str "1.0.0"))
    ∷ ("policySetId", some (str sample_id))
    ∷ ("version", some (str "1.0.0"))
    ∷ ("description", some (str "a sample"))
    ∷ ("source", some (object (("kind", some (str "RELEASE")) ∷ ("ref", some (str "sample")) ∷ [])))
    ∷ ("defaultOutcome", some (str "DENY"))
    ∷ ("constants", some (obj sample_constants))
    ∷ ("rules", some (arr (items rules)))
    ∷ [])

abbrev sample_set : CompiledPolicySet
sample_set = record {
  policy_set_id = sample_id;
  version = "1.0.0";
  description = "a sample";
  source_kind = release;
  source_ref = "sample";
  constants = sample_constants;
  rules =
      record {
        rule_id = "allow-read";
        domain = "workspace";
        subject_types = "AGENT" ∷ [];
        action = "read";
        resource_types = "FILE" ∷ [];
        when = sample_condition;
        rule_effect = allow_rule;
        requirements = record {
          required_scopes = none;
          minimum_isolation_level = none;
          timeout_ms = some 5000;
          max_concurrency = none;
          post_verification_required = none;
        };
        reason_code = "READ_ALLOWED";
        metadata = end;
      }
      ∷ [];
}

abbrev sample_compiled : Compiled
sample_compiled = record {
  policy_set = sample_set;
  canonical = canonical_json sample_runtime (policy_set_json sample_set);
  sha256 = digest;
}

sample_condition_compiles :
    compile_condition sample_runtime 5 sample_constants (some condition_value) "$"
    ≡ ok sample_condition
unfolding compile_condition object get_field exact_keys required_string leaf_operator
sample_condition_compiles = refl

sample_compiles :
    compile_policy_set sample_runtime (some (set_value (rule_value ∷ []))) ≡ ok sample_compiled
unfolding compile_policy_set object items texts assert_policy_json exact_keys get_field
    required_string sorted_unique_strings policy_set_json set_head set_members compile_rule
    compile_rules sort_rules canonical_json_sha256 enumerated keys rule_id_pattern stable_code
    distinct elements compile_requirements compile_condition rule_head rule_members uuid_v7 semver
    constant_name leaf_operator check_names sort_fields
sample_compiles = refl

duplicates_refused :
    compile_policy_set sample_runtime (some (set_value (rule_value ∷ rule_value ∷ [])))
    ≡ err (failure invalid_policy_set "$/rules" "Duplicate ruleId")
unfolding compile_policy_set object items texts assert_policy_json exact_keys get_field
    required_string sorted_unique_strings policy_set_json set_head set_members compile_rule
    compile_rules sort_rules canonical_json_sha256 enumerated keys rule_id_pattern stable_code
    distinct elements compile_requirements compile_condition rule_head rule_members uuid_v7 semver
    constant_name leaf_operator check_names sort_fields
duplicates_refused = refl

compile_condition-IsWellFormed_example : IsWellFormed sample_constants 5 sample_condition
compile_condition-IsWellFormed_example =
    compile_condition-IsWellFormed sample_runtime 5 sample_constants (some condition_value) "$"
      sample_condition sample_condition_compiles

compile_policy_set-IsCompiledSet_example :
    IsCompiledSet sample_set
    × (digest ≡ canonical_json_sha256 sample_runtime (policy_set_json sample_set))
compile_policy_set-IsCompiledSet_example =
    compile_policy_set-IsCompiledSet sample_runtime (some (set_value (rule_value ∷ [])))
      sample_compiles

abbrev sample_metadata : SnapshotMetadata
sample_metadata = record {
  snapshot_id = sample_id;
  compiler_version = "0.1.0";
  created_at = "2026-01-01T00:00:00Z";
}

abbrev sample_evaluation : EvaluationInput
sample_evaluation = record {
  evaluation_id = sample_id;
  captured_at = "2026-01-01T00:00:00Z";
  policy_snapshot_id = sample_id;
  input = record {
    domain = "workspace";
    subject_type = "AGENT";
    action = "read";
    resource_type = "FILE";
    risk_class = r1;
    data_classification = internal;
    direction = local;
    authority_mutation = false;
    control_verified = false;
    permission_scopes = [];
    capability_ids = [];
  };
}

sample_created :
    create_policy_snapshot sample_runtime sample_set sample_metadata
    ≡ ok (snapshot_fields sample_set sample_metadata digest)
unfolding create_policy_snapshot hash_policy_value assert_policy_json policy_set_json
    canonical_json_sha256 uuid_v7 semver is_rfc3339_date_time object items texts rule_json
sample_created = refl

abbrev blocked : Condition
blocked = leaf eq "constant.BLOCKED" (some (bool true))

compiled_leaf_has_value_example :
    (v : Json) × (evaluate_condition sample_runtime sample_evaluation.input sample_constants blocked
      ≡ operand_result sample_runtime eq v (some (bool true)))
compiled_leaf_has_value_example =
    compiled_leaf_has_value sample_runtime sample_evaluation.input sample_constants 4 eq
      "constant.BLOCKED" (some (bool true)) compile_condition-IsWellFormed_example

abbrev input_value : Json
input_value = object (
    ("schemaVersion", some (str "1.0.0"))
    ∷ ("evaluationId", some (str sample_id))
    ∷ ("capturedAt", some (str "2026-01-01T00:00:00Z"))
    ∷ ("policySnapshotId", some (str sample_id))
    ∷ ("domain", some (str "workspace"))
    ∷ ("subjectType", some (str "AGENT"))
    ∷ ("action", some (str "read"))
    ∷ ("resourceType", some (str "FILE"))
    ∷ ("riskClass", some (str "R1"))
    ∷ ("dataClassification", some (str "INTERNAL"))
    ∷ ("direction", some (str "LOCAL"))
    ∷ ("authorityMutation", some (bool false))
    ∷ ("controlVerified", some (bool false))
    ∷ ("permissionScopes", some (texts []))
    ∷ ("capabilityIds", some (texts []))
    ∷ [])

abbrev snapshot_value : Json
snapshot_value = object (
    ("schemaVersion", some (str "1.0.0"))
    ∷ ("snapshotId", some (str sample_id))
    ∷ ("policySetId", some (str sample_id))
    ∷ ("policyVersion", some (str "1.0.0"))
    ∷ ("policyHash", some (str digest))
    ∷ ("compiledPolicySet", some (set_value (rule_value ∷ [])))
    ∷ ("compilerVersion", some (str "0.1.0"))
    ∷ ("createdAt", some (str "2026-01-01T00:00:00Z"))
    ∷ [])

evaluation_allows :
    is_allowed
      (evaluate_policy sample_runtime (some snapshot_value) (some input_value)).decided.outcome
    ≡ true
unfolding evaluate_policy decide_values decide_snapshot validate_input validate_snapshot
    compile_policy_set object items texts assert_policy_json exact_keys get_field required_string
    sorted_unique_strings policy_set_json set_head set_members compile_rule compile_rules sort_rules
    canonical_json_sha256 enumerated keys rule_id_pattern stable_code distinct elements
    compile_requirements compile_condition rule_head rule_members uuid_v7 semver constant_name
    leaf_operator check_names sort_fields decide_policy create_decision decision leaf_result
    evaluate_condition operand_result strip_prefix decide_matched merge_from
evaluation_allows = refl

evaluate_policy_sound_example : IsAuthorised sample_runtime (some snapshot_value) (some input_value)
evaluate_policy_sound_example =
    evaluate_policy_sound sample_runtime (some snapshot_value) (some input_value) evaluation_allows
