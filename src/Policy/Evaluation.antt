-- ===== src/Policy/Evaluation.antt =====
-- packages/policy/src/index.ts: `evaluatePolicy` from the untyped snapshot and input that it is called
-- with, and `createPolicySnapshot`. A test that fails says nothing but that: its error is `tt`.
use ai_software_engineering.Prelude.{
  String, Bool, true, false, not, ◌&&◌, ◌||◌, Option, none, some, [], ◌∷◌, if◌then◌else◌, Result,
  ok, err, ◌>>=◌, ◌>>◌, throw_if, require,
}
use ai_software_engineering.Contracts.Json.{
  Json, bool, str, obj, Fields, end, fields, object, get_field,
}
use ai_software_engineering.Contracts.Canonical.{Runtime, canonical_json_sha256}
use ai_software_engineering.Policy.Data.{
  RiskClass, r0, r1, r2, r3, r4, DataClassification, public_data, internal, confidential, secret,
  Direction, local, inbound, outbound, PolicyInput, CompiledPolicySet, invalid_policy_value,
  invalid_policy_set, PolicyFailure,
}
use ai_software_engineering.Policy.Patterns.{uuid_v7, sha256_text, semver, is_rfc3339_date_time}
use ai_software_engineering.Policy.Values.{
  failure, as_record, as_text, is_text, is_bounded, has_exact_keys, assert_policy_json,
  unique_bounded_strings,
}
use ai_software_engineering.Policy.CompileSet.{
  policy_set_json, hash_policy_value, compile_policy_set,
}
use ai_software_engineering.Policy.Evaluate.{indeterminate, PolicyDecision, decision, decide_policy}

-- A `PolicyEvaluationInput`: the part that a decision reads, and the identities.
pub record EvaluationInput : Type 0 where
  pub evaluation_id : String
  pub captured_at : String
  pub policy_snapshot_id : String
  pub input : PolicyInput

abbrev pub Test : Type 0 → Type 0
Test A = Result (Unit {0}) A

-- A member that is a text which passes a test.
unfoldable pub read_text : (String → Bool) → String → Fields → Test String
read_text p key fs = elim (as_text (get_field key fs)) [
  | none ↦ err tt
  | some s ↦ if p s then ok s else err tt
]

abbrev read_bool : String → Fields → Test Bool
read_bool key fs = elim (get_field key fs) [ some (bool b) ↦ ok b | _ ↦ err tt ]

abbrev risk_class_of : Option Json → Option RiskClass
risk_class_of v =
    if is_text v "R0"
    then some r0
    else if is_text v "R1"
    then some r1
    else if is_text v "R2"
    then some r2
    else if is_text v "R3"
    then some r3
    else if is_text v "R4"
    then some r4
    else none

abbrev classification_of : Option Json → Option DataClassification
classification_of v =
    if is_text v "PUBLIC"
    then some public_data
    else if is_text v "INTERNAL"
    then some internal
    else if is_text v "CONFIDENTIAL"
    then some confidential
    else if is_text v "SECRET"
    then some secret
    else none

abbrev direction_of : Option Json → Option Direction
direction_of v =
    if is_text v "LOCAL"
    then some local
    else if is_text v "INBOUND"
    then some inbound
    else if is_text v "OUTBOUND"
    then some outbound
    else none

-- `validateInput`, on an object, with the typed input.
unfoldable pub validate_input : Fields → Test EvaluationInput
unfolding has_exact_keys read_text unique_bounded_strings is_rfc3339_date_time uuid_v7
validate_input fs = do
  throw_if
      (not (
        has_exact_keys fs (
          "schemaVersion" ∷ "evaluationId" ∷ "capturedAt" ∷ "policySnapshotId" ∷ "domain"
          ∷ "subjectType" ∷ "action" ∷ "resourceType" ∷ "riskClass" ∷ "dataClassification"
          ∷ "direction" ∷ "authorityMutation" ∷ "controlVerified" ∷ "permissionScopes"
          ∷ "capabilityIds" ∷ [])))
      tt
  throw_if (not (is_text (get_field "schemaVersion" fs) "1.0.0")) tt
  evaluation_id ← read_text uuid_v7 "evaluationId" fs
  captured_at ← read_text is_rfc3339_date_time "capturedAt" fs
  policy_snapshot_id ← read_text uuid_v7 "policySnapshotId" fs
  domain ← read_text (is_bounded 1 64) "domain" fs
  subject_type ← read_text (is_bounded 1 128) "subjectType" fs
  action ← read_text (is_bounded 1 128) "action" fs
  resource_type ← read_text (is_bounded 1 128) "resourceType" fs
  risk_class ← require (risk_class_of (get_field "riskClass" fs)) tt
  data_classification ← require (classification_of (get_field "dataClassification" fs)) tt
  direction ← require (direction_of (get_field "direction" fs)) tt
  authority_mutation ← read_bool "authorityMutation" fs
  control_verified ← read_bool "controlVerified" fs
  permission_scopes ← require (unique_bounded_strings 256 (get_field "permissionScopes" fs)) tt
  capability_ids ← require (unique_bounded_strings 256 (get_field "capabilityIds" fs)) tt
  ok (record {
    evaluation_id = evaluation_id;
    captured_at = captured_at;
    policy_snapshot_id = policy_snapshot_id;
    input = record {
      domain = domain;
      subject_type = subject_type;
      action = action;
      resource_type = resource_type;
      risk_class = risk_class;
      data_classification = data_classification;
      direction = direction;
      authority_mutation = authority_mutation;
      control_verified = control_verified;
      permission_scopes = permission_scopes;
      capability_ids = capability_ids;
    };
  })

abbrev has_text : (String → Bool) → String → Fields → Bool
has_text p key fs = elim (as_text (get_field key fs)) [ none ↦ false | some s ↦ p s ]

-- The tests of `validateSnapshot` on the members alone, and those that compare them.
unfoldable pub is_snapshot_shaped : Fields → Bool
unfolding has_exact_keys is_rfc3339_date_time uuid_v7 semver sha256_text
is_snapshot_shaped fs =
    has_exact_keys fs (
      "schemaVersion" ∷ "snapshotId" ∷ "policySetId" ∷ "policyVersion" ∷ "policyHash"
      ∷ "compiledPolicySet" ∷ "compilerVersion" ∷ "createdAt" ∷ [])
    && is_text (get_field "schemaVersion" fs) "1.0.0"
    && has_text uuid_v7 "snapshotId" fs
    && has_text uuid_v7 "policySetId" fs
    && has_text semver "policyVersion" fs
    && has_text sha256_text "policyHash" fs
    && has_text semver "compilerVersion" fs
    && has_text is_rfc3339_date_time "createdAt" fs

unfoldable pub is_snapshot_of : Fields → EvaluationInput → CompiledPolicySet → String → Bool
is_snapshot_of fs input policy_set hash =
    is_text (get_field "snapshotId" fs) input.policy_snapshot_id
    && is_text (get_field "policySetId" fs) policy_set.policy_set_id
    && is_text (get_field "policyVersion" fs) policy_set.version
    && is_text (get_field "policyHash" fs) hash

-- `validateSnapshot`, on an object: its tests, all of which must hold.
unfoldable pub validate_snapshot : Fields → EvaluationInput → CompiledPolicySet → String → Bool
unfolding is_snapshot_shaped is_snapshot_of
validate_snapshot fs input policy_set hash =
    is_snapshot_shaped fs && is_snapshot_of fs input policy_set hash

-- A decision with what `createDecision` copies from the snapshot and the input, where that is valid.
pub record Evaluation : Type 0 where
  pub decision_id : String
  pub policy_snapshot_id : String
  pub policy_snapshot_hash : String
  pub input_hash : String
  pub evaluated_at : String
  pub decided : PolicyDecision

abbrev text_or : (String → Bool) → String → String → Fields → String
text_or p default key fs = elim (as_text (get_field key fs)) [
  | none ↦ default
  | some s ↦ if p s then s else default
]

-- `createDecision`, given the decision.
unfoldable pub create_decision : Fields → Fields → String → PolicyDecision → Evaluation
unfolding uuid_v7 sha256_text is_rfc3339_date_time
create_decision snapshot input input_hash decided = record {
  decision_id = text_or uuid_v7 "00000000-0000-7000-8000-000000000000" "evaluationId" input;
  policy_snapshot_id = text_or uuid_v7 "00000000-0000-7000-8000-000000000000" "snapshotId" snapshot;
  policy_snapshot_hash =
      text_or sha256_text "0000000000000000000000000000000000000000000000000000000000000000"
        "policyHash" snapshot;
  input_hash = input_hash;
  evaluated_at = text_or is_rfc3339_date_time "1970-01-01T00:00:00.000Z" "capturedAt" input;
  decided = decided;
}

-- The two values, if both are JSON values with safe keys.
abbrev pub asserted : Runtime → Option Json → Option Json → Result PolicyFailure (Json × Json)
asserted runtime snapshot_value input_value = do
  s ←
      require snapshot_value
        (failure invalid_policy_value "$/snapshot" "Value is not I-JSON compatible")
  assert_policy_json runtime s "$/snapshot"
  i ← require input_value (failure invalid_policy_value "$/input" "Value is not I-JSON compatible")
  assert_policy_json runtime i "$/input"
  ok (s, i)

abbrev or_end : Option Fields → Fields
or_end none = end
or_end (some fs) = fs

abbrev rejected : String → PolicyDecision
rejected reason = decision indeterminate [] [] none (reason ∷ [])

-- The decision of `evaluatePolicy` on a snapshot that is an object and a valid input.
unfoldable pub decide_snapshot : Runtime → Fields → EvaluationInput → PolicyDecision
unfolding decide_policy decision validate_snapshot
decide_snapshot runtime snapshot input =
    elim (compile_policy_set runtime (get_field "compiledPolicySet" snapshot)) [
      | err diagnostic ↦ rejected "INVALID_POLICY_SNAPSHOT"
      | ok compiled ↦
          if validate_snapshot snapshot input compiled.policy_set compiled.sha256
          then decide_policy runtime compiled.policy_set.constants compiled.policy_set.rules
              input.input
          else rejected "INVALID_POLICY_SNAPSHOT"
    ]

-- The decision on JSON values.
unfoldable pub decide_values : Runtime → Json → Json → PolicyDecision
unfolding decide_snapshot decision
decide_values runtime (obj snapshot) (obj input) = elim (validate_input input) [
  | err no_input ↦ rejected "INVALID_EVALUATION_INPUT"
  | ok valid ↦ decide_snapshot runtime snapshot valid
]
decide_values runtime _ _ = rejected "INVALID_EVALUATION_INPUT"

-- `evaluatePolicy`; `none` is `undefined`.
unfoldable pub evaluate_policy : Runtime → Option Json → Option Json → Evaluation
unfolding create_decision decide_values decision object
evaluate_policy runtime snapshot_value input_value =
    elim (asserted runtime snapshot_value input_value) [
      | err thrown ↦
          create_decision end end
            (canonical_json_sha256 runtime (object (("invalidInput", some (bool true)) ∷ [])))
            (rejected "INVALID_EVALUATION_VALUE")
      | ok (s, i) ↦
          create_decision (or_end (as_record (some s))) (or_end (as_record (some i)))
            (canonical_json_sha256 runtime i) (decide_values runtime s i)
    ]

-- `PolicySnapshotMetadata`
pub record SnapshotMetadata : Type 0 where
  pub snapshot_id : String
  pub compiler_version : String
  pub created_at : String

unfoldable pub snapshot_fields : CompiledPolicySet → SnapshotMetadata → String → Fields
unfolding fields
snapshot_fields policy metadata hash = fields (
    ("schemaVersion", some (str "1.0.0"))
    ∷ ("snapshotId", some (str metadata.snapshot_id))
    ∷ ("policySetId", some (str policy.policy_set_id))
    ∷ ("policyVersion", some (str policy.version))
    ∷ ("policyHash", some (str hash))
    ∷ ("compiledPolicySet", some (policy_set_json policy))
    ∷ ("compilerVersion", some (str metadata.compiler_version))
    ∷ ("createdAt", some (str metadata.created_at))
    ∷ [])

-- `createPolicySnapshot`: the fields of the snapshot.
unfoldable pub create_policy_snapshot :
    Runtime → CompiledPolicySet → SnapshotMetadata → Result PolicyFailure Fields
unfolding hash_policy_value snapshot_fields
create_policy_snapshot runtime policy metadata = do
  throw_if
      (not (uuid_v7 metadata.snapshot_id)
        || not (semver metadata.compiler_version)
        || not (is_rfc3339_date_time metadata.created_at))
      (failure invalid_policy_set "$/snapshot" "Invalid snapshot metadata")
  hash ← hash_policy_value runtime (policy_set_json policy)
  ok (snapshot_fields policy metadata hash)
