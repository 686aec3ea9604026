-- ===== src/Policy/CompileRule.antt =====
-- packages/policy/src/index.ts: `compileRequirements` and `compileRule`.
use ai_software_engineering.Prelude.{
  ℕ, String, Bool, not, ◌&&◌, Option, none, some, [], ◌∷◌, leb, nat_eq, ◌==◌, if◌then◌else◌,
  is_safe_integer, Result, ok, err, ◌>>=◌, ◌>>◌, throw_if, require,
}
use ai_software_engineering.Contracts.Json.{Json, bool, num, str, Fields, get_field}
use ai_software_engineering.Contracts.Canonical.{Runtime}
use ai_software_engineering.Policy.Data.{
  IsolationLevel, process_restricted, os_sandboxed, container_isolated, remote_isolated,
  Requirements, RuleEffect, allow_rule, deny_rule, PolicyRule, invalid_policy_rule,
  invalid_requirements, PolicyFailure,
}
use ai_software_engineering.Policy.CompileCondition.{compile_condition}
use ai_software_engineering.Policy.Patterns.{stable_code, rule_id_pattern}
use ai_software_engineering.Policy.Values.{
  failure, below, as_record, is_text, index_text, required_string, any_text, exact_keys,
  sorted_unique_strings,
}

-- A member that may be left out.
abbrev optional :
    {A : Type 0} → Option Json → (Json → Result PolicyFailure A) → Result PolicyFailure (Option A)
optional none read = ok none
optional (some v) read = read v >>= λ a. ok (some a)

abbrev pub isolation_level : String → Option IsolationLevel
isolation_level s =
    if s == "PROCESS_RESTRICTED"
    then some process_restricted
    else if s == "OS_SANDBOXED"
    then some os_sandboxed
    else if s == "CONTAINER_ISOLATED"
    then some container_isolated
    else if s == "REMOTE_ISOLATED"
    then some remote_isolated
    else none

abbrev read_isolation : String → Json → Result PolicyFailure IsolationLevel
read_isolation path (str s) =
    require (isolation_level s)
      (failure invalid_requirements (below path "minimumIsolationLevel") "Unknown isolation level")
read_isolation path _ =
    err
      (failure invalid_requirements (below path "minimumIsolationLevel") "Unknown isolation level")

-- `Number.isSafeInteger(value) && value >= 1`
unfoldable pub positive_integer : Json → Option ℕ
positive_integer (num n) =
    if not n.negative && nat_eq n.exponent 0 && leb 1 n.mantissa && is_safe_integer n.mantissa
    then some n.mantissa
    else none
positive_integer _ = none

abbrev read_positive : String → Json → Result PolicyFailure ℕ
read_positive path v =
    require (positive_integer v) (failure invalid_requirements path "Expected positive integer")

abbrev read_boolean : String → Json → Result PolicyFailure Bool
read_boolean path (bool b) = ok b
read_boolean path _ = err (failure invalid_requirements path "Expected boolean")

-- `compileRequirements`
unfoldable pub compile_requirements : Option Json → String → Result PolicyFailure Requirements
unfolding positive_integer
compile_requirements value path = do
  fs ←
      require (as_record value) (failure invalid_requirements path "Requirements must be an object")
  exact_keys fs
      ("permissionScopes" ∷ "minimumIsolationLevel" ∷ "timeoutMs" ∷ "maxConcurrency"
        ∷ "postVerificationRequired" ∷ [])
      path
  scopes ←
      optional (get_field "permissionScopes" fs)
        (λ v. sorted_unique_strings (some v) (below path "permissionScopes"))
  isolation ← optional (get_field "minimumIsolationLevel" fs) (read_isolation path)
  timeout ← optional (get_field "timeoutMs" fs) (read_positive (below path "timeoutMs"))
  concurrency ←
      optional (get_field "maxConcurrency" fs) (read_positive (below path "maxConcurrency"))
  verification ←
      optional (get_field "postVerificationRequired" fs)
        (read_boolean (below path "postVerificationRequired"))
  ok (record {
    required_scopes = scopes;
    minimum_isolation_level = isolation;
    timeout_ms = timeout;
    max_concurrency = concurrency;
    post_verification_required = verification;
  })

abbrev read_effect : Option Json → Option RuleEffect
read_effect value =
    if is_text value "ALLOW"
    then some allow_rule
    else if is_text value "DENY"
    then some deny_rule
    else none

abbrev selectors : Fields → Option (Fields × Fields)
selectors fs = elim (as_record (get_field "subjectSelector" fs)) [
  | none ↦ none
  | some subject ↦ elim (as_record (get_field "resourceSelector" fs)) [
    | none ↦ none
    | some resource ↦ some (subject, resource)
  ]
]

-- What `compileRule` checks first: the subject, the resource, the effect and the metadata.
unfoldable pub rule_head :
    Fields → String → Result PolicyFailure (Fields × Fields × RuleEffect × Fields)
rule_head fs path = do
  exact_keys fs
      ("schemaVersion" ∷ "ruleId" ∷ "domain" ∷ "subjectSelector" ∷ "action" ∷ "resourceSelector"
        ∷ "when" ∷ "ruleEffect" ∷ "requirements" ∷ "reasonCode" ∷ "metadata" ∷ [])
      path
  throw_if (not (is_text (get_field "schemaVersion" fs) "1.0.0"))
      (failure invalid_policy_rule (below path "schemaVersion") "Unsupported version")
  (subject, resource) ←
      require (selectors fs) (failure invalid_policy_rule path "Selectors must be objects")
  exact_keys subject ("subjectTypes" ∷ []) (below path "subjectSelector")
  exact_keys resource ("resourceTypes" ∷ []) (below path "resourceSelector")
  effect ←
      require (read_effect (get_field "ruleEffect" fs))
        (failure invalid_policy_rule (below path "ruleEffect") "Unknown rule effect")
  metadata ←
      require (as_record (get_field "metadata" fs))
        (failure invalid_policy_rule (below path "metadata") "Metadata must be an object")
  ok (subject, resource, effect, metadata)

-- The rest of `compileRule`: the members in the order of the object literal.
unfoldable pub rule_members :
    Runtime
    → Fields
    → Fields
    → String
    → Fields × Fields × RuleEffect × Fields
    → Result PolicyFailure PolicyRule
unfolding compile_condition compile_requirements
rule_members runtime constants fs path (subject, resource, effect, metadata) = do
  rule_id ← required_string fs "ruleId" path rule_id_pattern (some 128) 1
  domain ← required_string fs "domain" path any_text (some 64) 1
  subject_types ←
      sorted_unique_strings (get_field "subjectTypes" subject)
        (below path "subjectSelector/subjectTypes")
  action ← required_string fs "action" path any_text (some 128) 1
  resource_types ←
      sorted_unique_strings (get_field "resourceTypes" resource)
        (below path "resourceSelector/resourceTypes")
  when ← compile_condition runtime 5 constants (get_field "when" fs) (below path "when")
  requirements ← compile_requirements (get_field "requirements" fs) (below path "requirements")
  reason_code ← required_string fs "reasonCode" path stable_code (some 128) 3
  ok (record {
    rule_id = rule_id;
    domain = domain;
    subject_types = subject_types;
    action = action;
    resource_types = resource_types;
    when = when;
    rule_effect = effect;
    requirements = requirements;
    reason_code = reason_code;
    metadata = metadata;
  })

-- `compileRule`
unfoldable pub compile_rule : Runtime → Fields → Json → ℕ → Result PolicyFailure PolicyRule
unfolding index_text rule_head rule_members
compile_rule runtime constants value index = do
  let path = below "$/rules" (index_text runtime index)
  fs ← require (as_record (some value)) (failure invalid_policy_rule path "Rule must be an object")
  head ← rule_head fs path
  rule_members runtime constants fs path head
