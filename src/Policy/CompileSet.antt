-- ===== src/Policy/CompileSet.antt =====
-- packages/policy/src/index.ts: `compilePolicySet`, and the JSON value of a compiled policy set, which
-- its hash is taken of.
use mathlib.Core.Option.{map as map_option}
use ai_software_engineering.Prelude.{
  ℕ, ◌+◌, String, true, false, not, ◌||◌, Option, none, some, List, [], ◌∷◌, ◌++◌, map, ltb, leb,
  if◌then◌else◌, length, Result, ok, err, ◌>>=◌, ◌>>◌, throw_if, require, text_length, text_lt,
}
use ai_software_engineering.Contracts.Json.{
  Json, bool, str, arr, obj, Items, nil, cons, Fields, end, field, natural, items, elements, texts,
  object, get_field,
}
use ai_software_engineering.Contracts.Canonical.{Runtime, canonical_json, canonical_json_sha256}
use ai_software_engineering.Policy.Data.{
  IsolationLevel, process_restricted, os_sandboxed, container_isolated, remote_isolated,
  Requirements, Operator, eq, not_eq, is_in, contains, lt, lte, gt, gte, exists, starts_with,
  set_subset, set_intersects, Condition, leaf, all_of, any_of, not_of, Conditions, none_left,
  and_then, RuleEffect, allow_rule, deny_rule, PolicyRule, SourceKind, release, machine, user,
  workspace, node, workflow, CompiledPolicySet, invalid_policy_value, invalid_policy_set,
  PolicyFailure,
}
use ai_software_engineering.Policy.Patterns.{uuid_v7, after_number, semver, constant_name, digits}
use ai_software_engineering.Policy.Values.{
  failure, below, as_record, is_text, keys, distinct, assert_policy_json, required_string, any_text,
  exact_keys,
}
use ai_software_engineering.Policy.CompileRule.{compile_rule}

abbrev operator_text : Operator → String
operator_text eq = "eq"
operator_text not_eq = "notEq"
operator_text is_in = "in"
operator_text contains = "contains"
operator_text lt = "lt"
operator_text lte = "lte"
operator_text gt = "gt"
operator_text gte = "gte"
operator_text exists = "exists"
operator_text starts_with = "startsWith"
operator_text set_subset = "setSubset"
operator_text set_intersects = "setIntersects"

unfoldable mutual
  unfolding object

  pub condition_json : Condition → Json
  condition_json (leaf op reference operand) = object (
      ("operator", some (str (operator_text op)))
      ∷ ("reference", some (str reference))
      ∷ ("operand", operand)
      ∷ [])
  condition_json (all_of cs) =
      object (("operator", some (str "all")) ∷ ("conditions", some (arr (conditions_json cs))) ∷ [])
  condition_json (any_of cs) =
      object (("operator", some (str "any")) ∷ ("conditions", some (arr (conditions_json cs))) ∷ [])
  condition_json (not_of c) =
      object (("operator", some (str "not")) ∷ ("condition", some (condition_json c)) ∷ [])

  pub conditions_json : Conditions → Items
  conditions_json none_left = nil
  conditions_json (and_then c cs) = cons (condition_json c) (conditions_json cs)

abbrev isolation_text : IsolationLevel → String
isolation_text process_restricted = "PROCESS_RESTRICTED"
isolation_text os_sandboxed = "OS_SANDBOXED"
isolation_text container_isolated = "CONTAINER_ISOLATED"
isolation_text remote_isolated = "REMOTE_ISOLATED"

unfoldable pub requirements_json : Requirements → Json
unfolding object texts
requirements_json r = object (
    ("permissionScopes", map_option texts r.required_scopes)
    ∷ ("minimumIsolationLevel", map_option (λ l. str (isolation_text l)) r.minimum_isolation_level)
    ∷ ("timeoutMs", map_option natural r.timeout_ms)
    ∷ ("maxConcurrency", map_option natural r.max_concurrency)
    ∷ ("postVerificationRequired", map_option bool r.post_verification_required)
    ∷ [])

abbrev effect_text : RuleEffect → String
effect_text allow_rule = "ALLOW"
effect_text deny_rule = "DENY"

unfoldable pub rule_json : PolicyRule → Json
unfolding object texts condition_json requirements_json
rule_json r = object (
    ("schemaVersion", some (str "1.0.0"))
    ∷ ("ruleId", some (str r.rule_id))
    ∷ ("domain", some (str r.domain))
    ∷ ("subjectSelector", some (object (("subjectTypes", some (texts r.subject_types)) ∷ [])))
    ∷ ("action", some (str r.action))
    ∷ ("resourceSelector", some (object (("resourceTypes", some (texts r.resource_types)) ∷ [])))
    ∷ ("when", some (condition_json r.when))
    ∷ ("ruleEffect", some (str (effect_text r.rule_effect)))
    ∷ ("requirements", some (requirements_json r.requirements))
    ∷ ("reasonCode", some (str r.reason_code))
    ∷ ("metadata", some (obj r.metadata))
    ∷ [])

abbrev source_text : SourceKind → String
source_text release = "RELEASE"
source_text machine = "MACHINE"
source_text user = "USER"
source_text workspace = "WORKSPACE"
source_text node = "NODE"
source_text workflow = "WORKFLOW"

unfoldable pub policy_set_json : CompiledPolicySet → Json
unfolding object items rule_json
policy_set_json s = object (
    ("schemaVersion", some (str "1.0.0"))
    ∷ ("policySetId", some (str s.policy_set_id))
    ∷ ("version", some (str s.version))
    ∷ ("description", some (str s.description))
    ∷ (
      "source",
      some (
          object (
            ("kind", some (str (source_text s.source_kind)))
            ∷ ("ref", some (str s.source_ref))
            ∷ [])),
    )
    ∷ ("defaultOutcome", some (str "DENY"))
    ∷ ("constants", some (obj s.constants))
    ∷ ("rules", some (arr (items (map rule_json s.rules))))
    ∷ [])

-- `canonicalizePolicyValue` and `hashPolicyValue`
unfoldable pub canonicalize_policy_value : Runtime → Json → Result PolicyFailure String
canonicalize_policy_value runtime v =
    assert_policy_json runtime v "$" >>= λ _. ok (canonical_json runtime v)

unfoldable pub hash_policy_value : Runtime → Json → Result PolicyFailure String
hash_policy_value runtime v =
    assert_policy_json runtime v "$" >>= λ _. ok (canonical_json_sha256 runtime v)

abbrev pub source_kind_of : Option Json → Option SourceKind
source_kind_of value =
    if is_text value "RELEASE"
    then some release
    else if is_text value "MACHINE"
    then some machine
    else if is_text value "USER"
    then some user
    else if is_text value "WORKSPACE"
    then some workspace
    else if is_text value "NODE"
    then some node
    else if is_text value "WORKFLOW"
    then some workflow
    else none

-- The source, the constants and the rules, if the three have the right types.
abbrev pub set_parts : Fields → Option (Fields × Fields × List Json)
set_parts fs = elim (as_record (get_field "source" fs)) [
  | none ↦ none
  | some source ↦ elim (as_record (get_field "constants" fs)) [
    | none ↦ none
    | some constants ↦ elim (get_field "rules" fs) [
      | some (arr vs) ↦
          if leb (length (elements vs)) 4096 then some (source, constants, elements vs) else none
      | _ ↦ none
    ]
  ]
]

unfoldable pub compile_rules :
    Runtime → Fields → List Json → ℕ → Result PolicyFailure (List PolicyRule)
compile_rules runtime constants [] index = ok []
compile_rules runtime constants (v ∷ vs) index = do
  first ← compile_rule runtime constants v index
  rest ← compile_rules runtime constants vs (index + 1)
  ok (first ∷ rest)

abbrev pub rule_ids : List PolicyRule → List String
rule_ids rules = map (λ (r : PolicyRule). r.rule_id) rules

-- The sorts by `compareCodeUnits`, which are stable.
unfoldable pub insert_rule : PolicyRule → List PolicyRule → List PolicyRule
insert_rule r [] = r ∷ []
insert_rule r (q ∷ qs) = if text_lt q.rule_id r.rule_id then q ∷ insert_rule r qs else r ∷ q ∷ qs

unfoldable pub sort_rules : List PolicyRule → List PolicyRule
unfolding insert_rule
sort_rules [] = []
sort_rules (r ∷ rs) = insert_rule r (sort_rules rs)

unfoldable pub insert_field : String → Json → Fields → Fields
insert_field k v end = field k v end
insert_field k v (field j u fs) =
    if text_lt j k then field j u (insert_field k v fs) else field k v (field j u fs)

unfoldable pub sort_fields : Fields → Fields
unfolding insert_field
sort_fields end = end
sort_fields (field k v fs) = insert_field k v (sort_fields fs)

-- A key that is an array index, which `Object.keys` lists before the others, by its number.
abbrev array_index : String → Option ℕ
array_index s =
    if elim (after_number s) [ some String.[] ↦ true | _ ↦ false ]
    then elim (digits (text_length s) 0 s) [
      | none ↦ none
      | some (n, rest) ↦ if ltb n 4294967295 then some n else none
    ]
    else none

unfoldable pub insert_index : ℕ → String → List (ℕ × String) → List (ℕ × String)
insert_index n k [] = (n, k) ∷ []
insert_index n k ((m, j) ∷ rest) =
    if ltb m n then (m, j) ∷ insert_index n k rest else (n, k) ∷ (m, j) ∷ rest

-- `Object.keys`: the array indices in order, and then the other keys as they were written.
unfoldable pub split_keys : List String → List (ℕ × String) × List String
unfolding insert_index after_number digits
split_keys [] = ([], [])
split_keys (k ∷ ks) =
    let (indices, others) = split_keys ks in
    elim (array_index k) [
      | none ↦ (indices, k ∷ others)
      | some n ↦ (insert_index n k indices, others)
    ]

unfoldable pub enumerated : List String → List String
unfolding split_keys
enumerated ks = let (indices, others) = split_keys ks in map (λ e. e.1) indices ++ others

unfoldable pub check_names : List String → Result PolicyFailure (Unit {0})
check_names [] = ok tt
check_names (k ∷ ks) =
    let rest = check_names ks in
    if constant_name k
    then rest
    else err (failure invalid_policy_set (below "$/constants" k) "Invalid constant name")

-- What `compilePolicySet` checks first: the source, the constants, the values of the rules and the
-- kind of the source.
unfoldable pub set_head : Fields → Result PolicyFailure (Fields × Fields × List Json × SourceKind)
set_head fs = do
  exact_keys fs
      ("schemaVersion" ∷ "policySetId" ∷ "version" ∷ "description" ∷ "source" ∷ "defaultOutcome"
        ∷ "constants" ∷ "rules" ∷ [])
      "$"
  throw_if
      (not (is_text (get_field "schemaVersion" fs) "1.0.0")
        || not (is_text (get_field "defaultOutcome" fs) "DENY"))
      (failure invalid_policy_set "$" "Unsupported version or non-deny default")
  (source, constants, values) ←
      require (set_parts fs) (failure invalid_policy_set "$" "Invalid source, constants, or rules")
  exact_keys source ("kind" ∷ "ref" ∷ []) "$/source"
  kind ←
      require (source_kind_of (get_field "kind" source))
        (failure invalid_policy_set "$/source/kind" "Unknown source kind")
  ok (source, constants, values, kind)

-- The end of `compilePolicySet`: the members in the order of the object literal.
unfoldable pub set_members :
    Fields → Fields → SourceKind → Fields → List PolicyRule → Result PolicyFailure CompiledPolicySet
set_members fs source kind constants rules = do
  policy_set_id ← required_string fs "policySetId" "$" uuid_v7 none 1
  version ← required_string fs "version" "$" semver none 1
  description ← required_string fs "description" "$" any_text (some 2048) 1
  ref ← required_string source "ref" "$/source" any_text (some 512) 1
  ok (record {
    policy_set_id = policy_set_id;
    version = version;
    description = description;
    source_kind = kind;
    source_ref = ref;
    constants = constants;
    rules = rules;
  })

-- The steps of `compilePolicySet` on an object, up to the compiled set.
unfoldable pub compile_fields : Runtime → Fields → Result PolicyFailure CompiledPolicySet
unfolding compile_rules sort_rules sort_fields enumerated check_names set_head set_members
compile_fields runtime fs = do
  (source, constants, values, kind) ← set_head fs
  rules ← compile_rules runtime constants values 0
  throw_if (not (distinct (rule_ids rules)))
      (failure invalid_policy_set "$/rules" "Duplicate ruleId")
  check_names (enumerated (keys (sort_fields constants)))
  set_members fs source kind (sort_fields constants) (sort_rules rules)

-- What `compilePolicySet` answers when it succeeds.
pub record Compiled : Type 0 where
  pub policy_set : CompiledPolicySet
  pub canonical : String
  pub sha256 : String

-- `compilePolicySet`, on a value that may be `undefined`; a failure is its one diagnostic.
unfoldable pub compile_policy_set : Runtime → Option Json → Result PolicyFailure Compiled
unfolding compile_fields canonicalize_policy_value hash_policy_value
compile_policy_set runtime value = do
  v ← require value (failure invalid_policy_value "$" "Value is not I-JSON compatible")
  assert_policy_json runtime v "$"
  fs ← require (as_record value) (failure invalid_policy_set "$" "PolicySet must be an object")
  policy_set ← compile_fields runtime fs
  canonical ← canonicalize_policy_value runtime (policy_set_json policy_set)
  sha256 ← hash_policy_value runtime (policy_set_json policy_set)
  ok (record { policy_set = policy_set; canonical = canonical; sha256 = sha256 })
