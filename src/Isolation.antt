-- ===== src/Isolation.antt =====
-- apps/worker/src/index.ts: the choice of an isolation provider for a task, and the execution of the
-- task. The probe of the machine and the run of the adapter are parameters.
mod Selection
mod Tests
use ai_software_engineering.Prelude.{
  ℕ, zero, suc, ◌+◌, ◌-◌, ◌*◌, ◌/◌, ◌%◌, ◌^◌, ◌≤◌, ◌<◌, min, String, ◌≡◌, refl, sym, ap, subst, ◌∙◌,
  ◌≢◌, ◌↔◌, ◌⊎◌, inl, inr, Bool, true, false, not, ◌&&◌, ◌||◌, Option, none, some, List, [], ◌∷◌,
  ◌++◌, map, arith, ltb, leb, nat_eq, ◌==◌, eq_iff, eq_refl, if◌then◌else◌, some-injective,
  Bool-cases, Option-cases, &&-left, &&-right, max_safe_integer, is_safe_integer, length, take,
  take_all, any, all, keep_if, length-append, length-map, length-keep_if, any-append,
  keep_if-append, includes, units_lt, byte_length, code_units, All, All-append, All-keep_if, Result,
  ok, err, ◌>>=◌, ◌>>◌, throw_if, >>=-eq-ok, throw_if-eq-ok, require, require-eq-ok, ok-injective,
  Result-cases, text_length, text_lt, insert_text, sort_texts, point_lt,
}
use ai_software_engineering.Contracts.Json.{
  Number, Json, null, bool, num, str, arr, obj, Items, nil, cons, Fields, end, field, natural,
  items, elements, texts, fields, object, get_field, member, number_lt,
}
use ai_software_engineering.Policy.Patterns.{uuid_v7}
use ai_software_engineering.Policy.Values.{
  failure, below, as_record, as_text, is_text, is_bounded, is_bounded_string, keys, distinct,
  has_exact_keys, protected_keys, index_text, assert_policy_json, assert_items, assert_fields,
  required_string, any_text, exact_keys, bounded_strings, unique_bounded_strings,
  sorted_unique_strings,
}

abbrev pub supported_features : List String
supported_features =
    "JOB_OBJECT_KILL_ON_CLOSE" ∷ "PROCESS_TREE_CONTAINMENT" ∷ "CPU_LIMIT" ∷ "MEMORY_LIMIT"
    ∷ "PROCESS_COUNT_LIMIT" ∷ "WALL_CLOCK_LIMIT" ∷ "OUTPUT_LIMIT" ∷ "ENVIRONMENT_ALLOWLIST"
    ∷ "EXPLICIT_EXECUTABLE_AND_ARGV" ∷ "STAGED_WORKING_DIRECTORY" ∷ "CLOSED_STDIN"
    ∷ "CONTROLLED_STANDARD_HANDLES" ∷ "NO_SECRET_INHERITANCE" ∷ []

abbrev requirement_keys : List String
requirement_keys =
    "budgets" ∷ "capabilityId" ∷ "downgradeAllowed" ∷ "minimumIsolationLevel"
    ∷ "requiredProviderFeatures" ∷ "requirementId" ∷ "schemaVersion" ∷ []

abbrev budget_keys : List String
budget_keys =
    "maxCpuTimeMs" ∷ "maxMemoryBytes" ∷ "maxProcessCount" ∷ "maxStderrBytes" ∷ "maxStdoutBytes"
    ∷ "maxWallClockMs" ∷ []

unfoldable pub same_texts : List String → List String → Bool
same_texts [] [] = true
same_texts [] (t ∷ ts) = false
same_texts (s ∷ ss) [] = false
same_texts (s ∷ ss) (t ∷ ts) = s == t && same_texts ss ts

-- `exactKeys`, on an object.
unfoldable pub exact_sorted_keys : Fields → List String → Bool
unfolding same_texts keys sort_texts
exact_sorted_keys fs expected = same_texts (sort_texts (keys fs)) (sort_texts expected)

-- `isSafeIntegerBetween`
unfoldable pub is_safe_integer_between : Option Json → ℕ → ℕ → Bool
is_safe_integer_between (some (num n)) minimum maximum =
    (not n.negative || nat_eq n.mantissa 0)
    && nat_eq n.exponent 0
    && is_safe_integer n.mantissa
    && leb minimum n.mantissa
    && leb n.mantissa maximum
is_safe_integer_between _ minimum maximum = false

-- The texts of an array of texts.
unfoldable pub texts_of : Items → Option (List String)
texts_of nil = some []
texts_of (cons (str s) vs) =
    let rest = texts_of vs in elim rest [ none ↦ none | some ss ↦ some (s ∷ ss) ]
texts_of (cons _ vs) = none

-- The features of a requirement, if they are an array of texts.
abbrev pub features_of : Option Json → Option (List String)
features_of (some (arr vs)) = texts_of vs
features_of _ = none

abbrev pub levels : List String
levels = "PROCESS_RESTRICTED" ∷ "OS_SANDBOXED" ∷ "CONTAINER_ISOLATED" ∷ "REMOTE_ISOLATED" ∷ []

abbrev pub is_level : Option Json → Bool
is_level value = elim (as_text value) [ none ↦ false | some s ↦ includes s levels ]

abbrev pub is_feature_list : Option (List String) → Bool
is_feature_list none = false
is_feature_list (some []) = false
is_feature_list (some (f ∷ fs)) =
    distinct (f ∷ fs) && all (λ feature. includes feature supported_features) (f ∷ fs)

-- `requirement.requirementId === evidenceContext.requirementId`, on a valid identity.
abbrev pub same_identity : Option Json → Option Json → Bool
same_identity left right = elim (as_text left) [
  | none ↦ false
  | some s ↦ uuid_v7 s && is_text right s
]

abbrev pub is_false : Option Json → Bool
is_false (some (bool false)) = true
is_false _ = false

unfoldable pub are_budgets : Fields → Bool
unfolding exact_sorted_keys is_safe_integer_between get_field
are_budgets budgets =
    exact_sorted_keys budgets budget_keys
    && is_safe_integer_between (get_field "maxCpuTimeMs" budgets) 1 max_safe_integer
    && is_safe_integer_between (get_field "maxMemoryBytes" budgets) 1048576 max_safe_integer
    && is_safe_integer_between (get_field "maxProcessCount" budgets) 1 256
    && is_safe_integer_between (get_field "maxWallClockMs" budgets) 1 86400000
    && is_safe_integer_between (get_field "maxStdoutBytes" budgets) 0 max_safe_integer
    && is_safe_integer_between (get_field "maxStderrBytes" budgets) 0 max_safe_integer

-- The tests of `isCanonicalRequirement` on its three objects, all of which must hold.
unfoldable pub is_requirement : Fields → Fields → Fields → Bool
unfolding are_budgets exact_sorted_keys texts_of distinct get_field uuid_v7
is_requirement requirement budgets evidence =
    exact_sorted_keys requirement requirement_keys
    && are_budgets budgets
    && is_text (get_field "schemaVersion" requirement) "1.0.0"
    && same_identity (get_field "requirementId" requirement) (get_field "requirementId" evidence)
    && is_text (get_field "capabilityId" requirement) "windows-process-restricted"
    && is_level (get_field "minimumIsolationLevel" requirement)
    && is_false (get_field "downgradeAllowed" requirement)
    && is_feature_list (features_of (get_field "requiredProviderFeatures" requirement))

-- The requirement, its budgets and the evidence context of a request.
unfoldable pub requirement_of : Fields → Option (Fields × Fields × Fields)
unfolding get_field
requirement_of request = elim (as_record (get_field "evidenceContext" request)) [
  | none ↦ none
  | some evidence ↦ elim (as_record (get_field "isolationRequirement" request)) [
    | none ↦ none
    | some requirement ↦ elim (as_record (get_field "budgets" requirement)) [
      | none ↦ none
      | some budgets ↦ some (requirement, budgets, evidence)
    ]
  ]
]

-- `isCanonicalRequirement`
unfoldable pub is_canonical_requirement : Fields → Bool
unfolding requirement_of is_requirement
is_canonical_requirement request = elim (requirement_of request) [
  | none ↦ false
  | some (requirement, budgets, evidence) ↦ is_requirement requirement budgets evidence
]

pub data Reason : Type 0 where
  invalid_isolation_requirement minimum_isolation_level_unavailable : Reason
  process_restricted_provider_unavailable required_provider_feature_unavailable : Reason

-- An `IsolationResolution`, less what it copies from the probe and the request.
pub data Resolution : Type 0 where
  blocked : Reason → Resolution
  selected : Resolution

abbrev pub requirement_member : String → Fields → Option Json
requirement_member key request = elim (as_record (get_field "isolationRequirement" request)) [
  | none ↦ none
  | some requirement ↦ get_field key requirement
]

-- `requiredProviderFeatures.some((feature) => !supportedFeatures.has(feature))`
abbrev pub lacks_feature : Option (List String) → Bool
lacks_feature none = false
lacks_feature (some features) = any (λ feature. not (includes feature supported_features)) features

-- `resolveIsolationProvider`; `available` is `probe.result === "AVAILABLE"`.
unfoldable pub resolve_isolation_provider : Fields → Bool → Resolution
unfolding is_canonical_requirement texts_of get_field
resolve_isolation_provider request available =
    if not (is_canonical_requirement request)
    then blocked invalid_isolation_requirement
    else if not (is_text (requirement_member "minimumIsolationLevel" request) "PROCESS_RESTRICTED")
    then blocked minimum_isolation_level_unavailable
    else if not available
    then blocked process_restricted_provider_unavailable
    else if lacks_feature (features_of (requirement_member "requiredProviderFeatures" request))
    then blocked required_provider_feature_unavailable
    else selected

-- `executeRestrictedWorkerTask`: the run of the adapter, if a provider is selected.
unfoldable pub execute_restricted_worker_task :
    {Execution : Type 0} → (Fields → Execution) → Fields → Bool → Result Reason Execution
unfolding resolve_isolation_provider
execute_restricted_worker_task run request available =
    elim (resolve_isolation_provider request available) [
      | blocked reason ↦ err reason
      | selected ↦ ok (run request)
    ]
