-- ===== src/Isolation/Selection.antt =====
-- When apps/worker/src/index.ts selects a provider: it never settles for less than what is asked.
use ai_software_engineering.Prelude.{
  String, ◌≡◌, refl, ◌≢◌, ◌↔◌, inl, inr, Bool, true, false, not, ◌&&◌, Option, none, some, List, [],
  ◌∷◌, arith, if◌then◌else◌, Option-cases, &&-left, &&-right, any, all, includes, ok,
}
use ai_software_engineering.Contracts.Json.{Fields, get_field}
use ai_software_engineering.Policy.Values.{as_record, is_text, distinct}
use ai_software_engineering.Isolation.{
  supported_features, features_of, is_feature_list, is_requirement, requirement_of,
  is_canonical_requirement, invalid_isolation_requirement, minimum_isolation_level_unavailable,
  process_restricted_provider_unavailable, required_provider_feature_unavailable, blocked, selected,
  requirement_member, lacks_feature, resolve_isolation_provider, execute_restricted_worker_task,
}

all_supported :
    (features : List String)
    → all (λ feature. includes feature supported_features) features ≡ true
    → any (λ feature. not (includes feature supported_features)) features ≡ false
all_supported [] h = refl
all_supported (f ∷ fs) h =
    let rest = all_supported fs (&&-right (includes f supported_features) _ h) in
    rw (&&-left (includes f supported_features) _ h) rest

listed_supported :
    (features : Option (List String))
    → is_feature_list features ≡ true
    → lacks_feature features ≡ false
listed_supported none h = cc
listed_supported (some []) h = cc
listed_supported (some (f ∷ fs)) h = all_supported (f ∷ fs) (&&-right (distinct (f ∷ fs)) _ h)

requirement_listed :
    (requirement budgets evidence : Fields)
    → is_requirement requirement budgets evidence ≡ true
    → is_feature_list (features_of (get_field "requiredProviderFeatures" requirement)) ≡ true
unfolding is_requirement
requirement_listed requirement budgets evidence h =
    &&-right _ (is_feature_list (features_of (get_field "requiredProviderFeatures" requirement))) h

-- A canonical requirement asks for no feature that the provider lacks.
canonical_supported :
    (request : Fields)
    → is_canonical_requirement request ≡ true
    → lacks_feature (features_of (requirement_member "requiredProviderFeatures" request)) ≡ false
unfolding is_canonical_requirement requirement_of
canonical_supported request h =
    elim (Option-cases (as_record (get_field "evidenceContext" request))) [
      | inl absent ↦ absurd (ground arith)
      | inr (evidence, e) ↦
          elim (Option-cases (as_record (get_field "isolationRequirement" request))) [
            | inl absent ↦ absurd (ground arith)
            | inr (requirement, r) ↦
                elim (Option-cases (as_record (get_field "budgets" requirement))) [
                  | inl absent ↦ absurd (ground arith)
                  | inr (budgets, b) ↦
                      let listed = requirement_listed requirement budgets evidence (ground arith) in
                      rw (r, requirement_member)
                        (listed_supported
                          (features_of (get_field "requiredProviderFeatures" requirement)) listed)
                ]
          ]
    ]

-- The tests of the choice, when no asked feature is missing from a valid requirement.
selected-tests :
    (valid restricted available missing : Bool)
    → (valid ≡ true → missing ≡ false)
    → let resolution =
        if not valid
        then blocked invalid_isolation_requirement
        else if not restricted
        then blocked minimum_isolation_level_unavailable
        else if not available
        then blocked process_restricted_provider_unavailable
        else if missing
        then blocked required_provider_feature_unavailable
        else selected in
      ((resolution ≡ selected) ↔ ((valid && restricted && available) ≡ true))
      × (resolution ≢ blocked required_provider_feature_unavailable)
selected-tests false restricted available missing none_missing = ground arith
selected-tests true false available missing none_missing = ground arith
selected-tests true true false missing none_missing = ground arith
selected-tests true true true false none_missing = ground arith
selected-tests true true true true none_missing = absurd (ground arith)

-- A provider is selected exactly for a canonical requirement whose minimum is the restricted process,
-- on a machine where the probe has found it available; and the last of the reasons to block a task is
-- never given, since a canonical requirement asks for supported features only.
pub selected_exact :
    (request : Fields) (available : Bool)
    → ((resolve_isolation_provider request available ≡ selected) ↔ (
        (is_canonical_requirement request
          && is_text (requirement_member "minimumIsolationLevel" request) "PROCESS_RESTRICTED"
          && available)
        ≡ true))
      × (resolve_isolation_provider request available
          ≢ blocked required_provider_feature_unavailable)
unfolding resolve_isolation_provider
selected_exact request available =
    selected-tests (is_canonical_requirement request)
      (is_text (requirement_member "minimumIsolationLevel" request) "PROCESS_RESTRICTED") available
      (lacks_feature (features_of (requirement_member "requiredProviderFeatures" request)))
      (canonical_supported request)

-- A task that is executed has a canonical requirement, on a machine where the provider is available,
-- and its execution is the run of the adapter.
execute-eq-ok :
    {Execution : Type 0} (run : Fields → Execution) (request : Fields) (available : Bool)
    (execution : Execution)
    → execute_restricted_worker_task run request available ≡ ok execution
    → (is_canonical_requirement request ≡ true) × (available ≡ true) × (execution ≡ run request)
unfolding execute_restricted_worker_task resolve_isolation_provider
execute-eq-ok run request available execution h = ground arith
