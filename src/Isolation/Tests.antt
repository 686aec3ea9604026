-- ===== src/Isolation/Tests.antt =====
-- A concrete task for apps/worker/src/index.ts, and what is selected for it.
use ai_software_engineering.Prelude.{
  String, ◌≡◌, refl, ◌≢◌, ◌↔◌, true, false, ◌&&◌, some, [], ◌∷◌, sort_texts,
}
use ai_software_engineering.Contracts.Json.{
  Json, bool, str, Fields, natural, texts, fields, object, get_field,
}
use ai_software_engineering.Policy.Patterns.{uuid_v7}
use ai_software_engineering.Policy.Values.{distinct, keys, is_text}
use ai_software_engineering.Isolation.{
  same_texts, exact_sorted_keys, is_safe_integer_between, texts_of, are_budgets, is_requirement,
  requirement_of, is_canonical_requirement, invalid_isolation_requirement,
  minimum_isolation_level_unavailable, required_provider_feature_unavailable, blocked, selected,
  requirement_member, resolve_isolation_provider,
}
use ai_software_engineering.Isolation.Selection.{selected_exact}

abbrev sample_id : Json
sample_id = str "01890000-0000-7000-8000-000000000001"

abbrev budgets : Json
budgets = object (
    ("maxCpuTimeMs", some (natural 1000))
    ∷ ("maxMemoryBytes", some (natural 1048576))
    ∷ ("maxProcessCount", some (natural 4))
    ∷ ("maxStderrBytes", some (natural 0))
    ∷ ("maxStdoutBytes", some (natural 0))
    ∷ ("maxWallClockMs", some (natural 5000))
    ∷ [])

-- A task that asks for one feature, at a level of isolation.
abbrev task : String → String → Fields
task level feature = fields (
    ("evidenceContext", some (object (("requirementId", some sample_id) ∷ [])))
    ∷ (
      "isolationRequirement",
      some (
          object (
            ("budgets", some budgets)
            ∷ ("capabilityId", some (str "windows-process-restricted"))
            ∷ ("downgradeAllowed", some (bool false))
            ∷ ("minimumIsolationLevel", some (str level))
            ∷ ("requiredProviderFeatures", some (texts (feature ∷ [])))
            ∷ ("requirementId", some sample_id)
            ∷ ("schemaVersion", some (str "1.0.0"))
            ∷ [])),
    )
    ∷ [])

selects : resolve_isolation_provider (task "PROCESS_RESTRICTED" "CPU_LIMIT") true ≡ selected
unfolding resolve_isolation_provider is_canonical_requirement requirement_of is_requirement
    are_budgets exact_sorted_keys same_texts is_safe_integer_between texts_of distinct keys
    get_field uuid_v7 sort_texts object fields texts
selects = refl

blocks_stronger :
    resolve_isolation_provider (task "OS_SANDBOXED" "CPU_LIMIT") true
    ≡ blocked minimum_isolation_level_unavailable
unfolding resolve_isolation_provider is_canonical_requirement requirement_of is_requirement
    are_budgets exact_sorted_keys same_texts is_safe_integer_between texts_of distinct keys
    get_field uuid_v7 sort_texts object fields texts
blocks_stronger = refl

blocks_unknown :
    resolve_isolation_provider (task "PROCESS_RESTRICTED" "TELEPORT") true
    ≡ blocked invalid_isolation_requirement
unfolding resolve_isolation_provider is_canonical_requirement requirement_of is_requirement
    are_budgets exact_sorted_keys same_texts is_safe_integer_between texts_of distinct keys
    get_field uuid_v7 sort_texts object fields texts
blocks_unknown = refl

selected_exact_example :
    ((resolve_isolation_provider (task "PROCESS_RESTRICTED" "CPU_LIMIT") true ≡ selected) ↔ (
      (is_canonical_requirement (task "PROCESS_RESTRICTED" "CPU_LIMIT")
        && is_text
            (requirement_member "minimumIsolationLevel" (task "PROCESS_RESTRICTED" "CPU_LIMIT"))
            "PROCESS_RESTRICTED"
        && true)
      ≡ true))
    × (resolve_isolation_provider (task "PROCESS_RESTRICTED" "CPU_LIMIT") true
        ≢ blocked required_provider_feature_unavailable)
selected_exact_example = selected_exact (task "PROCESS_RESTRICTED" "CPU_LIMIT") true
