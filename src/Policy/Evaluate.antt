-- ===== src/Policy/Evaluate.antt =====
-- `evaluatePolicy` of packages/policy/src/index.ts after its validation: the hard invariants, the loop
-- over the rules and the order of the outcomes.
use ai_software_engineering.Prelude.{
  String, Bool, true, false, not, ◌&&◌, ◌||◌, Option, none, some, List, [], ◌∷◌, ◌++◌, map, ◌==◌,
  if◌then◌else◌, keep_if, includes, sort_texts,
}
use ai_software_engineering.Contracts.Json.{Fields}
use ai_software_engineering.Contracts.Canonical.{Runtime}
use ai_software_engineering.Policy.Data.{
  r4, secret, outbound, PolicyInput, allow_rule, deny_rule, PolicyRule,
}
use ai_software_engineering.Policy.Condition.{evaluate_condition}
use ai_software_engineering.Policy.Merge.{Merging, add_scopes, merge_from, no_requirements}

-- `hardInvariantViolations`, sorted.
unfoldable pub hard_invariant_violations : PolicyInput → List String
hard_invariant_violations input =
    (if input.authority_mutation then "NO_DIRECT_AUTHORITY_WRITE" ∷ [] else [])
    ++ (if elim input.data_classification [
      | secret ↦ elim input.direction [ outbound ↦ true | _ ↦ false ]
      | _ ↦ false
    ]
        then "NO_SECRET_OUTBOUND" ∷ []
        else [])
    ++ (if elim input.risk_class [ r4 ↦ not input.control_verified | _ ↦ false ]
        then "R4_REQUIRES_VERIFIED_CONTROL" ∷ []
        else [])

pub data Outcome : Type 0 where
  allow allow_with_requirements deny indeterminate : Outcome

-- What `createDecision` makes of its arguments, less the identities and the time that it copies.
pub record PolicyDecision : Type 0 where
  pub outcome : Outcome
  pub matched_rule_ids : List String
  pub hard_invariant_ids : List String
  pub requirements : Option Merging
  pub reason_codes : List String

abbrev pub is_empty {ℓ} : {A : Type ℓ} → List A → Bool
is_empty [] = true
is_empty (x ∷ xs) = false

abbrev pub has_requirements : Merging → Bool
has_requirements m =
    not (is_empty m.scopes)
    || elim m.isolation [ none ↦ false | some l ↦ true ]
    || elim m.timeout [ none ↦ false | some n ↦ true ]
    || elim m.concurrency [ none ↦ false | some n ↦ true ]
    || m.verification

abbrev pub is_deny : PolicyRule → Bool
is_deny rule = elim rule.rule_effect [ deny_rule ↦ true | allow_rule ↦ false ]

abbrev pub applies : PolicyInput → PolicyRule → Bool
applies input rule =
    rule.domain == input.domain
    && rule.action == input.action
    && includes input.subject_type rule.subject_types
    && includes input.resource_type rule.resource_types

unfoldable pub decision :
    Outcome → List PolicyRule → List String → Option Merging → List String → PolicyDecision
unfolding add_scopes
decision outcome rules invariants requirements reasons = record {
  outcome = outcome;
  matched_rule_ids = sort_texts (map (λ (r : PolicyRule). r.rule_id) rules);
  hard_invariant_ids = sort_texts invariants;
  requirements = requirements;
  reason_codes = sort_texts (add_scopes reasons []);
}

-- The loop over the rules: those that match, and whether it went through.
unfoldable pub match_rules :
    (PolicyRule → Option Bool) → PolicyInput → List PolicyRule → List PolicyRule × Bool
match_rules test input [] = ([], true)
match_rules test input (rule ∷ rules) =
    let (matched, through) = match_rules test input rules in
    if not (applies input rule) then (matched, through) else elim (test rule) [
      | none ↦ ([], false)
      | some true ↦ (rule ∷ matched, through)
      | some false ↦ (matched, through)
    ]

-- The end of `evaluatePolicy`, for the rules that match.
unfoldable pub decide_matched : List PolicyRule → PolicyDecision
unfolding merge_from decision
decide_matched matched =
    let denied = keep_if is_deny matched in
    let allowed = keep_if (λ r. not (is_deny r)) matched in
    if not (is_empty denied)
    then decision deny matched [] none (map (λ (r : PolicyRule). r.reason_code) denied)
    else if is_empty allowed
    then decision deny [] [] none ("DEFAULT_DENY" ∷ [])
    else elim (merge_from no_requirements (map (λ (r : PolicyRule). r.requirements) allowed)) [
      | none ↦ decision indeterminate allowed [] none ("REQUIREMENTS_CONFLICT" ∷ [])
      | some merged ↦
          decision (if has_requirements merged then allow_with_requirements else allow) allowed []
            (some (record merged { scopes = sort_texts merged.scopes })) []
    ]

-- `evaluatePolicy` after its validation.
unfoldable pub decide_policy : Runtime → Fields → List PolicyRule → PolicyInput → PolicyDecision
unfolding hard_invariant_violations match_rules decide_matched decision
decide_policy runtime constants rules input =
    let violations = hard_invariant_violations input in
    let (matched, through) =
      match_rules (λ r. evaluate_condition runtime input constants r.when) input rules in
    if not (is_empty violations)
    then decision deny [] violations none ("HARD_INVARIANT_VIOLATION" ∷ [])
    else if not through
    then decision indeterminate matched [] none ("CONDITION_TYPE_MISMATCH" ∷ [])
    else decide_matched matched
