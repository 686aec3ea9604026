-- ===== src/Policy/References.antt =====
-- A compiled leaf has a value to test: its reference is to a member of the input or to a constant that
-- is there, so that `evaluateCondition` of packages/policy/src/index.ts is never without it.
use ai_software_engineering.Prelude.{
  is_there, ℕ, suc, String, ◌≡◌, inl, inr, true, Option, none, some, arith, ◌==◌, eq_iff,
  Option-cases, includes,
}
use ai_software_engineering.Contracts.Json.{Json, Fields, get_field}
use ai_software_engineering.Contracts.Canonical.{Runtime}
use ai_software_engineering.Policy.Data.{PolicyInput, Operator, leaf}
use ai_software_engineering.Policy.Condition.{
  referenced_value, strip_prefix, operand_result, evaluate_condition,
}
use ai_software_engineering.Policy.CompileCondition.{allowed_input_references}
use ai_software_engineering.Policy.WellFormed.{is_declared, IsWellFormed}

==-sym : (s t : String) → (s == t) ≡ (t == s)
==-sym s t = ground (arith, eq_iff s t, eq_iff t s)

input_missing :
    (input : PolicyInput) (reference : String)
    → referenced_value input reference ≡ none
    → includes reference allowed_input_references ≡ true
    → ⊥
unfolding referenced_value
input_missing input reference absent h = ground (
  arith,
  ==-sym reference "input.action",
  ==-sym reference "input.domain",
  ==-sym reference "input.subjectType",
  ==-sym reference "input.resourceType",
  ==-sym reference "input.riskClass",
  ==-sym reference "input.dataClassification",
  ==-sym reference "input.direction",
  ==-sym reference "input.authorityMutation",
  ==-sym reference "input.controlVerified",
  ==-sym reference "input.permissionScopes",
  ==-sym reference "input.capabilityIds",
)

referenced-input :
    (input : PolicyInput) (reference : String)
    → includes reference allowed_input_references ≡ true
    → (v : Json) × (referenced_value input reference ≡ some v)
referenced-input input reference h = elim (Option-cases (referenced_value input reference)) [
  | inl absent ↦ absurd (input_missing input reference absent h)
  | inr found ↦ found
]

declared_value :
    (name : String) (constants : Fields)
    → is_there (get_field name constants) ≡ true
    → (v : Json) × (get_field name constants ≡ some v)
declared_value name constants h = elim (Option-cases (get_field name constants)) [
  | inl absent ↦ absurd (ground arith)
  | inr found ↦ found
]

-- A well-formed leaf is evaluated on a value, whatever the input is: it can only be undecided by the
-- types of its operator's arguments.
pub compiled_leaf_has_value :
    (runtime : Runtime) (input : PolicyInput) (constants : Fields) (levels : ℕ) (op : Operator)
    (reference : String) (operand : Option Json)
    → IsWellFormed constants (suc levels) (leaf op reference operand)
    → (v : Json) × (evaluate_condition runtime input constants (leaf op reference operand)
        ≡ operand_result runtime op v operand)
unfolding evaluate_condition
compiled_leaf_has_value runtime input constants levels op reference operand h =
    elim (Option-cases (strip_prefix "constant." reference)) [
      | inl absent ↦
          let (v, found) = referenced-input input reference (rw (absent, is_declared) at h.0) in
          (v, ground arith)
      | inr (name, present) ↦
          let (v, found) = declared_value name constants (rw (present, is_declared) at h.0) in
          (v, ground arith)
    ]
