-- ===== src/Policy/Condition.antt =====
-- `evaluateCondition` of packages/policy/src/index.ts, and what it reads. Texts are well-formed, as
-- the validation makes sure.
use Prim.Native.Char.{code}
use mathlib.Core.Option.{map as map_option}
use ai_software_engineering.Prelude.{
  ℕ, String, Bool, true, false, not, ◌||◌, Option, none, some, List, [], ◌∷◌, nat_eq, ◌==◌,
  if◌then◌else◌, any, all,
}
use ai_software_engineering.Contracts.Json.{
  Json, null, bool, num, str, arr, obj, Fields, elements, texts, get_field, number_lt,
}
use ai_software_engineering.Contracts.Canonical.{Runtime, canonical_json}
use ai_software_engineering.Policy.Data.{
  RiskClass, r0, r1, r2, r3, r4, DataClassification, public_data, internal, confidential, secret,
  Direction, local, inbound, outbound, PolicyInput, Operator, eq, not_eq, is_in, contains, lt, lte,
  gt, gte, exists, starts_with, set_subset, set_intersects, Condition, leaf, all_of, any_of, not_of,
  Conditions, none_left, and_then,
}

abbrev risk_text : RiskClass → String
risk_text r0 = "R0"
risk_text r1 = "R1"
risk_text r2 = "R2"
risk_text r3 = "R3"
risk_text r4 = "R4"

abbrev data_text : DataClassification → String
data_text public_data = "PUBLIC"
data_text internal = "INTERNAL"
data_text confidential = "CONFIDENTIAL"
data_text secret = "SECRET"

abbrev direction_text : Direction → String
direction_text local = "LOCAL"
direction_text inbound = "INBOUND"
direction_text outbound = "OUTBOUND"

-- `referencedValue`
unfoldable pub referenced_value : PolicyInput → String → Option Json
unfolding texts
referenced_value input reference =
    if reference == "input.action"
    then some (str input.action)
    else if reference == "input.domain"
    then some (str input.domain)
    else if reference == "input.subjectType"
    then some (str input.subject_type)
    else if reference == "input.resourceType"
    then some (str input.resource_type)
    else if reference == "input.riskClass"
    then some (str (risk_text input.risk_class))
    else if reference == "input.dataClassification"
    then some (str (data_text input.data_classification))
    else if reference == "input.direction"
    then some (str (direction_text input.direction))
    else if reference == "input.authorityMutation"
    then some (bool input.authority_mutation)
    else if reference == "input.controlVerified"
    then some (bool input.control_verified)
    else if reference == "input.permissionScopes"
    then some (texts input.permission_scopes)
    else if reference == "input.capabilityIds"
    then some (texts input.capability_ids)
    else none

-- What is left of a text after a prefix.
unfoldable pub strip_prefix : String → String → Option String
strip_prefix String.[] s = some s
strip_prefix (String.◌∷◌ c p) String.[] = none
strip_prefix (String.◌∷◌ c p) (String.◌∷◌ d s) =
    let rest = strip_prefix p s in if nat_eq (code c) (code d) then rest else none

abbrev pub starts : String → String → Bool
starts p s = elim (strip_prefix p s) [ none ↦ false | some rest ↦ true ]

-- `actual.includes(expected)`
unfoldable pub text_includes : String → String → Bool
unfolding strip_prefix
text_includes p String.[] = starts p String.[]
text_includes p (String.◌∷◌ c s) = starts p (String.◌∷◌ c s) || text_includes p s

-- `typeof`, with null and arrays apart from the other objects.
abbrev pub json_kind : Json → ℕ
json_kind null = 0
json_kind (bool b) = 1
json_kind (num n) = 2
json_kind (str s) = 3
json_kind (arr vs) = 4
json_kind (obj fs) = 5

module _ (runtime : Runtime) where
  abbrev pub equal_json : Json → Json → Bool
  equal_json left right = canonical_json runtime left == canonical_json runtime right

  -- The `switch` of `evaluateCondition`, on values that are there: `none` for a mismatch of types.
  unfoldable pub leaf_result : Operator → Json → Json → Option Bool
  unfolding text_includes strip_prefix number_lt elements
  leaf_result exists actual expected = some true
  leaf_result eq actual expected =
      if nat_eq (json_kind actual) (json_kind expected)
      then some (equal_json actual expected)
      else none
  leaf_result not_eq actual expected =
      if nat_eq (json_kind actual) (json_kind expected)
      then some (not (equal_json actual expected))
      else none
  leaf_result is_in actual (arr vs) = some (any (equal_json actual) (elements vs))
  leaf_result is_in actual _ = none
  leaf_result contains (str s) (str t) = some (text_includes t s)
  leaf_result contains (arr vs) expected = some (any (λ v. equal_json v expected) (elements vs))
  leaf_result contains _ expected = none
  leaf_result lt (num a) (num b) = some (number_lt a b)
  leaf_result lt _ _ = none
  leaf_result lte (num a) (num b) = some (not (number_lt b a))
  leaf_result lte _ _ = none
  leaf_result gt (num a) (num b) = some (number_lt b a)
  leaf_result gt _ _ = none
  leaf_result gte (num a) (num b) = some (not (number_lt a b))
  leaf_result gte _ _ = none
  leaf_result starts_with (str s) (str t) = some (starts t s)
  leaf_result starts_with _ _ = none
  leaf_result set_subset (arr xs) (arr ys) =
      some (all (λ x. any (equal_json x) (elements ys)) (elements xs))
  leaf_result set_subset _ _ = none
  leaf_result set_intersects (arr xs) (arr ys) =
      some (any (λ x. any (equal_json x) (elements ys)) (elements xs))
  leaf_result set_intersects _ _ = none

  -- Without an operand: `exists` does not read it, and no item of an array equals it.
  unfoldable pub operand_result : Operator → Json → Option Json → Option Bool
  unfolding leaf_result
  operand_result op actual (some expected) = leaf_result op actual expected
  operand_result exists actual none = some true
  operand_result contains (arr vs) none = some false
  operand_result _ actual none = none

  unfoldable mutual
    unfolding referenced_value get_field operand_result strip_prefix

    -- `evaluateCondition`
    pub evaluate_condition : PolicyInput → Fields → Condition → Option Bool
    evaluate_condition input constants (leaf op reference operand) =
        let actual : Option Json = elim (strip_prefix "constant." reference) [
          | some name ↦ get_field name constants
          | none ↦ referenced_value input reference
        ] in
        elim actual [ none ↦ none | some value ↦ operand_result op value operand ]
    evaluate_condition input constants (all_of conditions) =
        map_option (all (λ matched. matched)) (evaluate_all input constants conditions)
    evaluate_condition input constants (any_of conditions) =
        map_option (any (λ matched. matched)) (evaluate_all input constants conditions)
    evaluate_condition input constants (not_of condition) =
        map_option not (evaluate_condition input constants condition)

    -- The results of the children, if each has one.
    pub evaluate_all : PolicyInput → Fields → Conditions → Option (List Bool)
    evaluate_all input constants none_left = some []
    evaluate_all input constants (and_then c cs) =
        let first : Option Bool = evaluate_condition input constants c in
        let rest : Option (List Bool) = evaluate_all input constants cs in
        elim first [ none ↦ none | some matched ↦ map_option (λ ms. matched ∷ ms) rest ]
