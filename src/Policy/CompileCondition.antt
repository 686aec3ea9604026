-- ===== src/Policy/CompileCondition.antt =====
-- packages/policy/src/index.ts: `compileCondition`, with the references that a leaf may have.
use ai_software_engineering.Prelude.{
  is_there, ℕ, zero, suc, ◌+◌, String, Bool, true, false, not, ◌&&◌, Option, none, some, List, [],
  ◌∷◌, leb, ◌==◌, if◌then◌else◌, length, includes, Result, ok, err, ◌>>=◌, ◌>>◌, throw_if, require,
}
use ai_software_engineering.Contracts.Json.{Json, arr, cons, Fields, elements, get_field}
use ai_software_engineering.Contracts.Canonical.{Runtime}
use ai_software_engineering.Policy.Data.{
  Operator, eq, not_eq, is_in, contains, lt, lte, gt, gte, exists, starts_with, set_subset,
  set_intersects, Condition, leaf, all_of, any_of, not_of, Conditions, none_left, and_then,
  invalid_condition, invalid_reference, PolicyFailure,
}
use ai_software_engineering.Policy.Patterns.{constant_name}
use ai_software_engineering.Policy.Condition.{strip_prefix}
use ai_software_engineering.Policy.Values.{
  failure, below, as_record, as_text, is_text, index_text, required_string, any_text, exact_keys,
}

-- `leafOperators`
unfoldable pub leaf_operator : String → Option Operator
leaf_operator s =
    if s == "eq"
    then some eq
    else if s == "notEq"
    then some not_eq
    else if s == "in"
    then some is_in
    else if s == "contains"
    then some contains
    else if s == "lt"
    then some lt
    else if s == "lte"
    then some lte
    else if s == "gt"
    then some gt
    else if s == "gte"
    then some gte
    else if s == "exists"
    then some exists
    else if s == "startsWith"
    then some starts_with
    else if s == "setSubset"
    then some set_subset
    else if s == "setIntersects"
    then some set_intersects
    else none

abbrev pub allowed_input_references : List String
allowed_input_references =
    "input.action" ∷ "input.domain" ∷ "input.subjectType" ∷ "input.resourceType" ∷ "input.riskClass"
    ∷ "input.dataClassification" ∷ "input.direction" ∷ "input.authorityMutation"
    ∷ "input.controlVerified" ∷ "input.permissionScopes" ∷ "input.capabilityIds" ∷ []

-- `constantReference`
unfoldable pub constant_reference : String → Bool
unfolding strip_prefix constant_name
constant_reference s = elim (strip_prefix "constant." s) [
  | none ↦ false
  | some name ↦ constant_name name
]

abbrev pub is_exists : Operator → Bool
is_exists exists = true
is_exists _ = false

-- A reference to a constant that is not declared.
abbrev pub undeclared : Fields → String → Bool
undeclared constants reference = elim (strip_prefix "constant." reference) [
  | none ↦ false
  | some name ↦ not (is_there (get_field name constants))
]

-- `compileCondition` on the fields of a leaf.
unfoldable pub compile_leaf : Operator → Fields → Fields → String → Result PolicyFailure Condition
unfolding constant_reference
compile_leaf op constants fs path = do
  exact_keys fs ("operator" ∷ "reference" ∷ "operand" ∷ []) path
  reference ← required_string fs "reference" path any_text none 1
  throw_if (not (includes reference allowed_input_references) && not (constant_reference reference))
      (failure invalid_reference (below path "reference")
        "Reference is outside the typed namespace")
  throw_if (undeclared constants reference)
      (failure invalid_reference (below path "reference") "Referenced constant is not declared")
  throw_if (not (is_exists op) && not (is_there (get_field "operand" fs)))
      (failure invalid_condition (below path "operand") "Operator requires an operand")
  throw_if (is_exists op && is_there (get_field "operand" fs))
      (failure invalid_condition (below path "operand") "exists does not accept an operand")
  ok (leaf op reference (get_field "operand" fs))

-- The call for a child of a condition.
abbrev pub Child : Type 0
Child = Option Json → String → Result PolicyFailure Condition

unfoldable pub compile_children :
    Runtime → Child → List Json → String → ℕ → Result PolicyFailure Conditions
unfolding index_text
compile_children runtime child [] path index = ok none_left
compile_children runtime child (v ∷ vs) path index = do
  first ← child (some v) (below path (index_text runtime index))
  rest ← compile_children runtime child vs path (index + 1)
  ok (and_then first rest)

-- The array of children: neither empty nor longer than 32.
abbrev pub child_values : Option Json → Option (List Json)
child_values (some (arr (cons v vs))) =
    if leb (length (elements (cons v vs))) 32 then some (elements (cons v vs)) else none
child_values _ = none

unfoldable pub compile_group :
    Runtime → Child → (Conditions → Condition) → Fields → String → Result PolicyFailure Condition
unfolding elements compile_children
compile_group runtime child group fs path = do
  exact_keys fs ("operator" ∷ "conditions" ∷ []) path
  values ←
      require (child_values (get_field "conditions" fs))
        (failure invalid_condition (below path "conditions") "Expected bounded condition array")
  conditions ← compile_children runtime child values (below path "conditions") 0
  ok (group conditions)

-- `compileCondition` on an object that is not a group.
unfoldable pub single : Runtime → Child → Fields → Fields → String → Result PolicyFailure Condition
unfolding compile_leaf leaf_operator
single runtime child constants fs path =
    let operator = get_field "operator" fs in
    if is_text operator "not"
    then (exact_keys fs ("operator" ∷ "condition" ∷ []) path >>= λ _.
        child (get_field "condition" fs) (below path "condition") >>= λ condition.
        ok (not_of condition))
    else (require (elim (as_text operator) [ none ↦ none | some s ↦ leaf_operator s ])
          (failure invalid_condition (below path "operator") "Unknown condition operator")
        >>= λ op. compile_leaf op constants fs path)

-- `compileCondition` on an object.
unfoldable pub compile_node :
    Runtime → Child → Fields → Fields → String → Result PolicyFailure Condition
unfolding compile_group single
compile_node runtime child constants fs path =
    let operator = get_field "operator" fs in
    if is_text operator "all"
    then compile_group runtime child all_of fs path
    else if is_text operator "any"
    then compile_group runtime child any_of fs path
    else single runtime child constants fs path

-- `compileCondition`; `levels` is one more than `remainingDepth`, which goes down to -1.
unfoldable pub compile_condition : Runtime → ℕ → Fields → Child
unfolding compile_node
compile_condition runtime zero constants value path =
    err (failure invalid_condition path "Condition depth exceeds four")
compile_condition runtime (suc levels) constants value path = do
  fs ← require (as_record value) (failure invalid_condition path "Condition depth exceeds four")
  compile_node runtime (compile_condition runtime levels constants) constants fs path
