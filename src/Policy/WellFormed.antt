-- ===== src/Policy/WellFormed.antt =====
-- What `compileCondition` of packages/policy/src/index.ts makes: conditions of bounded depth and width
-- whose references are all in the typed namespace.
use ai_software_engineering.Prelude.{
  is_there, ℕ, zero, suc, ◌+◌, ◌≤◌, String, ◌≡◌, refl, sym, ap, subst, inl, inr, Bool, true, false,
  not, ◌&&◌, Option, none, some, List, [], ◌∷◌, arith, Bool-cases, Option-cases, length, includes,
  ok, >>=-eq-ok, throw_if-eq-ok, require-eq-ok, ok-injective,
}
use ai_software_engineering.Contracts.Json.{Json, arr, nil, cons, Fields, elements, get_field}
use ai_software_engineering.Contracts.Canonical.{Runtime}
use ai_software_engineering.Policy.Data.{
  Operator, Condition, leaf, all_of, any_of, not_of, Conditions, none_left, and_then,
}
use ai_software_engineering.Policy.Condition.{strip_prefix}
use ai_software_engineering.Policy.Values.{
  below, as_record, as_text, is_text, required_string, any_text, exact_keys,
}
use ai_software_engineering.Policy.CompileCondition.{
  leaf_operator, allowed_input_references, constant_reference, is_exists, undeclared, compile_leaf,
  Child, compile_children, child_values, compile_group, single, compile_node, compile_condition,
}

abbrev pub count : Conditions → ℕ
count none_left = 0
count (and_then c cs) = suc (count cs)

-- A reference to a member of the input, or to a constant that is declared.
abbrev pub is_declared : Fields → String → Bool
is_declared constants reference = elim (strip_prefix "constant." reference) [
  | none ↦ includes reference allowed_input_references
  | some name ↦ is_there (get_field name constants)
]

abbrev mutual
  -- At most so many levels, 1 to 32 children in a group, declared references, and an operand just
  -- where the operator has one.
  pub IsWellFormed : Fields → ℕ → Condition → Type 0
  IsWellFormed constants zero condition = ⊥
  IsWellFormed constants (suc levels) (leaf op reference operand) =
      (is_declared constants reference ≡ true) × (is_there operand ≡ not (is_exists op))
  IsWellFormed constants (suc levels) (all_of cs) =
      (1 ≤ count cs) × (count cs ≤ 32) × AllWellFormed constants levels cs
  IsWellFormed constants (suc levels) (any_of cs) =
      (1 ≤ count cs) × (count cs ≤ 32) × AllWellFormed constants levels cs
  IsWellFormed constants (suc levels) (not_of c) = IsWellFormed constants levels c

  pub AllWellFormed : Fields → ℕ → Conditions → Type 0
  AllWellFormed constants levels none_left = Unit {0}
  AllWellFormed constants levels (and_then c cs) =
      IsWellFormed constants levels c × AllWellFormed constants levels cs

reference-declared :
    (constants : Fields) (reference : String)
    → (not (includes reference allowed_input_references) && not (constant_reference reference))
      ≡ false
    → undeclared constants reference ≡ false
    → is_declared constants reference ≡ true
unfolding constant_reference
reference-declared constants reference inside known =
    elim (Option-cases (strip_prefix "constant." reference)) [
      | inl absent ↦ ground arith
      | inr (name, present) ↦ ground arith
    ]

operand_fits :
    (without given : Bool)
    → (not without && not given) ≡ false
    → (without && given) ≡ false
    → given ≡ not without
operand_fits without given needed unneeded = ground arith

-- The tests of a leaf that passes.
leaf-IsWellFormed :
    (op : Operator) (constants fs : Fields) (path : String) (levels : ℕ) {c : Condition}
    → compile_leaf op constants fs path ≡ ok c
    → IsWellFormed constants (suc levels) c
unfolding compile_leaf constant_reference
leaf-IsWellFormed op constants fs path levels h =
    let (_, _, h1) = >>=-eq-ok (exact_keys fs _ path) _ h in
    let (reference, _, h2) = >>=-eq-ok (required_string fs "reference" path any_text none 1) _ h1 in
    let (inside, h3) = throw_if-eq-ok _ _ _ h2 in
    let (known, h4) = throw_if-eq-ok _ _ _ h3 in
    let (needed, h5) = throw_if-eq-ok _ _ _ h4 in
    let (unneeded, h6) = throw_if-eq-ok _ _ _ h5 in
    let sound : IsWellFormed constants (suc levels) (leaf op reference (get_field "operand" fs)) = (
      reference-declared constants reference inside known,
      operand_fits (is_exists op) _ needed unneeded,
    ) in
    subst (IsWellFormed constants (suc levels)) (ok-injective h6) sound

-- The array of children that a group takes.
child_values_bounded :
    (value : Option Json) {vs : List Json}
    → child_values value ≡ some vs
    → (1 ≤ length vs) × (length vs ≤ 32)
unfolding elements
child_values_bounded none h = cc
child_values_bounded (some (arr nil)) h = cc
child_values_bounded (some (arr (cons v vs))) h = ground arith
child_values_bounded (some _) h = cc

-- The children of a group are well-formed where the call for a child makes it so.
module _ (runtime : Runtime) (constants : Fields) (levels : ℕ) (child : Child)
    (sound : (v : Option Json) (path : String) (c : Condition)
      → child v path ≡ ok c
      → IsWellFormed constants levels c) where
  children-IsWellFormed :
      (vs : List Json) (path : String) (index : ℕ) {cs : Conditions}
      → compile_children runtime child vs path index ≡ ok cs
      → (count cs ≡ length vs) × AllWellFormed constants levels cs
  unfolding compile_children
  children-IsWellFormed [] path index {cs} h =
      subst (λ cs'. (count cs' ≡ 0) × AllWellFormed constants levels cs') (ok-injective h)
        (refl, tt)
  children-IsWellFormed (v ∷ vs) path index h =
      let (c, first, h1) = >>=-eq-ok (child (some v) _) _ h in
      let (rest, others, h2) =
        >>=-eq-ok (compile_children runtime child vs path (index + 1)) _ h1 in
      let (same, all_sound) = children-IsWellFormed vs path (index + 1) others in
      subst (λ cs'. (count cs' ≡ suc (length vs)) × AllWellFormed constants levels cs')
        (ok-injective h2) (ap suc same, (sound (some v) _ c first, all_sound))

  group_children :
      (fs : Fields) (path : String) (group : Conditions → Condition) {c : Condition}
      → compile_group runtime child group fs path ≡ ok c
      → (cs : Conditions) × (c ≡ group cs)
        × (1 ≤ count cs)
        × (count cs ≤ 32)
        × AllWellFormed constants levels cs
  unfolding compile_group
  group_children fs path group h =
      let (_, _, h1) = >>=-eq-ok (exact_keys fs _ path) _ h in
      let (vs, bounded, h2) = require-eq-ok (child_values (get_field "conditions" fs)) _ _ h1 in
      let (cs, compiled, h3) =
        >>=-eq-ok (compile_children runtime child vs (below path "conditions") 0) _ h2 in
      let (same, all_sound) = children-IsWellFormed vs (below path "conditions") 0 compiled in
      let (few, many) = child_values_bounded (get_field "conditions" fs) bounded in
      (cs, sym (ok-injective h3), omega arith, omega arith, all_sound)

  single-IsWellFormed :
      (fs : Fields) (path : String) {c : Condition}
      → single runtime child constants fs path ≡ ok c
      → IsWellFormed constants (suc levels) c
  unfolding single
  single-IsWellFormed fs path h = elim (Bool-cases (is_text (get_field "operator" fs) "not")) [
    | inl not_name ↦
        let (_, _, h1) = >>=-eq-ok (exact_keys fs _ path) _ (rw not_name at h) in
        let (c, compiled, h2) = >>=-eq-ok (child (get_field "condition" fs) _) _ h1 in
        subst (IsWellFormed constants (suc levels)) (ok-injective h2) (sound _ _ c compiled)
    | inr leaf_name ↦
        let (op, _, h1) =
          require-eq-ok
            (elim (as_text (get_field "operator" fs)) [ none ↦ none | some s ↦ leaf_operator s ]) _
            _ (rw leaf_name at h) in
        leaf-IsWellFormed op constants fs path levels h1
  ]

  node-IsWellFormed :
      (fs : Fields) (path : String) {c : Condition}
      → compile_node runtime child constants fs path ≡ ok c
      → IsWellFormed constants (suc levels) c
  unfolding compile_node
  node-IsWellFormed fs path h = elim (Bool-cases (is_text (get_field "operator" fs) "all")) [
    | inl all_name ↦
        let (cs, same, few, many, children) = group_children fs path all_of (rw all_name at h) in
        subst (IsWellFormed constants (suc levels)) (sym same) (few, many, children)
    | inr not_all ↦ elim (Bool-cases (is_text (get_field "operator" fs) "any")) [
      | inl any_name ↦
          let (cs, same, few, many, children) =
            group_children fs path any_of (rw (not_all, any_name) at h) in
          subst (IsWellFormed constants (suc levels)) (sym same) (few, many, children)
      | inr not_any ↦ single-IsWellFormed fs path (rw (not_all, not_any) at h)
    ]
  ]

-- A compiled condition has at most as many levels as are left, groups of 1 to 32 children, an operand
-- just where its operator has one, and no reference but to the input and to declared constants.
pub compile_condition-IsWellFormed :
    (runtime : Runtime) (levels : ℕ) (constants : Fields) (value : Option Json) (path : String)
    (c : Condition)
    → compile_condition runtime levels constants value path ≡ ok c
    → IsWellFormed constants levels c
unfolding compile_condition
compile_condition-IsWellFormed runtime zero constants value path c h = cc
compile_condition-IsWellFormed runtime (suc levels) constants value path c h =
    let (fs, _, h1) = require-eq-ok (as_record value) _ _ h in
    node-IsWellFormed runtime constants levels (compile_condition runtime levels constants)
      (compile_condition-IsWellFormed runtime levels constants) fs path h1
