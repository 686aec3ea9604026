-- ===== src/Policy/SortedRules.antt =====
-- The sorts of `compilePolicySet` of packages/policy/src/index.ts keep the rules and the names of the
-- constants.
use ai_software_engineering.Prelude.{
  is_there, ℕ, zero, suc, String, ◌≡◌, refl, ◌∙◌, inl, inr, true, false, ◌||◌, List, [], ◌∷◌, arith,
  ◌==◌, eq_iff, Bool-cases, Option-cases, length, includes, units_lt, code_units, All, text_lt,
}
use ai_software_engineering.Contracts.Json.{Json, Fields, end, field, get_field}
use ai_software_engineering.Policy.Data.{
  Condition, leaf, all_of, any_of, not_of, Conditions, none_left, and_then, PolicyRule,
}
use ai_software_engineering.Policy.Condition.{strip_prefix}
use ai_software_engineering.Policy.Values.{distinct}
use ai_software_engineering.Policy.CompileSet.{
  rule_ids, insert_rule, sort_rules, insert_field, sort_fields,
}
use ai_software_engineering.Policy.WellFormed.{is_declared, IsWellFormed, AllWellFormed}

-- No rule's identity is smaller than the one before it.
abbrev pub IsSorted : List PolicyRule → Type 0
IsSorted [] = Unit {0}
IsSorted (r ∷ []) = Unit {0}
IsSorted (r ∷ q ∷ qs) = (text_lt q.rule_id r.rule_id ≡ false) × IsSorted (q ∷ qs)

units_lt-asym : (xs ys : List ℕ) → units_lt xs ys ≡ true → units_lt ys xs ≡ false
units_lt-asym xs [] h = cc h
units_lt-asym [] (y ∷ ys) h = refl
units_lt-asym (x ∷ xs) (y ∷ ys) h = ground (arith, units_lt-asym xs ys)

text_lt-asym : (s t : String) → text_lt s t ≡ true → text_lt t s ≡ false
text_lt-asym s t h = units_lt-asym (code_units s) (code_units t) h

insert-IsSorted :
    (r : PolicyRule) (rs : List PolicyRule) → IsSorted rs → IsSorted (insert_rule r rs)
unfolding insert_rule
insert-IsSorted r [] h = tt
insert-IsSorted r (q ∷ []) h = elim (Bool-cases (text_lt q.rule_id r.rule_id)) [
  | inl small ↦ rw small (text_lt-asym q.rule_id r.rule_id small, tt)
  | inr large ↦ rw large (large, tt)
]
insert-IsSorted r (q ∷ p ∷ ps) h = elim (Bool-cases (text_lt q.rule_id r.rule_id)) [
  | inr large ↦ rw large (large, h)
  | inl small ↦ elim (Bool-cases (text_lt p.rule_id r.rule_id)) [
    | inl smaller ↦ rw (small, smaller) (h.0, (rw smaller at (insert-IsSorted r (p ∷ ps) h.1)))
    | inr larger ↦ rw (small, larger) (text_lt-asym q.rule_id r.rule_id small, (larger, h.1))
  ]
]

pub sort-IsSorted : (rs : List PolicyRule) → IsSorted (sort_rules rs)
unfolding sort_rules
sort-IsSorted [] = tt
sort-IsSorted (r ∷ rs) = insert-IsSorted r (sort_rules rs) (sort-IsSorted rs)

==-sym : (s t : String) → (s == t) ≡ (t == s)
==-sym s t = ground (arith, eq_iff s t, eq_iff t s)

includes-insert_rule :
    (s : String) (r : PolicyRule) (rs : List PolicyRule)
    → includes s (rule_ids (insert_rule r rs)) ≡ (r.rule_id == s || includes s (rule_ids rs))
unfolding insert_rule
includes-insert_rule s r [] = refl
includes-insert_rule s r (q ∷ qs) = ground (arith, includes-insert_rule s r qs)

distinct-insert_rule :
    (r : PolicyRule) (rs : List PolicyRule)
    → distinct (rule_ids (insert_rule r rs)) ≡ distinct (rule_ids (r ∷ rs))
unfolding insert_rule distinct
distinct-insert_rule r [] = refl
distinct-insert_rule r (q ∷ qs) = ground (
  arith,
  distinct-insert_rule r qs,
  includes-insert_rule q.rule_id r qs,
  ==-sym q.rule_id r.rule_id,
)

includes-sort_rules :
    (s : String) (rs : List PolicyRule)
    → includes s (rule_ids (sort_rules rs)) ≡ includes s (rule_ids rs)
unfolding sort_rules
includes-sort_rules s [] = refl
includes-sort_rules s (r ∷ rs) =
    ground (arith, includes-insert_rule s r (sort_rules rs), includes-sort_rules s rs)

pub distinct-sort_rules :
    (rs : List PolicyRule) → distinct (rule_ids (sort_rules rs)) ≡ distinct (rule_ids rs)
unfolding sort_rules distinct
distinct-sort_rules [] = refl
distinct-sort_rules (r ∷ rs) = ground (
  arith,
  distinct-insert_rule r (sort_rules rs),
  includes-sort_rules r.rule_id rs,
  distinct-sort_rules rs,
)

length-insert_rule :
    (r : PolicyRule) (rs : List PolicyRule) → length (insert_rule r rs) ≡ suc (length rs)
unfolding insert_rule
length-insert_rule r [] = refl
length-insert_rule r (q ∷ qs) = ground (arith, length-insert_rule r qs)

pub length-sort_rules : (rs : List PolicyRule) → length (sort_rules rs) ≡ length rs
unfolding sort_rules
length-sort_rules [] = refl
length-sort_rules (r ∷ rs) =
    omega (arith, length-insert_rule r (sort_rules rs), length-sort_rules rs)

module _ {κ} (P : PolicyRule → Type κ) where
  All-insert_rule :
      (r : PolicyRule) (rs : List PolicyRule) → P r → All P rs → All P (insert_rule r rs)
  unfolding insert_rule
  All-insert_rule r [] p ps = (p, tt)
  All-insert_rule r (q ∷ qs) p ps = elim (Bool-cases (text_lt q.rule_id r.rule_id)) [
    | inl small ↦ rw small (ps.0, All-insert_rule r qs p ps.1)
    | inr large ↦ rw large (p, ps)
  ]

  pub All-sort_rules : (rs : List PolicyRule) → All P rs → All P (sort_rules rs)
  unfolding sort_rules
  All-sort_rules [] ps = tt
  All-sort_rules (r ∷ rs) ps = All-insert_rule r (sort_rules rs) ps.0 (All-sort_rules rs ps.1)

-- The sorted constants declare the same names.
declares-insert_field :
    (name k : String) (v : Json) (fs : Fields)
    → is_there (get_field name (insert_field k v fs)) ≡ (k == name || is_there (get_field name fs))
unfolding insert_field get_field
declares-insert_field name k v end = ground arith
declares-insert_field name k v (field j u fs) = ground (arith, declares-insert_field name k v fs)

declares-sort_fields :
    (name : String) (fs : Fields)
    → is_there (get_field name (sort_fields fs)) ≡ is_there (get_field name fs)
unfolding sort_fields get_field
declares-sort_fields name end = refl
declares-sort_fields name (field k v fs) =
    ground (arith, declares-insert_field name k v (sort_fields fs), declares-sort_fields name fs)

is_declared-sort_fields :
    (fs : Fields) (reference : String)
    → is_declared (sort_fields fs) reference ≡ is_declared fs reference
is_declared-sort_fields fs reference = elim (Option-cases (strip_prefix "constant." reference)) [
  | inl absent ↦ rw (absent, is_declared) refl
  | inr (name, present) ↦ rw (present, is_declared) (declares-sort_fields name fs)
]

mutual
  pub sorted-IsWellFormed :
      (constants : Fields) (levels : ℕ) (c : Condition)
      → IsWellFormed constants levels c
      → IsWellFormed (sort_fields constants) levels c
  sorted-IsWellFormed constants zero c h = absurd h
  sorted-IsWellFormed constants (suc levels) (leaf op reference operand) h =
      (is_declared-sort_fields constants reference ∙ h.0, h.1)
  sorted-IsWellFormed constants (suc levels) (all_of cs) h =
      (h.0, h.1, sorted-AllWellFormed constants levels cs h.2)
  sorted-IsWellFormed constants (suc levels) (any_of cs) h =
      (h.0, h.1, sorted-AllWellFormed constants levels cs h.2)
  sorted-IsWellFormed constants (suc levels) (not_of c) h = sorted-IsWellFormed constants levels c h

  sorted-AllWellFormed :
      (constants : Fields) (levels : ℕ) (cs : Conditions)
      → AllWellFormed constants levels cs
      → AllWellFormed (sort_fields constants) levels cs
  sorted-AllWellFormed constants levels none_left h = tt
  sorted-AllWellFormed constants levels (and_then c cs) h =
      (sorted-IsWellFormed constants levels c h.0, sorted-AllWellFormed constants levels cs h.1)
