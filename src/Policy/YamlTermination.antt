-- ===== src/Policy/YamlTermination.antt =====
-- `parseYamlNode` of packages/policy/src/index.ts ends: each round of its loops and each nested call
-- leaves a line behind.
use ai_software_engineering.Prelude.{
  is_there, ℕ, zero, suc, ◌+◌, ◌*◌, ◌≤◌, String, ◌≢◌, inl, inr, Bool, not, ◌&&◌, Option, List, [],
  ◌∷◌, arith, ltb, nat_eq, if◌then◌else◌, Bool-cases, Option-cases, length, Result, ok, err, ◌>>=◌,
  ◌>>◌, throw_if, require,
}
use ai_software_engineering.Contracts.Json.{Json, obj, Fields, end, field, object, get_field}
use ai_software_engineering.Contracts.Canonical.{Runtime}
use ai_software_engineering.Policy.Data.{invalid_yaml, PolicyFailure}
use ai_software_engineering.Policy.Values.{assert_policy_json}
use ai_software_engineering.Policy.YamlText.{
  Readers, RestrictedYamlLimits, is_empty_text, begins_mapping, yaml_failure, parse_scalar,
  split_mapping,
}
use ai_software_engineering.Policy.Yaml.{
  YamlLine, Stop, thrown, out_of_fuel, lift, line_at, line_number, is_sequence_line, marker_rest,
  put_entries, count_node, Call, child_or, value_of, join_tail, tail_of, mapping_item,
  sequence_item, sequence_round, mapping_round, parse_node, parse_sequence, parse_mapping,
}
use ai_software_engineering.Policy.YamlOutcome.{
  Holds, Holds-bind, Holds-lift, Holds-require, Holds-throw_if, Holds-if, Holds-weaken,
}
use ai_software_engineering.Policy.YamlSource.{
  read_lines, no_more, enough_fuel, parse_restricted_policy_yaml,
}

-- The fuel is not spent, and at most so many lines are left.
abbrev pub Ends : {A : Type 0} → ℕ → Result Stop (A × List YamlLine × ℕ) → Type 0
Ends n r = Holds ⊥ (λ p. length p.1 ≤ n) r

module _ {A B : Type 0} (n : ℕ) where
  Ends-bind :
      (m : Result Stop (A × List YamlLine × ℕ))
      (f : A × List YamlLine × ℕ → Result Stop (B × List YamlLine × ℕ))
      → Ends n m
      → ((v : A) (rest : List YamlLine) (nodes : ℕ) → length rest ≤ n → Ends n (f (v, rest, nodes)))
      → Ends n (m >>= f)
  Ends-bind m f h k =
      Holds-bind ⊥ (λ (p : B × List YamlLine × ℕ). length p.1 ≤ n)
        (λ (p : A × List YamlLine × ℕ). length p.1 ≤ n) m f h (λ p. k p.0 p.1 p.2)

  Ends-lift :
      (m : Result PolicyFailure A) (f : A → Result Stop (B × List YamlLine × ℕ))
      → ((a : A) → Ends n (f a))
      → Ends n (lift m >>= f)
  Ends-lift m f k = Holds-lift ⊥ (λ (p : B × List YamlLine × ℕ). length p.1 ≤ n) m f (λ a _. k a)

  Ends-require :
      (o : Option A) (e : PolicyFailure) (f : A → Result Stop (B × List YamlLine × ℕ))
      → ((a : A) → Ends n (f a))
      → Ends n (require o (thrown e) >>= f)
  Ends-require = Holds-require ⊥ (λ (p : B × List YamlLine × ℕ). length p.1 ≤ n)

module _ {B : Type 0} (n : ℕ) where
  Ends-throw_if :
      (t : Bool) (e : PolicyFailure) (m : Result Stop (B × List YamlLine × ℕ))
      → Ends n m
      → Ends n (throw_if t (thrown e) >> m)
  Ends-throw_if t e m h =
      Holds-throw_if ⊥ (λ (p : B × List YamlLine × ℕ). length p.1 ≤ n) t e m (λ _. h)

  Ends-weaken : (m : ℕ) (r : Result Stop (B × List YamlLine × ℕ)) → n ≤ m → Ends n r → Ends m r
  Ends-weaken m r le h =
      Holds-weaken ⊥ (λ (p : B × List YamlLine × ℕ). length p.1 ≤ n) (λ p. length p.1 ≤ m) r
        (λ p few. omega arith) h

  Ends-if :
      (t : Bool) (r s : Result Stop (B × List YamlLine × ℕ))
      → Ends n r
      → Ends n s
      → Ends n (if t then r else s)
  Ends-if = Holds-if ⊥ (λ (p : B × List YamlLine × ℕ). length p.1 ≤ n)

module _ (runtime : Runtime) (readers : Readers) (limits : RestrictedYamlLimits) where
  -- The calls on at most so many lines end.
  abbrev AllEnd : ℕ → Call runtime readers limits → Type 0
  AllEnd n call =
      (ls : List YamlLine) (indent depth nodes : ℕ)
      → length ls ≤ n
      → Ends (length ls) (call ls indent depth nodes)

  count-Ends :
      {B : Type 0} (n nodes line : ℕ) (f : ℕ → Result Stop (B × List YamlLine × ℕ))
      → ((a : ℕ) → Ends n (f a))
      → Ends n (count_node runtime readers limits nodes line >>= f)
  count-Ends n nodes line f k = elim (Bool-cases (ltb limits.max_nodes (nodes + 1))) [
    | inl over ↦ rw over tt
    | inr within ↦ rw within (k (nodes + 1))
  ]

  module _ (call : Call runtime readers limits) (ls : List YamlLine)
      (ends : AllEnd (length ls) call) where
    child-Ends :
        (message : String) (line indent depth nodes : ℕ)
        → Ends (length ls) (child_or runtime readers limits call message line ls indent depth nodes)
    child-Ends message line indent depth nodes = elim (Option-cases (line_at indent ls)) [
      | inl absent ↦ rw (absent, child_or) tt
      | inr (next, present) ↦ rw (present, child_or) (ends ls indent depth nodes (omega arith))
    ]

    value-Ends :
        (source : String) (line indent depth nodes : ℕ)
        → Ends (length ls) (value_of runtime readers limits call source line ls indent depth nodes)
    value-Ends source line indent depth nodes =
        Ends-if (length ls) (is_empty_text source) _ _
          (child-Ends "Missing mapping child" line indent depth nodes)
          (Ends-lift (length ls) (parse_scalar runtime readers source line limits.max_scalar_length)
            _ (λ v. omega arith))

    entries-Ends :
        (line : ℕ) (fs : Fields) (tail : Json) (after : List YamlLine) (nodes : ℕ)
        → length after ≤ length ls
        → Ends (length ls) (join_tail runtime readers limits line fs (tail, after, nodes))
    entries-Ends line fs (obj more) after nodes h = elim (Option-cases (put_entries fs more)) [
      | inl twice ↦ rw (twice, join_tail) tt
      | inr (whole, once) ↦ rw (once, join_tail) h
    ]
    entries-Ends line fs _ after nodes h = tt

    tail-Ends :
        (line : ℕ) (fs : Fields) (indent depth : ℕ) (v : Json) (rest : List YamlLine) (nodes : ℕ)
        → length rest ≤ length ls
        → Ends
            (length ls)
            (tail_of runtime readers limits call line fs indent depth (v, rest, nodes))
    tail-Ends line fs indent depth v rest nodes h = elim (Option-cases (line_at indent rest)) [
      | inl absent ↦ rw (absent, tail_of) h
      | inr (next, present) ↦
          rw (present, tail_of)
            (Ends-if (length ls) (is_sequence_line next) _ _ h (
              Ends-bind (length ls) (call rest indent depth nodes) _
                (Ends-weaken (length rest) (length ls) _ h (ends rest indent depth nodes h))
                (entries-Ends line fs)))
    ]

    mapping_item-Ends :
        (rest : String) (line indent depth nodes : ℕ)
        → Ends
            (length ls)
            (mapping_item runtime readers limits call rest line ls indent depth nodes)
    unfolding mapping_item
    mapping_item-Ends rest line indent depth nodes =
        Ends-lift (length ls) (split_mapping runtime rest line) _ (λ m.
          Ends-bind (length ls)
            (value_of runtime readers limits call m.1 line ls (indent + 4) (depth + 2) nodes) _
            (value-Ends m.1 line (indent + 4) (depth + 2) nodes)
            (λ v after nodes' h.
              Ends-bind (length ls)
                (tail_of runtime readers limits call line (field m.0 v end) (indent + 2) (depth + 1)
                  (v, after, nodes'))
                _ (tail-Ends line (field m.0 v end) (indent + 2) (depth + 1) v after nodes' h)
                (λ fs after' nodes'' h'. h')))

    item-Ends :
        (rest : String) (line indent depth nodes : ℕ)
        → Ends
            (length ls)
            (sequence_item runtime readers limits call rest line ls indent depth nodes)
    unfolding sequence_item
    item-Ends rest line indent depth nodes =
        Ends-if (length ls) (is_empty_text rest) _ _
          (child-Ends "Missing sequence child" line (indent + 2) (depth + 1) nodes)
          (Ends-if (length ls) (begins_mapping rest) _ _
            (mapping_item-Ends rest line indent depth nodes)
            (Ends-lift (length ls) (parse_scalar runtime readers rest line limits.max_scalar_length)
              _ (λ v. omega arith)))

    sequence_round-Ends :
        (l : YamlLine) (indent depth nodes : ℕ)
        → Ends (length ls) (sequence_round runtime readers limits call l ls indent depth nodes)
    unfolding sequence_round
    sequence_round-Ends l indent depth nodes =
        Ends-require (length ls) (marker_rest l.content)
          (yaml_failure runtime invalid_yaml l.line "Sequence marker requires a space") _
          (λ rest.
            count-Ends (length ls) nodes l.line _
              (λ nodes'. item-Ends rest l.line indent depth nodes'))

    mapping_round-Ends :
        (object : Fields) (l : YamlLine) (indent depth nodes : ℕ)
        → Ends
            (length ls)
            (mapping_round runtime readers limits call object l ls indent depth nodes)
    unfolding mapping_round
    mapping_round-Ends object l indent depth nodes =
        count-Ends (length ls) nodes l.line _ (λ nodes'.
          Ends-lift (length ls) (split_mapping runtime l.content l.line) _ (λ m.
            Ends-throw_if (length ls) (is_there (get_field m.0 object))
              (yaml_failure runtime invalid_yaml l.line "Duplicate mapping key") _
              (Ends-bind (length ls)
                (value_of runtime readers limits call m.1 l.line ls (indent + 2) (depth + 1) nodes')
                _ (value-Ends m.1 l.line (indent + 2) (depth + 1) nodes')
                (λ v after nodes'' few. few))))

  mutual
    unfolding parse_node

    node-Ends :
        (fuel : ℕ) (lines : List YamlLine) (indent depth nodes : ℕ)
        → 2 * length lines + 2 ≤ fuel
        → Ends (length lines) (parse_node runtime readers limits fuel lines indent depth nodes)
    node-Ends zero lines indent depth nodes h = absurd (omega arith)
    node-Ends (suc fuel) lines indent depth nodes h =
        Ends-if (length lines) (ltb limits.max_depth depth) _ _ tt
          (elim (Option-cases (line_at indent lines)) [
            | inl absent ↦ rw (absent, Ends) tt
            | inr (first, present) ↦
                rw (present, Ends)
                  (Ends-if (length lines) (is_sequence_line first) _ _
                    (Ends-bind (length lines)
                      (parse_sequence runtime readers limits fuel lines indent depth nodes) _
                      (sequence-Ends fuel lines indent depth nodes (omega arith))
                      (λ vs rest nodes' h'. h'))
                    (Ends-bind (length lines)
                      (parse_mapping runtime readers limits fuel end lines indent depth nodes) _
                      (mapping-Ends fuel end lines indent depth nodes (omega arith))
                      (λ fs rest nodes' h'. h')))
          ])

    sequence-Ends :
        (fuel : ℕ) (lines : List YamlLine) (indent depth nodes : ℕ)
        → 2 * length lines + 1 ≤ fuel
        → Ends (length lines) (parse_sequence runtime readers limits fuel lines indent depth nodes)
    sequence-Ends zero lines indent depth nodes h = absurd (omega arith)
    sequence-Ends (suc fuel) [] indent depth nodes h = omega arith
    sequence-Ends (suc fuel) (l ∷ ls) indent depth nodes h =
        Ends-if (suc (length ls)) (nat_eq l.indent indent && is_sequence_line l) _ _
          (Ends-weaken (length ls) (suc (length ls)) _ (omega arith) (
            Ends-bind (length ls)
              (sequence_round runtime readers limits (parse_node runtime readers limits fuel) l ls
                indent depth nodes)
              _
              (sequence_round-Ends (parse_node runtime readers limits fuel) ls
                (λ below_lines i d n few. node-Ends fuel below_lines i d n (omega arith)) l indent
                depth nodes)
              (λ v after nodes' few.
                Ends-bind (length ls)
                  (parse_sequence runtime readers limits fuel after indent depth nodes') _
                  (Ends-weaken (length after) (length ls) _ few
                    (sequence-Ends fuel after indent depth nodes' (omega arith)))
                  (λ vs rest nodes'' fewer. fewer))))
          (omega arith)

    mapping-Ends :
        (fuel : ℕ) (object : Fields) (lines : List YamlLine) (indent depth nodes : ℕ)
        → 2 * length lines + 1 ≤ fuel
        → Ends
            (length lines)
            (parse_mapping runtime readers limits fuel object lines indent depth nodes)
    mapping-Ends zero object lines indent depth nodes h = absurd (omega arith)
    mapping-Ends (suc fuel) object [] indent depth nodes h = omega arith
    mapping-Ends (suc fuel) object (l ∷ ls) indent depth nodes h =
        Ends-if (suc (length ls)) (nat_eq l.indent indent && not (is_sequence_line l)) _ _
          (Ends-weaken (length ls) (suc (length ls)) _ (omega arith) (
            Ends-bind (length ls)
              (mapping_round runtime readers limits (parse_node runtime readers limits fuel) object
                l ls indent depth nodes)
              _
              (mapping_round-Ends (parse_node runtime readers limits fuel) ls
                (λ below_lines i d n few. node-Ends fuel below_lines i d n (omega arith)) object l
                indent depth nodes)
              (λ object' after nodes' few.
                Ends-weaken (length after) (length ls) _ few
                  (mapping-Ends fuel object' after indent depth nodes' (omega arith)))))
          (omega arith)

Holds-unspent : {A : Type 0} (r : Result Stop A) → Holds ⊥ (λ a. Unit {0}) r → r ≢ err out_of_fuel
Holds-unspent (ok a) h spent = cc spent
Holds-unspent (err (thrown e)) h spent = cc spent
Holds-unspent (err out_of_fuel) h spent = h

-- The parser of the restricted YAML ends on every source, whatever the limits are: the fuel that it is
-- given, two more than twice the number of lines, is never spent.
pub parse_yaml_terminates :
    (runtime : Runtime) (readers : Readers) (limits : RestrictedYamlLimits) (source : String)
    → parse_restricted_policy_yaml runtime readers limits source ≢ err out_of_fuel
unfolding parse_restricted_policy_yaml
parse_yaml_terminates runtime readers limits source =
    Holds-unspent (parse_restricted_policy_yaml runtime readers limits source) (
      Holds-lift ⊥ (λ _. Unit {0}) (read_lines runtime limits source) _
        (λ lines _.
          Holds-bind ⊥ (λ _. Unit {0}) (λ p. length p.1 ≤ length lines)
            (parse_node runtime readers limits (enough_fuel runtime lines) lines 0 0 0) _
            (node-Ends runtime readers limits (enough_fuel runtime lines) lines 0 0 0 (omega arith))
            (λ p few.
              Holds-throw_if ⊥ (λ _. Unit {0}) (not (no_more runtime p.1))
                (yaml_failure runtime invalid_yaml (line_number p.1)
                  "Trailing or inconsistent content")
                _
                (λ _.
                  Holds-lift ⊥ (λ _. Unit {0}) (assert_policy_json runtime p.0 "$") _
                    (λ _ _. tt)))))
