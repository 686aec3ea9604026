-- ===== src/Policy/YamlShape.antt =====
-- What `parseYamlNode` of packages/policy/src/index.ts makes.
use ai_software_engineering.Prelude.{
  is_there, ℕ, zero, suc, ◌+◌, ◌≤◌, String, ◌≡◌, refl, subst, inl, inr, not, ◌&&◌, List, [], ◌∷◌,
  arith, ltb, nat_eq, Option-cases, ok,
}
use ai_software_engineering.Contracts.Json.{Json, obj, Items, Fields, end, field, get_field}
use ai_software_engineering.Contracts.Canonical.{Runtime}
use ai_software_engineering.Policy.Data.{invalid_yaml}
use ai_software_engineering.Policy.Values.{assert_policy_json}
use ai_software_engineering.Policy.YamlText.{
  Readers, RestrictedYamlLimits, is_empty_text, begins_mapping, yaml_failure, parse_scalar,
  split_mapping,
}
use ai_software_engineering.Policy.Yaml.{
  YamlLine, line_at, line_number, is_sequence_line, marker_rest, put_entries, count_node, Call,
  child_or, value_of, join_tail, tail_of, mapping_item, sequence_item, sequence_round,
  mapping_round, parse_node, parse_sequence, parse_mapping,
}
use ai_software_engineering.Policy.YamlSource.{
  read_lines, no_more, enough_fuel, parse_restricted_policy_yaml,
}
use ai_software_engineering.Policy.YamlOutcome.{
  Holds, Holds-bind, Holds-lift, Holds-require, Holds-throw_if, Holds-if, Holds-if_not,
}
use ai_software_engineering.Policy.YamlRestricted.{
  IsRestricted, ItemsRestricted, FieldsRestricted, put_last-FieldsRestricted,
  entries-FieldsRestricted, split_mapping-safe, not_there, scalar-IsRestricted,
}

-- A parsed value, and parsed members, of at most so many levels.
abbrev Shallow : ℕ → Json × List YamlLine × ℕ → Type 0
Shallow n p = IsRestricted n p.0

abbrev AllShallow : ℕ → Items × List YamlLine × ℕ → Type 0
AllShallow n p = ItemsRestricted n p.0

abbrev ShallowMembers : ℕ → Fields × List YamlLine × ℕ → Type 0
ShallowMembers n p = FieldsRestricted n p.0

abbrev Anything : Type 0
Anything = Unit {0}

module _ (runtime : Runtime) (readers : Readers) (limits : RestrictedYamlLimits) where
  -- A call makes values of the levels that are left at its depth.
  abbrev Makes : Call runtime readers limits → Type 0
  Makes call =
      (ls : List YamlLine) (indent depth nodes n : ℕ)
      → limits.max_depth + 2 ≤ n + depth
      → Holds Anything (Shallow n) (call ls indent depth nodes)

  child-Shallow :
      (call : Call runtime readers limits) (message : String) (line : ℕ) (ls : List YamlLine)
      (indent depth nodes n : ℕ)
      → Holds Anything (Shallow n) (call ls indent depth nodes)
      → Holds Anything
          (Shallow n)
          (child_or runtime readers limits call message line ls indent depth nodes)
  child-Shallow call message line ls indent depth nodes n h =
      elim (Option-cases (line_at indent ls)) [
        | inl absent ↦ rw (absent, child_or) tt
        | inr (next, present) ↦ rw (present, child_or) h
      ]

  value-Shallow :
      (call : Call runtime readers limits) (source : String) (line : ℕ) (ls : List YamlLine)
      (indent depth nodes n : ℕ)
      → Holds Anything (Shallow n) (call ls indent depth nodes)
      → Holds Anything
          (Shallow n)
          (value_of runtime readers limits call source line ls indent depth nodes)
  value-Shallow call source line ls indent depth nodes n h =
      Holds-if Anything (Shallow n) (is_empty_text source) _ _
        (child-Shallow call "Missing mapping child" line ls indent depth nodes n h)
        (Holds-lift Anything (Shallow n)
          (parse_scalar runtime readers source line limits.max_scalar_length) _
          (λ v. scalar-IsRestricted runtime readers source line limits.max_scalar_length n))

  count-Holds :
      (nodes line : ℕ)
      → Holds Anything (λ _. Anything) (count_node runtime readers limits nodes line)
  count-Holds nodes line =
      Holds-if Anything (λ _. Anything) (ltb limits.max_nodes (nodes + 1)) _ _ tt tt

  mapping_round-ShallowMembers :
      (call : Call runtime readers limits) (object : Fields) (l : YamlLine) (ls : List YamlLine)
      (indent depth nodes n : ℕ)
      → Makes call
      → limits.max_depth + 2 ≤ n + (depth + 1)
      → FieldsRestricted n object
      → Holds Anything
          (ShallowMembers n)
          (mapping_round runtime readers limits call object l ls indent depth nodes)
  unfolding mapping_round
  mapping_round-ShallowMembers call members l ls indent depth nodes n makes deep h =
      Holds-bind Anything (ShallowMembers n) (λ _. Anything)
        (count_node runtime readers limits nodes l.line) _ (count-Holds nodes l.line)
        (λ nodes' _.
          Holds-lift Anything (ShallowMembers n) (split_mapping runtime l.content l.line) _
            (λ m named.
              Holds-throw_if Anything (ShallowMembers n) (is_there (get_field m.0 members))
                (yaml_failure runtime invalid_yaml l.line "Duplicate mapping key") _
                (λ absent.
                  Holds-bind Anything (ShallowMembers n) (Shallow n)
                    (value_of runtime readers limits call m.1 l.line ls (indent + 2) (depth + 1)
                      nodes')
                    _
                    (value-Shallow call m.1 l.line ls (indent + 2) (depth + 1) nodes' n
                      (makes ls (indent + 2) (depth + 1) nodes' n deep))
                    (λ p ok_v.
                      let (key, safe) = split_mapping-safe runtime l.content l.line named in
                      put_last-FieldsRestricted n m.0 p.0 members key safe
                        (not_there (get_field m.0 members) absent) ok_v h))))

  join_tail-ShallowMembers :
      (line : ℕ) (fs : Fields) (n : ℕ) (p : Json × List YamlLine × ℕ)
      → FieldsRestricted n fs
      → IsRestricted (suc n) p.0
      → Holds Anything (ShallowMembers n) (join_tail runtime readers limits line fs p)
  join_tail-ShallowMembers line fs n (obj more, after, nodes) hf hm =
      elim (Option-cases (put_entries fs more)) [
        | inl twice ↦ rw (twice, join_tail) tt
        | inr (whole, once) ↦ rw (once, join_tail) (entries-FieldsRestricted n more fs once hf hm)
      ]
  join_tail-ShallowMembers line fs n (_, after, nodes) hf hm = tt

  tail-ShallowMembers :
      (call : Call runtime readers limits) (line : ℕ) (fs : Fields) (indent depth n : ℕ)
      (p : Json × List YamlLine × ℕ)
      → Makes call
      → limits.max_depth + 2 ≤ suc n + depth
      → FieldsRestricted n fs
      → Holds Anything
          (ShallowMembers n)
          (tail_of runtime readers limits call line fs indent depth p)
  tail-ShallowMembers call line fs indent depth n (v, rest, nodes) makes deep h =
      elim (Option-cases (line_at indent rest)) [
        | inl absent ↦ rw (absent, tail_of) h
        | inr (next, present) ↦
            rw (present, tail_of)
              (Holds-if Anything (ShallowMembers n) (is_sequence_line next) _ _ h (
                Holds-bind Anything (ShallowMembers n) (Shallow (suc n))
                  (call rest indent depth nodes) _ (makes rest indent depth nodes (suc n) deep)
                  (λ p. join_tail-ShallowMembers line fs n p h)))
      ]

  mapping_item-Shallow :
      (call : Call runtime readers limits) (rest : String) (line : ℕ) (ls : List YamlLine)
      (indent depth nodes n : ℕ)
      → Makes call
      → limits.max_depth + 2 ≤ suc n + (depth + 1)
      → Holds Anything
          (Shallow (suc n))
          (mapping_item runtime readers limits call rest line ls indent depth nodes)
  unfolding mapping_item get_field
  mapping_item-Shallow call rest line ls indent depth nodes n makes deep =
      Holds-lift Anything (Shallow (suc n)) (split_mapping runtime rest line) _ (λ m named.
        let (key, safe) = split_mapping-safe runtime rest line named in
        Holds-bind Anything (Shallow (suc n)) (Shallow n)
          (value_of runtime readers limits call m.1 line ls (indent + 4) (depth + 2) nodes) _
          (value-Shallow call m.1 line ls (indent + 4) (depth + 2) nodes n
            (makes ls (indent + 4) (depth + 2) nodes n (omega arith)))
          (λ p ok_v.
            Holds-bind Anything (Shallow (suc n)) (ShallowMembers n)
              (tail_of runtime readers limits call line (field m.0 p.0 end) (indent + 2) (depth + 1)
                p)
              _
              (tail-ShallowMembers call line (field m.0 p.0 end) (indent + 2) (depth + 1) n p makes
                deep (key, safe, refl, ok_v, tt))
              (λ q ok_q. ok_q)))

  item-Shallow :
      (call : Call runtime readers limits) (rest : String) (line : ℕ) (ls : List YamlLine)
      (indent depth nodes n : ℕ)
      → Makes call
      → limits.max_depth + 2 ≤ suc n + (depth + 1)
      → Holds Anything
          (Shallow (suc n))
          (sequence_item runtime readers limits call rest line ls indent depth nodes)
  unfolding sequence_item
  item-Shallow call rest line ls indent depth nodes n makes deep =
      Holds-if Anything (Shallow (suc n)) (is_empty_text rest) _ _
        (child-Shallow call "Missing sequence child" line ls (indent + 2) (depth + 1) nodes (suc n)
          (makes ls (indent + 2) (depth + 1) nodes (suc n) deep))
        (Holds-if Anything (Shallow (suc n)) (begins_mapping rest) _ _
          (mapping_item-Shallow call rest line ls indent depth nodes n makes deep)
          (Holds-lift Anything (Shallow (suc n))
            (parse_scalar runtime readers rest line limits.max_scalar_length) _
            (λ v. scalar-IsRestricted runtime readers rest line limits.max_scalar_length (suc n))))

  sequence_round-Shallow :
      (call : Call runtime readers limits) (l : YamlLine) (ls : List YamlLine)
      (indent depth nodes n : ℕ)
      → Makes call
      → limits.max_depth + 2 ≤ suc n + (depth + 1)
      → Holds Anything
          (Shallow (suc n))
          (sequence_round runtime readers limits call l ls indent depth nodes)
  unfolding sequence_round
  sequence_round-Shallow call l ls indent depth nodes n makes deep =
      Holds-require Anything (Shallow (suc n)) (marker_rest l.content)
        (yaml_failure runtime invalid_yaml l.line "Sequence marker requires a space") _
        (λ rest.
          Holds-bind Anything (Shallow (suc n)) (λ _. Anything)
            (count_node runtime readers limits nodes l.line) _ (count-Holds nodes l.line)
            (λ nodes' _. item-Shallow call rest l.line ls indent depth nodes' n makes deep))

  mutual
    unfolding parse_node

    node-Shallow :
        (fuel : ℕ) (lines : List YamlLine) (indent depth nodes n : ℕ)
        → limits.max_depth + 2 ≤ n + depth
        → Holds Anything
            (Shallow n)
            (parse_node runtime readers limits fuel lines indent depth nodes)
    node-Shallow zero lines indent depth nodes n deep = tt
    node-Shallow (suc fuel) lines indent depth nodes zero deep =
        Holds-if_not Anything (Shallow zero) (ltb limits.max_depth depth) _ _ tt
          (λ shallow. absurd (ground arith))
    node-Shallow (suc fuel) lines indent depth nodes (suc zero) deep =
        Holds-if_not Anything (Shallow (suc zero)) (ltb limits.max_depth depth) _ _ tt
          (λ shallow. absurd (ground arith))
    node-Shallow (suc fuel) lines indent depth nodes (suc (suc n)) deep =
        Holds-if Anything (Shallow (suc (suc n))) (ltb limits.max_depth depth) _ _ tt
          (elim (Option-cases (line_at indent lines)) [
            | inl absent ↦ rw (absent, Holds) tt
            | inr (first, present) ↦
                rw (present, Holds)
                  (Holds-if Anything (Shallow (suc (suc n))) (is_sequence_line first) _ _
                    (Holds-bind Anything (Shallow (suc (suc n))) (AllShallow (suc n))
                      (parse_sequence runtime readers limits fuel lines indent depth nodes) _
                      (sequence-AllShallow fuel lines indent depth nodes n (omega arith))
                      (λ p ok_p. ok_p))
                    (Holds-bind Anything (Shallow (suc (suc n))) (ShallowMembers (suc n))
                      (parse_mapping runtime readers limits fuel end lines indent depth nodes) _
                      (mapping-ShallowMembers fuel end lines indent depth nodes (suc n)
                        (omega arith) tt)
                      (λ p ok_p. ok_p)))
          ])

    sequence-AllShallow :
        (fuel : ℕ) (lines : List YamlLine) (indent depth nodes n : ℕ)
        → limits.max_depth + 2 ≤ suc n + (depth + 1)
        → Holds Anything
            (AllShallow (suc n))
            (parse_sequence runtime readers limits fuel lines indent depth nodes)
    sequence-AllShallow zero lines indent depth nodes n deep = tt
    sequence-AllShallow (suc fuel) [] indent depth nodes n deep = tt
    sequence-AllShallow (suc fuel) (l ∷ ls) indent depth nodes n deep =
        Holds-if Anything (AllShallow (suc n)) (nat_eq l.indent indent && is_sequence_line l) _ _
          (Holds-bind Anything (AllShallow (suc n)) (Shallow (suc n))
            (sequence_round runtime readers limits (parse_node runtime readers limits fuel) l ls
              indent depth nodes)
            _
            (sequence_round-Shallow (parse_node runtime readers limits fuel) l ls indent depth nodes
              n (node-Shallow fuel) deep)
            (λ p ok_v.
              Holds-bind Anything (AllShallow (suc n)) (AllShallow (suc n))
                (parse_sequence runtime readers limits fuel p.1 indent depth p.2) _
                (sequence-AllShallow fuel p.1 indent depth p.2 n deep) (λ q ok_q. (ok_v, ok_q))))
          tt

    mapping-ShallowMembers :
        (fuel : ℕ) (members : Fields) (lines : List YamlLine) (indent depth nodes n : ℕ)
        → limits.max_depth + 2 ≤ n + (depth + 1)
        → FieldsRestricted n members
        → Holds Anything
            (ShallowMembers n)
            (parse_mapping runtime readers limits fuel members lines indent depth nodes)
    mapping-ShallowMembers zero members lines indent depth nodes n deep h = tt
    mapping-ShallowMembers (suc fuel) members [] indent depth nodes n deep h = h
    mapping-ShallowMembers (suc fuel) members (l ∷ ls) indent depth nodes n deep h =
        Holds-if Anything (ShallowMembers n) (nat_eq l.indent indent && not (is_sequence_line l)) _
          _
          (Holds-bind Anything (ShallowMembers n) (ShallowMembers n)
            (mapping_round runtime readers limits (parse_node runtime readers limits fuel) members l
              ls indent depth nodes)
            _
            (mapping_round-ShallowMembers (parse_node runtime readers limits fuel) members l ls
              indent depth nodes n (node-Shallow fuel) deep h)
            (λ p ok_p. mapping-ShallowMembers fuel p.0 p.1 indent depth p.2 n deep ok_p))
          h

-- Whatever the source, what the parser of the restricted YAML returns is nested at most two levels
-- deeper than the limit on the depth, and in every object the keys have the syntax of a mapping key,
-- are not protected and are distinct.
pub parse_yaml-IsRestricted :
    (runtime : Runtime) (readers : Readers) (limits : RestrictedYamlLimits) (source : String)
    (value : Json)
    → parse_restricted_policy_yaml runtime readers limits source ≡ ok value
    → IsRestricted (limits.max_depth + 2) value
unfolding parse_restricted_policy_yaml
parse_yaml-IsRestricted runtime readers limits source value h =
    subst (Holds Anything (IsRestricted (limits.max_depth + 2))) h (
      Holds-lift Anything (IsRestricted (limits.max_depth + 2)) (read_lines runtime limits source) _
        (λ lines _.
          Holds-bind Anything (IsRestricted (limits.max_depth + 2)) (Shallow (limits.max_depth + 2))
            (parse_node runtime readers limits (enough_fuel runtime lines) lines 0 0 0) _
            (node-Shallow runtime readers limits (enough_fuel runtime lines) lines 0 0 0
              (limits.max_depth + 2) (omega arith))
            (λ p ok_p.
              Holds-throw_if Anything (IsRestricted (limits.max_depth + 2))
                (not (no_more runtime p.1))
                (yaml_failure runtime invalid_yaml (line_number p.1)
                  "Trailing or inconsistent content")
                _
                (λ _.
                  Holds-lift Anything (IsRestricted (limits.max_depth + 2))
                    (assert_policy_json runtime p.0 "$") _ (λ _ _. ok_p)))))
