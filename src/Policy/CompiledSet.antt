-- ===== src/Policy/CompiledSet.antt =====
-- What `compilePolicySet` of packages/policy/src/index.ts makes.
use ai_software_engineering.Prelude.{
  ℕ, suc, ◌+◌, ◌≤◌, String, ◌≡◌, refl, sym, ap, subst, ◌∙◌, Bool, true, false, not, Option, none,
  some, List, [], ◌∷◌, arith, length, All, ok, >>=-eq-ok, throw_if-eq-ok, require-eq-ok,
  ok-injective,
}
use ai_software_engineering.Contracts.Json.{Json, Fields, get_field}
use ai_software_engineering.Contracts.Canonical.{Runtime, canonical_json_sha256}
use ai_software_engineering.Policy.Data.{RuleEffect, PolicyRule, SourceKind, CompiledPolicySet}
use ai_software_engineering.Policy.Patterns.{uuid_v7, semver, stable_code, rule_id_pattern}
use ai_software_engineering.Policy.Values.{
  below, as_record, keys, distinct, index_text, assert_policy_json, required_string, any_text,
  exact_keys, sorted_unique_strings,
}
use ai_software_engineering.Policy.CompileCondition.{compile_condition}
use ai_software_engineering.Policy.CompileRule.{
  compile_requirements, rule_head, rule_members, compile_rule,
}
use ai_software_engineering.Policy.CompileSet.{
  policy_set_json, canonicalize_policy_value, hash_policy_value, source_kind_of, set_parts,
  compile_rules, rule_ids, sort_rules, sort_fields, enumerated, check_names, set_head, set_members,
  compile_fields, Compiled, compile_policy_set,
}
use ai_software_engineering.Policy.WellFormed.{IsWellFormed, compile_condition-IsWellFormed}
use ai_software_engineering.Policy.SortedRules.{
  IsSorted, sort-IsSorted, distinct-sort_rules, length-sort_rules, All-sort_rules,
  sorted-IsWellFormed,
}

-- A compiled policy set.
pub record IsCompiledSet (set : CompiledPolicySet) : Type 0 where
  pub few : length set.rules ≤ 4096
  pub unique : distinct (rule_ids set.rules) ≡ true
  pub sorted : IsSorted set.rules
  pub decidable : All (λ (r : PolicyRule). IsWellFormed set.constants 5 r.when) set.rules

members-IsWellFormed :
    (runtime : Runtime) (constants fs : Fields) (path : String)
    (head : Fields × Fields × RuleEffect × Fields) {r : PolicyRule}
    → rule_members runtime constants fs path head ≡ ok r
    → IsWellFormed constants 5 r.when
unfolding rule_members
members-IsWellFormed runtime constants fs path (subject, resource, effect, metadata) h =
    let (_, _, h1) =
      >>=-eq-ok (required_string fs "ruleId" path rule_id_pattern (some 128) 1) _ h in
    let (_, _, h2) = >>=-eq-ok (required_string fs "domain" path any_text (some 64) 1) _ h1 in
    let (_, _, h3) =
      >>=-eq-ok
        (sorted_unique_strings (get_field "subjectTypes" subject)
          (below path "subjectSelector/subjectTypes"))
        _ h2 in
    let (_, _, h4) = >>=-eq-ok (required_string fs "action" path any_text (some 128) 1) _ h3 in
    let (_, _, h5) =
      >>=-eq-ok
        (sorted_unique_strings (get_field "resourceTypes" resource)
          (below path "resourceSelector/resourceTypes"))
        _ h4 in
    let (when, compiled, h6) =
      >>=-eq-ok (compile_condition runtime 5 constants (get_field "when" fs) (below path "when")) _
        h5 in
    let (_, _, h7) =
      >>=-eq-ok (compile_requirements (get_field "requirements" fs) (below path "requirements")) _
        h6 in
    let (_, _, h8) =
      >>=-eq-ok (required_string fs "reasonCode" path stable_code (some 128) 3) _ h7 in
    subst (λ (r : PolicyRule). IsWellFormed constants 5 r.when) (ok-injective h8)
      (compile_condition-IsWellFormed runtime 5 constants (get_field "when" fs) (below path "when")
        when compiled)

rule-IsWellFormed :
    (runtime : Runtime) (constants : Fields) (value : Json) (index : ℕ) {r : PolicyRule}
    → compile_rule runtime constants value index ≡ ok r
    → IsWellFormed constants 5 r.when
unfolding compile_rule
rule-IsWellFormed runtime constants value index h =
    let path = below "$/rules" (index_text runtime index) in
    let (fs, _, h1) = require-eq-ok (as_record (some value)) _ _ h in
    let (head, _, h2) = >>=-eq-ok (rule_head fs path) _ h1 in
    members-IsWellFormed runtime constants fs path head h2

rules-IsWellFormed :
    (runtime : Runtime) (constants : Fields) (vs : List Json) (index : ℕ) {rules : List PolicyRule}
    → compile_rules runtime constants vs index ≡ ok rules
    → (length rules ≡ length vs) × All (λ (r : PolicyRule). IsWellFormed constants 5 r.when) rules
unfolding compile_rules
rules-IsWellFormed runtime constants [] index h =
    subst
      (λ (rs : List PolicyRule).
        (length rs ≡ 0) × All (λ (r : PolicyRule). IsWellFormed constants 5 r.when) rs)
      (ok-injective h) (refl, tt)
rules-IsWellFormed runtime constants (v ∷ vs) index h =
    let (r, first, h1) = >>=-eq-ok (compile_rule runtime constants v index) _ h in
    let (rest, others, h2) = >>=-eq-ok (compile_rules runtime constants vs (index + 1)) _ h1 in
    let (same, sound) = rules-IsWellFormed runtime constants vs (index + 1) others in
    subst
      (λ (rs : List PolicyRule).
        (length rs ≡ suc (length vs))
        × All (λ (r : PolicyRule). IsWellFormed constants 5 r.when) rs)
      (ok-injective h2) (ap suc same, (rule-IsWellFormed runtime constants v index first, sound))

members-kept :
    (fs source : Fields) (kind : SourceKind) (constants : Fields) (rules : List PolicyRule)
    {set : CompiledPolicySet}
    → set_members fs source kind constants rules ≡ ok set
    → (set.constants ≡ constants) × (set.rules ≡ rules)
unfolding set_members
members-kept fs source kind constants rules h =
    let (_, _, h1) = >>=-eq-ok (required_string fs "policySetId" "$" uuid_v7 none 1) _ h in
    let (_, _, h2) = >>=-eq-ok (required_string fs "version" "$" semver none 1) _ h1 in
    let (_, _, h3) = >>=-eq-ok (required_string fs "description" "$" any_text (some 2048) 1) _ h2 in
    let (_, _, h4) =
      >>=-eq-ok (required_string source "ref" "$/source" any_text (some 512) 1) _ h3 in
    let same = ok-injective h4 in
    (
      sym (ap (λ (s : CompiledPolicySet). s.constants) same),
      sym (ap (λ (s : CompiledPolicySet). s.rules) same),
    )

parts_few :
    (fs : Fields) {parts : Fields × Fields × List Json}
    → set_parts fs ≡ some parts
    → length parts.2 ≤ 4096
parts_few fs h = ground arith

head_few :
    (fs : Fields) {source constants : Fields} {values : List Json} {kind : SourceKind}
    → set_head fs ≡ ok (source, constants, values, kind)
    → length values ≤ 4096
unfolding set_head
head_few fs h =
    let (_, _, h1) = >>=-eq-ok (exact_keys fs _ "$") _ h in
    let (_, h2) = throw_if-eq-ok _ _ _ h1 in
    let (parts, found, h3) = require-eq-ok (set_parts fs) _ _ h2 in
    let (_, _, h4) = >>=-eq-ok (exact_keys parts.0 _ "$/source") _ h3 in
    let (_, _, h5) = require-eq-ok (source_kind_of (get_field "kind" parts.0)) _ _ h4 in
    subst (λ (vs : List Json). length vs ≤ 4096)
      (ap (λ (t : Fields × Fields × List Json × SourceKind). t.2) (ok-injective h5))
      (parts_few fs found)

All-weaken {ℓ κ μ} :
    {A : Type ℓ} (P : A → Type κ) (Q : A → Type μ) (xs : List A)
    → ((x : A) → P x → Q x)
    → All P xs
    → All Q xs
All-weaken P Q [] f h = tt
All-weaken P Q (x ∷ xs) f h = (f x h.0, All-weaken P Q xs f h.1)

refuted_false : (b : Bool) → not b ≡ false → b ≡ true
refuted_false b h = ground arith

kept-IsCompiledSet :
    (constants : Fields) (rules : List PolicyRule) (set : CompiledPolicySet)
    → set.constants ≡ sort_fields constants
    → set.rules ≡ sort_rules rules
    → length rules ≤ 4096
    → distinct (rule_ids rules) ≡ true
    → All (λ (r : PolicyRule). IsWellFormed constants 5 r.when) rules
    → IsCompiledSet set
kept-IsCompiledSet constants rules set same_constants same_rules few unique sound =
    let P : PolicyRule → Type 0 = λ r. IsWellFormed (sort_fields constants) 5 r.when in
    let sorted_sound : All P (sort_rules rules) = All-sort_rules P rules (
      All-weaken (λ (r : PolicyRule). IsWellFormed constants 5 r.when) P rules
        (λ r. sorted-IsWellFormed constants 5 r.when) sound) in
    record {
      few =
          subst (λ (rs : List PolicyRule). length rs ≤ 4096) (sym same_rules)
            (subst (λ (n : ℕ). n ≤ 4096) (sym (length-sort_rules rules)) few);
      unique =
          ap (λ (rs : List PolicyRule). distinct (rule_ids rs)) same_rules
          ∙ distinct-sort_rules rules
          ∙ unique;
      sorted = subst IsSorted (sym same_rules) (sort-IsSorted rules);
      decidable =
          subst (λ (fs : Fields). All (λ (r : PolicyRule). IsWellFormed fs 5 r.when) set.rules)
            (sym same_constants) (subst (All P) (sym same_rules) sorted_sound);
    }

fields-IsCompiledSet :
    (runtime : Runtime) (fs : Fields) {set : CompiledPolicySet}
    → compile_fields runtime fs ≡ ok set
    → IsCompiledSet set
unfolding compile_fields
fields-IsCompiledSet runtime fs {set} h =
    let ((source, constants, values, kind), headed, h1) = >>=-eq-ok (set_head fs) _ h in
    let (rules, compiled, h2) = >>=-eq-ok (compile_rules runtime constants values 0) _ h1 in
    let (unique, h3) = throw_if-eq-ok _ _ _ h2 in
    let (_, _, h4) = >>=-eq-ok (check_names (enumerated (keys (sort_fields constants)))) _ h3 in
    let (same, sound) = rules-IsWellFormed runtime constants values 0 compiled in
    let (same_constants, same_rules) =
      members-kept fs source kind (sort_fields constants) (sort_rules rules) h4 in
    kept-IsCompiledSet constants rules set same_constants same_rules
      (subst (λ (n : ℕ). n ≤ 4096) (sym same) (head_few fs headed))
      (refuted_false (distinct (rule_ids rules)) unique) sound

-- A compiled policy set has at most 4096 rules, in the order of their distinct identities, whose
-- conditions are well-formed over its own constants; and its hash is that of its canonical text.
pub compile_policy_set-IsCompiledSet :
    (runtime : Runtime) (value : Option Json) {compiled : Compiled}
    → compile_policy_set runtime value ≡ ok compiled
    → IsCompiledSet compiled.policy_set
      × (compiled.sha256 ≡ canonical_json_sha256 runtime (policy_set_json compiled.policy_set))
unfolding compile_policy_set hash_policy_value
compile_policy_set-IsCompiledSet runtime value h =
    let (v, _, h1) = require-eq-ok value _ _ h in
    let (_, _, h2) = >>=-eq-ok (assert_policy_json runtime v "$") _ h1 in
    let (fs, _, h3) = require-eq-ok (as_record value) _ _ h2 in
    let (set, compiled, h4) = >>=-eq-ok (compile_fields runtime fs) _ h3 in
    let (_, _, h5) = >>=-eq-ok (canonicalize_policy_value runtime (policy_set_json set)) _ h4 in
    let (hash, hashed, h6) = >>=-eq-ok (hash_policy_value runtime (policy_set_json set)) _ h5 in
    let (_, _, h7) = >>=-eq-ok (assert_policy_json runtime (policy_set_json set) "$") _ hashed in
    subst
      (λ (c : Compiled).
        IsCompiledSet c.policy_set
        × (c.sha256 ≡ canonical_json_sha256 runtime (policy_set_json c.policy_set)))
      (ok-injective h6) (fields-IsCompiledSet runtime fs compiled, sym (ok-injective h7))
