-- ===== src/Policy/Authorised.antt =====
-- What an allowing decision of `evaluatePolicy` rests on, and the snapshots that it accepts, in
-- packages/policy/src/index.ts.
use ai_software_engineering.Prelude.{
  String, ◌≡◌, refl, sym, ap, subst, inl, inr, Bool, true, false, not, ◌&&◌, Option, none, some, [],
  arith, eq_iff, Bool-cases, &&-right, any, ok, >>=-eq-ok, Result-cases,
}
use ai_software_engineering.Contracts.Json.{Json, str, obj, Fields, get_field}
use ai_software_engineering.Contracts.Canonical.{Runtime}
use ai_software_engineering.Policy.Data.{PolicyInput, PolicyRule, CompiledPolicySet}
use ai_software_engineering.Policy.Condition.{evaluate_condition}
use ai_software_engineering.Policy.Values.{is_text, assert_policy_json}
use ai_software_engineering.Policy.CompileSet.{Compiled, compile_policy_set}
use ai_software_engineering.Policy.Evaluate.{hard_invariant_violations, is_deny, decision}
use ai_software_engineering.Policy.Decision.{is_allowed, matches, decide_policy_sound}
use ai_software_engineering.Policy.Evaluation.{
  EvaluationInput, validate_input, is_snapshot_shaped, is_snapshot_of, validate_snapshot,
  create_decision, asserted, decide_snapshot, decide_values, evaluate_policy,
}

-- The condition of a rule of a compiled set.
abbrev pub condition_result : Runtime → CompiledPolicySet → PolicyInput → PolicyRule → Option Bool
condition_result runtime set input rule = evaluate_condition runtime input set.constants rule.when

-- Both values are valid, the snapshot is the one that the input asks for and carries the hash of its
-- own recompiled policy set, and by that set no hard invariant is broken, no rule that matches denies
-- and one allows.
pub record IsAuthorised (runtime : Runtime) (snapshot_value input_value : Option Json)
    : Type 0 where
  pub snapshot : Fields
  pub input_fields : Fields
  pub valid : EvaluationInput
  pub compiled : Compiled
  pub snapshot_read : snapshot_value ≡ some (obj snapshot)
  pub input_read : input_value ≡ some (obj input_fields)
  pub input_valid : validate_input input_fields ≡ ok valid
  pub recompiled : compile_policy_set runtime (get_field "compiledPolicySet" snapshot) ≡ ok compiled
  pub named : get_field "snapshotId" snapshot ≡ some (str valid.policy_snapshot_id)
  pub hashed : get_field "policyHash" snapshot ≡ some (str compiled.sha256)
  pub clean : hard_invariant_violations valid.input ≡ []
  pub not_denied :
      any
        (λ r.
          matches (condition_result runtime compiled.policy_set valid.input) valid.input r
          && is_deny r)
        compiled.policy_set.rules
      ≡ false
  pub some_allow :
      any
        (λ r.
          matches (condition_result runtime compiled.policy_set valid.input) valid.input r
          && not (is_deny r))
        compiled.policy_set.rules
      ≡ true

is_text-eq : (value : Option Json) (s : String) → is_text value s ≡ true → value ≡ some (str s)
is_text-eq none s h = cc
is_text-eq (some (str t)) s h = ap (λ u. some (str u)) ((eq_iff t s).0 h)
is_text-eq (some _) s h = cc

outer_two : (a b c d : Bool) → (a && b && c && d) ≡ true → (a ≡ true) × (d ≡ true)
outer_two a b c d h = ground arith

snapshot-named :
    (fs : Fields) (input : EvaluationInput) (set : CompiledPolicySet) (hash : String)
    → is_snapshot_of fs input set hash ≡ true
    → (get_field "snapshotId" fs ≡ some (str input.policy_snapshot_id))
      × (get_field "policyHash" fs ≡ some (str hash))
unfolding is_snapshot_of
snapshot-named fs input set hash h =
    let (named, hashed) =
      outer_two (is_text (get_field "snapshotId" fs) input.policy_snapshot_id)
        (is_text (get_field "policySetId" fs) set.policy_set_id)
        (is_text (get_field "policyVersion" fs) set.version)
        (is_text (get_field "policyHash" fs) hash) h in
    (
      is_text-eq (get_field "snapshotId" fs) _ named,
      is_text-eq (get_field "policyHash" fs) _ hashed,
    )

snapshot_pinned :
    (fs : Fields) (input : EvaluationInput) (set : CompiledPolicySet) (hash : String)
    → validate_snapshot fs input set hash ≡ true
    → (get_field "snapshotId" fs ≡ some (str input.policy_snapshot_id))
      × (get_field "policyHash" fs ≡ some (str hash))
unfolding validate_snapshot
snapshot_pinned fs input set hash h =
    let pinned = &&-right (is_snapshot_shaped fs) (is_snapshot_of fs input set hash) h in
    snapshot-named fs input set hash pinned

asserted_values :
    (runtime : Runtime) (snapshot_value input_value : Option Json) {s i : Json}
    → asserted runtime snapshot_value input_value ≡ ok (s, i)
    → (snapshot_value ≡ some s) × (input_value ≡ some i)
asserted_values runtime none input_value h = cc h
asserted_values runtime (some s) none h =
    let (_, _, h1) = >>=-eq-ok (assert_policy_json runtime s "$/snapshot") _ h in cc h1
asserted_values runtime (some s) (some i) h =
    let (_, _, h1) = >>=-eq-ok (assert_policy_json runtime s "$/snapshot") _ h in
    let (_, _, h2) = >>=-eq-ok (assert_policy_json runtime i "$/input") _ h1 in (cc h2, cc h2)

module _ (runtime : Runtime) where
  decide_snapshot-IsAuthorised :
      (snapshot input_fields : Fields) (valid : EvaluationInput)
      → validate_input input_fields ≡ ok valid
      → is_allowed (decide_snapshot runtime snapshot valid).outcome ≡ true
      → IsAuthorised runtime (some (obj snapshot)) (some (obj input_fields))
  unfolding decide_snapshot decision
  decide_snapshot-IsAuthorised snapshot input_fields valid accepted h =
      elim (Result-cases (compile_policy_set runtime (get_field "compiledPolicySet" snapshot))) [
        | inl (compiled, recompiled) ↦
            elim (Bool-cases
              (validate_snapshot snapshot valid compiled.policy_set compiled.sha256)) [
                | inl pinned ↦
                    let (named, hashed) =
                      snapshot_pinned snapshot valid compiled.policy_set compiled.sha256 pinned in
                    let (clean, _, not_denied, some_allow) =
                      decide_policy_sound runtime compiled.policy_set.constants
                        compiled.policy_set.rules valid.input (ground arith) in
                    record {
                      snapshot = snapshot;
                      input_fields = input_fields;
                      valid = valid;
                      compiled = compiled;
                      snapshot_read = refl;
                      input_read = refl;
                      input_valid = accepted;
                      recompiled = recompiled;
                      named = named;
                      hashed = hashed;
                      clean = clean;
                      not_denied = not_denied;
                      some_allow = some_allow;
                    }
                | inr unpinned ↦ absurd (ground arith)
              ]
        | inr (diagnostic, failed) ↦ absurd (ground arith)
      ]

  decide_values-IsAuthorised :
      (s i : Json)
      → is_allowed (decide_values runtime s i).outcome ≡ true
      → IsAuthorised runtime (some s) (some i)
  unfolding decide_values decision
  decide_values-IsAuthorised (obj snapshot) (obj input) h =
      elim (Result-cases (validate_input input)) [
        | inl (valid, accepted) ↦
            decide_snapshot-IsAuthorised snapshot input valid accepted (ground (arith, h))
        | inr (no_input, refused) ↦ absurd (ground arith)
      ]
  decide_values-IsAuthorised _ _ h = cc h

  -- An evaluation that allows rests on a valid input and on a snapshot that the input names, whose hash
  -- is that of its own recompiled policy set; by that set no hard invariant is broken, no rule that
  -- matches denies, and a rule that matches allows.
  pub evaluate_policy_sound :
      (snapshot_value input_value : Option Json)
      → is_allowed (evaluate_policy runtime snapshot_value input_value).decided.outcome ≡ true
      → IsAuthorised runtime snapshot_value input_value
  unfolding evaluate_policy create_decision decision
  evaluate_policy_sound snapshot_value input_value h =
      elim (Result-cases (asserted runtime snapshot_value input_value)) [
        | inl ((s, i), same) ↦
            let (snapshot_read, input_read) =
              asserted_values runtime snapshot_value input_value same in
            subst (λ (v : Option Json). IsAuthorised runtime v input_value) (sym snapshot_read)
              (subst (λ (v : Option Json). IsAuthorised runtime (some s) v) (sym input_read)
                (decide_values-IsAuthorised s i (ground arith)))
        | inr (thrown, failed) ↦ absurd (ground arith)
      ]
