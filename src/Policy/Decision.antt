-- ===== src/Policy/Decision.antt =====
-- What a decision rests on: a denial overrides, nothing is allowed by default, and what cannot be
-- decided is not allowed.
use ai_software_engineering.Prelude.{
  ◌≡◌, refl, Bool, true, false, not, ◌&&◌, Option, none, some, List, [], ◌∷◌, arith, any, keep_if,
}
use ai_software_engineering.Contracts.Canonical.{Runtime}
use ai_software_engineering.Contracts.Json.{Fields}
use ai_software_engineering.Policy.Data.{PolicyInput, PolicyRule}
use ai_software_engineering.Policy.Condition.{evaluate_condition}
use ai_software_engineering.Policy.Evaluate.{
  hard_invariant_violations, Outcome, allow, allow_with_requirements, is_empty, is_deny, applies,
  decision, match_rules, decide_matched, decide_policy,
}

abbrev pub is_allowed : Outcome → Bool
is_allowed allow = true
is_allowed allow_with_requirements = true
is_allowed _ = false

-- A rule that applies and whose condition is met, and one that applies and cannot be decided.
abbrev pub matches : (PolicyRule → Option Bool) → PolicyInput → PolicyRule → Bool
matches test input rule = applies input rule && elim (test rule) [ none ↦ false | some met ↦ met ]

abbrev pub undecided : (PolicyRule → Option Bool) → PolicyInput → PolicyRule → Bool
undecided test input rule =
    applies input rule && elim (test rule) [ none ↦ true | some met ↦ false ]

-- When the loop goes through, every rule is decided, and it has kept just the rules that match.
match_rules_sound :
    (test : PolicyRule → Option Bool) (input : PolicyInput) (rules : List PolicyRule)
    → (match_rules test input rules).1 ≡ true
    → (any (undecided test input) rules ≡ false)
      × ((match_rules test input rules).0 ≡ keep_if (matches test input) rules)
unfolding match_rules
match_rules_sound test input [] h = (refl, refl)
match_rules_sound test input (rule ∷ rules) h = ground (arith, match_rules_sound test input rules)

any-keep_if {ℓ} :
    {A : Type ℓ} (p q : A → Bool) (xs : List A) → any p (keep_if q xs) ≡ any (λ x. q x && p x) xs
any-keep_if p q [] = refl
any-keep_if p q (x ∷ xs) = ground (arith, any-keep_if p q xs)

none_kept {ℓ} : {A : Type ℓ} (p : A → Bool) (xs : List A) → is_empty (keep_if p xs) ≡ not (any p xs)
none_kept p [] = refl
none_kept p (x ∷ xs) = ground (arith, none_kept p xs)

matched_sound :
    (matched : List PolicyRule)
    → is_allowed (decide_matched matched).outcome ≡ true
    → (is_empty (keep_if is_deny matched) ≡ true)
      × (is_empty (keep_if (λ r. not (is_deny r)) matched) ≡ false)
unfolding decide_matched decision
matched_sound matched h = ground arith

policy_steps :
    (runtime : Runtime) (constants : Fields) (rules : List PolicyRule) (input : PolicyInput)
    → is_allowed (decide_policy runtime constants rules input).outcome ≡ true
    → (is_empty (hard_invariant_violations input) ≡ true)
      × ((match_rules (λ r. evaluate_condition runtime input constants r.when) input rules).1
          ≡ true)
      × (is_allowed
            (decide_matched
              (match_rules
                (λ r. evaluate_condition runtime input constants r.when)
                input
                rules).0).outcome
          ≡ true)
unfolding decide_policy decision
policy_steps runtime constants rules input h = ground arith

-- What a policy allows breaks no hard invariant; every rule that applies could be decided; no rule
-- that matches denies; and a rule that matches allows.
pub decide_policy_sound :
    (runtime : Runtime) (constants : Fields) (rules : List PolicyRule) (input : PolicyInput)
    → is_allowed (decide_policy runtime constants rules input).outcome ≡ true
    → (hard_invariant_violations input ≡ [])
      × (any (undecided (λ r. evaluate_condition runtime input constants r.when) input) rules
          ≡ false)
      × (any
            (λ r.
              matches (λ r. evaluate_condition runtime input constants r.when) input r && is_deny r)
            rules
          ≡ false)
      × (any
            (λ r.
              matches (λ r. evaluate_condition runtime input constants r.when) input r
              && not (is_deny r))
            rules
          ≡ true)
decide_policy_sound runtime constants rules input h =
    let test : PolicyRule → Option Bool = λ r. evaluate_condition runtime input constants r.when in
    let (clean, through, ok_matched) = policy_steps runtime constants rules input h in
    let (decided, kept) = match_rules_sound test input rules through in
    let (no_deny, some_allow) = matched_sound (match_rules test input rules).0 ok_matched in
    let denies = none_kept is_deny (keep_if (matches test input) rules) in
    let allows = none_kept (λ r. not (is_deny r)) (keep_if (matches test input) rules) in
    (
      ground arith,
      decided,
      ground (arith, any-keep_if is_deny (matches test input) rules, kept, denies),
      ground (arith, any-keep_if (λ r. not (is_deny r)) (matches test input) rules, kept, allows),
    )
