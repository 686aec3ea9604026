-- ===== src/Policy/Merge.antt =====
-- `mergeRequirements` of packages/policy/src/index.ts.
use ai_software_engineering.Prelude.{
  ℕ, String, Bool, true, false, ◌||◌, Option, none, some, List, [], ◌∷◌, ◌++◌, ltb, if◌then◌else◌,
  includes,
}
use ai_software_engineering.Policy.Data.{
  IsolationLevel, process_restricted, os_sandboxed, container_isolated, remote_isolated,
  Requirements,
}

-- The variables of the loop in `mergeRequirements`.
pub record Merging : Type 0 where
  pub scopes : List String
  pub isolation : Option IsolationLevel
  pub timeout : Option ℕ
  pub concurrency : Option ℕ
  pub verification : Bool

-- The level after a candidate; `none` where the two conflict.
unfoldable pub merge_isolation :
    Option IsolationLevel → Option IsolationLevel → Option (Option IsolationLevel)
merge_isolation isolation none = some isolation
merge_isolation none (some candidate) = some (some candidate)
merge_isolation (some process_restricted) (some candidate) = some (some candidate)
merge_isolation (some level) (some process_restricted) = some (some level)
merge_isolation (some os_sandboxed) (some os_sandboxed) = some (some os_sandboxed)
merge_isolation (some container_isolated) (some container_isolated) = some (some container_isolated)
merge_isolation (some remote_isolated) (some remote_isolated) = some (some remote_isolated)
merge_isolation (some level) (some candidate) = none

unfoldable pub merge_least : Option ℕ → Option ℕ → Option ℕ
merge_least bound none = bound
merge_least none (some n) = some n
merge_least (some m) (some n) = some (if ltb m n then m else n)

abbrev pub add_scope : String → List String → List String
add_scope s ss = if includes s ss then ss else ss ++ s ∷ []

unfoldable pub add_scopes : List String → List String → List String
add_scopes [] ss = ss
add_scopes (s ∷ new) ss = add_scopes new (add_scope s ss)

abbrev or_empty : Option (List String) → List String
or_empty none = []
or_empty (some ss) = ss

abbrev is_true : Option Bool → Bool
is_true (some true) = true
is_true _ = false

-- The loop of `mergeRequirements`.
unfoldable pub merge_from : Merging → List Requirements → Option Merging
unfolding merge_isolation merge_least add_scopes
merge_from m [] = some m
merge_from m (r ∷ rs) = elim (merge_isolation m.isolation r.minimum_isolation_level) [
  | none ↦ none
  | some level ↦
      merge_from
        (record {
          scopes = add_scopes (or_empty r.required_scopes) m.scopes;
          isolation = level;
          timeout = merge_least m.timeout r.timeout_ms;
          concurrency = merge_least m.concurrency r.max_concurrency;
          verification = m.verification || is_true r.post_verification_required;
        })
        rs
]

abbrev pub no_requirements : Merging
no_requirements = record {
  scopes = [];
  isolation = none;
  timeout = none;
  concurrency = none;
  verification = false;
}
