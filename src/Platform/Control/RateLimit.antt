-- ===== src/Platform/Control/RateLimit.antt =====
-- The limit on failed authentications of packages/platform/src/server.ts.
use ai_software_engineering.Prelude.{
  ◌≢◌, suc, ℕ, ◌+◌, ◌<◌, String, ◌≡◌, if◌then◌else◌, ◌==◌, inl, inr, Bool-cases, sym, ap, subst,
  ◌∙◌, Bool, none, some, List, [], ◌∷◌, arith, ltb, eq_iff, All,
}
use ai_software_engineering.Platform.Control.State.{ControlApiLimits, AuthFailureState}
use ai_software_engineering.Platform.Control.Checks.{find_failure, register_auth_failure}
use ai_software_engineering.Platform.Control.Tracked.{
  first_failure, live_step, first_step, IsTracked, own-IsTracked, other-IsTracked, first-IsTracked,
}

-- A failure: its address and its time.
abbrev pub Failed : Type 0
Failed = String × ℕ

unfoldable pub fail_all :
    ControlApiLimits → List Failed → List AuthFailureState → List AuthFailureState
unfolding register_auth_failure
fail_all limits [] es = es
fail_all limits ((remote, now) ∷ fs) es =
    fail_all limits fs (register_auth_failure limits remote now es).0

-- How many of the failures are of an address, and how many are not.
abbrev pub own : String → List Failed → ℕ
own remote [] = 0
own remote ((r, now) ∷ fs) = if r == remote then suc (own remote fs) else own remote fs

abbrev pub others : String → List Failed → ℕ
others remote [] = 0
others remote ((r, now) ∷ fs) = if r == remote then others remote fs else suc (others remote fs)

fail_all-IsTracked :
    (limits : ControlApiLimits) (remote : String) (fs : List Failed) (entry : AuthFailureState)
    (n : ℕ) (es : List AuthFailureState)
    → All (λ (f : Failed). f.1 < entry.reset_at) fs
    → n + others remote fs < 32
    → IsTracked remote entry n es
    → IsTracked remote
        (record entry { count = entry.count + own remote fs })
        (n + others remote fs)
        (fail_all limits fs es)
unfolding fail_all
fail_all-IsTracked limits remote [] entry n es early room t = record {
  found = t.found ∙ ap (λ k. some (record entry { count = k })) (omega arith);
  few = omega (arith, t.few);
}
fail_all-IsTracked limits remote ((r, now) ∷ fs) entry n es early room t =
    elim (Bool-cases (r == remote)) [
      | inl same ↦
          let counted : AuthFailureState = record entry { count = entry.count + 1 } in
          let after = (register_auth_failure limits r now es).0 in
          let step : IsTracked remote counted n after =
            subst
              (λ (a : String). IsTracked remote counted n (register_auth_failure limits a now es).0)
              (sym ((eq_iff r remote).0 same))
              (own-IsTracked limits remote now entry n es early.0 t) in
          let rest =
            fail_all-IsTracked limits remote fs counted n after early.1 (ground arith) step in
          rw same (
            subst
              (λ k.
                IsTracked remote (record entry { count = k }) (n + others remote fs)
                  (fail_all limits fs after))
              (omega arith) rest)
      | inr other ↦
          let after = (register_auth_failure limits r now es).0 in
          let apart : r ≢ remote = λ e. ground (arith, eq_iff r remote) in
          let step = other-IsTracked limits remote r now entry n es apart (ground arith) t in
          let rest =
            fail_all-IsTracked limits remote fs entry (n + 1) after early.1 (ground arith) step in
          rw other (
            subst
              (λ k.
                IsTracked remote (record entry { count = entry.count + own remote fs }) k
                  (fail_all limits fs after))
              (omega arith) rest)
    ]

-- An address that has no failure on record, and then failures within one window of its first: that one
-- is limited just when the capacity is 0, and the last of them just when those of the address are more
-- than the capacity, as long as fewer than 32 failures of other addresses come in between.
pub rate_limit_exact :
    (limits : ControlApiLimits) (remote : String) (now later : ℕ) (fs : List Failed)
    (es : List AuthFailureState)
    → find_failure remote es ≡ none
    → All (λ (f : Failed). f.1 < now + limits.auth_failure_window_ms) fs
    → later < now + limits.auth_failure_window_ms
    → others remote fs < 32
    → ((register_auth_failure limits remote now es).1 ≡ ltb limits.auth_failure_capacity 1)
      × ((register_auth_failure limits remote later
            (fail_all limits fs (register_auth_failure limits remote now es).0)).1
          ≡ ltb limits.auth_failure_capacity (own remote fs + 2))
rate_limit_exact limits remote now later fs es absent within soon few =
    let first = first_failure limits remote now 1 in
    let begun = (register_auth_failure limits remote now es).0 in
    let tracked =
      fail_all-IsTracked limits remote fs first 0 begun within (omega (arith, few))
        (first-IsTracked limits remote now es absent) in
    (
      ap (λ (r : List AuthFailureState × Bool × ℕ). r.1) (first_step limits remote now es absent),
      ap (λ (r : List AuthFailureState × Bool × ℕ). r.1)
            (live_step limits remote later (fail_all limits fs begun) _ tracked.found soon)
          ∙ ap (ltb limits.auth_failure_capacity) (omega arith),
    )
