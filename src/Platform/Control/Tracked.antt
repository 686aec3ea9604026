-- ===== src/Platform/Control/Tracked.antt =====
-- `registerAuthFailure` of packages/platform/src/server.ts: what each failure does to the entry of an
-- address, its own or that of another.
use ai_software_engineering.Prelude.{
  ◌⊎◌, ◌≤◌, ◌≢◌, true, ℕ, ◌+◌, ◌<◌, String, ◌≡◌, if◌then◌else◌, ◌==◌, refl, inl, inr, Option-cases,
  Bool-cases, leb, sym, ap, subst, ◌∙◌, Bool, none, some, List, [], ◌∷◌, arith, ltb, eq_iff,
  eq_refl, length,
}
use ai_software_engineering.Platform.Control.State.{ControlApiLimits, AuthFailureState}
use ai_software_engineering.Platform.Control.Checks.{
  find_failure, set_failure, drop_oldest, live_failure, register_auth_failure,
}

find-set_failure :
    (entry : AuthFailureState) (es : List AuthFailureState)
    → find_failure entry.remote (set_failure entry es) ≡ some entry
unfolding find_failure set_failure
find-set_failure entry [] = ground (arith, eq_refl entry.remote)
find-set_failure entry (e ∷ es) =
    ground (arith, find-set_failure entry es, eq_refl entry.remote, eq_iff e.remote entry.remote)

-- A failure while the entry of the address is live counts one more.
pub live_step :
    (limits : ControlApiLimits) (remote : String) (now : ℕ) (es : List AuthFailureState)
    (entry : AuthFailureState)
    → find_failure remote es ≡ some entry
    → now < entry.reset_at
    → register_auth_failure limits remote now es ≡ (
      set_failure (record entry { count = entry.count + 1 }) es,
      ltb limits.auth_failure_capacity (entry.count + 1),
      (register_auth_failure limits remote now es).2,
    )
unfolding register_auth_failure live_failure
live_step limits remote now es entry found early = ground arith

-- The entry of a first failure.
abbrev pub first_failure : ControlApiLimits → String → ℕ → ℕ → AuthFailureState
first_failure limits remote now count = record {
  remote = remote;
  count = count;
  reset_at = now + limits.auth_failure_window_ms;
}

-- A failure of an address with none on record counts as the first.
pub first_step :
    (limits : ControlApiLimits) (remote : String) (now : ℕ) (es : List AuthFailureState)
    → find_failure remote es ≡ none
    → register_auth_failure limits remote now es ≡ (
      set_failure
          (first_failure limits remote now 1)
          (set_failure (first_failure limits remote now 0) (drop_oldest es)),
      ltb limits.auth_failure_capacity 1,
      (register_auth_failure limits remote now es).2,
    )
unfolding register_auth_failure live_failure
first_step limits remote now es absent = ground arith

find_failure-remote :
    (remote : String) (es : List AuthFailureState) (entry : AuthFailureState)
    → find_failure remote es ≡ some entry
    → entry.remote ≡ remote
unfolding find_failure
find_failure-remote remote [] entry h = cc h
find_failure-remote remote (e ∷ es) entry h =
    ground (arith, find_failure-remote remote es entry, eq_iff e.remote remote)

-- How many entries are younger than the one of an address.
abbrev pub younger : String → List AuthFailureState → ℕ
younger remote [] = 0
younger remote (e ∷ es) = if e.remote == remote then length es else younger remote es

-- The entry of an address is there, and at most so many are younger.
pub record IsTracked (remote : String) (entry : AuthFailureState) (n : ℕ)
    (es : List AuthFailureState) : Type 0 where
  pub found : find_failure remote es ≡ some entry
  pub few : younger remote es ≤ n

set-set_failure :
    (x y : AuthFailureState) (es : List AuthFailureState)
    → x.remote ≡ y.remote
    → set_failure x (set_failure y es) ≡ set_failure x es
unfolding set_failure
set-set_failure x y [] h = ground (arith, h, eq_iff y.remote x.remote)
set-set_failure x y (e ∷ es) h = ground (
  arith,
  h,
  eq_iff y.remote x.remote,
  eq_iff e.remote y.remote,
  eq_iff e.remote x.remote,
  set-set_failure x y es h,
)

length-set_failure :
    (x : AuthFailureState) (es : List AuthFailureState) → length (set_failure x es) ≤ length es + 1
unfolding set_failure
length-set_failure x [] = omega arith
length-set_failure x (e ∷ es) = ground (arith, length-set_failure x es)

find-set_failure_ne :
    (remote : String) (x : AuthFailureState) (es : List AuthFailureState)
    → x.remote ≢ remote
    → find_failure remote (set_failure x es) ≡ find_failure remote es
unfolding find_failure set_failure
find-set_failure_ne remote x [] ne = ground (arith, eq_iff x.remote remote)
find-set_failure_ne remote x (e ∷ es) ne = ground (
  arith,
  eq_iff x.remote remote,
  eq_iff e.remote x.remote,
  eq_iff e.remote remote,
  find-set_failure_ne remote x es ne,
)

younger-set_failure :
    (remote : String) (x : AuthFailureState) (es : List AuthFailureState)
    → younger remote (set_failure x es) ≤ younger remote es + 1
unfolding set_failure
younger-set_failure remote x [] = ground arith
younger-set_failure remote x (e ∷ es) =
    ground
      (arith, eq_iff e.remote x.remote, length-set_failure x es, younger-set_failure remote x es)

-- An entry that has few younger ones is not the oldest of 32.
drop_oldest-IsTracked :
    (remote : String) (entry : AuthFailureState) (n : ℕ) (es : List AuthFailureState)
    → n + 1 < 32
    → IsTracked remote entry n es
    → IsTracked remote entry n (drop_oldest es)
unfolding drop_oldest find_failure
drop_oldest-IsTracked remote entry n [] room t = t
drop_oldest-IsTracked remote entry n (e ∷ es) room t = ground (arith, t.found, t.few)

-- An expired entry counts as none.
expired_step :
    (limits : ControlApiLimits) (remote : String) (now : ℕ) (es : List AuthFailureState)
    (entry : AuthFailureState)
    → find_failure remote es ≡ some entry
    → leb entry.reset_at now ≡ true
    → (register_auth_failure limits remote now es).0
      ≡ set_failure
          (first_failure limits remote now 1)
          (set_failure (first_failure limits remote now 0) (drop_oldest es))
unfolding register_auth_failure live_failure
expired_step limits remote now es entry found late = ground arith

-- A failure sets the entry of its address, perhaps after the oldest entry is dropped.
register-set :
    (limits : ControlApiLimits) (remote : String) (now : ℕ) (es : List AuthFailureState)
    → (x : AuthFailureState) × (x.remote ≡ remote)
      × (((register_auth_failure limits remote now es).0 ≡ set_failure x es)
          ⊎ ((register_auth_failure limits remote now es).0 ≡ set_failure x (drop_oldest es)))
register-set limits remote now es =
    let once =
      set-set_failure (first_failure limits remote now 1) (first_failure limits remote now 0)
        (drop_oldest es) refl in
    elim (Option-cases (find_failure remote es)) [
      | inl absent ↦ (
        first_failure limits remote now 1,
        refl,
        inr (
            ap (λ (r : List AuthFailureState × Bool × ℕ). r.0)
              (first_step limits remote now es absent)
            ∙ once),
      )
      | inr (entry, found) ↦ elim (Bool-cases (leb entry.reset_at now)) [
        | inl late ↦ (
          first_failure limits remote now 1,
          refl,
          inr (expired_step limits remote now es entry found late ∙ once),
        )
        | inr early ↦ (
          record entry { count = entry.count + 1 },
          find_failure-remote remote es entry found,
          inl (
              ap (λ (r : List AuthFailureState × Bool × ℕ). r.0)
                (live_step limits remote now es entry found (ground arith))),
        )
      ]
    ]

set_other-IsTracked :
    (remote : String) (entry x : AuthFailureState) (n : ℕ) (es : List AuthFailureState)
    → x.remote ≢ remote
    → IsTracked remote entry n es
    → IsTracked remote entry (n + 1) (set_failure x es)
set_other-IsTracked remote entry x n es ne t = record {
  found = find-set_failure_ne remote x es ne ∙ t.found;
  few = omega (arith, younger-set_failure remote x es, t.few);
}

-- A failure of another address.
pub other-IsTracked :
    (limits : ControlApiLimits) (remote other : String) (now : ℕ) (entry : AuthFailureState) (n : ℕ)
    (es : List AuthFailureState)
    → other ≢ remote
    → n + 1 < 32
    → IsTracked remote entry n es
    → IsTracked remote entry (n + 1) (register_auth_failure limits other now es).0
other-IsTracked limits remote other now entry n es ne room t =
    let (x, its, stored) = register-set limits other now es in
    let apart : x.remote ≢ remote = λ e. ne (sym its ∙ e) in
    elim stored [
      | inl kept ↦ rw kept (set_other-IsTracked remote entry x n es apart t)
      | inr dropped ↦ rw dropped (
          set_other-IsTracked remote entry x n (drop_oldest es) apart
            (drop_oldest-IsTracked remote entry n es room t))
    ]

younger-set_own :
    (remote : String) (entry x : AuthFailureState) (es : List AuthFailureState)
    → find_failure remote es ≡ some entry
    → x.remote ≡ remote
    → younger remote (set_failure x es) ≡ younger remote es
unfolding find_failure set_failure
younger-set_own remote entry x [] found its = absurd cc
younger-set_own remote entry x (e ∷ es) found its = ground (
  arith,
  its,
  eq_iff x.remote remote,
  eq_iff e.remote x.remote,
  eq_iff e.remote remote,
  younger-set_own remote entry x es,
)

-- A failure of the address itself, while its entry is live.
pub own-IsTracked :
    (limits : ControlApiLimits) (remote : String) (now : ℕ) (entry : AuthFailureState) (n : ℕ)
    (es : List AuthFailureState)
    → now < entry.reset_at
    → IsTracked remote entry n es
    → IsTracked remote
        (record entry { count = entry.count + 1 })
        n
        (register_auth_failure limits remote now es).0
own-IsTracked limits remote now entry n es early t =
    let counted : AuthFailureState = record entry { count = entry.count + 1 } in
    let same = find_failure-remote remote es entry t.found in
    let stepped =
      ap (λ (r : List AuthFailureState × Bool × ℕ). r.0)
        (live_step limits remote now es entry t.found early) in
    rw stepped (record {
      found =
          subst (λ (a : String). find_failure a (set_failure counted es) ≡ some counted) same
            (find-set_failure counted es);
      few = omega (arith, younger-set_own remote entry counted es t.found same, t.few);
    })

younger-set_new :
    (remote : String) (x : AuthFailureState) (es : List AuthFailureState)
    → find_failure remote es ≡ none
    → x.remote ≡ remote
    → younger remote (set_failure x es) ≡ 0
unfolding find_failure set_failure
younger-set_new remote x [] absent its = ground (arith, its, eq_iff x.remote remote)
younger-set_new remote x (e ∷ es) absent its =
    ground
      (arith, its, eq_iff e.remote x.remote, eq_iff e.remote remote, younger-set_new remote x es)

drop_oldest-none :
    (remote : String) (es : List AuthFailureState)
    → find_failure remote es ≡ none
    → find_failure remote (drop_oldest es) ≡ none
unfolding find_failure drop_oldest
drop_oldest-none remote [] absent = refl
drop_oldest-none remote (e ∷ es) absent = ground arith

-- The first failure of an address.
pub first-IsTracked :
    (limits : ControlApiLimits) (remote : String) (now : ℕ) (es : List AuthFailureState)
    → find_failure remote es ≡ none
    → IsTracked remote
        (first_failure limits remote now 1)
        0
        (register_auth_failure limits remote now es).0
first-IsTracked limits remote now es absent =
    let x = first_failure limits remote now 1 in
    let stored =
      ap (λ (r : List AuthFailureState × Bool × ℕ). r.0) (first_step limits remote now es absent)
      ∙ set-set_failure x (first_failure limits remote now 0) (drop_oldest es) refl in
    rw stored (record {
      found = find-set_failure x (drop_oldest es);
      few = omega (
        arith,
        younger-set_new remote x (drop_oldest es) (drop_oldest-none remote es absent) refl,
      );
    })
