-- ===== src/Platform/Control/Retention.antt =====
-- The notifications that packages/platform/src/server.ts retains are the latest that were published.
use mathlib.Core.List.{append_assoc, append-nil}
use ai_software_engineering.Prelude.{
  ℕ, suc, min, String, ◌≡◌, refl, sym, ap, subst, ◌∙◌, ◌⊎◌, inl, inr, true, List, [], ◌∷◌, ◌++◌,
  arith, ltb, Bool-cases, length, length-append, Result, ok, err,
}
use ai_software_engineering.Platform.Control.State.{ControlNotification, ServerState, Environment}
use ai_software_engineering.Platform.Control.Notifications.{
  PublishNotificationInput, PublishFailure, runtime_stopped, notification_invalid, is_publishable,
  trim, notification_of, retain, publish_notification, publish_all,
}

-- The kept list is a tail of the other, as long as the capacity admits.
pub record IsLatest (capacity : ℕ) (kept ns : List ControlNotification) : Type 0 where
  pub dropped : List ControlNotification
  pub whole : ns ≡ dropped ++ kept
  pub size : length kept ≡ min capacity (length ns)

trim-IsLatest :
    (capacity : ℕ) (ns : List ControlNotification) → IsLatest capacity (trim capacity ns) ns
unfolding trim
trim-IsLatest capacity [] = record { dropped = []; whole = refl; size = ground arith }
trim-IsLatest capacity (n ∷ ns) = elim (Bool-cases (ltb capacity (length (n ∷ ns)))) [
  | inl over ↦
      let rest = trim-IsLatest capacity ns in
      rw over (record {
        dropped = n ∷ rest.dropped;
        whole = ap (λ xs. n ∷ xs) rest.whole;
        size = ground (arith, rest.size);
      })
  | inr within ↦ rw within (record { dropped = []; whole = refl; size = ground arith })
]

trim-append :
    (capacity : ℕ) (ns : List ControlNotification) (n : ControlNotification)
    → trim capacity (trim capacity ns ++ n ∷ []) ≡ trim capacity (ns ++ n ∷ [])
unfolding trim
trim-append capacity [] n = refl
trim-append capacity (m ∷ ns) n = elim (Bool-cases (ltb capacity (length (m ∷ ns)))) [
  | inl over ↦
      let longer : ltb capacity (suc (length (ns ++ n ∷ []))) ≡ true =
        ground (arith, length-append ns (n ∷ [])) in
      rw (over, longer) (trim-append capacity ns n)
  | inr within ↦ rw within refl
]

publish_cases :
    (env : Environment) (state : ServerState) (input : PublishNotificationInput) (id : String)
    (now : ℕ)
    → ((e : PublishFailure) × (publish_notification env state input id now ≡ (state, err e)))
      ⊎ ((n : ControlNotification) × (publish_notification env state input id now
            ≡ (retain env state n, ok n)))
unfolding publish_notification
publish_cases env state input id now = elim (Bool-cases state.stop_requested) [
  | inl stopped ↦ inl (runtime_stopped, rw stopped refl)
  | inr running ↦ elim (Bool-cases (is_publishable input)) [
    | inl fine ↦ inr (notification_of input id now, rw (running, fine) refl)
    | inr bad ↦ inl (notification_invalid, rw (running, bad) refl)
  ]
]

retained :
    (env : Environment) (state : ServerState) (n : ControlNotification)
    (base : List ControlNotification) (capacity : ℕ)
    → state.limits.sse_retention_capacity ≡ capacity
    → state.notifications ≡ trim capacity base
    → (retain env state n).notifications ≡ trim capacity (base ++ n ∷ [])
unfolding retain
retained env state n base capacity same h =
    ap (λ (c : ℕ). trim c (state.notifications ++ n ∷ [])) same
    ∙ ap (λ (ns : List ControlNotification). trim capacity (ns ++ n ∷ [])) h
    ∙ trim-append capacity base n

-- What a run is to show, after the answer to its first publication.
abbrev Goal :
    Environment
    → List (PublishNotificationInput × String × ℕ)
    → List ControlNotification
    → ℕ
    → ServerState × Result PublishFailure ControlNotification
    → Type 0
Goal env ps base capacity (state, answer) =
    (publish_all env state ps).0.notifications
    ≡ trim capacity (
        base ++ (elim answer [
          | err e ↦ (publish_all env state ps).1
          | ok n ↦ n ∷ (publish_all env state ps).1
        ]))

publish_all-trim :
    (env : Environment) (ps : List (PublishNotificationInput × String × ℕ)) (state : ServerState)
    (base : List ControlNotification) (capacity : ℕ)
    → state.limits.sse_retention_capacity ≡ capacity
    → state.notifications ≡ trim capacity base
    → (publish_all env state ps).0.notifications
      ≡ trim capacity (base ++ (publish_all env state ps).1)
unfolding publish_all
publish_all-trim env [] state base capacity same h = rw append-nil h
publish_all-trim env ((input, id, now) ∷ ps) state base capacity same h =
    elim (publish_cases env state input id now) [
      | inl (e, failed) ↦
          subst (Goal env ps base capacity) (sym failed)
            (publish_all-trim env ps state base capacity same h)
      | inr (n, published) ↦ subst (Goal env ps base capacity) (sym published) (
          publish_all-trim env ps (retain env state n) (base ++ n ∷ []) capacity same
            (retained env state n base capacity same h)
          ∙ ap (trim capacity)
              (append_assoc base (n ∷ []) (publish_all env (retain env state n) ps).1))
    ]

-- From a state without notifications, any sequence of publications leaves the latest of those that were
-- accepted, in their order: as many as the retention capacity, or all of them if they are fewer.
pub publish_all-IsLatest :
    (env : Environment) (ps : List (PublishNotificationInput × String × ℕ)) (state : ServerState)
    → state.notifications ≡ []
    → IsLatest state.limits.sse_retention_capacity
        (publish_all env state ps).0.notifications
        (publish_all env state ps).1
unfolding trim
publish_all-IsLatest env ps state empty =
    subst
      (λ (kept : List ControlNotification).
        IsLatest state.limits.sse_retention_capacity kept (publish_all env state ps).1)
      (sym (publish_all-trim env ps state [] state.limits.sse_retention_capacity refl empty))
      (trim-IsLatest state.limits.sse_retention_capacity (publish_all env state ps).1)
