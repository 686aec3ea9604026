-- ===== src/Policy/Strictest.antt =====
-- Merged requirements are as strict as each of those that they are merged from.
use ai_software_engineering.Prelude.{
  ℕ, ◌≤◌, ◌≡◌, refl, sym, subst, ◌⊎◌, inl, inr, Option, none, some, List, [], ◌∷◌, arith,
  some-injective, Option-cases, All,
}
use ai_software_engineering.Policy.Data.{
  IsolationLevel, process_restricted, os_sandboxed, container_isolated, remote_isolated,
  Requirements,
}
use ai_software_engineering.Policy.Merge.{
  Merging, merge_isolation, merge_least, merge_from, no_requirements,
}

-- A bound is kept by another: where there is one, the other is there and no larger.
abbrev pub IsKept : Option ℕ → Option ℕ → Type 0
IsKept none limit = Unit {0}
IsKept (some n) limit = (t : ℕ) × (limit ≡ some t) × (t ≤ n)

-- A level is kept: it is the level, or it was the weakest and there is one.
abbrev pub IsIsolated : Option IsolationLevel → Option IsolationLevel → Type 0
IsIsolated none level = Unit {0}
IsIsolated (some l) level =
    (level ≡ some l) ⊎ ((l ≡ process_restricted) × (l' : IsolationLevel) × (level ≡ some l'))

IsKept-refl : (bound : Option ℕ) → IsKept bound bound
IsKept-refl none = tt
IsKept-refl (some n) = (n, refl, omega arith)

least-IsKept :
    (a b limit : Option ℕ) → IsKept (merge_least a b) limit → IsKept a limit × IsKept b limit
unfolding merge_least
least-IsKept a none limit k = (k, tt)
least-IsKept none (some n) limit k = (tt, k)
least-IsKept (some m) (some n) limit (t, same, small) =
    ((t, same, ground arith), (t, same, ground arith))

IsIsolated-refl : (level : Option IsolationLevel) → IsIsolated level level
IsIsolated-refl none = tt
IsIsolated-refl (some l) = inl refl

weakest :
    (l : IsolationLevel) (level : Option IsolationLevel)
    → IsIsolated (some l) level
    → IsIsolated (some process_restricted) level
weakest l level (inl e) = inr (refl, l, e)
weakest l level (inr (w, l', e)) = inr (refl, l', e)

isolation_kept :
    (a b c level : Option IsolationLevel)
    → merge_isolation a b ≡ some c
    → IsIsolated c level
    → IsIsolated a level × IsIsolated b level
unfolding merge_isolation
isolation_kept a none c level h k = (subst (λ x. IsIsolated x level) (sym (some-injective h)) k, tt)
isolation_kept none (some l) c level h k =
    (tt, subst (λ x. IsIsolated x level) (sym (some-injective h)) k)
isolation_kept (some process_restricted) (some l) c level h k =
    let k' : IsIsolated (some l) level =
      subst (λ x. IsIsolated x level) (sym (some-injective h)) k in
    (weakest l level k', k')
isolation_kept (some os_sandboxed) (some process_restricted) c level h k =
    let k' : IsIsolated (some os_sandboxed) level =
      subst (λ x. IsIsolated x level) (sym (some-injective h)) k in
    (k', weakest os_sandboxed level k')
isolation_kept (some os_sandboxed) (some os_sandboxed) c level h k =
    let k' = subst (λ x. IsIsolated x level) (sym (some-injective h)) k in (k', k')
isolation_kept (some os_sandboxed) (some container_isolated) c level h k = cc h
isolation_kept (some os_sandboxed) (some remote_isolated) c level h k = cc h
isolation_kept (some container_isolated) (some process_restricted) c level h k =
    let k' : IsIsolated (some container_isolated) level =
      subst (λ x. IsIsolated x level) (sym (some-injective h)) k in
    (k', weakest container_isolated level k')
isolation_kept (some container_isolated) (some os_sandboxed) c level h k = cc h
isolation_kept (some container_isolated) (some container_isolated) c level h k =
    let k' = subst (λ x. IsIsolated x level) (sym (some-injective h)) k in (k', k')
isolation_kept (some container_isolated) (some remote_isolated) c level h k = cc h
isolation_kept (some remote_isolated) (some process_restricted) c level h k =
    let k' : IsIsolated (some remote_isolated) level =
      subst (λ x. IsIsolated x level) (sym (some-injective h)) k in
    (k', weakest remote_isolated level k')
isolation_kept (some remote_isolated) (some os_sandboxed) c level h k = cc h
isolation_kept (some remote_isolated) (some container_isolated) c level h k = cc h
isolation_kept (some remote_isolated) (some remote_isolated) c level h k =
    let k' = subst (λ x. IsIsolated x level) (sym (some-injective h)) k in (k', k')

-- All three bounds of one rule's requirements, in the merged ones.
abbrev pub IsMet : Merging → Requirements → Type 0
IsMet out r =
    IsIsolated r.minimum_isolation_level out.isolation
    × IsKept r.timeout_ms out.timeout
    × IsKept r.max_concurrency out.concurrency

merge_keeps :
    (rs : List Requirements) (m out : Merging)
    → merge_from m rs ≡ some out
    → (IsIsolated m.isolation out.isolation
        × IsKept m.timeout out.timeout
        × IsKept m.concurrency out.concurrency)
      × All (IsMet out) rs
unfolding merge_from
merge_keeps [] m out h =
    let same : m ≡ out = some-injective h in
    (
      subst
          (λ (x : Merging).
            IsIsolated m.isolation x.isolation
            × IsKept m.timeout x.timeout
            × IsKept m.concurrency x.concurrency)
          same (IsIsolated-refl m.isolation, IsKept-refl m.timeout, IsKept-refl m.concurrency),
      tt,
    )
merge_keeps (r ∷ rs) m out h =
    elim (Option-cases (merge_isolation m.isolation r.minimum_isolation_level)) [
      | inl conflict ↦ absurd (cc (rw (conflict, merge_from) at h))
      | inr (level, merged) ↦
          let ((isolated, timely, narrow), rest) =
            merge_keeps rs _ out (rw (merged, merge_from) at h) in
          let (i, i') =
            isolation_kept m.isolation r.minimum_isolation_level level out.isolation merged
              isolated in
          let (t, t') = least-IsKept m.timeout r.timeout_ms out.timeout timely in
          let (c, c') = least-IsKept m.concurrency r.max_concurrency out.concurrency narrow in
          ((i, t, c), ((i', t', c'), rest))
    ]

-- Requirements that merge are met by the merged ones: the timeout and the concurrency are no larger
-- than any rule sets, and a level above the weakest that any rule asks for is the merged level.
pub merge_strictest :
    (rs : List Requirements) (out : Merging)
    → merge_from no_requirements rs ≡ some out
    → All (IsMet out) rs
merge_strictest rs out h = (merge_keeps rs no_requirements out h).1
