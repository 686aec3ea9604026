-- ===== src/Platform/Idempotency/Answers.antt =====
-- What `record` of packages/platform/src/idempotency.ts leaves to the lookups after it.
use ai_software_engineering.Prelude.{
  ℕ, ◌+◌, ◌≤◌, ◌<◌, String, ◌≡◌, refl, ◌≢◌, ◌⊎◌, inl, inr, false, Option, none, some, List, [], ◌∷◌,
  ◌++◌, arith, ◌==◌, eq_iff, length, ok, err,
}
use mathlib.Core.List.{append-nil}
use ai_software_engineering.Platform.Idempotency.{
  Entry, Registry, Lookup, miss, replay, conflict, payload_conflict, prune, get, outcome, lookup,
  evict, put,
}
use ai_software_engineering.Platform.Idempotency.Evict.{
  evict_room, prune-prune, get-evict-none, set_new,
}

-- Only the time of a lookup counts, since entries expire once and for all.
pub prune_later :
    (now later : ℕ) (es : List Entry) → now ≤ later → prune later (prune now es) ≡ prune later es
unfolding prune
prune_later now later [] h = refl
prune_later now later (e ∷ es) h = ground (arith, prune_later now later es)

pub prune-append :
    (now : ℕ) (xs ys : List Entry) → prune now (xs ++ ys) ≡ prune now xs ++ prune now ys
unfolding prune
prune-append now [] ys = refl
prune-append now (e ∷ xs) ys = ground (arith, prune-append now xs ys)

pub get-prune-none :
    (key : String) (now : ℕ) (es : List Entry) → get key es ≡ none → get key (prune now es) ≡ none
unfolding prune get
get-prune-none key now [] h = refl
get-prune-none key now (e ∷ es) h = ground (arith, get-prune-none key now es)

get-append_none :
    (key : String) (xs ys : List Entry) → get key xs ≡ none → get key (xs ++ ys) ≡ get key ys
unfolding get
get-append_none key [] ys h = refl
get-append_none key (e ∷ xs) ys h = ground (arith, get-append_none key xs ys)

get-append_ne :
    (key : String) (xs : List Entry) (n : Entry)
    → (n.key == key) ≡ false
    → get key (xs ++ n ∷ []) ≡ get key xs
unfolding get
get-append_ne key [] n h = ground arith
get-append_ne key (e ∷ xs) n h = ground (arith, get-append_ne key xs n)

pub outcome-miss : (h : String) (o : Option Entry) → outcome h o ≡ miss → o ≡ none
unfolding outcome
outcome-miss h none e = refl
outcome-miss h (some x) e = ground arith

-- The entries after a `record` that met no entry under its key.
abbrev pub entry : String → String → String → ℕ → Registry → Entry
entry key hash id now r = record {
  key = key;
  payload_hash = hash;
  result_identity = id;
  expires_at = now + r.ttl_ms;
}

pub put_miss :
    (key hash id : String) (now : ℕ) (r : Registry)
    → (lookup key hash now r).1 ≡ miss
    → (put key hash id now r).0.entries
      ≡ evict r.capacity (prune now r.entries) ++ entry key hash id now r ∷ []
unfolding lookup
put_miss key hash id now r h =
    unfold put in
    rw (prune-prune now r.entries, h)
      (set_new (entry key hash id now r) (evict r.capacity (prune now r.entries)) (
        get-evict-none key r.capacity (prune now r.entries)
          (outcome-miss hash (get key (prune now r.entries)) h)))

pub lookup-eq :
    (key hash : String) (now : ℕ) (r : Registry)
    → (lookup key hash now r).1 ≡ outcome hash (get key (prune now r.entries))
unfolding lookup
lookup-eq key hash now r = refl

-- A `record` that meets a live entry stores nothing, and fails just on a conflict.
pub put_again :
    (key hash id : String) (now : ℕ) (r : Registry)
    → (lookup key hash now r).1 ≢ miss
    → ((put key hash id now r).0.entries ≡ prune now r.entries)
      × ((put key hash id now r).1
          ≡ elim (lookup key hash now r).1 [ conflict ↦ err payload_conflict | _ ↦ ok tt ])
put_again key hash id now r h = unfold put in ground (arith, prune-prune now r.entries)

pub Lookup-cases : (x : Lookup) → (x ≡ miss) ⊎ (x ≢ miss)
Lookup-cases miss = inl refl
Lookup-cases (replay id) = inr (λ e. cc)
Lookup-cases conflict = inr (λ e. cc)

get_other :
    (key other hash id : String) (now later : ℕ) (r : Registry) (es : List Entry)
    → key ≢ other
    → get other (prune later (es ++ entry key hash id now r ∷ [])) ≡ get other (prune later es)
get_other key other hash id now later r es ne =
    rw (prune-append later es (entry key hash id now r ∷ [])) (
      unfold prune in
      ground (
        arith,
        append-nil (prune later es),
        get-append_ne other (prune later es) (entry key hash id now r),
        eq_iff key other,
      ))

-- While there is room, a `record` under one key leaves the answers under every other key alone.
pub lookup-put_ne :
    (key other hash hash' id : String) (now later : ℕ) (r : Registry)
    → key ≢ other
    → now ≤ later
    → length (prune now r.entries) < r.capacity
    → (lookup other hash' later (put key hash id now r).0).1 ≡ (lookup other hash' later r).1
lookup-put_ne key other hash hash' id now later r ne le room =
    rw (lookup-eq other hash' later (put key hash id now r).0, lookup-eq other hash' later r)
      (elim (Lookup-cases (lookup key hash now r).1) [
        | inl first ↦ rw (
          put_miss key hash id now r first,
          evict_room r.capacity (prune now r.entries) room,
          get_other key other hash id now later r (prune now r.entries) ne,
          prune_later now later r.entries le,
        )
        | inr again ↦ rw ((put_again key hash id now r again).0, prune_later now later r.entries le)
      ])
