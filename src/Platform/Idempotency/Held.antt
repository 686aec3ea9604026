-- ===== src/Platform/Idempotency/Held.antt =====
-- What `BoundedIdempotencyRegistry` of packages/platform/src/idempotency.ts still holds after other calls:
-- an entry is evicted only by the records that come after it.
use ai_software_engineering.Prelude.{
  ℕ, suc, ◌+◌, ◌≤◌, ◌<◌, String, ◌≡◌, refl, sym, ap, subst, ◌∙◌, inl, inr, none, some, List, [],
  ◌∷◌, ◌++◌, arith, leb, ◌==◌, eq_refl, if◌then◌else◌, Bool-cases, length, length-append, All,
}
use mathlib.Core.List.{append_assoc}
use ai_software_engineering.Platform.Idempotency.{
  Entry, Registry, miss, replay, conflict, prune, get, outcome, lookup, size, evict, store, put,
}
use ai_software_engineering.Platform.Idempotency.Evict.{evict_room, get-evict-none}
use ai_software_engineering.Platform.Idempotency.Answers.{
  prune-append, get-prune-none, outcome-miss, entry, put_miss, lookup-eq, put_again, Lookup-cases,
}
use ai_software_engineering.Platform.Idempotency.Bounds.{
  Call, looks_up, records, sizes, call, run, length-prune,
}

-- The entry is the one under its key, and at most so many entries are younger.
pub record IsHeld (e : Entry) (n : ℕ) (es : List Entry) : Type 0 where
  pub older : List Entry
  pub younger : List Entry
  pub parts : es ≡ older ++ e ∷ younger
  pub first : get e.key older ≡ none
  pub few : length younger ≤ n

get-append_self :
    (e : Entry) (xs ys : List Entry) → get e.key xs ≡ none → get e.key (xs ++ e ∷ ys) ≡ some e
unfolding get
get-append_self e [] ys h = ground (arith, eq_refl e.key)
get-append_self e (x ∷ xs) ys h = ground (arith, get-append_self e xs ys)

pub get-IsHeld : (e : Entry) (n : ℕ) (es : List Entry) → IsHeld e n es → get e.key es ≡ some e
get-IsHeld e n es h = rw h.parts (get-append_self e h.older h.younger h.first)

prune_live :
    (now : ℕ) (e : Entry) (es : List Entry)
    → now < e.expires_at
    → prune now (e ∷ es) ≡ e ∷ prune now es
unfolding prune
prune_live now e es live = ground arith

-- An entry stays until it expires.
pub prune-IsHeld :
    (now : ℕ) (e : Entry) (n : ℕ) (es : List Entry)
    → now < e.expires_at
    → IsHeld e n es
    → IsHeld e n (prune now es)
prune-IsHeld now e n es live h = record {
  older = prune now h.older;
  younger = prune now h.younger;
  parts =
      ap (prune now) h.parts
      ∙ prune-append now h.older (e ∷ h.younger)
      ∙ ap (λ es'. prune now h.older ++ es') (prune_live now e h.younger live);
  first = get-prune-none e.key now h.older h.first;
  few = omega (arith, length-prune now h.younger, h.few);
}

-- The loop evicts no entry that has room for itself and the younger ones.
evict_keeps :
    (capacity : ℕ) (e : Entry) (xs ys : List Entry)
    → get e.key xs ≡ none
    → length ys + 1 < capacity
    → IsHeld e (length ys) (evict capacity (xs ++ e ∷ ys))
unfolding evict get
evict_keeps capacity e [] ys absent room = record {
  older = [];
  younger = ys;
  parts = evict_room capacity (e ∷ ys) (omega (arith, room));
  first = refl;
  few = omega arith;
}
evict_keeps capacity e (x ∷ xs) ys absent room =
    elim (Bool-cases (leb capacity (length (x ∷ xs ++ e ∷ ys)))) [
      | inl full ↦ rw full (evict_keeps capacity e xs ys (ground arith) room)
      | inr fits ↦
          rw fits (record {
            older = x ∷ xs;
            younger = ys;
            parts = refl;
            first = absent;
            few = omega arith;
          })
    ]

-- A record of a key that has no entry.
append-IsHeld :
    (capacity : ℕ) (e : Entry) (n : ℕ) (es : List Entry) (new_entry : Entry)
    → n + 1 < capacity
    → IsHeld e n es
    → IsHeld e (n + 1) (evict capacity es ++ new_entry ∷ [])
append-IsHeld capacity e n es new_entry room h =
    let k = evict_keeps capacity e h.older h.younger h.first (omega (arith, h.few, room)) in
    record {
      older = k.older;
      younger = k.younger ++ new_entry ∷ [];
      parts =
          ap (λ es'. evict capacity es' ++ new_entry ∷ []) h.parts
          ∙ ap (λ es'. es' ++ new_entry ∷ []) k.parts
          ∙ append_assoc k.older (e ∷ k.younger) (new_entry ∷ []);
      first = k.first;
      few = omega (arith, length-append k.younger (new_entry ∷ []), k.few, h.few);
    }

pub more-IsHeld : (e : Entry) (n : ℕ) (es : List Entry) → IsHeld e n es → IsHeld e (n + 1) es
more-IsHeld e n es h = record {
  older = h.older;
  younger = h.younger;
  parts = h.parts;
  first = h.first;
  few = omega (arith, h.few);
}

-- `record` at a time when the entry lives.
pub put-IsHeld :
    (key hash id : String) (now : ℕ) (e : Entry) (n : ℕ) (r : Registry)
    → now < e.expires_at
    → n + 1 < r.capacity
    → IsHeld e n r.entries
    → IsHeld e (n + 1) (put key hash id now r).0.entries
put-IsHeld key hash id now e n r live room h =
    let pruned = prune-IsHeld now e n r.entries live h in
    elim (Lookup-cases (lookup key hash now r).1) [
      | inl first ↦
          rw (put_miss key hash id now r first) (
            append-IsHeld r.capacity e n (prune now r.entries) (entry key hash id now r) room
              pruned)
      | inr again ↦ rw ((put_again key hash id now r again).0) (more-IsHeld e n _ pruned)
    ]

-- How many of the calls record something.
abbrev pub records_of : List Call → ℕ
records_of [] = 0
records_of (records key hash id now ∷ cs) = suc (records_of cs)
records_of (looks_up key hash now ∷ cs) = records_of cs
records_of (sizes now ∷ cs) = records_of cs

abbrev pub time_of : Call → ℕ
time_of (looks_up key hash now) = now
time_of (records key hash id now) = now
time_of (sizes now) = now

pub put-capacity :
    (key hash id : String) (now : ℕ) (r : Registry)
    → (put key hash id now r).0.capacity ≡ r.capacity
unfolding put store lookup
put-capacity key hash id now r = ground arith

-- The entry survives the calls if there are fewer records among them than the capacity leaves room for.
run-IsHeld :
    (cs : List Call) (e : Entry) (n : ℕ) (r : Registry)
    → All (λ (c : Call). time_of c < e.expires_at) cs
    → n + records_of cs < r.capacity
    → IsHeld e n r.entries
    → IsHeld e (n + records_of cs) (run cs r).entries
unfolding run call lookup size
run-IsHeld [] e n r live room h = subst (λ k. IsHeld e k r.entries) (omega arith) h
run-IsHeld (looks_up key hash now ∷ cs) e n r live room h =
    run-IsHeld cs e n (record r { entries = prune now r.entries }) live.1 room
      (prune-IsHeld now e n r.entries live.0 h)
run-IsHeld (sizes now ∷ cs) e n r live room h =
    run-IsHeld cs e n (record r { entries = prune now r.entries }) live.1 room
      (prune-IsHeld now e n r.entries live.0 h)
run-IsHeld (records key hash id now ∷ cs) e n r live room h =
    subst (λ k. IsHeld e k (run (records key hash id now ∷ cs) r).entries) (omega arith)
      (run-IsHeld cs e (n + 1) (put key hash id now r).0 live.1
        (omega (arith, room, put-capacity key hash id now r))
        (put-IsHeld key hash id now e n r live.0 (omega (arith, room)) h))

-- What a first record leaves.
pub put-new-IsHeld :
    (key hash id : String) (now : ℕ) (r : Registry)
    → (lookup key hash now r).1 ≡ miss
    → IsHeld (entry key hash id now r) 0 (put key hash id now r).0.entries
put-new-IsHeld key hash id now r first = record {
  older = evict r.capacity (prune now r.entries);
  younger = [];
  parts = put_miss key hash id now r first;
  first =
      get-evict-none key r.capacity (prune now r.entries) (
        outcome-miss hash (get key (prune now r.entries)) (sym (lookup-eq key hash now r) ∙ first));
  few = omega arith;
}

pub lookup-IsHeld :
    (hash : String) (later : ℕ) (e : Entry) (n : ℕ) (r : Registry)
    → later < e.expires_at
    → IsHeld e n r.entries
    → (lookup e.key hash later r).1
      ≡ (if e.payload_hash == hash then replay e.result_identity else conflict)
lookup-IsHeld hash later e n r live h =
    rw
      (
        lookup-eq e.key hash later r,
        get-IsHeld e n (prune later r.entries) (prune-IsHeld later e n r.entries live h),
      )
      (unfold outcome in ground arith)

-- A first `record` under a key, and then any calls before it expires, of which fewer than the capacity
-- are records: a lookup of the key that is still before that time answers with the recorded result for
-- the same payload hash, and as a conflict for any other.
pub lookup-run-put :
    (key hash hash' id : String) (now later : ℕ) (cs : List Call) (r : Registry)
    → (lookup key hash now r).1 ≡ miss
    → All (λ (c : Call). time_of c < now + r.ttl_ms) cs
    → later < now + r.ttl_ms
    → records_of cs < r.capacity
    → (lookup key hash' later (run cs (put key hash id now r).0)).1
      ≡ (if hash == hash' then replay id else conflict)
lookup-run-put key hash hash' id now later cs r first live soon room =
    lookup-IsHeld hash' later (entry key hash id now r) (0 + records_of cs)
      (run cs (put key hash id now r).0) soon
      (run-IsHeld cs (entry key hash id now r) 0 (put key hash id now r).0 live
        (omega (arith, room, put-capacity key hash id now r))
        (put-new-IsHeld key hash id now r first))
