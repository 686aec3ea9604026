-- ===== src/Platform/Idempotency/Bounds.antt =====
-- The registry stays within its capacity, with one entry for a key, whatever the calls.
use ai_software_engineering.Prelude.{
  ℕ, ◌+◌, ◌≤◌, ◌<◌, String, ◌≡◌, refl, ◌≢◌, none, List, [], ◌∷◌, arith, eq_iff, length,
  length-keep_if, ok,
}
use ai_software_engineering.Platform.Idempotency.{
  Entry, Registry, Lookup, miss, replay, conflict, new, size, prune, get, set, lookup, evict, store,
  put,
}
use ai_software_engineering.Platform.Idempotency.Evict.{length-evict, get-set}
use ai_software_engineering.Platform.Idempotency.Answers.{get-prune-none}

abbrev pub Distinct : List Entry → Type 0
Distinct [] = Unit {0}
Distinct (e ∷ es) = (get e.key es ≡ none) × Distinct es

pub record IsBounded (r : Registry) : Type 0 where
  pub room : 0 < r.capacity
  pub within : length r.entries ≤ r.capacity
  pub distinct : Distinct r.entries

-- The calls that the platform makes, each at its time.
pub data Call : Type 0 where
  looks_up : String → String → ℕ → Call
  records : String → String → String → ℕ → Call
  sizes : ℕ → Call

unfoldable pub call : Call → Registry → Registry
call (looks_up key hash now) r = (lookup key hash now r).0
call (records key hash id now) r = (put key hash id now r).0
call (sizes now) r = (size now r).0

unfoldable pub run : List Call → Registry → Registry
unfolding call
run [] r = r
run (c ∷ cs) r = run cs (call c r)

prune-Distinct : (now : ℕ) (es : List Entry) → Distinct es → Distinct (prune now es)
unfolding prune
prune-Distinct now [] d = tt
prune-Distinct now (e ∷ es) d =
    ground (arith, prune-Distinct now es d.1, get-prune-none e.key now es d.0)

pub length-prune : (now : ℕ) (es : List Entry) → length (prune now es) ≤ length es
unfolding prune
length-prune now es = length-keep_if _ es

evict-Distinct : (capacity : ℕ) (es : List Entry) → Distinct es → Distinct (evict capacity es)
unfolding evict
evict-Distinct capacity [] d = tt
evict-Distinct capacity (e ∷ es) d = ground (arith, evict-Distinct capacity es d.1)

get-set-none :
    (key : String) (n : Entry) (es : List Entry)
    → get key es ≡ none
    → key ≢ n.key
    → get key (set n es) ≡ none
get-set-none key n es h ne = rw get-set (ground (arith, eq_iff n.key key))

set-Distinct : (n : Entry) (es : List Entry) → Distinct es → Distinct (set n es)
unfolding set
set-Distinct n [] d = (unfold get in refl, tt)
set-Distinct n (e ∷ es) d =
    ground (arith, set-Distinct n es d.1, get-set-none e.key n es d.0, eq_iff e.key n.key)

length-set : (n : Entry) (es : List Entry) → length (set n es) ≤ length es + 1
unfolding set
length-set n [] = omega arith
length-set n (e ∷ es) = ground (arith, length-set n es)

prune-IsBounded :
    (now : ℕ) (r : Registry) → IsBounded r → IsBounded (record r { entries = prune now r.entries })
prune-IsBounded now r b = record {
  room = b.room;
  within = omega (arith, length-prune now r.entries, b.within);
  distinct = prune-Distinct now r.entries b.distinct;
}

lookup-IsBounded :
    (key hash : String) (now : ℕ) (r : Registry) → IsBounded r → IsBounded (lookup key hash now r).0
lookup-IsBounded key hash now r b = unfold lookup in prune-IsBounded now r b

store-IsBounded :
    (key hash id : String) (now : ℕ) (r : Registry) (x : Lookup)
    → IsBounded r
    → IsBounded (store key hash id now (r, x)).0
unfolding store
store-IsBounded key hash id now r conflict b = b
store-IsBounded key hash id now r (replay _) b = b
store-IsBounded key hash id now r miss b = record {
  room = b.room;
  within = omega (arith, length-set _ _, length-evict r.capacity r.entries b.room);
  distinct = set-Distinct _ _ (evict-Distinct r.capacity r.entries b.distinct);
}

-- Every call keeps the registry bounded.
pub call-IsBounded : (c : Call) (r : Registry) → IsBounded r → IsBounded (call c r)
unfolding call
call-IsBounded (looks_up key hash now) r b = lookup-IsBounded key hash now r b
call-IsBounded (sizes now) r b = unfold size in prune-IsBounded now r b
call-IsBounded (records key hash id now) r b =
    unfold put in
    store-IsBounded key hash id now _ _ (lookup-IsBounded key hash now _ (prune-IsBounded now r b))

run-IsBounded : (cs : List Call) (r : Registry) → IsBounded r → IsBounded (run cs r)
unfolding run
run-IsBounded [] r b = b
run-IsBounded (c ∷ cs) r b = run-IsBounded cs (call c r) (call-IsBounded c r b)

new-IsBounded : (capacity ttl_ms : ℕ) (r : Registry) → new capacity ttl_ms ≡ ok r → IsBounded r
unfolding new
new-IsBounded capacity ttl_ms r h = ground arith

-- A registry that the constructor accepts never holds more entries than its capacity, nor two
-- under one key, after any calls at any times.
pub run-new-IsBounded :
    (capacity ttl_ms : ℕ) (cs : List Call) (r : Registry)
    → new capacity ttl_ms ≡ ok r
    → IsBounded (run cs r)
run-new-IsBounded capacity ttl_ms cs r h = run-IsBounded cs r (new-IsBounded capacity ttl_ms r h)
