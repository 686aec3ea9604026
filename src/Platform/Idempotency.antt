-- ===== src/Platform/Idempotency.antt =====
-- packages/platform/src/idempotency.ts: `BoundedIdempotencyRegistry`. The private `Map` is its list
-- of entries in insertion order; times are milliseconds, given by the caller.
pub mod Evict
pub mod Answers
pub mod Bounds
pub mod Held
mod Tests
use ai_software_engineering.Prelude.{
  ℕ, ◌+◌, ◌≡◌, String, Bool, true, false, not, ◌||◌, Option, none, some, List, [], ◌∷◌, ltb, leb,
  ◌==◌, if◌then◌else◌, length, keep_if, is_safe_integer, Result, ok, err,
}

pub record Entry : Type 0 where
  pub key : String
  pub payload_hash : String
  pub result_identity : String
  pub expires_at : ℕ

pub record Registry : Type 0 where
  pub capacity : ℕ
  pub ttl_ms : ℕ
  pub entries : List Entry

pub data Lookup : Type 0 where
  miss : Lookup
  replay : String → Lookup
  conflict : Lookup

pub data Failure : Type 0 where
  range_error payload_conflict : Failure

-- The constructor.
unfoldable pub new : ℕ → ℕ → Result Failure Registry
new capacity ttl_ms =
    if not (is_safe_integer capacity)
      || ltb capacity 1
      || not (is_safe_integer ttl_ms)
      || ltb ttl_ms 1
    then err range_error
    else ok (record { capacity = capacity; ttl_ms = ttl_ms; entries = [] })

-- `#prune`, on the entries.
unfoldable pub prune : ℕ → List Entry → List Entry
prune now = keep_if (λ e. not (leb e.expires_at now))

-- `Map.prototype.get` and `set`.
unfoldable pub get : String → List Entry → Option Entry
get key [] = none
get key (e ∷ es) = if e.key == key then some e else get key es

unfoldable pub set : Entry → List Entry → List Entry
set new_entry [] = new_entry ∷ []
set new_entry (e ∷ es) = if e.key == new_entry.key then new_entry ∷ es else e ∷ set new_entry es

-- What `lookup` makes of the entry that it finds.
unfoldable pub outcome : String → Option Entry → Lookup
outcome payload_hash none = miss
outcome payload_hash (some e) =
    if not (e.payload_hash == payload_hash) then conflict else replay e.result_identity

-- `lookup` prunes first, so it returns the registry too.
unfoldable pub lookup : String → String → ℕ → Registry → Registry × Lookup
unfolding prune get outcome
lookup key payload_hash now r =
    let es = prune now r.entries in (record r { entries = es }, outcome payload_hash (get key es))

-- `size`
unfoldable pub size : ℕ → Registry → Registry × ℕ
unfolding prune
size now r = let es = prune now r.entries in (record r { entries = es }, length es)

-- The `while` loop of `record` over the oldest entries: it ends when room is made.
unfoldable pub evict : ℕ → List Entry → List Entry
evict capacity [] = []
evict capacity (e ∷ es) = if leb capacity (length (e ∷ es)) then evict capacity es else e ∷ es

-- The end of `record`, once the outcome of its own `lookup` is known.
unfoldable pub store :
    String → String → String → ℕ → Registry × Lookup → Registry × Result Failure (Unit {0})
unfolding evict set
store key payload_hash result_identity now (r, conflict) = (r, err payload_conflict)
store key payload_hash result_identity now (r, replay _) = (r, ok tt)
store key payload_hash result_identity now (r, miss) =
    let e : Entry = record {
      key = key;
      payload_hash = payload_hash;
      result_identity = result_identity;
      expires_at = now + r.ttl_ms;
    } in
    (record r { entries = set e (evict r.capacity r.entries) }, ok tt)

-- `record`: it prunes, looks up (which prunes again), and stores.
unfoldable pub put : String → String → String → ℕ → Registry → Registry × Result Failure (Unit {0})
unfolding prune lookup store
put key payload_hash result_identity now r =
    let pruned = record r { entries = prune now r.entries } in
    store key payload_hash result_identity now (lookup key payload_hash now pruned)
