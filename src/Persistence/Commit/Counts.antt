-- ===== src/Persistence/Commit/Counts.antt =====
-- Journal rows that count up from a version, and what a commit's events add to a stream.
use Prim.Native.Nat.{max}
use ai_software_engineering.Prelude.{
  ℕ, suc, ◌+◌, ◌≤◌, String, ◌≡◌, refl, ap, subst, false, ◌&&◌, List, [], ◌∷◌, ◌++◌, map, arith,
  ◌==◌, eq_refl, length,
}
use ai_software_engineering.Contracts.Canonical.{Runtime}
use ai_software_engineering.Contracts.Envelopes.{DomainEventEnvelope, JournalAppendBatch}
use ai_software_engineering.Persistence.Tables.{EventRow}
use ai_software_engineering.Persistence.Commit.{
  event_row, max_version, stream_of, insert_version, order_by_version,
}
use ai_software_engineering.Persistence.Commit.Append.{CarriesOn}

-- The versions of the rows go on from a version, one by one.
abbrev pub Counts : ℕ → List EventRow → Type 0
Counts v [] = Unit {0}
Counts v (r ∷ rs) = (r.aggregate_version ≡ v + 1) × Counts (v + 1) rs

-- Every stream of the journal holds the versions 1, 2, 3, ... in that order.
pub record IsContiguous (rows : List EventRow) : Type 0 where
  pub at : (type id : String) → Counts 0 (stream_of type id rows)

pub Counts-append :
    (v : ℕ) (xs ys : List EventRow) → Counts v xs → Counts (v + length xs) ys → Counts v (xs ++ ys)
Counts-append v [] ys hx hy = let e : v + 0 ≡ v = omega arith in subst (λ n. Counts n ys) e hy
Counts-append v (x ∷ xs) ys hx hy =
    let e : v + suc (length xs) ≡ v + 1 + length xs = omega arith in
    (hx.0, Counts-append (v + 1) xs ys hx.1 (subst (λ n. Counts n ys) e hy))

-- Counted rows stand in order, so sorting by the version moves none.
insert_version_first :
    (v : ℕ) (r : EventRow) (rs : List EventRow)
    → r.aggregate_version ≤ v + 1
    → Counts v rs
    → insert_version r rs ≡ r ∷ rs
unfolding insert_version
insert_version_first v r [] h c = refl
insert_version_first v r (r' ∷ rs) h c = ground arith

pub order-Counts : (v : ℕ) (rs : List EventRow) → Counts v rs → order_by_version rs ≡ rs
unfolding order_by_version
order-Counts v [] c = refl
order-Counts v (r ∷ rs) c =
    rw (order-Counts (v + 1) rs c.1) (insert_version_first (v + 1) r rs (omega arith) c.1)

max_version-stream :
    (type id : String) (rows : List EventRow)
    → max_version type id rows ≡ max_version type id (stream_of type id rows)
unfolding max_version
max_version-stream type id [] = refl
max_version-stream type id (r ∷ rs) = ground (arith, max_version-stream type id rs)

-- The highest version of a stream that counts from 1 is its length.
pub max_version-Counts :
    (type id : String) (v : ℕ) (rows : List EventRow)
    → Counts v (stream_of type id rows)
    → max v (max_version type id rows) ≡ v + length (stream_of type id rows)
unfolding max_version
max_version-Counts type id v [] c = omega arith
max_version-Counts type id v (r ∷ rs) c =
    ground (arith, max_version-Counts type id v rs, max_version-Counts type id (v + 1) rs)

module _ (runtime : Runtime) where
  pub CarriesOn-Counts :
      (batch : JournalAppendBatch) (v : ℕ) (es : List DomainEventEnvelope)
      → CarriesOn runtime batch v es
      → Counts v (map (event_row runtime) es)
  CarriesOn-Counts batch v [] c = tt
  CarriesOn-Counts batch v (e ∷ es) c = (c.0.2, CarriesOn-Counts batch (v + 1) es c.1)

  -- All events of a batch are on its stream, and on no other.
  pub stream-own :
      (batch : JournalAppendBatch) (v : ℕ) (es : List DomainEventEnvelope)
      → CarriesOn runtime batch v es
      → stream_of batch.stream.aggregate_type batch.stream.aggregate_id (map (event_row runtime) es)
        ≡ map (event_row runtime) es
  stream-own batch v [] c = refl
  stream-own batch v (e ∷ es) c = ground (
    arith,
    stream-own batch (v + 1) es c.1,
    eq_refl batch.stream.aggregate_type,
    eq_refl batch.stream.aggregate_id,
  )

  pub stream-other :
      (type id : String) (batch : JournalAppendBatch) (v : ℕ) (es : List DomainEventEnvelope)
      → CarriesOn runtime batch v es
      → (batch.stream.aggregate_type == type && batch.stream.aggregate_id == id) ≡ false
      → stream_of type id (map (event_row runtime) es) ≡ []
  stream-other type id batch v [] c ne = refl
  stream-other type id batch v (e ∷ es) c ne =
      ground (arith, stream-other type id batch (v + 1) es c.1 ne)

  pub map-event_json :
      (es : List DomainEventEnvelope)
      → map (λ (r : EventRow). r.event_json) (map (event_row runtime) es) ≡ es
  map-event_json [] = refl
  map-event_json (e ∷ es) = ap (λ xs. e ∷ xs) (map-event_json es)
