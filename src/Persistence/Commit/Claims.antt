-- ===== src/Persistence/Commit/Claims.antt =====
-- The rows of `command_receipts` that claim an identity, and what the lookup makes of them.
use ai_software_engineering.Prelude.{
  ◌≡◌, refl, ◌≢◌, ◌⊎◌, inl, inr, Bool, true, none, some, List, [], ◌∷◌, arith, eq_iff, Bool-cases,
  keep_if, ok, err,
}
use ai_software_engineering.Contracts.Errors.{idempotency_conflict, persistence}
use ai_software_engineering.Kernel.{CommandIdentity}
use ai_software_engineering.Persistence.Tables.{ReceiptRow, same_identity}
use ai_software_engineering.Persistence.Commit.{sole_duplicate}

-- The rows that a lookup by an identity reads.
abbrev pub claimed : CommandIdentity → List ReceiptRow → List ReceiptRow
claimed i = keep_if (same_identity i.command_id i.idempotency_key i.effect_scope)

pub sole_none :
    (i : CommandIdentity) (rows : List ReceiptRow) → sole_duplicate i rows ≡ ok none → rows ≡ []
unfolding sole_duplicate
sole_none i [] h = refl
sole_none i (row ∷ []) h = ground arith
sole_none i (row ∷ row' ∷ rows) h = cc

-- A row that answers is the only one, and carries the whole identity.
pub sole_some :
    (i : CommandIdentity) (rows : List ReceiptRow) (row : ReceiptRow)
    → sole_duplicate i rows ≡ ok (some row)
    → (rows ≡ row ∷ [])
      × (row.command_id ≡ i.command_id)
      × (row.idempotency_key ≡ i.idempotency_key)
      × (row.effect_scope ≡ i.effect_scope)
      × (row.payload_hash ≡ i.payload_hash)
unfolding sole_duplicate
sole_some i [] row h = cc
sole_some i (x ∷ []) row h = ground (
  arith,
  eq_iff x.command_id i.command_id,
  eq_iff x.idempotency_key i.idempotency_key,
  eq_iff x.effect_scope i.effect_scope,
  eq_iff x.payload_hash i.payload_hash,
)
sole_some i (x ∷ y ∷ rows) row h = cc

-- A row that one test keeps alone is kept by any test that it passes: alone, or among others.
pub kept_too :
    (p q : ReceiptRow → Bool) (xs : List ReceiptRow) (row : ReceiptRow) (rest : List ReceiptRow)
    → keep_if p xs ≡ row ∷ rest
    → q row ≡ true
    → (keep_if q xs ≡ row ∷ [])
      ⊎ ((a : ReceiptRow) × (b : ReceiptRow) × (more : List ReceiptRow) × (keep_if q xs
            ≡ a ∷ b ∷ more))
kept_too p q [] row rest h t = cc
kept_too p q (x ∷ xs) row rest h t = elim (Bool-cases (p x)) [
  | inl first ↦ here (keep_if q xs) refl (x_is first)
  | inr later ↦ there (kept_too p q xs row rest (rw later at h) t)
]
  where
    x_is : p x ≡ true → x ≡ row
    x_is first = ground arith

    here :
        (kept : List ReceiptRow)
        → keep_if q xs ≡ kept
        → x ≡ row
        → (keep_if q (x ∷ xs) ≡ row ∷ [])
          ⊎ ((a : ReceiptRow) × (b : ReceiptRow) × (more : List ReceiptRow) × (keep_if q (x ∷ xs)
                ≡ a ∷ b ∷ more))
    here [] e same = inl (ground arith)
    here (b ∷ more) e same = inr (row, b, more, ground arith)

    there :
        (keep_if q xs ≡ row ∷ [])
          ⊎ ((a : ReceiptRow) × (b : ReceiptRow) × (more : List ReceiptRow) × (keep_if q xs
                ≡ a ∷ b ∷ more))
        → (keep_if q (x ∷ xs) ≡ row ∷ [])
          ⊎ ((a : ReceiptRow) × (b : ReceiptRow) × (more : List ReceiptRow) × (keep_if q (x ∷ xs)
                ≡ a ∷ b ∷ more))
    there found = ground arith

overlaps :
    (i j : CommandIdentity) (row : ReceiptRow)
    → (row.command_id ≡ j.command_id)
      × (row.idempotency_key ≡ j.idempotency_key)
      × (row.effect_scope ≡ j.effect_scope)
      × (row.payload_hash ≡ j.payload_hash)
    → (i.command_id ≡ j.command_id)
      ⊎ ((i.idempotency_key ≡ j.idempotency_key) × (i.effect_scope ≡ j.effect_scope))
    → same_identity i.command_id i.idempotency_key i.effect_scope row ≡ true
overlaps i j row same overlap = ground (
  arith,
  eq_iff row.command_id i.command_id,
  eq_iff row.idempotency_key i.idempotency_key,
  eq_iff row.effect_scope i.effect_scope,
)

differs_alone :
    (i j : CommandIdentity) (row : ReceiptRow)
    → (row.command_id ≡ j.command_id)
      × (row.idempotency_key ≡ j.idempotency_key)
      × (row.effect_scope ≡ j.effect_scope)
      × (row.payload_hash ≡ j.payload_hash)
    → i ≢ j
    → sole_duplicate i (row ∷ []) ≡ err (persistence idempotency_conflict)
unfolding sole_duplicate
differs_alone i j row same differs = ground (
  arith,
  eq_iff row.command_id i.command_id,
  eq_iff row.idempotency_key i.idempotency_key,
  eq_iff row.effect_scope i.effect_scope,
  eq_iff row.payload_hash i.payload_hash,
)

-- Beside a row of one identity, an overlapping other identity finds a conflict.
pub other_refused :
    (i : CommandIdentity) (row : ReceiptRow) (rows : List ReceiptRow) (j : CommandIdentity)
    → claimed j rows ≡ row ∷ []
    → (row.command_id ≡ j.command_id)
      × (row.idempotency_key ≡ j.idempotency_key)
      × (row.effect_scope ≡ j.effect_scope)
      × (row.payload_hash ≡ j.payload_hash)
    → (i.command_id ≡ j.command_id)
      ⊎ ((i.idempotency_key ≡ j.idempotency_key) × (i.effect_scope ≡ j.effect_scope))
    → i ≢ j
    → sole_duplicate i (claimed i rows) ≡ err (persistence idempotency_conflict)
other_refused i row rows j alone same overlap differs =
    elim (kept_too (same_identity j.command_id j.idempotency_key j.effect_scope)
      (same_identity i.command_id i.idempotency_key i.effect_scope) rows row [] alone
      (overlaps i j row same overlap)) [
        | inl one ↦ rw one (differs_alone i j row same differs)
        | inr (a, b, more, e) ↦ rw e (unfold sole_duplicate in refl)
      ]
