-- ===== src/Persistence/Client/Receipts.antt =====
-- What the client's calls leave in the file: receipts stay, and a committed one is found.
use ai_software_engineering.Prelude.{
  ◌≡◌, refl, sym, ap, subst, ◌∙◌, inl, inr, Option, none, some, List, [], ◌∷◌, arith, Option-cases,
  keep_if, Result, ok, ◌>>=◌, >>=-eq-ok, ok-injective, Result-cases,
}
use ai_software_engineering.Contracts.Canonical.{Runtime}
use ai_software_engineering.Contracts.Errors.{Failure}
use ai_software_engineering.Contracts.Envelopes.{JournalAppendBatch, PersistenceCommitReceipt}
use ai_software_engineering.Contracts.Registry.{ContractRegistry}
use ai_software_engineering.Kernel.{CommandIdentity}
use ai_software_engineering.Persistence.Tables.{ReceiptRow, Tables, same_identity}
use ai_software_engineering.Persistence.Commit.{
  identity_of, sole_duplicate, find_command_duplicate, verify_outbox, receipt_row,
  commit_transaction,
}
use ai_software_engineering.Persistence.Commit.Append.{append_batch_sound}
use ai_software_engineering.Persistence.Commit.Idempotent.{found_new}
use ai_software_engineering.Persistence.Worker.{Turn, Worker, db, commit_request, serve}
use ai_software_engineering.Persistence.Worker.Atomic.{IsValid, run_transaction_done}
use ai_software_engineering.Persistence.Worker.Effects.{Write, Effect, Effect-IsValid}
use ai_software_engineering.Persistence.Worker.Durable.{
  transaction_cases, Write-keeps, Effect-keeps, serve-keeps,
}
use ai_software_engineering.Persistence.Client.{
  Fate, refused, answered, lost, Moment, deliver, request_at,
}

-- The receipt of an identity in the file.
abbrev pub IsCommitted : CommandIdentity → PersistenceCommitReceipt → Tables → Type 0
IsCommitted i r tables =
    (row : ReceiptRow) × (find_command_duplicate i tables ≡ ok (some row)) × (row.receipt_json ≡ r)

-- What a statement sees of the receipts is what the file holds.
pub db_receipts :
    (w : Worker) (t : Tables) (i : CommandIdentity)
    → IsValid w
    → db w ≡ ok t
    → find_command_duplicate i t ≡ find_command_duplicate i w.durable
unfolding db find_command_duplicate
db_receipts w t i v h = elim (Option-cases w.transaction) [
  | inl idle ↦
      let same : t ≡ w.durable = ground arith in
      ap (λ (x : Tables). receipts_of x.command_receipts) same
  | inr (tables, inside) ↦
      let same : t ≡ tables = ground arith in
      ap (λ (x : Tables). receipts_of x.command_receipts) same
      ∙ ap receipts_of (v.same_receipts tables inside)
]
  where
    receipts_of : List ReceiptRow → Result Failure (Option ReceiptRow)
    receipts_of rows =
        sole_duplicate i
          (keep_if (same_identity i.command_id i.idempotency_key i.effect_scope) rows)

module _ (runtime : Runtime) (registry : ContractRegistry) where
  pub Write-IsCommitted :
      (i : CommandIdentity) (r : PersistenceCommitReceipt) (before after : Tables)
      → IsCommitted i r before
      → Write runtime before after
      → IsCommitted i r after
  Write-IsCommitted i r before after (row, found, same) write =
      (row, Write-keeps runtime i row before after found write, same)

  commit_transaction-IsCommitted :
      (batch : JournalAppendBatch) (before : Tables) (r : PersistenceCommitReceipt) (after : Tables)
      → commit_transaction runtime batch before ≡ ok (r, after)
      → IsCommitted (identity_of batch) r after
  commit_transaction-IsCommitted batch before r after h =
      elim (transaction_cases runtime batch before r after h) [
        | inl (row, found, same, unchanged) ↦ (row, rw unchanged found, sym same)
        | inr (first, appended) ↦ (
          receipt_row runtime batch r,
          found_new runtime batch before r after first
              (append_batch_sound runtime batch before r after appended),
          refl,
        )
      ]

  deliver-keeps {ℓ} :
      {A : Type ℓ} (P : Tables → Type 0)
      → ((before after : Tables) → P before → Write runtime before after → P after)
      → (run : Turn → Worker → Result Failure A × Worker)
      → ((turn : Turn) (w : Worker) → IsValid w → Effect runtime w (run turn w).1)
      → (fate : Fate) (w : Worker) → IsValid w
      → P w.durable
      → IsValid (deliver runtime registry run fate w).1
        × P (deliver runtime registry run fate w).1.durable
  unfolding deliver
  deliver-keeps P keeps run effect (refused code) w v p = (v, p)
  deliver-keeps P keeps run effect (answered turn) w v p = (
    Effect-IsValid runtime w _ v (effect turn w v),
    Effect-keeps runtime P keeps w _ p (effect turn w v),
  )
  deliver-keeps P keeps run effect (lost turn) w v p = (
    Effect-IsValid runtime w _ v (effect turn w v),
    Effect-keeps runtime P keeps w _ p (effect turn w v),
  )

  -- A call keeps what every write keeps, whatever comes before it and becomes of it.
  pub request-keeps {ℓ} :
      {A : Type ℓ} (P : Tables → Type 0)
      → ((before after : Tables) → P before → Write runtime before after → P after)
      → (run : Turn → Worker → Result Failure A × Worker)
      → ((turn : Turn) (w : Worker) → IsValid w → Effect runtime w (run turn w).1)
      → (w : Worker) (moments : List Moment) → IsValid w
      → P w.durable
      → IsValid (request_at runtime registry run w moments).1.worker
        × P (request_at runtime registry run w moments).1.worker.durable
  unfolding request_at
  request-keeps P keeps run effect w [] v p = (v, p)
  request-keeps P keeps run effect w (m ∷ ms) v p =
      let (v', p') = serve-keeps runtime P keeps m.others w v p in
      deliver-keeps P keeps run effect m.fate (serve runtime m.others w) v' p'

  -- A call that is answered ran on a valid worker, and left the worker that the client has now.
  pub request_ran {ℓ} :
      {A : Type ℓ} (run : Turn → Worker → Result Failure A × Worker) (w : Worker)
      (moments : List Moment) (a : A)
      → IsValid w
      → (request_at runtime registry run w moments).0 ≡ ok a
      → (turn : Turn) × (w₁ : Worker) × IsValid w₁
        × (run turn w₁ ≡ (ok a, (request_at runtime registry run w moments).1.worker))
  unfolding request_at
  request_ran run w [] a v h = cc h
  request_ran run w (m ∷ ms) a v h =
      delivered m.fate (serve runtime m.others w)
        (serve-keeps runtime (λ _. Unit {0}) (λ _ _ _ _. tt) m.others w v tt).0 h
    where
      delivered :
          (fate : Fate) (w₁ : Worker)
          → IsValid w₁
          → (deliver runtime registry run fate w₁).0 ≡ ok a
          → (turn : Turn) × (w₂ : Worker) × IsValid w₂
            × (run turn w₂ ≡ (ok a, (deliver runtime registry run fate w₁).1))
      delivered (refused code) w₁ v₁ h₁ = unfold deliver in cc h₁
      delivered (answered turn) w₁ v₁ h₁ =
          (turn, w₁, v₁, unfold deliver in ap (λ r. (r, (run turn w₁).1)) h₁)
      delivered (lost turn) w₁ v₁ h₁ = unfold deliver in cc h₁

  -- A commit request that is answered has put its receipt in the file.
  pub commit_request-IsCommitted :
      (turn : Turn) (batch : JournalAppendBatch) (w w' : Worker) (r : PersistenceCommitReceipt)
      → IsValid w
      → commit_request runtime turn batch w ≡ (ok r, w')
      → IsCommitted (identity_of batch) r w'.durable
  unfolding commit_request
  commit_request-IsCommitted turn batch w w' r v h =
      elim (Result-cases (db w >>= find_command_duplicate (identity_of batch))) [
        | inr (e, bad) ↦ absurd (cc (rw (bad, commit_request) at h))
        | inl (none, new) ↦ elim (Result-cases (verify_outbox runtime batch.outbox)) [
          | inr (e, bad) ↦ absurd (cc (rw (new, bad, commit_request) at h))
          | inl (_, verified) ↦
              let (_, done, _) =
                run_transaction_done turn (commit_transaction runtime batch) w w'
                  (rw (new, verified, commit_request) at h) in
              commit_transaction-IsCommitted batch w.durable r w'.durable done
        ]
        | inl (some row, old) ↦
            let (t, seen, found) = >>=-eq-ok (db w) _ old in
            let e = rw (old, commit_request) at h in
            (
              row,
              subst
                  (λ (x : Worker).
                    find_command_duplicate (identity_of batch) x.durable ≡ ok (some row))
                  (ap (λ p. p.1) e) (sym (db_receipts w t (identity_of batch) v seen) ∙ found),
              ok-injective (ap (λ p. p.0) e),
            )
      ]
