-- ===== src/Persistence/Worker/Durable.antt =====
-- What holds of the file through a whole session, whatever requests come and however SQLite answers.
use mathlib.Core.List.{append-nil}
use ai_software_engineering.Prelude.{
  ◌≡◌, refl, sym, subst, ◌⊎◌, inl, inr, false, none, some, List, [], ◌∷◌, arith, eq_iff, Bool-cases,
  keep_if-append, ok,
}
use ai_software_engineering.Contracts.Canonical.{Runtime}
use ai_software_engineering.Contracts.Envelopes.{JournalAppendBatch, PersistenceCommitReceipt}
use ai_software_engineering.Kernel.{CommandIdentity}
use ai_software_engineering.Persistence.Tables.{ReceiptRow, Tables, same_identity}
use ai_software_engineering.Persistence.Commit.{
  identity_of, sole_duplicate, find_command_duplicate, receipt_row, append_batch,
  commit_transaction,
}
use ai_software_engineering.Persistence.Commit.Append.{Appended, append_batch_sound}
use ai_software_engineering.Persistence.Commit.Claims.{claimed, sole_none, sole_some, kept_too}
use ai_software_engineering.Persistence.Commit.Counts.{IsContiguous}
use ai_software_engineering.Persistence.Commit.Streams.{Appended-IsContiguous}
use ai_software_engineering.Persistence.Inbox.Laws.{record_inbox_cases, save_steps}
use ai_software_engineering.Persistence.Worker.{Turn, Worker, Request, serve}
use ai_software_engineering.Persistence.Worker.Atomic.{IsValid}
use ai_software_engineering.Persistence.Worker.Effects.{
  Write, by_commit, by_inbox, by_checkpoint, Effect, stays, writes, begins, releases, closes,
  handle-Effect, Effect-IsValid,
}

-- What a row of receipts is found by does not claim, it finds nothing of.
claims_apart :
    (i j : CommandIdentity) (rows : List ReceiptRow) (row new : ReceiptRow)
    → sole_duplicate i (claimed i rows) ≡ ok (some row)
    → claimed j rows ≡ []
    → new.command_id ≡ j.command_id
    → new.idempotency_key ≡ j.idempotency_key
    → new.effect_scope ≡ j.effect_scope
    → same_identity i.command_id i.idempotency_key i.effect_scope new ≡ false
claims_apart i j rows row new found free c k e =
    let (alone, c', k', e', _) = sole_some i (claimed i rows) row found in
    elim (Bool-cases (same_identity j.command_id j.idempotency_key j.effect_scope row)) [
      | inl overlap ↦
          elim (kept_too (same_identity i.command_id i.idempotency_key i.effect_scope)
            (same_identity j.command_id j.idempotency_key j.effect_scope) rows row [] alone
            overlap) [
              | inl one ↦ absurd (cc (one, free))
              | inr (a, b, more, two) ↦ absurd (cc (two, free))
            ]
      | inr apart ↦ ground (
        arith,
        eq_iff row.command_id j.command_id,
        eq_iff row.idempotency_key j.idempotency_key,
        eq_iff row.effect_scope j.effect_scope,
        eq_iff new.command_id i.command_id,
        eq_iff new.idempotency_key i.idempotency_key,
        eq_iff new.effect_scope i.effect_scope,
      )
    ]

module _ (runtime : Runtime) where
  -- A transaction of `commitBatch` that succeeds has found its command, or has appended it.
  pub transaction_cases :
      (batch : JournalAppendBatch) (before : Tables) (r : PersistenceCommitReceipt) (after : Tables)
      → commit_transaction runtime batch before ≡ ok (r, after)
      → ((row : ReceiptRow) × (find_command_duplicate (identity_of batch) before ≡ ok (some row))
          × (r ≡ row.receipt_json)
          × (after ≡ before))
        ⊎ ((find_command_duplicate (identity_of batch) before ≡ ok none)
            × (append_batch runtime batch before ≡ ok (r, after)))
  unfolding commit_transaction
  transaction_cases batch before r after h = ground arith

  Appended-keeps :
      (batch : JournalAppendBatch) (i : CommandIdentity) (before after : Tables)
      (r : PersistenceCommitReceipt) (row : ReceiptRow)
      → find_command_duplicate i before ≡ ok (some row)
      → find_command_duplicate (identity_of batch) before ≡ ok none
      → Appended runtime batch r before after
      → find_command_duplicate i after ≡ ok (some row)
  unfolding find_command_duplicate
  Appended-keeps batch i before after r row found first a =
      let new = receipt_row runtime batch r in
      let free = sole_none (identity_of batch) _ first in
      let apart : same_identity i.command_id i.idempotency_key i.effect_scope new ≡ false =
        claims_apart i (identity_of batch) before.command_receipts row new found free refl refl
          refl in
      let kept =
        keep_if-append (same_identity i.command_id i.idempotency_key i.effect_scope)
          before.command_receipts (new ∷ []) in
      rw (a.receipts, kept, apart, append-nil) found

  pub Write-keeps :
      (i : CommandIdentity) (row : ReceiptRow) (before after : Tables)
      → find_command_duplicate i before ≡ ok (some row)
      → Write runtime before after
      → find_command_duplicate i after ≡ ok (some row)
  Write-keeps i row before after found (by_commit batch r h) =
      elim (transaction_cases batch before r after h) [
        | inl (_, _, _, same) ↦ rw same found
        | inr (first, appended) ↦
            Appended-keeps batch i before after r row found first
              (append_batch_sound runtime batch before r after appended)
      ]
  Write-keeps i row before after found (by_inbox new answer h) =
      elim (record_inbox_cases new before answer after h) [
        | inl (_, _, _, same) ↦ rw same found
        | inr (_, _, same) ↦ unfold find_command_duplicate in rw same found
      ]
  Write-keeps i row before after found (by_checkpoint new answer h) =
      let (_, _, same) = save_steps new before answer after h in
      unfold find_command_duplicate in rw same found

  Write-IsContiguous :
      (before after : Tables)
      → IsContiguous before.event_journal
      → Write runtime before after
      → IsContiguous after.event_journal
  Write-IsContiguous before after c (by_commit batch r h) =
      elim (transaction_cases batch before r after h) [
        | inl (_, _, _, same) ↦ rw same c
        | inr (_, appended) ↦
            Appended-IsContiguous runtime batch r before after c
              (append_batch_sound runtime batch before r after appended)
      ]
  Write-IsContiguous before after c (by_inbox new answer h) =
      elim (record_inbox_cases new before answer after h) [
        | inl (_, _, _, same) ↦ rw same c
        | inr (_, _, same) ↦ rw same c
      ]
  Write-IsContiguous before after c (by_checkpoint new answer h) =
      let (_, _, same) = save_steps new before answer after h in rw same c

  -- A property of the tables that every write keeps is kept by an effect.
  pub Effect-keeps :
      (P : Tables → Type 0)
      → ((before after : Tables) → P before → Write runtime before after → P after)
      → (w w' : Worker) → P w.durable
      → Effect runtime w w'
      → P w'.durable
  Effect-keeps P keeps w w' p (stays same) = subst (λ (x : Worker). P x.durable) (sym same) p
  Effect-keeps P keeps w w' p (writes write _ _) = keeps w.durable w'.durable p write
  Effect-keeps P keeps w w' p (begins _ _ _ _ same) =
      subst (λ (x : Worker). P x.durable) (sym same) p
  Effect-keeps P keeps w w' p (releases _ same) = subst (λ (x : Worker). P x.durable) (sym same) p
  Effect-keeps P keeps w w' p (closes same) = subst (λ (x : Worker). P x.durable) (sym same) p

  pub serve-keeps :
      (P : Tables → Type 0)
      → ((before after : Tables) → P before → Write runtime before after → P after)
      → (session : List (Turn × Request)) (w : Worker) → IsValid w
      → P w.durable
      → IsValid (serve runtime session w) × P (serve runtime session w).durable
  unfolding serve
  serve-keeps P keeps [] w v p = (v, p)
  serve-keeps P keeps ((turn, request) ∷ rest) w v p =
      let effect = handle-Effect runtime turn request w v in
      serve-keeps P keeps rest _ (Effect-IsValid runtime w _ v effect)
        (Effect-keeps P keeps w _ p effect)

  -- From a valid worker whose streams have the versions 1, 2, 3, ... in order, any session leaves a
  -- valid worker and a file with such streams.
  pub serve-IsContiguous :
      (session : List (Turn × Request)) (w : Worker)
      → IsValid w
      → IsContiguous w.durable.event_journal
      → IsValid (serve runtime session w)
        × IsContiguous (serve runtime session w).durable.event_journal
  serve-IsContiguous session w v c =
      serve-keeps (λ t. IsContiguous t.event_journal) Write-IsContiguous session w v c

  -- A receipt in the file of a valid worker is there for good: after any session, the lookup by its
  -- command's identity finds the same row.
  pub serve_keeps_receipt :
      (session : List (Turn × Request)) (w : Worker) (i : CommandIdentity) (row : ReceiptRow)
      → IsValid w
      → find_command_duplicate i w.durable ≡ ok (some row)
      → find_command_duplicate i (serve runtime session w).durable ≡ ok (some row)
  serve_keeps_receipt session w i row v found =
      (serve-keeps (λ t. find_command_duplicate i t ≡ ok (some row)) (Write-keeps i row) session w v
        found).1
