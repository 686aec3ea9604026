-- ===== src/Persistence/Commit/Idempotent.antt =====
-- `commitBatch` commits a command once: what it answers for a command that it has seen.
use ai_software_engineering.Prelude.{
  ◌≡◌, refl, sym, ◌≢◌, ◌⊎◌, inl, inr, none, some, [], ◌∷◌, arith, eq_refl, keep_if-append, ok, err,
}
use ai_software_engineering.Contracts.Canonical.{Runtime}
use ai_software_engineering.Contracts.Errors.{idempotency_conflict, persistence}
use ai_software_engineering.Contracts.Envelopes.{JournalAppendBatch, PersistenceCommitReceipt}
use ai_software_engineering.Persistence.Tables.{ReceiptRow, Tables, same_identity}
use ai_software_engineering.Persistence.Commit.{
  identity_of, sole_duplicate, find_command_duplicate, lookup_command_receipt, receipt_row,
  append_batch, commit_batch,
}
use ai_software_engineering.Persistence.Commit.Append.{Appended, append_batch_sound}
use ai_software_engineering.Persistence.Commit.Claims.{claimed, sole_none, sole_some, other_refused}

module _ (runtime : Runtime) (batch : JournalAppendBatch) where
  commit_steps :
      (before : Tables) (receipt : PersistenceCommitReceipt) (after : Tables)
      → commit_batch runtime batch before ≡ ok (receipt, after)
      → ((row : ReceiptRow) × (find_command_duplicate (identity_of batch) before ≡ ok (some row))
          × (receipt ≡ row.receipt_json)
          × (after ≡ before))
        ⊎ ((find_command_duplicate (identity_of batch) before ≡ ok none)
            × (append_batch runtime batch before ≡ ok (receipt, after)))
  unfolding commit_batch
  commit_steps before receipt after h = ground arith

  -- The receipt of a new command is the only row that a lookup by its identity reads.
  pub found_new :
      (before : Tables) (receipt : PersistenceCommitReceipt) (after : Tables)
      → find_command_duplicate (identity_of batch) before ≡ ok none
      → Appended runtime batch receipt before after
      → find_command_duplicate (identity_of batch) after
        ≡ ok (some (receipt_row runtime batch receipt))
  unfolding find_command_duplicate
  found_new before receipt after first a =
      let row = receipt_row runtime batch receipt in
      let kept =
        keep_if-append (same_identity batch.command_id batch.idempotency_key batch.effect_scope)
          before.command_receipts (row ∷ []) in
      rw (a.receipts, kept, sole_none (identity_of batch) _ first, eq_refl batch.command_id)
        (unfold sole_duplicate in simp eq_refl)

  -- A commit that succeeds has found its command, and changes nothing, or has appended it.
  pub commit_cases :
      (before : Tables) (receipt : PersistenceCommitReceipt) (after : Tables)
      → commit_batch runtime batch before ≡ ok (receipt, after)
      → ((row : ReceiptRow) × (find_command_duplicate (identity_of batch) before ≡ ok (some row))
          × (receipt ≡ row.receipt_json)
          × (after ≡ before))
        ⊎ ((find_command_duplicate (identity_of batch) before ≡ ok none)
            × Appended runtime batch receipt before after)
  commit_cases before receipt after h = elim (commit_steps before receipt after h) [
    | inl old ↦ inl old
    | inr (first, appended) ↦
        inr (first, append_batch_sound runtime batch before receipt after appended)
  ]

  -- After a commit, the lookup by the command's identity finds its row.
  found_after :
      (before : Tables) (receipt : PersistenceCommitReceipt) (after : Tables)
      → commit_batch runtime batch before ≡ ok (receipt, after)
      → (row : ReceiptRow) × (find_command_duplicate (identity_of batch) after ≡ ok (some row))
        × (row.receipt_json ≡ receipt)
  found_after before receipt after h = elim (commit_cases before receipt after h) [
    | inl (row, found, same, unchanged) ↦ (row, rw unchanged found, sym same)
    | inr (first, a) ↦
        (receipt_row runtime batch receipt, found_new before receipt after first a, refl)
  ]

  -- A command commits once: committing it again, on the tables that the first commit left, gives
  -- the first receipt again and changes no table.
  pub commit_again :
      (before : Tables) (receipt : PersistenceCommitReceipt) (after : Tables)
      → commit_batch runtime batch before ≡ ok (receipt, after)
      → commit_batch runtime batch after ≡ ok (receipt, after)
  commit_again before receipt after h =
      let (row, found, same) = found_after before receipt after h in
      unfold commit_batch in rw (found, same)

  -- The lookup sees what was committed, under just the rules of a commit.
  pub lookup-commit :
      (before : Tables) (receipt : PersistenceCommitReceipt) (after : Tables)
      → commit_batch runtime batch before ≡ ok (receipt, after)
      → lookup_command_receipt (identity_of batch) after ≡ ok (some receipt)
  lookup-commit before receipt after h =
      let (row, found, same) = found_after before receipt after h in
      unfold lookup_command_receipt in rw (found, same)

  -- A batch that takes the identity of a committed command, its `commandId` or its `idempotencyKey`
  -- within its scope, but is another command, is refused.
  pub commit_conflict :
      (before : Tables) (receipt : PersistenceCommitReceipt) (after : Tables)
      (other : JournalAppendBatch)
      → commit_batch runtime batch before ≡ ok (receipt, after)
      → (other.command_id ≡ batch.command_id)
        ⊎ ((other.idempotency_key ≡ batch.idempotency_key)
            × (other.effect_scope ≡ batch.effect_scope))
      → identity_of other ≢ identity_of batch
      → commit_batch runtime other after ≡ err (persistence idempotency_conflict)
  commit_conflict before receipt after other h overlap differs =
      let (row, found, _) = found_after before receipt after h in
      let found' : sole_duplicate (identity_of batch)
            (claimed (identity_of batch) after.command_receipts)
          ≡ ok (some row) =
        unfold find_command_duplicate in found in
      let (alone, c, k, e, p) = sole_some (identity_of batch) _ row found' in
      let refused =
        other_refused (identity_of other) row after.command_receipts (identity_of batch) alone
          (c, k, e, p) overlap differs in
      unfold commit_batch find_command_duplicate in rw refused
