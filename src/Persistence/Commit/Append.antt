-- ===== src/Persistence/Commit/Append.antt =====
-- What a transaction of `commitBatch` adds to the tables.
use mathlib.Core.List.{append_assoc, append-nil}
use ai_software_engineering.Prelude.{
  ok-injective, ℕ, ◌+◌, ◌≡◌, sym, ap, subst, ◌∙◌, not, List, [], ◌∷◌, ◌++◌, map, arith, nat_eq,
  eq_iff, length, Result, ok, throw_if, >>=-eq-ok,
}
use ai_software_engineering.Contracts.Canonical.{Runtime, canonical_json_sha256}
use ai_software_engineering.Contracts.Errors.{Failure, persistence, optimistic_concurrency}
use ai_software_engineering.Contracts.Envelopes.{
  DomainEventEnvelope, AuditFact, JournalAppendBatch, PersistenceCommitReceipt,
}
use ai_software_engineering.Persistence.Tables.{
  EventRow, ReceiptRow, OutboxRow, Tables, insert_event, insert_receipt,
}
use ai_software_engineering.Persistence.Commit.{
  verify_event, event_row, append_events, append_tasks, append_audit, receipt_of, receipt_row,
  append_batch, max_version, current_aggregate_version, verify_outbox_identities,
}

-- The events of a batch carry on its stream from a version, each bound to its payload by the hash.
abbrev pub CarriesOn : Runtime → JournalAppendBatch → ℕ → List DomainEventEnvelope → Type 0
CarriesOn runtime batch version [] = Unit {0}
CarriesOn runtime batch version (e ∷ es) =
    ((e.aggregate_type ≡ batch.stream.aggregate_type)
      × (e.aggregate_id ≡ batch.stream.aggregate_id)
      × (e.aggregate_version ≡ version + 1)
      × (canonical_json_sha256 runtime e.payload ≡ e.payload_hash))
    × CarriesOn runtime batch (version + 1) es

module _ (runtime : Runtime) where
  verify_event_sound :
      (e : DomainEventEnvelope) (batch : JournalAppendBatch) (version : ℕ)
      → verify_event runtime e batch version ≡ ok tt
      → (e.aggregate_type ≡ batch.stream.aggregate_type)
        × (e.aggregate_id ≡ batch.stream.aggregate_id)
        × (e.aggregate_version ≡ version)
        × (canonical_json_sha256 runtime e.payload ≡ e.payload_hash)
  unfolding verify_event
  verify_event_sound e batch version h = ground (
    arith,
    eq_iff e.aggregate_type batch.stream.aggregate_type,
    eq_iff e.aggregate_id batch.stream.aggregate_id,
    eq_iff (canonical_json_sha256 runtime e.payload) e.payload_hash,
  )

  expected_version :
      (v e : ℕ) → throw_if (not (nat_eq v e)) (persistence optimistic_concurrency) ≡ ok tt → v ≡ e
  expected_version v e h = ground arith

  insert_event_last :
      (row : EventRow) (rows : List EventRow) {rows' : List EventRow}
      → insert_event row rows ≡ ok rows'
      → rows' ≡ rows ++ row ∷ []
  unfolding insert_event
  insert_event_last row rows h = ground arith

  pub append_events_sound :
      (batch : JournalAppendBatch) (version : ℕ) (events : List DomainEventEnvelope)
      (rows rows' : List EventRow)
      → append_events runtime batch version events rows ≡ ok rows'
      → (rows' ≡ rows ++ map (event_row runtime) events) × CarriesOn runtime batch version events
  unfolding append_events
  append_events_sound batch version [] rows rows' h = (cc (append-nil rows), tt)
  append_events_sound batch version (e ∷ es) rows rows' h =
      let (_, verified, h₁) = >>=-eq-ok (verify_event runtime e batch (version + 1)) _ h in
      let (mid, inserted, h₂) = >>=-eq-ok (insert_event (event_row runtime e) rows) _ h₁ in
      let (appended, carries) = append_events_sound batch (version + 1) es mid rows' h₂ in
      (
        appended
            ∙ ap (λ m. m ++ map (event_row runtime) es) (insert_event_last _ rows inserted)
            ∙ append_assoc rows (event_row runtime e ∷ []) (map (event_row runtime) es),
        (verify_event_sound e batch (version + 1) verified, carries),
      )

  insert_receipt_last :
      (row : ReceiptRow) (rows : List ReceiptRow) {rows' : List ReceiptRow}
      → insert_receipt row rows ≡ ok rows'
      → rows' ≡ rows ++ row ∷ []
  unfolding insert_receipt
  insert_receipt_last row rows h = ground arith

  version_found :
      (batch : JournalAppendBatch) (tables : Tables) {v : ℕ}
      → current_aggregate_version batch tables ≡ ok v
      → v ≡ max_version batch.stream.aggregate_type batch.stream.aggregate_id tables.event_journal
  unfolding current_aggregate_version
  version_found batch tables h = ground arith

  -- What a new command leaves in the tables: its events at the end of the journal, carrying on a
  -- stream that stood at the expected version, and its receipt at the end of the receipts.
  pub record Appended (batch : JournalAppendBatch) (receipt : PersistenceCommitReceipt)
      (before after : Tables) : Type 0 where
    pub stood :
        max_version batch.stream.aggregate_type batch.stream.aggregate_id before.event_journal
        ≡ batch.stream.expected_version
    pub events : after.event_journal ≡ before.event_journal ++ map (event_row runtime) batch.events
    pub carries : CarriesOn runtime batch batch.stream.expected_version batch.events
    pub receipts :
        after.command_receipts ≡ before.command_receipts ++ receipt_row runtime batch receipt ∷ []
    pub receipted :
        receipt ≡ receipt_of runtime batch (batch.stream.expected_version + length batch.events)
    pub inbox : after.inbox ≡ before.inbox
    pub checkpoints : after.projection_checkpoints ≡ before.projection_checkpoints

  assemble :
      (batch : JournalAppendBatch) (before : Tables) (version : ℕ) (journal : List EventRow)
      (outbox : List OutboxRow) (audit : List AuditFact) (receipts : List ReceiptRow)
      (receipt : PersistenceCommitReceipt) (after : Tables)
      → max_version batch.stream.aggregate_type batch.stream.aggregate_id before.event_journal
        ≡ version
      → version ≡ batch.stream.expected_version
      → (journal ≡ before.event_journal ++ map (event_row runtime) batch.events)
        × CarriesOn runtime batch version batch.events
      → receipts
        ≡ before.command_receipts
          ++ receipt_row runtime batch (receipt_of runtime batch (version + length batch.events))
            ∷ []
      → ◌≡◌ {A = Result Failure (PersistenceCommitReceipt × Tables)}
          (ok (
            receipt_of runtime batch (version + length batch.events),
            record before {
              event_journal = journal;
              command_receipts = receipts;
              outbox = outbox;
              audit_facts = audit;
            },
          ))
          (ok (receipt, after))
      → Appended batch receipt before after
  assemble batch before version journal outbox audit receipts receipt after stood at events new h =
      let e = ok-injective h in
      let same : receipt_of runtime batch (version + length batch.events) ≡ receipt =
        ap (λ p. p.0) e in
      let tables = ap (λ p. p.1) (sym e) in
      record {
        stood = stood ∙ at;
        events = ap (λ (t : Tables). t.event_journal) tables ∙ events.0;
        carries = subst (λ v. CarriesOn runtime batch v batch.events) at events.1;
        receipts =
            ap (λ (t : Tables). t.command_receipts) tables
            ∙ new
            ∙ ap (λ r. before.command_receipts ++ receipt_row runtime batch r ∷ []) same;
        receipted = sym same ∙ ap (λ v. receipt_of runtime batch (v + length batch.events)) at;
        inbox = ap (λ (t : Tables). t.inbox) tables;
        checkpoints = ap (λ (t : Tables). t.projection_checkpoints) tables;
      }

  pub append_batch_sound :
      (batch : JournalAppendBatch) (before : Tables) (receipt : PersistenceCommitReceipt)
      (after : Tables)
      → append_batch runtime batch before ≡ ok (receipt, after)
      → Appended batch receipt before after
  unfolding append_batch
  append_batch_sound batch before receipt after h =
      let (_, _, h₁) =
        >>=-eq-ok (verify_outbox_identities runtime [] [] before.outbox batch.outbox) _ h in
      let (version, found, h₂) = >>=-eq-ok (current_aggregate_version batch before) _ h₁ in
      let (_, expected, h₃) =
        >>=-eq-ok
          (throw_if (not (nat_eq version batch.stream.expected_version))
            (persistence optimistic_concurrency))
          _ h₂ in
      let (journal, appended, h₄) =
        >>=-eq-ok (append_events runtime batch version batch.events before.event_journal) _ h₃ in
      let (outbox, _, h₅) =
        >>=-eq-ok (append_tasks runtime batch.captured_at batch.outbox before.outbox) _ h₄ in
      let (audit, _, h₆) = >>=-eq-ok (append_audit runtime batch.audit before.audit_facts) _ h₅ in
      let (receipts, inserted, h₇) =
        >>=-eq-ok
          (insert_receipt
            (receipt_row runtime batch (receipt_of runtime batch (version + length batch.events)))
            before.command_receipts)
          _ h₆ in
      let at : version ≡ batch.stream.expected_version =
        expected_version version batch.stream.expected_version expected in
      assemble batch before version journal outbox audit receipts receipt after
        (sym (version_found batch before found)) at
        (append_events_sound batch version batch.events before.event_journal journal appended)
        (insert_receipt_last _ before.command_receipts inserted) h₇
