-- ===== src/Persistence/Commit.antt =====
-- `commitBatch` of packages/persistence/src/persistence-worker.ts and what it calls, on the tables.
-- What runs inside a transaction takes the tables and returns the new ones: an error drops them.
pub mod Append
pub mod Claims
pub mod Idempotent
pub mod Counts
pub mod Streams
mod Tests
use Prim.Native.Nat.{max}
use ai_software_engineering.Prelude.{
  ℕ, zero, suc, ◌+◌, ◌-◌, ◌*◌, ◌/◌, ◌%◌, ◌^◌, ◌≤◌, ◌<◌, min, String, ◌≡◌, refl, sym, ap, subst, ◌∙◌,
  ◌≢◌, ◌↔◌, ◌⊎◌, inl, inr, Bool, true, false, not, ◌&&◌, ◌||◌, Option, none, some, List, [], ◌∷◌,
  ◌++◌, map, arith, ltb, leb, nat_eq, ◌==◌, eq_iff, eq_refl, if◌then◌else◌, some-injective,
  Bool-cases, Option-cases, &&-left, &&-right, max_safe_integer, is_safe_integer, length, take,
  take_all, any, all, keep_if, length-append, length-map, length-keep_if, any-append,
  keep_if-append, includes, code_units, All, All-append, All-keep_if, Result, ok, err, ◌>>=◌, ◌>>◌,
  throw_if, >>=-eq-ok, throw_if-eq-ok, require, require-eq-ok, ok-injective, Result-cases,
  text_length, text_lt, insert_text, sort_texts, point_lt,
}
use ai_software_engineering.Contracts.Json.{
  Number, Json, null, bool, num, str, arr, obj, Items, nil, cons, Fields, end, field, natural,
  items, elements, texts, fields, object, get_field, member, number_lt,
}
use ai_software_engineering.Contracts.Canonical.{
  Runtime, concat, join, quote, insert_member, sort_members, show_member, canonicalize,
  canonicalize_items, canonicalize_fields, canonical_json, canonical_json_sha256,
}
use ai_software_engineering.Contracts.Errors.{
  FoundationCode, schema_compile_failed, schema_metadata_mismatch, KernelCode, contract_invalid,
  unsupported_command, version_conflict, replay_invalid, domain_rejected, PersistenceCode, busy,
  closed, contract_violation, corruption, idempotency_conflict, migration_mismatch,
  optimistic_concurrency, queue_full, security_control_failed, storage_failure, worker_exited,
  Failure, foundation, kernel, persistence,
}
use ai_software_engineering.Contracts.Envelopes.{
  ActorType, human, agent, system, worker, ActorRef, SchemaRef, CommandEnvelope,
  DomainEventEnvelope, SideEffectTaskEnvelope, AuditFact, Stream, JournalAppendBatch, ReceiptBase,
  PersistenceCommitReceipt, schema_ref_json, command_json, event_json, batch_json,
  receipt_base_json, receipt_json,
}
use ai_software_engineering.Kernel.{
  EventDecision, AggregateDefinition, ReplayResult, TransitionContext, CommandIdentity,
  PreparedTransition, own, command_schema, event_schema, batch_schema, bad_aggregate_id,
  command_identity, check, schema_ref, validate_payload, admit_command, breaks_stream, replay_event,
  replay_from, replay, prepared_event, prepared_batch, propose, expose, prepare,
}
use ai_software_engineering.Persistence.Tables.{
  EventRow, ReceiptRow, OutboxRow, Tables, same_identity, same_task, insert_event, insert_receipt,
  insert_task, insert_audit,
}

abbrev pub identity_of : JournalAppendBatch → CommandIdentity
identity_of batch = record {
  command_id = batch.command_id;
  idempotency_key = batch.idempotency_key;
  effect_scope = batch.effect_scope;
  payload_hash = batch.payload_hash;
}

-- The test on the rows that the SELECT of `findCommandDuplicate` gives.
unfoldable pub sole_duplicate :
    CommandIdentity → List ReceiptRow → Result Failure (Option ReceiptRow)
sole_duplicate identity [] = ok none
sole_duplicate identity (row ∷ []) =
    if not (row.command_id == identity.command_id)
      || not (row.idempotency_key == identity.idempotency_key)
      || not (row.effect_scope == identity.effect_scope)
      || not (row.payload_hash == identity.payload_hash)
    then err (persistence idempotency_conflict)
    else ok (some row)
sole_duplicate identity (row ∷ row' ∷ rows) = err (persistence idempotency_conflict)

-- `findCommandDuplicate`
unfoldable pub find_command_duplicate :
    CommandIdentity → Tables → Result Failure (Option ReceiptRow)
unfolding sole_duplicate
find_command_duplicate identity tables = sole_duplicate identity (
    keep_if (same_identity identity.command_id identity.idempotency_key identity.effect_scope)
      tables.command_receipts)

-- The request "lookup-command-receipt" of `handle`.
unfoldable pub lookup_command_receipt :
    CommandIdentity → Tables → Result Failure (Option PersistenceCommitReceipt)
unfolding find_command_duplicate
lookup_command_receipt identity tables = do
  duplicate ← find_command_duplicate identity tables
  elim duplicate [ none ↦ ok none | some row ↦ ok (some row.receipt_json) ]

-- `currentAggregateVersion`: COALESCE(MAX(aggregate_version), 0) over the rows of the stream.
unfoldable pub max_version : String → String → List EventRow → ℕ
max_version type id [] = 0
max_version type id (r ∷ rs) =
    let rest = max_version type id rs in
    if r.aggregate_type == type && r.aggregate_id == id then max r.aggregate_version rest else rest

-- The rows of one stream, and `readEvents` on them: ORDER BY aggregate_version LIMIT `limit`.
abbrev pub stream_of : String → String → List EventRow → List EventRow
stream_of type id = keep_if (λ r. r.aggregate_type == type && r.aggregate_id == id)

unfoldable pub insert_version : EventRow → List EventRow → List EventRow
insert_version row [] = row ∷ []
insert_version row (r ∷ rs) =
    if ltb r.aggregate_version row.aggregate_version
    then r ∷ insert_version row rs
    else row ∷ r ∷ rs

unfoldable pub order_by_version : List EventRow → List EventRow
unfolding insert_version
order_by_version [] = []
order_by_version (r ∷ rs) = insert_version r (order_by_version rs)

unfoldable pub read_events : String → String → ℕ → Tables → List DomainEventEnvelope
unfolding order_by_version
read_events type id limit tables = take limit (
    map (λ (r : EventRow). r.event_json)
      (order_by_version (stream_of type id tables.event_journal)))

unfoldable pub current_aggregate_version : JournalAppendBatch → Tables → Result Failure ℕ
unfolding max_version
current_aggregate_version batch tables =
    let version =
      max_version batch.stream.aggregate_type batch.stream.aggregate_id tables.event_journal in
    if is_safe_integer version then ok version else err (persistence storage_failure)

module _ (runtime : Runtime) where
  -- `verifyEvent`
  unfoldable pub verify_event :
      DomainEventEnvelope → JournalAppendBatch → ℕ → Result Failure (Unit {0})
  verify_event event batch expected_version = do
    throw_if
        (not (event.aggregate_type == batch.stream.aggregate_type)
          || not (event.aggregate_id == batch.stream.aggregate_id)
          || not (nat_eq event.aggregate_version expected_version))
        (persistence optimistic_concurrency)
    throw_if (not (canonical_json_sha256 runtime event.payload == event.payload_hash))
        (persistence contract_violation)

  -- `verifyOutbox`
  unfoldable pub verify_outbox : List SideEffectTaskEnvelope → Result Failure (Unit {0})
  verify_outbox [] = ok tt
  verify_outbox (task ∷ tasks) = do
    throw_if (not (canonical_json_sha256 runtime task.payload == task.payload_hash))
        (persistence contract_violation)
    verify_outbox tasks

  abbrev pub idempotency_pair : SideEffectTaskEnvelope → String
  idempotency_pair task =
      canonical_json runtime (texts (task.idempotency_key ∷ task.effect_scope ∷ []))

  -- `verifyOutboxIdentities`, over the two sets of the loop.
  unfoldable pub verify_outbox_identities :
      List String
      → List String
      → List OutboxRow
      → List SideEffectTaskEnvelope
      → Result Failure (Unit {0})
  verify_outbox_identities task_ids pairs rows [] = ok tt
  verify_outbox_identities task_ids pairs rows (task ∷ tasks) = do
    throw_if (includes task.task_id task_ids || includes (idempotency_pair task) pairs)
        (persistence idempotency_conflict)
    throw_if (any (same_task task.task_id task.idempotency_key task.effect_scope) rows)
        (persistence idempotency_conflict)
    verify_outbox_identities (task.task_id ∷ task_ids) (idempotency_pair task ∷ pairs) rows tasks

  abbrev pub event_row : DomainEventEnvelope → EventRow
  event_row event = record {
    event_id = event.event_id;
    aggregate_type = event.aggregate_type;
    aggregate_id = event.aggregate_id;
    aggregate_version = event.aggregate_version;
    occurred_at = event.occurred_at;
    payload_schema_id = event.payload_schema.schema_id;
    payload_schema_version = event.payload_schema.schema_version;
    payload_schema_hash = event.payload_schema.schema_hash;
    payload_hash = event.payload_hash;
    payload_json = event.payload;
    event_json = event;
  }

  -- `batch.events.forEach(...)`: `version` is the version before the event.
  unfoldable pub append_events :
      JournalAppendBatch
      → ℕ
      → List DomainEventEnvelope
      → List EventRow
      → Result Failure (List EventRow)
  append_events batch version [] rows = ok rows
  append_events batch version (event ∷ events) rows = do
    verify_event event batch (version + 1)
    rows' ← insert_event (event_row event) rows
    append_events batch (version + 1) events rows'

  unfoldable pub append_tasks :
      String → List SideEffectTaskEnvelope → List OutboxRow → Result Failure (List OutboxRow)
  append_tasks captured_at [] rows = ok rows
  append_tasks captured_at (task ∷ tasks) rows = do
    rows' ←
        insert_task
          (record {
            task_id = task.task_id;
            idempotency_key = task.idempotency_key;
            effect_scope = task.effect_scope;
            payload_hash = task.payload_hash;
            envelope_json = task;
            attempt = task.attempt;
            created_at = captured_at;
          })
          rows
    append_tasks captured_at tasks rows'

  unfoldable pub append_audit : List AuditFact → List AuditFact → Result Failure (List AuditFact)
  append_audit [] rows = ok rows
  append_audit (fact ∷ facts) rows = do rows' ← insert_audit fact rows; append_audit facts rows'

  -- The receipt of a batch that brings its stream to a version.
  unfoldable pub receipt_of : JournalAppendBatch → ℕ → PersistenceCommitReceipt
  receipt_of batch committed_version =
      let base : ReceiptBase = record {
        transaction_id = batch.transaction_id;
        command_id = batch.command_id;
        aggregate_type = batch.stream.aggregate_type;
        aggregate_id = batch.stream.aggregate_id;
        committed_version = committed_version;
        event_ids = map (λ (e : DomainEventEnvelope). e.event_id) batch.events;
        outbox_task_ids = map (λ (t : SideEffectTaskEnvelope). t.task_id) batch.outbox;
        audit_ids = map (λ (a : AuditFact). a.audit_id) batch.audit;
        committed_at = batch.captured_at;
      } in
      record { base = base; receipt_hash = canonical_json_sha256 runtime (receipt_base_json base) }

  abbrev pub receipt_row : JournalAppendBatch → PersistenceCommitReceipt → ReceiptRow
  receipt_row batch receipt = record {
    command_id = batch.command_id;
    idempotency_key = batch.idempotency_key;
    effect_scope = batch.effect_scope;
    payload_hash = batch.payload_hash;
    outcome_hash = receipt.receipt_hash;
    receipt_json = receipt;
    completed_at = batch.captured_at;
  }

  -- The transaction of `commitBatch` for a command that is new in it.
  unfoldable pub append_batch :
      JournalAppendBatch → Tables → Result Failure (PersistenceCommitReceipt × Tables)
  append_batch batch tables = do
    verify_outbox_identities [] [] tables.outbox batch.outbox
    version ← current_aggregate_version batch tables
    throw_if (not (nat_eq version batch.stream.expected_version))
        (persistence optimistic_concurrency)
    journal ← append_events batch version batch.events tables.event_journal
    outbox ← append_tasks batch.captured_at batch.outbox tables.outbox
    audit ← append_audit batch.audit tables.audit_facts
    let receipt = receipt_of batch (version + length batch.events)
    receipts ← insert_receipt (receipt_row batch receipt) tables.command_receipts
    ok (
      receipt,
      record tables {
        event_journal = journal;
        command_receipts = receipts;
        outbox = outbox;
        audit_facts = audit;
      },
    )

  -- The whole transaction of `commitBatch`.
  unfoldable pub commit_transaction :
      JournalAppendBatch → Tables → Result Failure (PersistenceCommitReceipt × Tables)
  commit_transaction batch tables = do
    duplicate ← find_command_duplicate (identity_of batch) tables
    elim duplicate [ some row ↦ ok (row.receipt_json, tables) | none ↦ append_batch batch tables ]

  -- `commitBatch`, with the way that it runs its transaction: the lookup before it may answer.
  unfoldable pub commit_batch :
      JournalAppendBatch → Tables → Result Failure (PersistenceCommitReceipt × Tables)
  unfolding commit_transaction
  commit_batch batch tables = do
    duplicate ← find_command_duplicate (identity_of batch) tables
    elim duplicate [
      | some row ↦ ok (row.receipt_json, tables)
      | none ↦ verify_outbox batch.outbox >> commit_transaction batch tables
    ]
