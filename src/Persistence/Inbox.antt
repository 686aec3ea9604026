-- ===== src/Persistence/Inbox.antt =====
-- `recordInbox` and `saveCheckpoint` of packages/persistence/src/persistence-worker.ts: the
-- transactions of the inbox and of the projection checkpoints.
pub mod Laws
mod Tests
use ai_software_engineering.Prelude.{
  ℕ, zero, suc, ◌+◌, ◌-◌, ◌*◌, ◌/◌, ◌%◌, ◌^◌, ◌≤◌, ◌<◌, min, String, ◌≡◌, refl, sym, ap, subst, ◌∙◌,
  ◌≢◌, ◌↔◌, ◌⊎◌, inl, inr, Bool, true, false, not, ◌&&◌, ◌||◌, Option, none, some, List, [], ◌∷◌,
  ◌++◌, map, arith, ltb, leb, nat_eq, ◌==◌, eq_iff, eq_refl, if◌then◌else◌, some-injective,
  Bool-cases, Option-cases, &&-left, &&-right, max_safe_integer, is_safe_integer, length, take,
  take_all, any, all, keep_if, length-append, length-map, length-keep_if, any-append,
  keep_if-append, includes, code_units, All, All-append, All-keep_if, Result, ok, err, ◌>>=◌, ◌>>◌,
  throw_if, >>=-eq-ok, throw_if-eq-ok, require, require-eq-ok, ok-injective, Result-cases,
  text_length, text_lt, insert_text, sort_texts, point_lt,
}
use ai_software_engineering.Contracts.Errors.{
  FoundationCode, schema_compile_failed, schema_metadata_mismatch, KernelCode, contract_invalid,
  unsupported_command, version_conflict, replay_invalid, domain_rejected, PersistenceCode, busy,
  closed, contract_violation, corruption, idempotency_conflict, migration_mismatch,
  optimistic_concurrency, queue_full, security_control_failed, storage_failure, worker_exited,
  Failure, foundation, kernel, persistence,
}
use ai_software_engineering.Persistence.Tables.{
  EventRow, ReceiptRow, OutboxRow, InboxStatus, accepted, duplicate, rejected, InboxRow,
  CheckpointRow, Tables, is_hash, same_event, same_identity, same_task, insert_event,
  insert_receipt, insert_task, insert_audit,
}

-- The rows that the SELECT of `recordInbox` reads, and the UNIQUE columns of the table.
abbrev pub same_result : InboxRow → InboxRow → Bool
same_result row r = r.result_id == row.result_id || r.task_id == row.task_id

unfoldable pub insert_inbox : InboxRow → List InboxRow → Result Failure (List InboxRow)
insert_inbox row rows = do
  throw_if (not (is_hash row.payload_hash)) (persistence storage_failure)
  throw_if (any (same_result row) rows) (persistence storage_failure)
  ok (rows ++ row ∷ [])

-- What the rows that `recordInbox` reads say of a record: it is new, known, or in conflict.
unfoldable pub known_result : InboxRow → List InboxRow → Result Failure (Option InboxRow)
known_result new [] = ok none
known_result new (row ∷ []) =
    if not (row.result_id == new.result_id)
      || not (row.task_id == new.task_id)
      || not (row.payload_hash == new.payload_hash)
    then err (persistence idempotency_conflict)
    else ok (some row)
known_result new (row ∷ row' ∷ rows) = err (persistence idempotency_conflict)

-- The answer to a record that is known, or its insertion.
unfoldable pub answer_inbox :
    InboxRow → Tables → Option InboxRow → Result Failure (InboxRow × Tables)
unfolding insert_inbox
answer_inbox new tables (some row) = ok (record row { status = duplicate }, tables)
answer_inbox new tables none = do
  rows ← insert_inbox new tables.inbox
  ok (new, record tables { inbox = rows })

-- The transaction of `recordInbox`.
unfoldable pub record_inbox : InboxRow → Tables → Result Failure (InboxRow × Tables)
unfolding known_result answer_inbox
record_inbox new tables = do
  existing ← known_result new (keep_if (same_result new) tables.inbox)
  answer_inbox new tables existing

-- The row of a projection, by the table's PRIMARY KEY.
unfoldable pub find_checkpoint : String → List CheckpointRow → Option CheckpointRow
find_checkpoint name [] = none
find_checkpoint name (row ∷ rows) =
    if row.projection_name == name then some row else find_checkpoint name rows

-- INSERT ... ON CONFLICT(projection_name) DO UPDATE
unfoldable pub upsert_checkpoint : CheckpointRow → List CheckpointRow → List CheckpointRow
upsert_checkpoint new [] = new ∷ []
upsert_checkpoint new (row ∷ rows) =
    let rest = upsert_checkpoint new rows in
    if row.projection_name == new.projection_name then new ∷ rows else row ∷ rest

unfoldable pub moves_backwards : CheckpointRow → Option CheckpointRow → Result Failure Bool
moves_backwards new none = ok false
moves_backwards new (some row) =
    if is_safe_integer row.source_sequence
    then ok (ltb new.source_sequence row.source_sequence)
    else err (persistence storage_failure)

-- The transaction of `saveCheckpoint`.
unfoldable pub save_checkpoint : CheckpointRow → Tables → Result Failure (CheckpointRow × Tables)
unfolding moves_backwards find_checkpoint
save_checkpoint new tables = do
  backwards ←
      moves_backwards new (find_checkpoint new.projection_name tables.projection_checkpoints)
  throw_if backwards (persistence optimistic_concurrency)
  ok (
    new,
    record tables { projection_checkpoints = upsert_checkpoint new tables.projection_checkpoints },
  )
