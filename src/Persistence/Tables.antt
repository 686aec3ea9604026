-- ===== src/Persistence/Tables.antt =====
-- The tables of packages/persistence/migrations/001-initial.sql that the worker writes, and the
-- insertions of packages/persistence/src/persistence-worker.ts with the constraints they meet.
-- A column of canonical JSON text is kept as the value that the text parses to.
use Prim.Native.String.{count}
use ai_software_engineering.Prelude.{
  ℕ, String, Bool, not, ◌&&◌, ◌||◌, Option, List, [], ◌∷◌, ◌++◌, leb, nat_eq, ◌==◌, any, Result, ok,
  ◌>>◌, throw_if,
}
use ai_software_engineering.Contracts.Json.{Json}
use ai_software_engineering.Contracts.Errors.{storage_failure, Failure, persistence}
use ai_software_engineering.Contracts.Envelopes.{
  DomainEventEnvelope, SideEffectTaskEnvelope, AuditFact, PersistenceCommitReceipt,
}

pub record EventRow : Type 0 where
  pub event_id : String
  pub aggregate_type : String
  pub aggregate_id : String
  pub aggregate_version : ℕ
  pub occurred_at : String
  pub payload_schema_id : String
  pub payload_schema_version : String
  pub payload_schema_hash : String
  pub payload_hash : String
  pub payload_json : Json
  pub event_json : DomainEventEnvelope

-- `status` is always 'COMMITTED'.
pub record ReceiptRow : Type 0 where
  pub command_id : String
  pub idempotency_key : String
  pub effect_scope : String
  pub payload_hash : String
  pub outcome_hash : String
  pub receipt_json : PersistenceCommitReceipt
  pub completed_at : String

-- `status` is always 'PENDING', and `leased_until` is NULL.
pub record OutboxRow : Type 0 where
  pub task_id : String
  pub idempotency_key : String
  pub effect_scope : String
  pub payload_hash : String
  pub envelope_json : SideEffectTaskEnvelope
  pub attempt : ℕ
  pub created_at : String

pub data InboxStatus : Type 0 where
  accepted duplicate rejected : InboxStatus

pub record InboxRow : Type 0 where
  pub result_id : String
  pub task_id : String
  pub payload_hash : String
  pub status : InboxStatus
  pub received_at : String

pub record CheckpointRow : Type 0 where
  pub projection_name : String
  pub projection_version : String
  pub source_sequence : ℕ
  pub rebuilt_from_sequence : Option ℕ
  pub updated_at : String

pub record Tables : Type 0 where
  pub event_journal : List EventRow
  pub command_receipts : List ReceiptRow
  pub outbox : List OutboxRow
  pub inbox : List InboxRow
  pub audit_facts : List AuditFact
  pub projection_checkpoints : List CheckpointRow

-- CHECK (length(...) = 64)
abbrev pub is_hash : String → Bool
is_hash s = nat_eq (count s) 64

abbrev constraint : Bool → Result Failure (Unit {0})
constraint holds = throw_if (not holds) (persistence storage_failure)

-- The rows that share a UNIQUE or PRIMARY KEY column with a new row.
abbrev pub same_event : EventRow → EventRow → Bool
same_event row r =
    r.event_id == row.event_id
    || r.aggregate_type == row.aggregate_type
      && r.aggregate_id == row.aggregate_id
      && nat_eq r.aggregate_version row.aggregate_version

abbrev pub same_identity : String → String → String → ReceiptRow → Bool
same_identity command_id idempotency_key effect_scope r =
    r.command_id == command_id
    || r.idempotency_key == idempotency_key && r.effect_scope == effect_scope

abbrev pub same_task : String → String → String → OutboxRow → Bool
same_task task_id idempotency_key effect_scope r =
    r.task_id == task_id || r.idempotency_key == idempotency_key && r.effect_scope == effect_scope

unfoldable pub insert_event : EventRow → List EventRow → Result Failure (List EventRow)
insert_event row rows = do
  constraint
      (leb 1 row.aggregate_version && is_hash row.payload_schema_hash && is_hash row.payload_hash)
  constraint (not (any (same_event row) rows))
  ok (rows ++ row ∷ [])

unfoldable pub insert_receipt : ReceiptRow → List ReceiptRow → Result Failure (List ReceiptRow)
insert_receipt row rows = do
  constraint (is_hash row.payload_hash && is_hash row.outcome_hash)
  constraint (not (any (same_identity row.command_id row.idempotency_key row.effect_scope) rows))
  ok (rows ++ row ∷ [])

unfoldable pub insert_task : OutboxRow → List OutboxRow → Result Failure (List OutboxRow)
insert_task row rows = do
  constraint (is_hash row.payload_hash)
  constraint (not (any (same_task row.task_id row.idempotency_key row.effect_scope) rows))
  ok (rows ++ row ∷ [])

unfoldable pub insert_audit : AuditFact → List AuditFact → Result Failure (List AuditFact)
insert_audit row rows = do
  constraint (is_hash row.payload_hash)
  constraint (not (any (λ r. r.audit_id == row.audit_id) rows))
  ok (rows ++ row ∷ [])
