-- ===== src/Contracts/Envelopes.antt =====
-- packages/contracts/src/types.generated.ts: the envelopes that the kernel and the journal exchange,
-- and the JSON values that they are. An optional member is an `Option`.
use ai_software_engineering.Prelude.{ℕ, String, Option, none, some, List, [], ◌∷◌, ◌++◌, map}
use ai_software_engineering.Contracts.Json.{Json, str, natural, arr, items, texts, object}

pub data ActorType : Type 0 where
  human agent system worker : ActorType

pub record ActorRef : Type 0 where
  pub actor_id : String
  pub actor_type : ActorType
  pub actor_version : Option String
  pub display_name : Option String

pub record SchemaRef : Type 0 where
  pub schema_id : String
  pub schema_version : String
  pub schema_hash : String

pub record CommandEnvelope : Type 0 where
  pub actor : ActorRef
  pub aggregate_id : String
  pub aggregate_type : String
  pub causation_id : Option String
  pub command_id : String
  pub command_type : String
  pub correlation_id : String
  pub expected_version : ℕ
  pub idempotency_key : String
  pub issued_at : String
  pub payload : Json
  pub payload_hash : String
  pub payload_schema : SchemaRef
  pub request_id : Option String

pub record DomainEventEnvelope : Type 0 where
  pub actor : ActorRef
  pub aggregate_id : String
  pub aggregate_type : String
  pub aggregate_version : ℕ
  pub causation_id : String
  pub correlation_id : String
  pub event_id : String
  pub event_type : String
  pub occurred_at : String
  pub payload : Json
  pub payload_hash : String
  pub payload_schema : SchemaRef

-- The members that no modelled code reads are kept in `others`.
pub record SideEffectTaskEnvelope : Type 0 where
  pub task_id : String
  pub idempotency_key : String
  pub effect_scope : String
  pub attempt : ℕ
  pub payload : Json
  pub payload_hash : String
  pub payload_schema : SchemaRef
  pub others : List (String × Option Json)

pub record AuditFact : Type 0 where
  pub audit_id : String
  pub action : String
  pub occurred_at : String
  pub payload_hash : String

pub record Stream : Type 0 where
  pub aggregate_type : String
  pub aggregate_id : String
  pub expected_version : ℕ

pub record JournalAppendBatch : Type 0 where
  pub command_id : String
  pub idempotency_key : String
  pub effect_scope : String
  pub payload_hash : String
  pub transaction_id : String
  pub captured_at : String
  pub stream : Stream
  pub events : List DomainEventEnvelope
  pub outbox : List SideEffectTaskEnvelope
  pub audit : List AuditFact

-- A receipt without its `receiptHash`, and with it.
pub record ReceiptBase : Type 0 where
  pub transaction_id : String
  pub command_id : String
  pub aggregate_type : String
  pub aggregate_id : String
  pub committed_version : ℕ
  pub event_ids : List String
  pub outbox_task_ids : List String
  pub audit_ids : List String
  pub committed_at : String

pub record PersistenceCommitReceipt : Type 0 where
  pub base : ReceiptBase
  pub open base use *
  pub receipt_hash : String

abbrev text : String → Option Json
text s = some (str s)

abbrev optional_text : Option String → Option Json
optional_text none = none
optional_text (some s) = some (str s)

abbrev actor_type_text : ActorType → String
actor_type_text human = "HUMAN"
actor_type_text agent = "AGENT"
actor_type_text system = "SYSTEM"
actor_type_text worker = "WORKER"

abbrev version : String × Option Json
version = ("schemaVersion", some (str "1.0.0"))

actor_json : ActorRef → Json
actor_json a = object (
    ("actorId", text a.actor_id)
    ∷ ("actorType", text (actor_type_text a.actor_type))
    ∷ ("actorVersion", optional_text a.actor_version)
    ∷ ("displayName", optional_text a.display_name)
    ∷ [])

unfoldable pub schema_ref_json : SchemaRef → Json
unfolding object
schema_ref_json s = object (
    ("schemaId", text s.schema_id)
    ∷ ("schemaVersion", text s.schema_version)
    ∷ ("schemaHash", text s.schema_hash)
    ∷ [])

unfoldable pub command_json : CommandEnvelope → Json
unfolding object actor_json schema_ref_json
command_json c = object (
    version
    ∷ ("actor", some (actor_json c.actor))
    ∷ ("aggregateId", text c.aggregate_id)
    ∷ ("aggregateType", text c.aggregate_type)
    ∷ ("causationId", optional_text c.causation_id)
    ∷ ("commandId", text c.command_id)
    ∷ ("commandType", text c.command_type)
    ∷ ("correlationId", text c.correlation_id)
    ∷ ("expectedVersion", some (natural c.expected_version))
    ∷ ("idempotencyKey", text c.idempotency_key)
    ∷ ("issuedAt", text c.issued_at)
    ∷ ("payload", some c.payload)
    ∷ ("payloadHash", text c.payload_hash)
    ∷ ("payloadSchema", some (schema_ref_json c.payload_schema))
    ∷ ("requestId", optional_text c.request_id)
    ∷ [])

unfoldable pub event_json : DomainEventEnvelope → Json
unfolding object actor_json schema_ref_json
event_json e = object (
    version
    ∷ ("eventId", text e.event_id)
    ∷ ("eventType", text e.event_type)
    ∷ ("aggregateType", text e.aggregate_type)
    ∷ ("aggregateId", text e.aggregate_id)
    ∷ ("aggregateVersion", some (natural e.aggregate_version))
    ∷ ("occurredAt", text e.occurred_at)
    ∷ ("actor", some (actor_json e.actor))
    ∷ ("causationId", text e.causation_id)
    ∷ ("correlationId", text e.correlation_id)
    ∷ ("payloadSchema", some (schema_ref_json e.payload_schema))
    ∷ ("payloadHash", text e.payload_hash)
    ∷ ("payload", some e.payload)
    ∷ [])

task_json : SideEffectTaskEnvelope → Json
task_json t = object (
    ("taskId", text t.task_id)
    ∷ ("idempotencyKey", text t.idempotency_key)
    ∷ ("effectScope", text t.effect_scope)
    ∷ ("attempt", some (natural t.attempt))
    ∷ ("payload", some t.payload)
    ∷ ("payloadHash", text t.payload_hash)
    ∷ ("payloadSchema", some (schema_ref_json t.payload_schema))
    ∷ t.others)

audit_json : AuditFact → Json
audit_json a = object (
    ("auditId", text a.audit_id)
    ∷ ("action", text a.action)
    ∷ ("occurredAt", text a.occurred_at)
    ∷ ("payloadHash", text a.payload_hash)
    ∷ [])

unfoldable pub batch_json : JournalAppendBatch → Json
unfolding object items event_json task_json audit_json
batch_json b = object (
    version
    ∷ ("commandId", text b.command_id)
    ∷ ("idempotencyKey", text b.idempotency_key)
    ∷ ("effectScope", text b.effect_scope)
    ∷ ("payloadHash", text b.payload_hash)
    ∷ ("transactionId", text b.transaction_id)
    ∷ ("capturedAt", text b.captured_at)
    ∷ (
      "stream",
      some (
          object (
            ("aggregateType", text b.stream.aggregate_type)
            ∷ ("aggregateId", text b.stream.aggregate_id)
            ∷ ("expectedVersion", some (natural b.stream.expected_version))
            ∷ [])),
    )
    ∷ ("events", some (arr (items (map event_json b.events))))
    ∷ ("outbox", some (arr (items (map task_json b.outbox))))
    ∷ ("audit", some (arr (items (map audit_json b.audit))))
    ∷ [])

receipt_members : ReceiptBase → List (String × Option Json)
receipt_members r =
    version
    ∷ ("transactionId", text r.transaction_id)
    ∷ ("commandId", text r.command_id)
    ∷ ("aggregateType", text r.aggregate_type)
    ∷ ("aggregateId", text r.aggregate_id)
    ∷ ("committedVersion", some (natural r.committed_version))
    ∷ ("eventIds", some (texts r.event_ids))
    ∷ ("outboxTaskIds", some (texts r.outbox_task_ids))
    ∷ ("auditIds", some (texts r.audit_ids))
    ∷ ("committedAt", text r.committed_at)
    ∷ []

unfoldable pub receipt_base_json : ReceiptBase → Json
unfolding object texts receipt_members
receipt_base_json r = object (receipt_members r)

unfoldable pub receipt_json : PersistenceCommitReceipt → Json
unfolding object texts receipt_members
receipt_json r = object (receipt_members r.base ++ ("receiptHash", text r.receipt_hash) ∷ [])
