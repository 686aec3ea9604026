-- ===== src/Kernel.antt =====
-- packages/kernel/src/index.ts: `DeterministicKernel`. An input is a value of the envelope's shape;
-- `snapshot` and `freezeJson` give such a value back, since it is an immutable tree here.
pub mod Replay
pub mod Complete
pub mod Prepare
mod Tests
use Prim.Native.String.{◌++◌ as append}
use ai_software_engineering.Prelude.{
  ℕ, zero, suc, ◌+◌, ◌-◌, ◌*◌, ◌/◌, ◌%◌, ◌^◌, ◌≤◌, ◌<◌, min, String, ◌≡◌, refl, sym, ap, subst, ◌∙◌,
  ◌≢◌, ◌↔◌, ◌⊎◌, inl, inr, Bool, true, false, not, ◌&&◌, ◌||◌, Option, none, some, List, [], ◌∷◌,
  ◌++◌, map, arith, ltb, leb, nat_eq, ◌==◌, eq_iff, eq_refl, if◌then◌else◌, some-injective,
  Bool-cases, Option-cases, &&-left, &&-right, max_safe_integer, is_safe_integer, length, take,
  take_all, any, all, keep_if, length-append, length-map, length-keep_if, any-append,
  keep_if-append, includes, code_units, All, All-append, All-keep_if, Result, ok, err, ◌>>=◌, ◌>>◌,
  throw_if, >>=-eq-ok, throw_if-eq-ok, require, require-eq-ok, ok-injective, Result-cases,
  text_length, text_lt, insert_text, sort_texts, point_lt,
}
use ai_software_engineering.Contracts.Json.{
  Number, Json, null, bool, num, str, arr, obj, Items, nil, cons, Fields, end, field, natural,
  items, elements, texts, fields, object, get_field, member, number_lt,
}
use ai_software_engineering.Contracts.Canonical.{
  Runtime, concat, join, quote, insert_member, sort_members, show_member, canonicalize,
  canonicalize_items, canonicalize_fields, canonical_json, canonical_json_sha256,
}
use ai_software_engineering.Contracts.Errors.{
  FoundationCode, schema_compile_failed, schema_metadata_mismatch, KernelCode, contract_invalid,
  unsupported_command, version_conflict, replay_invalid, domain_rejected, PersistenceCode, busy,
  closed, contract_violation, corruption, idempotency_conflict, migration_mismatch,
  optimistic_concurrency, queue_full, security_control_failed, storage_failure, worker_exited,
  Failure, foundation, kernel, persistence,
}
use ai_software_engineering.Contracts.Envelopes.{
  ActorType, human, agent, system, worker, ActorRef, SchemaRef, CommandEnvelope,
  DomainEventEnvelope, SideEffectTaskEnvelope, AuditFact, Stream, JournalAppendBatch, ReceiptBase,
  PersistenceCommitReceipt, schema_ref_json, command_json, event_json, batch_json,
  receipt_base_json, receipt_json,
}
use ai_software_engineering.Contracts.Registry.{
  ContractIdentity, SchemaRegistryEntry, FailureCode, invalid_contract_identity,
  schema_validation_failed, unknown_schema, unsupported_schema_version, ContractRegistry, by_id,
  after_digits, after_unit, schema_family, same_family, resolve, validate,
}

-- The payload is `none` when the object that the domain built holds `undefined`, which is no JSON.
pub record EventDecision : Type 0 where
  pub event_type : String
  pub payload : Option Json

pub record AggregateDefinition (S : Type 0) : Type 0 where
  pub aggregate_type : String
  pub command_schemas : List (String × String)
  pub event_schemas : List (String × String)
  pub decide : Option S → CommandEnvelope → Result Failure EventDecision
  pub apply : Option S → DomainEventEnvelope → Result Failure S

pub record ReplayResult (S : Type 0) : Type 0 where
  pub state : Option S
  pub version : ℕ

pub record TransitionContext : Type 0 where
  pub event_id : String
  pub audit_id : String
  pub transaction_id : String
  pub occurred_at : String

pub record CommandIdentity : Type 0 where
  pub command_id : String
  pub idempotency_key : String
  pub effect_scope : String
  pub payload_hash : String

pub record PreparedTransition (S : Type 0) : Type 0 where
  pub batch : JournalAppendBatch
  pub state : S
  pub events : List DomainEventEnvelope

-- `Object.hasOwn(table, key) ? table[key] : undefined`
unfoldable pub own : String → List (String × String) → Option String
own key [] = none
own key ((k, v) ∷ m) = if k == key then some v else own key m

abbrev pub command_schema : String
command_schema = "urn:aseos:schema:command-envelope:1.0.0"

abbrev pub event_schema : String
event_schema = "urn:aseos:schema:domain-event-envelope:1.0.0"

abbrev pub batch_schema : String
batch_schema = "urn:aseos:schema:journal-append-batch:1.0.0"

-- The bounds that `replay` sets to the identity of an aggregate.
abbrev pub bad_aggregate_id : String → Bool
bad_aggregate_id id = ltb (text_length id) 1 || ltb 256 (text_length id)

unfoldable pub command_identity : Runtime → CommandEnvelope → CommandIdentity
command_identity runtime command = record {
  command_id = command.command_id;
  idempotency_key = command.idempotency_key;
  effect_scope = append command.aggregate_type (append ":" command.aggregate_id);
  payload_hash = canonical_json_sha256 runtime (command_json command);
}

module _ (runtime : Runtime) (registry : ContractRegistry) where
  -- `#validate`
  unfoldable pub check : String → Json → Result Failure (Unit {0})
  check schema_id value = do
    result ← validate registry (record { schema_id = schema_id; schema_version = "1.0.0" }) value
    elim result [ err _ ↦ err (kernel contract_invalid) | ok _ ↦ ok tt ]

  -- `#schemaRef`
  unfoldable pub schema_ref : String → Result Failure SchemaRef
  schema_ref schema_id =
      elim (resolve registry (record { schema_id = schema_id; schema_version = "1.0.0" })) [
        | err _ ↦ err (kernel contract_invalid)
        | ok entry ↦ ok (record {
          schema_id = schema_id;
          schema_version = entry.schema_version;
          schema_hash = entry.sha256;
        })
      ]

  -- `#validatePayload`, on the three members of an envelope that it reads.
  unfoldable pub validate_payload : SchemaRef → Json → String → String → Result Failure (Unit {0})
  unfolding check schema_ref
  validate_payload payload_schema payload payload_hash required_schema = do
    reference ← schema_ref required_schema
    throw_if
        (not (
            canonical_json runtime (schema_ref_json reference)
            == canonical_json runtime (schema_ref_json payload_schema))
          || not (canonical_json_sha256 runtime payload == payload_hash))
        (kernel contract_invalid)
    check required_schema payload

module _ {S : Type 0} (runtime : Runtime) (registry : ContractRegistry)
    (domain : AggregateDefinition S) where
  -- `admitCommand`
  unfoldable pub admit_command : CommandEnvelope → Result Failure CommandEnvelope
  unfolding own
  admit_command command = do
    check runtime registry command_schema (command_json command)
    required_schema ← elim (own command.command_type domain.command_schemas) [
      | none ↦ err (kernel unsupported_command)
      | some schema ↦
          if not (command.aggregate_type == domain.aggregate_type)
          then err (kernel unsupported_command)
          else ok schema
    ]
    throw_if
        (not (is_safe_integer command.expected_version)
          || leb max_safe_integer command.expected_version)
        (kernel contract_invalid)
    validate_payload runtime registry command.payload_schema command.payload command.payload_hash
        required_schema
    ok command

  -- The stream, identity and version tests of the loop in `replay`.
  unfoldable pub breaks_stream : String → ℕ → List String → DomainEventEnvelope → Bool
  breaks_stream aggregate_id version event_ids event =
      not (event.aggregate_type == domain.aggregate_type)
      || not (event.aggregate_id == aggregate_id)
      || not (is_safe_integer event.aggregate_version)
      || not (nat_eq event.aggregate_version (version + 1))
      || includes event.event_id event_ids

  -- One round of the loop, up to the new state.
  unfoldable pub replay_event :
      String → Option S → ℕ → List String → DomainEventEnvelope → Result Failure S
  unfolding own breaks_stream
  replay_event aggregate_id state version event_ids event = do
    check runtime registry event_schema (event_json event)
    required_schema ← elim (own event.event_type domain.event_schemas) [
      | none ↦ err (kernel replay_invalid)
      | some schema ↦
          if breaks_stream aggregate_id version event_ids event
          then err (kernel replay_invalid)
          else ok schema
    ]
    validate_payload runtime registry event.payload_schema event.payload event.payload_hash
        required_schema
    domain.apply state event

  -- The `for` loop of `replay`, over its variables.
  unfoldable pub replay_from :
      String
      → Option S
      → ℕ
      → List String
      → List DomainEventEnvelope
      → Result Failure (ReplayResult S)
  replay_from aggregate_id state version event_ids [] =
      ok (record { state = state; version = version })
  replay_from aggregate_id state version event_ids (event ∷ history) = do
    next ← replay_event aggregate_id state version event_ids event
    replay_from aggregate_id (some next) event.aggregate_version (event.event_id ∷ event_ids)
        history

  unfoldable pub replay : String → List DomainEventEnvelope → Result Failure (ReplayResult S)
  replay aggregate_id history = do
    throw_if (bad_aggregate_id aggregate_id) (kernel replay_invalid)
    replay_from aggregate_id none 0 [] history

  -- The event that `prepare` builds.
  unfoldable pub prepared_event :
      CommandEnvelope → TransitionContext → ℕ → String → Json → SchemaRef → DomainEventEnvelope
  prepared_event command context version event_type payload reference = record {
    actor = command.actor;
    aggregate_id = command.aggregate_id;
    aggregate_type = command.aggregate_type;
    aggregate_version = version + 1;
    causation_id = command.command_id;
    correlation_id = command.correlation_id;
    event_id = context.event_id;
    event_type = event_type;
    occurred_at = context.occurred_at;
    payload = payload;
    payload_hash = canonical_json_sha256 runtime payload;
    payload_schema = reference;
  }

  -- The batch that `prepare` builds.
  unfoldable pub prepared_batch :
      CommandEnvelope → TransitionContext → DomainEventEnvelope → JournalAppendBatch
  unfolding command_identity
  prepared_batch command context event =
      let identity = command_identity runtime command in
      record {
        command_id = identity.command_id;
        idempotency_key = identity.idempotency_key;
        effect_scope = identity.effect_scope;
        payload_hash = identity.payload_hash;
        transaction_id = context.transaction_id;
        captured_at = context.occurred_at;
        stream = record {
          aggregate_type = command.aggregate_type;
          aggregate_id = command.aggregate_id;
          expected_version = command.expected_version;
        };
        events = event ∷ [];
        outbox = [];
        audit =
            record {
              audit_id = context.audit_id;
              action = "KERNEL_COMMAND_COMMITTED";
              occurred_at = context.occurred_at;
              payload_hash = identity.payload_hash;
            }
            ∷ [];
      }

  -- The middle of `prepare`: the domain's decision, made into the event at the next version.
  unfoldable pub propose :
      CommandEnvelope → TransitionContext → ReplayResult S → Result Failure DomainEventEnvelope
  unfolding own prepared_event
  propose command context replayed = do
    decision ← domain.decide replayed.state command
    payload ← require decision.payload (kernel contract_invalid)
    schema_id ← require (own decision.event_type domain.event_schemas) (kernel domain_rejected)
    reference ← schema_ref runtime registry schema_id
    ok (prepared_event command context replayed.version decision.event_type payload reference)

  -- The end of `prepare`: the event is replayed before the batch is exposed.
  unfoldable pub expose :
      CommandEnvelope
      → List DomainEventEnvelope
      → TransitionContext
      → DomainEventEnvelope
      → Result Failure (PreparedTransition S)
  unfolding prepared_batch
  expose command history context event = do
    next ← replay command.aggregate_id (history ++ event ∷ [])
    state ← require next.state (kernel domain_rejected)
    let batch = prepared_batch command context event
    check runtime registry batch_schema (batch_json batch)
    ok (record { batch = batch; state = state; events = batch.events })

  unfoldable pub prepare :
      CommandEnvelope
      → List DomainEventEnvelope
      → TransitionContext
      → Result Failure (PreparedTransition S)
  prepare input history context = do
    command ← admit_command input
    replayed ← replay command.aggregate_id history
    throw_if (not (nat_eq command.expected_version replayed.version)) (kernel version_conflict)
    event ← propose command context replayed
    expose command history context event
