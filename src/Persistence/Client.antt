-- ===== src/Persistence/Client.antt =====
-- packages/persistence/src/index.ts: `PersistenceWorker`, the client of the worker. Its requests wait
-- in a queue among those of others, and the worker may end before it replies: a `Moment` says what
-- happened to one request. A `Client` is the worker and the moments to come.
pub mod Receipts
use Prim.Native.Char.{code}
use Prim.Native.String.{count, ◌∷◌ as char}
use ai_software_engineering.Prelude.{
  ℕ, zero, suc, ◌+◌, ◌-◌, ◌*◌, ◌/◌, ◌%◌, ◌^◌, ◌≤◌, ◌<◌, min, String, ◌≡◌, refl, sym, ap, subst, ◌∙◌,
  ◌≢◌, ◌↔◌, ◌⊎◌, inl, inr, Bool, true, false, not, ◌&&◌, ◌||◌, Option, none, some, List, [], ◌∷◌,
  ◌++◌, map, arith, ltb, leb, nat_eq, ◌==◌, eq_iff, eq_refl, if◌then◌else◌, some-injective,
  Bool-cases, Option-cases, &&-left, &&-right, max_safe_integer, is_safe_integer, length, take,
  take_all, any, all, keep_if, length-append, length-map, length-keep_if, any-append,
  keep_if-append, includes, code_units, All, All-append, All-keep_if, Result, ok, err, ◌>>=◌, ◌>>◌,
  throw_if, >>=-eq-ok, throw_if-eq-ok, require, require-eq-ok, ok-injective, Result-cases,
  text_length, text_lt, insert_text, sort_texts, point_lt,
}
use ai_software_engineering.Contracts.Json.{
  Number, Json, null, bool, num, str, arr, obj, Items, nil, cons, Fields, end, field, natural,
  items, elements, texts, fields, object, get_field, member, number_lt,
}
use ai_software_engineering.Contracts.Canonical.{
  Runtime, concat, join, quote, insert_member, sort_members, show_member, canonicalize,
  canonicalize_items, canonicalize_fields, canonical_json, canonical_json_sha256,
}
use ai_software_engineering.Contracts.Errors.{
  FoundationCode, schema_compile_failed, schema_metadata_mismatch, KernelCode, contract_invalid,
  unsupported_command, version_conflict, replay_invalid, domain_rejected, PersistenceCode, busy,
  closed, contract_violation, corruption, idempotency_conflict, migration_mismatch,
  optimistic_concurrency, queue_full, security_control_failed, storage_failure, worker_exited,
  Failure, foundation, kernel, persistence,
}
use ai_software_engineering.Contracts.Envelopes.{
  ActorType, human, agent, system, worker, ActorRef, SchemaRef, CommandEnvelope,
  DomainEventEnvelope, SideEffectTaskEnvelope, AuditFact, Stream, JournalAppendBatch, ReceiptBase,
  PersistenceCommitReceipt, schema_ref_json, command_json, event_json, batch_json,
  receipt_base_json, receipt_json,
}
use ai_software_engineering.Contracts.Registry.{
  ContractIdentity, SchemaRegistryEntry, FailureCode, invalid_contract_identity,
  schema_validation_failed, unknown_schema, unsupported_schema_version, ContractRegistry, by_id,
  after_digits, after_unit, schema_family, same_family, resolve, validate,
}
use ai_software_engineering.Kernel.{
  EventDecision, AggregateDefinition, ReplayResult, TransitionContext, CommandIdentity,
  PreparedTransition, own, command_schema, event_schema, batch_schema, bad_aggregate_id,
  command_identity, check, schema_ref, validate_payload, admit_command, breaks_stream, replay_event,
  replay_from, replay, prepared_event, prepared_batch, propose, expose, prepare,
}
use ai_software_engineering.Persistence.Commit.{
  identity_of, sole_duplicate, find_command_duplicate, lookup_command_receipt, max_version,
  stream_of, insert_version, order_by_version, read_events, current_aggregate_version, verify_event,
  verify_outbox, idempotency_pair, verify_outbox_identities, event_row, append_events, append_tasks,
  append_audit, receipt_of, receipt_row, append_batch, commit_transaction, commit_batch,
}
use ai_software_engineering.Persistence.Worker.{Turn, Worker, Request, db, commit_request, serve}

-- A request is refused before it is posted; it is answered; or it is run and the reply is lost.
pub data Fate : Type 0 where
  refused : PersistenceCode → Fate
  answered lost : Turn → Fate

pub record Moment : Type 0 where
  pub others : List (Turn × Request)
  pub fate : Fate

pub record Client : Type 0 where
  pub worker : Worker
  pub moments : List Moment

abbrev pub receipt_schema : String
receipt_schema = "urn:aseos:schema:persistence-commit-receipt:1.0.0"

-- /^[a-f0-9]{64}$/
unfoldable pub all_hex : String → Bool
all_hex String.[] = true
all_hex (String.◌∷◌ c s) =
    let n = code c in
    let rest = all_hex s in (leb 97 n && leb n 102 || leb 48 n && leb n 57) && rest

abbrev pub is_hash_text : String → Bool
is_hash_text s = all_hex s && nat_eq (count s) 64

-- The test of `lookupCommandReceipt` on the identity.
abbrev pub is_lookup_identity : CommandIdentity → Bool
is_lookup_identity i =
    not
      (any (λ s. s == "") (i.command_id ∷ i.idempotency_key ∷ i.effect_scope ∷ i.payload_hash ∷ []))
    && is_hash_text i.payload_hash

module _ (registry : ContractRegistry) where
  -- `#validate`
  unfoldable pub validated : String → Json → Result Failure (Unit {0})
  validated schema_id value = do
    result ← validate registry (record { schema_id = schema_id; schema_version = "1.0.0" }) value
    elim result [ err _ ↦ err (persistence contract_violation) | ok _ ↦ ok tt ]

  -- One round of the loop of `#validateBatch`.
  unfoldable pub validated_payload : SchemaRef → Json → Result Failure (Unit {0})
  validated_payload reference payload = do
    let identity : ContractIdentity = record {
      schema_id = reference.schema_id;
      schema_version = reference.schema_version;
    }
    elim (resolve registry identity) [
      | err _ ↦ err (persistence contract_violation)
      | ok entry ↦
          throw_if (not (entry.sha256 == reference.schema_hash)) (persistence contract_violation)
    ]
    result ← validate registry identity payload
    elim result [ err _ ↦ err (persistence contract_violation) | ok _ ↦ ok tt ]

  unfoldable pub validated_payloads : List (SchemaRef × Json) → Result Failure (Unit {0})
  unfolding validated_payload
  validated_payloads [] = ok tt
  validated_payloads ((reference, payload) ∷ rest) =
      validated_payload reference payload >> validated_payloads rest

  -- `#validateBatch`
  unfoldable pub validate_batch : JournalAppendBatch → Result Failure (Unit {0})
  unfolding validated validated_payloads
  validate_batch batch = do
    validated "urn:aseos:schema:journal-append-batch:1.0.0" (batch_json batch)
    validated_payloads (
        map (λ (e : DomainEventEnvelope). (e.payload_schema, e.payload)) batch.events
        ++ map (λ (t : SideEffectTaskEnvelope). (t.payload_schema, t.payload)) batch.outbox)

module _ (runtime : Runtime) (registry : ContractRegistry) where
  -- What becomes of one request, on the worker that is to run it.
  unfoldable pub deliver {ℓ} :
      {A : Type ℓ}
      → (Turn → Worker → Result Failure A × Worker)
      → Fate
      → Worker
      → Result Failure A × Worker
  deliver run (refused code) w = (err (persistence code), w)
  deliver run (answered turn) w = run turn w
  deliver run (lost turn) w = (err (persistence worker_exited), (run turn w).1)

  unfoldable pub request_at {ℓ} :
      {A : Type ℓ}
      → (Turn → Worker → Result Failure A × Worker)
      → Worker
      → List Moment
      → Result Failure A × Client
  unfolding deliver
  request_at run w [] = (err (persistence worker_exited), record { worker = w; moments = [] })
  request_at run w (m ∷ ms) =
      let (reply, w') = deliver run m.fate (serve runtime m.others w) in
      (reply, record { worker = w'; moments = ms })

  -- `#request`: the worker runs the requests of others that came first, and then this one.
  abbrev pub request {ℓ} :
      {A : Type ℓ}
      → (Turn → Worker → Result Failure A × Worker)
      → Client
      → Result Failure A × Client
  request run client = request_at run client.worker client.moments

  unfoldable pub commit :
      JournalAppendBatch → Client → Result Failure PersistenceCommitReceipt × Client
  unfolding validate_batch request_at
  commit batch client = elim (validate_batch registry batch) [
    | err e ↦ (err e, client)
    | ok _ ↦
        let (reply, client') = request (λ turn. commit_request runtime turn batch) client in
        (do r ← reply; validated registry receipt_schema (receipt_json r); ok r, client')
  ]

  unfoldable pub lookup_receipt :
      CommandIdentity → Client → Result Failure (Option PersistenceCommitReceipt) × Client
  unfolding validated request_at
  lookup_receipt identity client =
      if not (is_lookup_identity identity)
      then (err (persistence contract_violation), client)
      else let (reply, client') =
          request (λ turn w. (db w >>= lookup_command_receipt identity, w)) client in
        (
          do
            found ← reply
            elim found [
              | none ↦ ok none
              | some r ↦ validated registry receipt_schema (receipt_json r) >> ok (some r)
            ],
          client',
        )

  -- `readEvents`, with its default limit.
  unfoldable pub read_stream :
      String → String → Client → Result Failure (List DomainEventEnvelope) × Client
  unfolding request_at
  read_stream type id client =
      request (λ turn w. (db w >>= λ t. ok (read_events type id 10000 t), w)) client
