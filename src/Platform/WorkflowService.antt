-- ===== src/Platform/WorkflowService.antt =====
-- packages/platform/src/workflow-service.ts: `WorkflowService`. Its persistence is the interface
-- `WorkflowPersistence`, on a world `W` that each call takes to the next: what others do in between,
-- while the service awaits a reply, is part of the call.
pub mod Interface
pub mod ExactlyOnce
pub mod Journal
mod Tests
use ai_software_engineering.Prelude.{
  ℕ, zero, suc, ◌+◌, ◌-◌, ◌*◌, ◌/◌, ◌%◌, ◌^◌, ◌≤◌, ◌<◌, min, String, ◌≡◌, refl, sym, ap, subst, ◌∙◌,
  ◌≢◌, ◌↔◌, ◌⊎◌, inl, inr, Bool, true, false, not, ◌&&◌, ◌||◌, Option, none, some, List, [], ◌∷◌,
  ◌++◌, map, arith, ltb, leb, nat_eq, ◌==◌, eq_iff, eq_refl, if◌then◌else◌, some-injective,
  Bool-cases, Option-cases, &&-left, &&-right, max_safe_integer, is_safe_integer, length, take,
  take_all, any, all, keep_if, length-append, length-map, length-keep_if, any-append,
  keep_if-append, includes, code_units, All, All-append, All-keep_if, Result, ok, err, ◌>>=◌, ◌>>◌,
  throw_if, >>=-eq-ok, throw_if-eq-ok, require, require-eq-ok, ok-injective, Result-cases,
  text_length, text_lt, insert_text, sort_texts, point_lt,
}
use ai_software_engineering.Contracts.Json.{
  Number, Json, null, bool, num, str, arr, obj, Items, nil, cons, Fields, end, field, natural,
  items, elements, texts, fields, object, get_field, member, number_lt,
}
use ai_software_engineering.Contracts.Canonical.{
  Runtime, concat, join, quote, insert_member, sort_members, show_member, canonicalize,
  canonicalize_items, canonicalize_fields, canonical_json, canonical_json_sha256,
}
use ai_software_engineering.Contracts.Errors.{
  FoundationCode, schema_compile_failed, schema_metadata_mismatch, KernelCode, contract_invalid,
  unsupported_command, version_conflict, replay_invalid, domain_rejected, PersistenceCode, busy,
  closed, contract_violation, corruption, idempotency_conflict, migration_mismatch,
  optimistic_concurrency, queue_full, security_control_failed, storage_failure, worker_exited,
  Failure, foundation, kernel, persistence,
}
use ai_software_engineering.Contracts.Envelopes.{
  ActorType, human, agent, system, worker, ActorRef, SchemaRef, CommandEnvelope,
  DomainEventEnvelope, SideEffectTaskEnvelope, AuditFact, Stream, JournalAppendBatch, ReceiptBase,
  PersistenceCommitReceipt, schema_ref_json, command_json, event_json, batch_json,
  receipt_base_json, receipt_json,
}
use ai_software_engineering.Contracts.Registry.{
  ContractIdentity, SchemaRegistryEntry, FailureCode, invalid_contract_identity,
  schema_validation_failed, unknown_schema, unsupported_schema_version, ContractRegistry, by_id,
  after_digits, after_unit, schema_family, same_family, resolve, validate,
}
use ai_software_engineering.Kernel.{
  EventDecision, AggregateDefinition, ReplayResult, TransitionContext, CommandIdentity,
  PreparedTransition, own, command_schema, event_schema, batch_schema, bad_aggregate_id,
  command_identity, check, schema_ref, validate_payload, admit_command, breaks_stream, replay_event,
  replay_from, replay, prepared_event, prepared_batch, propose, expose, prepare,
}
use ai_software_engineering.Workflow.{
  WorkflowRunState, is_text, decide, apply, workflow_run_definition,
}

pub record WorkflowPersistence (W : Type 0) : Type 0 where
  pub lookup_command_receipt :
      CommandIdentity → W → Result Failure (Option PersistenceCommitReceipt) × W
  pub read_events : String → String → W → Result Failure (List DomainEventEnvelope) × W
  pub commit : JournalAppendBatch → W → Result Failure PersistenceCommitReceipt × W

pub record WorkflowCommandResult : Type 0 where
  pub state : WorkflowRunState
  pub receipt : PersistenceCommitReceipt

-- `await`: what follows runs on the value, in the world that the call left.
infixl 5 ◌then◌
abbrev pub ◌then◌ {ℓ κ} :
    {A : Type ℓ} {B : Type κ} {W : Type 0}
    → Result Failure A × W
    → (A → W → Result Failure B × W)
    → Result Failure B × W
(ok a, w) then f = f a w
(err e, w) then f = (err e, w)

-- The errors that a race with another committer can cause.
unfoldable pub is_race : Failure → Bool
is_race (kernel version_conflict) = true
is_race (persistence optimistic_concurrency) = true
is_race _ = false

module _ (runtime : Runtime) (registry : ContractRegistry) where
  -- The last step of `#result`: the replay that the receipt must match.
  unfoldable pub replayed_result :
      CommandEnvelope
      → PersistenceCommitReceipt
      → List DomainEventEnvelope
      → Result Failure WorkflowCommandResult
  replayed_result command receipt events = do
    replayed ← replay runtime registry workflow_run_definition command.aggregate_id (
        keep_if (λ (e : DomainEventEnvelope). leb e.aggregate_version receipt.committed_version)
          events)
    state ← require replayed.state (kernel replay_invalid)
    throw_if (not (nat_eq replayed.version receipt.committed_version)) (kernel replay_invalid)
    ok (record { state = state; receipt = receipt })

  -- The events that a receipt answers for.
  abbrev pub committed_events :
      CommandEnvelope
      → PersistenceCommitReceipt
      → List DomainEventEnvelope
      → List DomainEventEnvelope
  committed_events command receipt = keep_if (λ (e : DomainEventEnvelope).
      ltb command.expected_version e.aggregate_version
      && leb e.aggregate_version receipt.committed_version)

  -- `#result` after it has read the events.
  unfoldable pub bound_result :
      CommandEnvelope
      → PersistenceCommitReceipt
      → List DomainEventEnvelope
      → Result Failure WorkflowCommandResult
  unfolding replayed_result
  bound_result command receipt events = do
    let committed = committed_events command receipt events
    throw_if
        (not (
            canonical_json_sha256 runtime
              (texts (map (λ (e : DomainEventEnvelope). e.event_id) committed))
            == canonical_json_sha256 runtime (texts receipt.event_ids))
          || any (λ (e : DomainEventEnvelope). not (e.causation_id == command.command_id))
              committed)
        (kernel replay_invalid)
    replayed_result command receipt events

  -- The tests of `#result` on the receipt alone.
  abbrev pub foreign_receipt : CommandEnvelope → PersistenceCommitReceipt → Bool
  foreign_receipt command receipt =
      not (receipt.command_id == command.command_id)
      || not (receipt.aggregate_type == command.aggregate_type)
      || not (receipt.aggregate_id == command.aggregate_id)
      || not
          (receipt.receipt_hash == canonical_json_sha256 runtime (receipt_base_json receipt.base))

  module _ {W : Type 0} (persistence_of : WorkflowPersistence W) where
    -- `replay`
    unfoldable pub replay_run : String → W → Result Failure (ReplayResult WorkflowRunState) × W
    replay_run aggregate_id w =
        persistence_of.read_events "WorkflowRun" aggregate_id w then λ events w₁.
        (replay runtime registry workflow_run_definition aggregate_id events, w₁)

    -- `#result`
    unfoldable pub result_of :
        CommandEnvelope → PersistenceCommitReceipt → W → Result Failure WorkflowCommandResult × W
    unfolding bound_result
    result_of command receipt w =
        if foreign_receipt command receipt
        then (err (kernel replay_invalid), w)
        else (persistence_of.read_events command.aggregate_type command.aggregate_id w
            then λ events w₁. (bound_result command receipt events, w₁))

    -- `if (receipt !== null) return this.#result(command, receipt);`, and what is done otherwise.
    unfoldable pub answered :
        CommandEnvelope
        → (W → Result Failure WorkflowCommandResult × W)
        → Option PersistenceCommitReceipt
        → W
        → Result Failure WorkflowCommandResult × W
    unfolding result_of
    answered command otherwise none w = otherwise w
    answered command otherwise (some receipt) w = result_of command receipt w

    -- The body of the `try` of `execute`.
    unfoldable pub try_commit :
        CommandEnvelope → TransitionContext → W → Result Failure PersistenceCommitReceipt × W
    try_commit command context w =
        persistence_of.read_events command.aggregate_type command.aggregate_id w then λ history w₁.
        elim (prepare runtime registry workflow_run_definition command history context) [
          | err e ↦ (err e, w₁)
          | ok transition ↦ persistence_of.commit transition.batch w₁
        ]

    -- The `catch` of `execute`: only the durable receipt turns a race into success.
    unfoldable pub recover_race :
        CommandEnvelope → Failure → W → Result Failure WorkflowCommandResult × W
    unfolding answered is_race
    recover_race command e w =
        if is_race e
        then (persistence_of.lookup_command_receipt (command_identity runtime command) w
            then answered command (λ w₁. (err e, w₁)))
        else (err e, w)

    -- `execute` for a command that has no receipt yet.
    unfoldable pub execute_new :
        CommandEnvelope → TransitionContext → W → Result Failure WorkflowCommandResult × W
    unfolding try_commit recover_race
    execute_new command context w =
        let (outcome, w₁) = try_commit command context w in
        elim outcome [
          | ok receipt ↦ result_of command receipt w₁
          | err e ↦ recover_race command e w₁
        ]

    -- `execute`
    unfoldable pub execute :
        CommandEnvelope → TransitionContext → W → Result Failure WorkflowCommandResult × W
    unfolding answered execute_new
    execute input context w = elim (admit_command runtime registry workflow_run_definition input) [
      | err e ↦ (err e, w)
      | ok command ↦
          (persistence_of.lookup_command_receipt (command_identity runtime command) w
            then answered command (execute_new command context))
    ]
