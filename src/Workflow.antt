-- ===== src/Workflow.antt =====
-- packages/workflow/src/index.ts: the aggregate `WorkflowRun`, the kernel's first domain.
pub mod Creation
mod Tests
use ai_software_engineering.Prelude.{
  ℕ, zero, suc, ◌+◌, ◌-◌, ◌*◌, ◌/◌, ◌%◌, ◌^◌, ◌≤◌, ◌<◌, min, String, ◌≡◌, refl, sym, ap, subst, ◌∙◌,
  ◌≢◌, ◌↔◌, ◌⊎◌, inl, inr, Bool, true, false, not, ◌&&◌, ◌||◌, Option, none, some, List, [], ◌∷◌,
  ◌++◌, map, arith, ltb, leb, nat_eq, ◌==◌, eq_iff, eq_refl, if◌then◌else◌, some-injective,
  Bool-cases, Option-cases, &&-left, &&-right, max_safe_integer, is_safe_integer, length, take,
  take_all, any, all, keep_if, length-append, length-map, length-keep_if, any-append,
  keep_if-append, includes, code_units, All, All-append, All-keep_if, Result, ok, err, ◌>>=◌, ◌>>◌,
  throw_if, >>=-eq-ok, throw_if-eq-ok, require, require-eq-ok, ok-injective, Result-cases,
  text_length, text_lt, insert_text, sort_texts, point_lt,
}
use ai_software_engineering.Contracts.Json.{
  Number, Json, null, bool, num, str, arr, obj, Items, nil, cons, Fields, end, field, natural,
  items, elements, texts, fields, object, get_field, member, number_lt,
}
use ai_software_engineering.Contracts.Errors.{
  FoundationCode, schema_compile_failed, schema_metadata_mismatch, KernelCode, contract_invalid,
  unsupported_command, version_conflict, replay_invalid, domain_rejected, PersistenceCode, busy,
  closed, contract_violation, corruption, idempotency_conflict, migration_mismatch,
  optimistic_concurrency, queue_full, security_control_failed, storage_failure, worker_exited,
  Failure, foundation, kernel, persistence,
}
use ai_software_engineering.Contracts.Envelopes.{
  ActorType, human, agent, system, worker, ActorRef, SchemaRef, CommandEnvelope,
  DomainEventEnvelope, SideEffectTaskEnvelope, AuditFact, Stream, JournalAppendBatch, ReceiptBase,
  PersistenceCommitReceipt, schema_ref_json, command_json, event_json, batch_json,
  receipt_base_json, receipt_json,
}
use ai_software_engineering.Kernel.{
  EventDecision, AggregateDefinition, ReplayResult, TransitionContext, CommandIdentity,
  PreparedTransition, own, command_schema, event_schema, batch_schema, bad_aggregate_id,
  command_identity, check, schema_ref, validate_payload, admit_command, breaks_stream, replay_event,
  replay_from, replay, prepared_event, prepared_batch, propose, expose, prepare,
}

-- The `status` is always "CREATED". The members that are read from a payload are kept as they are
-- found: the payload's schema makes them texts.
pub record WorkflowRunState : Type 0 where
  pub run_id : String
  pub version : ℕ
  pub workflow_definition_id : Option Json
  pub workflow_definition_version : Option Json
  pub created_by_command_id : Option Json
  pub created_at : String

abbrev is_null {ℓ} : {A : Type ℓ} → Option A → Bool
is_null none = true
is_null (some a) = false

-- A member of a payload is strictly equal to a text.
abbrev pub is_text : Option Json → String → Bool
is_text (some (str s)) t = s == t
is_text _ t = false

-- An object whose members must all be there; otherwise it holds `undefined`.
abbrev defined : List (String × Option Json) → Option Json
defined ms = if any (λ m. is_null m.1) ms then none else some (object ms)

unfoldable pub decide : Option WorkflowRunState → CommandEnvelope → Result Failure EventDecision
unfolding member object
decide state command =
    if not (is_null state)
      || not (command.command_type == "CreateWorkflowRun")
      || not (nat_eq command.expected_version 0)
    then err (kernel domain_rejected)
    else ok (record {
      event_type = "WorkflowRunCreated";
      payload = defined (
          ("workflowDefinitionId", member "workflowDefinitionId" command.payload)
          ∷ ("workflowDefinitionVersion", member "workflowDefinitionVersion" command.payload)
          ∷ ("createdByCommandId", some (str command.command_id))
          ∷ []);
    })

unfoldable pub apply :
    Option WorkflowRunState → DomainEventEnvelope → Result Failure WorkflowRunState
unfolding member
apply state event =
    if not (is_null state)
      || not (event.event_type == "WorkflowRunCreated")
      || not (nat_eq event.aggregate_version 1)
      || not (is_text (member "createdByCommandId" event.payload) event.causation_id)
    then err (kernel replay_invalid)
    else ok (record {
      run_id = event.aggregate_id;
      version = event.aggregate_version;
      workflow_definition_id = member "workflowDefinitionId" event.payload;
      workflow_definition_version = member "workflowDefinitionVersion" event.payload;
      created_by_command_id = member "createdByCommandId" event.payload;
      created_at = event.occurred_at;
    })

abbrev pub workflow_run_definition : AggregateDefinition WorkflowRunState
workflow_run_definition = record {
  aggregate_type = "WorkflowRun";
  command_schemas =
      ("CreateWorkflowRun", "urn:aseos:schema:create-workflow-run-payload:1.0.0") ∷ [];
  event_schemas =
      ("WorkflowRunCreated", "urn:aseos:schema:workflow-run-created-payload:1.0.0") ∷ [];
  decide = decide;
  apply = apply;
}
