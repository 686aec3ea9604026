-- ===== src/Samples.antt =====
-- A concrete runtime, registry, command and worker, for the tests. The stand-in for SHA-256 gives
-- every text one digest, so that the tests can evaluate the code on values.
use ai_software_engineering.Prelude.{String, true, false, none, some, [], ◌∷◌, map}
use ai_software_engineering.Contracts.Json.{Json, str, object}
use ai_software_engineering.Contracts.Canonical.{Runtime}
use ai_software_engineering.Contracts.Envelopes.{
  human, ActorRef, CommandEnvelope, JournalAppendBatch,
}
use ai_software_engineering.Contracts.Registry.{SchemaRegistryEntry, ContractRegistry}
use ai_software_engineering.Kernel.{TransitionContext, PreparedTransition}
use ai_software_engineering.Workflow.{WorkflowRunState}
use ai_software_engineering.Persistence.Tables.{Tables}
use ai_software_engineering.Persistence.Worker.{Turn, Worker}
use ai_software_engineering.Persistence.Client.{Client, Moment, answered}

abbrev pub digest : String
digest = "aaaaaaaaaaaaaaaaaaaaaaaaaaaaaaaaaaaaaaaaaaaaaaaaaaaaaaaaaaaaaaaa"

abbrev pub sample_runtime : Runtime
sample_runtime = record { show_number = λ n. "0"; sha256 = λ s. digest }

abbrev entry : String → SchemaRegistryEntry
entry id = record {
  schema_id = id;
  schema_version = "1.0.0";
  sha256 = digest;
  examples_required = false;
}

abbrev pub sample_registry : ContractRegistry
sample_registry = record {
  entries = map entry (
      "urn:aseos:schema:command-envelope:1.0.0" ∷ "urn:aseos:schema:domain-event-envelope:1.0.0"
      ∷ "urn:aseos:schema:journal-append-batch:1.0.0"
      ∷ "urn:aseos:schema:persistence-commit-receipt:1.0.0"
      ∷ "urn:aseos:schema:create-workflow-run-payload:1.0.0"
      ∷ "urn:aseos:schema:workflow-run-created-payload:1.0.0" ∷ []);
  validator = λ id. some (λ v. true);
}

abbrev pub sample_actor : ActorRef
sample_actor = record {
  actor_id = "actor-1";
  actor_type = human;
  actor_version = none;
  display_name = none;
}

abbrev pub sample_payload : Json
sample_payload = object (
    ("workflowDefinitionId", some (str "definition-1"))
    ∷ ("workflowDefinitionVersion", some (str "1.0.0"))
    ∷ [])

abbrev pub sample_command : CommandEnvelope
sample_command = record {
  actor = sample_actor;
  aggregate_id = "run-1";
  aggregate_type = "WorkflowRun";
  causation_id = none;
  command_id = "command-1";
  command_type = "CreateWorkflowRun";
  correlation_id = "correlation-1";
  expected_version = 0;
  idempotency_key = "key-1";
  issued_at = "2026-01-01T00:00:00.000Z";
  payload = sample_payload;
  payload_hash = digest;
  payload_schema = record {
    schema_id = "urn:aseos:schema:create-workflow-run-payload:1.0.0";
    schema_version = "1.0.0";
    schema_hash = digest;
  };
  request_id = none;
}

abbrev pub sample_context : TransitionContext
sample_context = record {
  event_id = "event-1";
  audit_id = "audit-1";
  transaction_id = "transaction-1";
  occurred_at = "2026-01-01T00:00:01.000Z";
}

abbrev pub later_context : TransitionContext
later_context = record {
  event_id = "event-2";
  audit_id = "audit-2";
  transaction_id = "transaction-2";
  occurred_at = "2026-01-01T00:00:02.000Z";
}

abbrev pub sample_batch : JournalAppendBatch
sample_batch = record {
  command_id = "command-1";
  idempotency_key = "key-1";
  effect_scope = "WorkflowRun:run-1";
  payload_hash = digest;
  transaction_id = "transaction-1";
  captured_at = "2026-01-01T00:00:01.000Z";
  stream = record { aggregate_type = "WorkflowRun"; aggregate_id = "run-1"; expected_version = 0 };
  events =
      record {
        actor = sample_actor;
        aggregate_id = "run-1";
        aggregate_type = "WorkflowRun";
        aggregate_version = 1;
        causation_id = "command-1";
        correlation_id = "correlation-1";
        event_id = "event-1";
        event_type = "WorkflowRunCreated";
        occurred_at = "2026-01-01T00:00:01.000Z";
        payload = object (
            ("workflowDefinitionId", some (str "definition-1"))
            ∷ ("workflowDefinitionVersion", some (str "1.0.0"))
            ∷ ("createdByCommandId", some (str "command-1"))
            ∷ []);
        payload_hash = digest;
        payload_schema = record {
          schema_id = "urn:aseos:schema:workflow-run-created-payload:1.0.0";
          schema_version = "1.0.0";
          schema_hash = digest;
        };
      }
      ∷ [];
  outbox = [];
  audit = [];
}

abbrev pub sample_state : WorkflowRunState
sample_state = record {
  run_id = "run-1";
  version = 1;
  workflow_definition_id = some (str "definition-1");
  workflow_definition_version = some (str "1.0.0");
  created_by_command_id = some (str "command-1");
  created_at = "2026-01-01T00:00:01.000Z";
}

abbrev pub sample_prepared : PreparedTransition WorkflowRunState
sample_prepared = record {
  batch = record sample_batch {
    audit =
        record {
          audit_id = "audit-1";
          action = "KERNEL_COMMAND_COMMITTED";
          occurred_at = "2026-01-01T00:00:01.000Z";
          payload_hash = digest;
        }
        ∷ [];
  };
  state = sample_state;
  events = sample_batch.events;
}

-- Another command that takes the idempotency key.
abbrev pub other_batch : JournalAppendBatch
other_batch = record sample_batch { command_id = "command-2" }

abbrev pub no_tables : Tables
no_tables = record {
  event_journal = [];
  command_receipts = [];
  outbox = [];
  inbox = [];
  audit_facts = [];
  projection_checkpoints = [];
}

abbrev pub good_turn : Turn
good_turn = record { locks = true; commits = true; intact = true }

abbrev pub new_worker : Worker
new_worker = record {
  durable = no_tables;
  transaction = none;
  write_lock_held = false;
  crash_transaction_armed = false;
  is_open = true;
}

abbrev good_moment : Moment
good_moment = record { others = []; fate = answered good_turn }

abbrev pub new_client : Client
new_client = record {
  worker = new_worker;
  moments =
      good_moment ∷ good_moment ∷ good_moment ∷ good_moment ∷ good_moment ∷ good_moment
      ∷ good_moment ∷ good_moment ∷ [];
}
