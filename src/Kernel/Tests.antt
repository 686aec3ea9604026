-- ===== src/Kernel/Tests.antt =====
-- A command of a workflow run, prepared and replayed.
use ai_software_engineering.Prelude.{◌+◌, ◌≡◌, refl, none, some, [], ◌∷◌, ◌++◌, length, ok}
use ai_software_engineering.Contracts.Json.{
  items, elements, texts, fields, object, get_field, member, number_lt,
}
use ai_software_engineering.Contracts.Canonical.{
  concat, join, quote, insert_member, sort_members, show_member, canonicalize, canonicalize_items,
  canonicalize_fields, canonical_json, canonical_json_sha256,
}
use ai_software_engineering.Contracts.Envelopes.{
  DomainEventEnvelope, schema_ref_json, command_json, event_json, batch_json, receipt_base_json,
  receipt_json,
}
use ai_software_engineering.Contracts.Registry.{
  by_id, after_digits, after_unit, schema_family, same_family, resolve, validate,
}
use ai_software_engineering.Kernel.{
  ReplayResult, own, command_identity, check, schema_ref, validate_payload, admit_command,
  breaks_stream, replay_event, replay_from, replay, prepared_event, prepared_batch, propose, expose,
  prepare,
}
use ai_software_engineering.Kernel.Replay.{IsStream, fold_events, replay_sound}
use ai_software_engineering.Kernel.Complete.{replay_complete}
use ai_software_engineering.Kernel.Prepare.{prepare_recovers}
use ai_software_engineering.Samples.{
  sample_runtime, sample_registry, sample_command, sample_context, sample_batch, sample_state,
  sample_prepared,
}
use ai_software_engineering.Workflow.{WorkflowRunState, decide, apply, workflow_run_definition}

-- A new run's command is prepared as the creation event at version 1.
prepare_new :
    prepare sample_runtime sample_registry workflow_run_definition sample_command [] sample_context
    ≡ ok sample_prepared
unfolding items elements texts fields object get_field member number_lt concat join quote
    insert_member sort_members show_member canonical_json canonical_json_sha256 schema_ref_json
    command_json event_json batch_json receipt_base_json receipt_json by_id after_digits after_unit
    schema_family same_family resolve validate own command_identity check schema_ref
    validate_payload admit_command breaks_stream replay_event replay_from replay prepared_event
    prepared_batch propose expose prepare canonicalize canonicalize_items canonicalize_fields decide
    apply
prepare_new = refl

replay_one :
    replay sample_runtime sample_registry workflow_run_definition "run-1" sample_batch.events
    ≡ ok (record { state = some sample_state; version = 1 })
unfolding items elements texts fields object get_field member number_lt concat join quote
    insert_member sort_members show_member canonical_json canonical_json_sha256 schema_ref_json
    command_json event_json batch_json receipt_base_json receipt_json by_id after_digits after_unit
    schema_family same_family resolve validate own command_identity check schema_ref
    validate_payload admit_command breaks_stream replay_event replay_from replay prepared_event
    prepared_batch propose expose prepare canonicalize canonicalize_items canonicalize_fields decide
    apply
replay_one = refl

prepare_recovers_example :
    (sample_command.expected_version ≡ length {A = DomainEventEnvelope} [])
    × (event : DomainEventEnvelope) × (sample_prepared.batch.events ≡ event ∷ [])
    × (event.aggregate_version ≡ length {A = DomainEventEnvelope} [] + 1)
    × (event.causation_id ≡ sample_command.command_id)
    × (replay sample_runtime sample_registry workflow_run_definition sample_command.aggregate_id
          ([] ++ sample_prepared.batch.events)
        ≡ ok (record {
          state = some sample_prepared.state;
          version = length {A = DomainEventEnvelope} [] + 1;
        }))
prepare_recovers_example =
    prepare_recovers sample_runtime sample_registry workflow_run_definition sample_command []
      sample_context sample_prepared prepare_new

abbrev one_event : ReplayResult WorkflowRunState
one_event = record { state = some sample_state; version = 1 }

replay_sound_example :
    IsStream sample_runtime "WorkflowRun" "run-1" 0 [] sample_batch.events
    × (fold_events workflow_run_definition none sample_batch.events ≡ ok (some sample_state))
    × (1 ≡ length sample_batch.events)
replay_sound_example =
    replay_sound sample_runtime sample_registry workflow_run_definition "run-1" sample_batch.events
      one_event replay_one

replay_complete_example :
    replay sample_runtime sample_registry workflow_run_definition "run-1" sample_batch.events
    ≡ ok (record { state = some sample_state; version = length sample_batch.events })
unfolding items elements texts fields object get_field member number_lt concat join quote
    insert_member sort_members show_member canonical_json canonical_json_sha256 schema_ref_json
    command_json event_json batch_json receipt_base_json receipt_json by_id after_digits after_unit
    schema_family same_family resolve validate own command_identity check schema_ref
    validate_payload admit_command breaks_stream replay_event prepared_event prepared_batch propose
    expose prepare canonicalize canonicalize_items canonicalize_fields decide apply fold_events
replay_complete_example =
    replay_complete sample_runtime sample_registry workflow_run_definition "run-1"
      sample_batch.events (some sample_state) refl ((refl, refl, refl, refl, refl), tt)
      ((refl, refl, "urn:aseos:schema:workflow-run-created-payload:1.0.0", refl, refl), tt) refl
