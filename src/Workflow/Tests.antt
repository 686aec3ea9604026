-- ===== src/Workflow/Tests.antt =====
-- A concrete workflow run, created and replayed.
use ai_software_engineering.Prelude.{◌≡◌, refl, ◌⊎◌, none, some, List, [], ◌∷◌}
use ai_software_engineering.Contracts.Json.{
  str, items, elements, texts, fields, object, get_field, member, number_lt,
}
use ai_software_engineering.Contracts.Canonical.{
  concat, join, quote, insert_member, sort_members, show_member, canonicalize, canonicalize_items,
  canonicalize_fields, canonical_json, canonical_json_sha256,
}
use ai_software_engineering.Contracts.Envelopes.{
  DomainEventEnvelope, schema_ref_json, command_json, event_json, batch_json, receipt_base_json,
  receipt_json,
}
use ai_software_engineering.Contracts.Registry.{
  by_id, after_digits, after_unit, schema_family, same_family, resolve, validate,
}
use ai_software_engineering.Kernel.{
  ReplayResult, own, command_identity, check, schema_ref, validate_payload, admit_command,
  breaks_stream, replay_event, replay_from, replay, prepared_event, prepared_batch, propose, expose,
  prepare,
}
use ai_software_engineering.Workflow.{WorkflowRunState, decide, apply}
use ai_software_engineering.Workflow.Creation.{Creates, replay_creation, prepare_creates}
use ai_software_engineering.Samples.{
  sample_runtime, sample_registry, sample_command, sample_context, sample_batch, sample_state,
  sample_prepared,
}

abbrev one_event : ReplayResult WorkflowRunState
one_event = record { state = some sample_state; version = 1 }

replay_creation_example :
    ((sample_batch.events ≡ []) × (one_event.state ≡ none) × (one_event.version ≡ 0))
    ⊎ ((event : DomainEventEnvelope) × (s : WorkflowRunState) × (sample_batch.events ≡ event ∷ [])
        × (one_event.state ≡ some s)
        × (one_event.version ≡ 1)
        × Creates event s)
unfolding items elements texts fields object get_field member number_lt concat join quote
    insert_member sort_members show_member canonical_json canonical_json_sha256 schema_ref_json
    command_json event_json batch_json receipt_base_json receipt_json by_id after_digits after_unit
    schema_family same_family resolve validate own command_identity check schema_ref
    validate_payload admit_command breaks_stream replay_event replay_from replay prepared_event
    prepared_batch propose expose prepare canonicalize canonicalize_items canonicalize_fields decide
    apply
replay_creation_example =
    replay_creation sample_runtime sample_registry "run-1" sample_batch.events one_event refl

prepare_creates_example :
    (◌≡◌ {A = List DomainEventEnvelope} [] [])
    × (sample_command.expected_version ≡ 0)
    × (sample_prepared.state.created_by_command_id ≡ some (str sample_command.command_id))
unfolding items elements texts fields object get_field member number_lt concat join quote
    insert_member sort_members show_member canonical_json canonical_json_sha256 schema_ref_json
    command_json event_json batch_json receipt_base_json receipt_json by_id after_digits after_unit
    schema_family same_family resolve validate own command_identity check schema_ref
    validate_payload admit_command breaks_stream replay_event replay_from replay prepared_event
    prepared_batch propose expose prepare canonicalize canonicalize_items canonicalize_fields decide
    apply
prepare_creates_example =
    prepare_creates sample_runtime sample_registry sample_command [] sample_context sample_prepared
      refl
