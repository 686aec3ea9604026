-- ===== src/Platform/WorkflowService/Tests.antt =====
-- A command executed twice, on the worker's client.
use ai_software_engineering.Prelude.{◌≡◌, refl, some, Result, ok}
use ai_software_engineering.Contracts.Json.{
  items, elements, texts, fields, object, get_field, member, number_lt,
}
use ai_software_engineering.Contracts.Canonical.{
  concat, join, quote, insert_member, sort_members, show_member, canonicalize, canonicalize_items,
  canonicalize_fields, canonical_json, canonical_json_sha256,
}
use ai_software_engineering.Contracts.Errors.{Failure}
use ai_software_engineering.Contracts.Envelopes.{
  schema_ref_json, command_json, event_json, batch_json, receipt_base_json, receipt_json,
}
use ai_software_engineering.Contracts.Registry.{
  by_id, after_digits, after_unit, schema_family, same_family, resolve, validate,
}
use ai_software_engineering.Kernel.{
  TransitionContext, own, command_identity, check, schema_ref, validate_payload, admit_command,
  breaks_stream, replay_event, replay_from, replay, prepared_event, prepared_batch, propose, expose,
  prepare,
}
use ai_software_engineering.Workflow.{decide, apply}
use ai_software_engineering.Persistence.Tables.{
  insert_event, insert_receipt, insert_task, insert_audit,
}
use ai_software_engineering.Persistence.Commit.{
  sole_duplicate, find_command_duplicate, lookup_command_receipt, max_version, insert_version,
  order_by_version, read_events, current_aggregate_version, verify_event, verify_outbox,
  verify_outbox_identities, append_events, append_tasks, append_audit, receipt_of, append_batch,
  commit_transaction, commit_batch,
}
use ai_software_engineering.Persistence.Worker.{
  db, begin_immediate, commit_work, run_transaction, insert_row, order_by_task, get_command_row,
  recovery_report, hold, release, close_database, commit_request, crash_event, arm, handle, serve,
}
use ai_software_engineering.Persistence.Worker.Atomic.{IsValid}
use ai_software_engineering.Persistence.Client.{
  Client, all_hex, validated, validated_payload, validated_payloads, validate_batch, deliver,
  request_at, lookup_receipt, read_stream,
}
use ai_software_engineering.Persistence.Client as client
use ai_software_engineering.Platform.WorkflowService.{
  WorkflowCommandResult, is_race, replayed_result, bound_result, replay_run, result_of, answered,
  try_commit, recover_race, execute_new, execute,
}
use ai_software_engineering.Platform.WorkflowService.ExactlyOnce.{
  execute-Committed, execute_again, execute_once,
}
use ai_software_engineering.Platform.WorkflowService.Interface.{IsJournal}
use ai_software_engineering.Platform.WorkflowService.Journal.{
  Committed, Sound, client_persistence, client-IsJournal,
}
use ai_software_engineering.Samples.{
  sample_runtime, sample_registry, sample_command, sample_context, later_context, sample_state,
  sample_prepared, new_worker, new_client,
}

abbrev executed : TransitionContext → Client → Result Failure WorkflowCommandResult × Client
executed =
    execute sample_runtime sample_registry (client_persistence sample_runtime sample_registry)
      sample_command

abbrev first_client : Client
first_client = (executed sample_context new_client).1

abbrev sample_result : WorkflowCommandResult
sample_result = record {
  state = sample_state;
  receipt = receipt_of sample_runtime sample_prepared.batch 1;
}

client-IsValid : IsValid new_worker
client-IsValid = record {
  exclusive = refl;
  idle = λ _. refl;
  busy = λ _ h. cc h;
  same_receipts = λ t h. cc h;
}

execute_first : executed sample_context new_client ≡ (ok sample_result, first_client)
unfolding items elements texts fields object get_field member number_lt concat join quote
    insert_member sort_members show_member canonical_json canonical_json_sha256 schema_ref_json
    command_json event_json batch_json receipt_base_json receipt_json by_id after_digits after_unit
    schema_family same_family resolve validate own command_identity check schema_ref
    validate_payload admit_command breaks_stream replay_event replay_from replay prepared_event
    prepared_batch propose expose prepare insert_event insert_receipt insert_task insert_audit
    sole_duplicate find_command_duplicate lookup_command_receipt max_version insert_version
    order_by_version read_events current_aggregate_version verify_event verify_outbox
    verify_outbox_identities append_events append_tasks append_audit receipt_of append_batch
    commit_transaction commit_batch db begin_immediate commit_work run_transaction insert_row
    order_by_task get_command_row recovery_report hold release close_database commit_request
    crash_event arm handle serve all_hex validated validated_payload validated_payloads
    validate_batch deliver request_at client.commit lookup_receipt read_stream is_race
    replayed_result bound_result replay_run result_of answered try_commit recover_race execute_new
    execute canonicalize canonicalize_items canonicalize_fields decide apply
execute_first = refl

abbrev second_client : Client
second_client = (executed later_context first_client).1

-- A retry with other identities and another time gives the same result.
execute_second : executed later_context first_client ≡ (ok sample_result, second_client)
unfolding items elements texts fields object get_field member number_lt concat join quote
    insert_member sort_members show_member canonical_json canonical_json_sha256 schema_ref_json
    command_json event_json batch_json receipt_base_json receipt_json by_id after_digits after_unit
    schema_family same_family resolve validate own command_identity check schema_ref
    validate_payload admit_command breaks_stream replay_event replay_from replay prepared_event
    prepared_batch propose expose prepare insert_event insert_receipt insert_task insert_audit
    sole_duplicate find_command_duplicate lookup_command_receipt max_version insert_version
    order_by_version read_events current_aggregate_version verify_event verify_outbox
    verify_outbox_identities append_events append_tasks append_audit receipt_of append_batch
    commit_transaction commit_batch db begin_immediate commit_work run_transaction insert_row
    order_by_task get_command_row recovery_report hold release close_database commit_request
    crash_event arm handle serve all_hex validated validated_payload validated_payloads
    validate_batch deliver request_at client.commit lookup_receipt read_stream is_race
    replayed_result bound_result replay_run result_of answered try_commit recover_race execute_new
    execute canonicalize canonicalize_items canonicalize_fields decide apply
execute_second = refl

client-IsJournal_example :
    IsJournal (client_persistence sample_runtime sample_registry) Committed Sound
client-IsJournal_example = client-IsJournal sample_runtime sample_registry

execute-Committed_example :
    Committed (command_identity sample_runtime sample_command) sample_result.receipt first_client
    × Sound first_client
execute-Committed_example =
    execute-Committed sample_runtime sample_registry
      (client_persistence sample_runtime sample_registry) Committed Sound
      (client-IsJournal sample_runtime sample_registry) sample_command sample_context new_client
      first_client sample_result client-IsValid execute_first

execute_once_example : sample_result.receipt ≡ sample_result.receipt
execute_once_example =
    execute_once sample_runtime sample_registry (client_persistence sample_runtime sample_registry)
      Committed Sound (client-IsJournal sample_runtime sample_registry) sample_command
      sample_context later_context new_client first_client second_client sample_result sample_result
      client-IsValid execute_first execute_second

found_again :
    (lookup_receipt sample_runtime sample_registry
      (command_identity sample_runtime sample_command)
      first_client).0
    ≡ ok (some sample_result.receipt)
unfolding items elements texts fields object get_field member number_lt concat join quote
    insert_member sort_members show_member canonical_json canonical_json_sha256 schema_ref_json
    command_json event_json batch_json receipt_base_json receipt_json by_id after_digits after_unit
    schema_family same_family resolve validate own command_identity check schema_ref
    validate_payload admit_command breaks_stream replay_event replay_from replay prepared_event
    prepared_batch propose expose prepare insert_event insert_receipt insert_task insert_audit
    sole_duplicate find_command_duplicate lookup_command_receipt max_version insert_version
    order_by_version read_events current_aggregate_version verify_event verify_outbox
    verify_outbox_identities append_events append_tasks append_audit receipt_of append_batch
    commit_transaction commit_batch db begin_immediate commit_work run_transaction insert_row
    order_by_task get_command_row recovery_report hold release close_database commit_request
    crash_event arm handle serve all_hex validated validated_payload validated_payloads
    validate_batch deliver request_at client.commit lookup_receipt read_stream is_race
    replayed_result bound_result replay_run result_of answered try_commit recover_race execute_new
    execute canonicalize canonicalize_items canonicalize_fields decide apply
found_again = refl

execute_again_example :
    executed later_context first_client
    ≡ result_of sample_runtime sample_registry
        (client_persistence sample_runtime sample_registry)
        sample_command
        sample_result.receipt
        (lookup_receipt sample_runtime sample_registry
          (command_identity sample_runtime sample_command)
          first_client).1
execute_again_example =
    execute_again sample_runtime sample_registry (client_persistence sample_runtime sample_registry)
      Committed Sound (client-IsJournal sample_runtime sample_registry) sample_command
      sample_context later_context new_client first_client sample_result
      (some sample_result.receipt) client-IsValid execute_first found_again
