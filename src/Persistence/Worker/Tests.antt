-- ===== src/Persistence/Worker/Tests.antt =====
-- A concrete session: a commit, a crash probe, and requests that fail while it is armed.
use ai_software_engineering.Prelude.{◌≡◌, refl, some, List, [], ◌∷◌, ok}
use ai_software_engineering.Contracts.Canonical.{canonical_json_sha256}
use ai_software_engineering.Contracts.Errors.{contract_violation, persistence}
use ai_software_engineering.Persistence.Tables.{
  ReceiptRow, insert_event, insert_receipt, insert_task, insert_audit,
}
use ai_software_engineering.Persistence.Commit.{
  identity_of, sole_duplicate, find_command_duplicate, lookup_command_receipt, max_version,
  insert_version, order_by_version, read_events, current_aggregate_version, verify_event,
  verify_outbox, verify_outbox_identities, append_events, append_tasks, append_audit, receipt_of,
  receipt_row, append_batch, commit_transaction, commit_batch,
}
use ai_software_engineering.Persistence.Commit.Counts.{IsContiguous}
use ai_software_engineering.Persistence.Inbox.{
  insert_inbox, known_result, answer_inbox, record_inbox, find_checkpoint, upsert_checkpoint,
  moves_backwards, save_checkpoint,
}
use ai_software_engineering.Persistence.Worker.{
  Turn, Worker, Request, commit, close, hold_lock, release_lock, db, begin_immediate, commit_work,
  run_transaction, insert_row, order_by_task, get_command_row, recovery_report, hold, release,
  close_database, commit_request, crash_event, arm, handle, serve,
}
use ai_software_engineering.Persistence.Worker.Atomic.{IsValid, handle_failed}
use ai_software_engineering.Persistence.Worker.Durable.{serve-IsContiguous, serve_keeps_receipt}
use ai_software_engineering.Samples.{
  sample_runtime, sample_batch, other_batch, good_turn, new_worker,
}

new-IsValid : IsValid new_worker
new-IsValid = record {
  exclusive = refl;
  idle = λ _. refl;
  busy = λ _ h. cc h;
  same_receipts = λ t h. cc h;
}

-- No lock is held, so that none can be released.
handle_failed_example : (handle sample_runtime good_turn release_lock new_worker).1 ≡ new_worker
unfolding insert_event insert_receipt insert_task insert_audit sole_duplicate find_command_duplicate
    lookup_command_receipt max_version insert_version order_by_version read_events
    current_aggregate_version verify_event verify_outbox verify_outbox_identities append_events
    append_tasks append_audit receipt_of append_batch commit_transaction commit_batch insert_inbox
    known_result answer_inbox record_inbox find_checkpoint upsert_checkpoint moves_backwards
    save_checkpoint db begin_immediate commit_work run_transaction insert_row order_by_task
    get_command_row recovery_report hold release close_database commit_request crash_event arm
    handle
handle_failed_example =
    handle_failed sample_runtime good_turn release_lock new_worker new_worker
      (persistence contract_violation) new-IsValid refl

abbrev session : List (Turn × Request)
session =
    (good_turn, commit sample_batch)
    ∷ (good_turn, hold_lock)
    ∷ (good_turn, commit other_batch)
    ∷ (good_turn, close)
    ∷ []

serve-IsContiguous_example :
    IsValid (serve sample_runtime session new_worker)
    × IsContiguous (serve sample_runtime session new_worker).durable.event_journal
serve-IsContiguous_example =
    serve-IsContiguous sample_runtime session new_worker new-IsValid (record { at = λ type id. tt })

abbrev after_commit : Worker
after_commit = (handle sample_runtime good_turn (commit sample_batch) new_worker).1

abbrev sample_row : ReceiptRow
sample_row = receipt_row sample_runtime sample_batch (receipt_of sample_runtime sample_batch 1)

after-IsValid : IsValid after_commit
unfolding insert_event insert_receipt insert_task insert_audit sole_duplicate find_command_duplicate
    lookup_command_receipt max_version insert_version order_by_version read_events
    current_aggregate_version verify_event verify_outbox verify_outbox_identities append_events
    append_tasks append_audit receipt_of append_batch commit_transaction commit_batch insert_inbox
    known_result answer_inbox record_inbox find_checkpoint upsert_checkpoint moves_backwards
    save_checkpoint db begin_immediate commit_work run_transaction insert_row order_by_task
    get_command_row recovery_report hold release close_database commit_request crash_event arm
    handle serve canonical_json_sha256
after-IsValid = record {
  exclusive = refl;
  idle = λ _. refl;
  busy = λ _ h. cc h;
  same_receipts = λ t h. cc h;
}

serve_keeps_receipt_example :
    find_command_duplicate
      (identity_of sample_batch)
      (serve sample_runtime session after_commit).durable
    ≡ ok (some sample_row)
unfolding insert_event insert_receipt insert_task insert_audit sole_duplicate find_command_duplicate
    lookup_command_receipt max_version insert_version order_by_version read_events
    current_aggregate_version verify_event verify_outbox verify_outbox_identities append_events
    append_tasks append_audit receipt_of append_batch commit_transaction commit_batch insert_inbox
    known_result answer_inbox record_inbox find_checkpoint upsert_checkpoint moves_backwards
    save_checkpoint db begin_immediate commit_work run_transaction insert_row order_by_task
    get_command_row recovery_report hold release close_database commit_request crash_event arm
    handle serve canonical_json_sha256
serve_keeps_receipt_example =
    serve_keeps_receipt sample_runtime session after_commit (identity_of sample_batch) sample_row
      after-IsValid refl
