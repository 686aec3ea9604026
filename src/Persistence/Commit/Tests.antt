-- ===== src/Persistence/Commit/Tests.antt =====
-- Commits of concrete batches.
use ai_software_engineering.Prelude.{
  ◌≡◌, refl, ap, inr, none, some, [], ◌∷◌, ◌++◌, map, arith, eq_iff, ok, err,
}
use ai_software_engineering.Contracts.Canonical.{canonical_json_sha256}
use ai_software_engineering.Contracts.Errors.{idempotency_conflict, persistence}
use ai_software_engineering.Contracts.Envelopes.{PersistenceCommitReceipt}
use ai_software_engineering.Persistence.Tables.{Tables, insert_event, insert_receipt}
use ai_software_engineering.Persistence.Commit.{
  identity_of, sole_duplicate, find_command_duplicate, lookup_command_receipt, max_version,
  read_events, current_aggregate_version, verify_event, verify_outbox, verify_outbox_identities,
  event_row, append_events, append_tasks, append_audit, receipt_of, receipt_row, append_batch,
  commit_transaction, commit_batch,
}
use ai_software_engineering.Persistence.Commit.Idempotent.{
  commit_again, lookup-commit, commit_conflict,
}
use ai_software_engineering.Persistence.Commit.Streams.{commit-IsContiguous, read_events-commit}
use ai_software_engineering.Persistence.Commit.Counts.{IsContiguous}
use ai_software_engineering.Kernel.{CommandIdentity}
use ai_software_engineering.Samples.{digest, sample_runtime, sample_batch, other_batch, no_tables}

abbrev sample_receipt : PersistenceCommitReceipt
sample_receipt = record {
  base = record {
    transaction_id = "transaction-1";
    command_id = "command-1";
    aggregate_type = "WorkflowRun";
    aggregate_id = "run-1";
    committed_version = 1;
    event_ids = "event-1" ∷ [];
    outbox_task_ids = [];
    audit_ids = [];
    committed_at = "2026-01-01T00:00:01.000Z";
  };
  receipt_hash = digest;
}

abbrev one_command : Tables
one_command = record no_tables {
  event_journal = map (event_row sample_runtime) sample_batch.events;
  command_receipts = receipt_row sample_runtime sample_batch sample_receipt ∷ [];
}

-- A first batch is committed as version 1 of its stream.
commit_first : commit_batch sample_runtime sample_batch no_tables ≡ ok (sample_receipt, one_command)
unfolding commit_batch commit_transaction find_command_duplicate sole_duplicate verify_outbox
    append_batch verify_outbox_identities current_aggregate_version max_version append_events
    verify_event insert_event append_tasks append_audit receipt_of insert_receipt
    canonical_json_sha256
commit_first = refl

commit_again_example :
    commit_batch sample_runtime sample_batch one_command ≡ ok (sample_receipt, one_command)
commit_again_example =
    commit_again sample_runtime sample_batch no_tables sample_receipt one_command commit_first

lookup-commit_example :
    lookup_command_receipt (identity_of sample_batch) one_command ≡ ok (some sample_receipt)
lookup-commit_example =
    lookup-commit sample_runtime sample_batch no_tables sample_receipt one_command commit_first

commit_conflict_example :
    commit_batch sample_runtime other_batch one_command ≡ err (persistence idempotency_conflict)
commit_conflict_example =
    commit_conflict sample_runtime sample_batch no_tables sample_receipt one_command other_batch
      commit_first (inr (refl, refl))
      (λ same.
        cc ((eq_iff "command-2" "command-1").1 (ap (λ (i : CommandIdentity). i.command_id) same)))

empty-IsContiguous : IsContiguous no_tables.event_journal
empty-IsContiguous = record { at = λ type id. tt }

commit-IsContiguous_example : IsContiguous one_command.event_journal
commit-IsContiguous_example =
    commit-IsContiguous sample_runtime sample_batch no_tables sample_receipt one_command
      empty-IsContiguous commit_first

none_yet : find_command_duplicate (identity_of sample_batch) no_tables ≡ ok none
unfolding find_command_duplicate sole_duplicate
none_yet = refl

read_events-commit_example :
    read_events "WorkflowRun" "run-1" 10 one_command
    ≡ read_events "WorkflowRun" "run-1" 10 no_tables ++ sample_batch.events
read_events-commit_example =
    read_events-commit sample_runtime sample_batch no_tables sample_receipt one_command
      "WorkflowRun" "run-1" 10 empty-IsContiguous none_yet commit_first (omega arith)
