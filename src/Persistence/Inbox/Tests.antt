-- ===== src/Persistence/Inbox/Tests.antt =====
-- A result recorded twice, and a checkpoint that advances.
use ai_software_engineering.Prelude.{◌≤◌, ◌≡◌, refl, none, some, [], ◌∷◌, ok}
use ai_software_engineering.Persistence.Tables.{
  accepted, duplicate, InboxRow, CheckpointRow, Tables,
}
use ai_software_engineering.Persistence.Inbox.{
  insert_inbox, known_result, answer_inbox, record_inbox, find_checkpoint, upsert_checkpoint,
  moves_backwards, save_checkpoint,
}
use ai_software_engineering.Persistence.Inbox.Laws.{
  record_inbox_again, find-save_checkpoint, save_checkpoint_forward,
}
use ai_software_engineering.Samples.{digest, no_tables}

abbrev sample_result : InboxRow
sample_result = record {
  result_id = "result-1";
  task_id = "task-1";
  payload_hash = digest;
  status = accepted;
  received_at = "2026-01-01T00:00:00.000Z";
}

abbrev one_result : Tables
one_result = record no_tables { inbox = sample_result ∷ [] }

record_inbox_again_example :
    record_inbox sample_result one_result
    ≡ ok (record sample_result { status = duplicate }, one_result)
unfolding record_inbox known_result answer_inbox insert_inbox
record_inbox_again_example =
    record_inbox_again sample_result no_tables sample_result one_result refl

abbrev at_five : CheckpointRow
at_five = record {
  projection_name = "runs";
  projection_version = "1";
  source_sequence = 5;
  rebuilt_from_sequence = none;
  updated_at = "2026-01-01T00:00:00.000Z";
}

abbrev at_seven : CheckpointRow
at_seven = record at_five { source_sequence = 7 }

abbrev five : Tables
five = record no_tables { projection_checkpoints = at_five ∷ [] }

abbrev seven : Tables
seven = record no_tables { projection_checkpoints = at_seven ∷ [] }

find-save_checkpoint_example : find_checkpoint "runs" seven.projection_checkpoints ≡ some at_seven
unfolding save_checkpoint moves_backwards find_checkpoint upsert_checkpoint
find-save_checkpoint_example = find-save_checkpoint at_seven five at_seven seven "runs" refl

save_checkpoint_forward_example :
    (now : CheckpointRow) × (find_checkpoint "runs" seven.projection_checkpoints ≡ some now)
    × (at_five.source_sequence ≤ now.source_sequence)
unfolding save_checkpoint moves_backwards find_checkpoint upsert_checkpoint
save_checkpoint_forward_example =
    save_checkpoint_forward at_seven five at_seven seven "runs" at_five refl refl
