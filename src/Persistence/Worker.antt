-- ===== src/Persistence/Worker.antt =====
-- packages/persistence/src/persistence-worker.ts: the worker's variables, its transactions and the
-- requests that read or change the tables. What SQLite answers in a request is its `Turn`.
pub mod Atomic
pub mod Effects
pub mod Durable
mod Tests
use ai_software_engineering.Prelude.{
  ℕ, zero, suc, ◌+◌, ◌-◌, ◌*◌, ◌/◌, ◌%◌, ◌^◌, ◌≤◌, ◌<◌, min, String, ◌≡◌, refl, sym, ap, subst, ◌∙◌,
  ◌≢◌, ◌↔◌, ◌⊎◌, inl, inr, Bool, true, false, not, ◌&&◌, ◌||◌, Option, none, some, List, [], ◌∷◌,
  ◌++◌, map, arith, ltb, leb, nat_eq, ◌==◌, eq_iff, eq_refl, if◌then◌else◌, some-injective,
  Bool-cases, Option-cases, &&-left, &&-right, max_safe_integer, is_safe_integer, length, take,
  take_all, any, all, keep_if, length-append, length-map, length-keep_if, any-append,
  keep_if-append, includes, code_units, All, All-append, All-keep_if, Result, ok, err, ◌>>=◌, ◌>>◌,
  throw_if, >>=-eq-ok, throw_if-eq-ok, require, require-eq-ok, ok-injective, Result-cases,
  text_length, text_lt, insert_text, sort_texts, point_lt,
}
use ai_software_engineering.Contracts.Canonical.{Runtime}
use ai_software_engineering.Contracts.Errors.{
  Failure, persistence, busy, closed, contract_violation, corruption, optimistic_concurrency,
  storage_failure,
}
use ai_software_engineering.Contracts.Envelopes.{
  DomainEventEnvelope, JournalAppendBatch, PersistenceCommitReceipt,
}
use ai_software_engineering.Kernel.{CommandIdentity}
use ai_software_engineering.Persistence.Tables.{
  ReceiptRow, OutboxRow, InboxRow, CheckpointRow, Tables, insert_event,
}
use ai_software_engineering.Persistence.Commit.{
  identity_of, find_command_duplicate, lookup_command_receipt, read_events,
  current_aggregate_version, verify_event, verify_outbox, event_row, commit_transaction,
}
use ai_software_engineering.Persistence.Inbox.{record_inbox, save_checkpoint}

-- BEGIN IMMEDIATE gets the write lock, COMMIT succeeds, and `quick_check` answers "ok".
pub record Turn : Type 0 where
  pub locks : Bool
  pub commits : Bool
  pub intact : Bool

-- `durable` is what the file holds, `transaction` what the connection sees inside a transaction.
pub record Worker : Type 0 where
  pub durable : Tables
  pub transaction : Option Tables
  pub write_lock_held : Bool
  pub crash_transaction_armed : Bool
  pub is_open : Bool

pub data Request : Type 0 where
  arm_crash commit : JournalAppendBatch → Request
  get_command : String → Request
  lookup : CommandIdentity → Request
  events_of : String → String → ℕ → Request
  inbox : InboxRow → Request
  checkpoint : CheckpointRow → Request
  close hold_lock release_lock list_outbox recover unknown : Request

pub record RecoveryReport : Type 0 where
  pub event_count : ℕ
  pub command_count : ℕ
  pub pending_outbox_count : ℕ
  pub inbox_count : ℕ
  pub audit_count : ℕ
  pub checkpoint_count : ℕ

pub data Reply : Type 0 where
  armed locked released was_closed : Reply
  receipt : PersistenceCommitReceipt → Reply
  maybe_receipt : Option PersistenceCommitReceipt → Reply
  maybe_command : Option ReceiptRow → Reply
  events : List DomainEventEnvelope → Reply
  tasks : List OutboxRow → Reply
  inbox_record : InboxRow → Reply
  saved : CheckpointRow → Reply
  report : RecoveryReport → Reply

-- `db()`, and the tables that a statement on it sees.
unfoldable pub db : Worker → Result Failure Tables
db w =
    if w.is_open
    then ok (elim w.transaction [ none ↦ w.durable | some tables ↦ tables ])
    else err (persistence closed)

-- SQLite refuses a transaction within a transaction.
unfoldable pub begin_immediate : Turn → Worker → Result Failure Worker
begin_immediate turn w = elim w.transaction [
  | some tables ↦ err (persistence storage_failure)
  | none ↦
      if turn.locks then ok (record w { transaction = some w.durable }) else err (persistence busy)
]

abbrev pub rollback : Worker → Worker
rollback w = record w { transaction = none }

-- COMMIT of a transaction that made the tables what they are now.
unfoldable pub commit_work {ℓ} :
    {A : Type ℓ} → Turn → A → Tables → Worker → Result Failure A × Worker
commit_work turn a tables w =
    if turn.commits
    then (ok a, record w { durable = tables; transaction = none })
    else (err (persistence storage_failure), rollback w)

-- `runTransaction`
unfoldable pub run_transaction {ℓ} :
    {A : Type ℓ}
    → Turn
    → (Tables → Result Failure (A × Tables))
    → Worker
    → Result Failure A × Worker
unfolding db begin_immediate commit_work
run_transaction turn action w = elim (db w >>= λ _. begin_immediate turn w) [
  | err e ↦ (err e, w)
  | ok begun ↦ elim (action w.durable) [
    | err e ↦ (err e, rollback begun)
    | ok (a, tables) ↦ commit_work turn a tables begun
  ]
]

-- ORDER BY task_id: the order of the UTF-8 texts, which is that of their code points.
unfoldable pub insert_row : OutboxRow → List OutboxRow → List OutboxRow
insert_row row [] = row ∷ []
insert_row row (r ∷ rs) =
    let rest = insert_row row rs in
    if point_lt r.task_id row.task_id then r ∷ rest else row ∷ r ∷ rs

-- `listOutbox`
unfoldable pub order_by_task : List OutboxRow → List OutboxRow
unfolding insert_row
order_by_task [] = []
order_by_task (r ∷ rs) = insert_row r (order_by_task rs)

-- `getCommand`
unfoldable pub get_command_row : String → List ReceiptRow → Option ReceiptRow
get_command_row id [] = none
get_command_row id (row ∷ rows) = if row.command_id == id then some row else get_command_row id rows

-- `recover`
unfoldable pub recovery_report : Turn → Tables → Result Failure RecoveryReport
recovery_report turn tables = do
  throw_if (not turn.intact) (persistence corruption)
  ok (record {
    event_count = length tables.event_journal;
    command_count = length tables.command_receipts;
    pending_outbox_count = length tables.outbox;
    inbox_count = length tables.inbox;
    audit_count = length tables.audit_facts;
    checkpoint_count = length tables.projection_checkpoints;
  })

-- `holdLock`
unfoldable pub hold : Turn → Worker → Result Failure Reply × Worker
unfolding db begin_immediate
hold turn w =
    if w.write_lock_held || w.crash_transaction_armed
    then (err (persistence busy), w)
    else elim (db w >>= λ _. begin_immediate turn w) [
      | err e ↦ (err e, w)
      | ok begun ↦ (ok locked, record begun { write_lock_held = true })
    ]

-- `releaseLock`
unfoldable pub release : Worker → Result Failure Reply × Worker
unfolding db
release w =
    if not w.write_lock_held then (err (persistence contract_violation), w) else elim (db w) [
      | err e ↦ (err e, w)
      | ok _ ↦ (ok released, record w { transaction = none; write_lock_held = false })
    ]

-- `closeDatabase`: what is not committed is lost. That the checkpoint of the log and the close of the
-- file succeed is taken for granted.
unfoldable pub close_database : Worker → Result Failure Reply × Worker
unfolding db
close_database w = elim (db w) [
  | err e ↦ (err e, w)
  | ok _ ↦ (ok was_closed, record w { transaction = none; is_open = false })
]

-- A request that only reads.
abbrev pub reads {ℓ} :
    {A : Type ℓ}
    → (A → Reply)
    → (Tables → Result Failure A)
    → Worker
    → Result Failure Reply × Worker
reads reply question w = (db w >>= question >>= λ a. ok (reply a), w)

abbrev pub replies {ℓ} :
    {A : Type ℓ} → (A → Reply) → Result Failure A × Worker → Result Failure Reply × Worker
replies reply (r, w) = (r >>= λ a. ok (reply a), w)

module _ (runtime : Runtime) where
  -- `commitBatch`: a known command is answered before a transaction is begun.
  unfoldable pub commit_request :
      Turn → JournalAppendBatch → Worker → Result Failure PersistenceCommitReceipt × Worker
  unfolding db run_transaction
  commit_request turn batch w = elim (db w >>= find_command_duplicate (identity_of batch)) [
    | err e ↦ (err e, w)
    | ok (some row) ↦ (ok row.receipt_json, w)
    | ok none ↦ elim (verify_outbox runtime batch.outbox) [
      | err e ↦ (err e, w)
      | ok _ ↦ run_transaction turn (commit_transaction runtime batch) w
    ]
  ]

  -- `armCrash`, up to its transaction: the event that it writes.
  unfoldable pub crash_event : JournalAppendBatch → Worker → Result Failure DomainEventEnvelope
  unfolding db
  crash_event batch w = do
    throw_if (w.write_lock_held || w.crash_transaction_armed) (persistence busy)
    verify_outbox runtime batch.outbox
    tables ← db w
    version ← current_aggregate_version batch tables
    throw_if (not (nat_eq version batch.stream.expected_version))
        (persistence optimistic_concurrency)
    event ←
        require (elim batch.events [ [] ↦ none | e ∷ es ↦ some e ]) (persistence contract_violation)
    verify_event runtime event batch (version + 1)
    ok event

  unfoldable pub arm : Turn → JournalAppendBatch → Worker → Result Failure Reply × Worker
  unfolding begin_immediate crash_event
  arm turn batch w = elim (crash_event batch w) [
    | err e ↦ (err e, w)
    | ok event ↦ elim (begin_immediate turn w) [
      | err e ↦ (err e, rollback w)
      | ok begun ↦ elim (insert_event (event_row runtime event) w.durable.event_journal) [
        | err e ↦ (err e, rollback begun)
        | ok journal ↦ (
          ok armed,
          record begun {
            transaction = some (record w.durable { event_journal = journal });
            crash_transaction_armed = true;
          },
        )
      ]
    ]
  ]

  -- `handle`
  unfoldable pub handle : Turn → Request → Worker → Result Failure Reply × Worker
  unfolding run_transaction order_by_task get_command_row recovery_report hold release
      close_database commit_request arm
  handle turn (arm_crash batch) w = arm turn batch w
  handle turn close w = close_database w
  handle turn (commit batch) w = replies receipt (commit_request turn batch w)
  handle turn (get_command id) w =
      reads maybe_command (λ t. ok (get_command_row id t.command_receipts)) w
  handle turn (lookup identity) w = reads maybe_receipt (lookup_command_receipt identity) w
  handle turn hold_lock w = hold turn w
  handle turn list_outbox w = reads tasks (λ t. ok (order_by_task t.outbox)) w
  handle turn (events_of type id limit) w = reads events (λ t. ok (read_events type id limit t)) w
  handle turn (inbox row) w = replies inbox_record (run_transaction turn (record_inbox row) w)
  handle turn recover w = reads report (recovery_report turn) w
  handle turn release_lock w = release w
  handle turn (checkpoint row) w = replies saved (run_transaction turn (save_checkpoint row) w)
  handle turn unknown w = (err (persistence contract_violation), w)

  -- The requests of a session, one after the other, as the `serial` promise runs them.
  unfoldable pub serve : List (Turn × Request) → Worker → Worker
  serve [] w = w
  serve ((turn, request) ∷ rest) w = serve rest (handle turn request w).1
