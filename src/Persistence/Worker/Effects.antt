-- ===== src/Persistence/Worker/Effects.antt =====
-- A session of the worker as steps: what a request can do to the file, the connection and the flags.
use ai_software_engineering.Prelude.{
  ◌≡◌, refl, sym, ap, subst, ◌⊎◌, inl, inr, Bool, true, false, not, ◌||◌, none, some, arith, Result,
  ok, err, Result-cases,
}
use ai_software_engineering.Contracts.Canonical.{Runtime}
use ai_software_engineering.Contracts.Errors.{Failure}
use ai_software_engineering.Contracts.Envelopes.{JournalAppendBatch, PersistenceCommitReceipt}
use ai_software_engineering.Persistence.Tables.{InboxRow, CheckpointRow, Tables, insert_event}
use ai_software_engineering.Persistence.Commit.{event_row, commit_transaction}
use ai_software_engineering.Persistence.Inbox.{record_inbox, save_checkpoint}
use ai_software_engineering.Persistence.Worker.{
  Turn, Worker, Request, arm_crash, commit, get_command, lookup, events_of, inbox, checkpoint,
  close, hold_lock, release_lock, list_outbox, recover, unknown, Reply, receipt, inbox_record,
  saved, run_transaction, hold, release, close_database, replies, commit_request, crash_event, arm,
  handle,
}
use ai_software_engineering.Persistence.Worker.Atomic.{
  IsValid, begin_idle, run_transaction_done, crash_event_idle, handle_failed,
}

-- One committed transaction, on the tables of the file.
pub data Write (runtime : Runtime) (before after : Tables) : Type 0 where
  by_commit :
      (batch : JournalAppendBatch) (r : PersistenceCommitReceipt)
      → commit_transaction runtime batch before ≡ ok (r, after)
      → Write runtime before after
  by_inbox :
      (row answer : InboxRow)
      → record_inbox row before ≡ ok (answer, after)
      → Write runtime before after
  by_checkpoint :
      (row answer : CheckpointRow)
      → save_checkpoint row before ≡ ok (answer, after)
      → Write runtime before after

-- What one request does.
pub data Effect (runtime : Runtime) (w w' : Worker) : Type 0 where
  stays : w' ≡ w → Effect runtime w w'
  writes :
      Write runtime w.durable w'.durable
      → w.transaction ≡ none
      → w' ≡ record w { durable = w'.durable }
      → Effect runtime w w'
  begins :
      (w.write_lock_held || w.crash_transaction_armed) ≡ false
      → (tables : Tables) → tables.command_receipts ≡ w.durable.command_receipts
      → (held : Bool)
      → w' ≡ record w {
        transaction = some tables;
        write_lock_held = held;
        crash_transaction_armed = not held;
      }
      → Effect runtime w w'
  releases :
      w.write_lock_held ≡ true
      → w' ≡ record w { transaction = none; write_lock_held = false }
      → Effect runtime w w'
  closes : w' ≡ record w { transaction = none; is_open = false } → Effect runtime w w'

hold_done :
    (turn : Turn) (w w' : Worker) {r : Reply}
    → hold turn w ≡ (ok r, w')
    → ((w.write_lock_held || w.crash_transaction_armed) ≡ false)
      × (w' ≡ record w {
        transaction = some w.durable;
        write_lock_held = true;
        crash_transaction_armed = false;
      })
unfolding hold
hold_done turn w w' h = ground (arith, begin_idle turn w)

release_done :
    (w w' : Worker) {r : Reply}
    → release w ≡ (ok r, w')
    → (w.write_lock_held ≡ true) × (w' ≡ record w { transaction = none; write_lock_held = false })
unfolding release
release_done w w' h = ground arith

close_done :
    (w w' : Worker) {r : Reply}
    → close_database w ≡ (ok r, w')
    → w' ≡ record w { transaction = none; is_open = false }
unfolding close_database
close_done w w' h = ground arith

replies_done {ℓ} :
    {A : Type ℓ} (reply : A → Reply) (p : Result Failure A × Worker) {r : Reply} {w' : Worker}
    → replies reply p ≡ (ok r, w')
    → (a : A) × (p ≡ (ok a, w'))
replies_done reply (ok a, w) h = (a, ground arith)
replies_done reply (err e, w) h = cc

module _ (runtime : Runtime) where
  commit_done :
      (turn : Turn) (batch : JournalAppendBatch) (w w' : Worker) {r : PersistenceCommitReceipt}
      → commit_request runtime turn batch w ≡ (ok r, w')
      → (w' ≡ w) ⊎ (run_transaction turn (commit_transaction runtime batch) w ≡ (ok r, w'))
  unfolding commit_request
  commit_done turn batch w w' h = ground arith

  arm_done :
      (turn : Turn) (batch : JournalAppendBatch) (w w' : Worker) {r : Reply}
      → arm runtime turn batch w ≡ (ok r, w')
      → ((w.write_lock_held || w.crash_transaction_armed) ≡ false)
        × (tables : Tables) × (tables.command_receipts ≡ w.durable.command_receipts)
        × (w' ≡ record w {
          transaction = some tables;
          write_lock_held = false;
          crash_transaction_armed = true;
        })
  unfolding arm
  arm_done turn batch w w' h = elim (Result-cases (crash_event runtime batch w)) [
    | inr (e, refused) ↦ absurd (ground arith)
    | inl (event, found) ↦
        elim (Result-cases (insert_event (event_row runtime event) w.durable.event_journal)) [
          | inr (e, refused) ↦ absurd (ground arith)
          | inl (journal, inserted) ↦ (
            crash_event_idle runtime batch w found,
            record w.durable { event_journal = journal },
            refl,
            ground (arith, begin_idle turn w, crash_event_idle runtime batch w found),
          )
        ]
  ]

  writes_done {ℓ} :
      {A : Type ℓ} (turn : Turn) (action : Tables → Result Failure (A × Tables)) (w w' : Worker)
      {a : A}
      → run_transaction turn action w ≡ (ok a, w')
      → (action w.durable ≡ ok (a, w'.durable) → Write runtime w.durable w'.durable)
      → Effect runtime w w'
  writes_done turn action w w' h write =
      let (idle, done, same) = run_transaction_done turn action w w' h in
      writes (write done) idle same

  handle_done :
      (turn : Turn) (request : Request) (w w' : Worker) (r : Reply)
      → handle runtime turn request w ≡ (ok r, w')
      → Effect runtime w w'
  unfolding handle
  handle_done turn (arm_crash batch) w w' r h =
      let (idle, tables, receipts, same) = arm_done turn batch w w' h in
      begins idle tables receipts false same
  handle_done turn close w w' r h = closes (close_done w w' h)
  handle_done turn (commit batch) w w' r h =
      let (a, done) = replies_done receipt (commit_request runtime turn batch w) h in
      elim (commit_done turn batch w w' done) [
        | inl same ↦ stays same
        | inr ran ↦ writes_done turn (commit_transaction runtime batch) w w' ran (by_commit batch a)
      ]
  handle_done turn (get_command id) w w' r h = stays (ground arith)
  handle_done turn (lookup identity) w w' r h = stays (ground arith)
  handle_done turn hold_lock w w' r h =
      let (idle, same) = hold_done turn w w' h in begins idle w.durable refl true same
  handle_done turn list_outbox w w' r h = stays (ground arith)
  handle_done turn (events_of type id limit) w w' r h = stays (ground arith)
  handle_done turn (inbox row) w w' r h =
      let (a, done) = replies_done inbox_record (run_transaction turn (record_inbox row) w) h in
      writes_done turn (record_inbox row) w w' done (by_inbox row a)
  handle_done turn recover w w' r h = stays (ground arith)
  handle_done turn release_lock w w' r h =
      let (held, same) = release_done w w' h in releases held same
  handle_done turn (checkpoint row) w w' r h =
      let (a, done) = replies_done saved (run_transaction turn (save_checkpoint row) w) h in
      writes_done turn (save_checkpoint row) w w' done (by_checkpoint row a)
  handle_done turn unknown w w' r h = cc h

  pub handle-Effect :
      (turn : Turn) (request : Request) (w : Worker)
      → IsValid w
      → Effect runtime w (handle runtime turn request w).1
  handle-Effect turn request w v =
      let (r, w') = handle runtime turn request w in
      elim (Result-cases (handle runtime turn request w).0) [
        | inl (a, e) ↦
            handle_done turn request w _ a (ap (λ r. (r, (handle runtime turn request w).1)) e)
        | inr (f, e) ↦ stays (
            handle_failed runtime turn request w _ f v
              (ap (λ r. (r, (handle runtime turn request w).1)) e))
      ]

  pub Effect-IsValid : (w w' : Worker) → IsValid w → Effect runtime w w' → IsValid w'
  Effect-IsValid w w' v (stays same) = subst IsValid (sym same) v
  Effect-IsValid w w' v (writes _ no_transaction same) = rw same (record {
    exclusive = v.exclusive;
    idle = v.idle;
    busy = v.busy;
    same_receipts = λ t h. cc (h, no_transaction);
  })
  Effect-IsValid w w' v (begins idle tables receipts held same) = rw same (record {
    exclusive = ground arith;
    idle = λ h. absurd (ground arith);
    busy = λ _ _ h. cc h;
    same_receipts = λ t h. cc (h, receipts);
  })
  Effect-IsValid w w' v (releases held same) = rw same (record {
    exclusive = refl;
    idle = λ _. refl;
    busy = λ opened armed. absurd (ground (arith, v.exclusive));
    same_receipts = λ t h. cc h;
  })
  Effect-IsValid w w' v (closes same) = rw same (record {
    exclusive = v.exclusive;
    idle = λ _. refl;
    busy = λ opened. cc opened;
    same_receipts = λ t h. cc h;
  })
