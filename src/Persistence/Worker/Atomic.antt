-- ===== src/Persistence/Worker/Atomic.antt =====
-- Requests are atomic: what fails changes nothing, and what the file holds changes by one transaction.
use ai_software_engineering.Prelude.{
  ◌≡◌, sym, ap, ◌≢◌, inl, inr, true, false, ◌&&◌, ◌||◌, none, some, arith, Option-cases, Result, ok,
  err,
}
use ai_software_engineering.Contracts.Canonical.{Runtime}
use ai_software_engineering.Contracts.Errors.{Failure}
use ai_software_engineering.Contracts.Envelopes.{DomainEventEnvelope, JournalAppendBatch}
use ai_software_engineering.Persistence.Tables.{Tables}
use ai_software_engineering.Persistence.Commit.{commit_transaction}
use ai_software_engineering.Persistence.Inbox.{record_inbox, save_checkpoint}
use ai_software_engineering.Persistence.Worker.{
  Turn, Worker, Request, arm_crash, commit, get_command, lookup, events_of, inbox, checkpoint,
  close, hold_lock, release_lock, list_outbox, recover, unknown, Reply, receipt, inbox_record,
  saved, begin_immediate, rollback, run_transaction, hold, release, close_database, replies,
  commit_request, crash_event, arm, handle,
}

-- The flags and the connection agree on whether a transaction is open between two requests, and an
-- open one has added no receipt.
pub record IsValid (w : Worker) : Type 0 where
  pub exclusive : (w.write_lock_held && w.crash_transaction_armed) ≡ false
  pub idle : (w.write_lock_held || w.crash_transaction_armed) ≡ false → w.transaction ≡ none
  pub busy :
      w.is_open ≡ true
      → (w.write_lock_held || w.crash_transaction_armed) ≡ true
      → w.transaction ≢ none
  pub same_receipts :
      (tables : Tables)
      → w.transaction ≡ some tables
      → tables.command_receipts ≡ w.durable.command_receipts

rollback_idle : (w : Worker) → w.transaction ≡ none → rollback w ≡ w
rollback_idle w h = ap (λ o. record w { transaction = o }) (sym h)

pub begin_idle :
    (turn : Turn) (w begun : Worker)
    → begin_immediate turn w ≡ ok begun
    → (w.transaction ≡ none) × (begun ≡ record w { transaction = some w.durable })
unfolding begin_immediate
begin_idle turn w begun h = elim (Option-cases w.transaction) [
  | inl idle ↦ (idle, ground arith)
  | inr (t, inside) ↦ absurd (ground arith)
]

-- The steps of a transaction, with what each leaves.
pub run_transaction_failed {ℓ} :
    {A : Type ℓ} (turn : Turn) (action : Tables → Result Failure (A × Tables)) (w w' : Worker)
    {e : Failure}
    → run_transaction turn action w ≡ (err e, w')
    → w' ≡ w
unfolding run_transaction
run_transaction_failed turn action w w' h = ground (arith, begin_idle turn w)

pub run_transaction_done {ℓ} :
    {A : Type ℓ} (turn : Turn) (action : Tables → Result Failure (A × Tables)) (w w' : Worker)
    {a : A}
    → run_transaction turn action w ≡ (ok a, w')
    → (w.transaction ≡ none)
      × (action w.durable ≡ ok (a, w'.durable))
      × (w' ≡ record w { durable = w'.durable })
unfolding run_transaction
run_transaction_done turn action w w' h = ground (arith, begin_idle turn w)

replies_failed {ℓ} :
    {A : Type ℓ} (reply : A → Reply) (p : Result Failure A × Worker) {e : Failure} {w' : Worker}
    → replies reply p ≡ (err e, w')
    → (p.0 ≡ err e) × (p.1 ≡ w')
replies_failed reply (ok a, w) h = cc
replies_failed reply (err e, w) h = ground arith

hold_failed : (turn : Turn) (w w' : Worker) {e : Failure} → hold turn w ≡ (err e, w') → w' ≡ w
unfolding hold
hold_failed turn w w' h = ground arith

release_failed : (w w' : Worker) {e : Failure} → release w ≡ (err e, w') → w' ≡ w
unfolding release
release_failed w w' h = ground arith

close_failed : (w w' : Worker) {e : Failure} → close_database w ≡ (err e, w') → w' ≡ w
unfolding close_database
close_failed w w' h = ground arith

module _ (runtime : Runtime) where
  commit_failed :
      (turn : Turn) (batch : JournalAppendBatch) (w w' : Worker) {e : Failure}
      → commit_request runtime turn batch w ≡ (err e, w')
      → w' ≡ w
  unfolding commit_request
  commit_failed turn batch w w' h =
      ground (arith, run_transaction_failed turn (commit_transaction runtime batch) w w')

  pub crash_event_idle :
      (batch : JournalAppendBatch) (w : Worker) {event : DomainEventEnvelope}
      → crash_event runtime batch w ≡ ok event
      → (w.write_lock_held || w.crash_transaction_armed) ≡ false
  unfolding crash_event
  crash_event_idle batch w h = ground arith

  arm_failed :
      (turn : Turn) (batch : JournalAppendBatch) (w w' : Worker) {e : Failure}
      → IsValid w
      → arm runtime turn batch w ≡ (err e, w')
      → w' ≡ w
  unfolding arm
  arm_failed turn batch w w' v h =
      ground (arith, crash_event_idle batch w, v.idle, begin_idle turn w, rollback_idle w)

  -- In a valid worker, a request that fails leaves everything as it was: the file, the connection and
  -- the flags.
  pub handle_failed :
      (turn : Turn) (request : Request) (w w' : Worker) (e : Failure)
      → IsValid w
      → handle runtime turn request w ≡ (err e, w')
      → w' ≡ w
  unfolding handle
  handle_failed turn (arm_crash batch) w w' e v h = arm_failed turn batch w w' v h
  handle_failed turn close w w' e v h = close_failed w w' h
  handle_failed turn (commit batch) w w' e v h =
      let (r, same) = replies_failed receipt (commit_request runtime turn batch w) h in
      commit_failed turn batch w w' {e = e} (ground arith)
  handle_failed turn (get_command id) w w' e v h = ground arith
  handle_failed turn (lookup identity) w w' e v h = ground arith
  handle_failed turn hold_lock w w' e v h = hold_failed turn w w' h
  handle_failed turn list_outbox w w' e v h = ground arith
  handle_failed turn (events_of type id limit) w w' e v h = ground arith
  handle_failed turn (inbox row) w w' e v h =
      let (r, same) = replies_failed inbox_record (run_transaction turn (record_inbox row) w) h in
      run_transaction_failed turn (record_inbox row) w w' {e = e} (ground arith)
  handle_failed turn recover w w' e v h = ground arith
  handle_failed turn release_lock w w' e v h = release_failed w w' h
  handle_failed turn (checkpoint row) w w' e v h =
      let (r, same) = replies_failed saved (run_transaction turn (save_checkpoint row) w) h in
      run_transaction_failed turn (save_checkpoint row) w w' {e = e} (ground arith)
  handle_failed turn unknown w w' e v h = ground arith
