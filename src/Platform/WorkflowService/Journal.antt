-- ===== src/Platform/WorkflowService/Journal.antt =====
-- The client of the persistence worker, as the persistence of the workflow service: it fulfils the
-- laws, whatever others ask of the worker between the service's calls.
use ai_software_engineering.Prelude.{
  String, ◌≡◌, refl, sym, ap, subst, ◌∙◌, inl, inr, Option, none, some, arith, Bool-cases, Result,
  ok, err, ◌>>=◌, ◌>>◌, >>=-eq-ok, ok-injective, Result-cases,
}
use ai_software_engineering.Contracts.Canonical.{Runtime}
use ai_software_engineering.Contracts.Errors.{Failure}
use ai_software_engineering.Contracts.Envelopes.{
  JournalAppendBatch, PersistenceCommitReceipt, receipt_json,
}
use ai_software_engineering.Contracts.Registry.{ContractRegistry}
use ai_software_engineering.Kernel.{CommandIdentity}
use ai_software_engineering.Persistence.Tables.{Tables, ReceiptRow}
use ai_software_engineering.Persistence.Commit.{
  identity_of, find_command_duplicate, lookup_command_receipt, read_events,
}
use ai_software_engineering.Persistence.Worker.{
  commit as commit_asked, Turn, Worker, db, commit_request, handle,
}
use ai_software_engineering.Persistence.Worker.Atomic.{IsValid}
use ai_software_engineering.Persistence.Worker.Effects.{Write, Effect, stays, handle-Effect}
use ai_software_engineering.Persistence.Client.{
  Client, Moment, request_at, receipt_schema, validated, validate_batch, is_lookup_identity,
  lookup_receipt, read_stream,
}
use ai_software_engineering.Persistence.Client as client
use ai_software_engineering.Persistence.Client.Receipts.{
  IsCommitted, db_receipts, Write-IsCommitted, request-keeps, request_ran,
  commit_request-IsCommitted,
}
use ai_software_engineering.Platform.WorkflowService.{WorkflowPersistence}
use ai_software_engineering.Platform.WorkflowService.Interface.{IsJournal}

abbrev pub Committed : CommandIdentity → PersistenceCommitReceipt → Client → Type 0
Committed i r c = IsCommitted i r c.worker.durable

abbrev pub Sound : Client → Type 0
Sound c = IsValid c.worker

module _ (runtime : Runtime) (registry : ContractRegistry) where
  abbrev pub client_persistence : WorkflowPersistence Client
  client_persistence = record {
    lookup_command_receipt = lookup_receipt runtime registry;
    read_events = read_stream runtime registry;
    commit = client.commit runtime registry;
  }

  commit-Effect :
      (batch : JournalAppendBatch) (turn : Turn) (w : Worker)
      → IsValid w
      → Effect runtime w (commit_request runtime turn batch w).1
  commit-Effect batch turn w v =
      unfold handle in handle-Effect runtime turn (commit_asked batch) w v

  -- What every call keeps.
  module _ (P : Tables → Type 0)
      (keeps : (before after : Tables) → P before → Write runtime before after → P after) where
    lookup-keeps :
        (i : CommandIdentity) (c : Client)
        → Sound c
        → P c.worker.durable
        → Sound (lookup_receipt runtime registry i c).1
          × P (lookup_receipt runtime registry i c).1.worker.durable
    unfolding lookup_receipt
    lookup-keeps i c v p = elim (Bool-cases (is_lookup_identity i)) [
      | inr bad ↦ rw bad (v, p)
      | inl good ↦ rw good (
          request-keeps runtime registry P keeps (λ turn w. (db w >>= lookup_command_receipt i, w))
            (λ turn w _. stays refl) c.worker c.moments v p)
    ]

    read-keeps :
        (type id : String) (c : Client)
        → Sound c
        → P c.worker.durable
        → Sound (read_stream runtime registry type id c).1
          × P (read_stream runtime registry type id c).1.worker.durable
    unfolding read_stream
    read-keeps type id c v p =
        request-keeps runtime registry P keeps
          (λ turn w. (db w >>= λ t. ok (read_events type id 10000 t), w)) (λ turn w _. stays refl)
          c.worker c.moments v p

    commit-keeps :
        (batch : JournalAppendBatch) (c : Client)
        → Sound c
        → P c.worker.durable
        → Sound (client.commit runtime registry batch c).1
          × P (client.commit runtime registry batch c).1.worker.durable
    unfolding client.commit
    commit-keeps batch c v p = elim (Result-cases (validate_batch registry batch)) [
      | inr (e, bad) ↦ rw (bad, client.commit) (v, p)
      | inl (_, good) ↦
          rw (good, client.commit)
            (request-keeps runtime registry P keeps (λ turn. commit_request runtime turn batch)
              (commit-Effect batch) c.worker c.moments v p)
    ]

  -- The worker's answer to a lookup, under the client's tests of it.
  checked_lookup :
      (reply : Result Failure (Option PersistenceCommitReceipt))
      (o : Option PersistenceCommitReceipt)
      → (reply >>= λ found. elim found [
        | none ↦ ok none
        | some r ↦ validated registry receipt_schema (receipt_json r) >> ok (some r)
      ])
        ≡ ok o
      → reply ≡ ok o
  checked_lookup (ok none) o h = h
  checked_lookup (ok (some r)) o h = ground arith
  checked_lookup (err e) o h = cc h

  abbrev lookup_run :
      CommandIdentity → Turn → Worker → Result Failure (Option PersistenceCommitReceipt) × Worker
  lookup_run i turn w = (db w >>= lookup_command_receipt i, w)

  lookup_ran :
      (i : CommandIdentity) (w' : Worker) (o : Option PersistenceCommitReceipt) (turn : Turn)
      (w : Worker)
      → IsValid w
      → lookup_run i turn w ≡ (ok o, w')
      → lookup_command_receipt i w'.durable ≡ ok o
  unfolding lookup_command_receipt
  lookup_ran i w' o turn w v h =
      let (t, seen, found) = >>=-eq-ok (db w) _ (ap (λ p. p.0) h) in
      subst (λ (x : Worker). lookup_command_receipt i x.durable ≡ ok o) (ap (λ p. p.1) h)
        (rw (← db_receipts w t i v seen) found)

  -- A lookup that succeeds answers what the file holds.
  lookup_reads :
      (i : CommandIdentity) (c : Client) (o : Option PersistenceCommitReceipt)
      → Sound c
      → (lookup_receipt runtime registry i c).0 ≡ ok o
      → lookup_command_receipt i (lookup_receipt runtime registry i c).1.worker.durable ≡ ok o
  unfolding lookup_receipt
  lookup_reads i c o v h = elim (Bool-cases (is_lookup_identity i)) [
    | inr bad ↦ absurd (cc (rw (bad, lookup_receipt) at h))
    | inl good ↦
        let (turn, w, valid, ran) =
          request_ran runtime registry (lookup_run i) c.worker c.moments o v (
            checked_lookup (request_at runtime registry (lookup_run i) c.worker c.moments).0 o
              (rw (good, lookup_receipt) at h)) in
        rw (good, lookup_receipt)
          (lookup_ran i (request_at runtime registry (lookup_run i) c.worker c.moments).1.worker o
            turn w valid ran)
  ]

  looked_up :
      (i : CommandIdentity) (r : PersistenceCommitReceipt) (t : Tables)
      → lookup_command_receipt i t ≡ ok (some r)
      → IsCommitted i r t
  unfolding lookup_command_receipt
  looked_up i r t h =
      let (o, found, rest) = >>=-eq-ok (find_command_duplicate i t) _ h in go o found rest
    where
      go :
          (o : Option ReceiptRow)
          → find_command_duplicate i t ≡ ok o
          → ◌≡◌ {A = Result Failure (Option PersistenceCommitReceipt)}
              (elim o [ none ↦ ok none | some row ↦ ok (some row.receipt_json) ])
              (ok (some r))
          → IsCommitted i r t
      go none found rest = cc rest
      go (some row) found rest = (row, found, cc rest)

  found_in :
      (i : CommandIdentity) (r : PersistenceCommitReceipt) (o : Option PersistenceCommitReceipt)
      (t : Tables)
      → IsCommitted i r t
      → lookup_command_receipt i t ≡ ok o
      → o ≡ some r
  unfolding lookup_command_receipt
  found_in i r o t (row, found, same) h =
      sym (ok-injective (rw (found, lookup_command_receipt) at h)) ∙ ap some same

  commits_receipt :
      (batch : JournalAppendBatch) (r : PersistenceCommitReceipt) (c : Client)
      → Sound c
      → (client.commit runtime registry batch c).0 ≡ ok r
      → Committed (identity_of batch) r (client.commit runtime registry batch c).1
  unfolding client.commit
  commits_receipt batch r c v h = elim (Result-cases (validate_batch registry batch)) [
    | inr (e, bad) ↦ absurd (cc (rw (bad, client.commit) at h))
    | inl (_, good) ↦
        let run : Turn → Worker → Result Failure PersistenceCommitReceipt × Worker =
          λ turn. commit_request runtime turn batch in
        let (r', answer, rest) =
          >>=-eq-ok (request_at runtime registry run c.worker c.moments).0 _
            (rw (good, client.commit) at h) in
        let (_, _, same) = >>=-eq-ok (validated registry receipt_schema (receipt_json r')) _ rest in
        let (turn, w, valid, ran) =
          request_ran runtime registry run c.worker c.moments r v (answer ∙ same) in
        rw (good, client.commit)
          (commit_request-IsCommitted runtime registry turn batch w
            (request_at runtime registry run c.worker c.moments).1.worker r valid ran)
  ]

  -- The client fulfils what the workflow service needs: an answered commit and a found receipt are in
  -- the file, every call keeps the receipts there, and a lookup that is answered finds them.
  pub client-IsJournal : IsJournal client_persistence Committed Sound
  client-IsJournal = record {
    looked = λ i r c v h. looked_up i r _ (lookup_reads i c (some r) v h);
    found = λ i r o c v done h.
        found_in i r o _
          (lookup-keeps (IsCommitted i r) (Write-IsCommitted runtime registry i r) i c v done).1
          (lookup_reads i c o v h);
    commits = commits_receipt;
    sound_lookup = λ i c v. (lookup-keeps (λ _. Unit {0}) (λ _ _ _ _. tt) i c v tt).0;
    sound_read = λ type id c v. (read-keeps (λ _. Unit {0}) (λ _ _ _ _. tt) type id c v tt).0;
    sound_commit = λ batch c v. (commit-keeps (λ _. Unit {0}) (λ _ _ _ _. tt) batch c v tt).0;
    keeps_lookup = λ i j r c v done.
        (lookup-keeps (IsCommitted i r) (Write-IsCommitted runtime registry i r) j c v done).1;
    keeps_read = λ i r type id c v done.
        (read-keeps (IsCommitted i r) (Write-IsCommitted runtime registry i r) type id c v done).1;
    keeps_commit = λ i r batch c v done.
        (commit-keeps (IsCommitted i r) (Write-IsCommitted runtime registry i r) batch c v done).1;
  }
