-- ===== src/Persistence/Commit/Streams.antt =====
-- The journal as event streams: `commitBatch` extends one stream and leaves the others, and
-- `readEvents` reads a stream in order.
use mathlib.Core.List.{map-append, append-nil}
use ai_software_engineering.Prelude.{
  ℕ, ◌+◌, ◌≤◌, String, ◌≡◌, sym, ap, subst, inl, inr, true, ◌&&◌, none, [], ◌++◌, map, arith, ◌==◌,
  eq_iff, if◌then◌else◌, Bool-cases, &&-left, &&-right, length, take_all, length-append, length-map,
  keep_if-append, ok,
}
use ai_software_engineering.Contracts.Canonical.{Runtime}
use ai_software_engineering.Contracts.Envelopes.{JournalAppendBatch, PersistenceCommitReceipt}
use ai_software_engineering.Persistence.Tables.{EventRow, Tables}
use ai_software_engineering.Persistence.Commit.{
  event_row, commit_batch, stream_of, read_events, find_command_duplicate, identity_of,
}
use ai_software_engineering.Persistence.Commit.Append.{Appended}
use ai_software_engineering.Persistence.Commit.Counts.{
  Counts, IsContiguous, Counts-append, order-Counts, max_version-Counts, CarriesOn-Counts,
  stream-own, stream-other, map-event_json,
}
use ai_software_engineering.Persistence.Commit.Idempotent.{commit_cases}

module _ (runtime : Runtime) where
  -- The rows of a stream after a new command: the batch's events at the end of its own stream.
  stream_after :
      (batch : JournalAppendBatch) (receipt : PersistenceCommitReceipt) (before after : Tables)
      (type id : String)
      → Appended runtime batch receipt before after
      → stream_of type id after.event_journal
        ≡ stream_of type id before.event_journal
          ++ (if batch.stream.aggregate_type == type && batch.stream.aggregate_id == id
              then map (event_row runtime) batch.events
              else [])
  stream_after batch receipt before after type id a =
      let whole =
        keep_if-append (λ (r : EventRow). r.aggregate_type == type && r.aggregate_id == id)
          before.event_journal (map (event_row runtime) batch.events) in
      rw (a.events, whole)
        (elim (Bool-cases
          (batch.stream.aggregate_type == type && batch.stream.aggregate_id == id)) [
            | inl own ↦
                let t = (eq_iff batch.stream.aggregate_type type).0 (&&-left _ _ own) in
                let i = (eq_iff batch.stream.aggregate_id id).0 (&&-right _ _ own) in
                rw (
                  own,
                  ← t,
                  ← i,
                  stream-own runtime batch batch.stream.expected_version batch.events a.carries,
                )
            | inr other ↦ rw (
              other,
              stream-other runtime type id batch batch.stream.expected_version batch.events
                  a.carries other,
            )
          ])

  -- In a journal of contiguous streams, the version that a batch expects is its stream's length.
  expected_length :
      (batch : JournalAppendBatch) (receipt : PersistenceCommitReceipt) (before after : Tables)
      → IsContiguous before.event_journal
      → Appended runtime batch receipt before after
      → length
          (stream_of batch.stream.aggregate_type batch.stream.aggregate_id before.event_journal)
        ≡ batch.stream.expected_version
  expected_length batch receipt before after c a =
      let type = batch.stream.aggregate_type in
      let id = batch.stream.aggregate_id in
      omega (arith, max_version-Counts type id 0 before.event_journal (c.at type id), a.stood)

  own_length :
      (batch : JournalAppendBatch) (receipt : PersistenceCommitReceipt) (before after : Tables)
      (type id : String)
      → IsContiguous before.event_journal
      → Appended runtime batch receipt before after
      → (batch.stream.aggregate_type == type && batch.stream.aggregate_id == id) ≡ true
      → 0 + length (stream_of type id before.event_journal) ≡ batch.stream.expected_version
  own_length batch receipt before after type id c a own =
      let t = (eq_iff batch.stream.aggregate_type type).0 (&&-left _ _ own) in
      let i = (eq_iff batch.stream.aggregate_id id).0 (&&-right _ _ own) in
      rw (← t, ← i) (omega (arith, expected_length batch receipt before after c a))

  pub Appended-IsContiguous :
      (batch : JournalAppendBatch) (receipt : PersistenceCommitReceipt) (before after : Tables)
      → IsContiguous before.event_journal
      → Appended runtime batch receipt before after
      → IsContiguous after.event_journal
  Appended-IsContiguous batch receipt before after c a = record {
    at = λ type id.
        rw (stream_after batch receipt before after type id a)
          (elim (Bool-cases
            (batch.stream.aggregate_type == type && batch.stream.aggregate_id == id)) [
              | inl own ↦ rw own (
                  Counts-append 0 (stream_of type id before.event_journal)
                    (map (event_row runtime) batch.events) (c.at type id)
                    (subst (λ v. Counts v (map (event_row runtime) batch.events))
                      (sym (own_length batch receipt before after type id c a own))
                      (CarriesOn-Counts runtime batch batch.stream.expected_version batch.events
                        a.carries)))
              | inr other ↦ rw (other, append-nil) (c.at type id)
            ]);
  }

  read_whole :
      (tables : Tables) (type id : String) (limit : ℕ)
      → IsContiguous tables.event_journal
      → length (stream_of type id tables.event_journal) ≤ limit
      → read_events type id limit tables
        ≡ map (λ (r : EventRow). r.event_json) (stream_of type id tables.event_journal)
  unfolding read_events
  read_whole tables type id limit c fits =
      rw (order-Counts 0 (stream_of type id tables.event_journal) (c.at type id)) (
        take_all limit _ (
          rw (length-map (λ (r : EventRow). r.event_json) (stream_of type id tables.event_journal))
            fits))

  read_new :
      (batch : JournalAppendBatch) (before : Tables) (receipt : PersistenceCommitReceipt)
      (after : Tables) (type id : String) (limit : ℕ)
      → IsContiguous before.event_journal
      → Appended runtime batch receipt before after
      → length (stream_of type id after.event_journal) ≤ limit
      → read_events type id limit after
        ≡ read_events type id limit before
          ++ (if batch.stream.aggregate_type == type && batch.stream.aggregate_id == id
              then batch.events
              else [])
  read_new batch before receipt after type id limit c a fits =
      let grown = stream_after batch receipt before after type id a in
      let old = stream_of type id before.event_journal in
      let fits' : length old ≤ limit = omega (
        arith,
        ap length grown,
        length-append old (
            if batch.stream.aggregate_type == type && batch.stream.aggregate_id == id
            then map (event_row runtime) batch.events
            else []),
        fits,
      ) in
      rw
        (
          read_whole after type id limit (Appended-IsContiguous batch receipt before after c a)
              fits,
          read_whole before type id limit c fits',
          grown,
          map-append,
        )
        (ap (λ es. map (λ (r : EventRow). r.event_json) old ++ es)
          (elim (Bool-cases
            (batch.stream.aggregate_type == type && batch.stream.aggregate_id == id)) [
              | inl own ↦ rw own (map-event_json runtime batch.events)
              | inr other ↦ rw other
            ]))

  -- Whatever is committed, every stream of the journal stays the versions 1, 2, 3, ... in order.
  pub commit-IsContiguous :
      (batch : JournalAppendBatch) (before : Tables) (receipt : PersistenceCommitReceipt)
      (after : Tables)
      → IsContiguous before.event_journal
      → commit_batch runtime batch before ≡ ok (receipt, after)
      → IsContiguous after.event_journal
  commit-IsContiguous batch before receipt after c h =
      elim (commit_cases runtime batch before receipt after h) [
        | inl (row, _, _, same) ↦ rw same c
        | inr (_, a) ↦ Appended-IsContiguous batch receipt before after c a
      ]

  -- Reading after a new command is committed, with a limit that is no smaller than the stream, gives
  -- the events read before and then the batch's, on the batch's stream, and nothing new on another.
  pub read_events-commit :
      (batch : JournalAppendBatch) (before : Tables) (receipt : PersistenceCommitReceipt)
      (after : Tables) (type id : String) (limit : ℕ)
      → IsContiguous before.event_journal
      → find_command_duplicate (identity_of batch) before ≡ ok none
      → commit_batch runtime batch before ≡ ok (receipt, after)
      → length (stream_of type id after.event_journal) ≤ limit
      → read_events type id limit after
        ≡ read_events type id limit before
          ++ (if batch.stream.aggregate_type == type && batch.stream.aggregate_id == id
              then batch.events
              else [])
  read_events-commit batch before receipt after type id limit c first h fits =
      elim (commit_cases runtime batch before receipt after h) [
        | inl (row, found, _, _) ↦ cc (first, found)
        | inr (_, a) ↦ read_new batch before receipt after type id limit c a fits
      ]
