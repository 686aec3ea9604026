-- ===== src/Persistence/Inbox/Laws.antt =====
-- What `recordInbox` answers for a record that it has seen, and that checkpoints only move forward.
use ai_software_engineering.Prelude.{
  ◌≤◌, String, ◌≡◌, refl, sym, ap, subst, ◌∙◌, ◌≢◌, ◌⊎◌, inl, inr, false, Option, none, some, List,
  [], ◌∷◌, ◌++◌, arith, ◌==◌, eq_iff, eq_refl, if◌then◌else◌, Bool-cases, keep_if, keep_if-append,
  ok, >>=-eq-ok, ok-injective,
}
use ai_software_engineering.Persistence.Tables.{duplicate, InboxRow, CheckpointRow, Tables}
use ai_software_engineering.Persistence.Inbox.{
  same_result, insert_inbox, known_result, answer_inbox, record_inbox, find_checkpoint,
  upsert_checkpoint, moves_backwards, save_checkpoint,
}

known_none : (new : InboxRow) (rows : List InboxRow) → known_result new rows ≡ ok none → rows ≡ []
unfolding known_result
known_none new [] h = refl
known_none new (row ∷ []) h = ground arith
known_none new (row ∷ row' ∷ rows) h = cc

known_same : (new : InboxRow) → known_result new (new ∷ []) ≡ ok (some new)
unfolding known_result
known_same new = simp eq_refl

insert_inbox_last :
    (row : InboxRow) (rows : List InboxRow) {rows' : List InboxRow}
    → insert_inbox row rows ≡ ok rows'
    → rows' ≡ rows ++ row ∷ []
unfolding insert_inbox
insert_inbox_last row rows h = ground arith

-- A record is in the inbox already, or it is added at the end.
pub record_inbox_cases :
    (new : InboxRow) (before : Tables) (answer : InboxRow) (after : Tables)
    → record_inbox new before ≡ ok (answer, after)
    → ((row : InboxRow) × (known_result new (keep_if (same_result new) before.inbox)
          ≡ ok (some row))
        × (answer ≡ record row { status = duplicate })
        × (after ≡ before))
      ⊎ ((known_result new (keep_if (same_result new) before.inbox) ≡ ok none)
          × (answer ≡ new)
          × (after ≡ record before { inbox = before.inbox ++ new ∷ [] }))
unfolding record_inbox answer_inbox
record_inbox_cases new before answer after h =
    let (existing, known, h₁) =
      >>=-eq-ok (known_result new (keep_if (same_result new) before.inbox)) _ h in
    go existing known h₁
  where
    go :
        (existing : Option InboxRow)
        → known_result new (keep_if (same_result new) before.inbox) ≡ ok existing
        → answer_inbox new before existing ≡ ok (answer, after)
        → ((row : InboxRow) × (known_result new (keep_if (same_result new) before.inbox)
              ≡ ok (some row))
            × (answer ≡ record row { status = duplicate })
            × (after ≡ before))
          ⊎ ((known_result new (keep_if (same_result new) before.inbox) ≡ ok none)
              × (answer ≡ new)
              × (after ≡ record before { inbox = before.inbox ++ new ∷ [] }))
    go none known rest =
        let (rows, inserted, done) = >>=-eq-ok (insert_inbox new before.inbox) _ rest in
        inr (
          known,
          sym (ap (λ p. p.0) (ok-injective done)),
          sym (ap (λ p. p.1) (ok-injective done))
              ∙ ap (λ rows. record before { inbox = rows })
                  (insert_inbox_last new before.inbox inserted),
        )
    go (some row) known rest =
        let e = ok-injective rest in inl (row, known, sym (ap (λ p. p.0) e), sym (ap (λ p. p.1) e))

-- Recording a result again, in the tables that the first time left, answers with the recorded row
-- marked as a duplicate, and changes no table.
pub record_inbox_again :
    (new : InboxRow) (before : Tables) (answer : InboxRow) (after : Tables)
    → record_inbox new before ≡ ok (answer, after)
    → record_inbox new after ≡ ok (record answer { status = duplicate }, after)
record_inbox_again new before answer after h = elim (record_inbox_cases new before answer after h) [
  | inl (row, known, same, unchanged) ↦ rw same (
      subst (λ t. record_inbox new t ≡ ok (record row { status = duplicate }, t)) (sym unchanged)
        (unfold record_inbox answer_inbox in rw known))
  | inr (first, same, added) ↦
      let kept = keep_if-append (same_result new) before.inbox (new ∷ []) in
      unfold record_inbox answer_inbox in
      rw (added, kept, known_none new _ first, eq_refl new.result_id, known_same new, same)
]

find-upsert :
    (new : CheckpointRow) (rows : List CheckpointRow)
    → find_checkpoint new.projection_name (upsert_checkpoint new rows) ≡ some new
unfolding find_checkpoint upsert_checkpoint
find-upsert new [] = simp eq_refl
find-upsert new (row ∷ rows) = ground (arith, eq_refl new.projection_name, find-upsert new rows)

find-upsert_other :
    (new : CheckpointRow) (rows : List CheckpointRow) (name : String)
    → name ≢ new.projection_name
    → find_checkpoint name (upsert_checkpoint new rows) ≡ find_checkpoint name rows
unfolding find_checkpoint upsert_checkpoint
find-upsert_other new [] name h = ground (arith, eq_iff new.projection_name name)
find-upsert_other new (row ∷ rows) name h = ground (
  arith,
  eq_iff new.projection_name name,
  eq_iff row.projection_name name,
  eq_iff row.projection_name new.projection_name,
  find-upsert_other new rows name h,
)

pub save_steps :
    (new : CheckpointRow) (before : Tables) (answer : CheckpointRow) (after : Tables)
    → save_checkpoint new before ≡ ok (answer, after)
    → (moves_backwards new (find_checkpoint new.projection_name before.projection_checkpoints)
        ≡ ok false)
      × (answer ≡ new)
      × (after ≡ record before {
        projection_checkpoints = upsert_checkpoint new before.projection_checkpoints;
      })
unfolding save_checkpoint
save_steps new before answer after h = ground arith

forward :
    (new old : CheckpointRow)
    → moves_backwards new (some old) ≡ ok false
    → old.source_sequence ≤ new.source_sequence
unfolding moves_backwards
forward new old h = ground arith

-- After a checkpoint is saved, its projection has just that checkpoint, and every other projection
-- has the one that it had.
pub find-save_checkpoint :
    (new : CheckpointRow) (before : Tables) (answer : CheckpointRow) (after : Tables)
    (name : String)
    → save_checkpoint new before ≡ ok (answer, after)
    → find_checkpoint name after.projection_checkpoints ≡ (
        if name == new.projection_name
        then some new
        else find_checkpoint name before.projection_checkpoints)
find-save_checkpoint new before answer after name h =
    let (_, _, saved) = save_steps new before answer after h in
    rw saved (elim (Bool-cases (name == new.projection_name)) [
      | inl same ↦
          rw (same, (eq_iff name new.projection_name).0 same)
            (find-upsert new before.projection_checkpoints)
      | inr other ↦ rw other (
          find-upsert_other new before.projection_checkpoints name
            (λ same. cc ((eq_iff name new.projection_name).1 same, other)))
    ])

-- Saving a checkpoint moves no projection backwards: one that has a checkpoint still has one, whose
-- source sequence is no smaller.
pub save_checkpoint_forward :
    (new : CheckpointRow) (before : Tables) (answer : CheckpointRow) (after : Tables)
    (name : String) (old : CheckpointRow)
    → save_checkpoint new before ≡ ok (answer, after)
    → find_checkpoint name before.projection_checkpoints ≡ some old
    → (now : CheckpointRow) × (find_checkpoint name after.projection_checkpoints ≡ some now)
      × (old.source_sequence ≤ now.source_sequence)
save_checkpoint_forward new before answer after name old h was =
    let found = find-save_checkpoint new before answer after name h in
    elim (Bool-cases (name == new.projection_name)) [
      | inl same ↦
          let (kept, _, _) = save_steps new before answer after h in
          (
            new,
            rw same at found,
            forward new old (
                subst (λ o. moves_backwards new o ≡ ok false)
                  (ap (λ n. find_checkpoint n before.projection_checkpoints)
                      (sym ((eq_iff name new.projection_name).0 same))
                    ∙ was)
                  kept),
          )
      | inr other ↦ (old, rw (other, was) at found, ground arith)
    ]
