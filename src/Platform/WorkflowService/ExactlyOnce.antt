-- ===== src/Platform/WorkflowService/ExactlyOnce.antt =====
-- A command is executed once: its receipt is in the journal when the service answers, and every later
-- answer to the command carries that receipt. This rests on laws of the persistence, which the
-- worker's client fulfils.
use ai_software_engineering.Prelude.{
  ◌≡◌, refl, sym, ap, subst, ◌∙◌, inl, inr, Option, none, some, List, arith, Bool-cases, Result, ok,
  err, Result-cases,
}
use ai_software_engineering.Contracts.Canonical.{Runtime}
use ai_software_engineering.Contracts.Errors.{Failure}
use ai_software_engineering.Contracts.Envelopes.{
  CommandEnvelope, DomainEventEnvelope, PersistenceCommitReceipt,
}
use ai_software_engineering.Contracts.Registry.{ContractRegistry}
use ai_software_engineering.Kernel.{
  TransitionContext, CommandIdentity, PreparedTransition, own, command_identity, admit_command,
  prepared_batch, prepare,
}
use ai_software_engineering.Kernel.Prepare.{admit_command_same, expose_sound, prepare_steps}
use ai_software_engineering.Workflow.{WorkflowRunState, workflow_run_definition}
use ai_software_engineering.Persistence.Commit.{identity_of}
use ai_software_engineering.Platform.WorkflowService.{
  WorkflowPersistence, WorkflowCommandResult, is_race, replayed_result, bound_result,
  foreign_receipt, result_of, answered, try_commit, recover_race, execute_new, execute,
}
use ai_software_engineering.Platform.WorkflowService.Interface.{
  IsJournal, then-ok, then-ok, then-ok, then-found, then-found, then-found, then_cases, then_cases,
  then_cases,
}

module _ (runtime : Runtime) (registry : ContractRegistry) where
  prepare_identity :
      (command : CommandEnvelope) (history : List DomainEventEnvelope) (context : TransitionContext)
      (p : PreparedTransition WorkflowRunState)
      → prepare runtime registry workflow_run_definition command history context ≡ ok p
      → identity_of p.batch ≡ command_identity runtime command
  unfolding prepared_batch
  prepare_identity command history context p h =
      let (_, event, _, _, _, exposed) =
        prepare_steps runtime registry workflow_run_definition command history context p h in
      let (_, built, _, _, _) =
        expose_sound runtime registry workflow_run_definition command history context event p
          exposed in
      ap identity_of built

  bound_receipt :
      (command : CommandEnvelope) (receipt : PersistenceCommitReceipt)
      (es : List DomainEventEnvelope) (x : WorkflowCommandResult)
      → bound_result runtime registry command receipt es ≡ ok x
      → x.receipt ≡ receipt
  unfolding bound_result replayed_result
  bound_receipt command receipt es x h = ground arith

  module _ {W : Type 0} (persistence_of : WorkflowPersistence W)
      (Committed : CommandIdentity → PersistenceCommitReceipt → W → Type 0) (Sound : W → Type 0)
      (laws : IsJournal persistence_of Committed Sound) where
    result_Committed :
        (command : CommandEnvelope) (receipt : PersistenceCommitReceipt) (i : CommandIdentity)
        (w w' : W) (x : WorkflowCommandResult)
        → Sound w
        → Committed i receipt w
        → result_of runtime registry persistence_of command receipt w ≡ (ok x, w')
        → Committed i x.receipt w' × Sound w'
    unfolding result_of
    result_Committed command receipt i w w' x sound c h =
        elim (Bool-cases (foreign_receipt runtime registry command receipt)) [
          | inl foreign ↦ absurd (cc (rw foreign at h))
          | inr own ↦
              let (es, _, bound) =
                then-ok (persistence_of.read_events command.aggregate_type command.aggregate_id w) _
                  (rw own at h) in
              let read =
                (persistence_of.read_events command.aggregate_type command.aggregate_id w).1 in
              subst (λ r. Committed i r w' × Sound w')
                (sym (bound_receipt command receipt es x (ap (λ p. p.0) bound)))
                (subst (λ v. Committed i receipt v × Sound v) (ap (λ p. p.1) bound)
                  (
                    laws.keeps_read i receipt command.aggregate_type command.aggregate_id w sound c,
                    laws.sound_read command.aggregate_type command.aggregate_id w sound,
                  ))
        ]

    try_Committed :
        (command : CommandEnvelope) (context : TransitionContext) (w w' : W)
        (o : Result Failure PersistenceCommitReceipt)
        → Sound w
        → try_commit runtime registry persistence_of command context w ≡ (o, w')
        → Sound w'
          × ((r : PersistenceCommitReceipt)
              → o ≡ ok r
              → Committed (command_identity runtime command) r w')
    unfolding try_commit
    try_Committed command context w w' o sound h =
        let type = command.aggregate_type in
        let id = command.aggregate_id in
        let read = (persistence_of.read_events type id w).1 in
        let still = laws.sound_read type id w sound in
        let failed : (e : Failure) → (o, w') ≡ (err e, read) → _ = λ e stop.
          (subst Sound (sym (ap (λ p. p.1) stop)) still, λ r done. cc (ap (λ p. p.0) stop, done)) in
        elim (then_cases (persistence_of.read_events type id w) _ h) [
          | inr (e, stop) ↦ failed e stop
          | inl (history, _, step) ↦
              elim (Result-cases
                (prepare runtime registry workflow_run_definition command history context)) [
                  | inr (e, bad) ↦ failed e (sym (rw bad at step))
                  | inl (p, good) ↦
                      let sent = rw good at step in
                      (
                        subst Sound (ap (λ q. q.1) sent) (laws.sound_commit p.batch read still),
                        λ r done.
                            subst (λ i. Committed i r w')
                              (prepare_identity command history context p good)
                              (subst (Committed (identity_of p.batch) r) (ap (λ q. q.1) sent)
                                (laws.commits p.batch r read still (ap (λ q. q.0) sent ∙ done))),
                      )
                ]
        ]

    -- After a lookup that succeeds, its receipt or what is done otherwise gives a committed receipt.
    answered-Committed :
        (command : CommandEnvelope) (otherwise : W → Result Failure WorkflowCommandResult × W)
        (o : Option PersistenceCommitReceipt) (w w' : W) (x : WorkflowCommandResult)
        → Sound w
        → (persistence_of.lookup_command_receipt (command_identity runtime command) w).0 ≡ ok o
        → (Sound (persistence_of.lookup_command_receipt (command_identity runtime command) w).1
            → otherwise
                (persistence_of.lookup_command_receipt (command_identity runtime command) w).1
              ≡ (ok x, w')
            → Committed (command_identity runtime command) x.receipt w' × Sound w')
        → answered runtime registry persistence_of command otherwise o
            (persistence_of.lookup_command_receipt (command_identity runtime command) w).1
          ≡ (ok x, w')
        → Committed (command_identity runtime command) x.receipt w' × Sound w'
    unfolding answered
    answered-Committed command otherwise none w w' x sound found then_on h =
        then_on (laws.sound_lookup (command_identity runtime command) w sound) h
    answered-Committed command otherwise (some receipt) w w' x sound found then_on h =
        let i = command_identity runtime command in
        result_Committed command receipt i (persistence_of.lookup_command_receipt i w).1 w' x
          (laws.sound_lookup i w sound) (laws.looked i receipt w sound found) h

    recover_Committed :
        (command : CommandEnvelope) (e : Failure) (w w' : W) (x : WorkflowCommandResult)
        → Sound w
        → recover_race runtime registry persistence_of command e w ≡ (ok x, w')
        → Committed (command_identity runtime command) x.receipt w' × Sound w'
    unfolding recover_race
    recover_Committed command e w w' x sound h = elim (Bool-cases (is_race e)) [
      | inr other ↦ absurd (cc (rw other at h))
      | inl raced ↦
          let i = command_identity runtime command in
          let (o, found, rest) =
            then-ok (persistence_of.lookup_command_receipt i w) _ (rw raced at h) in
          answered-Committed command (λ w₁. (err e, w₁)) o w w' x sound found
            (λ _ failed. cc failed) rest
    ]

    new_Committed :
        (command : CommandEnvelope) (context : TransitionContext) (w w' : W)
        (x : WorkflowCommandResult)
        → Sound w
        → execute_new runtime registry persistence_of command context w ≡ (ok x, w')
        → Committed (command_identity runtime command) x.receipt w' × Sound w'
    unfolding execute_new
    new_Committed command context w w' x sound h =
        let w₁ = (try_commit runtime registry persistence_of command context w).1 in
        let (still, done) =
          try_Committed command context w w₁
            (try_commit runtime registry persistence_of command context w).0 sound refl in
        elim (Result-cases (try_commit runtime registry persistence_of command context w).0) [
          | inl (receipt, good) ↦
              result_Committed command receipt (command_identity runtime command) w₁ w' x still
                (done receipt good) (rw (good, execute_new) at h)
          | inr (e, bad) ↦ recover_Committed command e w₁ w' x still (rw (bad, execute_new) at h)
        ]

    -- With a persistence that obeys the laws, in a sound world: when `execute` answers a command, the
    -- receipt in its answer is committed for that command's identity, whether it found the receipt,
    -- committed it, or lost a race to another committer.
    pub execute-Committed :
        (input : CommandEnvelope) (context : TransitionContext) (w w' : W)
        (x : WorkflowCommandResult)
        → Sound w
        → execute runtime registry persistence_of input context w ≡ (ok x, w')
        → Committed (command_identity runtime input) x.receipt w' × Sound w'
    unfolding execute
    execute-Committed input context w w' x sound h =
        elim (Result-cases (admit_command runtime registry workflow_run_definition input)) [
          | inr (e, refused) ↦ absurd (cc (rw (refused, execute) at h))
          | inl (command, admitted) ↦
              let same =
                admit_command_same runtime registry workflow_run_definition input command
                  admitted in
              let i = command_identity runtime command in
              let (o, found, rest) =
                then-ok (persistence_of.lookup_command_receipt i w) _
                  (rw (admitted, execute) at h) in
              subst
                (λ (c : CommandEnvelope).
                  Committed (command_identity runtime c) x.receipt w' × Sound w')
                same
                (answered-Committed command
                  (execute_new runtime registry persistence_of command context) o w w' x sound found
                  (λ still. new_Committed command context _ w' x still) rest)
        ]

    result_receipt :
        (command : CommandEnvelope) (receipt : PersistenceCommitReceipt) (w w' : W)
        (x : WorkflowCommandResult)
        → result_of runtime registry persistence_of command receipt w ≡ (ok x, w')
        → x.receipt ≡ receipt
    unfolding result_of
    result_receipt command receipt w w' x h =
        elim (Bool-cases (foreign_receipt runtime registry command receipt)) [
          | inl foreign ↦ absurd (cc (rw foreign at h))
          | inr own ↦
              let (es, _, bound) =
                then-ok (persistence_of.read_events command.aggregate_type command.aggregate_id w) _
                  (rw own at h) in
              bound_receipt command receipt es x (ap (λ p. p.0) bound)
        ]

    -- With a persistence that obeys the laws, from a sound world: a command that was answered is not
    -- decided again. When the lookup of a retry succeeds, the retry is the result of the first receipt,
    -- with no preparation and no commit.
    pub execute_again :
        (input : CommandEnvelope) (first second : TransitionContext) (w w' : W)
        (x : WorkflowCommandResult) (o : Option PersistenceCommitReceipt)
        → Sound w
        → execute runtime registry persistence_of input first w ≡ (ok x, w')
        → (persistence_of.lookup_command_receipt (command_identity runtime input) w').0 ≡ ok o
        → execute runtime registry persistence_of input second w'
          ≡ result_of runtime registry persistence_of input x.receipt
              (persistence_of.lookup_command_receipt (command_identity runtime input) w').1
    unfolding execute
    execute_again input first second w w' x o sound h found =
        elim (Result-cases (admit_command runtime registry workflow_run_definition input)) [
          | inr (e, refused) ↦ absurd (cc (rw (refused, execute) at h))
          | inl (command, admitted) ↦
              let same =
                admit_command_same runtime registry workflow_run_definition input command
                  admitted in
              let (c, still) = execute-Committed input first w w' x sound h in
              let known =
                laws.found (command_identity runtime input) x.receipt o w' still c found in
              let admitted' =
                subst (λ c. admit_command runtime registry workflow_run_definition input ≡ ok c)
                  same admitted in
              rw (admitted', execute)
                (then-found
                    (persistence_of.lookup_command_receipt (command_identity runtime input) w') _
                    (found ∙ ap ok known)
                  ∙ (unfold answered in refl))
        ]

    looked_at :
        (input : CommandEnvelope) (context : TransitionContext) (w w' : W)
        (x : WorkflowCommandResult)
        → execute runtime registry persistence_of input context w ≡ (ok x, w')
        → (o : Option PersistenceCommitReceipt) × ((persistence_of.lookup_command_receipt
              (command_identity runtime input)
              w).0
            ≡ ok o)
    unfolding execute
    looked_at input context w w' x h =
        elim (Result-cases (admit_command runtime registry workflow_run_definition input)) [
          | inr (e, refused) ↦ absurd (cc (rw (refused, execute) at h))
          | inl (command, admitted) ↦
              let (o, found, _) =
                then-ok (persistence_of.lookup_command_receipt (command_identity runtime command) w)
                  _ (rw (admitted, execute) at h) in
              (
                o,
                subst
                    (λ c.
                      (persistence_of.lookup_command_receipt (command_identity runtime c) w).0
                      ≡ ok o)
                    (admit_command_same runtime registry workflow_run_definition input command
                      admitted)
                    found,
              )
        ]

    -- With a persistence that obeys the laws, from a sound world: an answer to a command and the answer
    -- to its retry carry one receipt, whatever identities and time the retry is given.
    pub execute_once :
        (input : CommandEnvelope) (first second : TransitionContext) (w w' w'' : W)
        (x y : WorkflowCommandResult)
        → Sound w
        → execute runtime registry persistence_of input first w ≡ (ok x, w')
        → execute runtime registry persistence_of input second w' ≡ (ok y, w'')
        → y.receipt ≡ x.receipt
    execute_once input first second w w' w'' x y sound h h' =
        let (o, found) = looked_at input second w' w'' y h' in
        result_receipt input x.receipt
          (persistence_of.lookup_command_receipt (command_identity runtime input) w').1 w'' y
          (sym (execute_again input first second w w' x o sound h found) ∙ h')
