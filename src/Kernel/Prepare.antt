-- ===== src/Kernel/Prepare.antt =====
-- `prepare` of packages/kernel/src/index.ts.
use ai_software_engineering.Prelude.{
  ℕ, ◌+◌, ◌≡◌, ap, subst, ◌∙◌, false, not, some, List, [], ◌∷◌, ◌++◌, arith, nat_eq, length,
  length-append, ok, ◌>>=◌, >>=-eq-ok, throw_if-eq-ok,
}
use ai_software_engineering.Contracts.Canonical.{Runtime}
use ai_software_engineering.Contracts.Envelopes.{
  CommandEnvelope, DomainEventEnvelope, JournalAppendBatch,
}
use ai_software_engineering.Contracts.Registry.{ContractRegistry}
use ai_software_engineering.Contracts.Errors.{kernel, version_conflict}
use ai_software_engineering.Kernel.Replay.{replay_sound}
use ai_software_engineering.Kernel.{
  AggregateDefinition, ReplayResult, TransitionContext, PreparedTransition, command_identity,
  admit_command, replay, prepare, prepared_batch, propose, expose,
}

-- The batch carries the identity of its command.
abbrev pub Identifies : Runtime → CommandEnvelope → JournalAppendBatch → Type 0
Identifies runtime command batch =
    (batch.command_id ≡ (command_identity runtime command).command_id)
    × (batch.idempotency_key ≡ (command_identity runtime command).idempotency_key)
    × (batch.effect_scope ≡ (command_identity runtime command).effect_scope)
    × (batch.payload_hash ≡ (command_identity runtime command).payload_hash)

agreed : (a b : ℕ) → not (nat_eq a b) ≡ false → a ≡ b
agreed a b h = ground arith

same_result :
    {S : Type 0} (r : ReplayResult S) (s : S) (n : ℕ)
    → r.state ≡ some s
    → r.version ≡ n
    → r ≡ record { state = some s; version = n }
same_result r s n e f = cc (e, f)

module _ {S : Type 0} (runtime : Runtime) (registry : ContractRegistry)
    (domain : AggregateDefinition S) where
  pub admit_command_same :
      (input command : CommandEnvelope)
      → admit_command runtime registry domain input ≡ ok command
      → command ≡ input
  unfolding admit_command
  admit_command_same input command h = ground arith

  -- The event that is proposed is the command's: at the next version of its stream, and caused by it.
  pub propose_sound :
      (command : CommandEnvelope) (context : TransitionContext) (replayed : ReplayResult S)
      (event : DomainEventEnvelope)
      → propose runtime registry domain command context replayed ≡ ok event
      → (event.aggregate_version ≡ replayed.version + 1)
        × (event.aggregate_id ≡ command.aggregate_id)
        × (event.aggregate_type ≡ command.aggregate_type)
        × (event.causation_id ≡ command.command_id)
        × (event.event_id ≡ context.event_id)
  unfolding propose
  propose_sound command context replayed event h = ground arith

  pub expose_sound :
      (command : CommandEnvelope) (history : List DomainEventEnvelope) (context : TransitionContext)
      (event : DomainEventEnvelope) (p : PreparedTransition S)
      → expose runtime registry domain command history context event ≡ ok p
      → (p.events ≡ event ∷ [])
        × (p.batch ≡ prepared_batch runtime registry domain command context event)
        × (r : ReplayResult S) × (replay runtime registry domain command.aggregate_id
              (history ++ event ∷ [])
            ≡ ok r)
        × (r.state ≡ some p.state)
  unfolding expose
  expose_sound command history context event p h = ground arith

  -- Inversion of `prepare`.
  pub prepare_steps :
      (input : CommandEnvelope) (history : List DomainEventEnvelope) (context : TransitionContext)
      (p : PreparedTransition S)
      → prepare runtime registry domain input history context ≡ ok p
      → (replayed : ReplayResult S) × (event : DomainEventEnvelope) × (replay runtime registry
            domain input.aggregate_id history
          ≡ ok replayed)
        × (input.expected_version ≡ replayed.version)
        × (propose runtime registry domain input context replayed ≡ ok event)
        × (expose runtime registry domain input history context event ≡ ok p)
  unfolding prepare
  prepare_steps input history context p h =
      let (command, admitted, h₁) = >>=-eq-ok (admit_command runtime registry domain input) _ h in
      let same : command ≡ input = admit_command_same input command admitted in
      let (replayed, before, h₂) =
        >>=-eq-ok (replay runtime registry domain command.aggregate_id history) _ h₁ in
      let (agree, h₃) =
        throw_if-eq-ok (not (nat_eq command.expected_version replayed.version))
          (kernel version_conflict)
          (propose runtime registry domain command context replayed
            >>= expose runtime registry domain command history context)
          h₂ in
      let (event, proposed, exposed) =
        >>=-eq-ok (propose runtime registry domain command context replayed)
          (expose runtime registry domain command history context) h₃ in
      (
        replayed,
        event,
        subst
            (λ (c : CommandEnvelope).
              replay runtime registry domain c.aggregate_id history ≡ ok replayed)
            same before,
        subst (λ (c : CommandEnvelope). c.expected_version ≡ replayed.version) same
            (agreed command.expected_version replayed.version agree),
        subst (λ c. propose runtime registry domain c context replayed ≡ ok event) same proposed,
        subst (λ c. expose runtime registry domain c history context event ≡ ok p) same exposed,
      )

  -- A prepared transition is what recovery will see. Its batch holds one event, caused by the command
  -- and at the version after the expected one; the expected version is the length of the history; and
  -- the history with the batch's event replays to just the state that was exposed.
  pub prepare_recovers :
      (input : CommandEnvelope) (history : List DomainEventEnvelope) (context : TransitionContext)
      (p : PreparedTransition S)
      → prepare runtime registry domain input history context ≡ ok p
      → (input.expected_version ≡ length history)
        × (event : DomainEventEnvelope) × (p.batch.events ≡ event ∷ [])
        × (event.aggregate_version ≡ length history + 1)
        × (event.causation_id ≡ input.command_id)
        × (replay runtime registry domain input.aggregate_id (history ++ p.batch.events)
            ≡ ok (record { state = some p.state; version = length history + 1 }))
  unfolding prepared_batch
  prepare_recovers input history context p h =
      let (replayed, event, before, agree, proposed, exposed) =
        prepare_steps input history context p h in
      let (next, _, _, caused, _) = propose_sound input context replayed event proposed in
      let (_, built, r, after, made) = expose_sound input history context event p exposed in
      let events : p.batch.events ≡ event ∷ [] = ap (λ (b : JournalAppendBatch). b.events) built in
      let (_, _, count) =
        replay_sound runtime registry domain input.aggregate_id history replayed before in
      let (_, _, count') =
        replay_sound runtime registry domain input.aggregate_id (history ++ event ∷ []) r after in
      (
        agree ∙ count,
        event,
        events,
        next ∙ ap (λ n. n + 1) count,
        caused,
        rw events (
            after
            ∙ ap ok (
                same_result r p.state (length history + 1) made
                  (count' ∙ length-append history (event ∷ [])))),
      )
