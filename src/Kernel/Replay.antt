-- ===== src/Kernel/Replay.antt =====
-- `replay` of packages/kernel/src/index.ts, on the histories that it accepts.
use native.Mathlib.Nat.{zero-add}
use ai_software_engineering.Prelude.{
  ℕ, ◌+◌, String, ◌≡◌, subst, ◌∙◌, inl, inr, false, Option, none, some, List, [], ◌∷◌, arith,
  eq_iff, Option-cases, length, includes, Result, ok, ◌>>=◌, >>=-eq-ok, throw_if-eq-ok,
}
use ai_software_engineering.Contracts.Canonical.{Runtime, canonical_json_sha256}
use ai_software_engineering.Contracts.Errors.{Failure, kernel, replay_invalid}
use ai_software_engineering.Contracts.Json.{Json}
use ai_software_engineering.Contracts.Envelopes.{SchemaRef, DomainEventEnvelope}
use ai_software_engineering.Contracts.Registry.{ContractRegistry}
use ai_software_engineering.Kernel.{
  AggregateDefinition, ReplayResult, own, validate_payload, replay_event, replay_from, replay,
  bad_aggregate_id,
}

-- One stream, from a version on: each event belongs to the aggregate, takes the next version, binds
-- its payload by the hash, and has an identity of its own.
abbrev pub IsStream :
    Runtime → String → String → ℕ → List String → List DomainEventEnvelope → Type 0
IsStream runtime type id version ids [] = Unit {0}
IsStream runtime type id version ids (e ∷ es) =
    ((e.aggregate_type ≡ type)
      × (e.aggregate_id ≡ id)
      × (e.aggregate_version ≡ version + 1)
      × (canonical_json_sha256 runtime e.payload ≡ e.payload_hash)
      × (includes e.event_id ids ≡ false))
    × IsStream runtime type id (version + 1) (e.event_id ∷ ids) es

-- The state that the events make, by the domain's `apply` alone.
unfoldable pub fold_events :
    {S : Type 0}
    → AggregateDefinition S
    → Option S
    → List DomainEventEnvelope
    → Result Failure (Option S)
fold_events domain state [] = ok state
fold_events domain state (e ∷ es) = do
  next ← domain.apply state e
  fold_events domain (some next) es

module _ {S : Type 0} (runtime : Runtime) (registry : ContractRegistry)
    (domain : AggregateDefinition S) where
  -- What `validate_payload` lets through carries the hash of its payload.
  validate_payload_hash :
      (ref : SchemaRef) (payload : Json) (hash schema : String)
      → validate_payload runtime registry ref payload hash schema ≡ ok tt
      → canonical_json_sha256 runtime payload ≡ hash
  unfolding validate_payload
  validate_payload_hash ref payload hash schema h =
      ground (arith, eq_iff (canonical_json_sha256 runtime payload) hash)

  -- An accepted event follows the stream, and its state is the one that `apply` makes.
  replay_event_sound :
      (id : String) (state : Option S) (version : ℕ) (ids : List String) (e : DomainEventEnvelope)
      (next : S)
      → replay_event runtime registry domain id state version ids e ≡ ok next
      → ((e.aggregate_type ≡ domain.aggregate_type)
          × (e.aggregate_id ≡ id)
          × (e.aggregate_version ≡ version + 1)
          × (canonical_json_sha256 runtime e.payload ≡ e.payload_hash)
          × (includes e.event_id ids ≡ false))
        × (domain.apply state e ≡ ok next)
  unfolding replay_event
  replay_event_sound id state version ids e next h =
      elim (Option-cases (own e.event_type domain.event_schemas)) [
        | inl unknown ↦ ground arith
        | inr (schema, known) ↦ ground (
          arith,
          eq_iff e.aggregate_type domain.aggregate_type,
          eq_iff e.aggregate_id id,
          validate_payload_hash e.payload_schema e.payload e.payload_hash schema,
        )
      ]

  pub replay_from_sound :
      (id : String) (state : Option S) (version : ℕ) (ids : List String)
      (history : List DomainEventEnvelope) (r : ReplayResult S)
      → replay_from runtime registry domain id state version ids history ≡ ok r
      → IsStream runtime domain.aggregate_type id version ids history
        × (fold_events domain state history ≡ ok r.state)
        × (r.version ≡ version + length history)
  unfolding replay_from fold_events
  replay_from_sound id state version ids [] r h = ground arith
  replay_from_sound id state version ids (e ∷ es) r h =
      let (next, step, rest) =
        >>=-eq-ok (replay_event runtime registry domain id state version ids e) _ h in
      let (facts, applied) = replay_event_sound id state version ids e next step in
      let (stream, folded, end) =
        replay_from_sound id (some next) (version + 1) (e.event_id ∷ ids) es r (
          subst
            (λ v. replay_from runtime registry domain id (some next) v (e.event_id ∷ ids) es ≡ ok r)
            facts.2 rest) in
      ((facts, stream), rw applied folded, omega (arith, end))

  -- A replayed history is one stream from version 1 on, with distinct event identities; the version is
  -- its length, and the state is the domain's fold of its events.
  pub replay_sound :
      (id : String) (history : List DomainEventEnvelope) (r : ReplayResult S)
      → replay runtime registry domain id history ≡ ok r
      → IsStream runtime domain.aggregate_type id 0 [] history
        × (fold_events domain none history ≡ ok r.state)
        × (r.version ≡ length history)
  unfolding replay
  replay_sound id history r h =
      let (stream, folded, end) =
        replay_from_sound id none 0 [] history r
          (throw_if-eq-ok (bad_aggregate_id id) (kernel replay_invalid)
            (replay_from runtime registry domain id none 0 [] history) h).1 in
      (stream, folded, end ∙ zero-add (length history))
