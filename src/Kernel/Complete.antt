-- ===== src/Kernel/Complete.antt =====
-- `replay` of packages/kernel/src/index.ts, on the histories that it must accept.
use native.Mathlib.Nat.{zero-add}
use ai_software_engineering.Prelude.{
  ℕ, ◌+◌, String, ◌≡◌, ap, ◌∙◌, true, false, Option, none, some, List, [], ◌∷◌, arith, eq_iff,
  is_safe_integer, length, includes, All, ok, >>=-eq-ok, ok-injective,
}
use ai_software_engineering.Contracts.Canonical.{Runtime}
use ai_software_engineering.Contracts.Envelopes.{DomainEventEnvelope, event_json}
use ai_software_engineering.Contracts.Registry.{ContractRegistry}
use ai_software_engineering.Kernel.{
  AggregateDefinition, own, event_schema, bad_aggregate_id, check, validate_payload, breaks_stream,
  replay_event, replay_from, replay,
}
use ai_software_engineering.Kernel.Replay.{IsStream, fold_events}

module _ {S : Type 0} (runtime : Runtime) (registry : ContractRegistry)
    (domain : AggregateDefinition S) where
  -- The contracts of one event: its envelope, and its payload by the schema of its type.
  abbrev pub MeetsContracts : DomainEventEnvelope → Type 0
  MeetsContracts e =
      (check runtime registry event_schema (event_json e) ≡ ok tt)
      × (is_safe_integer e.aggregate_version ≡ true)
      × (schema : String) × (own e.event_type domain.event_schemas ≡ some schema)
      × (validate_payload runtime registry e.payload_schema e.payload e.payload_hash schema ≡ ok tt)

  replay_event_complete :
      (id : String) (state : Option S) (version : ℕ) (ids : List String) (e : DomainEventEnvelope)
      (next : S)
      → e.aggregate_type ≡ domain.aggregate_type
      → e.aggregate_id ≡ id
      → e.aggregate_version ≡ version + 1
      → includes e.event_id ids ≡ false
      → MeetsContracts e
      → domain.apply state e ≡ ok next
      → replay_event runtime registry domain id state version ids e ≡ ok next
  unfolding replay_event breaks_stream
  replay_event_complete id state version ids e next type own_id follows fresh
        (envelope, safe, schema, known, payload) applied =
      rw (envelope, known)
        (ground (
          arith,
          safe,
          payload,
          applied,
          eq_iff e.aggregate_type domain.aggregate_type,
          eq_iff e.aggregate_id id,
        ))

  replay_from_complete :
      (id : String) (state : Option S) (version : ℕ) (ids : List String)
      (history : List DomainEventEnvelope) (end : Option S)
      → IsStream runtime domain.aggregate_type id version ids history
      → All MeetsContracts history
      → fold_events domain state history ≡ ok end
      → replay_from runtime registry domain id state version ids history
        ≡ ok (record { state = end; version = version + length history })
  unfolding replay_from fold_events
  replay_from_complete id state version ids [] end stream met folded =
      ap (λ (x : Option S). ok (record { state = x; version = version })) (ok-injective folded)
      ∙ ap (λ v. ok (record { state = end; version = v })) (omega arith)
  replay_from_complete id state version ids (e ∷ es) end (facts, stream) met folded =
      let (next, applied, rest) = >>=-eq-ok (domain.apply state e) _ folded in
      let step =
        replay_event_complete id state version ids e next facts.0 facts.1 facts.2 facts.4 met.0
          applied in
      let after =
        replay_from_complete id (some next) (version + 1) (e.event_id ∷ ids) es end stream met.1
          rest in
      rw (step, facts.2) (after ∙ ap (λ v. ok (record { state = end; version = v })) (omega arith))

  -- A history of a well-formed identity that is one stream from version 1 on, whose events meet their
  -- contracts and fold by the domain, is replayed: to what it folds to, at the version of its length.
  pub replay_complete :
      (id : String) (history : List DomainEventEnvelope) (end : Option S)
      → bad_aggregate_id id ≡ false
      → IsStream runtime domain.aggregate_type id 0 [] history
      → All MeetsContracts history
      → fold_events domain none history ≡ ok end
      → replay runtime registry domain id history
        ≡ ok (record { state = end; version = length history })
  unfolding replay
  replay_complete id history end fits stream met folded = rw fits (
      replay_from_complete id none 0 [] history end stream met folded
      ∙ ap (λ v. ok (record { state = end; version = v })) (zero-add (length history)))
