-- ===== src/Platform/Control/Stop.antt =====
-- The stop command of packages/platform/src/server.ts over its idempotency registry.
use ai_software_engineering.Prelude.{
  ℕ, ◌+◌, ◌<◌, String, ◌≡◌, sym, ap, subst, ◌∙◌, ◌≢◌, arith, eq_refl, ok, List, [], ◌∷◌, ◌⊎◌, inl,
  inr, All, length, refl,
}
use ai_software_engineering.Platform.Idempotency.{
  Registry, Lookup, Entry, miss, replay, conflict, get, outcome, lookup, store, put,
}
use ai_software_engineering.Platform.Idempotency.Evict.{prune-prune}
use ai_software_engineering.Platform.Idempotency.Answers.{entry}
use ai_software_engineering.Platform.Idempotency.Held.{
  IsHeld, prune-IsHeld, more-IsHeld, put-IsHeld, put-capacity, put-new-IsHeld, lookup-IsHeld,
}
use ai_software_engineering.Platform.Control.State.{ServerState, Answer, stop_accepted, Environment}
use ai_software_engineering.Platform.Control.Routes.{stop_payload_hash, record_stop, accept_stop}

-- The registry after the lookup of the handler: that lookup prunes it.
abbrev looked_up : String → String → ℕ → Registry → Registry
looked_up key hash now r = (lookup key hash now r).0

lookup_again :
    (key hash : String) (now : ℕ) (r : Registry)
    → (lookup key hash now (looked_up key hash now r)).1 ≡ (lookup key hash now r).1
unfolding lookup
lookup_again key hash now r = ap (λ es. outcome hash (get key es)) (prune-prune now r.entries)

put_succeeds :
    (key hash id : String) (now : ℕ) (r : Registry)
    → (lookup key hash now r).1 ≢ conflict
    → (put key hash id now (looked_up key hash now r)).1 ≡ ok tt
unfolding put store lookup
put_succeeds key hash id now r h = ground (arith, prune-prune now r.entries)

record_state :
    (state : ServerState) (key hash id : String) (now : ℕ)
    → (record_stop state key hash id now).0
      ≡ record state { idempotency = (put key hash id now state.idempotency).0 }
unfolding record_stop
record_state state key hash id now = ground arith

module _ (env : Environment) (state : ServerState) (key : String) (now : ℕ) where
  abbrev hash_of : String
  hash_of = stop_payload_hash env.runtime state.instance_id

  accept_first :
      (id : String)
      → (lookup key hash_of now state.idempotency).1 ≡ miss
      → accept_stop env state key id now ≡ (
        record state {
          idempotency = (put key hash_of id now (looked_up key hash_of now state.idempotency)).0;
        },
        stop_accepted id,
      )
  unfolding accept_stop record_stop
  accept_first id h =
      let done = put_succeeds key hash_of id now state.idempotency (λ e. cc (sym h ∙ e)) in
      ground (arith, h, done)

  accept_replay :
      (id known : String)
      → (lookup key hash_of now state.idempotency).1 ≡ replay known
      → (accept_stop env state key id now).1 ≡ stop_accepted known
  unfolding accept_stop record_stop
  accept_replay id known h =
      let done = put_succeeds key hash_of known now state.idempotency (λ e. cc (sym h ∙ e)) in
      ground (arith, h, done)

-- A stop command: its key, the operation that it would be, and its time.
pub record Stop : Type 0 where
  pub key : String
  pub operation_id : String
  pub time : ℕ

unfoldable pub run_stops : Environment → List Stop → ServerState → ServerState
unfolding accept_stop
run_stops env [] state = state
run_stops env (s ∷ ss) state =
    run_stops env ss (accept_stop env state s.key s.operation_id s.time).0

Lookup-values : (x : Lookup) → (x ≡ miss) ⊎ ((id : String) × (x ≡ replay id)) ⊎ (x ≡ conflict)
Lookup-values miss = inl refl
Lookup-values (replay id) = inr (inl (id, refl))
Lookup-values conflict = inr (inr refl)

-- A stop command changes the registry alone, by a lookup and at most one record.
accept_state :
    (env : Environment) (state : ServerState) (key id : String) (now : ℕ)
    → let hash = stop_payload_hash env.runtime state.instance_id in
      let looked = looked_up key hash now state.idempotency in
      ((accept_stop env state key id now).0 ≡ record state { idempotency = looked })
      ⊎ ((id' : String) × ((accept_stop env state key id now).0
            ≡ record state { idempotency = (put key hash id' now looked).0 }))
unfolding accept_stop
accept_state env state key id now =
    let hash = stop_payload_hash env.runtime state.instance_id in
    let looked = looked_up key hash now state.idempotency in
    elim (Lookup-values (lookup key hash now state.idempotency).1) [
      | inl h ↦ inr (
        id,
        rw (h, accept_stop) (record_state (record state { idempotency = looked }) key hash id now),
      )
      | inr (inl (known, h)) ↦ inr (
        known,
        rw (h, accept_stop)
            (record_state (record state { idempotency = looked }) key hash known now),
      )
      | inr (inr h) ↦ inl (rw (h, accept_stop) refl)
    ]

-- What other stop commands leave: the entry is held, and the limits are the same.
record Keeps (e : Entry) (n : ℕ) (before after : ServerState) : Type 0 where
  instance : after.instance_id ≡ before.instance_id
  capacity : after.idempotency.capacity ≡ before.idempotency.capacity
  held : IsHeld e n after.idempotency.entries

looked_up-IsHeld :
    (key hash : String) (now : ℕ) (r : Registry) (e : Entry) (n : ℕ)
    → now < e.expires_at
    → IsHeld e n r.entries
    → IsHeld e n (looked_up key hash now r).entries
unfolding lookup
looked_up-IsHeld key hash now r e n live held = prune-IsHeld now e n r.entries live held

looked_up-capacity :
    (key hash : String) (now : ℕ) (r : Registry) → (looked_up key hash now r).capacity ≡ r.capacity
unfolding lookup
looked_up-capacity key hash now r = refl

accept_stop-Keeps :
    (env : Environment) (state : ServerState) (key id : String) (now : ℕ) (e : Entry) (n : ℕ)
    → now < e.expires_at
    → n + 1 < state.idempotency.capacity
    → IsHeld e n state.idempotency.entries
    → Keeps e (n + 1) state (accept_stop env state key id now).0
accept_stop-Keeps env state key id now e n live room held =
    let hash = stop_payload_hash env.runtime state.instance_id in
    let looked = looked_up key hash now state.idempotency in
    let same = looked_up-capacity key hash now state.idempotency in
    let looked_held = looked_up-IsHeld key hash now state.idempotency e n live held in
    elim (accept_state env state key id now) [
      | inl found ↦ rw found (record {
        instance = refl;
        capacity = same;
        held = more-IsHeld e n looked.entries looked_held;
      })
      | inr (known, stored) ↦ rw stored (record {
        instance = refl;
        capacity = put-capacity key hash known now looked ∙ same;
        held =
            put-IsHeld key hash known now e n looked live (omega (arith, same, room)) looked_held;
      })
    ]

run_stops-Keeps :
    (env : Environment) (ss : List Stop) (state : ServerState) (e : Entry) (n : ℕ)
    → All (λ (s : Stop). s.time < e.expires_at) ss
    → n + length ss < state.idempotency.capacity
    → IsHeld e n state.idempotency.entries
    → Keeps e (n + length ss) state (run_stops env ss state)
unfolding run_stops
run_stops-Keeps env [] state e n live room held =
    subst (λ k. Keeps e k state state) (omega arith)
      (record { instance = refl; capacity = refl; held = held })
run_stops-Keeps env (s ∷ ss) state e n live room held =
    let next = (accept_stop env state s.key s.operation_id s.time).0 in
    let one =
      accept_stop-Keeps env state s.key s.operation_id s.time e n live.0 (omega (arith, room))
        held in
    let rest =
      run_stops-Keeps env ss next e (n + 1) live.1 (omega (arith, room, one.capacity)) one.held in
    subst (λ k. Keeps e k state (run_stops env ss next)) (omega arith)
      (record {
        instance = rest.instance ∙ one.instance;
        capacity = rest.capacity ∙ one.capacity;
        held = rest.held;
      })

-- A stop command under a key that has no live entry is accepted as the new operation. A later one under
-- that key is accepted as the same operation, if the entry is not expired and the stop commands under
-- any keys in between, of which none is later than that, are fewer than the capacity of the registry.
pub accept_stop_again :
    (env : Environment) (state : ServerState) (key id later_id : String) (now later : ℕ)
    (ss : List Stop)
    → (lookup key (stop_payload_hash env.runtime state.instance_id) now state.idempotency).1 ≡ miss
    → later < now + state.idempotency.ttl_ms
    → All (λ (s : Stop). s.time < now + state.idempotency.ttl_ms) ss
    → length ss < state.idempotency.capacity
    → ((accept_stop env state key id now).1 ≡ stop_accepted id)
      × ((accept_stop env
            (run_stops env ss (accept_stop env state key id now).0)
            key
            later_id
            later).1
          ≡ stop_accepted id)
unfolding lookup
accept_stop_again env state key id later_id now later ss new_key soon live room =
    let hash = stop_payload_hash env.runtime state.instance_id in
    let first = accept_first env state key now id new_key in
    let r = looked_up key hash now state.idempotency in
    let e = entry key hash id now r in
    let stored =
      put-new-IsHeld key hash id now r (lookup_again key hash now state.idempotency ∙ new_key) in
    let state' : ServerState = record state { idempotency = (put key hash id now r).0 } in
    let kept =
      run_stops-Keeps env ss state' e 0 live (omega (arith, room, put-capacity key hash id now r))
        stored in
    let after = run_stops env ss state' in
    let found : (lookup key hash later after.idempotency).1 ≡ replay id =
      lookup-IsHeld hash later e (0 + length ss) after.idempotency soon kept.held
      ∙ ground (arith, eq_refl hash) in
    (
      ap (λ (p : ServerState × Answer). p.1) first,
      subst
          (λ (p : ServerState × Answer).
            (accept_stop env (run_stops env ss p.0) key later_id later).1 ≡ stop_accepted id)
          (sym first)
          (accept_replay env after key later later_id id (
            ap
              (λ (i : String).
                (lookup key (stop_payload_hash env.runtime i) later after.idempotency).1)
              kept.instance
            ∙ found)),
    )
