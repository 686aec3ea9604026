-- ===== src/Platform/Control/Admission.antt =====
-- The slots of packages/platform/src/server.ts: they are what the requests in flight own, and never more
-- than the limit, however the events interleave.
use ai_software_engineering.Prelude.{
  ℕ, suc, ◌+◌, ◌≤◌, ◌<◌, String, ◌≡◌, sym, ap, subst, inl, inr, Bool, true, false, ◌||◌, some, List,
  [], ◌∷◌, arith, ltb, leb, if◌then◌else◌, Bool-cases, Option-cases, byte_length,
}
use ai_software_engineering.Platform.Control.State.{
  ControlApiLimits, ServerState, Request, Environment,
}
use ai_software_engineering.Platform.Control.Checks.{Checked, refused, admitted, check_request}
use ai_software_engineering.Platform.Control.Slots.{
  Flight, Server, release_slot, find_flight, remove_flight, set_flight, Event, arrives, reads_body,
  times_out, closes, settle, take_slot, arrive, read_body, time_out, close, step, run,
}
use ai_software_engineering.Platform.Control.Kept.{check_request-IsKept, serve_flight-IsKept}

-- The slots that the flights own.
abbrev pub owned : List Flight → ℕ
owned [] = 0
owned (f ∷ fs) = if f.slot_owned then suc (owned fs) else owned fs

abbrev one_if : Bool → ℕ
one_if true = 1
one_if false = 0

pub record IsConsistent (server : Server) : Type 0 where
  pub counted : server.state.active_requests ≡ owned server.flights
  pub within : server.state.active_requests ≤ server.state.limits.max_concurrent_requests

owned-remove_flight :
    (number : ℕ) (fs : List Flight) (f : Flight)
    → find_flight number fs ≡ some f
    → owned fs ≡ one_if f.slot_owned + owned (remove_flight number fs)
unfolding find_flight remove_flight
owned-remove_flight number [] f h = cc h
owned-remove_flight number (g ∷ fs) f h = ground (arith, owned-remove_flight number fs f)

owned-set_flight :
    (flight : Flight) (fs : List Flight) (f : Flight)
    → find_flight flight.number fs ≡ some f
    → one_if f.slot_owned + owned (set_flight flight fs) ≡ one_if flight.slot_owned + owned fs
unfolding find_flight set_flight
owned-set_flight flight [] f h = cc h
owned-set_flight flight (g ∷ fs) f h = ground (arith, owned-set_flight flight fs f)

find_flight-number :
    (number : ℕ) (fs : List Flight) (f : Flight)
    → find_flight number fs ≡ some f
    → f.number ≡ number
unfolding find_flight
find_flight-number number [] f h = cc h
find_flight-number number (g ∷ fs) f h = ground (arith, find_flight-number number fs f)

time_out-IsConsistent :
    (server : Server) (flight : Flight)
    → find_flight flight.number server.flights ≡ some flight
    → IsConsistent server
    → IsConsistent (time_out server flight).0
unfolding time_out release_slot
time_out-IsConsistent server flight found c = ground (
  arith,
  owned-set_flight (record flight { timed_out = true; slot_owned = false }) server.flights flight
      found,
)

close-IsConsistent :
    (server : Server) (flight : Flight)
    → find_flight flight.number server.flights ≡ some flight
    → IsConsistent server
    → IsConsistent (close server flight).0
unfolding close release_slot
close-IsConsistent server flight found c = ground (
  arith,
  owned-set_flight (record flight { destroyed = true; slot_owned = false }) server.flights flight
      found,
)

read_body-IsConsistent :
    (env : Environment) (server : Server) (flight : Flight) (chunks : List ℕ)
    (operation_id : String) (now : ℕ)
    → find_flight flight.number server.flights ≡ some flight
    → IsConsistent server
    → IsConsistent (read_body env server flight chunks operation_id now).0
unfolding read_body release_slot
read_body-IsConsistent env server flight chunks operation_id now found c =
    let kept = serve_flight-IsKept env server.state flight chunks operation_id now in
    let same_limit = ap (λ (l : ControlApiLimits). l.max_concurrent_requests) kept.limits in
    ground (
      arith,
      kept.active,
      same_limit,
      owned-remove_flight flight.number server.flights flight found,
    )

leb-false : (a b : ℕ) → leb a b ≡ false → b < a
leb-false a b h = ground arith

settle-IsConsistent :
    (server : Server) (number : ℕ) (request : Request) (state : ServerState) (checked : Checked)
    → state.active_requests ≡ suc (owned server.flights)
    → state.active_requests ≤ state.limits.max_concurrent_requests
    → IsConsistent (settle server number request (state, checked)).0
unfolding settle
settle-IsConsistent server number request state (refused answer) counted within = record {
  counted = omega arith;
  within = omega arith;
}
settle-IsConsistent server number request state (admitted pathname) counted within = record {
  counted = counted;
  within = within;
}

arrive-IsConsistent :
    (env : Environment) (server : Server) (number : ℕ) (request : Request)
    (port finding_id : String) (now : ℕ)
    → IsConsistent server
    → IsConsistent (arrive env server number request port finding_id now).0
unfolding arrive
arrive-IsConsistent env server number request port finding_id now c =
    let kept = check_request-IsKept env (take_slot server.state) request port finding_id now in
    let same_limit = ap (λ (l : ControlApiLimits). l.max_concurrent_requests) kept.limits in
    let checked = check_request env (take_slot server.state) request port finding_id now in
    elim (Bool-cases (ltb server.state.limits.max_url_bytes (byte_length request.url_text))) [
      | inl long ↦ rw long c
      | inr short ↦
          elim (Bool-cases
            (leb server.state.limits.max_concurrent_requests server.state.active_requests)) [
              | inl full ↦ rw (short, full) c
              | inr room ↦
                  rw (short, room)
                    (settle-IsConsistent server number request checked.0 checked.1
                      (omega (arith, kept.active, c.counted))
                      (omega (
                        arith,
                        kept.active,
                        same_limit,
                        leb-false server.state.limits.max_concurrent_requests
                            server.state.active_requests room,
                      )))
            ]
    ]

found_itself :
    (number : ℕ) (fs : List Flight) (f : Flight)
    → find_flight number fs ≡ some f
    → find_flight f.number fs ≡ some f
found_itself number fs f h =
    subst (λ (n : ℕ). find_flight n fs ≡ some f) (sym (find_flight-number number fs f h)) h

step-IsConsistent :
    (env : Environment) (server : Server) (event : Event)
    → IsConsistent server
    → IsConsistent (step env server event).0
unfolding step
step-IsConsistent env server (arrives number request port finding_id now) c =
    elim (Option-cases (find_flight number server.flights)) [
      | inl fresh ↦
          rw (fresh, step) (arrive-IsConsistent env server number request port finding_id now c)
      | inr (flight, known) ↦ rw (known, step) c
    ]
step-IsConsistent env server (reads_body number chunks operation_id now) c =
    elim (Option-cases (find_flight number server.flights)) [
      | inl unknown ↦ rw (unknown, step) c
      | inr (flight, found) ↦
          rw (found, step)
            (read_body-IsConsistent env server flight chunks operation_id now
              (found_itself number server.flights flight found) c)
    ]
step-IsConsistent env server (times_out number) c =
    elim (Option-cases (find_flight number server.flights)) [
      | inl unknown ↦ rw (unknown, step) c
      | inr (flight, found) ↦ elim (Bool-cases (flight.destroyed || flight.timed_out)) [
        | inl over ↦ rw (found, over, step) c
        | inr waiting ↦
            rw (found, waiting, step)
              (time_out-IsConsistent server flight (found_itself number server.flights flight found)
                c)
      ]
    ]
step-IsConsistent env server (closes number) c =
    elim (Option-cases (find_flight number server.flights)) [
      | inl unknown ↦ rw (unknown, step) c
      | inr (flight, found) ↦
          rw (found, step)
            (close-IsConsistent server flight (found_itself number server.flights flight found) c)
    ]

-- From a server whose slots are what its requests in flight own, within the limit, it is so after any
-- events: requests that arrive, bodies that are read, timers and closed responses, in any order.
pub run-IsConsistent :
    (env : Environment) (events : List Event) (server : Server)
    → IsConsistent server
    → IsConsistent (run env events server)
unfolding run
run-IsConsistent env [] server c = c
run-IsConsistent env (e ∷ es) server c =
    run-IsConsistent env es (step env server e).0 (step-IsConsistent env server e c)
