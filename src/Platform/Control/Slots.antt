-- ===== src/Platform/Control/Slots.antt =====
-- packages/platform/src/server.ts: the requests in flight, and the events that move them: a request
-- arrives, its body is read, its timer fires, its response is closed. Each holds a slot of
-- `activeRequests` until `releaseSlot`.
use mathlib.Core.Option.{map as map_option}
use ai_software_engineering.Prelude.{
  ℕ, ◌+◌, ◌-◌, String, Bool, true, false, ◌||◌, Option, none, some, List, [], ◌∷◌, ltb, leb, nat_eq,
  if◌then◌else◌, byte_length,
}
use ai_software_engineering.Platform.Control.State.{
  ServerState, Request, Answer, problem, Environment,
}
use ai_software_engineering.Platform.Control.Checks.{Checked, refused, admitted, check_request}
use ai_software_engineering.Platform.Control.Routes.{send_json, after_body}

-- The variables of one call of the handler that waits for the body.
pub record Flight : Type 0 where
  pub number : ℕ
  pub request : Request
  pub pathname : String
  pub slot_owned : Bool
  pub timed_out : Bool
  pub destroyed : Bool

pub record Server : Type 0 where
  pub state : ServerState
  pub flights : List Flight

-- `releaseSlot`
unfoldable pub release_slot : Flight → ServerState → Flight × ServerState
release_slot flight state =
    if flight.slot_owned
    then (
      record flight { slot_owned = false },
      record state { active_requests = state.active_requests - 1 },
    )
    else (flight, state)

unfoldable pub find_flight : ℕ → List Flight → Option Flight
find_flight number [] = none
find_flight number (f ∷ fs) = if nat_eq f.number number then some f else find_flight number fs

unfoldable pub remove_flight : ℕ → List Flight → List Flight
remove_flight number [] = []
remove_flight number (f ∷ fs) = if nat_eq f.number number then fs else f ∷ remove_flight number fs

unfoldable pub set_flight : Flight → List Flight → List Flight
set_flight flight [] = []
set_flight flight (f ∷ fs) =
    if nat_eq f.number flight.number then flight ∷ fs else f ∷ set_flight flight fs

-- What happens, with what the code draws from its environment: identities, the time, the chunks.
pub data Event : Type 0 where
  arrives : ℕ → Request → String → String → ℕ → Event
  reads_body : ℕ → List ℕ → String → ℕ → Event
  times_out : ℕ → Event
  closes : ℕ → Event

-- What the checks decide: the answer, and the slot given back in the `finally`, or a flight.
unfoldable pub settle : Server → ℕ → Request → ServerState × Checked → Server × Option Answer
settle server number request (state, refused answer) = (
  record server { state = record state { active_requests = state.active_requests - 1 } },
  some answer,
)
settle server number request (state, admitted pathname) =
    let flight : Flight = record {
      number = number;
      request = request;
      pathname = pathname;
      slot_owned = true;
      timed_out = false;
      destroyed = false;
    } in
    (record { state = state; flights = flight ∷ server.flights }, none)

abbrev pub take_slot : ServerState → ServerState
take_slot state = record state { active_requests = state.active_requests + 1 }

-- The handler as it is called, up to the reading of the body.
unfoldable pub arrive :
    Environment → Server → ℕ → Request → String → String → ℕ → Server × Option Answer
unfolding check_request settle
arrive env server number request port finding_id now =
    if ltb server.state.limits.max_url_bytes (byte_length request.url_text)
    then (server, some (problem 414 "CONTROL_URL_TOO_LONG" none))
    else if leb server.state.limits.max_concurrent_requests server.state.active_requests
    then (server, some (problem 503 "CONTROL_CONCURRENCY_LIMIT" none))
    else settle server number request
        (check_request env (take_slot server.state) request port finding_id now)

-- What is served when the body ends: nothing to a request that timed out or whose client is gone.
unfoldable pub serve_flight :
    Environment → ServerState → Flight → List ℕ → String → ℕ → ServerState × Option Answer
unfolding after_body
serve_flight env state flight chunks operation_id now =
    let (served, answer) =
      after_body env state flight.request flight.pathname chunks operation_id flight.number now in
    if flight.timed_out || flight.destroyed then (state, none) else (served, some answer)

-- The handler from the end of the body on; the flight ends with it.
unfoldable pub read_body :
    Environment → Server → Flight → List ℕ → String → ℕ → Server × Option Answer
unfolding serve_flight release_slot remove_flight
read_body env server flight chunks operation_id now =
    let (served, answer) = serve_flight env server.state flight chunks operation_id now in
    let (done, released) = release_slot flight served in
    (record { state = released; flights = remove_flight flight.number server.flights }, answer)

-- The timer: the slot is free, and the client has a 504.
unfoldable pub time_out : Server → Flight → Server × Option Answer
unfolding release_slot set_flight
time_out server flight =
    let (freed, state) = release_slot (record flight { timed_out = true }) server.state in
    (
      record { state = state; flights = set_flight freed server.flights },
      some (problem 504 "CONTROL_REQUEST_TIMEOUT" none),
    )

unfoldable pub close : Server → Flight → Server × Option Answer
unfolding release_slot set_flight
close server flight =
    let (freed, state) = release_slot (record flight { destroyed = true }) server.state in
    (record { state = state; flights = set_flight freed server.flights }, none)

-- Every answer goes out through `sendJson`.
abbrev sent : Environment → Server × Option Answer → Server × Option Answer
sent env (server, answer) =
    (server, map_option (send_json env server.state.limits.max_response_bytes) answer)

-- One event; one about a request that is not in flight does nothing. The timer fires once, and not
-- after the response is closed.
unfoldable pub step : Environment → Server → Event → Server × Option Answer
unfolding arrive read_body time_out close find_flight send_json
step env server (arrives number request port finding_id now) =
    elim (find_flight number server.flights) [
      | none ↦ sent env (arrive env server number request port finding_id now)
      | some flight ↦ (server, none)
    ]
step env server (reads_body number chunks operation_id now) =
    elim (find_flight number server.flights) [
      | none ↦ (server, none)
      | some flight ↦ sent env (read_body env server flight chunks operation_id now)
    ]
step env server (times_out number) = elim (find_flight number server.flights) [
  | none ↦ (server, none)
  | some flight ↦
      if flight.destroyed || flight.timed_out
      then (server, none)
      else sent env (time_out server flight)
]
step env server (closes number) = elim (find_flight number server.flights) [
  | none ↦ (server, none)
  | some flight ↦ close server flight
]

unfoldable pub run : Environment → List Event → Server → Server
unfolding step
run env [] server = server
run env (e ∷ es) server = run env es (step env server e).0
