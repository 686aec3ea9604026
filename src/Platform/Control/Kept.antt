-- ===== src/Platform/Control/Kept.antt =====
-- The handler of packages/platform/src/server.ts, from its checks to its routes, leaves the count of
-- active requests, the limits, the digest of the token and the allowed origins alone.
use ai_software_engineering.Prelude.{ℕ, String, ◌≡◌, refl, List, arith}
use ai_software_engineering.Platform.Control.State.{ServerState, Request, Environment}
use ai_software_engineering.Platform.Control.Checks.{refuse_token, check_request}
use ai_software_engineering.Platform.Control.Routes.{
  security_findings, metadata, record_stop, accept_stop, stop_route, serve_events, route_commands,
  route_reports, route, after_body,
}
use ai_software_engineering.Platform.Control.Slots.{Flight, serve_flight}

-- What the serving of a request leaves alone.
pub record IsKept {A : Type 0} (s : ServerState) (x : ServerState × A) : Type 0 where
  pub active : x.0.active_requests ≡ s.active_requests
  pub limits : x.0.limits ≡ s.limits
  pub token : x.0.token_hash ≡ s.token_hash
  pub origins : x.0.allowed_origins ≡ s.allowed_origins

pub check_request-IsKept :
    (env : Environment) (state : ServerState) (request : Request) (port finding_id : String)
    (now : ℕ)
    → IsKept state (check_request env state request port finding_id now)
unfolding check_request refuse_token
check_request-IsKept env state request port finding_id now = ground arith

stop_route-IsKept :
    (env : Environment) (state : ServerState) (request : Request) (operation_id : String) (now : ℕ)
    → IsKept state (stop_route env state request operation_id now)
unfolding stop_route accept_stop record_stop
stop_route-IsKept env state request operation_id now = ground arith

findings-IsKept : (state : ServerState) (now : ℕ) → IsKept state (security_findings state now)
unfolding security_findings
findings-IsKept state now = ground arith

serve_events-IsKept :
    (env : Environment) (state : ServerState) (request : Request) (number : ℕ)
    → IsKept state (serve_events env state request number)
unfolding serve_events
serve_events-IsKept env state request number = ground arith

route_commands-IsKept :
    (env : Environment) (state : ServerState) (request : Request) (pathname operation_id : String)
    (number now : ℕ)
    → IsKept state (route_commands env state request pathname operation_id number now)
unfolding route_commands
route_commands-IsKept env state request pathname operation_id number now =
    let streamed = serve_events-IsKept env state request number in
    let stopped = stop_route-IsKept env state request operation_id now in
    ground (arith, streamed, stopped)

route_reports-IsKept :
    (env : Environment) (state : ServerState) (request : Request) (pathname operation_id : String)
    (number now : ℕ)
    → IsKept state (route_reports env state request pathname operation_id number now)
unfolding route_reports metadata
route_reports-IsKept env state request pathname operation_id number now =
    let found = findings-IsKept state now in
    let counted : IsKept state (metadata state now) = record {
      active = refl;
      limits = refl;
      token = refl;
      origins = refl;
    } in
    let rest = route_commands-IsKept env state request pathname operation_id number now in
    ground (arith, found, counted, rest)

route-IsKept :
    (env : Environment) (state : ServerState) (request : Request) (pathname operation_id : String)
    (number now : ℕ)
    → IsKept state (route env state request pathname operation_id number now)
unfolding route
route-IsKept env state request pathname operation_id number now =
    let found = findings-IsKept state now in
    let rest = route_reports-IsKept env state request pathname operation_id number now in
    ground (arith, found, rest)

pub serve_flight-IsKept :
    (env : Environment) (state : ServerState) (flight : Flight) (chunks : List ℕ)
    (operation_id : String) (now : ℕ)
    → IsKept state (serve_flight env state flight chunks operation_id now)
unfolding serve_flight after_body
serve_flight-IsKept env state flight chunks operation_id now =
    ground
      (arith, route-IsKept env state flight.request flight.pathname operation_id flight.number now)
