-- ===== src/Platform/Control/Routes.antt =====
-- packages/platform/src/server.ts: the body of a request, the routes, the command that stops the
-- runtime, and the streams of events.
use Prim.Native.String.{◌++◌ as append}
use ai_software_engineering.Prelude.{
  ℕ, ◌+◌, String, Bool, false, not, ◌&&◌, ◌||◌, Option, none, some, List, [], ◌∷◌, ◌++◌, ltb, leb,
  nat_eq, ◌==◌, if◌then◌else◌, length, any, ok, err, text_length,
}
use ai_software_engineering.Contracts.Json.{str, object}
use ai_software_engineering.Contracts.Canonical.{Runtime, canonical_json_sha256}
use ai_software_engineering.Policy.Patterns.{is_digit, is_upper, is_lower, every_code}
use ai_software_engineering.Platform.Idempotency.{miss, replay, conflict, lookup, size, put}
use ai_software_engineering.Platform.Control.State.{
  ControlNotification, EventConnection, SecurityFinding, ServerState, Request,
  BoundedControlMetadata, Answer, problem, version, health, endpoint, status, doctor, events,
  stop_accepted, no_content, over_limit, Environment,
}

-- `rejectUnexpectedBody`, over the lengths of the chunks: none, or the problem of what it throws.
unfoldable pub reject_body : ℕ → ℕ → List ℕ → Option Answer
reject_body limit bytes [] =
    if nat_eq bytes 0 then none else some (problem 400 "CONTROL_BODY_NOT_ALLOWED" none)
reject_body limit bytes (chunk ∷ chunks) =
    let rest = reject_body limit (bytes + chunk) chunks in
    if ltb limit (bytes + chunk) then some (problem 413 "CONTROL_BODY_TOO_LARGE" none) else rest

-- `securityFindings`: an expired finding is forgotten.
unfoldable pub security_findings : ServerState → ℕ → ServerState × Option SecurityFinding
security_findings state now = elim state.security_finding [
  | none ↦ (state, none)
  | some finding ↦
      if leb finding.expires_at now
      then (record state { security_finding = none }, none)
      else (state, some finding)
]

-- `metadata`; the size of the registry prunes it.
unfoldable pub metadata : ServerState → ℕ → ServerState × BoundedControlMetadata
unfolding size
metadata state now =
    let (registry, entries) = size now state.idempotency in
    (
      record state { idempotency = registry },
      record {
        auth_capacity = state.limits.auth_failure_capacity;
        auth_window_ms = state.limits.auth_failure_window_ms;
        idempotency_size = state.limits.idempotency_capacity;
        idempotency_entries = entries;
        idempotency_ttl = state.limits.idempotency_ttl_ms;
        connection_capacity = state.limits.sse_connection_capacity;
        active_connections = length state.event_connections;
        retention_capacity = state.limits.sse_retention_capacity;
        retained_notifications = length state.notifications;
        heartbeat_ms = state.limits.sse_heartbeat_ms;
      },
    )

-- `[A-Za-z0-9._:/+-]{16,256}`
unfoldable pub is_idempotency_key : String → Bool
unfolding every_code
is_idempotency_key key =
    every_code
      (λ c.
        is_upper c
        || is_lower c
        || is_digit c
        || any (nat_eq c) (b'.' ∷ b'_' ∷ b':' ∷ b'/' ∷ b'+' ∷ b'-' ∷ []))
      key
    && leb 16 (text_length key)
    && leb (text_length key) 256

unfoldable pub stop_payload_hash : Runtime → String → String
unfolding object
stop_payload_hash runtime instance_id =
    canonical_json_sha256 runtime
      (object (("action", some (str "runtime.stop")) ∷ ("instanceId", some (str instance_id)) ∷ []))

-- The operation is recorded under the key and accepted; what `record` throws is an internal error.
unfoldable pub record_stop : ServerState → String → String → String → ℕ → ServerState × Answer
unfolding put
record_stop state key hash id now =
    let (registry, recorded) = put key hash id now state.idempotency in
    elim recorded [
      | err thrown ↦
          (record state { idempotency = registry }, problem 500 "CONTROL_INTERNAL_ERROR" none)
      | ok done ↦ (record state { idempotency = registry }, stop_accepted id)
    ]

-- The stop command once its headers are accepted.
unfoldable pub accept_stop : Environment → ServerState → String → String → ℕ → ServerState × Answer
unfolding lookup record_stop stop_payload_hash
accept_stop env state key operation_id now =
    let hash = stop_payload_hash env.runtime state.instance_id in
    let (registry, found) = lookup key hash now state.idempotency in
    let pruned = record state { idempotency = registry } in
    elim found [
      | conflict ↦ (pruned, problem 409 "CONTROL_IDEMPOTENCY_CONFLICT" none)
      | replay id ↦ record_stop pruned key hash id now
      | miss ↦ record_stop pruned key hash operation_id now
    ]

-- `POST /v1/runtime/stop`
unfoldable pub stop_route : Environment → ServerState → Request → String → ℕ → ServerState × Answer
unfolding accept_stop is_idempotency_key
stop_route env state request operation_id now = elim request.idempotency_key [
  | none ↦ (state, problem 400 "CONTROL_IDEMPOTENCY_KEY_REQUIRED" none)
  | some key ↦
      if not (is_idempotency_key key)
      then (state, problem 400 "CONTROL_IDEMPOTENCY_KEY_REQUIRED" none)
      else elim request.if_match [
        | none ↦ (state, problem 428 "CONTROL_PRECONDITION_REQUIRED" none)
        | some tag ↦
            if not (tag == append "\"" (append state.instance_id "\""))
            then (state, problem 412 "CONTROL_INSTANCE_VERSION_MISMATCH" none)
            else accept_stop env state key operation_id now
      ]
]

-- `writeSseFrame`: the connection with the frame in its buffer, if there is room.
unfoldable pub write_frame : ℕ → ℕ → EventConnection → Option EventConnection
write_frame max_buffered bytes connection =
    if ltb max_buffered (connection.buffered_bytes + bytes)
    then none
    else some (record connection { buffered_bytes = connection.buffered_bytes + bytes })

-- The frames that a stream begins with: those after the last one that the client has seen.
unfoldable pub notifications_after :
    String → List ControlNotification → Option (List ControlNotification)
notifications_after last_id [] = none
notifications_after last_id (n ∷ ns) =
    if n.notification_id == last_id then some ns else notifications_after last_id ns

unfoldable pub write_all :
    Environment → ℕ → List ControlNotification → EventConnection → Option EventConnection
unfolding write_frame
write_all env max_buffered [] connection = some connection
write_all env max_buffered (n ∷ ns) connection =
    elim (write_frame max_buffered (env.notification_bytes n) connection) [
      | none ↦ none
      | some connection' ↦ write_all env max_buffered ns connection'
    ]

-- A new connection after its first frames; none if it is closed for want of room.
unfoldable pub resume :
    Environment → ServerState → Option String → EventConnection → Option EventConnection
unfolding notifications_after write_all write_frame
resume env state none connection = some connection
resume env state (some last_id) connection =
    if nat_eq (length state.notifications) 0
    then some connection
    else elim (notifications_after last_id state.notifications) [
      | none ↦ write_frame state.limits.sse_max_buffered_bytes env.gap_bytes connection
      | some missed ↦ write_all env state.limits.sse_max_buffered_bytes missed connection
    ]

-- `serveEvents`; the connections are kept in order of insertion.
unfoldable pub serve_events : Environment → ServerState → Request → ℕ → ServerState × Answer
unfolding resume
serve_events env state request number =
    if leb state.limits.sse_connection_capacity (length state.event_connections)
    then (state, problem 503 "CONTROL_SSE_CAPACITY" none)
    else elim (resume env state request.last_event_id
        (record { number = number; buffered_bytes = 0 })) [
          | none ↦ (state, events)
          | some connection ↦ (
            record state { event_connections = state.event_connections ++ connection ∷ [] },
            events,
          )
        ]

-- The routes, for a request whose body is empty: the streams and the stop command,
unfoldable pub route_commands :
    Environment → ServerState → Request → String → String → ℕ → ℕ → ServerState × Answer
unfolding serve_events stop_route
route_commands env state request pathname operation_id number now =
    if request.method == "GET" && pathname == "/v1/events"
    then serve_events env state request number
    else if request.method == "POST" && pathname == "/v1/runtime/stop"
    then stop_route env state request operation_id now
    else (state, problem 404 "CONTROL_ROUTE_NOT_FOUND" none)

-- after the reports,
unfoldable pub route_reports :
    Environment → ServerState → Request → String → String → ℕ → ℕ → ServerState × Answer
unfolding security_findings metadata route_commands
route_reports env state request pathname operation_id number now =
    if request.method == "GET" && pathname == "/v1/status"
    then (let (state', limits) = metadata state now in (state', status limits))
    else if request.method == "GET" && pathname == "/v1/doctor"
    then (let (state', finding) = security_findings state now in (state', doctor finding))
    else route_commands env state request pathname operation_id number now

-- after the identity and the health of the runtime.
unfoldable pub route :
    Environment → ServerState → Request → String → String → ℕ → ℕ → ServerState × Answer
unfolding security_findings route_reports
route env state request pathname operation_id number now =
    if request.method == "GET" && pathname == "/v1/version"
    then (state, version)
    else if request.method == "GET" && pathname == "/v1/health"
    then (let (state', finding) = security_findings state now in (state', health finding))
    else if request.method == "GET" && pathname == "/v1/endpoint"
    then (state, endpoint)
    else route_reports env state request pathname operation_id number now

-- The handler after the body is read.
unfoldable pub after_body :
    Environment → ServerState → Request → String → List ℕ → String → ℕ → ℕ → ServerState × Answer
unfolding reject_body route
after_body env state request pathname chunks operation_id number now =
    elim (reject_body state.limits.max_body_bytes 0 chunks) [
      | some thrown ↦ (state, thrown)
      | none ↦
          if elim request.content_type [ none ↦ false | some t ↦ not (t == "application/json") ]
          then (state, problem 415 "CONTROL_CONTENT_TYPE_UNSUPPORTED" none)
          else route env state request pathname operation_id number now
    ]

-- `sendJson`: what does not fit is not sent.
unfoldable pub send_json : Environment → ℕ → Answer → Answer
send_json env max_bytes events = events
send_json env max_bytes no_content = no_content
send_json env max_bytes answer =
    if ltb max_bytes (env.answer_bytes answer) then over_limit else answer
