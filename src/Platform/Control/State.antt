-- ===== src/Platform/Control/State.antt =====
-- packages/platform/src/server.ts: `ServerState` with what it holds, requests and their answers.
-- Times are milliseconds. The digest of a text, the parse of a URL and the length of what is written
-- are parameters; the clock is read once in a step.
use ai_software_engineering.Prelude.{ℕ, String, Bool, Option, List}
use ai_software_engineering.Contracts.Canonical.{Runtime}
use ai_software_engineering.Platform.Idempotency.{Registry}

pub record ControlApiLimits : Type 0 where
  pub max_url_bytes : ℕ
  pub max_body_bytes : ℕ
  pub max_response_bytes : ℕ
  pub max_concurrent_requests : ℕ
  pub auth_failure_capacity : ℕ
  pub auth_failure_window_ms : ℕ
  pub idempotency_capacity : ℕ
  pub idempotency_ttl_ms : ℕ
  pub sse_connection_capacity : ℕ
  pub sse_retention_capacity : ℕ
  pub sse_heartbeat_ms : ℕ
  pub sse_max_buffered_bytes : ℕ

-- An entry of the `Map` of authentication failures.
pub record AuthFailureState : Type 0 where
  pub remote : String
  pub count : ℕ
  pub reset_at : ℕ

pub data NotificationKind : Type 0 where
  runtime_status operation_metadata evidence_metadata : NotificationKind

pub record ControlNotification : Type 0 where
  pub notification_id : String
  pub kind : NotificationKind
  pub subject_type : String
  pub subject_id : String
  pub subject_version : Option String
  pub projection_version : ℕ
  pub occurred_at : ℕ
  pub resource_uri : String

-- A stream of events: its number stands for the response, which is not modelled further.
pub record EventConnection : Type 0 where
  pub number : ℕ
  pub buffered_bytes : ℕ

-- The finding that the rate limit leaves, and when it expires.
pub record SecurityFinding : Type 0 where
  pub finding_id : String
  pub expires_at : ℕ

pub record ServerState : Type 0 where
  pub instance_id : String
  pub token_hash : String
  pub allowed_origins : List String
  pub limits : ControlApiLimits
  pub idempotency : Registry
  pub auth_failures : List AuthFailureState
  pub notifications : List ControlNotification
  pub event_connections : List EventConnection
  pub sequence : ℕ
  pub active_requests : ℕ
  pub stop_requested : Bool
  pub security_finding : Option SecurityFinding

-- What the handler reads of a request.
pub record Request : Type 0 where
  pub url_text : String
  pub method : String
  pub local_address : String
  pub remote_address : Option String
  pub raw_headers : List (String × String)
  pub host : Option String
  pub origin : Option String
  pub authorization : Option String
  pub content_type : Option String
  pub idempotency_key : Option String
  pub if_match : Option String
  pub last_event_id : Option String
  pub requested_method : Option String
  pub requested_headers : Option String

pub record BoundedControlMetadata : Type 0 where
  pub auth_capacity : ℕ
  pub auth_window_ms : ℕ
  pub idempotency_size : ℕ
  pub idempotency_entries : ℕ
  pub idempotency_ttl : ℕ
  pub connection_capacity : ℕ
  pub active_connections : ℕ
  pub retention_capacity : ℕ
  pub retained_notifications : ℕ
  pub heartbeat_ms : ℕ

-- What is sent: a problem with its status, code and `retry-after`, or the body of a route.
pub data Answer : Type 0 where
  problem : ℕ → String → Option ℕ → Answer
  version : Answer
  health : Option SecurityFinding → Answer
  endpoint : Answer
  status : BoundedControlMetadata → Answer
  doctor : Option SecurityFinding → Answer
  events : Answer
  stop_accepted : String → Answer
  no_content : Answer
  over_limit : Answer

-- A URL that parses has a path and a query.
pub record Environment : Type 0 where
  pub runtime : Runtime
  pub parse_url : String → Option (String × String)
  pub answer_bytes : Answer → ℕ
  pub notification_bytes : ControlNotification → ℕ
  pub gap_bytes : ℕ
