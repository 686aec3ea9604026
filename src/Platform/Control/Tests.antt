-- ===== src/Platform/Control/Tests.antt =====
-- A control server with one slot, two retained notifications and a limit of two failures.
use ai_software_engineering.Prelude.{
  ℕ, ◌≤◌, ◌<◌, ◌↔◌, String, ◌≡◌, refl, false, none, some, List, [], ◌∷◌, map, arith, ltb,
  byte_length,
}
use ai_software_engineering.Policy.Condition.{strip_prefix}
use ai_software_engineering.Platform.Idempotency.{lookup}
use ai_software_engineering.Platform.Control.State.{
  ControlApiLimits, runtime_status, ControlNotification, ServerState, Request, version,
  stop_accepted, Environment,
}
use ai_software_engineering.Platform.Control.Checks.{
  exact_host_header, token_matches, find_failure, register_auth_failure, check_request,
}
use ai_software_engineering.Platform.Control.Routes.{accept_stop}
use ai_software_engineering.Platform.Control.Slots.{
  Server, Event, arrives, reads_body, times_out, closes, arrive, step, run,
}
use ai_software_engineering.Platform.Control.Admission.{IsConsistent, run-IsConsistent}
use ai_software_engineering.Platform.Control.Notifications.{
  PublishNotificationInput, valid_subject_ref, publish_notification, publish_all,
}
use ai_software_engineering.Platform.Control.Retention.{IsLatest, publish_all-IsLatest}
use ai_software_engineering.Platform.Control.Authenticated.{IsAuthentic, arrive_exact}
use ai_software_engineering.Platform.Control.Guarded.{IsGuarded, run-IsGuarded}
use ai_software_engineering.Platform.Control.RateLimit.{Failed, fail_all, rate_limit_exact}
use ai_software_engineering.Platform.Control.Stop.{Stop, run_stops, accept_stop_again}
use ai_software_engineering.Samples.{digest, sample_runtime}

abbrev sample_env : Environment
sample_env = record {
  runtime = sample_runtime;
  parse_url = λ s. some (s, "");
  answer_bytes = λ a. 100;
  notification_bytes = λ n. 50;
  gap_bytes = 50;
}

abbrev sample_limits : ControlApiLimits
sample_limits = record {
  max_url_bytes = 2048;
  max_body_bytes = 16384;
  max_response_bytes = 262144;
  max_concurrent_requests = 1;
  auth_failure_capacity = 2;
  auth_failure_window_ms = 60000;
  idempotency_capacity = 4;
  idempotency_ttl_ms = 1000;
  sse_connection_capacity = 8;
  sse_retention_capacity = 2;
  sse_heartbeat_ms = 15000;
  sse_max_buffered_bytes = 100;
}

abbrev sample_state : ServerState
sample_state = record {
  instance_id = "instance-1";
  token_hash = digest;
  allowed_origins = "http://localhost:3000" ∷ [];
  limits = sample_limits;
  idempotency = record { capacity = 4; ttl_ms = 1000; entries = [] };
  auth_failures = [];
  notifications = [];
  event_connections = [];
  sequence = 0;
  active_requests = 0;
  stop_requested = false;
  security_finding = none;
}

abbrev sample_request : Request
sample_request = record {
  url_text = "/v1/version";
  method = "GET";
  local_address = "127.0.0.1";
  remote_address = some "127.0.0.1";
  raw_headers = ("Host", "127.0.0.1:80") ∷ [];
  host = some "127.0.0.1:80";
  origin = none;
  authorization = some "Bearer token";
  content_type = none;
  idempotency_key = none;
  if_match = none;
  last_event_id = none;
  requested_method = none;
  requested_headers = none;
}

abbrev sample_server : Server
sample_server = record { state = sample_state; flights = [] }

-- The second request finds no slot until the first times out.
abbrev sample_events : List Event
sample_events =
    arrives 1 sample_request "80" "finding-1" 0
    ∷ arrives 2 sample_request "80" "finding-2" 1
    ∷ times_out 1
    ∷ arrives 3 sample_request "80" "finding-3" 2
    ∷ reads_body 3 [] "operation-1" 3
    ∷ closes 1
    ∷ reads_body 1 [] "operation-2" 4
    ∷ []

slots_return : (run sample_env sample_events sample_server).state.active_requests ≡ 0
unfolding run arrive check_request exact_host_header token_matches strip_prefix byte_length
slots_return = refl

third_served :
    (step sample_env
      (run sample_env (arrives 3 sample_request "80" "finding-3" 2 ∷ []) sample_server)
      (reads_body 3 [] "operation-1" 3)).1
    ≡ some version
unfolding run arrive check_request exact_host_header token_matches strip_prefix byte_length
third_served = refl

run-IsConsistent_example : IsConsistent (run sample_env sample_events sample_server)
run-IsConsistent_example =
    run-IsConsistent sample_env sample_events sample_server
      (record { counted = refl; within = omega arith })

in_flight : (arrive sample_env sample_server 1 sample_request "80" "finding-1" 0).1 ≡ none
unfolding arrive check_request exact_host_header token_matches strip_prefix byte_length
in_flight = refl

arrive_exact_example :
    ((arrive sample_env sample_server 1 sample_request "80" "finding-1" 0).1 ≡ none) ↔ (
      (byte_length sample_request.url_text ≤ 2048)
      × (0 < 1)
      × (pathname : String) × IsAuthentic sample_env sample_state "80" pathname sample_request)
arrive_exact_example = arrive_exact sample_env sample_server 1 sample_request "80" "finding-1" 0

run-IsGuarded_example :
    IsGuarded sample_env sample_state "80" (run sample_env sample_events sample_server)
run-IsGuarded_example =
    run-IsGuarded sample_env sample_state "80" sample_events sample_server
      (refl, (refl, (tt, (refl, (tt, (tt, (tt, tt)))))))
      (record { token = refl; origins = refl; servable = tt })

-- Another address fails in between.
abbrev sample_failures : List Failed
sample_failures = ("127.0.0.1", 10) ∷ ("127.0.0.2", 20) ∷ []

rate_limit_exact_example :
    ((register_auth_failure sample_limits "127.0.0.1" 0 []).1 ≡ ltb 2 1)
    × ((register_auth_failure sample_limits "127.0.0.1" 59999 (
          fail_all sample_limits sample_failures
            (register_auth_failure sample_limits "127.0.0.1" 0 []).0)).1
        ≡ ltb 2 3)
unfolding find_failure
rate_limit_exact_example =
    rate_limit_exact sample_limits "127.0.0.1" 0 59999 sample_failures [] refl (omega arith)
      (omega arith) (omega arith)

abbrev input_at : ℕ → PublishNotificationInput × String × ℕ
input_at now =
    let input : PublishNotificationInput = record {
      kind = runtime_status;
      subject_type = "Runtime";
      subject_id = "instance-1";
      subject_version = none;
      projection_version = now;
      resource_uri = "/v1/status";
    } in
    (input, "notification", now)

abbrev sample_inputs : List (PublishNotificationInput × String × ℕ)
sample_inputs = input_at 1 ∷ input_at 2 ∷ input_at 3 ∷ []

latest_two :
    map
      (λ (n : ControlNotification). n.occurred_at)
      (publish_all sample_env sample_state sample_inputs).0.notifications
    ≡ 2 ∷ 3 ∷ []
unfolding publish_all publish_notification valid_subject_ref strip_prefix
latest_two = refl

publish_all-IsLatest_example :
    IsLatest 2
      (publish_all sample_env sample_state sample_inputs).0.notifications
      (publish_all sample_env sample_state sample_inputs).1
publish_all-IsLatest_example = publish_all-IsLatest sample_env sample_inputs sample_state refl

-- The same key once more, and another one, in between.
abbrev sample_stops : List Stop
sample_stops =
    record { key = "key-1"; operation_id = "operation-3"; time = 5 }
    ∷ record { key = "key-2"; operation_id = "operation-4"; time = 10 }
    ∷ []

accept_stop_again_example :
    ((accept_stop sample_env sample_state "key-1" "operation-1" 0).1 ≡ stop_accepted "operation-1")
    × ((accept_stop sample_env
          (run_stops sample_env sample_stops
            (accept_stop sample_env sample_state "key-1" "operation-1" 0).0)
          "key-1"
          "operation-2"
          999).1
        ≡ stop_accepted "operation-1")
unfolding lookup
accept_stop_again_example =
    accept_stop_again sample_env sample_state "key-1" "operation-1" "operation-2" 0 999 sample_stops
      refl (omega arith) (omega arith) (omega arith)
