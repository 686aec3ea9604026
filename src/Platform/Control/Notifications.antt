-- ===== src/Platform/Control/Notifications.antt =====
-- packages/platform/src/server.ts: `publishNotification` of `startControlApi`, and what is retained.
use Prim.Native.Char.{code}
use ai_software_engineering.Prelude.{
  ℕ, ◌+◌, String, Bool, true, false, not, ◌&&◌, ◌||◌, Option, none, some, List, [], ◌∷◌, ◌++◌, ltb,
  leb, if◌then◌else◌, is_safe_integer, length, Result, ok, err, text_length,
}
use ai_software_engineering.Policy.Condition.{strip_prefix, starts}
use ai_software_engineering.Policy.Patterns.{is_digit, is_upper, is_lower, every_code}
use ai_software_engineering.Platform.Control.State.{
  NotificationKind, ControlNotification, EventConnection, ServerState, Environment,
}
use ai_software_engineering.Platform.Control.Routes.{write_frame}

-- A `PublishNotificationInput` whose `kind` is one of the three; the other fields are tested.
pub record PublishNotificationInput : Type 0 where
  pub kind : NotificationKind
  pub subject_type : String
  pub subject_id : String
  pub subject_version : Option String
  pub projection_version : ℕ
  pub resource_uri : String

pub data PublishFailure : Type 0 where
  runtime_stopped notification_invalid : PublishFailure

-- `/^[A-Z][A-Za-z0-9]{1,127}$/u`
abbrev is_subject_type : String → Bool
is_subject_type String.[] = false
is_subject_type (String.◌∷◌ c s) =
    is_upper (code c)
    && every_code (λ d. is_upper d || is_lower d || is_digit d) s
    && leb 1 (text_length s)
    && leb (text_length s) 127

abbrev is_sized : ℕ → String → Bool
is_sized bound s = leb 1 (text_length s) && leb (text_length s) bound

-- `validSubjectRef`
unfoldable pub valid_subject_ref : PublishNotificationInput → Bool
unfolding every_code
valid_subject_ref input =
    is_subject_type input.subject_type
    && is_sized 256 input.subject_id
    && elim input.subject_version [ none ↦ true | some v ↦ is_sized 128 v ]

unfoldable pub is_publishable : PublishNotificationInput → Bool
unfolding valid_subject_ref strip_prefix
is_publishable input =
    is_safe_integer input.projection_version
    && valid_subject_ref input
    && starts "/v1/" input.resource_uri
    && leb (text_length input.resource_uri) 1024

-- `while (notifications.length > capacity) notifications.shift();`
unfoldable pub trim : ℕ → List ControlNotification → List ControlNotification
trim capacity [] = []
trim capacity (n ∷ ns) = if ltb capacity (length (n ∷ ns)) then trim capacity ns else n ∷ ns

-- The connections that have room for the notification, with it in their buffers; the others close.
unfoldable pub write_connections :
    Environment → ℕ → ControlNotification → List EventConnection → List EventConnection
unfolding write_frame
write_connections env max_buffered n [] = []
write_connections env max_buffered n (c ∷ cs) =
    let rest = write_connections env max_buffered n cs in
    elim (write_frame max_buffered (env.notification_bytes n) c) [
      | none ↦ rest
      | some c' ↦ c' ∷ rest
    ]

abbrev pub notification_of : PublishNotificationInput → String → ℕ → ControlNotification
notification_of input notification_id now = record {
  notification_id = notification_id;
  kind = input.kind;
  subject_type = input.subject_type;
  subject_id = input.subject_id;
  subject_version = input.subject_version;
  projection_version = input.projection_version;
  occurred_at = now;
  resource_uri = input.resource_uri;
}

unfoldable pub retain : Environment → ServerState → ControlNotification → ServerState
unfolding trim write_connections
retain env state notification = record state {
  sequence = state.sequence + 1;
  notifications =
      trim state.limits.sse_retention_capacity (state.notifications ++ notification ∷ []);
  event_connections =
      write_connections env state.limits.sse_max_buffered_bytes notification
        state.event_connections;
}

-- `publishNotification`
unfoldable pub publish_notification :
    Environment
    → ServerState
    → PublishNotificationInput
    → String
    → ℕ
    → ServerState × Result PublishFailure ControlNotification
unfolding is_publishable retain
publish_notification env state input notification_id now =
    let notification = notification_of input notification_id now in
    if state.stop_requested
    then (state, err runtime_stopped)
    else if not (is_publishable input)
    then (state, err notification_invalid)
    else (retain env state notification, ok notification)

-- A run of publications: the state, and the notifications that they answered with, in order.
unfoldable pub publish_all :
    Environment
    → ServerState
    → List (PublishNotificationInput × String × ℕ)
    → ServerState × List ControlNotification
unfolding publish_notification
publish_all env state [] = (state, [])
publish_all env state ((input, id, now) ∷ rest) =
    let (state', answer) = publish_notification env state input id now in
    let (last, answers) = publish_all env state' rest in
    (last, elim answer [ err e ↦ answers | ok n ↦ n ∷ answers ])
