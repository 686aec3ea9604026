-- ===== src/Platform/Control/Checks.antt =====
-- packages/platform/src/server.ts: the checks that a request passes before its body is read.
use Prim.Native.Char.{code}
use Prim.Native.String.{◌++◌ as append}
use ai_software_engineering.Prelude.{
  ℕ, ◌+◌, ◌-◌, ◌/◌, String, Bool, true, false, not, ◌&&◌, ◌||◌, Option, none, some, List, [], ◌∷◌,
  map, ltb, leb, nat_eq, ◌==◌, if◌then◌else◌, length, any, all, keep_if, includes,
}
use ai_software_engineering.Contracts.Canonical.{Runtime}
use ai_software_engineering.Policy.Condition.{strip_prefix}
use ai_software_engineering.Policy.YamlText.{is_space, trim_start, is_empty_text}
use ai_software_engineering.Platform.Control.State.{
  ControlApiLimits, AuthFailureState, SecurityFinding, ServerState, Request, Answer, problem,
  no_content, Environment,
}

-- A code in lower case, in ASCII; and whether a text, in lower case and without the white space at its
-- end, is a name in lower case.
abbrev lower : ℕ → ℕ
lower c = if leb b'A' c && leb c b'Z' then c + 32 else c

unfoldable pub is_name : String → String → Bool
is_name String.[] String.[] = true
is_name String.[] (String.◌∷◌ d name) = false
is_name (String.◌∷◌ c s) String.[] = is_space (code c) && is_name s String.[]
is_name (String.◌∷◌ c s) (String.◌∷◌ d name) = nat_eq (lower (code c)) (code d) && is_name s name

-- The values of the raw headers called `host`.
unfoldable pub host_values : List (String × String) → List String
unfolding is_name
host_values [] = []
host_values ((name, value) ∷ headers) =
    if is_name name "host" then value ∷ host_values headers else host_values headers

-- `exactHostHeader`
unfoldable pub exact_host_header : Request → String → Bool
unfolding host_values
exact_host_header request expected = elim (host_values request.raw_headers) [
  | value ∷ [] ↦
      value == expected && elim request.host [ none ↦ false | some host ↦ host == expected ]
  | _ ↦ false
]

-- `text.split(",")`
unfoldable pub split_commas : String → List String
split_commas String.[] = "" ∷ []
split_commas (String.◌∷◌ c s) =
    let rest = split_commas s in
    if nat_eq (code c) b','
    then "" ∷ rest
    else elim rest [ [] ↦ String.◌∷◌ c "" ∷ [] | part ∷ parts ↦ String.◌∷◌ c part ∷ parts ]

-- `PREFLIGHT_HEADERS`
abbrev preflight_headers : List String
preflight_headers =
    "authorization" ∷ "content-type" ∷ "idempotency-key" ∷ "if-match" ∷ "last-event-id"
    ∷ "x-correlation-id" ∷ "x-request-id" ∷ []

abbrev is_empty_list {ℓ} : {A : Type ℓ} → List A → Bool
is_empty_list [] = true
is_empty_list (x ∷ xs) = false

-- `validPreflight`
unfoldable pub valid_preflight : Request → String → Bool
unfolding split_commas trim_start is_name
valid_preflight request pathname =
    let expected = if pathname == "/v1/runtime/stop" then "POST" else "GET" in
    elim request.requested_method [
      | none ↦ false
      | some method ↦ method == expected && elim request.requested_headers [
        | none ↦ true
        | some headers ↦
            let names =
              keep_if (λ part. not (is_empty_text part)) (map trim_start (split_commas headers)) in
            not (is_empty_list names)
            && all (λ part. any (λ name. is_name part name) preflight_headers) names
      ]
    ]

abbrev pub known_paths : List String
known_paths =
    "/v1/version" ∷ "/v1/health" ∷ "/v1/endpoint" ∷ "/v1/status" ∷ "/v1/doctor" ∷ "/v1/events"
    ∷ "/v1/runtime/stop" ∷ []

-- `tokenMatches`; equal digests are equal texts.
unfoldable pub token_matches : Runtime → Option String → String → Bool
unfolding strip_prefix
token_matches runtime none expected_hash = false
token_matches runtime (some header) expected_hash = elim (strip_prefix "Bearer " header) [
  | none ↦ false
  | some candidate ↦ runtime.sha256 candidate == expected_hash
]

-- `Map.prototype.get` and `set` on the failures.
unfoldable pub find_failure : String → List AuthFailureState → Option AuthFailureState
find_failure remote [] = none
find_failure remote (e ∷ es) = if e.remote == remote then some e else find_failure remote es

unfoldable pub set_failure : AuthFailureState → List AuthFailureState → List AuthFailureState
set_failure entry [] = entry ∷ []
set_failure entry (e ∷ es) =
    if e.remote == entry.remote then entry ∷ es else e ∷ set_failure entry es

-- The oldest entry goes once there are 32.
unfoldable pub drop_oldest : List AuthFailureState → List AuthFailureState
drop_oldest [] = []
drop_oldest (e ∷ es) = if leb 32 (length (e ∷ es)) then es else e ∷ es

-- The entries with one for the address that is not expired.
unfoldable pub live_failure :
    ControlApiLimits → String → ℕ → List AuthFailureState → List AuthFailureState × AuthFailureState
unfolding find_failure set_failure drop_oldest
live_failure limits remote now es =
    let fresh : AuthFailureState = record {
      remote = remote;
      count = 0;
      reset_at = now + limits.auth_failure_window_ms;
    } in
    elim (find_failure remote es) [
      | none ↦ (set_failure fresh (drop_oldest es), fresh)
      | some entry ↦
          if leb entry.reset_at now
          then (set_failure fresh (drop_oldest es), fresh)
          else (es, entry)
    ]

-- `registerAuthFailure`, on the entries: whether the address is limited, and for how many seconds.
unfoldable pub register_auth_failure :
    ControlApiLimits → String → ℕ → List AuthFailureState → List AuthFailureState × Bool × ℕ
unfolding live_failure
register_auth_failure limits remote now es =
    let (es', entry) = live_failure limits remote now es in
    let counted = record entry { count = entry.count + 1 } in
    (
      set_failure counted es',
      ltb limits.auth_failure_capacity counted.count,
      if ltb ((entry.reset_at - now + 999) / 1000) 1
          then 1
          else (entry.reset_at - now + 999) / 1000,
    )

abbrev remote_of : Request → String
remote_of request = elim request.remote_address [ none ↦ "unknown" | some remote ↦ remote ]

-- The finding is renewed when it is missing or expired.
abbrev renew_finding : ServerState → String → ℕ → Option SecurityFinding
renew_finding state finding_id now =
    let fresh : SecurityFinding = record {
      finding_id = finding_id;
      expires_at = now + state.limits.auth_failure_window_ms;
    } in
    elim state.security_finding [
      | none ↦ some fresh
      | some finding ↦ if leb finding.expires_at now then some fresh else some finding
    ]

-- The answer to a request without the token.
unfoldable pub refuse_token : ServerState → Request → String → ℕ → ServerState × Answer
unfolding register_auth_failure
refuse_token state request finding_id now =
    let (failures, limited, retry_after) =
      register_auth_failure state.limits (remote_of request) now state.auth_failures in
    if limited
    then (
      record state {
        auth_failures = failures;
        security_finding = renew_finding state finding_id now;
      },
      problem 429 "CONTROL_AUTH_RATE_LIMITED" (some retry_after),
    )
    else (record state { auth_failures = failures }, problem 401 "CONTROL_AUTH_REQUIRED" none)

-- What the checks say: an answer, or the path to serve once the body is read.
pub data Checked : Type 0 where
  refused : Answer → Checked
  admitted : String → Checked

-- The handler from the taking of the slot to the reading of the body. `port` is the port of the
-- descriptor, as text.
unfoldable pub check_request :
    Environment → ServerState → Request → String → String → ℕ → ServerState × Checked
unfolding exact_host_header valid_preflight token_matches refuse_token
check_request env state request port finding_id now =
    if not (request.local_address == "127.0.0.1")
      || not (exact_host_header request (append "127.0.0.1:" port))
    then (state, refused (problem 400 "CONTROL_HOST_REJECTED" none))
    else if elim request.origin [ none ↦ false | some o ↦ not (includes o state.allowed_origins) ]
    then (state, refused (problem 403 "CONTROL_ORIGIN_REJECTED" none))
    else elim (env.parse_url request.url_text) [
      | none ↦ (state, refused (problem 500 "CONTROL_INTERNAL_ERROR" none))
      | some (pathname, search) ↦
          if not (search == "")
          then (state, refused (problem 400 "CONTROL_QUERY_REJECTED" none))
          else if request.method == "OPTIONS"
          then (
            state,
            refused (
                if elim request.origin [ none ↦ true | some o ↦ false ]
                  || not (valid_preflight request pathname)
                  || not (includes pathname known_paths)
                then problem 403 "CONTROL_PREFLIGHT_REJECTED" none
                else no_content),
          )
          else if not (token_matches env.runtime request.authorization state.token_hash)
          then (let (state', answer) = refuse_token state request finding_id now in
              (state', refused answer))
          else (state, admitted pathname)
    ]
