-- ===== src/Platform/Control/Authenticated.antt =====
-- Which requests packages/platform/src/server.ts lets through to its routes.
use Prim.Native.String.{◌++◌ as append}
use ai_software_engineering.Prelude.{
  ℕ, ◌≤◌, ◌<◌, String, ◌≡◌, refl, ap, ◌≢◌, ◌↔◌, ◌⊎◌, inl, inr, true, false, not, ◌&&◌, Option, none,
  some, List, [], ◌∷◌, arith, ◌==◌, eq_iff, eq_refl, some-injective, Option-cases, includes,
  byte_length,
}
use ai_software_engineering.Contracts.Canonical.{Runtime}
use ai_software_engineering.Policy.Condition.{strip_prefix}
use ai_software_engineering.Platform.Control.Prefix.{strip_prefix-exact}
use ai_software_engineering.Platform.Control.State.{ServerState, Request, Environment}
use ai_software_engineering.Platform.Control.Checks.{
  host_values, exact_host_header, token_matches, Checked, refused, admitted, check_request,
}
use ai_software_engineering.Platform.Control.Slots.{Server, settle, take_slot, arrive}

-- A request that comes over the loopback address, with one host header that names the server, from no
-- origin or an allowed one, for a path without a query, not as a preflight, and with a bearer token
-- whose digest is the server's.
pub record IsAuthentic (env : Environment) (state : ServerState) (port pathname : String)
    (request : Request) : Type 0 where
  pub loopback : request.local_address ≡ "127.0.0.1"
  pub hosts : host_values request.raw_headers ≡ append "127.0.0.1:" port ∷ []
  pub host : request.host ≡ some (append "127.0.0.1:" port)
  pub origin :
      (request.origin ≡ none)
      ⊎ ((o : String) × (request.origin ≡ some o) × (includes o state.allowed_origins ≡ true))
  pub path : env.parse_url request.url_text ≡ some (pathname, "")
  pub method : request.method ≢ "OPTIONS"
  pub token :
      (candidate : String) × (request.authorization ≡ some (append "Bearer " candidate))
      × (env.runtime.sha256 candidate ≡ state.token_hash)

hosts-exact :
    (values : List String) (host : Option String) (expected : String)
    → (elim values [
      | value ∷ [] ↦ value == expected && elim host [ none ↦ false | some h ↦ h == expected ]
      | _ ↦ false
    ]
        ≡ true)
      ↔ ((values ≡ expected ∷ []) × (host ≡ some expected))
hosts-exact [] host expected = (λ h. absurd cc, λ h. absurd cc)
hosts-exact (value ∷ []) none expected = (λ h. absurd (ground arith), λ h. absurd cc)
hosts-exact (value ∷ []) (some given) expected =
    ground (arith, eq_iff value expected, eq_iff given expected)
hosts-exact (value ∷ other ∷ values) host expected = (λ h. absurd cc, λ h. absurd cc)

host-exact :
    (request : Request) (expected : String)
    → (exact_host_header request expected ≡ true)
      ↔ ((host_values request.raw_headers ≡ expected ∷ []) × (request.host ≡ some expected))
unfolding exact_host_header
host-exact request expected = hosts-exact (host_values request.raw_headers) request.host expected

token-exact :
    (runtime : Runtime) (authorization : Option String) (hash : String)
    → (token_matches runtime authorization hash ≡ true) ↔ (
        (candidate : String) × (authorization ≡ some (append "Bearer " candidate))
        × (runtime.sha256 candidate ≡ hash))
unfolding token_matches
token-exact runtime none hash = (λ h. absurd cc, λ h. absurd cc)
token-exact runtime (some header) hash = (
  λ h. elim (Option-cases (strip_prefix "Bearer " header)) [
    | inl absent ↦ absurd (ground arith)
    | inr (candidate, found) ↦ (
      candidate,
      ap some ((strip_prefix-exact "Bearer " header candidate).0 found),
      ground (arith, eq_iff (runtime.sha256 candidate) hash),
    )
  ],
  λ h.
      let found = (strip_prefix-exact "Bearer " header h.0).1 (some-injective h.1) in
      let same = h.2 in ground (arith, found, same, eq_iff (runtime.sha256 h.0) hash),
)

origin-exact :
    (origin : Option String) (allowed : List String)
    → (elim origin [ none ↦ false | some o ↦ not (includes o allowed) ] ≡ false)
      ↔ ((origin ≡ none) ⊎ ((o : String) × (origin ≡ some o) × (includes o allowed ≡ true)))
origin-exact none allowed = (λ h. inl refl, λ h. refl)
origin-exact (some o) allowed = (
  λ h. inr (o, refl, ground arith),
  λ h. elim h [ inl absent ↦ absurd cc | inr (o', same, listed) ↦ ground arith ],
)

-- The tests of `check_request`, all passed.
abbrev pub Passes : Environment → ServerState → String → String → Request → Type 0
Passes env state port pathname request =
    ((request.local_address == "127.0.0.1") ≡ true)
    × (exact_host_header request (append "127.0.0.1:" port) ≡ true)
    × (elim request.origin [ none ↦ false | some o ↦ not (includes o state.allowed_origins) ]
        ≡ false)
    × (env.parse_url request.url_text ≡ some (pathname, ""))
    × ((request.method == "OPTIONS") ≡ false)
    × (token_matches env.runtime request.authorization state.token_hash ≡ true)

pub admitted-Passes :
    (env : Environment) (state : ServerState) (request : Request)
    (port finding_id pathname : String) (now : ℕ)
    → (check_request env state request port finding_id now).1 ≡ admitted pathname
    → Passes env state port pathname request
unfolding check_request
admitted-Passes env state request port finding_id pathname now h =
    elim (Option-cases (env.parse_url request.url_text)) [
      | inl failed ↦ absurd (ground arith)
      | inr ((path, search), parsed) ↦ ground (arith, eq_iff search "")
    ]

Passes-admitted :
    (env : Environment) (state : ServerState) (request : Request)
    (port finding_id pathname : String) (now : ℕ)
    → Passes env state port pathname request
    → (check_request env state request port finding_id now).1 ≡ admitted pathname
unfolding check_request
Passes-admitted env state request port finding_id pathname now h = ground (arith, h, eq_refl "")

pub Passes-exact :
    (env : Environment) (state : ServerState) (port pathname : String) (request : Request)
    → Passes env state port pathname request ↔ IsAuthentic env state port pathname request
Passes-exact env state port pathname request =
    let hosts = host-exact request (append "127.0.0.1:" port) in
    let origins = origin-exact request.origin state.allowed_origins in
    let tokens = token-exact env.runtime request.authorization state.token_hash in
    (
      λ (local, host, origin, path, method, token). record {
        loopback = (eq_iff request.local_address "127.0.0.1").0 local;
        hosts = (hosts.0 host).0;
        host = (hosts.0 host).1;
        origin = origins.0 origin;
        path = path;
        method = ground (arith, eq_iff request.method "OPTIONS", method);
        token = tokens.0 token;
      },
      λ a. (
        (eq_iff request.local_address "127.0.0.1").1 a.loopback,
        hosts.1 (a.hosts, a.host),
        origins.1 a.origin,
        a.path,
        ground (arith, eq_iff request.method "OPTIONS", a.method),
        tokens.1 a.token,
      ),
    )

settle_flies :
    (server : Server) (number : ℕ) (request : Request) (state : ServerState) (checked : Checked)
    → ((settle server number request (state, checked)).1 ≡ none)
      ↔ ((pathname : String) × (checked ≡ admitted pathname))
unfolding settle
settle_flies server number request state (refused answer) = (λ h. absurd cc, λ h. absurd cc)
settle_flies server number request state (admitted pathname) = (λ h. (pathname, refl), λ h. refl)

-- A request goes into flight, from where alone a route can serve it, exactly if it is authentic, its
-- target is not too long, and a slot is free.
pub arrive_exact :
    (env : Environment) (server : Server) (number : ℕ) (request : Request)
    (port finding_id : String) (now : ℕ)
    → ((arrive env server number request port finding_id now).1 ≡ none) ↔ (
        (byte_length request.url_text ≤ server.state.limits.max_url_bytes)
        × (server.state.active_requests < server.state.limits.max_concurrent_requests)
        × (pathname : String) × IsAuthentic env server.state port pathname request)
unfolding arrive
arrive_exact env server number request port finding_id now =
    let state = take_slot server.state in
    let checked = check_request env state request port finding_id now in
    let flies = settle_flies server number request checked.0 checked.1 in
    (
      λ h.
          let (pathname, admits) = flies.0 (ground arith) in
          let authentic =
            (Passes-exact env server.state port pathname request).0
              (admitted-Passes env state request port finding_id pathname now admits) in
          (ground arith, ground arith, pathname, authentic),
      λ (short, free, pathname, authentic).
          let passed = (Passes-exact env server.state port pathname request).1 (authentic) in
          let flying =
            flies.1
              (pathname, Passes-admitted env state request port finding_id pathname now passed) in
          ground (arith, flying),
    )
