-- ===== src/Platform/Control/Guarded.antt =====
-- The requests in flight of packages/platform/src/server.ts, over any events.
use ai_software_engineering.Prelude.{
  ℕ, ◌-◌, String, ◌≡◌, ◌-◌, refl, sym, subst, ◌∙◌, ◌⊎◌, inl, inr, true, false, ◌||◌, none, some,
  List, [], ◌∷◌, arith, ltb, leb, nat_eq, Bool-cases, Option-cases, includes, byte_length, All,
}
use ai_software_engineering.Platform.Control.State.{ServerState, Request, Answer, Environment}
use ai_software_engineering.Platform.Control.Checks.{Checked, refused, admitted, check_request}
use ai_software_engineering.Platform.Control.Slots.{
  Flight, Server, release_slot, find_flight, remove_flight, set_flight, Event, arrives, reads_body,
  times_out, closes, settle, take_slot, arrive, read_body, time_out, close, step, run,
}
use ai_software_engineering.Platform.Control.Kept.{check_request-IsKept, serve_flight-IsKept}
use ai_software_engineering.Platform.Control.Authenticated.{
  IsAuthentic, admitted-Passes, Passes-exact,
}

-- A flight whose request is authentic, for the path that it will be served.
abbrev pub IsServable : Environment → ServerState → String → Flight → Type 0
IsServable env start port flight = IsAuthentic env start port flight.pathname flight.request

-- The digest of the token and the allowed origins are those of the start, and by them every request in
-- flight is authentic.
pub record IsGuarded (env : Environment) (start : ServerState) (port : String) (server : Server)
    : Type 0 where
  pub token : server.state.token_hash ≡ start.token_hash
  pub origins : server.state.allowed_origins ≡ start.allowed_origins
  pub servable : All (IsServable env start port) server.flights

-- A request arrives at the port of the server.
abbrev pub HasPort : String → Event → Type 0
HasPort port (arrives number request p finding_id now) = p ≡ port
HasPort port (reads_body number chunks operation_id now) = Unit {0}
HasPort port (times_out number) = Unit {0}
HasPort port (closes number) = Unit {0}

same-IsAuthentic :
    (env : Environment) (start state : ServerState) (port pathname : String) (request : Request)
    → state.token_hash ≡ start.token_hash
    → state.allowed_origins ≡ start.allowed_origins
    → IsAuthentic env state port pathname request
    → IsAuthentic env start port pathname request
same-IsAuthentic env start state port pathname request token origins a = record {
  loopback = a.loopback;
  hosts = a.hosts;
  host = a.host;
  origin =
      subst
        (λ (l : List String).
          (request.origin ≡ none)
          ⊎ ((o : String) × (request.origin ≡ some o) × (includes o l ≡ true)))
        origins a.origin;
  path = a.path;
  method = a.method;
  token = (a.token.0, a.token.1, a.token.2 ∙ token);
}

module _ (P : Flight → Type 0) where
  All-find_flight :
      (number : ℕ) (fs : List Flight) (f : Flight) → find_flight number fs ≡ some f → All P fs → P f
  unfolding find_flight
  All-find_flight number [] f h all_fs = absurd cc
  All-find_flight number (g ∷ fs) f h all_fs = elim (Bool-cases (nat_eq g.number number)) [
    | inl here ↦ let same : g ≡ f = ground arith in subst P same all_fs.0
    | inr there ↦ All-find_flight number fs f (ground arith) all_fs.1
  ]

  All-remove_flight : (number : ℕ) (fs : List Flight) → All P fs → All P (remove_flight number fs)
  unfolding remove_flight
  All-remove_flight number [] all_fs = tt
  All-remove_flight number (g ∷ fs) all_fs = elim (Bool-cases (nat_eq g.number number)) [
    | inl here ↦ rw here all_fs.1
    | inr there ↦ rw there (all_fs.0, All-remove_flight number fs all_fs.1)
  ]

  All-set_flight : (f : Flight) (fs : List Flight) → P f → All P fs → All P (set_flight f fs)
  unfolding set_flight
  All-set_flight f [] p all_fs = tt
  All-set_flight f (g ∷ fs) p all_fs = elim (Bool-cases (nat_eq g.number f.number)) [
    | inl here ↦ rw here (p, all_fs.1)
    | inr there ↦ rw there (all_fs.0, All-set_flight f fs p all_fs.1)
  ]

Checked-values :
    (c : Checked)
    → ((answer : Answer) × (c ≡ refused answer)) ⊎ ((pathname : String) × (c ≡ admitted pathname))
Checked-values (refused answer) = inl (answer, refl)
Checked-values (admitted pathname) = inr (pathname, refl)

release_slot-cases :
    (flight : Flight) (state : ServerState)
    → (release_slot flight state ≡ (
      record flight { slot_owned = false },
      record state { active_requests = state.active_requests - 1 },
    ))
      ⊎ (release_slot flight state ≡ (flight, state))
unfolding release_slot
release_slot-cases flight state = elim (Bool-cases flight.slot_owned) [
  | inl owns ↦ inl (ground (arith, owns))
  | inr free ↦ inr (ground (arith, free))
]

module _ (env : Environment) (start : ServerState) (port : String) where
  settle-IsGuarded :
      (server : Server) (number : ℕ) (request : Request) (state : ServerState) (checked : Checked)
      → state.token_hash ≡ start.token_hash
      → state.allowed_origins ≡ start.allowed_origins
      → All (IsServable env start port) server.flights
      → ((pathname : String)
          → checked ≡ admitted pathname
          → IsAuthentic env start port pathname request)
      → IsGuarded env start port (settle server number request (state, checked)).0
  unfolding settle
  settle-IsGuarded server number request state (refused answer) token origins flying passed =
      record { token = token; origins = origins; servable = flying }
  settle-IsGuarded server number request state (admitted pathname) token origins flying passed =
      record { token = token; origins = origins; servable = (passed pathname refl, flying) }

  arrive-IsGuarded :
      (server : Server) (number : ℕ) (request : Request) (finding_id : String) (now : ℕ)
      → IsGuarded env start port server
      → IsGuarded env start port (arrive env server number request port finding_id now).0
  unfolding arrive
  arrive-IsGuarded server number request finding_id now g =
      let kept = check_request-IsKept env (take_slot server.state) request port finding_id now in
      let checked = check_request env (take_slot server.state) request port finding_id now in
      elim (Bool-cases (ltb server.state.limits.max_url_bytes (byte_length request.url_text))) [
        | inl long ↦ rw long g
        | inr short ↦
            elim (Bool-cases
              (leb server.state.limits.max_concurrent_requests server.state.active_requests)) [
                | inl full ↦ rw (short, full) g
                | inr room ↦
                    rw (short, room)
                      (settle-IsGuarded server number request checked.0 checked.1
                        (kept.token ∙ g.token) (kept.origins ∙ g.origins) g.servable
                        (λ pathname admits.
                          same-IsAuthentic env start server.state port pathname request g.token
                            g.origins
                            ((Passes-exact env server.state port pathname request).0 (
                              admitted-Passes env (take_slot server.state) request port finding_id
                                pathname now admits))))
              ]
      ]

  read_body-IsGuarded :
      (server : Server) (flight : Flight) (chunks : List ℕ) (operation_id : String) (now : ℕ)
      → IsGuarded env start port server
      → IsGuarded env start port (read_body env server flight chunks operation_id now).0
  unfolding read_body release_slot
  read_body-IsGuarded server flight chunks operation_id now g =
      let kept = serve_flight-IsKept env server.state flight chunks operation_id now in
      let rest =
        All-remove_flight (IsServable env start port) flight.number server.flights g.servable in
      elim (Bool-cases flight.slot_owned) [
        | inl owns ↦ rw owns (record {
          token = kept.token ∙ g.token;
          origins = kept.origins ∙ g.origins;
          servable = rest;
        })
        | inr free ↦ rw free (record {
          token = kept.token ∙ g.token;
          origins = kept.origins ∙ g.origins;
          servable = rest;
        })
      ]

  -- The timer and the close set a flight with the same request, in a state with the same token.
  release-IsGuarded :
      (server : Server) (flight : Flight)
      → IsServable env start port flight
      → IsGuarded env start port server
      → IsGuarded env start port (record {
        state = (release_slot flight server.state).1;
        flights = set_flight (release_slot flight server.state).0 server.flights;
      })
  release-IsGuarded server flight servable g = elim (release_slot-cases flight server.state) [
    | inl freed ↦ rw freed (record {
      token = g.token;
      origins = g.origins;
      servable =
          All-set_flight (IsServable env start port) (record flight { slot_owned = false })
            server.flights servable g.servable;
    })
    | inr kept ↦ rw kept (record {
      token = g.token;
      origins = g.origins;
      servable =
          All-set_flight (IsServable env start port) flight server.flights servable g.servable;
    })
  ]

  step-IsGuarded :
      (server : Server) (event : Event)
      → HasPort port event
      → IsGuarded env start port server
      → IsGuarded env start port (step env server event).0
  unfolding step time_out close
  step-IsGuarded server (arrives number request p finding_id now) here g =
      elim (Option-cases (find_flight number server.flights)) [
        | inl fresh ↦
            rw (fresh, step)
              (subst
                (λ (q : String).
                  IsGuarded env start port (arrive env server number request q finding_id now).0)
                (sym here) (arrive-IsGuarded server number request finding_id now g))
        | inr (flight, known) ↦ rw (known, step) g
      ]
  step-IsGuarded server (reads_body number chunks operation_id now) here g =
      elim (Option-cases (find_flight number server.flights)) [
        | inl unknown ↦ rw (unknown, step) g
        | inr (flight, found) ↦
            rw (found, step) (read_body-IsGuarded server flight chunks operation_id now g)
      ]
  step-IsGuarded server (times_out number) here g =
      elim (Option-cases (find_flight number server.flights)) [
        | inl unknown ↦ rw (unknown, step) g
        | inr (flight, found) ↦ elim (Bool-cases (flight.destroyed || flight.timed_out)) [
          | inl over ↦ rw (found, over, step) g
          | inr waiting ↦
              rw (found, waiting, step)
                (release-IsGuarded server (record flight { timed_out = true })
                  (All-find_flight (IsServable env start port) number server.flights flight found
                    g.servable)
                  g)
        ]
      ]
  step-IsGuarded server (closes number) here g =
      elim (Option-cases (find_flight number server.flights)) [
        | inl unknown ↦ rw (unknown, step) g
        | inr (flight, found) ↦
            rw (found, step)
              (release-IsGuarded server (record flight { destroyed = true })
                (All-find_flight (IsServable env start port) number server.flights flight found
                  g.servable)
                g)
      ]

  -- From a server whose requests in flight are authentic, it is so after any events, as long as requests
  -- arrive at its port: the digest of the token and the allowed origins stay, and every request in flight
  -- is authentic by them for the path that it waits to be served.
  pub run-IsGuarded :
      (events : List Event) (server : Server)
      → All (HasPort port) events
      → IsGuarded env start port server
      → IsGuarded env start port (run env events server)
  unfolding run
  run-IsGuarded [] server ports g = g
  run-IsGuarded (e ∷ es) server ports g =
      run-IsGuarded es (step env server e).0 ports.1 (step-IsGuarded server e ports.0 g)
