-- ===== src/Platform/Idempotency/Tests.antt =====
-- Concrete runs of the idempotency registry.
use ai_software_engineering.Prelude.{◌≡◌, refl, none, List, [], ◌∷◌, arith, eq_iff, err}
use ai_software_engineering.Platform.Idempotency.{
  size, Registry, replay, conflict, range_error, new, prune, get, lookup, evict, put,
}
use ai_software_engineering.Platform.Idempotency.Evict.{drop, evict-eq-drop}
use ai_software_engineering.Platform.Idempotency.Answers.{lookup-put_ne}
use ai_software_engineering.Platform.Idempotency.Held.{lookup-run-put}
use ai_software_engineering.Platform.Idempotency.Bounds.{
  IsBounded, Call, looks_up, records, sizes, run, run-new-IsBounded,
}

abbrev start : Registry
start = record { capacity = 2; ttl_ms = 100; entries = [] }

abbrev filled : Registry
filled = record start {
  entries = record { key = "a"; payload_hash = "h"; result_identity = "r"; expires_at = 100 } ∷ [];
}

abbrev script : List Call
script =
    records "a" "h" "r" 0
    ∷ records "b" "h" "s" 1
    ∷ looks_up "a" "g" 2
    ∷ records "c" "h" "t" 3
    ∷ sizes 50
    ∷ []

new_zero : new 0 100 ≡ err range_error
unfolding new
new_zero = refl

-- The third key evicts the oldest.
run_evicts : get "a" (run script start).entries ≡ none
unfolding run put lookup get size
run_evicts = refl

run-new-IsBounded_example : IsBounded (run script start)
unfolding new
run-new-IsBounded_example = run-new-IsBounded 2 100 script start refl

-- One more record fits beside the first.
abbrev later_calls : List Call
later_calls = records "b" "h" "s" 1 ∷ looks_up "a" "g" 2 ∷ []

lookup-run-put_example :
    (lookup "a" "g" 99 (run later_calls (put "a" "h" "r" 0 start).0)).1 ≡ conflict
unfolding lookup
lookup-run-put_example =
    lookup-run-put "a" "h" "g" "r" 0 99 later_calls start refl (omega arith) (omega arith)
      (omega arith)

lookup-put_ne_example : (lookup "a" "h" 50 (put "b" "g" "s" 20 filled).0).1 ≡ replay "r"
unfolding lookup prune
lookup-put_ne_example =
    lookup-put_ne "b" "a" "g" "h" "s" 20 50 filled (ground (arith, eq_iff "b" "a")) (omega arith)
      (omega arith)

evict-eq-drop_example : evict 1 filled.entries ≡ drop 1 filled.entries
evict-eq-drop_example = evict-eq-drop 1 filled.entries
