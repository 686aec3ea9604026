-- ===== src/Platform/Idempotency/Evict.antt =====
-- What the eviction loop leaves, and how `get` reads a list after each change.
use ai_software_engineering.Prelude.{
  ℕ, zero, suc, ◌+◌, ◌-◌, ◌<◌, ◌≡◌, refl, sym, Bool-cases, inl, inr, String, none, some, List, [],
  ◌∷◌, ◌++◌, arith, leb, ◌==◌, eq_iff, if◌then◌else◌, length,
}
use ai_software_engineering.Platform.Idempotency.{Entry, prune, get, set, evict}

abbrev pub drop {ℓ} : {A : Type ℓ} → ℕ → List A → List A
drop zero xs = xs
drop (suc n) [] = []
drop (suc n) (x ∷ xs) = drop n xs

drop_nil {ℓ} : {A : Type ℓ} (n : ℕ) → drop {A = A} n [] ≡ []
drop_nil zero = refl
drop_nil (suc n) = refl

-- Enough room counts as nothing to drop; otherwise the first entry goes.
drop_step :
    (capacity : ℕ) (e : Entry) (es : List Entry)
    → drop (suc (length es) + 1 - capacity) (e ∷ es)
      ≡ (if leb capacity (suc (length es)) then drop (length es + 1 - capacity) es else e ∷ es)
drop_step capacity e es = elim (Bool-cases (leb capacity (suc (length es)))) [
  | inl full ↦
      let k : suc (length es) + 1 - capacity ≡ suc (length es + 1 - capacity) = ground arith in
      rw (full, k)
  | inr room ↦ let k : suc (length es) + 1 - capacity ≡ 0 = ground arith in rw (room, k)
]

-- The loop drops just the oldest entries that stand in the way of one more.
pub evict-eq-drop :
    (capacity : ℕ) (es : List Entry) → evict capacity es ≡ drop (length es + 1 - capacity) es
unfolding evict
evict-eq-drop capacity [] = sym (drop_nil _)
evict-eq-drop capacity (e ∷ es) = rw (drop_step capacity e es, evict-eq-drop capacity es)

pub length-evict :
    (capacity : ℕ) (es : List Entry) → 0 < capacity → length (evict capacity es) < capacity
unfolding evict
length-evict capacity [] h = h
length-evict capacity (e ∷ es) h = ground (arith, length-evict capacity es h)

pub evict_room : (capacity : ℕ) (es : List Entry) → length es < capacity → evict capacity es ≡ es
unfolding evict
evict_room capacity [] h = refl
evict_room capacity (e ∷ es) h = ground arith

pub prune-prune : (now : ℕ) (es : List Entry) → prune now (prune now es) ≡ prune now es
unfolding prune
prune-prune now [] = refl
prune-prune now (e ∷ es) = ground (arith, prune-prune now es)

pub get-evict-none :
    (key : String) (capacity : ℕ) (es : List Entry)
    → get key es ≡ none
    → get key (evict capacity es) ≡ none
unfolding get evict
get-evict-none key capacity [] h = refl
get-evict-none key capacity (e ∷ es) h = ground (arith, get-evict-none key capacity es)

pub get-set :
    (key : String) (n : Entry) (es : List Entry)
    → get key (set n es) ≡ (if n.key == key then some n else get key es)
unfolding get set
get-set key n [] = refl
get-set key n (e ∷ es) =
    ground (arith, eq_iff e.key n.key, eq_iff n.key key, eq_iff e.key key, get-set key n es)

-- With no entry under its key, a new entry goes to the end.
pub set_new : (n : Entry) (es : List Entry) → get n.key es ≡ none → set n es ≡ es ++ n ∷ []
unfolding get set
set_new n [] h = refl
set_new n (e ∷ es) h = ground (arith, set_new n es)
