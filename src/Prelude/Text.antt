-- ===== src/Prelude/Text.antt =====
-- JavaScript texts are sequences of UTF-16 code units, and are ordered and measured by them.
use Prim.Native.Nat.{ℕ, ◌+◌, ◌-◌, ◌/◌, ◌%◌, compare, Ordering}
use Prim.Native.Char.{code}
use Prim.Native.String.{String}
use mathlib.Core.Bool.{Bool, true, false}
use mathlib.Core.List.{List, [], ◌∷◌, ◌++◌}
use ai_software_engineering.Prelude.Tests.{ltb, if◌then◌else◌}
use ai_software_engineering.Prelude.Lists.{length}

-- The code units of one code point: a surrogate pair above the basic plane.
abbrev pub utf16 : ℕ → List ℕ
utf16 c =
    if ltb c 0x10000
    then c ∷ []
    else (0xd800 + (c - 0x10000) / 0x400) ∷ (0xdc00 + (c - 0x10000) % 0x400) ∷ []

abbrev pub code_units : String → List ℕ
code_units String.[] = []
code_units (String.◌∷◌ c s) = utf16 (code c) ++ code_units s

-- `s.length`
abbrev pub text_length : String → ℕ
text_length s = length (code_units s)

-- `Buffer.byteLength(text, "utf8")`
unfoldable pub byte_length : String → ℕ
byte_length String.[] = 0
byte_length (String.◌∷◌ c s) =
    let n = code c in
    (if ltb n 0x80 then 1 else if ltb n 0x800 then 2 else if ltb n 0x10000 then 3 else 4)
    + byte_length s

-- `left < right` on texts
abbrev pub units_lt : List ℕ → List ℕ → Bool
units_lt xs [] = false
units_lt [] (y ∷ ys) = true
units_lt (x ∷ xs) (y ∷ ys) = elim (compare x y) [
  | Ordering.lt ↦ true
  | Ordering.eq ↦ units_lt xs ys
  | Ordering.gt ↦ false
]

abbrev pub text_lt : String → String → Bool
text_lt s t = units_lt (code_units s) (code_units t)

-- `[...texts].sort()`: a stable sort by code units, the insertion sort that computes it.
unfoldable pub insert_text : String → List String → List String
insert_text s [] = s ∷ []
insert_text s (t ∷ ts) = if text_lt t s then t ∷ insert_text s ts else s ∷ t ∷ ts

unfoldable pub sort_texts : List String → List String
unfolding insert_text
sort_texts [] = []
sort_texts (s ∷ ss) = insert_text s (sort_texts ss)

-- The order of two texts by their code points.
unfoldable pub point_lt : String → String → Bool
point_lt String.[] String.[] = false
point_lt String.[] (String.◌∷◌ d t) = true
point_lt (String.◌∷◌ c s) String.[] = false
point_lt (String.◌∷◌ c s) (String.◌∷◌ d t) =
    let rest = point_lt s t in
    if ltb (code c) (code d) then true else if ltb (code d) (code c) then false else rest
