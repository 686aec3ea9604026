-- ===== src/Contracts/Json.antt =====
-- JSON values, as the program passes them around: immutable trees of plain data, which is what
-- `freezeJson` and `snapshot` of packages/kernel/src/index.ts make of their input.
use ai_software_engineering.Prelude.{
  ℕ, ◌+◌, ◌*◌, ◌^◌, String, Bool, false, Option, none, some, List, [], ◌∷◌, map, ltb, ◌==◌,
  if◌then◌else◌,
}

-- A finite double is a fraction over a power of two: sign, mantissa / 2 ^ exponent, in lowest terms.
pub record Number : Type 0 where
  pub negative : Bool
  pub mantissa : ℕ
  pub exponent : ℕ

mutual
  pub data Json : Type 0 where
    null : Json
    bool : Bool → Json
    num : Number → Json
    str : String → Json
    arr : Items → Json
    obj : Fields → Json

  pub data Items : Type 0 where
    nil : Items
    cons : Json → Items → Items

  pub data Fields : Type 0 where
    end : Fields
    field : String → Json → Fields → Fields

abbrev pub natural : ℕ → Json
natural n = num (record { negative = false; mantissa = n; exponent = 0 })

unfoldable pub items : List Json → Items
items [] = nil
items (v ∷ vs) = cons v (items vs)

unfoldable pub elements : Items → List Json
elements nil = []
elements (cons v vs) = v ∷ elements vs

unfoldable pub texts : List String → Json
unfolding items
texts ss = arr (items (map str ss))

-- An object literal; a member that is `none` is left out of it.
unfoldable pub fields : List (String × Option Json) → Fields
fields [] = end
fields ((k, none) ∷ ms) = fields ms
fields ((k, some v) ∷ ms) = field k v (fields ms)

unfoldable pub object : List (String × Option Json) → Json
unfolding fields
object ms = obj (fields ms)

-- `value[key]` on the own members; `none` is `undefined`.
unfoldable pub get_field : String → Fields → Option Json
get_field key end = none
get_field key (field k v fs) = if k == key then some v else get_field key fs

unfoldable pub member : String → Json → Option Json
unfolding get_field
member key (obj fs) = get_field key fs
member key _ = none

-- `left < right` on numbers: both sides are brought to one denominator.
abbrev magnitude : Number → ℕ → ℕ
magnitude a e = a.mantissa * 2 ^ e

unfoldable pub number_lt : Number → Number → Bool
number_lt a b =
    let x = magnitude a b.exponent in
    let y = magnitude b a.exponent in
    if a.negative
    then (if b.negative then ltb y x else ltb 0 (x + y))
    else (if b.negative then false else ltb x y)
