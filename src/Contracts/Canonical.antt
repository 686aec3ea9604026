-- ===== src/Contracts/Canonical.antt =====
-- packages/contracts/src/canonical-json.ts: the canonical text of a JSON value, and its hash.
-- The printing of a number by `JSON.stringify` and SHA-256 are parameters.
use Prim.Native.Char.{Char, code}
use Prim.Native.String.{◌++◌ as append}
use ai_software_engineering.Prelude.{
  ℕ, zero, suc, ◌/◌, ◌%◌, String, true, false, List, [], ◌∷◌, map, ltb, nat_eq, if◌then◌else◌,
  text_lt,
}
use ai_software_engineering.Contracts.Json.{
  Number, Json, Items, Fields, null, bool, num, str, arr, obj, nil, cons, end, field,
}

pub record Runtime : Type 0 where
  pub show_number : Number → String
  pub sha256 : String → String

-- `texts.join("")` and `texts.join(",")`
unfoldable pub concat : List String → String
concat [] = ""
concat (s ∷ ss) = append s (concat ss)

unfoldable pub join : List String → String
join [] = ""
join (s ∷ []) = s
join (s ∷ ss) = append s (append "," (join ss))

abbrev hex_digit : ℕ → String
hex_digit zero = "0"
hex_digit (suc zero) = "1"
hex_digit (suc (suc zero)) = "2"
hex_digit (suc (suc (suc zero))) = "3"
hex_digit (suc (suc (suc (suc zero)))) = "4"
hex_digit (suc (suc (suc (suc (suc zero))))) = "5"
hex_digit (suc (suc (suc (suc (suc (suc zero)))))) = "6"
hex_digit (suc (suc (suc (suc (suc (suc (suc zero))))))) = "7"
hex_digit (suc (suc (suc (suc (suc (suc (suc (suc zero)))))))) = "8"
hex_digit (suc (suc (suc (suc (suc (suc (suc (suc (suc zero))))))))) = "9"
hex_digit n =
    if nat_eq n 10
    then "a"
    else if nat_eq n 11
    then "b"
    else if nat_eq n 12
    then "c"
    else if nat_eq n 13
    then "d"
    else if nat_eq n 14
    then "e"
    else "f"

-- `JSON.stringify` on a text: the escapes of one character, and the quotes.
escape : Char → String
escape c =
    let n = code c in
    if nat_eq n 34
    then "\\\""
    else if nat_eq n 92
    then "\\\\"
    else if nat_eq n 8
    then "\\b"
    else if nat_eq n 9
    then "\\t"
    else if nat_eq n 10
    then "\\n"
    else if nat_eq n 12
    then "\\f"
    else if nat_eq n 13
    then "\\r"
    else if ltb n 32
    then concat ("\\u00" ∷ hex_digit (n / 16) ∷ hex_digit (n % 16) ∷ [])
    else String.◌∷◌ c ""

escaped : String → String
escaped String.[] = ""
escaped (String.◌∷◌ c s) = append (escape c) (escaped s)

unfoldable pub quote : String → String
unfolding concat escape escaped
quote s = concat ("\"" ∷ escaped s ∷ "\"" ∷ [])

-- The members of an object are ordered by their keys' code units.
unfoldable pub insert_member : String × String → List (String × String) → List (String × String)
insert_member m [] = m ∷ []
insert_member (k, t) ((j, u) ∷ ms) =
    if text_lt j k then (j, u) ∷ insert_member (k, t) ms else (k, t) ∷ (j, u) ∷ ms

unfoldable pub sort_members : List (String × String) → List (String × String)
unfolding insert_member
sort_members [] = []
sort_members (m ∷ ms) = insert_member m (sort_members ms)

unfoldable pub show_member : String × String → String
unfolding quote concat
show_member (k, t) = concat (quote k ∷ ":" ∷ t ∷ [])

module _ (runtime : Runtime) where
  unfoldable mutual
    unfolding quote concat join sort_members show_member

    pub canonicalize : Json → String
    canonicalize null = "null"
    canonicalize (bool true) = "true"
    canonicalize (bool false) = "false"
    canonicalize (num n) = runtime.show_number n
    canonicalize (str s) = quote s
    canonicalize (arr vs) = concat ("[" ∷ join (canonicalize_items vs) ∷ "]" ∷ [])
    canonicalize (obj fs) =
        concat ("{" ∷ join (map show_member (sort_members (canonicalize_fields fs))) ∷ "}" ∷ [])

    pub canonicalize_items : Items → List String
    canonicalize_items nil = []
    canonicalize_items (cons v vs) = canonicalize v ∷ canonicalize_items vs

    pub canonicalize_fields : Fields → List (String × String)
    canonicalize_fields end = []
    canonicalize_fields (field k v fs) = (k, canonicalize v) ∷ canonicalize_fields fs

  unfoldable pub canonical_json : Json → String
  unfolding canonicalize
  canonical_json v = canonicalize v

  unfoldable pub canonical_json_sha256 : Json → String
  unfolding canonical_json
  canonical_json_sha256 v = runtime.sha256 (canonical_json v)
