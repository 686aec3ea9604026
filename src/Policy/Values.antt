-- ===== src/Policy/Values.antt =====
-- packages/policy/src/index.ts: the checks of JSON values that the compiler of policy sets is made of.
-- A failure of `Result` is a `PolicyFailure` that the code throws. What a value of `Json` is by its
-- type, a finite tree of plain data with well-formed texts, is not tested again.
use Prim.Native.String.{◌++◌ as append}
use ai_software_engineering.Prelude.{
  ℕ, ◌+◌, String, Bool, true, false, not, ◌&&◌, Option, none, some, List, [], ◌∷◌, leb, nat_eq,
  ◌==◌, if◌then◌else◌, length, all, includes, Result, ok, err, ◌>>=◌, throw_if, text_length,
  sort_texts,
}
use ai_software_engineering.Contracts.Json.{
  Json, str, arr, obj, Items, nil, cons, Fields, end, field, get_field,
}
use ai_software_engineering.Contracts.Canonical.{Runtime}
use ai_software_engineering.Policy.Data.{
  FailureCode, invalid_policy_value, invalid_policy_set, PolicyFailure,
}

abbrev pub failure : FailureCode → String → String → PolicyFailure
failure failure_code path message = record {
  failure_code = failure_code;
  path = path;
  message = message;
}

abbrev pub below : String → String → String
below path key = append path (append "/" key)

-- `isRecord`, on a value that may be `undefined`.
abbrev pub as_record : Option Json → Option Fields
as_record (some (obj fs)) = some fs
as_record _ = none

abbrev pub as_text : Option Json → Option String
as_text (some (str s)) = some s
as_text _ = none

-- `value === text`
abbrev pub is_text : Option Json → String → Bool
is_text value text = elim (as_text value) [ none ↦ false | some s ↦ s == text ]

-- `isBoundedString`
abbrev pub is_bounded : ℕ → ℕ → String → Bool
is_bounded min_length max_length s =
    leb min_length (text_length s) && leb (text_length s) max_length

abbrev pub is_bounded_string : ℕ → ℕ → Option Json → Bool
is_bounded_string min_length max_length value = elim (as_text value) [
  | none ↦ false
  | some s ↦ is_bounded min_length max_length s
]

unfoldable pub keys : Fields → List String
keys end = []
keys (field k v fs) = k ∷ keys fs

-- `new Set(texts).size === texts.length`
unfoldable pub distinct : List String → Bool
distinct [] = true
distinct (s ∷ ss) = not (includes s ss) && distinct ss

-- `hasExactKeys`
unfoldable pub has_exact_keys : Fields → List String → Bool
unfolding keys
has_exact_keys fs allowed =
    nat_eq (length (keys fs)) (length allowed) && all (λ key. includes key allowed) (keys fs)

abbrev pub protected_keys : List String
protected_keys = "__proto__" ∷ "prototype" ∷ "constructor" ∷ []

-- `String(index)`
unfoldable pub index_text : Runtime → ℕ → String
index_text runtime index =
    runtime.show_number (record { negative = false; mantissa = index; exponent = 0 })

module _ (runtime : Runtime) where
  unfoldable mutual
    unfolding index_text

    -- `assertPolicyJson`
    pub assert_policy_json : Json → String → Result PolicyFailure (Unit {0})
    assert_policy_json (arr vs) path = assert_items vs path 0
    assert_policy_json (obj fs) path = assert_fields fs path
    assert_policy_json _ path = ok tt

    pub assert_items : Items → String → ℕ → Result PolicyFailure (Unit {0})
    assert_items nil path index = ok tt
    assert_items (cons v vs) path index =
        let rest = assert_items vs path (index + 1) in
        assert_policy_json v (below path (index_text runtime index)) >>= λ _. rest

    pub assert_fields : Fields → String → Result PolicyFailure (Unit {0})
    assert_fields end path = ok tt
    assert_fields (field k v fs) path =
        let rest = assert_fields fs path in
        let child = assert_policy_json v (below path k) in
        throw_if (includes k protected_keys) (failure invalid_policy_value path "Unsafe object key")
        >>= λ _. child >>= λ _. rest

-- `requiredString`: no pattern is a test that every text passes.
unfoldable pub required_string :
    Fields → String → String → (String → Bool) → Option ℕ → ℕ → Result PolicyFailure String
required_string fs key path pattern max_length min_length =
    let failed = failure invalid_policy_set (below path key) "Expected canonical string" in
    elim (as_text (get_field key fs)) [
      | none ↦ err failed
      | some s ↦
          if leb min_length (text_length s)
            && elim max_length [ none ↦ true | some bound ↦ leb (text_length s) bound ]
            && pattern s
          then ok s
          else err failed
    ]

abbrev pub any_text : String → Bool
any_text s = true

-- `exactKeys`
unfoldable pub exact_keys : Fields → List String → String → Result PolicyFailure (Unit {0})
exact_keys end allowed path = ok tt
exact_keys (field k v fs) allowed path =
    let rest = exact_keys fs allowed path in
    if includes k allowed
    then rest
    else err (failure invalid_policy_set (below path k) "Unknown field")

-- The texts of an array of texts of 1 to `max_length` code units.
unfoldable pub bounded_strings : ℕ → Items → Option (List String)
bounded_strings max_length nil = some []
bounded_strings max_length (cons (str s) vs) =
    let rest = bounded_strings max_length vs in
    if is_bounded 1 max_length s then elim rest [ none ↦ none | some ss ↦ some (s ∷ ss) ] else none
bounded_strings max_length (cons _ vs) = none

-- `isUniqueBoundedStringArray`, with the texts.
unfoldable pub unique_bounded_strings : ℕ → Option Json → Option (List String)
unfolding bounded_strings distinct
unique_bounded_strings max_length (some (arr vs)) = elim (bounded_strings max_length vs) [
  | none ↦ none
  | some ss ↦ if distinct ss then some ss else none
]
unique_bounded_strings max_length _ = none

-- `sortedUniqueStrings`
unfoldable pub sorted_unique_strings : Option Json → String → Result PolicyFailure (List String)
unfolding unique_bounded_strings sort_texts
sorted_unique_strings value path = elim (unique_bounded_strings 256 value) [
  | none ↦ err (failure invalid_policy_set path "Expected unique bounded string array")
  | some ss ↦ ok (sort_texts ss)
]
