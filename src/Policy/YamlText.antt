-- ===== src/Policy/YamlText.antt =====
-- The texts of the restricted YAML in packages/policy/src/index.ts: `parseScalar`, `splitMapping`, and
-- the methods of `String` and the regular expressions that they use.
use Prim.Native.Char.{code}
use ai_software_engineering.Prelude.{
  ℕ, String, Bool, true, false, not, ◌&&◌, ◌||◌, Option, none, some, ltb, leb, nat_eq, ◌==◌,
  if◌then◌else◌, includes, Result, ok, err, ◌>>=◌, ◌>>◌, throw_if, require, text_length,
}
use ai_software_engineering.Contracts.Json.{Number, Json, null, bool, num, str}
use ai_software_engineering.Contracts.Canonical.{Runtime}
use ai_software_engineering.Policy.Data.{
  FailureCode, invalid_yaml, yaml_limit_exceeded, PolicyFailure,
}
use ai_software_engineering.Policy.Patterns.{
  is_digit, is_upper, is_lower, every_code, skip_while, after_number, after_code, after_fraction,
}
use ai_software_engineering.Policy.Values.{failure, below, protected_keys, index_text}

-- `Number` on a text of the number syntax, none where it is not finite, and `JSON.parse`, none where
-- it throws.
pub record Readers : Type 0 where
  pub read_number : String → Option Number
  pub parse_json : String → Option Json

pub record RestrictedYamlLimits : Type 0 where
  pub max_bytes : ℕ
  pub max_lines : ℕ
  pub max_depth : ℕ
  pub max_nodes : ℕ
  pub max_scalar_length : ℕ

-- The white space of `trim`, `trimStart` and `\s`.
abbrev pub is_space : ℕ → Bool
is_space c =
    leb 9 c && leb c 13
    || nat_eq c 32
    || nat_eq c 160
    || nat_eq c 0x1680
    || leb 0x2000 c && leb c 0x200a
    || nat_eq c 0x2028
    || nat_eq c 0x2029
    || nat_eq c 0x202f
    || nat_eq c 0x205f
    || nat_eq c 0x3000
    || nat_eq c 0xfeff

unfoldable pub trim_start : String → String
unfolding skip_while
trim_start s = skip_while is_space s

abbrev pub is_empty_text : String → Bool
is_empty_text String.[] = true
is_empty_text (String.◌∷◌ c s) = false

abbrev is_key_start : ℕ → Bool
is_key_start c = is_upper c || is_lower c

abbrev is_key_part : ℕ → Bool
is_key_part c = is_upper c || is_lower c || is_digit c || nat_eq c b'_' || nat_eq c b'-'

-- `/^[A-Za-z][A-Za-z0-9_-]*$/u`
unfoldable pub mapping_key : String → Bool
unfolding every_code
mapping_key String.[] = false
mapping_key (String.◌∷◌ c s) = is_key_start (code c) && every_code is_key_part s

-- `/^[A-Za-z][A-Za-z0-9_-]*:/u`
unfoldable pub begins_mapping : String → Bool
unfolding skip_while
begins_mapping String.[] = false
begins_mapping (String.◌∷◌ c s) =
    is_key_start (code c)
    && elim (after_code b':' (skip_while is_key_part s)) [ none ↦ false | some rest ↦ true ]

-- `[0-9]+`, and what is left after it.
abbrev after_digits : String → Option String
after_digits String.[] = none
after_digits (String.◌∷◌ c s) = if is_digit (code c) then some (skip_while is_digit s) else none

abbrev after_sign : String → String
after_sign String.[] = ""
after_sign (String.◌∷◌ c s) =
    if nat_eq (code c) b'+' || nat_eq (code c) b'-' then s else String.◌∷◌ c s

-- `(?:[eE][+-]?[0-9]+)?$`
abbrev ends_with_exponent : String → Bool
ends_with_exponent String.[] = true
ends_with_exponent (String.◌∷◌ c s) =
    (nat_eq (code c) b'e' || nat_eq (code c) b'E')
    && elim (after_digits (after_sign s)) [ some String.[] ↦ true | _ ↦ false ]

abbrev after_minus : String → String
after_minus String.[] = ""
after_minus (String.◌∷◌ c s) = if nat_eq (code c) b'-' then s else String.◌∷◌ c s

-- `/^-?(?:0|[1-9][0-9]*)(?:\.[0-9]+)?(?:[eE][+-]?[0-9]+)?$/u`
unfoldable pub number_syntax : String → Bool
unfolding after_number skip_while after_fraction
number_syntax s = elim (after_number (after_minus s)) [
  | none ↦ false
  | some s1 ↦ elim (after_fraction s1) [ none ↦ false | some s2 ↦ ends_with_exponent s2 ]
]

-- `source.startsWith(quote) && source.endsWith(quote)`
abbrev ends_quoted : String → Bool
ends_quoted String.[] = false
ends_quoted (String.◌∷◌ c String.[]) = nat_eq (code c) 34
ends_quoted (String.◌∷◌ c (String.◌∷◌ d s)) = ends_quoted (String.◌∷◌ d s)

abbrev pub is_quoted : String → Bool
is_quoted s = elim (after_code 34 s) [ none ↦ false | some rest ↦ ends_quoted s ]

-- The text before the first colon and the text after it, if there is one.
unfoldable pub split_colon : String → Option (String × String)
split_colon String.[] = none
split_colon (String.◌∷◌ c s) =
    let rest = split_colon s in
    if nat_eq (code c) b':'
    then some ("", s)
    else elim rest [ none ↦ none | some (key, after) ↦ some (String.◌∷◌ c key, after) ]

module _ (runtime : Runtime) where
  -- What `yamlFailure` throws.
  unfoldable pub yaml_failure : FailureCode → ℕ → String → PolicyFailure
  unfolding index_text
  yaml_failure failure_code line message =
      failure failure_code (below "$/line" (index_text runtime line)) message

  -- `parseScalar`
  unfoldable pub parse_scalar : Readers → String → ℕ → ℕ → Result PolicyFailure Json
  unfolding number_syntax yaml_failure
  parse_scalar readers source line max_scalar_length =
      if ltb max_scalar_length (text_length source)
      then err (yaml_failure yaml_limit_exceeded line "Scalar too long")
      else if source == "true"
      then ok (bool true)
      else if source == "false"
      then ok (bool false)
      else if source == "null"
      then ok null
      else if number_syntax source
      then elim (readers.read_number source) [
        | none ↦ err (yaml_failure invalid_yaml line "Non-finite number")
        | some n ↦ ok (num n)
      ]
      else if is_quoted source
      then elim (readers.parse_json source) [
        | none ↦ err (yaml_failure invalid_yaml line "Invalid JSON string scalar")
        | some (str s) ↦ ok (str s)
        | some _ ↦ err (yaml_failure invalid_yaml line "Expected string scalar")
      ]
      else err (
          yaml_failure invalid_yaml line
            "Only JSON double-quoted strings and JSON scalars are allowed")

  abbrev is_separated : String → Bool
  is_separated String.[] = true
  is_separated (String.◌∷◌ c s) = nat_eq (code c) 32

  -- `splitMapping`
  unfoldable pub split_mapping : String → ℕ → Result PolicyFailure (String × String)
  unfolding split_colon mapping_key yaml_failure trim_start
  split_mapping content line = do
    (key, rest) ←
        require (split_colon content) (yaml_failure invalid_yaml line "Expected mapping entry")
    throw_if (is_empty_text key) (yaml_failure invalid_yaml line "Expected mapping entry")
    throw_if (not (mapping_key key) || includes key protected_keys)
        (yaml_failure invalid_yaml line "Unsafe mapping key")
    throw_if (not (is_separated rest))
        (yaml_failure invalid_yaml line "Mapping values require one separating space")
    ok (key, trim_start rest)
