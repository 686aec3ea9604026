-- ===== src/Policy/YamlSource.antt =====
-- `parseRestrictedPolicyYaml` and `compileRestrictedPolicyYaml` of packages/policy/src/index.ts: the
-- lines of a source, and the parse of them.
use Prim.Native.Char.{code}
use ai_software_engineering.Prelude.{
  is_there, ℕ, ◌+◌, ◌-◌, ◌*◌, ◌%◌, String, Bool, true, false, not, ◌&&◌, ◌||◌, some, List, [], ◌∷◌,
  ltb, nat_eq, if◌then◌else◌, length, any, byte_length, Result, ok, ◌>>=◌, ◌>>◌, throw_if,
  text_length,
}
use ai_software_engineering.Contracts.Json.{Json}
use ai_software_engineering.Contracts.Canonical.{Runtime}
use ai_software_engineering.Policy.Data.{invalid_yaml, yaml_limit_exceeded, PolicyFailure}
use ai_software_engineering.Policy.Condition.{strip_prefix, starts, text_includes}
use ai_software_engineering.Policy.Patterns.{skip_while, after_code}
use ai_software_engineering.Policy.Values.{assert_policy_json}
use ai_software_engineering.Policy.CompileSet.{Compiled, compile_policy_set}
use ai_software_engineering.Policy.YamlText.{
  Readers, RestrictedYamlLimits, is_space, trim_start, is_empty_text, yaml_failure,
}
use ai_software_engineering.Policy.Yaml.{
  YamlLine, Stop, thrown, lift, line_at, line_number, parse_node,
}

abbrev cr : ℕ
cr = 13

abbrev lf : ℕ
lf = 10

abbrev starts_lf : String → Bool
starts_lf s = is_there (after_code lf s)

-- `source.replaceAll("\r\n", "")`
unfoldable pub without_crlf : String → String
without_crlf String.[] = ""
without_crlf (String.◌∷◌ c String.[]) = String.◌∷◌ c ""
without_crlf (String.◌∷◌ c (String.◌∷◌ d s)) =
    let after = without_crlf s in
    let next = without_crlf (String.◌∷◌ d s) in
    if nat_eq (code c) cr && nat_eq (code d) lf then after else String.◌∷◌ c next

-- `source.replaceAll("\r\n", "\n")`
unfoldable pub normalized : String → String
normalized String.[] = ""
normalized (String.◌∷◌ c s) =
    if nat_eq (code c) cr && starts_lf s then normalized s else String.◌∷◌ c (normalized s)

unfoldable pub includes_code : ℕ → String → Bool
includes_code n String.[] = false
includes_code n (String.◌∷◌ c s) = nat_eq (code c) n || includes_code n s

unfoldable pub has_crlf : String → Bool
has_crlf String.[] = false
has_crlf (String.◌∷◌ c s) = nat_eq (code c) cr && starts_lf s || has_crlf s

-- `normalized.split("\n")`
unfoldable pub split_lines : String → List String
split_lines String.[] = "" ∷ []
split_lines (String.◌∷◌ c s) =
    let rest = split_lines s in
    if nat_eq (code c) lf
    then "" ∷ rest
    else elim rest [ [] ↦ String.◌∷◌ c "" ∷ [] | l ∷ ls ↦ String.◌∷◌ c l ∷ ls ]

-- `/:\s*[|>]/u`
unfoldable pub has_block_scalar : String → Bool
unfolding skip_while
has_block_scalar String.[] = false
has_block_scalar (String.◌∷◌ c s) =
    nat_eq (code c) b':' && elim (skip_while is_space s) [
      | String.[] ↦ false
      | String.◌∷◌ d rest ↦ nat_eq (code d) b'|' || nat_eq (code d) b'>'
    ]
    || has_block_scalar s

unfoldable pub is_unsupported : String → Bool
unfolding has_block_scalar text_includes strip_prefix
is_unsupported content =
    any (λ p. starts p content) ("---" ∷ "..." ∷ "%" ∷ "!" ∷ "&" ∷ "*" ∷ "<<:" ∷ [])
    || any (λ p. text_includes p content) ("${" ∷ "{{" ∷ "'" ∷ "[" ∷ "{" ∷ [])
    || has_block_scalar content

-- A line that is blank or a comment, which the loop skips.
abbrev is_skipped : String → Bool
is_skipped raw = is_empty_text (trim_start raw) || starts "#" (trim_start raw)

module _ (runtime : Runtime) where
  -- The loop over the raw lines; `number` is the number of the first.
  unfoldable pub scan_lines : List String → ℕ → Result PolicyFailure (List YamlLine)
  unfolding includes_code is_unsupported trim_start strip_prefix yaml_failure
  scan_lines [] number = ok []
  scan_lines (raw ∷ raws) number =
      let rest = scan_lines raws (number + 1) in
      let content = trim_start raw in
      let indent = text_length raw - text_length content in
      let kept : Result PolicyFailure (List YamlLine) =
        throw_if (includes_code 9 raw)
          (yaml_failure runtime invalid_yaml number "Tabs are forbidden")
        >>= λ _.
            throw_if (not (nat_eq (indent % 2) 0))
              (yaml_failure runtime invalid_yaml number "Indentation must use two spaces")
            >>= λ _.
                throw_if (is_unsupported content)
                  (yaml_failure runtime invalid_yaml number "Unsupported YAML feature")
                >>= λ _. rest >>= λ ls.
                    ok (record { indent = indent; content = content; line = number } ∷ ls) in
      if is_skipped raw then rest else kept

  -- The tests of the source, and its lines.
  unfoldable pub read_lines : RestrictedYamlLimits → String → Result PolicyFailure (List YamlLine)
  unfolding byte_length without_crlf normalized includes_code has_crlf split_lines scan_lines
  read_lines limits source = do
    throw_if (ltb limits.max_bytes (byte_length source))
        (yaml_failure runtime yaml_limit_exceeded 1 "Byte limit")
    throw_if
        (includes_code cr (without_crlf source)
          || has_crlf source && includes_code lf (without_crlf source))
        (yaml_failure runtime invalid_yaml 1 "Mixed or lone carriage return")
    let raws = split_lines (normalized source)
    throw_if (ltb limits.max_lines (length raws))
        (yaml_failure runtime yaml_limit_exceeded 1 "Line limit")
    lines ← scan_lines raws 1
    throw_if (not (is_there (line_at 0 lines)))
        (yaml_failure runtime invalid_yaml 1 "Empty or indented root")
    ok lines

  abbrev pub no_more : List YamlLine → Bool
  no_more [] = true
  no_more (l ∷ ls) = false

  -- Enough for every nested call of the parser on the lines.
  abbrev pub enough_fuel : List YamlLine → ℕ
  enough_fuel lines = 2 * length lines + 2

  -- `parseRestrictedPolicyYaml`
  unfoldable pub parse_restricted_policy_yaml :
      Readers → RestrictedYamlLimits → String → Result Stop Json
  unfolding read_lines parse_node assert_policy_json
  parse_restricted_policy_yaml readers limits source = do
    lines ← lift (read_lines limits source)
    (value, rest, _) ← parse_node runtime readers limits (enough_fuel lines) lines 0 0 0
    throw_if (not (no_more rest)) (
        thrown
          (yaml_failure runtime invalid_yaml (line_number rest) "Trailing or inconsistent content"))
    lift (assert_policy_json runtime value "$")
    ok value

  -- `compileRestrictedPolicyYaml`; a failure is its one diagnostic.
  unfoldable pub compile_restricted_policy_yaml :
      Readers → RestrictedYamlLimits → String → Result Stop Compiled
  unfolding parse_restricted_policy_yaml compile_policy_set
  compile_restricted_policy_yaml readers limits source = do
    value ← parse_restricted_policy_yaml readers limits source
    lift (compile_policy_set runtime (some value))

-- The limits that are not configured.
abbrev pub default_limits : RestrictedYamlLimits
default_limits = record {
  max_bytes = 1048576;
  max_lines = 20000;
  max_depth = 32;
  max_nodes = 100000;
  max_scalar_length = 65536;
}
