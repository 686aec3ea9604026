-- ===== src/Policy/Yaml.antt =====
-- `parseYamlNode`, `parseRestrictedPolicyYaml` and `compileRestrictedPolicyYaml` of
-- packages/policy/src/index.ts. An index into the lines is the list of the lines from there on.
use ai_software_engineering.Prelude.{
  is_there, ℕ, zero, suc, ◌+◌, String, Bool, not, ◌&&◌, Option, none, some, List, [], ◌∷◌, ltb,
  nat_eq, ◌==◌, if◌then◌else◌, Result, ok, err, ◌>>=◌, ◌>>◌, throw_if, require,
}
use ai_software_engineering.Contracts.Json.{
  Json, arr, obj, Items, nil, cons, Fields, end, field, object, get_field,
}
use ai_software_engineering.Contracts.Canonical.{Runtime}
use ai_software_engineering.Policy.Data.{
  FailureCode, invalid_yaml, yaml_limit_exceeded, PolicyFailure,
}
use ai_software_engineering.Policy.Condition.{strip_prefix, starts}
use ai_software_engineering.Policy.YamlText.{
  Readers, RestrictedYamlLimits, is_empty_text, begins_mapping, yaml_failure, parse_scalar,
  split_mapping,
}

pub record YamlLine : Type 0 where
  pub indent : ℕ
  pub content : String
  pub line : ℕ

-- The parser throws, or its fuel is spent; the second does not happen.
pub data Stop : Type 0 where
  thrown : PolicyFailure → Stop
  out_of_fuel : Stop

abbrev pub lift : {A : Type 0} → Result PolicyFailure A → Result Stop A
lift (ok a) = ok a
lift (err e) = err (thrown e)

-- The first line, if it is indented so.
abbrev pub line_at : ℕ → List YamlLine → Option YamlLine
line_at indent [] = none
line_at indent (l ∷ ls) = if nat_eq l.indent indent then some l else none

abbrev pub line_number : List YamlLine → ℕ
line_number [] = 1
line_number (l ∷ ls) = l.line

abbrev pub is_sequence_line : YamlLine → Bool
is_sequence_line l = starts "-" l.content

-- What follows the marker of a sequence: nothing after `-`, the rest after `- `.
abbrev pub marker_rest : String → Option String
marker_rest content = if content == "-" then some "" else strip_prefix "- " content

-- `object[key] = value` for a key that is not there.
unfoldable pub put_last : Fields → String → Json → Fields
put_last end k v = field k v end
put_last (field j u fs) k v = field j u (put_last fs k v)

-- `Object.entries(tail)` put after the members of an object; none if a key is there already.
unfoldable pub put_entries : Fields → Fields → Option Fields
unfolding get_field put_last
put_entries fs end = some fs
put_entries fs (field k v more) = elim (get_field k fs) [
  | some old ↦ none
  | none ↦ put_entries (put_last fs k v) more
]

module _ (runtime : Runtime) (readers : Readers) (limits : RestrictedYamlLimits) where
  abbrev pub fail {ℓ} : {A : Type ℓ} → FailureCode → ℕ → String → Result Stop A
  fail failure_code line message = err (thrown (yaml_failure runtime failure_code line message))

  -- `nodeCounter.value += 1`, with the check of the limit.
  abbrev pub count_node : ℕ → ℕ → Result Stop ℕ
  count_node nodes line =
      if ltb limits.max_nodes (nodes + 1)
      then fail yaml_limit_exceeded line "Node limit"
      else ok (nodes + 1)

  abbrev pub scalar : String → ℕ → Result Stop Json
  scalar source line = lift (parse_scalar runtime readers source line limits.max_scalar_length)

  -- A parsed value, the lines after it and the nodes counted so far.
  abbrev pub Parsed : Type 0
  Parsed = Json × List YamlLine × ℕ

  -- A call of `parseYamlNode`: the lines from `start`, the indentation, the depth and the counter.
  abbrev pub Call : Type 0
  Call = List YamlLine → ℕ → ℕ → ℕ → Result Stop Parsed

  -- The child of a key or of a marker with nothing after it: the lines below, at that indentation.
  abbrev pub child_or : Call → String → ℕ → List YamlLine → ℕ → ℕ → ℕ → Result Stop Parsed
  child_or call message line rest indent depth nodes = elim (line_at indent rest) [
    | none ↦ fail invalid_yaml line message
    | some next ↦ call rest indent depth nodes
  ]

  -- The value of a key: what stands behind it, or its child.
  abbrev pub value_of : Call → String → ℕ → List YamlLine → ℕ → ℕ → ℕ → Result Stop Parsed
  value_of call source line rest indent depth nodes =
      if is_empty_text source
      then child_or call "Missing mapping child" line rest indent depth nodes
      else (scalar source line >>= λ v. ok (v, rest, nodes))

  -- The members of the tail, after those of the object.
  abbrev pub join_tail : ℕ → Fields → Parsed → Result Stop (Fields × List YamlLine × ℕ)
  join_tail line fs (obj more, after, nodes) = elim (put_entries fs more) [
    | none ↦ fail invalid_yaml line "Duplicate mapping key"
    | some whole ↦ ok (whole, after, nodes)
  ]
  join_tail line fs _ = fail invalid_yaml line "Invalid sequence mapping"

  -- The rest of a mapping that begins behind a sequence marker, if there is more of it.
  abbrev pub tail_of : Call → ℕ → Fields → ℕ → ℕ → Parsed → Result Stop (Fields × List YamlLine × ℕ)
  tail_of call line fs indent depth (v, rest, nodes) = elim (line_at indent rest) [
    | none ↦ ok (fs, rest, nodes)
    | some next ↦
        if is_sequence_line next
        then ok (fs, rest, nodes)
        else (call rest indent depth nodes >>= join_tail line fs)
  ]

  -- The item of a sequence that begins a mapping behind the marker.
  unfoldable pub mapping_item : Call → String → ℕ → List YamlLine → ℕ → ℕ → ℕ → Result Stop Parsed
  unfolding put_entries
  mapping_item call rest line below_lines indent depth nodes = do
    (key, source) ← lift (split_mapping runtime rest line)
    first ← value_of call source line below_lines (indent + 4) (depth + 2) nodes
    (fs, after, nodes') ← tail_of call line (field key first.0 end) (indent + 2) (depth + 1) first
    ok (obj fs, after, nodes')

  -- One round of the loop over a sequence: the item, behind the marker.
  unfoldable pub sequence_item : Call → String → ℕ → List YamlLine → ℕ → ℕ → ℕ → Result Stop Parsed
  unfolding mapping_item
  sequence_item call rest line below_lines indent depth nodes =
      if is_empty_text rest
      then child_or call "Missing sequence child" line below_lines (indent + 2) (depth + 1) nodes
      else if begins_mapping rest
      then mapping_item call rest line below_lines indent depth nodes
      else (scalar rest line >>= λ v. ok (v, below_lines, nodes))

  -- One round of the loop over a sequence, at its line.
  unfoldable pub sequence_round : Call → YamlLine → List YamlLine → ℕ → ℕ → ℕ → Result Stop Parsed
  unfolding sequence_item
  sequence_round call l ls indent depth nodes = do
    rest ←
        require (marker_rest l.content)
          (thrown (yaml_failure runtime invalid_yaml l.line "Sequence marker requires a space"))
    nodes' ← count_node nodes l.line
    sequence_item call rest l.line ls indent depth nodes'

  -- One round of the loop over a mapping, at its line: the object with one more member.
  unfoldable pub mapping_round :
      Call
      → Fields
      → YamlLine
      → List YamlLine
      → ℕ
      → ℕ
      → ℕ
      → Result Stop (Fields × List YamlLine × ℕ)
  unfolding put_last get_field
  mapping_round call object l ls indent depth nodes = do
    nodes' ← count_node nodes l.line
    (key, source) ← lift (split_mapping runtime l.content l.line)
    throw_if (is_there (get_field key object))
        (thrown (yaml_failure runtime invalid_yaml l.line "Duplicate mapping key"))
    (v, after, nodes'') ← value_of call source l.line ls (indent + 2) (depth + 1) nodes'
    ok (put_last object key v, after, nodes'')

  unfoldable mutual
    unfolding sequence_round mapping_round

    -- `parseYamlNode`
    pub parse_node : ℕ → Call
    parse_node zero lines indent depth nodes = err out_of_fuel
    parse_node (suc fuel) lines indent depth nodes =
        let sequence = parse_sequence fuel lines indent depth nodes in
        let mapping = parse_mapping fuel end lines indent depth nodes in
        if ltb limits.max_depth depth
        then fail yaml_limit_exceeded (line_number lines) "Depth limit"
        else elim (line_at indent lines) [
          | none ↦ fail invalid_yaml (line_number lines) "Invalid indentation"
          | some first ↦
              if is_sequence_line first
              then (sequence >>= λ (vs, rest, nodes'). ok (arr vs, rest, nodes'))
              else (mapping >>= λ (fs, rest, nodes'). ok (obj fs, rest, nodes'))
        ]

    -- The loop over a sequence.
    pub parse_sequence : ℕ → List YamlLine → ℕ → ℕ → ℕ → Result Stop (Items × List YamlLine × ℕ)
    parse_sequence zero lines indent depth nodes = err out_of_fuel
    parse_sequence (suc fuel) [] indent depth nodes = ok (nil, [], nodes)
    parse_sequence (suc fuel) (l ∷ ls) indent depth nodes =
        let whole : Result Stop (Items × List YamlLine × ℕ) = do
          (v, after, nodes') ← sequence_round (parse_node fuel) l ls indent depth nodes
          (vs, rest, nodes'') ← parse_sequence fuel after indent depth nodes'
          ok (cons v vs, rest, nodes'')
        in if nat_eq l.indent indent && is_sequence_line l then whole else ok (nil, l ∷ ls, nodes)

    -- The loop over a mapping, with the object so far.
    pub parse_mapping :
        ℕ → Fields → List YamlLine → ℕ → ℕ → ℕ → Result Stop (Fields × List YamlLine × ℕ)
    parse_mapping zero object lines indent depth nodes = err out_of_fuel
    parse_mapping (suc fuel) object [] indent depth nodes = ok (object, [], nodes)
    parse_mapping (suc fuel) object (l ∷ ls) indent depth nodes =
        let whole : Result Stop (Fields × List YamlLine × ℕ) = do
          (object', after, nodes') ← mapping_round (parse_node fuel) object l ls indent depth nodes
          parse_mapping fuel object' after indent depth nodes'
        in if nat_eq l.indent indent && not (is_sequence_line l)
          then whole
          else ok (object, l ∷ ls, nodes)
