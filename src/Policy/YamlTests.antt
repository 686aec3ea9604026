-- ===== src/Policy/YamlTests.antt =====
-- A small source in the restricted YAML. The stand-ins for `Number` and `JSON.parse` read every number
-- as 7 and every quoted text as itself.
use ai_software_engineering.Prelude.{
  String, ◌≡◌, refl, ◌≢◌, Bool, true, false, some, [], ◌∷◌, all, Result, ok, err,
}
use ai_software_engineering.Contracts.Json.{Json, null, bool, str, arr, nil, cons, natural, object}
use ai_software_engineering.Policy.Data.{FailureCode, invalid_yaml}
use ai_software_engineering.Policy.YamlText.{Readers, begins_mapping, parse_scalar, split_mapping}
use ai_software_engineering.Policy.Yaml.{Stop, thrown, out_of_fuel, put_last, put_entries}
use ai_software_engineering.Policy.YamlSource.{parse_restricted_policy_yaml, default_limits}
use ai_software_engineering.Policy.YamlTermination.{parse_yaml_terminates}
use ai_software_engineering.Policy.YamlRestricted.{IsRestricted}
use ai_software_engineering.Policy.YamlShape.{parse_yaml-IsRestricted}
use ai_software_engineering.Samples.{sample_runtime}

abbrev sample_readers : Readers
sample_readers = record {
  read_number = λ s. some (record { negative = false; mantissa = 7; exponent = 0 });
  parse_json = λ s. some (str s);
}

abbrev sample_source : String
sample_source =
    "# a comment\na: true\nb:\n  - \"x\"\n  - k: null\n    m: 1.5e3\n  -\n    n: false\n"

abbrev sample_value : Json
sample_value = object (
    ("a", some (bool true))
    ∷ (
      "b",
      some (
          arr (
            cons (str "\"x\"") (
              cons (object (("k", some null) ∷ ("m", some (natural 7)) ∷ []))
                (cons (object (("n", some (bool false)) ∷ [])) nil)))),
    )
    ∷ [])

parsed :
    parse_restricted_policy_yaml sample_runtime sample_readers default_limits sample_source
    ≡ ok sample_value
unfolding parse_restricted_policy_yaml object put_entries put_last parse_scalar split_mapping
    begins_mapping
parsed = refl

abbrev is_invalid_yaml : FailureCode → Bool
is_invalid_yaml invalid_yaml = true
is_invalid_yaml _ = false

abbrev fails : Result Stop Json → Bool
fails (err (thrown e)) = is_invalid_yaml e.failure_code
fails _ = false

refused :
    all
      (λ source.
        fails (parse_restricted_policy_yaml sample_runtime sample_readers default_limits source))
      ("" ∷ "a: 1\r\nb: 2\n" ∷ "a:\tb" ∷ " a: 1" ∷ "a: 1\na: 2" ∷ "a: |" ∷ "__proto__: 1" ∷ "a:1"
        ∷ [])
    ≡ true
unfolding parse_restricted_policy_yaml put_entries put_last parse_scalar split_mapping
refused = refl

parse_yaml_terminates_example :
    parse_restricted_policy_yaml sample_runtime sample_readers default_limits sample_source
    ≢ err out_of_fuel
parse_yaml_terminates_example =
    parse_yaml_terminates sample_runtime sample_readers default_limits sample_source

parse_yaml-IsRestricted_example : IsRestricted 34 sample_value
parse_yaml-IsRestricted_example =
    parse_yaml-IsRestricted sample_runtime sample_readers default_limits sample_source sample_value
      parsed
