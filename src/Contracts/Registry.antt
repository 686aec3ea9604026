-- ===== src/Contracts/Registry.antt =====
-- packages/contracts/src/registry.ts: `ContractRegistry`, as the loader hands it over. The loader has
-- compiled every schema, so a validator per schema is a parameter: Ajv, a third-party package.
use mathlib.Core.List.{reverse}
use ai_software_engineering.Prelude.{
  ℕ, String, Bool, true, false, not, ◌&&◌, ◌||◌, Option, none, some, List, [], ◌∷◌, leb, nat_eq,
  ◌==◌, if◌then◌else◌, any, code_units, Result, ok, err,
}
use ai_software_engineering.Contracts.Json.{Json}
use ai_software_engineering.Contracts.Errors.{Failure, foundation, schema_compile_failed}

pub record ContractIdentity : Type 0 where
  pub schema_id : String
  pub schema_version : String

-- The members of an entry that the modelled code reads.
pub record SchemaRegistryEntry : Type 0 where
  pub schema_id : String
  pub schema_version : String
  pub sha256 : String
  pub examples_required : Bool

pub data FailureCode : Type 0 where
  invalid_contract_identity schema_validation_failed unknown_schema : FailureCode
  unsupported_schema_version : FailureCode

-- `getSchema` of Ajv: the compiled validator of a schema identity, if there is one.
pub record ContractRegistry : Type 0 where
  pub entries : List SchemaRegistryEntry
  pub validator : String → Option (Json → Bool)

-- `new Map(entries.map(...))`: of two entries under one identity the later one stays.
unfoldable pub by_id : String → List SchemaRegistryEntry → Option SchemaRegistryEntry
by_id schema_id [] = none
by_id schema_id (e ∷ es) = elim (by_id schema_id es) [
  | some later ↦ some later
  | none ↦ if e.schema_id == schema_id then some e else none
]

-- The suffix `:([0-9]+\.[0-9]+\.[0-9]+)$`, read from the end of the text: digits, a dot, digits, a
-- dot, digits, a colon. `schemaFamily` leaves the colon alone of it.
abbrev is_digit : ℕ → Bool
is_digit c = leb b'0' c && leb c b'9'

unfoldable pub after_digits : Bool → List ℕ → Option (List ℕ)
after_digits seen [] = none
after_digits seen (c ∷ cs) =
    let more = after_digits true cs in
    if is_digit c then more else if seen then some (c ∷ cs) else none

unfoldable pub after_unit : ℕ → List ℕ → Option (List ℕ)
after_unit u [] = none
after_unit u (c ∷ cs) = if nat_eq c u then some cs else none

infixl 5 ◌then_after◌
abbrev ◌then_after◌ : Option (List ℕ) → (List ℕ → Option (List ℕ)) → Option (List ℕ)
o then_after f = elim o [ none ↦ none | some cs ↦ f cs ]

-- The family of a reversed text.
unfoldable pub schema_family : List ℕ → List ℕ
unfolding after_digits after_unit
schema_family cs =
    elim (after_digits false cs
      then_after after_unit b'.'
      then_after after_digits false
      then_after after_unit b'.'
      then_after after_digits false
      then_after after_unit b':') [ none ↦ cs | some rest ↦ b':' ∷ rest ]

abbrev same_units : List ℕ → List ℕ → Bool
same_units [] [] = true
same_units [] (y ∷ ys) = false
same_units (x ∷ xs) [] = false
same_units (x ∷ xs) (y ∷ ys) = nat_eq x y && same_units xs ys

unfoldable pub same_family : String → String → Bool
unfolding schema_family
same_family a b =
    same_units (schema_family (reverse (code_units a))) (schema_family (reverse (code_units b)))

unfoldable pub resolve :
    ContractRegistry → ContractIdentity → Result FailureCode SchemaRegistryEntry
unfolding by_id same_family
resolve registry identity =
    if identity.schema_id == "" || identity.schema_version == ""
    then err invalid_contract_identity
    else elim (by_id identity.schema_id registry.entries) [
      | none ↦
          if any (λ e. same_family e.schema_id identity.schema_id) registry.entries
          then err unsupported_schema_version
          else err unknown_schema
      | some entry ↦
          if not (entry.schema_version == identity.schema_version)
          then err unsupported_schema_version
          else ok entry
    ]

-- The outer error is the one that the method throws, the inner one the failure that it returns.
unfoldable pub validate :
    ContractRegistry → ContractIdentity → Json → Result Failure (Result FailureCode Json)
unfolding resolve
validate registry identity value = elim (resolve registry identity) [
  | err code ↦ ok (err code)
  | ok resolved ↦ elim (registry.validator resolved.schema_id) [
    | none ↦ err (foundation schema_compile_failed)
    | some accepts ↦
        if not (accepts value) then ok (err schema_validation_failed) else ok (ok value)
  ]
]
