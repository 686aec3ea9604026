-- ===== src/Contracts/Compatibility.antt =====
-- packages/contracts/src/compatibility.ts: `evaluateCompatibility`, and when it lets a contract pass.
use ai_software_engineering.Prelude.{
  String, ◌≡◌, refl, Bool, true, false, not, ◌&&◌, ◌||◌, Option, none, some, List, [], ◌∷◌, arith,
  ◌==◌, eq_iff, any, ok, err,
}
use ai_software_engineering.Contracts.Registry.{
  ContractIdentity, SchemaRegistryEntry, ContractRegistry, FailureCode, invalid_contract_identity,
  schema_validation_failed, unsupported_schema_version, by_id, resolve,
}
use ai_software_engineering.Contracts.Registry

pub data DecisionCode : Type 0 where
  same_supported_version unknown_schema unsupported_version : DecisionCode
  schema_identity_version_mismatch : DecisionCode

pub record CompatibilityDecision : Type 0 where
  pub compatible : Bool
  pub code : DecisionCode
  pub resolved : Option SchemaRegistryEntry

abbrev refusal : FailureCode → Bool → DecisionCode
refusal Registry.unknown_schema mismatch = unknown_schema
refusal _ true = schema_identity_version_mismatch
refusal _ false = unsupported_version

unfoldable pub evaluate_compatibility : ContractRegistry → ContractIdentity → CompatibilityDecision
evaluate_compatibility registry identity = elim (resolve registry identity) [
  | ok entry ↦ record { compatible = true; code = same_supported_version; resolved = some entry }
  | err code ↦ record {
    compatible = false;
    code = refusal code (
        any
          (λ e.
            e.schema_id == identity.schema_id && not (e.schema_version == identity.schema_version))
          registry.entries);
    resolved = none;
  }
]

-- The loader refuses a registry that lists a schema identity twice.
abbrev pub Distinct : List SchemaRegistryEntry → Type 0
Distinct [] = Unit {0}
Distinct (e ∷ es) = (any (λ x. x.schema_id == e.schema_id) es ≡ false) × Distinct es

abbrev pub exact : ContractIdentity → SchemaRegistryEntry → Bool
exact identity e = e.schema_id == identity.schema_id && e.schema_version == identity.schema_version

abbrev found_version : ContractIdentity → Option SchemaRegistryEntry → Bool
found_version identity none = false
found_version identity (some e) = e.schema_version == identity.schema_version

by_id-none :
    (key : String) (es : List SchemaRegistryEntry)
    → any (λ x. x.schema_id == key) es ≡ false
    → by_id key es ≡ none
unfolding by_id
by_id-none key [] h = refl
by_id-none key (x ∷ xs) h = ground (arith, by_id-none key xs)

any-exact_none :
    (identity : ContractIdentity) (es : List SchemaRegistryEntry)
    → any (λ x. x.schema_id == identity.schema_id) es ≡ false
    → any (exact identity) es ≡ false
any-exact_none identity [] h = refl
any-exact_none identity (x ∷ xs) h = ground (arith, any-exact_none identity xs)

-- In a registry without duplicates, the identity's entry has the version just when it is listed so.
found_version-by_id :
    (identity : ContractIdentity) (es : List SchemaRegistryEntry)
    → Distinct es
    → found_version identity (by_id identity.schema_id es) ≡ any (exact identity) es
unfolding by_id
found_version-by_id identity [] d = refl
found_version-by_id identity (x ∷ xs) d = ground (
  arith,
  found_version-by_id identity xs d.1,
  by_id-none identity.schema_id xs,
  any-exact_none identity xs,
  eq_iff x.schema_id identity.schema_id,
)

-- A contract is compatible just when its identity is complete and the registry lists that very
-- schema at that very version: nothing unknown, older or newer passes.
pub compatible_exact :
    (registry : ContractRegistry) (identity : ContractIdentity)
    → Distinct registry.entries
    → (evaluate_compatibility registry identity).compatible ≡ (
        not (identity.schema_id == "" || identity.schema_version == "")
        && any (exact identity) registry.entries)
unfolding evaluate_compatibility resolve
compatible_exact registry identity d =
    ground (arith, found_version-by_id identity registry.entries d)
