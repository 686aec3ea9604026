-- ===== src/Contracts/Tests.antt =====
-- Concrete contracts.
use ai_software_engineering.Prelude.{◌≡◌, refl, false, none, [], ◌∷◌, err}
use ai_software_engineering.Contracts.Registry.{
  ContractIdentity, ContractRegistry, unsupported_schema_version, resolve,
}
use ai_software_engineering.Contracts.Compatibility.{evaluate_compatibility, compatible_exact}

abbrev sample : ContractRegistry
sample = record {
  entries =
      record {
        schema_id = "urn:a:1.0.0";
        schema_version = "1.0.0";
        sha256 = "";
        examples_required = false;
      }
      ∷ [];
  validator = λ id. none;
}

future : ContractIdentity
future = record { schema_id = "urn:a:99.0.0"; schema_version = "99.0.0" }

-- Another version of a known family is told from an unknown schema.
resolve-future : resolve sample future ≡ err unsupported_schema_version
unfolding resolve future
resolve-future = refl

compatible_exact_example : (evaluate_compatibility sample future).compatible ≡ false
unfolding future
compatible_exact_example = compatible_exact sample future (refl, tt)
