-- ===== src/Policy/Data.antt =====
-- The types of packages/policy/src/index.ts that a decision reads.
use ai_software_engineering.Prelude.{ℕ, String, Bool, Option, List}
use ai_software_engineering.Contracts.Json.{Json, Fields}

pub data RiskClass : Type 0 where
  r0 r1 r2 r3 r4 : RiskClass

pub data DataClassification : Type 0 where
  public_data internal confidential secret : DataClassification

pub data Direction : Type 0 where
  local inbound outbound : Direction

pub data IsolationLevel : Type 0 where
  process_restricted os_sandboxed container_isolated remote_isolated : IsolationLevel

pub record PolicyInput : Type 0 where
  pub domain : String
  pub subject_type : String
  pub action : String
  pub resource_type : String
  pub risk_class : RiskClass
  pub data_classification : DataClassification
  pub direction : Direction
  pub authority_mutation : Bool
  pub control_verified : Bool
  pub permission_scopes : List String
  pub capability_ids : List String

pub record Requirements : Type 0 where
  pub required_scopes : Option (List String)
  pub minimum_isolation_level : Option IsolationLevel
  pub timeout_ms : Option ℕ
  pub max_concurrency : Option ℕ
  pub post_verification_required : Option Bool

pub data Operator : Type 0 where
  eq not_eq is_in contains lt lte gt gte exists starts_with set_subset set_intersects : Operator

mutual
  pub data Condition : Type 0 where
    leaf : Operator → String → Option Json → Condition
    all_of any_of : Conditions → Condition
    not_of : Condition → Condition

  pub data Conditions : Type 0 where
    none_left : Conditions
    and_then : Condition → Conditions → Conditions

pub data RuleEffect : Type 0 where
  allow_rule deny_rule : RuleEffect

pub record PolicyRule : Type 0 where
  pub rule_id : String
  pub domain : String
  pub subject_types : List String
  pub action : String
  pub resource_types : List String
  pub when : Condition
  pub rule_effect : RuleEffect
  pub requirements : Requirements
  pub reason_code : String
  pub metadata : Fields

pub data SourceKind : Type 0 where
  release machine user workspace node workflow : SourceKind

pub record CompiledPolicySet : Type 0 where
  pub policy_set_id : String
  pub version : String
  pub description : String
  pub source_kind : SourceKind
  pub source_ref : String
  pub constants : Fields
  pub rules : List PolicyRule

pub data FailureCode : Type 0 where
  invalid_policy_value invalid_policy_set invalid_policy_rule : FailureCode
  invalid_condition invalid_requirements invalid_reference invalid_yaml : FailureCode
  yaml_limit_exceeded : FailureCode

-- A `PolicyFailure`, or the diagnostic that the compilers make of it.
pub record PolicyFailure : Type 0 where
  pub failure_code : FailureCode
  pub path : String
  pub message : String
