-- ===== src/Policy.antt =====
-- packages/policy/src/index.ts: the compiler of policy sets, from JSON values or the restricted YAML,
-- and the evaluation of a snapshot.
pub mod Data
pub mod Condition
pub mod Merge
pub mod Evaluate
pub mod Decision
pub mod Strictest
pub mod Patterns
pub mod Values
pub mod CompileCondition
pub mod CompileRule
pub mod CompileSet
pub mod Evaluation
pub mod WellFormed
pub mod Authorised
pub mod SortedRules
pub mod CompiledSet
pub mod References
pub mod YamlText
pub mod Yaml
pub mod YamlOutcome
pub mod YamlSource
pub mod YamlTermination
pub mod YamlRestricted
pub mod YamlShape
mod YamlTests
mod CompileTests
mod Tests
