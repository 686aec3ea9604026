-- ===== src/Lib.antt =====
-- The core of AI Software Engineering OS, verified: a command is admitted by the kernel, committed
-- to a journal of events in SQLite by the persistence worker, and answered from the receipt that
-- the commit left.
--
-- The files and the code that they model:
--
-- - Contracts/Json, Contracts/Canonical: packages/contracts/src/canonical-json.ts. `canonicalJson`
--   is `canonical_json`, on JSON values; an object keeps its members in the order in which they
--   were written.
-- - Contracts/Registry, Contracts/Compatibility: `ContractRegistry` of
--   packages/contracts/src/registry.ts and `evaluateCompatibility` of
--   packages/contracts/src/compatibility.ts. A compiled schema validator is a parameter: a test on
--   JSON values for each schema identity, and none where no validator was compiled.
-- - Contracts/Errors, Contracts/Envelopes: the error codes, and the envelopes of
--   packages/contracts/src/types.generated.ts with the JSON values that they are.
-- - Kernel: `DeterministicKernel` of packages/kernel/src/index.ts, over any aggregate definition.
--   Kernel/Replay, Kernel/Complete and Kernel/Prepare hold its theorems.
-- - Workflow: the aggregate of packages/workflow/src/index.ts.
-- - Persistence/Tables, Persistence/Commit, Persistence/Inbox, Persistence/Worker:
--   packages/persistence/src/persistence-worker.ts over the tables of
--   packages/persistence/migrations/001-initial.sql. A table is the list of its rows in order of
--   insertion. Worker is the state of the process: what the file holds, what an open transaction
--   sees, and the two qualification flags. What SQLite answers to BEGIN, COMMIT and the integrity
--   check is a `Turn`, so that the theorems hold however it answers.
-- - Persistence/Client: `PersistenceWorker` of packages/persistence/src/index.ts. Its requests are
--   served after any requests of others, and may be refused or lose their replies.
-- - Platform/WorkflowService: packages/platform/src/workflow-service.ts, over an interface whose
--   laws Platform/WorkflowService/Journal proves of the client.
-- - Platform/Idempotency: packages/platform/src/idempotency.ts. A `Map` is a list in order of
--   insertion.
-- - Isolation: apps/worker/src/index.ts, the provider that is selected for a task. The request is
--   the JSON value that it is made of, the probe a truth value, and the run of the adapter a
--   parameter.
-- - Platform/Control: packages/platform/src/server.ts, the control API. State is `ServerState`;
--   Checks the handler up to the body, Routes the handler from there on, Slots the requests in
--   flight and the events that move them, Notifications `publishNotification`. SHA-256, the parse
--   of a URL and the length of what is written are parameters, and fresh identities and times are
--   arguments.
-- - Policy: packages/policy/src/index.ts. Values is `assertPolicyJson` and the small checks,
--   Patterns its regular expressions, CompileCondition, CompileRule and CompileSet
--   `compilePolicySet`. YamlText, Yaml and YamlSource are `compileRestrictedPolicyYaml`; `Number`
--   and `JSON.parse` are parameters. Condition, Merge and Evaluate are the decision on compiled
--   rules, `decide_policy`, and Evaluation is `evaluatePolicy` from its untyped arguments. A
--   condition result is an option of a truth value, none where the types do not fit.
-- - Samples: concrete values for the tests.
--
-- Numbers that the code tests with `Number.isSafeInteger` are natural numbers, and the test is
-- kept. Loops are recursion on the list that they go through; the `while` of the idempotency
-- registry, which evicts, is shown equal to a drop. Only the YAML parser has fuel, two more than
-- twice the number of lines, and a theorem shows that it is never spent; its index into the lines
-- is the list of the lines from there on. SHA-256 and the printing of numbers are parameters. No
-- theorem assumes that SHA-256 has no collisions.
--
-- Not modelled: the start of the worker with its migrations and quarantine, health and backup,
-- which are calls of SQLite and of the file system, and a close of the database that fails; the
-- start and the stop of the control server, with its files, and its client; the adapter that
-- starts restricted processes; the command line applications; the loading of the schema registry
-- from files.
pub mod Contracts
pub mod Isolation
pub mod Kernel
pub mod Persistence
pub mod Platform
pub mod Policy
pub mod Prelude
pub mod Samples
pub mod Workflow
