-- ===== src/Contracts/Errors.antt =====
-- The errors that the modelled parts throw, by their codes:
-- packages/contracts/src/foundation-error.ts, packages/kernel/src/index.ts and
-- packages/persistence/src/index.ts. A `catch` reads the class and the code only.
pub data FoundationCode : Type 0 where
  schema_compile_failed schema_metadata_mismatch : FoundationCode

pub data KernelCode : Type 0 where
  contract_invalid unsupported_command version_conflict replay_invalid domain_rejected : KernelCode

pub data PersistenceCode : Type 0 where
  busy closed contract_violation corruption idempotency_conflict migration_mismatch :
      PersistenceCode
  optimistic_concurrency queue_full security_control_failed storage_failure : PersistenceCode
  worker_exited : PersistenceCode

pub data Failure : Type 0 where
  foundation : FoundationCode → Failure
  kernel : KernelCode → Failure
  persistence : PersistenceCode → Failure
