-- ===== src/Platform.antt =====
-- packages/platform/src: the parts of the platform process that this library models.
pub mod Idempotency
pub mod WorkflowService
pub mod Control
