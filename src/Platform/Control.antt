-- ===== src/Platform/Control.antt =====
-- packages/platform/src/server.ts: the control API. Its modules are the state, the checks of a request,
-- the routes, the slots of concurrent requests, and the notifications.
pub mod State
pub mod Checks
pub mod Routes
pub mod Slots
pub mod Prefix
pub mod Kept
pub mod Admission
pub mod Notifications
pub mod Retention
pub mod Authenticated
pub mod Guarded
pub mod Tracked
pub mod RateLimit
pub mod Stop
mod Tests
