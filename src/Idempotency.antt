-- ===== src/Idempotency.antt =====
-- Idempotency keys: backend/app/core/idempotency.py over `IdempotencyKey` of
-- backend/app/db/models/workflow.py.
mod Middleware
unfoldable pub use Middleware.*
pub mod Claims
pub mod Exclusion
pub mod Replay
mod Tests
