-- ===== src/Matching.antt =====
-- Three-way matching: backend/app/services/matching.py over backend/app/db/models/purchase.py.
mod Lines
unfoldable pub use Lines.*
mod Verdict
mod Documents
unfoldable pub use Verdict.*
unfoldable pub use Documents.*
pub mod Clean
pub mod Approval
pub mod Ordering
pub mod Loading
pub mod Agreed
pub mod Records
pub mod Repeated
pub mod Taxed
mod Tests
