-- ===== src/Payments.antt =====
-- Payments and receivables: backend/app/services/payments.py over the invoices, payments and
-- allocations of backend/app/db/models. `Allocation` has the pure functions, `Recording` the
-- service, `Reports` the queries; the other children prove.
mod Allocation
mod Recording
mod Reports
pub mod Plan
pub mod Covers
pub mod Served
pub mod Settlement
pub mod Books
pub mod Posting
pub mod Aging
unfoldable pub use Allocation.*
unfoldable pub use Recording.*
unfoldable pub use Reports.*
mod Tests
