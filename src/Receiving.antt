-- ===== src/Receiving.antt =====
-- The intake of goods receipts and of supplier invoices: backend/app/services/receiving.py.
mod Requests
mod Checks
mod Receipts
mod Invoices
unfoldable pub use Requests.*
unfoldable pub use Checks.*
unfoldable pub use Receipts.*
unfoldable pub use Invoices.*
pub mod Stocking
pub mod Soundness
pub mod Posting
pub mod Outcome
pub mod Billing
pub mod Counting
pub mod Limits
pub mod Repeats
mod Tests
