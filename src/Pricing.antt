-- ===== src/Pricing.antt =====
-- The GST pricing engine: backend/app/services/pricing.py.
mod Lines
mod Summary
mod Orders
unfoldable pub use Lines.*
unfoldable pub use Summary.*
unfoldable pub use Orders.*
pub mod Groups
pub mod Balance
mod Tests
