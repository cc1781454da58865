-- ===== src/Sales.antt =====
-- Order to cash: backend/app/services/sales.py over the tables of backend/app/db/models/sales.py.
mod Tables
mod Requests
mod Checks
mod Reserving
mod Ordering
mod Confirming
mod Counter
mod Dispatch
mod Invoicing
unfoldable pub use Tables.*
unfoldable pub use Requests.*
unfoldable pub use Checks.*
unfoldable pub use Reserving.*
unfoldable pub use Ordering.*
unfoldable pub use Confirming.*
unfoldable pub use Counter.*
unfoldable pub use Dispatch.*
unfoldable pub use Invoicing.*
pub mod Effort
pub mod Orders
pub mod Selling
pub mod Billing
pub mod Amounts
pub mod Delivering
pub mod Shipped
pub mod Statuses
pub mod Answered
pub mod Placed
pub mod Asked
pub mod Ordered
pub mod Confirmed
pub mod Topped
pub mod Retried
mod Tests
