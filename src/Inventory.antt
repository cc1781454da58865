-- ===== src/Inventory.antt =====
-- Stock levels and their ledger: backend/app/services/inventory.py over the tables of
-- backend/app/db/models/inventory.py. `Table` has the rows and the statements, `Movements` the
-- five operations, `Reads` the queries; the other children prove.
mod Table
mod Movements
mod Reads
pub mod Levels
pub mod Contract
mod Statements
pub mod Refinement
pub mod Orders
pub mod Failures
pub mod Reservation
pub mod Intake
pub mod Outflow
pub mod Undoing
unfoldable pub use Table.*
unfoldable pub use Movements.*
unfoldable pub use Reads.*
mod Tests
