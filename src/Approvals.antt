-- ===== src/Approvals.antt =====
-- The approval chains: backend/app/services/approvals.py over the table `approvals` of
-- backend/app/db/models/workflow.py. `Rules` decides the levels, `Chain` keeps the rows, `Creation`,
-- `Decisions`, `Handover` and `Status` have the operations; the other children prove.
mod Rules
mod Chain
mod Comments
mod Creation
mod Decisions
mod Handover
mod Status
pub mod Required
pub mod Gate
pub mod Keys
pub mod Cascade
pub mod History
unfoldable pub use Rules.*
unfoldable pub use Chain.*
unfoldable pub use Comments.*
unfoldable pub use Creation.*
unfoldable pub use Decisions.*
unfoldable pub use Handover.*
unfoldable pub use Status.*
mod Tests
