-- ===== src/Numbering.antt =====
-- Document numbers: backend/app/services/numbering.py over backend/app/db/models/numbering.py.
mod Sequences
unfoldable pub use Sequences.*
pub mod Gapless
mod Tests
