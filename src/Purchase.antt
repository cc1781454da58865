-- ===== src/Purchase.antt =====
-- The tables of purchasing: backend/app/db/models/purchase.py, with those of
-- backend/app/db/models/catalog.py and partners.py that the services read with them.
mod Tables
unfoldable pub use Tables.*
pub mod Lookup
