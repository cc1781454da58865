-- ===== src/Outbox.antt =====
-- The transactional outbox: the write side (backend/app/services/outbox.py) and the worker that posts
-- the events (backend/app/workers/outbox_publisher.py).
mod Events
mod Publisher
unfoldable pub use Events.*
unfoldable pub use Publisher.*
pub mod Backoff
pub mod Bounds
pub mod Kept
pub mod Tries
pub mod Starved
mod Tests
