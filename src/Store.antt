-- ===== src/Store.antt =====
-- src/storage: the SQLite receipt store.
mod Tests
pub mod Params
pub mod Redact
pub mod Holds
pub mod Claims
pub mod PendingTasks
pub mod Journal
