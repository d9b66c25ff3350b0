-- ===== src/Sync.antt =====
-- src/services/sync: the outbox of encrypted records, its push to the server, and conflicts.
pub mod Merge
pub mod Records
pub mod Tables
pub mod Cursor
pub mod Identity
pub mod Outbox
pub mod PushHelpers
pub mod Pull
pub mod Sse
