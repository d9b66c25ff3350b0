-- ===== src/Examples.antt =====
-- Concrete tables and the theorems at concrete inputs.
pub mod Tables
pub mod Books
mod Writes
mod Events
mod Logs
mod Backups
mod Amounts
mod Reports
mod Searches
mod Pulls
mod Transfers
mod Outboxes
mod Merges
mod Queues
mod Cursors
