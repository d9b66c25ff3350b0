-- ===== src/Ledger.antt =====
-- src/services/balance.service.ts: the writes that keep each account's stored balance in step with
-- its transactions.
pub mod Delta
pub mod Database
pub mod Single
pub mod Transfer
pub mod Opening
pub mod Moves
pub mod Atomic
pub mod History
