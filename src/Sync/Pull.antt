-- ===== src/Sync/Pull.antt =====
-- The parts of the pull side of src/services/sync/engine.ts that find the local row of a server
-- record and keep balances, and `setLocalFamilyId` of src/services/family/active-family.ts.
pub mod Upsert
pub mod Write
pub mod Pages
pub mod Moved
pub mod Balances
pub mod Accounts
pub mod KeptCursors
pub mod Prefix
pub mod Drained
pub mod Redelivery
use expensesapp.Prelude.{ℕ, Option, none, some, []}
use expensesapp.Prelude.Int.{◌+ℤ◌, ◌-ℤ◌}
use expensesapp.Prelude.Text.{Text}
use expensesapp.Models.{Account, Transaction}
use expensesapp.Ledger.Database.{Dexie, Db, set_balance}
use expensesapp.Ledger.Delta.{get_balance_delta}
use expensesapp.Sync.Cursor.{encode_cursor, set_cursor}
use expensesapp.Sync.Identity.{get_mapping_by_uuid}
use expensesapp.Sync.Outbox.{Runtime}
use expensesapp.Sync.Outbox.Conflict.{and_then}
use expensesapp.Sync.Records.{SyncCursor}
use expensesapp.Sync.Tables.{SyncDexie, SyncDb}

module _ (dx : Dexie) (now : Text) where
  -- An account that is not known locally is left alone.
  abbrev pub revert_on : Option Account → Transaction → Db dx → Db dx
  revert_on none tx db = db
  revert_on (some account) tx db =
      set_balance dx tx.account_id (account.balance -ℤ get_balance_delta account tx) now db

  unfoldable pub revert_transaction_balance : Transaction → Db dx → Db dx
  revert_transaction_balance tx db = revert_on (dx.accounts.get tx.account_id db.accounts) tx db

  abbrev pub apply_on : Option Account → Transaction → Db dx → Db dx
  apply_on none tx db = db
  apply_on (some account) tx db =
      set_balance dx tx.account_id (account.balance +ℤ get_balance_delta account tx) now db

  unfoldable pub apply_transaction_balance : Transaction → Db dx → Db dx
  apply_transaction_balance tx db = apply_on (dx.accounts.get tx.account_id db.accounts) tx db

module _ (sx : SyncDexie) {V : Type 0} (rt : Runtime V) where
  unfoldable pub resolve_local_id_for_uuid : Option Text → SyncDb sx → Option ℕ
  resolve_local_id_for_uuid none db = none
  resolve_local_id_for_uuid (some []) db = none
  resolve_local_id_for_uuid (some uuid) db =
      and_then (get_mapping_by_uuid sx uuid db) (λ m. rt.number m.local_id)

  abbrev pub seed_cursor : Text → Text → Option SyncCursor → SyncDb sx → SyncDb sx
  seed_cursor now family_id (some existing) db = db
  seed_cursor now family_id none db =
      set_cursor sx now family_id (encode_cursor rt.btoa rt.atob 0) db

  unfoldable pub set_local_family_id : Text → Text → SyncDb sx → SyncDb sx
  set_local_family_id now family_id db =
      seed_cursor now family_id (sx.cursors.get family_id db.cursors) db
