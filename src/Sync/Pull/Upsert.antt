-- ===== src/Sync/Pull/Upsert.antt =====
-- The rows that a pulled record writes, in src/services/sync/engine.ts: `upsertPulledTransaction`,
-- `applyPulledTransactionTombstone`, `upsertPulledAccount` and `upsertDomainRow`. A database
-- transaction that is refused is rolled back; writes outside one stay.
use expensesapp.Prelude.{ℕ, Option, none, some, if◌then◌else◌}
use expensesapp.Prelude.Fields.{Fields, field_delete}
use expensesapp.Prelude.Text.{Text, text}
use expensesapp.Models.{Account, Transaction, transaction_has_id}
use expensesapp.Storage.Keyed.{set_id}
use expensesapp.Sync.Identity.{upsert_mapping_from_pull}
use expensesapp.Sync.Outbox.{Runtime}
use expensesapp.Sync.Outbox.Conflict.{is_set}
use expensesapp.Sync.Pull.{
  apply_transaction_balance, resolve_local_id_for_uuid, revert_transaction_balance,
}
use expensesapp.Sync.Records.{RecordType, transaction, account}
use expensesapp.Sync.Tables.{SyncDexie, SyncDb}

-- The state after a write, and whether the write threw.
pub data Written (S : Type 0) : Type 0 where
  applied rejected : S → Written S

abbrev pub state_of : {S : Type 0} → Written S → S
state_of (applied s) = s
state_of (rejected s) = s

-- Who the record is to the server: its identifier, its creator and its version.
pub record Origin : Type 0 where
  pub uuid : Text
  pub creator_user_id : Text
  pub version : ℕ

-- `db.transaction("rw", …)`
abbrev pub rolled_back : {S : Type 0} → S → Option S → Written S
rolled_back before none = rejected before
rolled_back before (some after) = applied after

-- A last write that throws leaves what was written before it.
abbrev pub then_mapped : {S : Type 0} → S → Option S → Written S
then_mapped written none = rejected written
then_mapped written (some mapped) = applied mapped

module _ (sx : SyncDexie) {V : Type 0} (rt : Runtime V) (now : Text) where
  -- `if (uuid) await upsertMappingFromPull(…)`
  unfoldable pub map_row : RecordType → Text → Origin → SyncDb sx → Option (SyncDb sx)
  map_row type local_id origin db =
      if is_set (some origin.uuid)
      then upsert_mapping_from_pull sx type local_id origin.uuid origin.creator_user_id
          origin.version db
      else some db

  abbrev pub local_row : Origin → SyncDb sx → Option ℕ
  local_row origin db = resolve_local_id_for_uuid sx rt (some origin.uuid) db

  -- The effect of the row that is there, if any, is taken back.
  abbrev pub revert_stored : Option Transaction → SyncDb sx → SyncDb sx
  revert_stored none db = db
  revert_stored (some old) db = record db {
    ledger = revert_transaction_balance sx.ledger now old db.ledger;
  }

  abbrev pub apply_row : Transaction → SyncDb sx → SyncDb sx
  apply_row tx db = record db { ledger = apply_transaction_balance sx.ledger now tx db.ledger }

  abbrev pub put_row : Transaction → SyncDb sx → SyncDb sx
  put_row tx db = record db {
    ledger = record db.ledger {
      transactions = sx.ledger.transactions.put tx db.ledger.transactions;
    };
  }

  abbrev pub delete_row : ℕ → SyncDb sx → SyncDb sx
  delete_row k db = record db {
    ledger = record db.ledger {
      transactions = sx.ledger.transactions.delete k db.ledger.transactions;
    };
  }

  -- The new row's balance and mapping, once `add` has answered.
  abbrev pub transaction_added :
      Transaction
      → Origin
      → SyncDb sx
      → Option (ℕ × sx.ledger.transactions.Table)
      → Option (SyncDb sx)
  transaction_added tx origin db none = none
  transaction_added tx origin db (some (k, t)) =
      map_row transaction (rt.string k) origin
        (apply_row (set_id k tx) (record db { ledger = record db.ledger { transactions = t } }))

  abbrev pub upsert_transaction_at :
      Option ℕ → Transaction → Origin → SyncDb sx → Option (SyncDb sx)
  upsert_transaction_at (some k) tx origin db =
      let reverted = revert_stored (sx.ledger.transactions.get k db.ledger.transactions) db in
      map_row transaction (rt.string k) origin
        (put_row (set_id k tx) (apply_row (set_id k tx) reverted))
  upsert_transaction_at none tx origin db =
      transaction_added tx origin db
        (sx.ledger.transactions.add (record tx { id = none }) db.ledger.transactions)

  unfoldable pub upsert_pulled_transaction : Transaction → Origin → SyncDb sx → Written (SyncDb sx)
  upsert_pulled_transaction tx origin db =
      rolled_back db (upsert_transaction_at (local_row origin db) tx origin db)

  abbrev pub tombstone_at : Option ℕ → Origin → SyncDb sx → Option (SyncDb sx)
  tombstone_at none origin db = some db
  tombstone_at (some k) origin db =
      map_row transaction (rt.string k) origin
        (delete_row k (revert_stored (sx.ledger.transactions.get k db.ledger.transactions) db))

  unfoldable pub apply_pulled_transaction_tombstone : Origin → SyncDb sx → Written (SyncDb sx)
  apply_pulled_transaction_tombstone origin db =
      rolled_back db (tombstone_at (local_row origin db) origin db)

  abbrev pub account_added :
      Origin → SyncDb sx → Option (ℕ × sx.ledger.accounts.Table) → Option (SyncDb sx)
  account_added origin db none = none
  account_added origin db (some (k, t)) =
      map_row account (rt.string k) origin
        (record db { ledger = record db.ledger { accounts = t } })

  -- `overlay fields row` is the row after `update(id, fields)`.
  abbrev pub update_account : (Fields V → Account → Account) → ℕ → Fields V → SyncDb sx → SyncDb sx
  update_account overlay k payload db = record db {
    ledger = record db.ledger {
      accounts =
          sx.ledger.accounts.update k
            (overlay (field_delete (text "id") (field_delete (text "balance") payload)))
            db.ledger.accounts;
    };
  }

  abbrev pub upsert_account_at :
      (Fields V → Account → Account)
      → Option ℕ
      → Fields V
      → Account
      → Origin
      → SyncDb sx
      → Option (SyncDb sx)
  upsert_account_at overlay (some k) payload row origin db =
      map_row account (rt.string k) origin (update_account overlay k payload db)
  upsert_account_at overlay none payload row origin db =
      account_added origin db (sx.ledger.accounts.add (record row { id = none }) db.ledger.accounts)

  -- `row` is the payload read as an account.
  unfoldable pub upsert_pulled_account :
      (Fields V → Account → Account) → Fields V → Account → Origin → SyncDb sx → Written (SyncDb sx)
  upsert_pulled_account overlay payload row origin db =
      rolled_back db (upsert_account_at overlay (local_row origin db) payload row origin db)

  abbrev pub domain_row_added :
      RecordType → Origin → SyncDb sx → Option (ℕ × SyncDb sx) → Written (SyncDb sx)
  domain_row_added type origin db none = rejected db
  domain_row_added type origin db (some (k, db')) =
      then_mapped db' (map_row type (rt.string k) origin db')

  abbrev pub upsert_domain_at :
      RecordType
      → Origin
      → (ℕ → SyncDb sx → SyncDb sx)
      → (SyncDb sx → Option (ℕ × SyncDb sx))
      → Option ℕ
      → SyncDb sx
      → Written (SyncDb sx)
  upsert_domain_at type origin put_at add_new (some k) db =
      then_mapped (put_at k db) (map_row type (rt.string k) origin (put_at k db))
  upsert_domain_at type origin put_at add_new none db = domain_row_added type origin db (add_new db)

  -- `put_at` puts the row under a given key, `add_new` adds it without one.
  unfoldable pub upsert_domain_row :
      RecordType
      → Origin
      → (ℕ → SyncDb sx → SyncDb sx)
      → (SyncDb sx → Option (ℕ × SyncDb sx))
      → SyncDb sx
      → Written (SyncDb sx)
  upsert_domain_row type origin put_at add_new db =
      upsert_domain_at type origin put_at add_new (local_row origin db) db
