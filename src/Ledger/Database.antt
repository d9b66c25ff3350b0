-- ===== src/Ledger/Database.antt =====
-- The tables that the ledger writes, its errors, and the database transaction around each write.
use expensesapp.Prelude.{ℕ, Option, none, some, List, [], ◌∷◌, if◌then◌else◌}
use expensesapp.Prelude.Int.{ℤ, pos, ◌-ℤ◌, min_ℤ}
use expensesapp.Prelude.Text.{Text, text_eq}
use expensesapp.Models.{Account, Transaction, account_has_id, transaction_has_id}
use expensesapp.Storage.{Store}

-- `db.accounts` and `db.transactions`.
pub record Dexie : Type 1 where
  pub accounts : Store Account
  pub transactions : Store Transaction

pub record Db (dx : Dexie) : Type 0 where
  pub accounts : dx.accounts.Table
  pub transactions : dx.transactions.Table

-- What Dexie can throw of itself when a database transaction is written.
pub data DexieError : Type 0 where
  quota_exceeded_error constraint_error data_error other_error : DexieError

-- The errors of the service: those that it throws, `QuotaError`, those of Dexie, which are no
-- `DOMException`, the `DOMException` of the name `QuotaExceededError`, and any other.
pub data Error : Type 0 where
  account_not_found : ℕ → Error
  account_archived group_mismatch quota_error : Error
  unexpected_record_count : Text → ℕ → Error
  dexie_error : DexieError → Error
  dom_quota_exceeded_error other_exception : Error

-- What an `async` body comes to: an exception or a value.
pub data Result {ℓ} (Value : Type ℓ) : Type ℓ where
  err : Error → Result Value
  ok : Value → Result Value

-- An exception ends the rest of the body.
module _ {ℓ κ} {Value : Type ℓ} {Out : Type κ} where
  infixl 5 ◌>>=◌
  abbrev pub ◌>>=◌ : Result Value → (Value → Result Out) → Result Out
  err thrown >>= rest = err thrown
  ok value >>= rest = rest value

-- A check has no value.
module _ {κ} {Out : Type κ} where
  infixl 5 ◌>>◌
  abbrev pub ◌>>◌ : Result (Unit {0}) → Result Out → Result Out
  err thrown >> rest = err thrown
  ok checked >> rest = rest

-- The calls of push-helpers.ts that follow a committed write, in their order.
pub data Push : Type 0 where
  push_transaction push_transaction_tombstone : Transaction → Push
  push_account : Account → Push

-- `wrapQuotaError`: only the `DOMException` is renamed.
abbrev pub wrap_quota_error : Error → Error
wrap_quota_error dom_quota_exceeded_error = quota_error
wrap_quota_error e = e

-- `Math.min(...orders)` of a list that is not empty
abbrev pub min_order : ℤ → List Transaction → ℤ
min_order least [] = least
min_order least (t ∷ ts) = min_order (min_ℤ least t.display_order) ts

abbrev pub min_display_order : List Transaction → ℤ
min_display_order [] = pos 1
min_display_order (t ∷ ts) = min_order t.display_order ts

-- The checks at the head of every write: the account exists and is not archived.
abbrev pub usable : ℕ → Option Account → Result Account
usable k none = err (account_not_found k)
usable k (some account) = if account.is_trashed then err account_archived else ok account

-- `db.accounts.update(k, { balance, updatedAt })`
abbrev pub with_balance : ℤ → Text → Account → Account
with_balance balance now account = record account { balance = balance; updated_at = now }

module _ (dx : Dexie) where
  abbrev pub Body : Type 0
  Body = Db dx → Result (List Push × Db dx)

  -- What is thrown, if anything, when the database transaction writes a state, and by a push that
  -- follows the transaction.
  pub record Faults : Type 0 where
    pub write : Db dx → Option Error
    pub push : Push → Option Error

  abbrev pub or_next : Option Error → Option Error → Option Error
  or_next (some e) next = some e
  or_next none next = next

  -- The pushes are awaited one after the other, and the first that throws ends the call.
  abbrev pub thrown_by : (Push → Option Error) → List Push → Option Error
  thrown_by push [] = none
  thrown_by push (p ∷ ps) = or_next (push p) (thrown_by push ps)

  abbrev pub pushed : List Push → Option Error → Result (List Push)
  pushed pushes none = ok pushes
  pushed pushes (some e) = err e

  -- `db.transaction("rw", …)`: an exception in the body, or a failed write, rolls everything back;
  -- one of a push comes after the commit.
  abbrev pub commit : Faults → Db dx → List Push → Db dx → Option Error → Result (List Push) × Db dx
  commit faults db pushes db' none = (pushed pushes (thrown_by faults.push pushes), db')
  commit faults db pushes db' (some e) = (err (wrap_quota_error e), db)

  abbrev pub settle :
      (faults : Faults) → Db dx → Result (List Push × Db dx) → Result (List Push) × Db dx
  settle faults db (err e) = (err (wrap_quota_error e), db)
  settle faults db (ok (pushes, db')) = commit faults db pushes db' (faults.write db')

  -- `getMinDisplayOrder`
  unfoldable pub get_min_display_order : Text → Db dx → ℤ
  get_min_display_order date db =
      min_display_order (dx.transactions.query (λ t. text_eq t.date date) db.transactions)

  unfoldable pub load_account : ℕ → Db dx → Result Account
  load_account k db = usable k (dx.accounts.get k db.accounts)

  unfoldable pub set_balance : ℕ → ℤ → Text → Db dx → Db dx
  set_balance k balance now db = record db {
    accounts = dx.accounts.update k (with_balance balance now) db.accounts;
  }

  -- `db.transactions.add(tx)`
  abbrev pub added : Db dx → Option (ℕ × dx.transactions.Table) → Result (ℕ × Db dx)
  added db none = err (dexie_error constraint_error)
  added db (some (k, t)) = ok (k, record db { transactions = t })

  unfoldable pub add_transaction : Transaction → Db dx → Result (ℕ × Db dx)
  add_transaction tx db = added db (dx.transactions.add tx db.transactions)

  -- `db.transactions.put(tx)`
  unfoldable pub put_transaction : Transaction → Db dx → Db dx
  put_transaction tx db = record db { transactions = dx.transactions.put tx db.transactions }

  -- `db.transactions.delete(tx.id!)`: an undefined key is refused by IndexedDB.
  unfoldable pub delete_transaction : Option ℕ → Db dx → Result (Db dx)
  delete_transaction none db = err (dexie_error data_error)
  delete_transaction (some k) db =
      ok (record db { transactions = dx.transactions.delete k db.transactions })

  -- A row in front of its date: `{ ...tx, displayOrder: minOrder - 1, createdAt, updatedAt: now }`.
  unfoldable pub placed : (created now : Text) → Transaction → Db dx → Transaction
  placed created now tx db = record tx {
    display_order = get_min_display_order tx.date db -ℤ pos 1;
    created_at = created;
    updated_at = now;
  }
