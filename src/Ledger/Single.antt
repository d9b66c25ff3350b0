-- ===== src/Ledger/Single.antt =====
-- The writes of one transaction: `applyTransaction`, `revertTransaction`, `replaceTransaction`, and
-- `adjustBalance`. `now` is the clock's `new Date().toISOString()` inside the database transaction,
-- and `faults` what Dexie throws on writing a state.
pub mod Adjusting
pub mod Opening
pub mod Replacing
use expensesapp.Prelude.{map, ℕ, Option, List, [], ◌∷◌, some, if◌then◌else◌, ◌==◌}
use expensesapp.Prelude.Int.{ℤ, pos, ◌+ℤ◌, ◌-ℤ◌}
use expensesapp.Prelude.Text.{Text, text_eq}
use expensesapp.Models.{Account, Transaction}
use expensesapp.Ledger.Delta.{get_balance_delta}
use expensesapp.Ledger.Database.{
  Faults, Dexie, Db, DexieError, Error, Result, ok, err, ◌>>=◌, Push, push_transaction,
  push_transaction_tombstone, push_account, Body, settle, get_min_display_order, load_account,
  placed, with_balance, set_balance, add_transaction, delete_transaction, put_transaction,
}

module _ (dx : Dexie) (faults : Faults dx) (now : Text) where
  -- The body of the database transaction in `applyTransaction`, and the pushes that follow it.
  apply_body : Transaction → Body dx
  apply_body tx db = do
    account ← load_account dx tx.account_id db
    let balance = account.balance +ℤ get_balance_delta account tx
    (k, db') ←
        add_transaction dx (placed dx now now tx db) (set_balance dx tx.account_id balance now db)
    ok (
      push_transaction (record (placed dx now now tx db) { id = some k })
          ∷ push_account (with_balance balance now account)
          ∷ [],
      db',
    )

  unfoldable pub apply_transaction : Transaction → Db dx → Result (List Push) × Db dx
  unfolding apply_body
  apply_transaction tx db = settle dx faults db (apply_body tx db)

  revert_body : Transaction → Body dx
  revert_body tx db = do
    account ← load_account dx tx.account_id db
    let balance = account.balance -ℤ get_balance_delta account tx
    db' ← delete_transaction dx tx.id (set_balance dx tx.account_id balance now db)
    ok (push_transaction_tombstone tx ∷ push_account (with_balance balance now account) ∷ [], db')

  unfoldable pub revert_transaction : Transaction → Db dx → Result (List Push) × Db dx
  unfolding revert_body
  revert_transaction tx db = settle dx faults db (revert_body tx db)

  -- The two branches of `replaceTransaction` on the account: the state after the balance writes,
  -- and the affected accounts in their order.
  move_balance : Account → Transaction → Transaction → Db dx → Result (List Account × Db dx)
  move_balance old_account old_tx new_tx db = do
    let old_balance = old_account.balance -ℤ get_balance_delta old_account old_tx
    let db1 = set_balance dx old_tx.account_id old_balance now db
    new_account ← load_account dx new_tx.account_id db1
    let new_balance = new_account.balance +ℤ get_balance_delta new_account new_tx
    ok (
      with_balance old_balance now old_account ∷ with_balance new_balance now new_account ∷ [],
      set_balance dx new_tx.account_id new_balance now db1,
    )

  keep_account : Account → Transaction → Transaction → Db dx → Result (List Account × Db dx)
  keep_account account old_tx new_tx db =
      let balance =
        account.balance -ℤ get_balance_delta account old_tx +ℤ get_balance_delta account new_tx in
      ok (with_balance balance now account ∷ [], set_balance dx new_tx.account_id balance now db)

  -- The order of an edited row: kept on the same date, first of the new date otherwise.
  replaced_order : Transaction → Transaction → Db dx → ℤ
  replaced_order old_tx new_tx db =
      if text_eq old_tx.date new_tx.date
      then old_tx.display_order
      else get_min_display_order dx new_tx.date db -ℤ pos 1

  updated : Transaction → Transaction → Db dx → Transaction
  unfolding replaced_order
  updated old_tx new_tx db = record new_tx {
    id = old_tx.id;
    display_order = replaced_order old_tx new_tx db;
    created_at = old_tx.created_at;
    updated_at = now;
  }

  replace_body : Transaction → Transaction → Body dx
  unfolding move_balance keep_account updated
  replace_body old_tx new_tx db = do
    old_account ← load_account dx old_tx.account_id db
    (affected, db1) ←
        if old_tx.account_id == new_tx.account_id
        then keep_account old_account old_tx new_tx db
        else move_balance old_account old_tx new_tx db
    let updated_tx = updated old_tx new_tx db1
    ok (push_transaction updated_tx ∷ map push_account affected, put_transaction dx updated_tx db1)

  unfoldable pub replace_transaction :
      Transaction → Transaction → Db dx → Result (List Push) × Db dx
  unfolding replace_body
  replace_transaction old_tx new_tx db = settle dx faults db (replace_body old_tx new_tx db)

  adjust_body : ℕ → ℤ → Body dx
  adjust_body k new_balance db = do
    account ← load_account dx k db
    ok (
      push_account (with_balance new_balance now account) ∷ [],
      set_balance dx k new_balance now db,
    )

  unfoldable pub adjust_balance : ℕ → ℤ → Db dx → Result (List Push) × Db dx
  unfolding adjust_body
  adjust_balance k new_balance db = settle dx faults db (adjust_body k new_balance db)
