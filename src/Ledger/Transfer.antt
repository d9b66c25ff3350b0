-- ===== src/Ledger/Transfer.antt =====
-- The writes of the two legs of a transfer: `applyTransfer`, `revertTransfer`, `replaceTransfer`.
pub mod Applying
pub mod Reverting
pub mod Replacing
use expensesapp.Prelude.{
  ℕ, Bool, true, false, Option, none, some, List, [], ◌∷◌, ◌++◌, map, if◌then◌else◌, ◌==◌, not,
  length, find,
}
use expensesapp.Prelude.Int.{◌+ℤ◌, ◌-ℤ◌}
use expensesapp.Prelude.Text.{Text, holds_text}
use expensesapp.Models.{Account, Transaction, TransferDirection, outward, inward}
use expensesapp.Ledger.Delta.{get_balance_delta}
use expensesapp.Ledger.Database.{
  Faults, Dexie, Db, DexieError, Error, unexpected_record_count, group_mismatch, Result, ok, err,
  ◌>>=◌, ◌>>◌, Push, push_transaction, push_transaction_tombstone, push_account, Body, settle,
  usable, account_not_found, load_account, with_balance, set_balance, placed, add_transaction,
  delete_transaction,
}

-- `outTx.transferGroupId !== inTx.transferGroupId`
abbrev pub same_group : Option Text → Option Text → Bool
same_group none none = true
same_group none (some h) = false
same_group (some g) o = holds_text o g

abbrev pub is_out : Option TransferDirection → Bool
is_out (some outward) = true
is_out _ = false

abbrev pub is_in : Option TransferDirection → Bool
is_in (some inward) = true
is_in _ = false

-- `if (!account) throw …`
abbrev pub found : ℕ → Option Account → Result Account
found k none = err (account_not_found k)
found k (some account) = ok account

-- `a ?? b` where both may be missing
abbrev pub or_else : Option Account → Option Account → Option Account
or_else none b = b
or_else (some a) b = some a

-- `if (!test) throw …`
abbrev pub guard_ok : Bool → Error → Result (Unit {0})
guard_ok true e = ok tt
guard_ok false e = err e

-- The `Map<number, Account>` of affected accounts, in the order of insertion.
abbrev pub Touched : Type 0
Touched = List (ℕ × Account)

abbrev pub touched_get : ℕ → Touched → Option Account
touched_get k [] = none
touched_get k ((j, a) ∷ m) = if k == j then some a else touched_get k m

abbrev pub touched_set : ℕ → Account → Touched → Touched
touched_set k a [] = (k, a) ∷ []
touched_set k a ((j, b) ∷ m) = if k == j then (k, a) ∷ m else (j, b) ∷ touched_set k a m

abbrev pub touched_pushes : Touched → List Push
touched_pushes [] = []
touched_pushes ((k, a) ∷ m) = push_account a ∷ touched_pushes m

module _ (dx : Dexie) (faults : Faults dx) (now : Text) where
  -- A leg that is inserted in front of its date.
  pub add_leg : Text → Transaction → Db dx → Result (Transaction × Db dx)
  add_leg created tx db = do
    (k, db') ← add_transaction dx (placed dx created now tx db) db
    ok (record (placed dx created now tx db) { id = some k }, db')

  -- The balance write of the IN leg in `applyTransfer`, after that of the OUT leg: on the row read
  -- again if both legs stand on one account, and on the row that was read first otherwise.
  credit_same : Account → Transaction → Db dx → Result (List Account × Db dx)
  credit_same in_account in_tx db = do
    refreshed ← found in_tx.account_id (dx.accounts.get in_tx.account_id db.accounts)
    let balance = refreshed.balance +ℤ get_balance_delta in_account in_tx
    ok (with_balance balance now refreshed ∷ [], set_balance dx in_tx.account_id balance now db)

  credit_other : Account → Account → Transaction → Db dx → Result (List Account × Db dx)
  credit_other out_snapshot in_account in_tx db =
      let balance = in_account.balance +ℤ get_balance_delta in_account in_tx in
      ok (
        out_snapshot ∷ with_balance balance now in_account ∷ [],
        set_balance dx in_tx.account_id balance now db,
      )

  apply_transfer_body : Transaction → Transaction → Body dx
  unfolding add_leg credit_same credit_other
  apply_transfer_body out_tx in_tx db = do
    out_account ← load_account dx out_tx.account_id db
    in_account ← load_account dx in_tx.account_id db
    let balance = out_account.balance +ℤ get_balance_delta out_account out_tx
    let db1 = set_balance dx out_tx.account_id balance now db
    (affected, db2) ←
        if out_tx.account_id == in_tx.account_id
        then credit_same in_account in_tx db1
        else credit_other (with_balance balance now out_account) in_account in_tx db1
    (out_leg, db3) ← add_leg now out_tx db2
    (in_leg, db4) ← add_leg now in_tx db3
    ok (push_transaction out_leg ∷ push_transaction in_leg ∷ map push_account affected, db4)

  unfoldable pub apply_transfer : Transaction → Transaction → Db dx → Result (List Push) × Db dx
  unfolding apply_transfer_body
  apply_transfer out_tx in_tx db =
      if same_group out_tx.transfer_group_id in_tx.transfer_group_id
      then settle dx faults db (apply_transfer_body out_tx in_tx db)
      else (err group_mismatch, db)

  -- `affectedAccounts.get(id) ?? db.accounts.get(id)`, with the two checks
  pub load_touched : ℕ → Touched → Db dx → Result Account
  load_touched k touched db =
      usable k (or_else (touched_get k touched) (dx.accounts.get k db.accounts))

  -- One round of the loop that takes the old legs back.
  pub revert_record : Transaction → Touched → Db dx → Result (Touched × Db dx)
  unfolding load_touched
  revert_record record_tx touched db = do
    account ← load_touched record_tx.account_id touched db
    let balance = account.balance -ℤ get_balance_delta account record_tx
    db' ← delete_transaction dx record_tx.id (set_balance dx record_tx.account_id balance now db)
    ok (touched_set record_tx.account_id (with_balance balance now account) touched, db')

  pub revert_records : List Transaction → Touched → Db dx → Result (Touched × Db dx)
  unfolding revert_record
  revert_records [] touched db = ok (touched, db)
  revert_records (r ∷ rs) touched db = do
    (touched', db') ← revert_record r touched db
    revert_records rs touched' db'

  pub group_records : Text → Db dx → List Transaction
  group_records group db =
      dx.transactions.query (λ t. holds_text t.transfer_group_id group) db.transactions

  revert_transfer_body : Text → Body dx
  unfolding group_records revert_records
  revert_transfer_body group db = do
    let records = group_records group db
    guard_ok (not (length records == 0)) (unexpected_record_count group 0)
    (touched, db') ← revert_records records [] db
    ok (map push_transaction_tombstone records ++ touched_pushes touched, db')

  unfoldable pub revert_transfer : Text → Db dx → Result (List Push) × Db dx
  unfolding revert_transfer_body
  revert_transfer group db = settle dx faults db (revert_transfer_body group db)

  -- The balance write of the new IN leg in `replaceTransfer`.
  pub credit_same_touched : Account → Transaction → Touched → Db dx → Result (Touched × Db dx)
  credit_same_touched in_account in_tx touched db = do
    refreshed ← found in_tx.account_id (dx.accounts.get in_tx.account_id db.accounts)
    let balance = refreshed.balance +ℤ get_balance_delta in_account in_tx
    ok (
      touched_set in_tx.account_id (with_balance balance now refreshed) touched,
      set_balance dx in_tx.account_id balance now db,
    )

  pub credit_other_touched : Account → Transaction → Touched → Db dx → Result (Touched × Db dx)
  credit_other_touched in_account in_tx touched db =
      let balance = in_account.balance +ℤ get_balance_delta in_account in_tx in
      ok (
        touched_set in_tx.account_id (with_balance balance now in_account) touched,
        set_balance dx in_tx.account_id balance now db,
      )

  -- The balance writes of the new legs, on the snapshots where there are any.
  pub apply_legs : Transaction → Transaction → Touched → Db dx → Result (Touched × Db dx)
  unfolding load_touched credit_same_touched credit_other_touched
  apply_legs out_tx in_tx touched db = do
    out_account ← load_touched out_tx.account_id touched db
    in_account ← load_touched in_tx.account_id touched db
    let balance = out_account.balance +ℤ get_balance_delta out_account out_tx
    let db' = set_balance dx out_tx.account_id balance now db
    let touched' = touched_set out_tx.account_id (with_balance balance now out_account) touched
    if out_tx.account_id == in_tx.account_id
        then credit_same_touched in_account in_tx touched' db'
        else credit_other_touched in_account in_tx touched' db'

  -- `record?.createdAt ?? now`
  pub created_of : Option Transaction → Text
  created_of none = now
  created_of (some t) = t.created_at

  replace_transfer_body : Text → Transaction → Transaction → Body dx
  unfolding group_records revert_records apply_legs add_leg created_of
  replace_transfer_body group out_tx in_tx db = do
    let records = group_records group db
    guard_ok (length records == 2) (unexpected_record_count group (length records))
    (touched1, db1) ← revert_records records [] db
    (touched2, db2) ← apply_legs out_tx in_tx touched1 db1
    (out_leg, db3) ←
        add_leg (created_of (find (λ t. is_out t.transfer_direction) records)) out_tx db2
    (in_leg, db4) ← add_leg (created_of (find (λ t. is_in t.transfer_direction) records)) in_tx db3
    ok (
      map push_transaction_tombstone records
          ++ push_transaction out_leg ∷ push_transaction in_leg ∷ touched_pushes touched2,
      db4,
    )

  unfoldable pub replace_transfer :
      Text → Transaction → Transaction → Db dx → Result (List Push) × Db dx
  unfolding replace_transfer_body
  replace_transfer group out_tx in_tx db =
      settle dx faults db (replace_transfer_body group out_tx in_tx db)
