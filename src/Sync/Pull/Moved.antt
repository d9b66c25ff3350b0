-- ===== src/Sync/Pull/Moved.antt =====
-- How the steps of a pulled transaction move the balances and the effects of the ledger.
use expensesapp.Prelude.{
  ℕ, ◌≡◌, refl, ap, sym, false, Option, none, some, ◌==◌, ==_iff, Bool-cases, inl, inr,
}
use expensesapp.Prelude.Int.{ℤ, pos, neg, ◌+ℤ◌, int_laws, add-zero_ℤ, pos_part, neg_part}
use expensesapp.Prelude.Text.{Text}
use expensesapp.Models.{Account, AccountType, Transaction, transaction_has_id}
use expensesapp.Storage.Keyed.{set_id, erase_missing}
use expensesapp.Storage.Sums.{sum_rows-insert_new, sum_rows-erase}
use expensesapp.Ledger.Database.{Dexie, Db, put_transaction}
use expensesapp.Ledger.Opening.{
  effects, effect_on, effect_on_other, put_transaction-effects, set_balance-transactions,
  set_balance-transactions,
}
use expensesapp.Ledger.Moves.{
  Change, Moves, Shift-unmoved, nothing, effect_of, taken_back, ◌and◌, credit-Moves, debit-Moves,
  neg-zero_of,
}
use expensesapp.Sync.Pull.{
  apply_on, apply_transaction_balance, revert_on, revert_transaction_balance,
}

-- The effect that a stored row, if there is one, has had.
abbrev pub undone : Option Transaction → Change
undone none = nothing
undone (some old) = taken_back old

module _ (dx : Dexie) (now : Text) where
  missing-Moves :
      (c : Change) (k : ℕ) (db : Db dx)
      → dx.accounts.get k db.accounts ≡ none
      → ((j : ℕ) (t : AccountType) → (j == k) ≡ false → c j t ≡ pos 0)
      → Moves dx db db c nothing
  missing-Moves c k db absent others = record {
    shifts = λ j. elim (Bool-cases (j == k)) [
      | inl e ↦ rw ((==_iff j k).0 e, absent) tt
      | inr e ↦ Shift-unmoved (c j) (dx.accounts.get j db.accounts) (λ t. others j t e)
    ];
    effects_move = λ j t. sym (add-zero_ℤ (effects dx j t db));
  }

  pub apply_transaction_balance-Moves :
      (tx : Transaction) (db : Db dx)
      → Moves dx db (apply_transaction_balance dx now tx db) (effect_of tx) nothing
  unfolding apply_transaction_balance
  apply_transaction_balance-Moves tx db = split (dx.accounts.get tx.account_id db.accounts) refl
    where
      split :
          (o : Option Account)
          → dx.accounts.get tx.account_id db.accounts ≡ o
          → Moves dx db (apply_on dx now o tx db) (effect_of tx) nothing
      split none e = missing-Moves (effect_of tx) tx.account_id db e (λ j t. effect_on_other j t tx)
      split (some a) e = credit-Moves dx tx now a a db e refl

  pub revert_transaction_balance-Moves :
      (tx : Transaction) (db : Db dx)
      → Moves dx db (revert_transaction_balance dx now tx db) (taken_back tx) nothing
  unfolding revert_transaction_balance
  revert_transaction_balance-Moves tx db = split (dx.accounts.get tx.account_id db.accounts) refl
    where
      split :
          (o : Option Account)
          → dx.accounts.get tx.account_id db.accounts ≡ o
          → Moves dx db (revert_on dx now o tx db) (taken_back tx) nothing
      split none e =
          missing-Moves (taken_back tx) tx.account_id db e
            (λ j t h. neg-zero_of dx (effect_on j t tx) (effect_on_other j t tx h))
      split (some a) e = debit-Moves dx tx now a a db e refl

  pub apply_transaction_balance-transactions :
      (tx : Transaction) (db : Db dx)
      → (apply_transaction_balance dx now tx db).transactions ≡ db.transactions
  unfolding apply_transaction_balance
  apply_transaction_balance-transactions tx db = split (dx.accounts.get tx.account_id db.accounts)
    where
      split : (o : Option Account) → (apply_on dx now o tx db).transactions ≡ db.transactions
      split none = refl
      split (some a) = set_balance-transactions dx tx.account_id _ now db

  pub revert_transaction_balance-transactions :
      (tx : Transaction) (db : Db dx)
      → (revert_transaction_balance dx now tx db).transactions ≡ db.transactions
  unfolding revert_transaction_balance
  revert_transaction_balance-transactions tx db = split (dx.accounts.get tx.account_id db.accounts)
    where
      split : (o : Option Account) → (revert_on dx now o tx db).transactions ≡ db.transactions
      split none = refl
      split (some a) = set_balance-transactions dx tx.account_id _ now db

  exchanged : (x y old new : ℤ) → x +ℤ old ≡ y +ℤ new → x ≡ y +ℤ (neg old +ℤ new)
  exchanged x y old new h = omega (int_laws, ap pos_part h, ap neg_part h)

  only_new : (x y new : ℤ) → x ≡ y +ℤ new → x ≡ y +ℤ (pos 0 +ℤ new)
  only_new x y new h = omega (int_laws, ap pos_part h, ap neg_part h)

  only_old : (x y old : ℤ) → x +ℤ old ≡ y → x ≡ y +ℤ neg old
  only_old x y old h = omega (int_laws, ap pos_part h, ap neg_part h)

  -- A write of the transactions alone.
  table-Moves :
      (table : dx.transactions.Table) (e : Change) (db : Db dx)
      → ((j : ℕ) (t : AccountType)
          → effects dx j t (record db { transactions = table }) ≡ effects dx j t db +ℤ e j t)
      → Moves dx db (record db { transactions = table }) nothing e
  table-Moves table e db moved = record {
    shifts = λ j. Shift-unmoved (λ t. pos 0) (dx.accounts.get j db.accounts) (λ t. refl);
    effects_move = moved;
  }

  -- A row put under its key stands in for the row that was there, if any.
  pub put-Moves :
      (k : ℕ) (tx : Transaction) (o : Option Transaction) (db : Db dx)
      → dx.transactions.get k db.transactions ≡ o
      → Moves dx db
          (record db { transactions = dx.transactions.put (set_id k tx) db.transactions })
          nothing
          (undone o and effect_of (set_id k tx))
  unfolding effects put_transaction
  put-Moves k tx none db here =
      let s = dx.transactions in
      let table = s.put (set_id k tx) db.transactions in
      table-Moves table (nothing and effect_of (set_id k tx)) db λ j t.
        only_new (effects dx j t (record db { transactions = table })) (effects dx j t db)
          (effect_on j t (set_id k tx))
          (rw s.rows-put (
            sum_rows-insert_new (effect_on j t) k (set_id k tx) (s.rows db.transactions)
              (rw s.get-rows at here)))
  put-Moves k tx (some old) db here =
      let table = dx.transactions.put (set_id k tx) db.transactions in
      table-Moves table (taken_back old and effect_of (set_id k tx)) db λ j t.
        exchanged (effects dx j t (record db { transactions = table })) (effects dx j t db)
          (effect_on j t old) (effect_on j t (set_id k tx))
          (put_transaction-effects dx k old (set_id k tx) db here refl j t)

  -- Deleting a key takes back the effect of the row that was there, if any.
  pub delete-Moves :
      (k : ℕ) (o : Option Transaction) (db : Db dx)
      → dx.transactions.get k db.transactions ≡ o
      → Moves dx db
          (record db { transactions = dx.transactions.delete k db.transactions })
          nothing
          (undone o)
  unfolding effects
  delete-Moves k none db here =
      let s = dx.transactions in
      let table = s.delete k db.transactions in
      table-Moves table nothing db λ j t.
        rw (s.rows-delete, erase_missing k (s.rows db.transactions) (rw s.get-rows at here))
          (sym (add-zero_ℤ (effects dx j t db)))
  delete-Moves k (some old) db here =
      let s = dx.transactions in
      let table = s.delete k db.transactions in
      table-Moves table (taken_back old) db λ j t.
        only_old (effects dx j t (record db { transactions = table })) (effects dx j t db)
          (effect_on j t old)
          (rw s.rows-delete
            (sum_rows-erase (effect_on j t) k old (s.rows db.transactions) (rw s.get-rows at here)))
