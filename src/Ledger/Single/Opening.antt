-- ===== src/Ledger/Single/Opening.antt =====
-- The writes of one transaction leave what every account started from as it was.
use expensesapp.Prelude.{
  ℕ, ◌≡◌, refl, false, some, List, if◌then◌else◌, ◌==◌, Bool-cases, inl, inr, ap, ◌∙◌, ==_iff,
}
use expensesapp.Prelude.Int.{◌+ℤ◌, add_add_comm, add-zero_ℤ, sub_add_cancel, add-zero_eq, ◌-ℤ◌}
use expensesapp.Prelude.Text.{Text}
use expensesapp.Models.{AccountType, Account, Transaction}
use expensesapp.Ledger.Delta.{get_balance_delta}
use expensesapp.Ledger.Database.{
  Faults, Dexie, Db, ok, Push, load_account, with_balance, set_balance, placed, add_transaction,
  delete_transaction,
}
use expensesapp.Ledger.Single.{apply_body, apply_transaction, revert_body, revert_transaction}
use expensesapp.Ledger.Opening.{
  set_balance-transactions, delete_transaction-ok, get_balance_delta-eq, effect_on_other,
  effect_on-placed, effects, opening, opening_same, opening_ne, settle_keeps, bind_ok,
  load_account-ok, get-set_balance, effects-set_balance, add_transaction-ok,
}

module _ (dx : Dexie) where
  -- If the balance of one account moves by as much as the effects on it, and nothing else moves on
  -- the others, then every account keeps what it started from.
  pub opening_of_move :
      (k : ℕ) (a a' : Account) (db db' : Db dx)
      → dx.accounts.get k db.accounts ≡ some a
      → ((j : ℕ)
          → dx.accounts.get j db'.accounts
            ≡ (if j == k then some a' else dx.accounts.get j db.accounts))
      → a'.type ≡ a.type
      → a'.balance +ℤ effects dx k a.type db ≡ a.balance +ℤ effects dx k a.type db'
      → ((j : ℕ) (t : AccountType) → (j == k) ≡ false → effects dx j t db' ≡ effects dx j t db)
      → (j : ℕ) → opening dx j db' ≡ opening dx j db
  opening_of_move k a a' db db' e written t moved others j = elim (Bool-cases (j == k)) [
    | inl same ↦
        rw ((==_iff j k).0 same)
          (opening_same dx k db db' a a' e (rw (written k) (rw ((==_iff k k).1 refl))) t moved)
    | inr other ↦ opening_ne dx j db db' (rw (written j) (rw other)) (λ t. others j t other)
  ]

  module _ (faults : Faults dx) (now : Text) where
    apply_body-opening :
        (tx : Transaction) (db : Db dx) (ps : List Push) (db' : Db dx)
        → apply_body dx faults now tx db ≡ ok (ps, db')
        → (j : ℕ) → opening dx j db' ≡ opening dx j db
    unfolding apply_body
    apply_body-opening tx db ps db' h =
        bind_ok (load_account dx tx.account_id db) _ h λ a loaded h1.
          let balance = a.balance +ℤ get_balance_delta a tx in
          let k = tx.account_id in
          bind_ok (add_transaction dx (placed dx now now tx db) (set_balance dx k balance now db)) _
            h1
            λ p inserted h2.
              let e = (load_account-ok dx k db loaded).0 in
              let (accounts, effect) = add_transaction-ok dx _ _ inserted in
              let same : p.1 ≡ db' = cc in
              rw (← same) (
                opening_of_move k a (with_balance balance now a) db p.1 e
                  (λ j. ap (dx.accounts.get j) accounts ∙ get-set_balance dx j k balance now a db e)
                  refl
                  (rw (effect k a.type, effects-set_balance, effect_on-placed, get_balance_delta-eq)
                    (add_add_comm _ _ _))
                  (λ j t other.
                    rw
                      (
                        effect j t,
                        effects-set_balance,
                        effect_on-placed,
                        effect_on_other j t tx other,
                      )
                      (add-zero_ℤ _)))

    -- Adding a transaction leaves the opening balance of every account as it was, whatever the
    -- transaction is, and whether the call succeeds or fails.
    pub apply_transaction-opening :
        (tx : Transaction) (db : Db dx) (j : ℕ)
        → opening dx j (apply_transaction dx faults now tx db).1 ≡ opening dx j db
    unfolding apply_transaction
    apply_transaction-opening tx db j =
        settle_keeps dx (λ db'. opening dx j db' ≡ opening dx j db) faults db
          (apply_body dx faults now tx db) refl (λ ps db' h. apply_body-opening tx db ps db' h j)

    revert_body-opening :
        (i : ℕ) (tx : Transaction) (db : Db dx) (ps : List Push) (db' : Db dx)
        → tx.id ≡ some i
        → dx.transactions.get i db.transactions ≡ some tx
        → revert_body dx faults now tx db ≡ ok (ps, db')
        → (j : ℕ) → opening dx j db' ≡ opening dx j db
    unfolding revert_body
    revert_body-opening i tx db ps db' has_id stored h =
        bind_ok (load_account dx tx.account_id db) _ h λ a loaded h1.
          let balance = a.balance -ℤ get_balance_delta a tx in
          let k = tx.account_id in
          bind_ok (delete_transaction dx tx.id (set_balance dx k balance now db)) _ h1
            λ db2 deleted h2.
              let e = (load_account-ok dx k db loaded).0 in
              let (accounts, effect) =
                delete_transaction-ok dx i tx.id tx (set_balance dx k balance now db) has_id
                  (rw set_balance-transactions stored) deleted in
              let same : db2 ≡ db' = cc in
              rw (← same) (
                opening_of_move k a (with_balance balance now a) db db2 e
                  (λ j. ap (dx.accounts.get j) accounts ∙ get-set_balance dx j k balance now a db e)
                  refl
                  (rw get_balance_delta-eq (
                    sub_add_cancel _ _ _ _
                      (effect k a.type ∙ effects-set_balance dx k k a.type _ now db)))
                  (λ j t other. add-zero_eq _ _ (
                    rw (← effect_on_other j t tx other)
                      (effect j t ∙ effects-set_balance dx j k t _ now db))))

    -- Deleting the transaction that is stored under its key leaves the opening balance of every
    -- account as it was, whether the call succeeds or fails.
    pub revert_transaction-opening :
        (i : ℕ) (tx : Transaction) (db : Db dx)
        → tx.id ≡ some i
        → dx.transactions.get i db.transactions ≡ some tx
        → (j : ℕ) → opening dx j (revert_transaction dx faults now tx db).1 ≡ opening dx j db
    unfolding revert_transaction
    revert_transaction-opening i tx db has_id stored j =
        settle_keeps dx (λ db'. opening dx j db' ≡ opening dx j db) faults db
          (revert_body dx faults now tx db) refl
          (λ ps db' h. revert_body-opening i tx db ps db' has_id stored h j)
