-- ===== src/Ledger/Single/Replacing.antt =====
-- Editing a transaction, on the same account or from one account to another, leaves what every
-- account started from as it was.
use mathlib.Core.Path.{ap₂}
use expensesapp.Prelude.Int.{cancel_zeros, sub_of_effects, add_of_effects}
use expensesapp.Prelude.Tests.{if◌then◌else◌}
use expensesapp.Ledger.Delta.{get_balance_delta}
use expensesapp.Prelude.Text.{Text}
use expensesapp.Prelude.{
  some, ℕ, ◌≡◌, refl, ◌==◌, false, ◌∙◌, Bool-cases, inl, ==_iff, inr, arith, sym, List,
  ==_sym_false, true,
}
use expensesapp.Prelude.Int.{ℤ, ◌+ℤ◌, ◌-ℤ◌, sub_add_swap}
use expensesapp.Models.{Account, Transaction, AccountType}
use expensesapp.Ledger.Database.{
  Faults, Dexie, Db, put_transaction, set_balance, with_balance, Push, ok, load_account,
}
use expensesapp.Ledger.Single.{
  replace_body, replace_transaction, keep_account, move_balance, updated,
}
use expensesapp.Ledger.Single.Opening.{opening_of_move}
use expensesapp.Ledger.Opening.{
  opening, effects, effect_on, put_transaction-effects, set_balance-transactions,
  effects-set_balance, put_transaction-accounts, get-set_balance, effect_on_other, opening_same,
  opening_ne, get_balance_delta-at, bind_ok, load_account-ok, settle_keeps,
}

module _ (dx : Dexie) where
  -- The same for two different accounts.
  pub opening_of_moves :
      (k1 k2 : ℕ) (a1 a1' a2 a2' : Account) (db db' : Db dx)
      → (k2 == k1) ≡ false
      → dx.accounts.get k1 db.accounts ≡ some a1
      → dx.accounts.get k2 db.accounts ≡ some a2
      → ((j : ℕ)
          → dx.accounts.get j db'.accounts ≡ (
              if j == k2
              then some a2'
              else if j == k1
              then some a1'
              else dx.accounts.get j db.accounts))
      → a1'.type ≡ a1.type
      → a2'.type ≡ a2.type
      → a1'.balance +ℤ effects dx k1 a1.type db ≡ a1.balance +ℤ effects dx k1 a1.type db'
      → a2'.balance +ℤ effects dx k2 a2.type db ≡ a2.balance +ℤ effects dx k2 a2.type db'
      → ((j : ℕ) (t : AccountType)
          → (j == k1) ≡ false
          → (j == k2) ≡ false
          → effects dx j t db' ≡ effects dx j t db)
      → (j : ℕ) → opening dx j db' ≡ opening dx j db
  opening_of_moves k1 k2 a1 a1' a2 a2' db db' ne e1 e2 written t1 t2 moved1 moved2 others j =
      elim (Bool-cases (j == k2)) [
        | inl same ↦ rw ((==_iff j k2).0 same) (
            opening_same dx k2 db db' a2 a2' e2 (rw (written k2) (rw ((==_iff k2 k2).1 refl))) t2
              moved2)
        | inr other2 ↦ elim (Bool-cases (j == k1)) [
          | inl same ↦
              rw ((==_iff j k1).0 same) (
                opening_same dx k1 db db' a1 a1' e1 (rw (written k1) (ground (arith, ne))) t1
                  moved1)
          | inr other1 ↦
              opening_ne dx j db db' (rw (written j) (rw (other2, other1)))
                (λ t. others j t other1 other2)
        ]
      ]

  module _ (faults : Faults dx) (now : Text) where
    effect_on-updated :
        (old_tx new_tx : Transaction) (db : Db dx) (j : ℕ) (t : AccountType)
        → effect_on j t (updated dx faults now old_tx new_tx db) ≡ effect_on j t new_tx
    unfolding updated effect_on
    effect_on-updated old_tx new_tx db j t = refl

    -- The state that a replacement ends in, from the one after its balance writes.
    written-effects :
        (i : ℕ) (old_tx new_tx : Transaction) (db db1 : Db dx)
        → old_tx.id ≡ some i
        → dx.transactions.get i db.transactions ≡ some old_tx
        → db1.transactions ≡ db.transactions
        → ((j : ℕ) (t : AccountType) → effects dx j t db1 ≡ effects dx j t db)
        → (j : ℕ) (t : AccountType)
        → effects dx j t (put_transaction dx (updated dx faults now old_tx new_tx db1) db1)
            +ℤ effect_on j t old_tx
          ≡ effects dx j t db +ℤ effect_on j t new_tx
    unfolding updated
    written-effects i old_tx new_tx db db1 has_id stored tables same j t =
        put_transaction-effects dx i old_tx (updated dx faults now old_tx new_tx db1) db1
          (rw tables stored) has_id j t
        ∙ ap₂ ◌+ℤ◌ (same j t) (effect_on-updated old_tx new_tx db1 j t)

    replace_same-opening :
        (i : ℕ) (old_tx new_tx : Transaction) (a : Account) (db : Db dx)
        → old_tx.id ≡ some i
        → dx.transactions.get i db.transactions ≡ some old_tx
        → dx.accounts.get old_tx.account_id db.accounts ≡ some a
        → old_tx.account_id ≡ new_tx.account_id
        → (balance : ℤ)
        → balance ≡ a.balance -ℤ get_balance_delta a old_tx +ℤ get_balance_delta a new_tx
        → (db1 : Db dx) → db1 ≡ set_balance dx new_tx.account_id balance now db
        → (j : ℕ)
        → opening dx j (put_transaction dx (updated dx faults now old_tx new_tx db1) db1)
          ≡ opening dx j db
    replace_same-opening i old_tx new_tx a db has_id stored e one balance eb db1 edb =
        let k = new_tx.account_id in
        let e' : dx.accounts.get k db.accounts ≡ some a = rw (← one) e in
        let effect =
          written-effects i old_tx new_tx db db1 has_id stored
            (rw edb (set_balance-transactions dx k balance now db))
            (λ j t. rw edb (effects-set_balance dx j k t balance now db)) in
        opening_of_move dx k a (with_balance balance now a) db _ e'
          (λ j. rw (put_transaction-accounts, edb) (get-set_balance dx j k balance now a db e'))
          refl
          (rw (eb, get_balance_delta-at k a old_tx one, get_balance_delta-at k a new_tx refl)
            (sub_add_swap _ _ _ _ _ (effect k a.type)))
          (λ j t other.
            cancel_zeros _ _ _ _ (effect j t) (effect_on_other j t old_tx (rw one other))
              (effect_on_other j t new_tx other))

    replace_moved-opening :
        (i : ℕ) (old_tx new_tx : Transaction) (a b : Account) (db : Db dx)
        → old_tx.id ≡ some i
        → dx.transactions.get i db.transactions ≡ some old_tx
        → dx.accounts.get old_tx.account_id db.accounts ≡ some a
        → (new_tx.account_id == old_tx.account_id) ≡ false
        → (old_balance new_balance : ℤ) → old_balance ≡ a.balance -ℤ get_balance_delta a old_tx
        → new_balance ≡ b.balance +ℤ get_balance_delta b new_tx
        → (db1 db2 : Db dx) → db1 ≡ set_balance dx old_tx.account_id old_balance now db
        → dx.accounts.get new_tx.account_id db1.accounts ≡ some b
        → db2 ≡ set_balance dx new_tx.account_id new_balance now db1
        → (j : ℕ)
        → opening dx j (put_transaction dx (updated dx faults now old_tx new_tx db2) db2)
          ≡ opening dx j db
    replace_moved-opening i old_tx new_tx a b db has_id stored ea ne x y ex ey db1 db2 e1 eb e2 =
        let k = old_tx.account_id in
        let n = new_tx.account_id in
        let read1 : (j : ℕ)
            → dx.accounts.get j db1.accounts
              ≡ (if j == k then some (with_balance x now a) else dx.accounts.get j db.accounts) =
          λ j. rw e1 (get-set_balance dx j k x now a db ea) in
        let eb' : dx.accounts.get n db.accounts ≡ some b = sym (read1 n ∙ rw ne) ∙ eb in
        let effect =
          written-effects i old_tx new_tx db db2 has_id stored
            (rw (e2, set_balance-transactions, e1) (set_balance-transactions dx k x now db))
            (λ j t. rw (e2, effects-set_balance, e1) (effects-set_balance dx j k t x now db)) in
        opening_of_moves k n a (with_balance x now a) b (with_balance y now b) db _ ne ea eb'
          (λ j.
            rw (put_transaction-accounts, e2)
              (get-set_balance dx j n y now b db1 eb ∙ rw (read1 j)))
          refl refl
          (rw (ex, get_balance_delta-at k a old_tx refl)
            (sub_of_effects _ _ _ _ _ (effect k a.type)
              (effect_on_other k a.type new_tx (==_sym_false n k ne))))
          (rw (ey, get_balance_delta-at n b new_tx refl)
            (add_of_effects _ _ _ _ _ (effect n b.type) (effect_on_other n b.type old_tx ne)))
          (λ j t other1 other2.
            cancel_zeros _ _ _ _ (effect j t) (effect_on_other j t old_tx other1)
              (effect_on_other j t new_tx other2))

    -- Either way of writing the balances.
    keep_account-opening :
        (i : ℕ) (old_tx new_tx : Transaction) (a : Account) (db : Db dx) (p : List Account × Db dx)
        → old_tx.id ≡ some i
        → dx.transactions.get i db.transactions ≡ some old_tx
        → dx.accounts.get old_tx.account_id db.accounts ≡ some a
        → (old_tx.account_id == new_tx.account_id) ≡ true
        → keep_account dx faults now a old_tx new_tx db ≡ ok p
        → (j : ℕ)
        → opening dx j (put_transaction dx (updated dx faults now old_tx new_tx p.1) p.1)
          ≡ opening dx j db
    unfolding keep_account
    keep_account-opening i old_tx new_tx a db p has_id stored ea one h j =
        let balance = a.balance -ℤ get_balance_delta a old_tx +ℤ get_balance_delta a new_tx in
        let state : set_balance dx new_tx.account_id balance now db ≡ p.1 = cc in
        replace_same-opening i old_tx new_tx a db has_id stored ea ((==_iff _ _).0 one) balance refl
          p.1 (sym state) j

    move_balance-opening :
        (i : ℕ) (old_tx new_tx : Transaction) (a : Account) (db : Db dx) (p : List Account × Db dx)
        → old_tx.id ≡ some i
        → dx.transactions.get i db.transactions ≡ some old_tx
        → dx.accounts.get old_tx.account_id db.accounts ≡ some a
        → (old_tx.account_id == new_tx.account_id) ≡ false
        → move_balance dx faults now a old_tx new_tx db ≡ ok p
        → (j : ℕ)
        → opening dx j (put_transaction dx (updated dx faults now old_tx new_tx p.1) p.1)
          ≡ opening dx j db
    unfolding move_balance
    move_balance-opening i old_tx new_tx a db p has_id stored ea ne h j =
        let old_balance = a.balance -ℤ get_balance_delta a old_tx in
        let n = new_tx.account_id in
        let db1 = set_balance dx old_tx.account_id old_balance now db in
        bind_ok (load_account dx n db1) _ h λ b loaded h1.
          let new_balance = b.balance +ℤ get_balance_delta b new_tx in
          let state : set_balance dx n new_balance now db1 ≡ p.1 = cc in
          replace_moved-opening i old_tx new_tx a b db has_id stored ea
            (==_sym_false old_tx.account_id n ne) old_balance new_balance refl refl db1 p.1 refl
            (load_account-ok dx n db1 loaded).0 (sym state) j

    replace_body-opening :
        (i : ℕ) (old_tx new_tx : Transaction) (db : Db dx) (ps : List Push) (db' : Db dx)
        → old_tx.id ≡ some i
        → dx.transactions.get i db.transactions ≡ some old_tx
        → replace_body dx faults now old_tx new_tx db ≡ ok (ps, db')
        → (j : ℕ) → opening dx j db' ≡ opening dx j db
    unfolding replace_body
    replace_body-opening i old_tx new_tx db ps db' has_id stored h j =
        bind_ok (load_account dx old_tx.account_id db) _ h λ a loaded h1.
          let ea = (load_account-ok dx old_tx.account_id db loaded).0 in
          bind_ok
            (if old_tx.account_id == new_tx.account_id
              then keep_account dx faults now a old_tx new_tx db
              else move_balance dx faults now a old_tx new_tx db)
            _ h1
            λ p balances h2.
              let done : put_transaction dx (updated dx faults now old_tx new_tx p.1) p.1 ≡ db' =
                cc in
              rw (← done) elim (Bool-cases (old_tx.account_id == new_tx.account_id)) [
                | inl one ↦
                    keep_account-opening i old_tx new_tx a db p has_id stored ea one
                      (rw one at balances) j
                | inr other ↦
                    move_balance-opening i old_tx new_tx a db p has_id stored ea other
                      (rw other at balances) j
              ]

    -- Replacing the transaction that is stored under its key by another, on the same account or on
    -- a different one, leaves the opening balance of every account as it was, whether the call
    -- succeeds or fails.
    pub replace_transaction-opening :
        (i : ℕ) (old_tx new_tx : Transaction) (db : Db dx)
        → old_tx.id ≡ some i
        → dx.transactions.get i db.transactions ≡ some old_tx
        → (j : ℕ)
        → opening dx j (replace_transaction dx faults now old_tx new_tx db).1 ≡ opening dx j db
    unfolding replace_transaction
    replace_transaction-opening i old_tx new_tx db has_id stored j =
        settle_keeps dx (λ db'. opening dx j db' ≡ opening dx j db) faults db
          (replace_body dx faults now old_tx new_tx db) refl
          (λ ps db' h. replace_body-opening i old_tx new_tx db ps db' has_id stored h j)
