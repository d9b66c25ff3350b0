-- ===== src/Ledger/Single/Adjusting.antt =====
-- `adjustBalance` of src/services/balance.service.ts is the one write that moves an opening balance.
use mathlib.Core.Option
use expensesapp.Prelude.{ℕ, ◌≡◌, refl, ap, ◌∙◌, false, some, none, List, ◌==◌, ==_iff}
use expensesapp.Prelude.Int.{ℤ, ◌+ℤ◌, ◌-ℤ◌, int_laws}
use expensesapp.Prelude.Text.{Text}
use expensesapp.Models.{Account}
use expensesapp.Ledger.Database.{
  Faults, Dexie, Db, Push, ok, load_account, with_balance, set_balance,
}
use expensesapp.Ledger.Single.{adjust_body, adjust_balance}
use expensesapp.Ledger.Opening.{
  bind_ok, load_account-ok, settle_keeps, effects, opening, opening_ne, get-set_balance,
  effects-set_balance,
}

module _ (dx : Dexie) (faults : Faults dx) (now : Text) where
  adjust_balance-state :
      (k : ℕ) (balance : ℤ) (a : Account) (db : Db dx)
      → dx.accounts.get k db.accounts ≡ some a
      → a.is_trashed ≡ false
      → ((d : Db dx) → faults.write d ≡ none)
      → (adjust_balance dx faults now k balance db).1 ≡ set_balance dx k balance now db
  unfolding adjust_balance adjust_body load_account
  adjust_balance-state k balance a db here live works =
      rw (here, live, works (set_balance dx k balance now db)) refl

  moved_by : (x y e : ℤ) → y -ℤ e ≡ (x -ℤ e) +ℤ (y -ℤ x)
  moved_by x y e = omega int_laws

  opening-set_balance :
      (k : ℕ) (balance : ℤ) (a : Account) (db : Db dx)
      → dx.accounts.get k db.accounts ≡ some a
      → opening dx k (set_balance dx k balance now db)
        ≡ Option.map (λ o. o +ℤ (balance -ℤ a.balance)) (opening dx k db)
  unfolding opening
  opening-set_balance k balance a db here =
      rw
        (
          get-set_balance dx k k balance now a db here,
          here,
          (==_iff k k).1 refl,
          effects-set_balance dx k k a.type balance now db,
        )
        (ap some (moved_by a.balance balance (effects dx k a.type db)))

  opening_other-set_balance :
      (j k : ℕ) (balance : ℤ) (a : Account) (db : Db dx)
      → dx.accounts.get k db.accounts ≡ some a
      → (j == k) ≡ false
      → opening dx j (set_balance dx k balance now db) ≡ opening dx j db
  opening_other-set_balance j k balance a db here other =
      opening_ne dx j db (set_balance dx k balance now db)
        (get-set_balance dx j k balance now a db here ∙ rw other refl)
        (λ t. effects-set_balance dx j k t balance now db)

  adjust_body-other :
      (j k : ℕ) (balance : ℤ) (db : Db dx) (ps : List Push) (db' : Db dx)
      → (j == k) ≡ false
      → adjust_body dx faults now k balance db ≡ ok (ps, db')
      → opening dx j db' ≡ opening dx j db
  unfolding adjust_body
  adjust_body-other j k balance db ps db' other h =
      bind_ok (load_account dx k db) _ h λ a loaded h1.
        let same : set_balance dx k balance now db ≡ db' = cc in
        rw (← same)
          (opening_other-set_balance j k balance a db (load_account-ok dx k db loaded).0 other)

  pub adjust_balance-other :
      (j k : ℕ) (balance : ℤ) (db : Db dx)
      → (j == k) ≡ false
      → opening dx j (adjust_balance dx faults now k balance db).1 ≡ opening dx j db
  unfolding adjust_balance
  adjust_balance-other j k balance db other =
      settle_keeps dx (λ db'. opening dx j db' ≡ opening dx j db) faults db
        (adjust_body dx faults now k balance db) refl
        (λ ps db' h. adjust_body-other j k balance db ps db' other h)

  -- Adjusting the balance of an account that is there and not archived, where Dexie fails on no
  -- write, gives the account that balance and moves its opening balance by the difference from the
  -- old one; the opening balance of every other account stays.
  pub adjust_balance-opening :
      (k : ℕ) (balance : ℤ) (a : Account) (db : Db dx)
      → dx.accounts.get k db.accounts ≡ some a
      → a.is_trashed ≡ false
      → ((d : Db dx) → faults.write d ≡ none)
      → (dx.accounts.get k (adjust_balance dx faults now k balance db).1.accounts
          ≡ some (with_balance balance now a))
        × (opening dx k (adjust_balance dx faults now k balance db).1
            ≡ Option.map (λ o. o +ℤ (balance -ℤ a.balance)) (opening dx k db))
        × ((j : ℕ)
            → (j == k) ≡ false
            → opening dx j (adjust_balance dx faults now k balance db).1 ≡ opening dx j db)
  adjust_balance-opening k balance a db here live works =
      rw (adjust_balance-state k balance a db here live works) (
        get-set_balance dx k k balance now a db here ∙ rw ((==_iff k k).1 refl) refl,
        opening-set_balance k balance a db here,
        λ j other. opening_other-set_balance j k balance a db here other,
      )
