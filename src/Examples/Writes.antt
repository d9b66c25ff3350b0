-- ===== src/Examples/Writes.antt =====
-- The theorems on the ledger, on the books.
use mathlib.Core.Option
use expensesapp.Prelude.{◌≡◌, ◌≢◌, ◌⊎◌, Option, none, refl, List, ◌∷◌, some, [], ℕ, ◌==◌, false}
use expensesapp.Prelude.Int.{pos, ◌+ℤ◌, ◌-ℤ◌}
use expensesapp.Storage.Keyed.{lookup}
use expensesapp.Models.{AccountType}
use expensesapp.Ledger.Opening.{opening}
use expensesapp.Ledger.Database.{
  account_not_found, dom_quota_exceeded_error, Push, Error, load_account, Db, with_balance,
}
use expensesapp.Ledger.Single.{
  apply_transaction, revert_transaction, replace_transaction, adjust_balance,
}
use expensesapp.Ledger.Single.Opening.{apply_transaction-opening, revert_transaction-opening}
use expensesapp.Ledger.Single.Replacing.{replace_transaction-opening}
use expensesapp.Ledger.Transfer.{apply_transfer}
use expensesapp.Ledger.Transfer.Applying.{apply_transfer-opening}
use expensesapp.Ledger.Atomic.{run, apply, adjust, revert, run-failed, Write}
use expensesapp.Ledger.History.{
  adjusts, History, History-opening, IsApplicable, unwritten, then_write,
}
use expensesapp.Ledger.Single.Adjusting.{adjust_balance-opening}
use expensesapp.Examples.Tables.{dexie}
use expensesapp.Examples.Books.{account_of, books, no_failure, today, lunch, dinner, lent, borrowed}

apply_transaction-opening_example :
    opening dexie 2 (apply_transaction dexie no_failure today dinner books).1
    ≡ opening dexie 2 books
apply_transaction-opening_example = apply_transaction-opening dexie no_failure today dinner books 2

revert_transaction-opening_example :
    opening dexie 1 (revert_transaction dexie no_failure today lunch books).1
    ≡ opening dexie 1 books
unfolding lookup
revert_transaction-opening_example =
    revert_transaction-opening dexie no_failure today 1 lunch books refl refl 1

replace_transaction-opening_example :
    opening dexie 2 (replace_transaction dexie no_failure today lunch dinner books).1
    ≡ opening dexie 2 books
unfolding lookup
replace_transaction-opening_example =
    replace_transaction-opening dexie no_failure today 1 lunch dinner books refl refl 2

apply_transfer-opening_example :
    opening dexie 1 (apply_transfer dexie no_failure today lent borrowed books).1
    ≡ opening dexie 1 books
apply_transfer-opening_example = apply_transfer-opening dexie no_failure today lent borrowed books 1

abbrev no_error : Option Error
no_error = none

-- A write to an account that is not there.
run-failed_example :
    (((run dexie no_failure today (apply (record dinner { account_id = 9 })) books).1 ≡ books)
      × (account_not_found 9 ≢ dom_quota_exceeded_error))
    ⊎ ((no_error ≡ none) × (p : Push) × (no_error ≡ some (account_not_found 9)))
unfolding apply_transaction load_account lookup
run-failed_example =
    run-failed dexie no_failure today (apply (record dinner { account_id = 9 })) books
      (account_not_found 9) refl

-- Account 2 is adjusted from 500 to 450, and its opening balance moves by 50.
adjust_balance-opening_example :
    (dexie.accounts.get 2 (adjust_balance dexie no_failure today 2 (pos 450) books).1.accounts
      ≡ some (with_balance (pos 450) today (account_of 2 AccountType.savings (pos 500))))
    × (opening dexie 2 (adjust_balance dexie no_failure today 2 (pos 450) books).1
        ≡ Option.map (λ o. o +ℤ (pos 450 -ℤ pos 500)) (opening dexie 2 books))
    × ((j : ℕ)
        → (j == 2) ≡ false
        → opening dexie j (adjust_balance dexie no_failure today 2 (pos 450) books).1
          ≡ opening dexie j books)
unfolding lookup
adjust_balance-opening_example =
    adjust_balance-opening dexie no_failure today 2 (pos 450)
      (account_of 2 AccountType.savings (pos 500)) books refl refl (λ d. refl)

-- Lunch is deleted, then account 2 is adjusted.
abbrev later : Db dexie
later =
    (run dexie no_failure today (adjust 2 (pos 450))
      (run dexie no_failure today (revert lunch) books).1).1

abbrev writes : List Write
writes = adjust 2 (pos 450) ∷ revert lunch ∷ []

books-History : History dexie books writes later
unfolding IsApplicable lookup
books-History = then_write no_failure today (adjust 2 (pos 450)) tt (
    then_write no_failure today (revert lunch) (record { key = 1; has_key = refl; stored = refl })
      (unwritten books))

History-opening_example : opening dexie 1 later ≡ opening dexie 1 books
unfolding adjusts
History-opening_example = History-opening dexie 1 books-History refl
