-- ===== src/Examples/Transfers.antt =====
-- The theorems on stored transfers, on books that hold one.
use expensesapp.Prelude.{◌≡◌, some, none, arith, [], ◌∷◌}
use expensesapp.Prelude.Int.{pos}
use expensesapp.Prelude.Text.{text}
use expensesapp.Models.{Transaction, TransactionType, TransferDirection}
use expensesapp.Storage.Keyed.{lookup}
use expensesapp.Ledger.Database.{Db}
use expensesapp.Ledger.Opening.{opening}
use expensesapp.Ledger.Transfer.{revert_transfer, replace_transfer}
use expensesapp.Ledger.Transfer.Reverting.{HoldsKeys, revert_transfer-opening}
use expensesapp.Ledger.Transfer.Replacing.{replace_transfer-opening}
use expensesapp.Examples.Tables.{dexie}
use expensesapp.Examples.Books.{books, no_failure, today, lunch, lent, borrowed, transaction_of}

-- The transfer `g` moved 10 from account 1 to account 2.
abbrev lending : Db dexie
lending = record books {
  transactions = (
    (1, lunch) ∷ (2, record lent { id = some 2 }) ∷ (3, record borrowed { id = some 3 }) ∷ [],
    (omega arith, (omega arith, (omega arith, tt))),
  );
}

lending-HoldsKeys : HoldsKeys dexie lending
unfolding HoldsKeys lookup
lending-HoldsKeys k r h = ground (arith, h)

revert_transfer-opening_example :
    opening dexie 2 (revert_transfer dexie no_failure today (text "g") lending).1
    ≡ opening dexie 2 lending
revert_transfer-opening_example =
    revert_transfer-opening dexie no_failure today (text "g") lending lending-HoldsKeys 2

-- The new legs are those of a larger transfer the other way.
abbrev lent_back : Transaction
lent_back =
    transaction_of none TransactionType.transfer 2 (pos 30) (some (text "g"))
      (some TransferDirection.outward)

abbrev received : Transaction
received =
    transaction_of none TransactionType.transfer 1 (pos 30) (some (text "g"))
      (some TransferDirection.inward)

replace_transfer-opening_example :
    opening dexie 1
      (replace_transfer dexie no_failure today (text "g") lent_back received lending).1
    ≡ opening dexie 1 lending
replace_transfer-opening_example =
    replace_transfer-opening dexie no_failure today (text "g") lent_back received lending
      lending-HoldsKeys 1
