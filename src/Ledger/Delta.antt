-- ===== src/Ledger/Delta.antt =====
-- `getBalanceDelta`: the signed effect of a transaction on the balance of its account.
use expensesapp.Prelude.{Option, some, get_or}
use expensesapp.Prelude.Int.{ℤ, neg}
use expensesapp.Models.{
  AccountType, debt, Account, Transaction, TransactionType, TransferDirection, inward,
}

-- By the account's type, with the amounts of the transaction.
abbrev pub income_delta : AccountType → ℤ → ℤ
income_delta debt amount = neg amount
income_delta _ amount = amount

abbrev pub expense_delta : AccountType → ℤ → ℤ
expense_delta debt amount = amount
expense_delta _ amount = neg amount

abbrev pub transfer_in_delta : AccountType → ℤ → Option ℤ → ℤ
transfer_in_delta debt amount principal = neg (get_or principal amount)
transfer_in_delta _ amount principal = amount

abbrev pub transfer_delta : AccountType → Option TransferDirection → ℤ → Option ℤ → ℤ
transfer_delta t (some inward) amount principal = transfer_in_delta t amount principal
transfer_delta t _ amount principal = expense_delta t amount

abbrev pub delta_of : TransactionType → AccountType → Option TransferDirection → ℤ → Option ℤ → ℤ
delta_of TransactionType.income t direction amount principal = income_delta t amount
delta_of TransactionType.expense t direction amount principal = expense_delta t amount
delta_of TransactionType.transfer t direction amount principal =
    transfer_delta t direction amount principal

unfoldable pub get_balance_delta : Account → Transaction → ℤ
get_balance_delta account tx =
    delta_of tx.type account.type tx.transfer_direction tx.amount tx.principal_amount
