-- ===== src/Reporting.antt =====
-- src/utils/transaction-utils.ts: what counts as an expense, and the totals of a day.
pub mod Sums
use expensesapp.Prelude.{Bool, true, false, ◌||◌, ◌&&◌, List, [], ◌∷◌, is_some, if◌then◌else◌}
use expensesapp.Prelude.Int.{ℤ, pos, ◌+ℤ◌}
use expensesapp.Models.{Transaction, TransactionType, expense, income, transfer}
use expensesapp.Ledger.Transfer.{is_out}

abbrev is_transfer : TransactionType → Bool
is_transfer transfer = true
is_transfer t = false

abbrev is_expense : TransactionType → Bool
is_expense expense = true
is_expense t = false

abbrev pub is_income : TransactionType → Bool
is_income income = true
is_income t = false

unfoldable pub is_debt_payment : Transaction → Bool
is_debt_payment tx = is_transfer tx.type && is_out tx.transfer_direction && is_some tx.to_account_id

unfoldable pub is_expense_for_reporting : Transaction → Bool
is_expense_for_reporting tx = is_expense tx.type || is_debt_payment tx

pub record DayTotals : Type 0 where
  pub income : ℤ
  pub expense : ℤ

unfoldable pub add_to_totals : Transaction → DayTotals → DayTotals
add_to_totals t totals =
    if is_income t.type
    then record totals { income = totals.income +ℤ t.amount_main_currency }
    else if is_expense_for_reporting t
    then record totals { expense = totals.expense +ℤ t.amount_main_currency }
    else totals

unfoldable pub sum_totals : List Transaction → DayTotals → DayTotals
sum_totals [] totals = totals
sum_totals (t ∷ txs) totals = sum_totals txs (add_to_totals t totals)

unfoldable pub get_day_totals : List Transaction → DayTotals
get_day_totals txs = sum_totals txs (record { income = pos 0; expense = pos 0 })
