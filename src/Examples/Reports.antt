-- ===== src/Examples/Reports.antt =====
-- The theorems on reports and on the integrity check, on the books.
use expensesapp.Prelude.{◌≡◌, ◌↔◌, ◌⊎◌, true, false, [], ◌∷◌}
use expensesapp.Reporting.{get_day_totals}
use expensesapp.Reporting.Sums.{get_day_totals-sums, incomes, expenses}
use expensesapp.Integrity.{check_database_integrity}
use expensesapp.Integrity.Consistent.{IsConsistent, check_database_integrity-IsConsistent}
use expensesapp.Examples.Tables.{dexie}
use expensesapp.Examples.Books.{books, lent, lunch}

get_day_totals-sums_example :
    ((get_day_totals (lunch ∷ lent ∷ [])).income ≡ incomes (lunch ∷ lent ∷ []))
    × ((get_day_totals (lunch ∷ lent ∷ [])).expense ≡ expenses (lunch ∷ lent ∷ []))
get_day_totals-sums_example = get_day_totals-sums (lunch ∷ lent ∷ [])

check_database_integrity-IsConsistent_example :
    ((check_database_integrity dexie true true books).ok ≡ true)
    ↔ ((true ≡ true) × ((true ≡ false) ⊎ IsConsistent dexie books))
check_database_integrity-IsConsistent_example =
    check_database_integrity-IsConsistent dexie true true books
