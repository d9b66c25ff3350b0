-- ===== src/Reporting/Sums.antt =====
-- The totals of src/utils/transaction-utils.ts as sums.
use expensesapp.Prelude.{
  ◌≡◌, refl, sym, ap, ℕ, Bool, Option, none, some, ◌∙◌, true, false, List, [], ◌∷◌, filter,
  if◌then◌else◌, Bool-cases, inl, inr,
}
use expensesapp.Prelude.Int.{ℤ, pos, ◌+ℤ◌, int_laws}
use expensesapp.Models.{
  Transaction, TransactionType, expense, income, transfer, TransferDirection, inward, outward,
}
use expensesapp.Reporting.{
  DayTotals, add_to_totals, get_day_totals, is_expense_for_reporting, is_debt_payment, is_income,
  sum_totals,
}

-- The amounts in the main currency, added up.
abbrev pub sum_amounts : List Transaction → ℤ
sum_amounts [] = pos 0
sum_amounts (t ∷ txs) = t.amount_main_currency +ℤ sum_amounts txs

income-is_expense : (t : Transaction) → is_income t.type ≡ true → is_expense_for_reporting t ≡ false
unfolding is_expense_for_reporting is_debt_payment
income-is_expense t h = of_type t.type h
  where
    of_type :
        (u : TransactionType)
        → is_income u ≡ true
        → is_expense_for_reporting (record t { type = u }) ≡ false
    of_type expense h = cc
    of_type income h = refl
    of_type transfer h = cc

add_assoc_ℤ : (x y z : ℤ) → x +ℤ y +ℤ z ≡ x +ℤ (y +ℤ z)
add_assoc_ℤ x y z = omega int_laws

zero_add_ℤ : (x : ℤ) → pos 0 +ℤ x ≡ x
zero_add_ℤ x = omega int_laws

add_zero_ℤ : (x : ℤ) → x +ℤ pos 0 ≡ x
add_zero_ℤ x = omega int_laws

add_to_totals-income :
    (t : Transaction) (totals : DayTotals)
    → is_income t.type ≡ true
    → add_to_totals t totals ≡ record totals { income = totals.income +ℤ t.amount_main_currency }
unfolding add_to_totals
add_to_totals-income t totals h = rw h refl

add_to_totals-other :
    (t : Transaction) (totals : DayTotals)
    → is_income t.type ≡ false
    → add_to_totals t totals ≡ (
        if is_expense_for_reporting t
        then record totals { expense = totals.expense +ℤ t.amount_main_currency }
        else totals)
unfolding add_to_totals
add_to_totals-other t totals h = rw h refl

-- The totals that a list adds up to from others.
AreSums : List Transaction → DayTotals → DayTotals → Type 0
AreSums txs totals sums =
    (sums.income ≡ totals.income +ℤ sum_amounts (filter (λ t. is_income t.type) txs))
    × (sums.expense ≡ totals.expense +ℤ sum_amounts (filter is_expense_for_reporting txs))

next-AreSums :
    (t : Transaction) (txs : List Transaction) (totals : DayTotals)
    → ((d : DayTotals) → AreSums txs d (sum_totals txs d))
    → AreSums (t ∷ txs) totals (sum_totals txs (add_to_totals t totals))
unfolding AreSums
next-AreSums t txs totals again = elim (Bool-cases (is_income t.type)) [
  | inl e ↦
      let rest = again (record totals { income = totals.income +ℤ t.amount_main_currency }) in
      rw (add_to_totals-income t totals e, e, income-is_expense t e)
        (rest.0 ∙ add_assoc_ℤ totals.income t.amount_main_currency _, rest.1)
  | inr e ↦ elim (Bool-cases (is_expense_for_reporting t)) [
    | inl f ↦
        let rest = again (record totals { expense = totals.expense +ℤ t.amount_main_currency }) in
        rw (add_to_totals-other t totals e, e, f)
          (rest.0, rest.1 ∙ add_assoc_ℤ totals.expense t.amount_main_currency _)
    | inr f ↦ rw (add_to_totals-other t totals e, e, f) (again totals)
  ]
]

sum_totals-AreSums :
    (txs : List Transaction) (totals : DayTotals) → AreSums txs totals (sum_totals txs totals)
unfolding sum_totals AreSums
sum_totals-AreSums [] totals = (sym (add_zero_ℤ totals.income), sym (add_zero_ℤ totals.expense))
sum_totals-AreSums (t ∷ txs) totals = next-AreSums t txs totals (sum_totals-AreSums txs)

-- What a row adds to the incomes and to the expenses of a day, by its type, the direction of a
-- transfer and the debt that it pays.
abbrev pub income_share : TransactionType → ℤ → ℤ
income_share income amount = amount
income_share _ amount = pos 0

abbrev pub expense_share : TransactionType → Option TransferDirection → Option ℕ → ℤ → ℤ
expense_share expense direction to_account amount = amount
expense_share transfer (some outward) (some k) amount = amount
expense_share _ direction to_account amount = pos 0

abbrev pub incomes : List Transaction → ℤ
incomes [] = pos 0
incomes (t ∷ txs) = income_share t.type t.amount_main_currency +ℤ incomes txs

abbrev pub expenses : List Transaction → ℤ
expenses [] = pos 0
expenses (t ∷ txs) =
    expense_share t.type t.transfer_direction t.to_account_id t.amount_main_currency +ℤ expenses txs

sum_amounts-incomes :
    (txs : List Transaction) → sum_amounts (filter (λ t. is_income t.type) txs) ≡ incomes txs
sum_amounts-incomes [] = refl
sum_amounts-incomes (t ∷ txs) = of_type t.type (sum_amounts-incomes txs)
  where
    of_type :
        (u : TransactionType)
        → sum_amounts (filter (λ t. is_income t.type) txs) ≡ incomes txs
        → sum_amounts (
            if is_income u
            then t ∷ filter (λ t. is_income t.type) txs
            else filter (λ t. is_income t.type) txs)
          ≡ income_share u t.amount_main_currency +ℤ incomes txs
    of_type income h = ap (λ (x : ℤ). t.amount_main_currency +ℤ x) h
    of_type expense h = h ∙ sym (zero_add_ℤ (incomes txs))
    of_type transfer h = h ∙ sym (zero_add_ℤ (incomes txs))

-- The rows that count as expenses, read off the three fields.
is_counted : TransactionType → Option TransferDirection → Option ℕ → Bool
is_counted expense direction to_account = true
is_counted transfer (some outward) (some k) = true
is_counted _ direction to_account = false

is_expense_for_reporting-eq :
    (t : Transaction)
    → is_expense_for_reporting t ≡ is_counted t.type t.transfer_direction t.to_account_id
unfolding is_expense_for_reporting is_debt_payment is_counted
is_expense_for_reporting-eq t = of_fields t.type t.transfer_direction t.to_account_id
  where
    of_fields :
        (u : TransactionType) (d : Option TransferDirection) (k : Option ℕ)
        → is_expense_for_reporting
            (record t { type = u; transfer_direction = d; to_account_id = k })
          ≡ is_counted u d k
    of_fields expense d k = refl
    of_fields income d k = refl
    of_fields transfer none k = refl
    of_fields transfer (some inward) k = refl
    of_fields transfer (some outward) none = refl
    of_fields transfer (some outward) (some k) = refl

counted_share :
    (u : TransactionType) (d : Option TransferDirection) (k : Option ℕ) (amount rest : ℤ)
    → (if is_counted u d k then amount +ℤ rest else rest) ≡ expense_share u d k amount +ℤ rest
unfolding is_counted
counted_share expense d k amount rest = refl
counted_share income d k amount rest = sym (zero_add_ℤ rest)
counted_share transfer none k amount rest = sym (zero_add_ℤ rest)
counted_share transfer (some inward) k amount rest = sym (zero_add_ℤ rest)
counted_share transfer (some outward) none amount rest = sym (zero_add_ℤ rest)
counted_share transfer (some outward) (some k) amount rest = refl

sum_amounts-expenses :
    (txs : List Transaction) → sum_amounts (filter is_expense_for_reporting txs) ≡ expenses txs
sum_amounts-expenses [] = refl
sum_amounts-expenses (t ∷ txs) =
    sum_amounts-if (is_expense_for_reporting t) t (filter is_expense_for_reporting txs)
    ∙ rw (is_expense_for_reporting-eq t, sum_amounts-expenses txs)
        (counted_share t.type t.transfer_direction t.to_account_id t.amount_main_currency
          (expenses txs))
  where
    sum_amounts-if :
        (b : Bool) (u : Transaction) (us : List Transaction)
        → sum_amounts (if b then u ∷ us else us)
          ≡ (if b then u.amount_main_currency +ℤ sum_amounts us else sum_amounts us)
    sum_amounts-if true u us = refl
    sum_amounts-if false u us = refl

-- The totals of a day are the sum of the amounts of its rows of type income, and that of its rows
-- of type expense and of its outward transfers that pay a debt; other rows add nothing.
pub get_day_totals-sums :
    (txs : List Transaction)
    → ((get_day_totals txs).income ≡ incomes txs) × ((get_day_totals txs).expense ≡ expenses txs)
unfolding get_day_totals AreSums
get_day_totals-sums txs =
    let sums = sum_totals-AreSums txs (record { income = pos 0; expense = pos 0 }) in
    (
      sums.0 ∙ zero_add_ℤ _ ∙ sum_amounts-incomes txs,
      sums.1 ∙ zero_add_ℤ _ ∙ sum_amounts-expenses txs,
    )
