-- ===== src/Validation.antt =====
-- src/utils/validation.ts: what a row must satisfy. That each field has its type is the structural
-- part of the schema package's check, which has been passed where there is a typed row; `is_uuid`
-- and the two tests on decimal numbers are that package's.
use expensesapp.Prelude.{
  ℕ, zero, suc, Bool, true, false, not, ◌&&◌, ◌||◌, ◌==◌, Option, none, some, [], ◌∷◌, length, leb,
  ltb, if◌then◌else◌, is_some,
}
use expensesapp.Prelude.Int.{ℤ, pos, negsuc}
use expensesapp.Prelude.Text.{Text, text}
use expensesapp.Models.{Account, Budget, Category, Transaction}

-- `MAX_AMOUNT` of src/services/math-parser.ts
abbrev pub max_amount : ℕ
max_amount = 99999999999

-- A regular expression of disjoint steps: what is left of the text after each.
abbrev pub Step : Type 0
Step = Text → Option Text

infixl 6 ◌then◌
abbrev pub ◌then◌ : Option Text → Step → Option Text
none then step = none
some rest then step = step rest

abbrev pub one_of : (ℕ → Bool) → Step
one_of p [] = none
one_of p (c ∷ s) = if p c then some s else none

abbrev pub literal : Text → Step
literal [] s = some s
literal (c ∷ l) s = one_of (λ d. d == c) s then literal l

abbrev pub repeated : ℕ → Step → Step
repeated zero step s = some s
repeated (suc n) step s = step s then repeated n step

-- The rest after the longest run.
abbrev pub skip : (ℕ → Bool) → Text → Text
skip p [] = []
skip p (c ∷ s) = if p c then skip p s else c ∷ s

abbrev pub some_of : (ℕ → Bool) → Step
some_of p s = one_of p s then λ rest. some (skip p rest)

abbrev pub is_end : Option Text → Bool
is_end (some []) = true
is_end rest = false

abbrev pub is_digit : ℕ → Bool
is_digit c = leb 48 c && leb c 57

abbrev pub digit_or_dot : ℕ → Bool
digit_or_dot c = is_digit c || c == 46

-- `\s`
abbrev pub is_space : ℕ → Bool
is_space c =
    leb 9 c && leb c 13
    || c == 32
    || c == 160
    || c == 5760
    || leb 8192 c && leb c 8202
    || c == 8232
    || c == 8233
    || c == 8239
    || c == 8287
    || c == 12288
    || c == 65279

-- `/^\d{4}-\d{2}-\d{2}$/`
unfoldable pub is_date : Text → Bool
is_date s = is_end (
    repeated 4 (one_of is_digit) s
    then literal (text "-")
    then repeated 2 (one_of is_digit)
    then literal (text "-")
    then repeated 2 (one_of is_digit))

-- `/^\d{4}-\d{2}$/`
unfoldable pub is_month : Text → Bool
is_month s =
    is_end
      (repeated 4 (one_of is_digit) s then literal (text "-") then repeated 2 (one_of is_digit))

-- `/^oklch\([\d.]+%\s+[\d.]+\s+[\d.]+\)$/`
unfoldable pub is_color : Text → Bool
is_color s = is_end (
    literal (text "oklch(") s
    then some_of digit_or_dot
    then literal (text "%")
    then some_of is_space
    then some_of digit_or_dot
    then some_of is_space
    then some_of digit_or_dot
    then literal (text ")"))

-- `.nullable().optional()`
abbrev pub if_some : {A : Type 0} → (A → Bool) → Option A → Bool
if_some p none = true
if_some p (some a) = p a

abbrev pub is_positive : ℤ → Bool
is_positive (pos n) = ltb 0 n
is_positive (negsuc n) = false

abbrev pub is_nonnegative : ℤ → Bool
is_nonnegative (pos n) = true
is_nonnegative (negsuc n) = false

abbrev pub at_most : ℕ → ℤ → Bool
at_most top (pos n) = leb n top
at_most top (negsuc n) = true

abbrev pub has_name : Text → Bool
has_name name = leb 1 (length name) && leb (length name) 64

-- The tests of the schema package: `uuid()`, `positive()`, and `min(0).max(1)` on decimal texts.
pub record Formats : Type 0 where
  pub is_uuid : Text → Bool
  pub is_positive_number : Text → Bool
  pub is_unit_number : Text → Bool

module _ (formats : Formats) where
  unfoldable pub account_schema : Account → Bool
  account_schema a =
      has_name a.name
      && is_color a.color
      && length a.currency == 3
      && leb (length a.description) 255
      && if_some is_positive a.savings_goal
      && if_some formats.is_unit_number a.savings_interest_rate
      && if_some is_positive a.debt_original_amount
      && if_some is_positive a.mortgage_loan_amount
      && if_some is_date a.mortgage_start_date
      && if_some (λ (n : ℕ). ltb 0 n) a.mortgage_term_years
      && if_some formats.is_unit_number a.mortgage_interest_rate

  unfoldable pub transaction_schema : Transaction → Bool
  transaction_schema t =
      is_date t.date
      && ltb 0 t.account_id
      && if_some (λ (n : ℕ). ltb 0 n) t.category_id
      && length t.currency == 3
      && is_nonnegative t.amount
      && at_most max_amount t.amount
      && is_nonnegative t.amount_main_currency
      && formats.is_positive_number t.exchange_rate
      && leb (length t.note) 255
      && if_some formats.is_uuid t.transfer_group_id
      && if_some (λ (n : ℕ). ltb 0 n) t.to_account_id
      && if_some is_nonnegative t.interest_amount
      && if_some is_nonnegative t.principal_amount

unfoldable pub category_schema : Category → Bool
category_schema c = has_name c.name && is_color c.color

-- Exactly one of the category and the account is the budget's target.
unfoldable pub budget_schema : Budget → Bool
budget_schema b =
    if_some (λ (n : ℕ). ltb 0 n) b.category_id
    && if_some (λ (n : ℕ). ltb 0 n) b.account_id
    && is_month b.month
    && is_positive b.planned_amount
    && (if is_some b.category_id then not (is_some b.account_id) else is_some b.account_id)
