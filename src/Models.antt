-- ===== src/Models.antt =====
-- The rows of src/db/models.ts. A missing or null field is `none`; money is an integer of minor
-- units; a timestamp, a date and an identifier are texts.
use expensesapp.Prelude.{ℕ, Bool, Option, some}
use expensesapp.Prelude.Int.{ℤ}
use expensesapp.Prelude.Text.{Text}
use expensesapp.Prelude.Fields.{Fields}
use expensesapp.Storage.Keyed.{HasId}

pub data AccountType : Type 0 where
  regular debt savings : AccountType

-- `number` fields that hold a rate are not computed with: they are kept as their decimal text.
pub record Account : Type 0 where
  pub id : Option ℕ
  pub name : Text
  pub type : AccountType
  pub color : Text
  pub icon : Text
  pub currency : Text
  pub description : Text
  pub balance : ℤ
  pub starting_balance : ℤ
  pub include_in_total : Bool
  pub is_trashed : Bool
  pub savings_goal : Option ℤ
  pub savings_interest_rate : Option Text
  pub debt_original_amount : Option ℤ
  pub mortgage_loan_amount : Option ℤ
  pub mortgage_start_date : Option Text
  pub mortgage_term_years : Option ℕ
  pub mortgage_interest_rate : Option Text
  pub auto_accrue_interest : Option Bool
  pub created_at : Text
  pub updated_at : Text

pub data CategoryType : Type 0 where
  expense income : CategoryType

pub record Category : Type 0 where
  pub id : Option ℕ
  pub name : Text
  pub type : CategoryType
  pub color : Text
  pub icon : Text
  pub display_order : ℤ
  pub is_trashed : Bool
  pub created_at : Text
  pub updated_at : Text

pub data TransactionType : Type 0 where
  expense income transfer : TransactionType

pub data TransferDirection : Type 0 where
  outward inward : TransferDirection

pub data Frequency : Type 0 where
  daily weekly monthly yearly : Frequency

pub record Transaction : Type 0 where
  pub id : Option ℕ
  pub type : TransactionType
  pub date : Text
  pub timestamp : Text
  pub display_order : ℤ
  pub account_id : ℕ
  pub category_id : Option ℕ
  pub currency : Text
  pub amount : ℤ
  pub amount_main_currency : ℤ
  pub exchange_rate : Text
  pub note : Text
  pub is_trashed : Option Bool
  pub transfer_group_id : Option Text
  pub transfer_direction : Option TransferDirection
  pub to_account_id : Option ℕ
  pub interest_amount : Option ℤ
  pub principal_amount : Option ℤ
  pub is_overpayment : Option Bool
  pub recurring_rule : Option (Frequency × Option Text)
  pub created_at : Text
  pub updated_at : Text

pub record Budget : Type 0 where
  pub id : Option ℕ
  pub category_id : Option ℕ
  pub account_id : Option ℕ
  pub month : Text
  pub planned_amount : ℤ
  pub created_at : Text
  pub updated_at : Text

-- The rates are kept as the decimal texts of the numbers.
pub record ExchangeRateCache : Type 0 where
  pub id : Option ℕ
  pub base_currency : Text
  pub date : Text
  pub rates : Fields Text
  pub fetched_at : Text

-- `backup_data` is the field `data`.
pub record Backup : Type 0 where
  pub id : Option ℕ
  pub created_at : Text
  pub backup_data : Text
  pub is_automatic : Bool

instance abbrev pub account_has_id : HasId Account
account_has_id = record { id = λ a. a.id; set_id = λ k a. record a { id = some k } }

instance abbrev pub transaction_has_id : HasId Transaction
transaction_has_id = record { id = λ t. t.id; set_id = λ k t. record t { id = some k } }

instance abbrev pub category_has_id : HasId Category
category_has_id = record { id = λ c. c.id; set_id = λ k c. record c { id = some k } }

instance abbrev pub budget_has_id : HasId Budget
budget_has_id = record { id = λ b. b.id; set_id = λ k b. record b { id = some k } }

instance abbrev pub backup_has_id : HasId Backup
backup_has_id = record { id = λ b. b.id; set_id = λ k b. record b { id = some k } }

instance abbrev pub rate_has_id : HasId ExchangeRateCache
rate_has_id = record { id = λ r. r.id; set_id = λ k r. record r { id = some k } }
