-- ===== src/Backup/Restore.antt =====
-- restoreFromBackup, importFromFile and _restoreData of src/services/backup.service.ts, with the row
-- schemas of src/utils/backup-validation.ts.
use expensesapp.Prelude.{
  ℕ, suc, Bool, not, ◌&&◌, ltb, leb, Option, none, some, List, [], ◌∷◌, length, if◌then◌else◌,
  is_some,
}
use expensesapp.Prelude.Text.{Text, text}
use expensesapp.Models.{
  Account, Backup, Budget, Category, ExchangeRateCache, Transaction, account_has_id, backup_has_id,
  budget_has_id, category_has_id, rate_has_id, transaction_has_id,
}
use expensesapp.Storage.Bulk.{bulk_add}
use expensesapp.Storage.{Store}
use expensesapp.Sync.Outbox.Conflict.{and_then}
use expensesapp.Sync.Tables.{SyncDexie, SyncDb}
use expensesapp.Validation.{if_some, is_nonnegative}

-- Parsed JSON, and the structural part of the schema package: an object as a row, without a value
-- where a field that the schema names has another type. A setting is its key with the JSON text of
-- its value.
pub record Json (V : Type 0) : Type 0 where
  pub parse : Text → Option V
  pub is_object : V → Bool
  pub field : Text → V → Option V
  pub is_number : V → Bool
  pub exceeds : V → ℕ → Bool
  pub array_of : V → Option (List V)
  pub is_uuid : Text → Bool
  pub is_nonnegative_number : Text → Bool
  pub account_of : V → Option Account
  pub category_of : V → Option Category
  pub transaction_of : V → Option Transaction
  pub budget_of : V → Option Budget
  pub rate_of : V → Option ExchangeRateCache
  pub setting_of : V → Option (Text × Text)

pub record RestoreDexie : Type 1 where
  pub sync : SyncDexie
  pub rates : Store ExchangeRateCache

pub record RestoreDb (rx : RestoreDexie) : Type 0 where
  pub db : SyncDb rx.sync
  pub rates : rx.rates.Table

-- The errors, in place of their messages.
pub data RestoreError : Type 0 where
  backup_not_found : ℕ → RestoreError
  file_too_large not_json invalid_structure newer_version : RestoreError
  invalid_row : Text → ℕ → RestoreError
  write_failed : RestoreError

abbrev pub supported_backup_version : ℕ
supported_backup_version = 1

abbrev pub max_size : ℕ
max_size = 10485760

-- The rows of the tables of a backup.
pub record BackupTables (V : Type 0) : Type 0 where
  pub accounts : List V
  pub categories : List V
  pub transactions : List V
  pub budgets : List V
  pub exchange_rates : List V
  pub settings : List V

pub record ValidTables : Type 0 where
  pub accounts : List Account
  pub categories : List Category
  pub transactions : List Transaction
  pub budgets : List Budget
  pub exchange_rates : List ExchangeRateCache
  pub settings : List (Text × Text)

abbrev pub positive_id : Option ℕ → Bool
positive_id id = if_some (λ (n : ℕ). ltb 0 n) id

unfoldable pub backup_account_schema : Account → Bool
backup_account_schema a =
    positive_id a.id
    && leb (length a.description) 255
    && if_some is_nonnegative a.savings_goal
    && if_some is_nonnegative a.debt_original_amount
    && if_some is_nonnegative a.mortgage_loan_amount

unfoldable pub backup_category_schema : Category → Bool
backup_category_schema c = positive_id c.id

unfoldable pub backup_transaction_schema :
    (is_uuid is_nonnegative_number : Text → Bool) → Transaction → Bool
backup_transaction_schema is_uuid is_nonnegative_number t =
    positive_id t.id
    && ltb 0 t.account_id
    && positive_id t.category_id
    && is_nonnegative t.amount
    && is_nonnegative t.amount_main_currency
    && is_nonnegative_number t.exchange_rate
    && if_some is_uuid t.transfer_group_id
    && positive_id t.to_account_id
    && if_some is_nonnegative t.interest_amount
    && if_some is_nonnegative t.principal_amount

unfoldable pub backup_budget_schema : Budget → Bool
backup_budget_schema b =
    positive_id b.id
    && positive_id b.category_id
    && positive_id b.account_id
    && is_nonnegative b.planned_amount
    && (if is_some b.category_id then not (is_some b.account_id) else is_some b.account_id)

unfoldable pub backup_rate_schema : ExchangeRateCache → Bool
backup_rate_schema r = positive_id r.id

unfoldable pub backup_setting_schema : Text × Text → Bool
backup_setting_schema (key, value) = leb 1 (length key)

-- An exception or a value.
pub data Checked {ℓ} (A : Type ℓ) : Type ℓ where
  fails : RestoreError → Checked A
  passes : A → Checked A

module _ {ℓ κ} {A : Type ℓ} {B : Type κ} where
  infixl 5 ◌>>=◌
  abbrev pub ◌>>=◌ : Checked A → (A → Checked B) → Checked B
  fails e >>= rest = fails e
  passes a >>= rest = rest a

abbrev pub required : {A : Type 0} → RestoreError → Option A → Checked A
required e none = fails e
required e (some a) = passes a

module _ {V : Type 0} (js : Json V) where
  abbrev pub table_in : V → Text → Option (List V)
  table_in tables name = and_then (js.field name tables) js.array_of

  abbrev pub all_tables :
      (accounts categories transactions budgets exchange_rates settings : Option (List V))
      → Option (BackupTables V)
  all_tables (some a) (some c) (some t) (some b) (some r) (some s) = some (record {
    accounts = a;
    categories = c;
    transactions = t;
    budgets = b;
    exchange_rates = r;
    settings = s;
  })
  all_tables a c t b r s = none

  abbrev pub tables_in : V → Option (BackupTables V)
  tables_in tables =
      if js.is_object tables
      then all_tables (table_in tables (text "accounts")) (table_in tables (text "categories"))
          (table_in tables (text "transactions")) (table_in tables (text "budgets"))
          (table_in tables (text "exchangeRates")) (table_in tables (text "settings"))
      else none

  abbrev pub numbered : V → Option V
  numbered v = if js.is_number v then some v else none

  -- `validateBackupStructure`: the version and the tables of an object that has both.
  unfoldable pub validate_backup_structure : V → Option (V × BackupTables V)
  validate_backup_structure p =
      if js.is_object p
      then and_then (and_then (js.field (text "version") p) numbered) (λ version.
        and_then (and_then (js.field (text "tables") p) tables_in)
          (λ tables. some (version, tables)))
      else none

  unfoldable pub assert_supported_version : V → Checked (Unit {0})
  assert_supported_version version =
      if js.exceeds version supported_backup_version then fails newer_version else passes tt

  abbrev pub checked_row : {R : Type 0} → (R → Bool) → Option R → Option R
  checked_row schema none = none
  checked_row schema (some r) = if schema r then some r else none

  -- `validateTable` from the row `i` on.
  unfoldable pub validate_table :
      {R : Type 0} → (V → Option R) → (R → Bool) → Text → ℕ → List V → Checked (List R)
  validate_table read schema name i [] = passes []
  validate_table read schema name i (v ∷ vs) = do
    r ← required (invalid_row name i) (checked_row schema (read v))
    rs ← validate_table read schema name (suc i) vs
    passes (r ∷ rs)

  unfoldable pub validate_tables : BackupTables V → Checked ValidTables
  validate_tables t = do
    accounts ← validate_table js.account_of backup_account_schema (text "accounts") 0 t.accounts
    categories ←
        validate_table js.category_of backup_category_schema (text "categories") 0 t.categories
    transactions ←
        validate_table js.transaction_of
          (backup_transaction_schema js.is_uuid js.is_nonnegative_number) (text "transactions") 0
          t.transactions
    budgets ← validate_table js.budget_of backup_budget_schema (text "budgets") 0 t.budgets
    rates ← validate_table js.rate_of backup_rate_schema (text "exchangeRates") 0 t.exchange_rates
    settings ← validate_table js.setting_of backup_setting_schema (text "settings") 0 t.settings
    passes (record {
      accounts = accounts;
      categories = categories;
      transactions = transactions;
      budgets = budgets;
      exchange_rates = rates;
      settings = settings;
    })

module _ (rx : RestoreDexie) where
  -- The nine tables that are cleared.
  unfoldable pub cleared : RestoreDb rx → RestoreDb rx
  cleared d = record {
    db = record {
      ledger = record {
        accounts = rx.sync.ledger.accounts.clear d.db.ledger.accounts;
        transactions = rx.sync.ledger.transactions.clear d.db.ledger.transactions;
      };
      categories = rx.sync.categories.clear d.db.categories;
      budgets = rx.sync.budgets.clear d.db.budgets;
      uploads = rx.sync.uploads.clear d.db.uploads;
      mappings = rx.sync.mappings.clear d.db.mappings;
      cursors = rx.sync.cursors.clear d.db.cursors;
      settings = rx.sync.settings.clear d.db.settings;
    };
    rates = rx.rates.clear d.rates;
  }

  -- `bulkPut(rows)` of the settings.
  unfoldable pub put_settings : List (Text × Text) → rx.sync.settings.Table → rx.sync.settings.Table
  put_settings [] t = t
  put_settings ((key, value) ∷ rows) t = put_settings rows (rx.sync.settings.put key value t)

  unfoldable pub fill : ValidTables → RestoreDb rx → Option (RestoreDb rx)
  fill v d = and_then (bulk_add rx.sync.ledger.accounts v.accounts d.db.ledger.accounts) λ accounts.
      and_then (bulk_add rx.sync.categories v.categories d.db.categories) λ categories.
        and_then (bulk_add rx.sync.ledger.transactions v.transactions d.db.ledger.transactions)
          λ transactions. and_then (bulk_add rx.sync.budgets v.budgets d.db.budgets) λ budgets.
            and_then (bulk_add rx.rates v.exchange_rates d.rates) λ rates. some (record d {
              db = record d.db {
                ledger = record { accounts = accounts; transactions = transactions };
                categories = categories;
                budgets = budgets;
                settings = put_settings v.settings d.db.settings;
              };
              rates = rates;
            })

  -- Whether the call throws, and the tables.
  abbrev pub Restoring : Type 0
  Restoring = Option RestoreError × RestoreDb rx

  abbrev pub written : RestoreDb rx → Option (RestoreDb rx) → Restoring
  written before none = (some write_failed, before)
  written before (some after) = (none, after)

  abbrev pub restore_checked : RestoreDb rx → Checked ValidTables → Restoring
  restore_checked d (fails e) = (some e, d)
  restore_checked d (passes v) = written d (fill v (cleared d))

  module _ {V : Type 0} (js : Json V) where
    -- `_restoreData`
    unfoldable pub restore_data : BackupTables V → RestoreDb rx → Restoring
    restore_data tables d = restore_checked d (validate_tables js tables)

    abbrev pub restore_supported : BackupTables V → RestoreDb rx → Checked (Unit {0}) → Restoring
    restore_supported tables d (fails e) = (some e, d)
    restore_supported tables d (passes u) = restore_data tables d

    abbrev pub restore_structured : RestoreDb rx → Option (V × BackupTables V) → Restoring
    restore_structured d none = (some invalid_structure, d)
    restore_structured d (some (version, tables)) =
        restore_supported tables d (assert_supported_version js version)

    abbrev pub restore_parsed : RestoreDb rx → Option V → Restoring
    restore_parsed d none = (some not_json, d)
    restore_parsed d (some p) = restore_structured d (validate_backup_structure js p)

    abbrev pub restore_record : ℕ → RestoreDb rx → Option Backup → Restoring
    restore_record k d none = (some (backup_not_found k), d)
    restore_record k d (some b) = restore_parsed d (js.parse b.backup_data)

    unfoldable pub restore_from_backup :
        (backups : Store Backup) → ℕ → backups.Table → RestoreDb rx → Restoring
    restore_from_backup backups k t d = restore_record k d (backups.get k t)

    -- The text of the file with its size in bytes.
    unfoldable pub import_from_file : (size : ℕ) → (contents : Text) → RestoreDb rx → Restoring
    import_from_file size contents d =
        if ltb max_size size then (some file_too_large, d) else restore_parsed d (js.parse contents)
