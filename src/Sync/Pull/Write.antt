-- ===== src/Sync/Pull/Write.antt =====
-- `writeDecryptedRecord` and `refreshSettingsStoreCache` of src/services/sync/engine.ts, with the
-- pulled record of src/services/sync/types.ts.
use expensesapp.Prelude.{ℕ, Bool, Option, none, some, [], if◌then◌else◌}
use expensesapp.Prelude.Fields.{Fields, field_set}
use expensesapp.Prelude.Text.{Text, text, text_eq}
use expensesapp.Models.{Account, Budget, Category, Transaction, category_has_id, budget_has_id}
use expensesapp.Storage.Keyed.{set_id}
use expensesapp.Sync.Outbox.{Runtime, Json, object, null, scalar}
use expensesapp.Sync.Outbox.Conflict.{bury, is_set}
use expensesapp.Sync.Pull.Upsert.{
  Origin, Written, applied, rejected, local_row, map_row, then_mapped, upsert_domain_row,
  upsert_pulled_account, upsert_pulled_transaction, apply_pulled_transaction_tombstone,
}
use expensesapp.Sync.PushHelpers.{is_synced_key}
use expensesapp.Sync.Records.{RecordType, transaction, account, category, budget, settings}
use expensesapp.Sync.Tables.{SyncDexie, SyncDb}
use expensesapp.Validation.{
  Formats, account_schema, budget_schema, category_schema, transaction_schema,
}

pub record PulledRecord : Type 0 where
  pub record_id : Text
  pub record_type : Text
  pub blob : Text
  pub version : ℕ
  pub family_seq : ℕ
  pub updated_at_map : Fields Text
  pub deleted_at : Option Text
  pub added_by_user : Text
  pub edited_by_user : Text

-- A parsed object read as a row, without a value where the schema package finds a field of another
-- type; Dexie's update of an account with the fields of an object; and the setting in an object
-- that has a text as `key` and a `value`, which is kept as its JSON text.
pub record Reading (V : Type 0) : Type 0 where
  pub formats : Formats
  pub transaction_of : Fields V → Option Transaction
  pub account_of : Fields V → Option Account
  pub category_of : Fields V → Option Category
  pub budget_of : Fields V → Option Budget
  pub overlay : Fields V → Account → Account
  pub setting_of : Fields V → Option (Text × Text)

-- The tables, with the settings that the user interface reads.
pub record Device (sx : SyncDexie) : Type 0 where
  pub db : SyncDb sx
  pub cache : Fields Text

abbrev pub is_tombstone : PulledRecord → Bool
is_tombstone r = is_set r.deleted_at

abbrev pub origin_of : PulledRecord → Origin
origin_of r = record { uuid = r.record_id; creator_user_id = r.added_by_user; version = r.version }

-- The cases of the switch; `none` is its default.
unfoldable pub type_of : Text → Option RecordType
type_of name =
    if text_eq name (text "transaction")
    then some transaction
    else if text_eq name (text "account")
    then some account
    else if text_eq name (text "category")
    then some category
    else if text_eq name (text "budget")
    then some budget
    else if text_eq name (text "settings")
    then some settings
    else none

-- A row that passes its schema.
abbrev pub checked : {R : Type 0} → (R → Bool) → Option R → Option R
checked schema none = none
checked schema (some row) = if schema row then some row else none

module _ (sx : SyncDexie) {V : Type 0} (rt : Runtime V) (rd : Reading V) (now : Text) where
  abbrev pub on_db : Device sx → Written (SyncDb sx) → Written (Device sx)
  on_db d (applied db) = applied (record d { db = db })
  on_db d (rejected db) = rejected (record d { db = db })

  -- A record whose payload is not valid is passed over.
  abbrev pub write_transaction : Option Transaction → PulledRecord → SyncDb sx → Written (SyncDb sx)
  write_transaction none r db = applied db
  write_transaction (some tx) r db = upsert_pulled_transaction sx rt now tx (origin_of r) db

  abbrev pub write_account :
      Fields V → Option Account → PulledRecord → SyncDb sx → Written (SyncDb sx)
  write_account payload none r db = applied db
  write_account payload (some row) r db =
      upsert_pulled_account sx rt now rd.overlay payload row (origin_of r) db

  abbrev pub put_category : Category → ℕ → SyncDb sx → SyncDb sx
  put_category row k db = record db { categories = sx.categories.put (set_id k row) db.categories }

  abbrev pub category_in : SyncDb sx → Option (ℕ × sx.categories.Table) → Option (ℕ × SyncDb sx)
  category_in db none = none
  category_in db (some (k, t)) = some (k, record db { categories = t })

  abbrev pub write_category : Option Category → PulledRecord → SyncDb sx → Written (SyncDb sx)
  write_category none r db = applied db
  write_category (some row) r db =
      upsert_domain_row sx rt now category (origin_of r) (put_category row)
        (λ db. category_in db (sx.categories.add (record row { id = none }) db.categories)) db

  abbrev pub put_budget : Budget → ℕ → SyncDb sx → SyncDb sx
  put_budget row k db = record db { budgets = sx.budgets.put (set_id k row) db.budgets }

  abbrev pub budget_in : SyncDb sx → Option (ℕ × sx.budgets.Table) → Option (ℕ × SyncDb sx)
  budget_in db none = none
  budget_in db (some (k, t)) = some (k, record db { budgets = t })

  abbrev pub write_budget : Option Budget → PulledRecord → SyncDb sx → Written (SyncDb sx)
  write_budget none r db = applied db
  write_budget (some row) r db =
      upsert_domain_row sx rt now budget (origin_of r) (put_budget row)
        (λ db. budget_in db (sx.budgets.add (record row { id = none }) db.budgets)) db

  -- The tombstone of a row that this device knows goes to the trash or deletes, and then the
  -- mapping is written.
  abbrev pub bury_at : RecordType → PulledRecord → Option ℕ → SyncDb sx → Written (SyncDb sx)
  bury_at type r none db = applied db
  bury_at type r (some k) db =
      let buried = bury sx type (some k) db in
      then_mapped buried (map_row sx rt now type (rt.string k) (origin_of r) buried)

  abbrev pub bury_row : RecordType → PulledRecord → SyncDb sx → Written (SyncDb sx)
  bury_row type r db = bury_at type r (local_row sx rt now (origin_of r) db) db

  -- `refreshSettingsStoreCache`: the key is in the store, so its value is replaced or set.
  unfoldable pub refresh_settings_store_cache : Text → Text → Device sx → Device sx
  refresh_settings_store_cache key value d = record d { cache = field_set key value d.cache }

  abbrev pub refreshed : Text → Text → Written (Device sx) → Written (Device sx)
  refreshed key value (applied d) = applied (refresh_settings_store_cache key value d)
  refreshed key value (rejected d) = rejected d

  abbrev pub delete_setting : Text → SyncDb sx → SyncDb sx
  delete_setting key db = record db { settings = sx.settings.delete key db.settings }

  abbrev pub put_setting : Text → Text → SyncDb sx → SyncDb sx
  put_setting key value db = record db { settings = sx.settings.put key value db.settings }

  abbrev pub settle_setting : Text → PulledRecord → SyncDb sx → Device sx → Written (Device sx)
  settle_setting key r db d =
      on_db d (then_mapped db (map_row sx rt now settings key (origin_of r) db))

  abbrev pub write_synced : Text → Text → PulledRecord → Device sx → Written (Device sx)
  write_synced key value r d =
      if is_tombstone r
      then settle_setting key r (delete_setting key d.db) d
      else refreshed key value (settle_setting key r (put_setting key value d.db) d)

  -- A setting without a key or a value, or one that is not synced, is passed over.
  unfoldable pub write_setting :
      Option (Text × Text) → PulledRecord → Device sx → Written (Device sx)
  write_setting none r d = applied d
  write_setting (some (key, value)) r d =
      if is_synced_key key then write_synced key value r d else applied d

  abbrev pub write_record :
      Option RecordType → Fields V → PulledRecord → Device sx → Written (Device sx)
  write_record none payload r d = applied d
  write_record (some transaction) payload r d = on_db d (
      if is_tombstone r
      then apply_pulled_transaction_tombstone sx rt now (origin_of r) d.db
      else write_transaction (checked (transaction_schema rd.formats) (rd.transaction_of payload)) r
          d.db)
  write_record (some account) payload r d = on_db d (
      if is_tombstone r
      then bury_row account r d.db
      else write_account payload (checked (account_schema rd.formats) (rd.account_of payload)) r
          d.db)
  write_record (some category) payload r d = on_db d (
      if is_tombstone r
      then bury_row category r d.db
      else write_category (checked category_schema (rd.category_of payload)) r d.db)
  write_record (some budget) payload r d = on_db d (
      if is_tombstone r
      then bury_row budget r d.db
      else write_budget (checked budget_schema (rd.budget_of payload)) r d.db)
  write_record (some settings) payload r d = write_setting (rd.setting_of payload) r d

  unfoldable pub write_decrypted_record : Fields V → PulledRecord → Device sx → Written (Device sx)
  unfolding type_of
  write_decrypted_record payload r d = write_record (type_of r.record_type) payload r d

-- No schema accepts a value that is no object, and no setting is found in it.
abbrev pub reads_nothing : {V : Type 0} → Reading V → Reading V
reads_nothing rd = record rd {
  transaction_of = λ o. none;
  account_of = λ o. none;
  category_of = λ o. none;
  budget_of = λ o. none;
  setting_of = λ o. none;
}

module _ (sx : SyncDexie) {V : Type 0} (rt : Runtime V) (rd : Reading V) (now : Text) where
  -- `writeDecryptedRecord` on a parsed value: to read the `key` of null throws.
  abbrev pub write_null : Option RecordType → PulledRecord → Device sx → Written (Device sx)
  write_null (some settings) r d = rejected d
  write_null _ r d = write_decrypted_record sx rt (reads_nothing rd) now [] r d

  unfoldable pub write_value : Json V → PulledRecord → Device sx → Written (Device sx)
  write_value (object payload) r d = write_decrypted_record sx rt rd now payload r d
  write_value scalar r d = write_decrypted_record sx rt (reads_nothing rd) now [] r d
  write_value null r d = write_null (type_of r.record_type) r d
