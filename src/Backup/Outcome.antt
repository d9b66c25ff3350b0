-- ===== src/Backup/Outcome.antt =====
-- A restore of src/services/backup.service.ts succeeds as a whole or changes nothing.
use expensesapp.Prelude.{
  ℕ, ◌≡◌, ◌≢◌, refl, ◌⊎◌, inl, inr, Bool, true, false, Option, none, some, [], ltb, if◌then◌else◌,
  eq_of_some,
}
use expensesapp.Prelude.Text.{Text}
use expensesapp.Models.{
  Backup, account_has_id, backup_has_id, budget_has_id, category_has_id, rate_has_id,
  transaction_has_id,
}
use expensesapp.Storage.{Store}
use expensesapp.Sync.Outbox.Conflict.{and_then}
use expensesapp.Sync.Records.{upload_has_id}
use expensesapp.Storage.Bulk.{bulk_add}
use expensesapp.Backup.Restore.{
  BackupTables, Checked, Json, RestoreDb, RestoreDexie, RestoreError, Restoring, ValidTables,
  assert_supported_version, put_settings, cleared, fails, fill, import_from_file, max_size, passes,
  restore_checked, restore_data, restore_from_backup, restore_parsed, restore_record,
  restore_structured, restore_supported, validate_backup_structure, validate_tables, written,
}

module _ (rx : RestoreDexie) where
  -- The outbox, the mappings and the cursors are empty.
  unfoldable pub HasNoSync : RestoreDb rx → Type 0
  HasNoSync d =
      (rx.sync.uploads.rows d.db.uploads ≡ [])
      × ((uuid : Text) → rx.sync.mappings.by_uuid uuid d.db.mappings ≡ none)
      × ((family : Text) → rx.sync.cursors.get family d.db.cursors ≡ none)

  -- The call throws and the tables are as they were, or it does not and the sync state is gone.
  unfoldable pub IsAllOrNothing : RestoreDb rx → Restoring rx → Type 0
  IsAllOrNothing d (e, d') = ((e ≢ none) × (d' ≡ d)) ⊎ ((e ≡ none) × HasNoSync d')

  cleared-HasNoSync : (d : RestoreDb rx) → HasNoSync (cleared rx d)
  unfolding HasNoSync cleared
  cleared-HasNoSync d = (
    rx.sync.uploads.rows-clear d.db.uploads,
    λ uuid. rx.sync.mappings.by_uuid-clear uuid d.db.mappings,
    λ family. rx.sync.cursors.get-clear family d.db.cursors,
  )

  fill-HasNoSync :
      (v : ValidTables) (d d' : RestoreDb rx) → fill rx v d ≡ some d' → HasNoSync d → HasNoSync d'
  unfolding fill HasNoSync
  fill-HasNoSync v d d' h empty =
      filled (bulk_add rx.sync.ledger.accounts v.accounts d.db.ledger.accounts)
        (bulk_add rx.sync.categories v.categories d.db.categories)
        (bulk_add rx.sync.ledger.transactions v.transactions d.db.ledger.transactions)
        (bulk_add rx.sync.budgets v.budgets d.db.budgets)
        (bulk_add rx.rates v.exchange_rates d.rates) h
    where
      filled :
          (oa : Option rx.sync.ledger.accounts.Table) (oc : Option rx.sync.categories.Table)
          (ot : Option rx.sync.ledger.transactions.Table) (ob : Option rx.sync.budgets.Table)
          (or : Option rx.rates.Table)
          → and_then oa (λ a. and_then oc λ c. and_then ot λ t. and_then ob λ b. and_then or λ r.
            some (record d {
              db = record d.db {
                ledger = record { accounts = a; transactions = t };
                categories = c;
                budgets = b;
                settings = put_settings rx v.settings d.db.settings;
              };
              rates = r;
            }))
            ≡ some d'
          → HasNoSync d'
      filled none oc ot ob or q = cc
      filled (some a) none ot ob or q = cc
      filled (some a) (some c) none ob or q = cc
      filled (some a) (some c) (some t) none or q = cc
      filled (some a) (some c) (some t) (some b) none q = cc
      filled (some a) (some c) (some t) (some b) (some r) q =
          let same = eq_of_some q in rw (← same) empty

  failed : (e : RestoreError) (d : RestoreDb rx) → IsAllOrNothing d (some e, d)
  unfolding IsAllOrNothing
  failed e d = inl (λ (h : some e ≡ none). cc, refl)

  module _ {V : Type 0} (js : Json V) where
    parsed-IsAllOrNothing :
        (d : RestoreDb rx) (o : Option V) → IsAllOrNothing d (restore_parsed rx js d o)
    unfolding restore_data IsAllOrNothing
    parsed-IsAllOrNothing d none = failed RestoreError.not_json d
    parsed-IsAllOrNothing d (some p) = structured (validate_backup_structure js p)
      where
        filled :
            (v : ValidTables) (o : Option (RestoreDb rx))
            → fill rx v (cleared rx d) ≡ o
            → IsAllOrNothing d (written rx d o)
        filled v none e = failed RestoreError.write_failed d
        filled v (some d') e =
            inr (refl, fill-HasNoSync v (cleared rx d) d' e (cleared-HasNoSync d))

        checked : (c : Checked ValidTables) → IsAllOrNothing d (restore_checked rx d c)
        checked (fails e) = failed e d
        checked (passes v) = filled v (fill rx v (cleared rx d)) refl

        supported :
            (tables : BackupTables V) (c : Checked (Unit {0}))
            → IsAllOrNothing d (restore_supported rx js tables d c)
        supported tables (fails e) = failed e d
        supported tables (passes u) = checked (validate_tables js tables)

        structured :
            (o : Option (V × BackupTables V)) → IsAllOrNothing d (restore_structured rx js d o)
        structured none = failed RestoreError.invalid_structure d
        structured (some (version, tables)) = supported tables (assert_supported_version js version)

    -- A restore of a stored backup, and one of a file, throws and leaves every table as it was, or
    -- does not throw and leaves the outbox, the mappings and the cursors of the sync empty.
    pub restore-IsAllOrNothing :
        (backups : Store Backup) (k : ℕ) (t : backups.Table) (size : ℕ) (contents : Text)
        (d : RestoreDb rx)
        → IsAllOrNothing d (restore_from_backup rx js backups k t d)
          × IsAllOrNothing d (import_from_file rx js size contents d)
    unfolding restore_from_backup import_from_file
    restore-IsAllOrNothing backups k t size contents d =
        (stored (backups.get k t), sized (ltb max_size size))
      where
        stored : (o : Option Backup) → IsAllOrNothing d (restore_record rx js k d o)
        stored none = failed (RestoreError.backup_not_found k) d
        stored (some b) = parsed-IsAllOrNothing d (js.parse b.backup_data)

        sized :
            (b : Bool)
            → IsAllOrNothing d (
                if b
                then (some RestoreError.file_too_large, d)
                else restore_parsed rx js d (js.parse contents))
        sized true = failed RestoreError.file_too_large d
        sized false = parsed-IsAllOrNothing d (js.parse contents)
