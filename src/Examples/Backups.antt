-- ===== src/Examples/Backups.antt =====
-- The theorems on backups, on a table of one manual backup.
use expensesapp.Prelude.{◌≡◌, refl, true, false, none, some, [], ◌∷◌, arith}
use expensesapp.Prelude.Text.{Text, text}
use expensesapp.Models.{Backup, account_has_id, backup_has_id, rate_has_id, transaction_has_id}
use expensesapp.Storage.{Store}
use expensesapp.Storage.Keyed.{lookup}
use expensesapp.Storage.ListStore.{list_store, Ordered}
use expensesapp.Backup.{create_backup}
use expensesapp.Backup.Pruned.{HoldsKeys, create_backup-other_kind}
use expensesapp.Backup.Outcome.{IsAllOrNothing, restore-IsAllOrNothing}
use expensesapp.Backup.Restore.{
  Json, RestoreDb, RestoreDexie, import_from_file, restore_from_backup,
}
use expensesapp.Examples.Tables.{sync_dexie}
use expensesapp.Examples.Books.{synced, today}

abbrev by_hand : Backup
by_hand = record {
  id = some 1;
  created_at = text "2026-01-01";
  backup_data = text "{}";
  is_automatic = false;
}

abbrev backups : Store Backup
backups = list_store

abbrev saved : Ordered Backup
saved = ((1, by_hand) ∷ [], (omega arith, tt))

saved-HoldsKeys : HoldsKeys backups saved
unfolding HoldsKeys lookup
saved-HoldsKeys k b h = ground (arith, h)

create_backup-other_kind_example :
    backups.get 1 (create_backup backups (text "{}") today true saved).1 ≡ some by_hand
unfolding lookup
create_backup-other_kind_example =
    create_backup-other_kind backups (text "{}") today true saved 1 by_hand saved-HoldsKeys refl
      refl

-- A text is the only value, an object whose every field is itself, and a list without items.
abbrev plain_json : Json Text
plain_json = record {
  parse = λ s. some s;
  is_object = λ v. true;
  field = λ name v. some v;
  is_number = λ v. true;
  exceeds = λ v n. false;
  array_of = λ v. some [];
  is_uuid = λ s. true;
  is_nonnegative_number = λ s. true;
  account_of = λ v. none;
  category_of = λ v. none;
  transaction_of = λ v. none;
  budget_of = λ v. none;
  rate_of = λ v. none;
  setting_of = λ v. none;
}

abbrev restore_dexie : RestoreDexie
restore_dexie = record { sync = sync_dexie; rates = list_store }

abbrev device : RestoreDb restore_dexie
device = record { db = synced; rates = ([], tt) }

restore-IsAllOrNothing_example :
    IsAllOrNothing restore_dexie device
      (restore_from_backup restore_dexie plain_json backups 1 saved device)
    × IsAllOrNothing restore_dexie device
        (import_from_file restore_dexie plain_json 2 (text "{}") device)
restore-IsAllOrNothing_example =
    restore-IsAllOrNothing restore_dexie plain_json backups 1 saved 2 (text "{}") device
