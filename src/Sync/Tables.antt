-- ===== src/Sync/Tables.antt =====
-- The tables that the sync engine reads and writes. `recordMappings`, `syncCursors` and
-- `settings` have text keys: each is a parameter with the calls
-- that the code makes and their documented behaviour.
use mathlib.Core.Option
use expensesapp.Prelude.{◌≡◌, Option, none, some, if◌then◌else◌}
use expensesapp.Prelude.Text.{Text, text_eq}
use expensesapp.Models.{Category, Budget, category_has_id, budget_has_id}
use expensesapp.Storage.{Store}
use expensesapp.Ledger.Database.{Dexie, Db}
use expensesapp.Sync.Records.{PendingUpload, upload_has_id, SyncCursor, RecordMapping, RecordType}

-- What a write of the row under a primary key does to a row.
abbrev pub at_uuid : Text → (RecordMapping → RecordMapping) → RecordMapping → RecordMapping
at_uuid uuid f m = if text_eq m.uuid uuid then f m else m

-- `recordMappings: "uuid, &[recordType+localId]"`. A write that breaks a unique index fails.
pub record MappingTable : Type 1 where
  pub Table : Type 0
  pub by_local : RecordType → Text → Table → Option RecordMapping
  pub by_uuid : Text → Table → Option RecordMapping
  pub add : RecordMapping → Table → Option Table
  pub put : RecordMapping → Table → Option Table
  -- `update(uuid, changes)`
  pub update : Text → (RecordMapping → RecordMapping) → Table → Table
  pub clear : Table → Table
  pub by_uuid-clear : (uuid : Text) (t : Table) → by_uuid uuid (clear t) ≡ none
  pub by_local-add :
      (m : RecordMapping) (t t' : Table)
      → add m t ≡ some t'
      → by_local m.record_type m.local_id t' ≡ some m
  pub by_local-add_old :
      (m n : RecordMapping) (type : RecordType) (local_id : Text) (t t' : Table)
      → add n t ≡ some t'
      → by_local type local_id t ≡ some m
      → by_local type local_id t' ≡ some m
  pub by_uuid-put :
      (m : RecordMapping) (t t' : Table) → put m t ≡ some t' → by_uuid m.uuid t' ≡ some m
  pub by_local-update :
      (uuid : Text) (f : RecordMapping → RecordMapping) (type : RecordType) (local_id : Text)
      (t : Table)
      → ((m : RecordMapping) → ((f m).record_type ≡ m.record_type) × ((f m).local_id ≡ m.local_id))
      → by_local type local_id (update uuid f t)
        ≡ Option.map (at_uuid uuid f) (by_local type local_id t)

-- `syncCursors: "&familyId"`
pub record CursorTable : Type 1 where
  pub Table : Type 0
  pub get : Text → Table → Option SyncCursor
  pub first : Table → Option SyncCursor
  pub put : SyncCursor → Table → Table
  pub clear : Table → Table
  pub get-clear : (f : Text) (t : Table) → get f (clear t) ≡ none
  pub get-put :
      (f : Text) (c : SyncCursor) (t : Table)
      → get f (put c t) ≡ (if text_eq f c.family_id then some c else get f t)

-- `settings: "&key"`: a setting by its key and the JSON text of its value.
pub record SettingTable : Type 1 where
  pub Table : Type 0
  pub get : Text → Table → Option Text
  pub put : Text → Text → Table → Table
  pub delete : Text → Table → Table
  pub clear : Table → Table
  pub get-clear : (k : Text) (t : Table) → get k (clear t) ≡ none
  pub get-put :
      (k j v : Text) (t : Table) → get k (put j v t) ≡ (if text_eq k j then some v else get k t)
  pub get-delete :
      (k j : Text) (t : Table) → get k (delete j t) ≡ (if text_eq k j then none else get k t)

pub record SyncDexie : Type 1 where
  pub ledger : Dexie
  pub categories : Store Category
  pub budgets : Store Budget
  pub uploads : Store PendingUpload
  pub mappings : MappingTable
  pub cursors : CursorTable
  pub settings : SettingTable

pub record SyncDb (sx : SyncDexie) : Type 0 where
  pub ledger : Db sx.ledger
  pub categories : sx.categories.Table
  pub budgets : sx.budgets.Table
  pub uploads : sx.uploads.Table
  pub mappings : sx.mappings.Table
  pub cursors : sx.cursors.Table
  pub settings : sx.settings.Table
