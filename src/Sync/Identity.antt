-- ===== src/Sync/Identity.antt =====
-- src/services/sync/record-mapping.ts: which server record a local row is. `new_uuid` is what
-- `newUUID()` returns.
pub mod Stable
use expensesapp.Prelude.{ℕ, Option, none, some}
use expensesapp.Prelude.Text.{Text}
use expensesapp.Sync.Records.{RecordType, RecordMapping}
use expensesapp.Sync.Tables.{SyncDexie, SyncDb}

-- `{ lastServerVersion: version }`
abbrev pub with_version : ℕ → RecordMapping → RecordMapping
with_version version m = record m { last_server_version = version }

module _ (sx : SyncDexie) where
  unfoldable pub get_mapping_by_local_id : RecordType → Text → SyncDb sx → Option RecordMapping
  get_mapping_by_local_id type local_id db = sx.mappings.by_local type local_id db.mappings

  unfoldable pub get_mapping_by_uuid : Text → SyncDb sx → Option RecordMapping
  get_mapping_by_uuid uuid db = sx.mappings.by_uuid uuid db.mappings

  abbrev pub with_mappings : SyncDb sx → Option sx.mappings.Table → Option (SyncDb sx)
  with_mappings db none = none
  with_mappings db (some t) = some (record db { mappings = t })

  abbrev pub with_mapping : RecordMapping → Option (SyncDb sx) → Option (RecordMapping × SyncDb sx)
  with_mapping m none = none
  with_mapping m (some db) = some (m, db)

  -- Once it is known whether the row has a mapping; `none` is Dexie's refusal of the new one.
  abbrev pub get_or_create :
      RecordType
      → Text
      → Text
      → Text
      → SyncDb sx
      → Option RecordMapping
      → Option (RecordMapping × SyncDb sx)
  get_or_create type local_id new_uuid user db (some existing) = some (existing, db)
  get_or_create type local_id new_uuid user db none =
      let mapping : RecordMapping = record {
        record_type = type;
        local_id = local_id;
        uuid = new_uuid;
        last_server_version = 0;
        creator_user_id = user;
      } in
      with_mapping mapping (with_mappings db (sx.mappings.add mapping db.mappings))

  unfoldable pub get_or_create_mapping_for_push :
      RecordType → Text → Text → Text → SyncDb sx → Option (RecordMapping × SyncDb sx)
  get_or_create_mapping_for_push type local_id new_uuid user db =
      get_or_create type local_id new_uuid user db (get_mapping_by_local_id type local_id db)

  abbrev pub set_server_version : Option RecordMapping → ℕ → SyncDb sx → SyncDb sx
  set_server_version none version db = db
  set_server_version (some m) version db = record db {
    mappings = sx.mappings.update m.uuid (with_version version) db.mappings;
  }

  unfoldable pub update_last_server_version : RecordType → Text → ℕ → SyncDb sx → SyncDb sx
  update_last_server_version type local_id version db =
      set_server_version (get_mapping_by_local_id type local_id db) version db

  unfoldable pub upsert_mapping_from_pull :
      RecordType → Text → Text → Text → ℕ → SyncDb sx → Option (SyncDb sx)
  upsert_mapping_from_pull type local_id uuid creator version db = with_mappings db (
      sx.mappings.put
        (record {
          record_type = type;
          local_id = local_id;
          uuid = uuid;
          last_server_version = version;
          creator_user_id = creator;
        })
        db.mappings)
