-- ===== src/Sync/Outbox/Conflict.antt =====
-- `resolveConflict` and `applyTombstoneByLocalId` of src/services/sync/engine.ts.
use expensesapp.Prelude.{ℕ, Bool, Option, none, some, [], ◌∷◌, get_or}
use expensesapp.Prelude.Fields.{Fields}
use expensesapp.Prelude.Text.{Text}
use expensesapp.Sync.Cursor.{from_base64url, to_base64url}
use expensesapp.Sync.Identity.{get_mapping_by_uuid, update_last_server_version}
use expensesapp.Sync.Merge.{Merged, merge_payloads}
use expensesapp.Sync.Outbox.{Json, object, null, scalar, Runtime, Json, object}
use expensesapp.Sync.Outbox.Enqueue.{add_upload}
use expensesapp.Sync.Records.{
  ConflictRecord, PendingUpload, RecordMapping, RecordMeta, RecordType, transaction, account,
  category, budget, settings,
}
use expensesapp.Sync.Tables.{SyncDexie, SyncDb}

-- `??` on a text, and a text as a condition.
abbrev pub is_set : Option Text → Bool
is_set none = Bool.false
is_set (some []) = Bool.false
is_set (some (c ∷ s)) = Bool.true

abbrev pub and_then {ℓ κ} : {A : Type ℓ} {B : Type κ} → Option A → (A → Option B) → Option B
and_then none f = none
and_then (some a) f = f a

-- The row that goes back to the outbox.
abbrev pub requeued : PendingUpload → Text → Fields Text → ℕ → ℕ → PendingUpload
requeued item blob updated_at_map parent_version bytes = record {
  id = none;
  record_id = item.record_id;
  record_type = item.record_type;
  blob = blob;
  updated_at_map = updated_at_map;
  deleted_at = item.deleted_at;
  parent_version = parent_version;
  plaintext_byte_count = bytes;
  attempts = 0;
  last_failed_at = none;
  family_id = item.family_id;
  added_by_user_id = some (get_or item.added_by_user_id []);
  edited_by_user_id = some (get_or item.edited_by_user_id []);
  terminal = none;
}

-- `localMeta` and, with the merged map, `mergedMeta`.
abbrev pub local_meta : PendingUpload → Fields Text → RecordMeta
local_meta item updated_at_map = record {
  ver_byte = 1;
  family_id = item.family_id;
  record_id = item.record_id;
  record_type = item.record_type;
  added_by_user_id = get_or item.added_by_user_id [];
  edited_by_user_id = get_or item.edited_by_user_id [];
  updated_at_map = updated_at_map;
  deleted_at = get_or item.deleted_at [];
}

abbrev pub server_meta : PendingUpload → ConflictRecord → RecordMeta
server_meta item conflict = record {
  ver_byte = 1;
  family_id = item.family_id;
  record_id = item.record_id;
  record_type = item.record_type;
  added_by_user_id = get_or conflict.current_added_by_user (get_or item.added_by_user_id []);
  edited_by_user_id = get_or conflict.current_edited_by_user (get_or item.edited_by_user_id []);
  updated_at_map = conflict.current_updated_at_map;
  deleted_at = get_or conflict.current_deleted_at [];
}

module _ (sx : SyncDexie) where
  -- On the row of a key: accounts and categories go to the trash, the others are deleted.
  abbrev pub bury : RecordType → Option ℕ → SyncDb sx → SyncDb sx
  bury type none db = db
  bury transaction (some k) db = record db {
    ledger = record db.ledger {
      transactions = sx.ledger.transactions.delete k db.ledger.transactions;
    };
  }
  bury account (some k) db = record db {
    ledger = record db.ledger {
      accounts =
          sx.ledger.accounts.update k (λ a. record a { is_trashed = Bool.true }) db.ledger.accounts;
    };
  }
  bury category (some k) db = record db {
    categories = sx.categories.update k (λ c. record c { is_trashed = Bool.true }) db.categories;
  }
  bury budget (some k) db = record db { budgets = sx.budgets.delete k db.budgets }
  bury settings (some k) db = db

  module _ {V : Type 0} (rt : Runtime V) where
    unfoldable pub apply_tombstone_by_local_id : RecordType → Text → SyncDb sx → SyncDb sx
    apply_tombstone_by_local_id type local_id db = bury type (rt.number local_id) db

    abbrev pub apply_server_tombstone :
        PendingUpload → ConflictRecord → Option RecordMapping → SyncDb sx → SyncDb sx
    apply_server_tombstone item conflict none db = db
    apply_server_tombstone item conflict (some m) db =
        update_last_server_version sx item.record_type m.local_id conflict.current_version
          (apply_tombstone_by_local_id item.record_type m.local_id db)

    -- The object that a device has pushed. Another value, which no device pushes, ends the merge.
    abbrev pub object_of : Json V → Option (Fields V)
    object_of (object payload) = some payload
    object_of null = none
    object_of scalar = none

    -- Decryption of a blob and the object in it.
    unfoldable pub decrypted : Text → RecordMeta → Option (Fields V)
    decrypted blob meta =
        and_then (from_base64url rt.btoa rt.atob blob) λ bytes.
          and_then (rt.decrypt bytes meta) λ plain. and_then (rt.parse_json plain) object_of

    abbrev pub requeue_merged :
        PendingUpload → ConflictRecord → Merged V → SyncDb sx → Option (SyncDb sx)
    requeue_merged item conflict m db =
        and_then (rt.encrypt (rt.json_bytes m.merged_payload) (local_meta item m.merged_map)) λ e.
          add_upload sx
            (requeued item (to_base64url rt.btoa rt.atob e.0) m.merged_map conflict.current_version
              e.1)
            db

    unfoldable pub merge_conflict :
        Text → PendingUpload → ConflictRecord → SyncDb sx → Option (SyncDb sx)
    merge_conflict now item conflict db =
        and_then (decrypted item.blob (local_meta item item.updated_at_map)) λ local_payload.
          and_then (decrypted conflict.current_blob (server_meta item conflict)) λ server_payload.
            requeue_merged item conflict
              (merge_payloads rt.get_time rt.undefined now local_payload server_payload
                item.updated_at_map conflict.current_updated_at_map
                (get_or item.edited_by_user_id []) (get_or conflict.current_edited_by_user []))
              db

    abbrev pub resolve_by :
        (server_has_blob server_deleted locally_deleted : Bool)
        → Text
        → PendingUpload
        → ConflictRecord
        → SyncDb sx
        → Option (SyncDb sx)
    resolve_by Bool.false d l now item conflict db =
        add_upload sx (requeued item item.blob item.updated_at_map 0 item.plaintext_byte_count) db
    resolve_by Bool.true Bool.true Bool.true now item conflict db = some db
    resolve_by Bool.true Bool.true Bool.false now item conflict db =
        some (apply_server_tombstone item conflict (get_mapping_by_uuid sx item.record_id db) db)
    resolve_by Bool.true Bool.false l now item conflict db = merge_conflict now item conflict db

    -- `none` where the function throws.
    unfoldable pub resolve_conflict :
        Text → PendingUpload → ConflictRecord → SyncDb sx → Option (SyncDb sx)
    resolve_conflict now item conflict db =
        resolve_by (is_set (some conflict.current_blob)) (is_set conflict.current_deleted_at)
          (is_set item.deleted_at) now item conflict db
