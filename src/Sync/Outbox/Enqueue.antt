-- ===== src/Sync/Outbox/Enqueue.antt =====
-- `enqueuePush` of src/services/sync/engine.ts up to the flush that it starts.
use expensesapp.Prelude.{if◌then◌else◌, ℕ, Bool, not, ◌&&◌, Option, none, some, List, [], ◌∷◌}
use expensesapp.Prelude.Text.{Text, text_eq}
use expensesapp.Sync.Cursor.{to_base64url}
use expensesapp.Sync.Outbox.{Runtime, build_record_meta, is_terminal}
use expensesapp.Sync.Records.{PendingUpload, RawRecord, same_type, upload_has_id}
use expensesapp.Sync.Tables.{SyncDexie, SyncDb}

-- `pendingFields`, as a row that has no key; the fields it does not name keep their value.
abbrev pub pending_fields : RawRecord → Text → ℕ → PendingUpload
pending_fields r blob bytes = record {
  id = none;
  record_id = r.record_id;
  record_type = r.record_type;
  blob = blob;
  updated_at_map = r.updated_at_map;
  deleted_at = r.deleted_at;
  parent_version = r.parent_version;
  plaintext_byte_count = bytes;
  attempts = 0;
  last_failed_at = none;
  family_id = r.family_id;
  added_by_user_id = some r.added_by_user_id;
  edited_by_user_id = some r.edited_by_user_id;
  terminal = none;
}

-- `update(id, pendingFields)`: neither `id` nor `terminal` is among the fields.
abbrev pub overwrite : PendingUpload → PendingUpload → PendingUpload
overwrite fields old = record fields { id = old.id; terminal = old.terminal }

-- The query for the row that a new edit of the record supersedes.
abbrev pub supersedes : PendingUpload → PendingUpload → Bool
supersedes fields p =
    text_eq p.record_id fields.record_id
    && not (is_terminal p)
    && same_type p.record_type fields.record_type

abbrev pub first_of : List PendingUpload → Option PendingUpload
first_of [] = none
first_of (p ∷ ps) = some p

module _ (sx : SyncDexie) where
  -- `pendingUploads.add`: a row without a key is never refused.
  abbrev pub with_added : SyncDb sx → Option (ℕ × sx.uploads.Table) → Option (SyncDb sx)
  with_added db none = none
  with_added db (some (k, t)) = some (record db { uploads = t })

  unfoldable pub add_upload : PendingUpload → SyncDb sx → Option (SyncDb sx)
  add_upload p db = with_added db (sx.uploads.add p db.uploads)

  abbrev pub queued_id : Option PendingUpload → Option ℕ
  queued_id none = none
  queued_id (some p) = p.id

  abbrev pub coalesce : PendingUpload → Option ℕ → SyncDb sx → Option (SyncDb sx)
  coalesce fields none db = add_upload fields db
  coalesce fields (some k) db =
      some (record db { uploads = sx.uploads.update k (overwrite fields) db.uploads })

  -- A transaction that fails to write its state throws and leaves the old one.
  abbrev pub written_unless : (refuses : SyncDb sx → Bool) → Option (SyncDb sx) → Option (SyncDb sx)
  written_unless refuses none = none
  written_unless refuses (some db) = if refuses db then none else some db

  -- The transaction of `enqueuePush`; `refuses` tells for which states Dexie fails to write the row.
  unfoldable pub queue_upload :
      (refuses : SyncDb sx → Bool) → PendingUpload → SyncDb sx → Option (SyncDb sx)
  queue_upload refuses fields db =
      written_unless refuses (
        coalesce fields (queued_id (first_of (sx.uploads.query (supersedes fields) db.uploads))) db)

  module _ {V : Type 0} (rt : Runtime V) (refuses : SyncDb sx → Bool) where
    abbrev pub queue_encrypted : RawRecord → Option (List ℕ × ℕ) → SyncDb sx → Option (SyncDb sx)
    queue_encrypted r none db = none
    queue_encrypted r (some (blob, bytes)) db =
        queue_upload refuses (pending_fields r (to_base64url rt.btoa rt.atob blob) bytes) db

    unfoldable pub enqueue_push : RawRecord → SyncDb sx → Option (SyncDb sx)
    enqueue_push r db =
        queue_encrypted r
          (rt.encrypt (rt.payload_bytes r.payload) (build_record_meta r r.updated_at_map)) db
