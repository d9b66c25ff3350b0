-- ===== src/Sync/Outbox/Batch.antt =====
-- `flushBatchOnce` of src/services/sync/engine.ts: one push of at most fifty rows and what its
-- answer does. The clock of a batch is one instant, `now`.
use expensesapp.Prelude.{
  ℕ, suc, Bool, true, not, ◌&&◌, ◌==◌, Option, none, some, List, [], ◌∷◌, map, any, take, length,
  if◌then◌else◌, leb,
}
use expensesapp.Prelude.Text.{Text, text, text_eq}
use expensesapp.Sync.Cursor.{decode_cursor, encode_cursor, get_cursor, set_cursor}
use expensesapp.Sync.Identity.{get_mapping_by_uuid, update_last_server_version}
use expensesapp.Sync.Outbox.{
  Runtime, PushResult, answered, failed, Server, Engine, push_batch_size, is_terminal,
}
use expensesapp.Sync.Outbox.Conflict.{resolve_conflict}
use expensesapp.Sync.Records.{
  PendingUpload, PushRecord, PushResponse, PushFailure, AcceptedRecord, ConflictRecord,
  RecordMapping, quota,
}
use expensesapp.Sync.Tables.{SyncDexie, SyncDb}

pub data Outcome : Type 0 where
  empty success terminal error : Outcome

-- Whether a list of answers names the record: `map.has(recordId)`.
abbrev pub is_accepted : List AcceptedRecord → Text → Bool
is_accepted accepted record_id = any (λ a. text_eq a.record_id record_id) accepted

abbrev pub or_first : Option ConflictRecord → Option ConflictRecord → Option ConflictRecord
or_first none c = c
or_first (some d) c = some d

-- `conflictMap.get(recordId)`: the last entry of the record.
unfoldable pub conflict_of : List ConflictRecord → Text → Option ConflictRecord
conflict_of [] record_id = none
conflict_of (c ∷ cs) record_id =
    or_first (conflict_of cs record_id) (if text_eq c.record_id record_id then some c else none)

abbrev pub push_record : PendingUpload → PushRecord
push_record p = record {
  record_id = p.record_id;
  record_type = p.record_type;
  blob = p.blob;
  updated_at_map = p.updated_at_map;
  deleted_at = p.deleted_at;
  parent_version = p.parent_version;
  plaintext_byte_count = p.plaintext_byte_count;
}

abbrev pub mark_terminal : Text → PendingUpload → PendingUpload
mark_terminal now p = record p { terminal = some true; last_failed_at = some now }

abbrev pub mark_failed : Text → ℕ → PendingUpload → PendingUpload
mark_failed now attempts p = record p { attempts = attempts; last_failed_at = some now }

-- `Math.max` over the attempts of the failed batch
abbrev pub max_attempts : ℕ → List PendingUpload → ℕ
max_attempts most [] = most
max_attempts most (p ∷ batch) =
    max_attempts (if leb (suc p.attempts) most then most else suc p.attempts) batch

-- `seqs.sort((a, b) => a - b)`
abbrev pub insert_seq : ℕ → List ℕ → List ℕ
insert_seq n [] = n ∷ []
insert_seq n (m ∷ ms) = if leb n m then n ∷ m ∷ ms else m ∷ insert_seq n ms

abbrev pub sort_seqs : List ℕ → List ℕ
sort_seqs [] = []
sort_seqs (n ∷ ns) = insert_seq n (sort_seqs ns)

-- `seqs.every((seq, i) => seq === currentSeq + 1 + i)`
unfoldable pub is_contiguous : ℕ → List ℕ → Bool
is_contiguous current [] = true
is_contiguous current (seq ∷ seqs) = (seq == suc current) && is_contiguous (suc current) seqs

abbrev pub last_seq : ℕ → List ℕ → ℕ
last_seq n [] = n
last_seq n (m ∷ ms) = last_seq m ms

-- The failures that are final for the batch: 413, with the error the banner shows, and 400, which
-- leaves the shown error as it is.
pub data Failure : Type 0 where
  over_quota rejected transient : Failure

unfoldable pub failure_of : Option ℕ → Failure
failure_of none = transient
failure_of (some status) =
    if status == 413 then over_quota else if status == 400 then rejected else transient

module _ (sx : SyncDexie) where
  unfoldable pub next_batch : SyncDb sx → List PendingUpload
  next_batch db = take push_batch_size (sx.uploads.query (λ p. not (is_terminal p)) db.uploads)

  -- `if (item.id !== undefined) await db.pendingUploads.update(item.id, …)`
  abbrev pub update_item :
      Option ℕ → (PendingUpload → PendingUpload) → sx.uploads.Table → sx.uploads.Table
  update_item none f t = t
  update_item (some k) f t = sx.uploads.update k f t

  abbrev pub delete_item : Option ℕ → sx.uploads.Table → sx.uploads.Table
  delete_item none t = t
  delete_item (some k) t = sx.uploads.delete k t

  unfoldable pub mark_batch_terminal :
      Text → List PendingUpload → sx.uploads.Table → sx.uploads.Table
  mark_batch_terminal now [] t = t
  mark_batch_terminal now (item ∷ batch) t =
      mark_batch_terminal now batch (update_item item.id (mark_terminal now) t)

  unfoldable pub mark_batch_failed : Text → List PendingUpload → sx.uploads.Table → sx.uploads.Table
  mark_batch_failed now [] t = t
  mark_batch_failed now (item ∷ batch) t =
      mark_batch_failed now batch (update_item item.id (mark_failed now (suc item.attempts)) t)

  -- The bookkeeping of one row of the batch.
  abbrev pub settle_item : Text → PushResponse → PendingUpload → sx.uploads.Table → sx.uploads.Table
  settle_item now response item t =
      if is_accepted response.accepted item.record_id
      then delete_item item.id t
      else if any (λ c. text_eq c.record_id item.record_id) response.conflicts
      then t
      else update_item item.id (mark_failed now (suc item.attempts)) t

  unfoldable pub settle_batch :
      Text → PushResponse → List PendingUpload → sx.uploads.Table → sx.uploads.Table
  settle_batch now response [] t = t
  settle_batch now response (item ∷ batch) t =
      settle_batch now response batch (settle_item now response item t)

  abbrev pub store_version : Option RecordMapping → ℕ → SyncDb sx → SyncDb sx
  store_version none v db = db
  store_version (some m) v db = update_last_server_version sx m.record_type m.local_id v db

  unfoldable pub store_versions : List AcceptedRecord → SyncDb sx → SyncDb sx
  store_versions [] db = db
  store_versions (a ∷ accepted) db =
      store_versions accepted (store_version (get_mapping_by_uuid sx a.record_id db) a.version db)

  module _ {V : Type 0} (rt : Runtime V) where
    -- The row of a conflict goes once its resolution has succeeded.
    abbrev pub drop_resolved : PendingUpload → SyncDb sx → Option (SyncDb sx) → SyncDb sx
    drop_resolved item db none = db
    drop_resolved item db (some db') = record db' { uploads = delete_item item.id db'.uploads }

    abbrev pub handle_conflict :
        Text → PendingUpload → Option ConflictRecord → SyncDb sx → SyncDb sx
    handle_conflict now item none db = db
    handle_conflict now item (some c) db = elim c.reason [
      | some quota ↦ db
      | other ↦ drop_resolved item db (resolve_conflict sx rt now item c db)
    ]

    unfoldable pub handle_conflicts :
        Text → List ConflictRecord → List PendingUpload → SyncDb sx → SyncDb sx
    handle_conflicts now conflicts [] db = db
    handle_conflicts now conflicts (item ∷ batch) db =
        handle_conflicts now conflicts batch
          (handle_conflict now item (conflict_of conflicts item.record_id) db)

    abbrev pub advance : Text → Text → List ℕ → SyncDb sx → SyncDb sx
    advance now family_id [] db = db
    advance now family_id (seq ∷ seqs) db =
        if is_contiguous (decode_cursor rt.btoa rt.atob (get_cursor sx family_id db)) (seq ∷ seqs)
        then set_cursor sx now family_id (encode_cursor rt.btoa rt.atob (last_seq seq seqs)) db
        else db

    unfoldable pub advance_cursor :
        Text → List PendingUpload → List AcceptedRecord → SyncDb sx → SyncDb sx
    advance_cursor now [] accepted db = db
    advance_cursor now (item ∷ batch) accepted db =
        advance now item.family_id (sort_seqs (map (λ a. a.family_seq) accepted)) db

    -- What the tables hold after an answer.
    unfoldable pub settled : Text → List PendingUpload → PushResponse → SyncDb sx → SyncDb sx
    settled now batch response db = advance_cursor now batch response.accepted (
        handle_conflicts now response.conflicts batch (
          store_versions response.accepted
            (record db { uploads = settle_batch now response batch db.uploads })))

    module _ (sv : Server) where
      abbrev pub with_outcome : Outcome → ℕ → ℕ → Engine sx sv → Outcome × ℕ × ℕ × Engine sx sv
      with_outcome outcome batch_length attempts e = (outcome, batch_length, attempts, e)

      abbrev pub after_failure :
          Text
          → List PendingUpload
          → PushFailure
          → Failure
          → Engine sx sv
          → Outcome × ℕ × ℕ × Engine sx sv
      after_failure now batch f over_quota e = with_outcome terminal (length batch) 0 (record e {
        db = record e.db { uploads = mark_batch_terminal now batch e.db.uploads };
        store = record e.store { last_error = some (text "quota-exceeded") };
      })
      after_failure now batch f rejected e =
          with_outcome terminal (length batch) 0
            (record e { db = record e.db { uploads = mark_batch_terminal now batch e.db.uploads } })
      after_failure now batch f transient e =
          with_outcome error (length batch) (max_attempts 0 batch) (record e {
            db = record e.db { uploads = mark_batch_failed now batch e.db.uploads };
            store = record e.store { last_error = some f.message };
          })

      abbrev pub after_push :
          Text → List PendingUpload → PushResult → Engine sx sv → Outcome × ℕ × ℕ × Engine sx sv
      after_push now batch (failed f) e = after_failure now batch f (failure_of f.status) e
      after_push now batch (answered response) e = with_outcome success (length batch) 0 (record e {
        db = settled now batch response e.db;
        store = record e.store { last_sync_at = some now; last_error = none };
      })

      abbrev pub push_batch :
          Text → List PendingUpload → Engine sx sv → Outcome × ℕ × ℕ × Engine sx sv
      push_batch now [] e = with_outcome empty 0 0 e
      push_batch now (p ∷ ps) e =
          let answer = sv.push_records e.world (map push_record (p ∷ ps)) in
          after_push now (p ∷ ps) answer.0 (record e { world = answer.1 })

      -- The outcome, the batch's length, the most attempts, and the state after.
      unfoldable pub flush_batch_once : Text → Engine sx sv → Outcome × ℕ × ℕ × Engine sx sv
      flush_batch_once now e = push_batch now (next_batch e.db) e
