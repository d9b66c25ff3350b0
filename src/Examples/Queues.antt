-- ===== src/Examples/Queues.antt =====
-- The theorems on `enqueuePush`, on an outbox of two edits.
use expensesapp.Prelude.{◌≡◌, ◌⊎◌, inl, Bool, true, false, none, some, refl, arith, [], ◌∷◌}
use expensesapp.Prelude.Text.{text, text_eq}
use expensesapp.Storage.Keyed.{lookup}
use expensesapp.Sync.Records.{PendingUpload}
use expensesapp.Sync.Tables.{SyncDb}
use expensesapp.Sync.Outbox.Enqueue.{overwrite, queue_upload}
use expensesapp.Sync.Outbox.Queued.{IsQueued, queue_upload-IsQueued, queue_upload-keeps}
use expensesapp.Sync.Outbox.Keys.{IsKeyed}
use expensesapp.Examples.Tables.{sync_dexie}
use expensesapp.Examples.Books.{synced, upload_of}

-- A second edit of the record `a`.
abbrev edit : PendingUpload
edit = record (upload_of 1 (text "a")) { id = none; blob = text "BBBB" }

synced-IsKeyed : IsKeyed sync_dexie synced.uploads
unfolding IsKeyed lookup
synced-IsKeyed k r h = ground (arith, h)

-- The database writes every state.
abbrev never : SyncDb sync_dexie → Bool
never db = false

queue_upload-IsQueued_example :
    (db' : SyncDb sync_dexie) × IsQueued sync_dexie edit db'
    × (((never db' ≡ true) × (queue_upload sync_dexie never edit synced ≡ none))
        ⊎ ((never db' ≡ false) × (queue_upload sync_dexie never edit synced ≡ some db')))
queue_upload-IsQueued_example =
    queue_upload-IsQueued sync_dexie never edit synced refl refl synced-IsKeyed

-- Both rows are edits of `a`, and the first is terminal: the new edit takes the place of the second.
abbrev refused : PendingUpload
refused = record (upload_of 1 (text "a")) { terminal = some true }

abbrev stuck : SyncDb sync_dexie
stuck = record synced {
  uploads = ((1, refused) ∷ (2, upload_of 2 (text "a")) ∷ [], (omega arith, (omega arith, tt)));
}

stuck-IsKeyed : IsKeyed sync_dexie stuck.uploads
unfolding IsKeyed lookup
stuck-IsKeyed k r h = ground (arith, h)

abbrev requeued : SyncDb sync_dexie
requeued = record stuck { uploads = sync_dexie.uploads.update 2 (overwrite edit) stuck.uploads }

queue_upload-keeps_example : sync_dexie.uploads.get 1 requeued.uploads ≡ some refused
unfolding queue_upload lookup text_eq
queue_upload-keeps_example =
    queue_upload-keeps sync_dexie never edit refused stuck requeued 1 refl stuck-IsKeyed refl refl
      (inl refl)
