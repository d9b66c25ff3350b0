-- ===== src/Sync/Outbox/Keys.antt =====
-- What IndexedDB sees to: each row of the outbox holds its own key.
use expensesapp.Prelude.{ℕ, ◌≡◌, some}
use expensesapp.Sync.Records.{PendingUpload, upload_has_id}
use expensesapp.Sync.Tables.{SyncDexie}

module _ (sx : SyncDexie) where
  unfoldable pub IsKeyed : sx.uploads.Table → Type 0
  IsKeyed t = (k : ℕ) (r : PendingUpload) → sx.uploads.get k t ≡ some r → r.id ≡ some k
