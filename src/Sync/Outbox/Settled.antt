-- ===== src/Sync/Outbox/Settled.antt =====
-- What the answer to a push does to the rows that were read for it.
use mathlib.Core.Option
use expensesapp.Prelude.{◌≡◌, ◌⊎◌, ℕ, Option, some, List, [], ◌∷◌}
use expensesapp.Prelude.Text.{Text}
use expensesapp.Sync.Records.{PendingUpload, AcceptedRecord, upload_has_id}
use expensesapp.Sync.Tables.{SyncDexie}

-- One of the accepted records has the identifier.
abbrev pub IsNamed : Text → List AcceptedRecord → Type 0
IsNamed record_id [] = ⊥
IsNamed record_id (a ∷ accepted) = (a.record_id ≡ record_id) ⊎ IsNamed record_id accepted

-- One of the rows has the key.
abbrev pub IsIn : ℕ → List PendingUpload → Type 0
IsIn k [] = ⊥
IsIn k (item ∷ batch) = (item.id ≡ some k) ⊎ IsIn k batch

module _ (sx : SyncDexie) where
  -- Each row is the one that stands under its key.
  abbrev pub AreStored : sx.uploads.Table → List PendingUpload → Type 0
  AreStored t [] = Unit
  AreStored t (item ∷ batch) =
      ((k : ℕ) × (item.id ≡ some k) × (sx.uploads.get k t ≡ some item)) × AreStored t batch
