-- ===== src/Sync/PushHelpers.antt =====
-- src/services/sync/push-helpers.ts: the record that each local write queues. A write that no
-- family or no user is known for queues nothing, and an error of the queue is swallowed.
use expensesapp.Prelude.{ℕ, Bool, Option, none, some, [], ◌∷◌, if◌then◌else◌, get_or}
use expensesapp.Prelude.Text.{Text, text, text_eq}
use expensesapp.Models.{Account, Budget, Category, Transaction}
use expensesapp.Sync.Identity.{get_or_create_mapping_for_push}
use expensesapp.Sync.Merge.{all_key}
use expensesapp.Sync.Outbox.{Runtime}
use expensesapp.Sync.Outbox.Enqueue.{enqueue_push}
use expensesapp.Sync.Records.{
  Payload, transaction_row, account_row, category_row, budget_row, setting, RawRecord,
  RecordMapping, RecordType, transaction, account, category, budget, settings, SyncCursor,
}
use expensesapp.Sync.Tables.{SyncDexie, SyncDb}

pub record PushContext : Type 0 where
  pub family_id : Text
  pub user_id : Text

-- A text that is missing or empty stops the push.
abbrev pub context_of : Option Text → Option Text → Option PushContext
context_of (some (c ∷ f)) (some (d ∷ u)) = some (record { family_id = c ∷ f; user_id = d ∷ u })
context_of f u = none

abbrev pub family_of : Option SyncCursor → Option Text → Option Text
family_of none fallback = fallback
family_of (some row) fallback = if text_eq row.family_id [] then fallback else some row.family_id

abbrev pub is_synced_key : Text → Bool
is_synced_key key = text_eq key (text "mainCurrency")

-- The record of a write, with the identity that its mapping gives it.
abbrev pub raw_record :
    PushContext → RecordMapping → RecordType → Text → Option Text → Payload → RawRecord
raw_record ctx m type now deleted_at payload = record {
  record_id = m.uuid;
  record_type = type;
  family_id = ctx.family_id;
  added_by_user_id = m.creator_user_id;
  edited_by_user_id = ctx.user_id;
  updated_at_map = (all_key, now) ∷ [];
  deleted_at = deleted_at;
  parent_version = m.last_server_version;
  payload = payload;
}

-- The session is the auth store's family and user; `new_uuid` is the next `newUUID()`.
pub record Session : Type 0 where
  pub family : Option Text
  pub user : Option Text
  pub new_uuid : Text
  pub now : Text

module _ (sx : SyncDexie) {V : Type 0} (rt : Runtime V) (refuses : SyncDb sx → Bool)
    (session : Session) where
  unfoldable pub get_local_family_id : SyncDb sx → Option Text
  get_local_family_id db = family_of (sx.cursors.first db.cursors) session.family

  unfoldable pub push_context : SyncDb sx → Option PushContext
  push_context db = context_of (get_local_family_id db) session.user

  unfoldable pub safe_enqueue : RawRecord → SyncDb sx → SyncDb sx
  safe_enqueue r db = get_or (enqueue_push sx rt refuses r db) db

  -- `none` is Dexie's refusal of a new mapping, which the callers do not catch.
  abbrev pub push_mapped :
      PushContext
      → RecordType
      → Option Text
      → Payload
      → Option (RecordMapping × SyncDb sx)
      → Option (SyncDb sx)
  push_mapped ctx type deleted_at payload none = none
  push_mapped ctx type deleted_at payload (some (m, db)) =
      some (safe_enqueue (raw_record ctx m type session.now deleted_at payload) db)

  abbrev pub push_in :
      Option PushContext
      → RecordType
      → Text
      → Option Text
      → Payload
      → SyncDb sx
      → Option (SyncDb sx)
  push_in none type local_id deleted_at payload db = some db
  push_in (some ctx) type local_id deleted_at payload db =
      push_mapped ctx type deleted_at payload
        (get_or_create_mapping_for_push sx type local_id session.new_uuid ctx.user_id db)

  abbrev pub push_row :
      RecordType → Option ℕ → Option Text → Payload → SyncDb sx → Option (SyncDb sx)
  push_row type none deleted_at payload db = some db
  push_row type (some k) deleted_at payload db =
      push_in (push_context db) type (rt.string k) deleted_at payload db

  abbrev pub trashed_at : Bool → Option Text
  trashed_at is_trashed = if is_trashed then some session.now else none

  unfoldable pub push_transaction : Transaction → SyncDb sx → Option (SyncDb sx)
  push_transaction tx db = push_row transaction tx.id none (transaction_row tx) db

  unfoldable pub push_transaction_tombstone : Transaction → SyncDb sx → Option (SyncDb sx)
  push_transaction_tombstone tx db =
      push_row transaction tx.id (some session.now)
        (transaction_row (record tx { is_trashed = some Bool.true })) db

  unfoldable pub push_account : Account → SyncDb sx → Option (SyncDb sx)
  push_account a db = push_row account a.id (trashed_at a.is_trashed) (account_row a) db

  unfoldable pub push_category : Category → SyncDb sx → Option (SyncDb sx)
  push_category c db = push_row category c.id (trashed_at c.is_trashed) (category_row c) db

  unfoldable pub push_budget : Budget → SyncDb sx → Option (SyncDb sx)
  push_budget b db = push_row budget b.id none (budget_row b) db

  -- `value` is the JSON text of the setting's value.
  unfoldable pub push_setting : Text → Text → SyncDb sx → Option (SyncDb sx)
  push_setting key value db =
      if is_synced_key key
      then push_in (push_context db) settings key none (setting key value) db
      else some db
