-- ===== src/Sync/Records.antt =====
-- The rows and messages of the sync engine: src/services/sync/types.ts and the sync tables of
-- src/db/models.ts.
use expensesapp.Prelude.{◌≡◌, refl, ℕ, Bool, Option, some, List, ◌≡◌, true}
use expensesapp.Prelude.Text.{Text}
use expensesapp.Prelude.Fields.{Fields}
use expensesapp.Models.{Account, Budget, Category, Transaction}
use expensesapp.Storage.Keyed.{HasId}

pub data RecordType : Type 0 where
  transaction account category budget settings : RecordType

pub record PendingUpload : Type 0 where
  pub id : Option ℕ
  pub record_id : Text
  pub record_type : RecordType
  pub blob : Text
  pub updated_at_map : Fields Text
  pub deleted_at : Option Text
  pub parent_version : ℕ
  pub plaintext_byte_count : ℕ
  pub attempts : ℕ
  pub last_failed_at : Option Text
  pub family_id : Text
  pub added_by_user_id : Option Text
  pub edited_by_user_id : Option Text
  pub terminal : Option Bool

instance abbrev pub upload_has_id : HasId PendingUpload
upload_has_id = record { id = λ p. p.id; set_id = λ k p. record p { id = some k } }

pub record SyncCursor : Type 0 where
  pub family_id : Text
  pub cursor : Option Text
  pub updated_at : Text

pub record RecordMapping : Type 0 where
  pub record_type : RecordType
  pub local_id : Text
  pub uuid : Text
  pub last_server_version : ℕ
  pub creator_user_id : Text

pub record PushRecord : Type 0 where
  pub record_id : Text
  pub record_type : RecordType
  pub blob : Text
  pub updated_at_map : Fields Text
  pub deleted_at : Option Text
  pub parent_version : ℕ
  pub plaintext_byte_count : ℕ

pub record AcceptedRecord : Type 0 where
  pub record_id : Text
  pub version : ℕ
  pub family_seq : ℕ

pub data ConflictReason : Type 0 where
  version quota : ConflictReason

pub record ConflictRecord : Type 0 where
  pub record_id : Text
  pub current_blob : Text
  pub current_version : ℕ
  pub current_updated_at_map : Fields Text
  pub current_added_by_user : Option Text
  pub current_edited_by_user : Option Text
  pub current_deleted_at : Option Text
  pub reason : Option ConflictReason

pub record PushResponse : Type 0 where
  pub accepted : List AcceptedRecord
  pub conflicts : List ConflictRecord

-- What `pushRecords` throws: the HTTP status, when there was an answer, and the message.
pub record PushFailure : Type 0 where
  pub status : Option ℕ
  pub message : Text

-- The local rows that are sent; a setting by its key and the JSON text of its value.
pub data Payload : Type 0 where
  transaction_row : Transaction → Payload
  account_row : Account → Payload
  category_row : Category → Payload
  budget_row : Budget → Payload
  setting : Text → Text → Payload

pub record RawRecord : Type 0 where
  pub record_id : Text
  pub record_type : RecordType
  pub family_id : Text
  pub added_by_user_id : Text
  pub edited_by_user_id : Text
  pub updated_at_map : Fields Text
  pub deleted_at : Option Text
  pub parent_version : ℕ
  pub payload : Payload

-- The data that the encryption binds to a record.
pub record RecordMeta : Type 0 where
  pub ver_byte : ℕ
  pub family_id : Text
  pub record_id : Text
  pub record_type : RecordType
  pub added_by_user_id : Text
  pub edited_by_user_id : Text
  pub updated_at_map : Fields Text
  pub deleted_at : Text

abbrev pub same_type : RecordType → RecordType → Bool
same_type transaction transaction = Bool.true
same_type account account = Bool.true
same_type category category = Bool.true
same_type budget budget = Bool.true
same_type settings settings = Bool.true
same_type a b = Bool.false

pub same_type_sound : (t u : RecordType) → same_type t u ≡ true → t ≡ u
same_type_sound transaction transaction h = refl
same_type_sound transaction account h = cc
same_type_sound transaction category h = cc
same_type_sound transaction budget h = cc
same_type_sound transaction settings h = cc
same_type_sound account transaction h = cc
same_type_sound account account h = refl
same_type_sound account category h = cc
same_type_sound account budget h = cc
same_type_sound account settings h = cc
same_type_sound category transaction h = cc
same_type_sound category account h = cc
same_type_sound category category h = refl
same_type_sound category budget h = cc
same_type_sound category settings h = cc
same_type_sound budget transaction h = cc
same_type_sound budget account h = cc
same_type_sound budget category h = cc
same_type_sound budget budget h = refl
same_type_sound budget settings h = cc
same_type_sound settings transaction h = cc
same_type_sound settings account h = cc
same_type_sound settings category h = cc
same_type_sound settings budget h = cc
same_type_sound settings settings h = refl
