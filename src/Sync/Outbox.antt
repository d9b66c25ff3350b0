-- ===== src/Sync/Outbox.antt =====
-- src/services/sync/engine.ts: the state of the push engine, the platform it runs on, the write of
-- a record to the outbox and the delay before a retry.
pub mod Enqueue
pub mod Conflict
pub mod Batch
pub mod Flush
pub mod Kept
pub mod Settled
pub mod Backoff
pub mod Queued
pub mod Keys
pub mod Contiguous
use expensesapp.Prelude.{
  ℕ, Bool, ◌-◌, ◌*◌, ◌^◌, Option, none, some, List, get_or, if◌then◌else◌, leb, [],
}
use expensesapp.Prelude.Int.{ℤ}
use expensesapp.Prelude.Text.{Text}
use expensesapp.Prelude.Fields.{Fields}
use expensesapp.Sync.Records.{
  Payload, PendingUpload, PushRecord, PushResponse, PushFailure, RawRecord, RecordMeta,
}
use expensesapp.Sync.Tables.{SyncDexie, SyncDb}

-- A parsed JSON text: an object, null, or another value, none of whose fields the code finds.
pub data Json (V : Type 0) : Type 0 where
  object : Fields V → Json V
  null scalar : Json V

-- The platform: the crypto worker, whose calls reject (`none`) on a missing key or a bad
-- ciphertext; JSON with the text codecs; base64; the clock's parser; `Number` of a text, without a
-- value for NaN and for what is no key. `V` is the type of the values of parsed JSON.
pub record Runtime (V : Type 0) : Type 0 where
  pub encrypt : List ℕ → RecordMeta → Option (List ℕ × ℕ)
  pub decrypt : List ℕ → RecordMeta → Option (List ℕ)
  pub payload_bytes : Payload → List ℕ
  pub json_bytes : Fields V → List ℕ
  pub parse_json : List ℕ → Option (Json V)
  pub btoa : List ℕ → Text
  pub atob : Text → Option (List ℕ)
  pub get_time : Text → Option ℤ
  pub undefined : V
  pub number : Text → Option ℕ
  pub string : ℕ → Text

-- `useSyncStore`
pub record SyncStore : Type 0 where
  pub is_syncing : Bool
  pub last_error : Option Text
  pub last_sync_at : Option Text

pub data PushResult : Type 0 where
  answered : PushResponse → PushResult
  failed : PushFailure → PushResult

-- The server as the client sees it: what a push answers, and the server after it.
pub record Server : Type 1 where
  pub World : Type 0
  pub push_records : World → List PushRecord → PushResult × World

-- The module's variables with the tables, the store and the server. `retry_delay` is the delay, in
-- milliseconds, of the timer that is set.
pub record Engine (sx : SyncDexie) (sv : Server) : Type 0 where
  pub db : SyncDb sx
  pub world : sv.World
  pub store : SyncStore
  pub flush_in_progress : Bool
  pub pending_flush_requested : Bool
  pub retry_delay : Option ℕ

abbrev pub push_batch_size : ℕ
push_batch_size = 50

abbrev pub retry_base_ms : ℕ
retry_base_ms = 2000

abbrev pub retry_max_ms : ℕ
retry_max_ms = 300000

-- `Math.min(RETRY_BASE_MS * 2 ** Math.max(0, attempts - 1), RETRY_MAX_MS)`
unfoldable pub retry_delay_ms : ℕ → ℕ
retry_delay_ms attempts =
    let delay = retry_base_ms * 2 ^ (attempts - 1) in
    if leb delay retry_max_ms then delay else retry_max_ms

module _ {sx : SyncDexie} {sv : Server} where
  abbrev pub clear_scheduled_retry : Engine sx sv → Engine sx sv
  clear_scheduled_retry e = record e { retry_delay = none }

  abbrev pub schedule_retry : ℕ → Engine sx sv → Engine sx sv
  schedule_retry attempts e = record e { retry_delay = some (retry_delay_ms attempts) }

unfoldable pub build_record_meta : RawRecord → Fields Text → RecordMeta
build_record_meta r updated_at_map = record {
  ver_byte = 1;
  family_id = r.family_id;
  record_id = r.record_id;
  record_type = r.record_type;
  added_by_user_id = r.added_by_user_id;
  edited_by_user_id = r.edited_by_user_id;
  updated_at_map = updated_at_map;
  deleted_at = get_or r.deleted_at [];
}

-- `p.terminal` as a condition
abbrev pub is_terminal : PendingUpload → Bool
is_terminal p = get_or p.terminal Bool.false
