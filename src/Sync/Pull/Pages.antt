-- ===== src/Sync/Pull/Pages.antt =====
-- `pullSince` of src/services/sync/engine.ts: the pages of the server's records, each decrypted,
-- parsed and written in the order of the page.
use expensesapp.Prelude.{ℕ, zero, suc, Bool, true, false, Option, none, some, List, [], ◌∷◌, get_or}
use expensesapp.Prelude.Fields.{Fields}
use expensesapp.Prelude.Text.{Text}
use expensesapp.Sync.Cursor.{encode_cursor, from_base64url, set_cursor}
use expensesapp.Sync.Outbox.{Json, Runtime, SyncStore}
use expensesapp.Sync.Outbox.Conflict.{and_then}
use expensesapp.Sync.Pull.Upsert.{Written, applied, rejected}
use expensesapp.Sync.Pull.Write.{Device, PulledRecord, Reading, write_value}
use expensesapp.Sync.Tables.{SyncDexie}

pub record PullResponse : Type 0 where
  pub records : List PulledRecord
  pub next_cursor : Text
  pub has_more : Bool

-- The data that the encryption binds to a pulled record; the type is the server's text.
pub record PulledMeta : Type 0 where
  pub ver_byte : ℕ
  pub family_id : Text
  pub record_id : Text
  pub record_type : Text
  pub added_by_user_id : Text
  pub edited_by_user_id : Text
  pub updated_at_map : Fields Text
  pub deleted_at : Text

abbrev pub pulled_meta : Text → PulledRecord → PulledMeta
pulled_meta family_id r = record {
  ver_byte = 1;
  family_id = family_id;
  record_id = r.record_id;
  record_type = r.record_type;
  added_by_user_id = r.added_by_user;
  edited_by_user_id = r.edited_by_user;
  updated_at_map = r.updated_at_map;
  deleted_at = get_or r.deleted_at [];
}

-- What `pullRecords` answers from a cursor: a page, or the message of what it throws; the crypto
-- worker's decryption of a pulled blob; and the message of `JSON.parse` on a text that is no JSON.
pub data PullAnswer : Type 0 where
  page : PullResponse → PullAnswer
  thrown : Text → PullAnswer

pub record PullServer : Type 1 where
  pub World : Type 0
  pub pull_records : World → Option Text → PullAnswer × World
  pub decrypt : List ℕ → PulledMeta → Option (List ℕ)
  pub syntax_error : Text

-- How a loop over pages or records ends: at its end, at a record that could not be decrypted or
-- written, or with an exception of a blob that decrypts to no JSON text.
pub data Ending : Type 0 where
  complete stopped : Ending
  threw : Text → Ending

module _ (sx : SyncDexie) {V : Type 0} (rt : Runtime V) (rd : Reading V) (sv : PullServer)
    (now family_id : Text) where
  -- The blob of a record in the clear.
  unfoldable pub decrypted_blob : PulledRecord → Option (List ℕ)
  decrypted_blob r =
      and_then (from_base64url rt.btoa rt.atob r.blob)
        λ bytes. sv.decrypt bytes (pulled_meta family_id r)

  -- The cursor in the loop's variable and the tables.
  abbrev pub Progress : Type 0
  Progress = Option Text × Device sx

  unfoldable pub advance_to : Text → Device sx → Progress
  advance_to cursor d = (some cursor, record d { db = set_cursor sx now family_id cursor d.db })

  -- One round of the loop over a page: `stopped` where the round breaks the loop.
  abbrev pub after_write : PulledRecord → Option Text → Written (Device sx) → Ending × Progress
  after_write r cursor (rejected d) = (stopped, (cursor, d))
  after_write r cursor (applied d) =
      (complete, advance_to (encode_cursor rt.btoa rt.atob r.family_seq) d)

  abbrev pub after_parse : PulledRecord → Progress → Option (Json V) → Ending × Progress
  after_parse r (cursor, d) none = (threw sv.syntax_error, (cursor, d))
  after_parse r (cursor, d) (some value) = after_write r cursor (write_value sx rt rd now value r d)

  abbrev pub after_decrypt : PulledRecord → Progress → Option (List ℕ) → Ending × Progress
  after_decrypt r p none = (stopped, p)
  after_decrypt r p (some bytes) = after_parse r p (rt.parse_json bytes)

  unfoldable pub apply_record : PulledRecord → Progress → Ending × Progress
  apply_record r p = after_decrypt r p (decrypted_blob r)

  -- The rest of the page is passed over once a record fails; its loop is run on the state that the
  -- round has left.
  abbrev pub unless_ended : Ending × Progress → (Progress → Ending × Progress) → Ending × Progress
  unless_ended (complete, p) rest = rest p
  unless_ended (stopped, p) rest = (stopped, p)
  unless_ended (threw e, p) rest = (threw e, p)

  unfoldable pub apply_records : List PulledRecord → Progress → Ending × Progress
  apply_records [] p = (complete, p)
  apply_records (r ∷ rs) p = unless_ended (apply_record r p) (apply_records rs)

  -- What `pullSince` comes to: the last page, or a message. `none` is the end of the fuel.
  abbrev pub Outcome : Type 0
  Outcome = Option (PullAnswer × Progress × sv.World)

  abbrev pub after_page :
      PullResponse → sv.World → (Progress → sv.World → Outcome) → Ending × Progress → Outcome
  after_page response w again (threw e, p) = some (thrown e, p, w)
  after_page response w again (stopped, p) = some (page response, p, w)
  after_page response w again (complete, (cursor, d)) = elim response.has_more [
    | false ↦ some (page response, advance_to response.next_cursor d, w)
    | true ↦ again (some response.next_cursor, d) w
  ]

  abbrev pub after_answer :
      Progress → (Progress → sv.World → Outcome) → PullAnswer × sv.World → Outcome
  after_answer p again (thrown e, w) = some (thrown e, p, w)
  after_answer p again (page response, w) =
      after_page response w again (apply_records response.records p)

  -- The endless loop over the pages, on fuel.
  unfoldable pub pull_loop : ℕ → Progress → sv.World → Outcome
  pull_loop zero p w = none
  pull_loop (suc n) p w = after_answer p (pull_loop n) (sv.pull_records w p.0)

  -- `useSyncStore` around the loop: `setIsSyncing`, `setLastSyncAt`, `setLastError`.
  abbrev pub syncing : SyncStore → SyncStore
  syncing s = record s { is_syncing = true }

  abbrev pub pulled_store : PullAnswer → SyncStore → SyncStore
  pulled_store (page response) s = record s {
    is_syncing = false;
    last_sync_at = some now;
    last_error = none;
  }
  pulled_store (thrown e) s = record s { is_syncing = false; last_error = some e }

  abbrev pub finish_pull :
      SyncStore → Outcome → Option (PullAnswer × Device sx × SyncStore × sv.World)
  finish_pull s none = none
  finish_pull s (some (answer, (cursor, d), w)) = some (answer, d, pulled_store answer s, w)

  unfoldable pub pull_since :
      (fuel : ℕ)
      → Option Text
      → Device sx
      → SyncStore
      → sv.World
      → Option (PullAnswer × Device sx × SyncStore × sv.World)
  pull_since fuel cursor d s w = finish_pull (syncing s) (pull_loop fuel (cursor, d) w)
