-- ===== src/Sync/Pull/Prefix.antt =====
-- What a page of pulled records comes to, in `pullSince` of src/services/sync/engine.ts: the records
-- that were applied and where the cursor stands.
use expensesapp.Prelude.{ℕ, ◌≡◌, refl, ap, ◌∙◌, Option, none, some, List, [], ◌∷◌, ◌++◌}
use expensesapp.Prelude.Text.{Text, text_eq_refl}
use expensesapp.Sync.Cursor.{encode_cursor, get_cursor, set_cursor}
use expensesapp.Sync.Outbox.{Runtime, Json, object, null, scalar}
use expensesapp.Sync.Pull.KeptCursors.{write_decrypted_record-cursors}
use expensesapp.Sync.Pull.Pages.{
  Ending, Progress, PullServer, complete, stopped, threw, apply_record, apply_records, advance_to,
  after_decrypt, after_parse, after_write, decrypted_blob, unless_ended,
}
use expensesapp.Sync.Pull.Upsert.{Written, applied, rejected, state_of}
use expensesapp.Sync.Pull.Write.{
  Device, PulledRecord, Reading, write_decrypted_record, write_value, write_null, reads_nothing,
  type_of,
}
use expensesapp.Sync.Records.{RecordType, transaction, account, category, budget, settings}
use expensesapp.Sync.Tables.{SyncDexie, SyncDb}

module _ (sx : SyncDexie) {V : Type 0} (rt : Runtime V) (rd : Reading V) (sv : PullServer)
    (now family_id : Text) where
  abbrev Step : Type 0
  Step = Ending × Progress sx rt rd sv now family_id

  -- A record is decrypted, parsed and written, and the cursor moves to it.
  pub data Applies
      : PulledRecord
        → Progress sx rt rd sv now family_id
        → Progress sx rt rd sv now family_id
        → Type 0 where
    applies :
        {r : PulledRecord} {c : Option Text} {d d' : Device sx} (bytes : List ℕ) (value : Json V)
        → decrypted_blob sx rt rd sv now family_id r ≡ some bytes
        → rt.parse_json bytes ≡ some value
        → write_value sx rt rd now value r d ≡ applied d'
        → Applies r
            (c, d)
            (advance_to sx rt rd sv now family_id (encode_cursor rt.btoa rt.atob r.family_seq) d')

  -- A record cannot be decrypted, is no JSON text, or cannot be written.
  pub data Fails
      : PulledRecord
        → Progress sx rt rd sv now family_id
        → Ending × Progress sx rt rd sv now family_id
        → Type 0 where
    undecryptable :
        {r : PulledRecord} {p : Progress sx rt rd sv now family_id}
        → decrypted_blob sx rt rd sv now family_id r ≡ none
        → Fails r p (stopped, p)
    unparsable :
        {r : PulledRecord} {p : Progress sx rt rd sv now family_id} (bytes : List ℕ)
        → decrypted_blob sx rt rd sv now family_id r ≡ some bytes
        → rt.parse_json bytes ≡ none
        → Fails r p (threw sv.syntax_error, p)
    unwritable :
        {r : PulledRecord} {c : Option Text} {d d' : Device sx} (bytes : List ℕ) (value : Json V)
        → decrypted_blob sx rt rd sv now family_id r ≡ some bytes
        → rt.parse_json bytes ≡ some value
        → write_value sx rt rd now value r d ≡ rejected d'
        → Fails r (c, d) (stopped, (c, d'))

  -- The records of a list are applied one after the other.
  pub data Run
      : List PulledRecord
        → Progress sx rt rd sv now family_id
        → Progress sx rt rd sv now family_id
        → Type 0 where
    none_left : {p : Progress sx rt rd sv now family_id} → Run [] p p
    one_more :
        {r : PulledRecord} {rs : List PulledRecord} {p q s : Progress sx rt rd sv now family_id}
        → Applies r p q
        → Run rs q s
        → Run (r ∷ rs) p s

  -- There is no record left, or the next one fails.
  pub data Ends
      : List PulledRecord
        → Progress sx rt rd sv now family_id
        → Ending × Progress sx rt rd sv now family_id
        → Type 0 where
    at_end : {p : Progress sx rt rd sv now family_id} → Ends [] p (complete, p)
    at_failure :
        {r : PulledRecord} {rs : List PulledRecord} {p : Progress sx rt rd sv now family_id}
        {s : Ending × Progress sx rt rd sv now family_id}
        → Fails r p s
        → Ends (r ∷ rs) p s

  -- What a round comes to.
  Comes : PulledRecord → Progress sx rt rd sv now family_id → Step → Type 0
  Comes r p (complete, q) = Applies r p q
  Comes r p (stopped, q) = Fails r p (stopped, q)
  Comes r p (threw e, q) = Fails r p (threw e, q)

  apply_record-Comes :
      (r : PulledRecord) (p : Progress sx rt rd sv now family_id)
      → Comes r p (apply_record sx rt rd sv now family_id r p)
  unfolding apply_record Comes
  apply_record-Comes r (c, d) = decrypted (decrypted_blob sx rt rd sv now family_id r) refl
    where
      written :
          (bytes : List ℕ) (value : Json V) (w : Written (Device sx))
          → decrypted_blob sx rt rd sv now family_id r ≡ some bytes
          → rt.parse_json bytes ≡ some value
          → write_value sx rt rd now value r d ≡ w
          → Comes r (c, d) (after_write sx rt rd sv now family_id r c w)
      written bytes value (applied d') e f g = applies bytes value e f g
      written bytes value (rejected d') e f g = unwritable bytes value e f g

      parsed :
          (bytes : List ℕ) (o : Option (Json V))
          → decrypted_blob sx rt rd sv now family_id r ≡ some bytes
          → rt.parse_json bytes ≡ o
          → Comes r (c, d) (after_parse sx rt rd sv now family_id r (c, d) o)
      parsed bytes none e f = unparsable bytes e f
      parsed bytes (some value) e f =
          written bytes value (write_value sx rt rd now value r d) e f refl

      decrypted :
          (o : Option (List ℕ))
          → decrypted_blob sx rt rd sv now family_id r ≡ o
          → Comes r (c, d) (after_decrypt sx rt rd sv now family_id r (c, d) o)
      decrypted none e = undecryptable e
      decrypted (some bytes) e = parsed bytes (rt.parse_json bytes) e refl

  -- The stored cursor.
  unfoldable pub stored : Progress sx rt rd sv now family_id → Option Text
  stored (cursor, d) = get_cursor sx family_id d.db

  -- The cursor of the last record of a list, or the one before it.
  abbrev pub cursor_after : Option Text → List PulledRecord → Option Text
  cursor_after before [] = before
  cursor_after before (r ∷ rs) = cursor_after (some (encode_cursor rt.btoa rt.atob r.family_seq)) rs

  -- What a round does to the stored cursor.
  Moved : PulledRecord → Progress sx rt rd sv now family_id → Step → Type 0
  Moved r p (complete, q) = stored q ≡ some (encode_cursor rt.btoa rt.atob r.family_seq)
  Moved r p (stopped, q) = stored q ≡ stored p
  Moved r p (threw e, q) = stored q ≡ stored p

  get_cursor-set_cursor :
      (cursor : Text) (db : SyncDb sx)
      → get_cursor sx family_id (set_cursor sx now family_id cursor db) ≡ some cursor
  unfolding get_cursor set_cursor
  get_cursor-set_cursor cursor db = rw (sx.cursors.get-put, text_eq_refl family_id) refl

  same_cursors :
      (db db' : SyncDb sx)
      → db'.cursors ≡ db.cursors
      → get_cursor sx family_id db' ≡ get_cursor sx family_id db
  unfolding get_cursor
  same_cursors db db' e = rw e refl

  write_value-cursors :
      (value : Json V) (r : PulledRecord) (d : Device sx)
      → (state_of (write_value sx rt rd now value r d)).db.cursors ≡ d.db.cursors
  unfolding write_value
  write_value-cursors (object payload) r d = write_decrypted_record-cursors sx rt now rd payload r d
  write_value-cursors scalar r d =
      write_decrypted_record-cursors sx rt now (reads_nothing rd) [] r d
  write_value-cursors null r d = of_type (type_of r.record_type)
    where
      unread :
          (state_of (write_decrypted_record sx rt (reads_nothing rd) now [] r d)).db.cursors
          ≡ d.db.cursors
      unread = write_decrypted_record-cursors sx rt now (reads_nothing rd) [] r d

      of_type :
          (t : Option RecordType)
          → (state_of (write_null sx rt rd now t r d)).db.cursors ≡ d.db.cursors
      of_type none = unread
      of_type (some settings) = refl
      of_type (some transaction) = unread
      of_type (some account) = unread
      of_type (some category) = unread
      of_type (some budget) = unread

  apply_record-Moved :
      (r : PulledRecord) (p : Progress sx rt rd sv now family_id)
      → Moved r p (apply_record sx rt rd sv now family_id r p)
  unfolding apply_record Moved stored advance_to
  apply_record-Moved r (cursor, d) = decrypted (decrypted_blob sx rt rd sv now family_id r)
    where
      written :
          (w : Written (Device sx))
          → (state_of w).db.cursors ≡ d.db.cursors
          → Moved r (cursor, d) (after_write sx rt rd sv now family_id r cursor w)
      written (applied d') kept =
          get_cursor-set_cursor (encode_cursor rt.btoa rt.atob r.family_seq) d'.db
      written (rejected d') kept = same_cursors d.db d'.db kept

      parsed :
          (o : Option (Json V))
          → Moved r (cursor, d) (after_parse sx rt rd sv now family_id r (cursor, d) o)
      parsed none = refl
      parsed (some value) =
          written (write_value sx rt rd now value r d) (write_value-cursors value r d)

      decrypted :
          (o : Option (List ℕ))
          → Moved r (cursor, d) (after_decrypt sx rt rd sv now family_id r (cursor, d) o)
      decrypted none = refl
      decrypted (some bytes) = parsed (rt.parse_json bytes)

  -- The records `rs` came to `s` from `p`: those of a first part were applied, and there the page
  -- ended or the next record failed; the stored cursor is that of the last record applied, or as it
  -- was where none was.
  pub IsPrefix : List PulledRecord → Progress sx rt rd sv now family_id → Step → Type 0
  IsPrefix rs p s =
      (done : List PulledRecord) × (rest : List PulledRecord) × (q : Progress sx rt rd sv now
        family_id)
      × (rs ≡ done ++ rest)
      × Run done p q
      × Ends rest q s
      × (stored s.1 ≡ cursor_after (stored p) done)

  -- A page is applied record by record up to its end or to the first record that cannot be
  -- decrypted, parsed or written, and the stored cursor is then that of the last record applied, or
  -- as it was where none was.
  pub apply_records-IsPrefix :
      (rs : List PulledRecord) (p : Progress sx rt rd sv now family_id)
      → IsPrefix rs p (apply_records sx rt rd sv now family_id rs p)
  unfolding apply_records Moved IsPrefix Comes
  apply_records-IsPrefix [] p = ([], [], p, refl, none_left, at_end, refl)
  apply_records-IsPrefix (r ∷ rs) p =
      split (apply_record sx rt rd sv now family_id r p) (apply_record-Comes r p)
        (apply_record-Moved r p) (apply_records-IsPrefix rs)
    where
      split :
          (s : Step)
          → Comes r p s
          → Moved r p s
          → ((m : Progress sx rt rd sv now family_id)
              → IsPrefix rs m (apply_records sx rt rd sv now family_id rs m))
          → IsPrefix (r ∷ rs) p (
              unless_ended sx rt rd sv now family_id s (apply_records sx rt rd sv now family_id rs))
      split (complete, m) comes moved again =
          let (done, rest, q, parts, run, ends, cursor) = again m in
          (
            r ∷ done,
            rest,
            q,
            ap (λ (l : List PulledRecord). r ∷ l) parts,
            one_more comes run,
            ends,
            cursor ∙ ap (λ (c : Option Text). cursor_after c done) moved,
          )
      split (stopped, q) fails moved again =
          ([], r ∷ rs, p, refl, none_left, at_failure fails, moved)
      split (threw x, q) fails moved again =
          ([], r ∷ rs, p, refl, none_left, at_failure fails, moved)
