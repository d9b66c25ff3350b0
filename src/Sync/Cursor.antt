-- ===== src/Sync/Cursor.antt =====
-- src/services/sync/cursor.ts and the base64url helpers of src/services/sync/engine.ts. The
-- platform's `btoa` and `atob` are parameters, on texts of code units below 256.
pub mod RoundTrip
use expensesapp.Prelude.{
  ℕ, zero, suc, ◌+◌, ◌-◌, ◌*◌, ◌/◌, ◌%◌, ◌==◌, Option, none, some, List, [], ◌∷◌, ◌++◌, filter, not,
  map, if◌then◌else◌, length,
}
use expensesapp.Prelude.Text.{Text}
use expensesapp.Sync.Records.{SyncCursor}
use expensesapp.Sync.Tables.{SyncDexie, SyncDb}

-- `s.replace(/c/g, "d")`
abbrev pub replace_all : ℕ → ℕ → Text → Text
replace_all c d s = map (λ x. if x == c then d else x) s

-- `+` is 43, `-` 45, `/` 47, `_` 95 and `=` 61.
unfoldable pub to_url : Text → Text
to_url b64 = filter (λ x. not (x == 61)) (replace_all 47 95 (replace_all 43 45 b64))

-- `"=".repeat(n)`
abbrev pub repeat_pad : ℕ → Text
repeat_pad zero = []
repeat_pad (suc n) = 61 ∷ repeat_pad n

unfoldable pub of_url : Text → Text
of_url s =
    let padded = replace_all 95 47 (replace_all 45 43 s) in
    padded ++ repeat_pad ((4 - length padded % 4) % 4)

-- `setUint32(offset, w, false)`: the word modulo 2^32, high byte first.
unfoldable pub word_bytes : ℕ → List ℕ
word_bytes w = w / 16777216 % 256 ∷ w / 65536 % 256 ∷ w / 256 % 256 ∷ w % 256 ∷ []

unfoldable pub seq_bytes : ℕ → List ℕ
unfolding word_bytes
seq_bytes seq = word_bytes (seq / 4294967296) ++ word_bytes (seq % 4294967296)

-- `getUint32(offset, false)`
unfoldable pub word_of : (a b c d : ℕ) → ℕ
word_of a b c d = a * 16777216 + b * 65536 + c * 256 + d

-- The number of eight bytes, and 0 for any other count.
unfoldable pub bytes_seq : List ℕ → ℕ
unfolding word_of
bytes_seq (a ∷ b ∷ c ∷ d ∷ e ∷ f ∷ g ∷ h ∷ []) = word_of a b c d * 4294967296 + word_of e f g h
bytes_seq bytes = 0

module _ (btoa : List ℕ → Text) (atob : Text → Option (List ℕ)) where
  unfoldable pub to_base64url : List ℕ → Text
  to_base64url bytes = to_url (btoa bytes)

  unfoldable pub from_base64url : Text → Option (List ℕ)
  from_base64url s = atob (of_url s)

  unfoldable pub encode_cursor : ℕ → Text
  unfolding to_base64url
  encode_cursor seq = to_url (btoa (seq_bytes seq))

  abbrev pub decoded : Option (List ℕ) → ℕ
  decoded none = 0
  decoded (some bytes) = bytes_seq bytes

  unfoldable pub decode_cursor : Option Text → ℕ
  decode_cursor none = 0
  decode_cursor (some []) = 0
  decode_cursor (some (c ∷ s)) = decoded (atob (of_url (c ∷ s)))

module _ (sx : SyncDexie) where
  abbrev pub cursor_of : Option SyncCursor → Option Text
  cursor_of none = none
  cursor_of (some row) = row.cursor

  unfoldable pub get_cursor : Text → SyncDb sx → Option Text
  get_cursor family_id db = cursor_of (sx.cursors.get family_id db.cursors)

  unfoldable pub set_cursor : Text → Text → Text → SyncDb sx → SyncDb sx
  set_cursor now family_id cursor db = record db {
    cursors =
        sx.cursors.put (record { family_id = family_id; cursor = some cursor; updated_at = now })
          db.cursors;
  }
