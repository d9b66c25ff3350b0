-- ===== src/Examples/Cursors.antt =====
-- The round trip of a cursor, over a stand-in for base64: each byte is one character, with three
-- more before the padding.
use expensesapp.Prelude.{
  ℕ, ◌+◌, ◌-◌, ◌≡◌, refl, ap, Option, some, List, [], ◌∷◌, ◌++◌, All, length, leb, if◌then◌else◌,
  arith,
}
use expensesapp.Prelude.Text.{Text}
use expensesapp.Sync.Cursor.{decode_cursor, encode_cursor}
use expensesapp.Sync.Cursor.RoundTrip.{IsDigit, decode_cursor-encode_cursor}

abbrev body_of : List ℕ → Text
body_of [] = 65 ∷ 65 ∷ 65 ∷ []
body_of (b ∷ bytes) = (b + 256) ∷ body_of bytes

abbrev wide_btoa : List ℕ → Text
wide_btoa bytes = body_of bytes ++ 61 ∷ []

abbrev bytes_of : Text → List ℕ
bytes_of [] = []
bytes_of (c ∷ s) = if leb 256 c then (c - 256) ∷ bytes_of s else bytes_of s

abbrev wide_atob : Text → Option (List ℕ)
wide_atob s = some (bytes_of s)

bytes_of-body_of : (bytes : List ℕ) → bytes_of (body_of bytes ++ 61 ∷ []) ≡ bytes
bytes_of-body_of [] = refl
bytes_of-body_of (b ∷ bytes) = ground (arith, bytes_of-body_of bytes, restored)
  where
    restored : b + 256 - 256 ≡ b
    restored = omega arith

length-body_of : (bytes : List ℕ) → length (body_of bytes) ≡ length bytes + 3
length-body_of [] = refl
length-body_of (b ∷ bytes) = omega (arith, length-body_of bytes)

pad_IsDigit : IsDigit 65
pad_IsDigit = (λ h. omega (arith, h), λ h. omega (arith, h), λ h. omega (arith, h))

body_of-IsDigit : (bytes : List ℕ) → All IsDigit (body_of bytes)
body_of-IsDigit [] = (pad_IsDigit, (pad_IsDigit, (pad_IsDigit, tt)))
body_of-IsDigit (b ∷ bytes) =
    ((λ h. omega (arith, h), λ h. omega (arith, h), λ h. omega (arith, h)), body_of-IsDigit bytes)

decode_cursor-encode_cursor_example :
    decode_cursor wide_btoa wide_atob (some (encode_cursor wide_btoa wide_atob 4294967298))
    ≡ 4294967298
decode_cursor-encode_cursor_example =
    decode_cursor-encode_cursor wide_btoa wide_atob
      (λ bytes small. ap some (bytes_of-body_of bytes))
      (λ bytes small n.
        (body_of bytes, refl, omega (arith, n, length-body_of bytes), body_of-IsDigit bytes))
      4294967298 (omega arith)
