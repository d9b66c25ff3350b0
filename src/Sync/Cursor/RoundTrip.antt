-- ===== src/Sync/Cursor/RoundTrip.antt =====
-- A cursor is read back as the number it was written from.
use expensesapp.Prelude.{
  ℕ, ◌<◌, ◌≡◌, ◌≢◌, ◌∙◌, sym, ap, refl, ◌/◌, ◌%◌, ◌==◌, not, true, Option, some, List, [], ◌∷◌,
  ◌++◌, map, All, length, arith, if◌then◌else◌,
}
use expensesapp.Prelude.Text.{Text}
use expensesapp.Sync.Cursor.{
  seq_bytes, bytes_seq, word_bytes, word_of, to_url, of_url, replace_all, decode_cursor,
  encode_cursor, decoded,
}

word_of-bytes :
    (w : ℕ)
    → w < 4294967296
    → word_of (w / 16777216 % 256) (w / 65536 % 256) (w / 256 % 256) (w % 256) ≡ w
unfolding word_of
word_of-bytes w h = omega arith

-- A sequence number below 2^64 is the number of the eight bytes that a cursor writes for it.
bytes_seq-seq_bytes : (seq : ℕ) → seq < 18446744073709551616 → bytes_seq (seq_bytes seq) ≡ seq
unfolding bytes_seq seq_bytes word_bytes
bytes_seq-seq_bytes seq h = omega (
  arith,
  word_of-bytes (seq / 4294967296) (omega arith),
  word_of-bytes (seq % 4294967296) (omega arith),
)

-- A character of base64 that is neither the padding nor one of the two that base64url adds.
abbrev pub IsDigit : ℕ → Type 0
IsDigit c = (c ≢ 45) × (c ≢ 61) × (c ≢ 95)

-- One character in base64url, and back.
abbrev url_digit : ℕ → ℕ
url_digit c = let d = if c == 43 then 45 else c in if d == 47 then 95 else d

abbrev plain_digit : ℕ → ℕ
plain_digit c = let d = if c == 45 then 43 else c in if d == 95 then 47 else d

plain_digit-url_digit : (c : ℕ) → IsDigit c → plain_digit (url_digit c) ≡ c
plain_digit-url_digit c h = ground (arith, h.0, h.1, h.2)

url_digit-ne : (c : ℕ) → IsDigit c → not (url_digit c == 61) ≡ true
url_digit-ne c h = ground (arith, h.0, h.1, h.2)

to_url-digits : (body : Text) → All IsDigit body → to_url (body ++ 61 ∷ []) ≡ map url_digit body
unfolding to_url
to_url-digits [] h = refl
to_url-digits (c ∷ body) h =
    rw (url_digit-ne c h.0) (ap (λ s. url_digit c ∷ s) (to_url-digits body h.1))

plain_digits :
    (body : Text)
    → All IsDigit body
    → replace_all 95 47 (replace_all 45 43 (map url_digit body)) ≡ body
plain_digits [] h = refl
plain_digits (c ∷ body) h = rw (plain_digit-url_digit c h.0, plain_digits body h.1) refl

length-digits :
    (body : Text)
    → length (replace_all 95 47 (replace_all 45 43 (map url_digit body))) ≡ length body
length-digits [] = refl
length-digits (c ∷ body) = omega (arith, length-digits body)

of_url-digits :
    (body : Text)
    → All IsDigit body
    → length body ≡ 11
    → of_url (map url_digit body) ≡ body ++ 61 ∷ []
unfolding of_url
of_url-digits body h n = rw (plain_digits body h, n) refl

seq_bytes-small : (seq : ℕ) → All (λ b. b < 256) (seq_bytes seq)
unfolding seq_bytes word_bytes
seq_bytes-small seq = (
  omega arith,
  (
    omega arith,
    (omega arith, (omega arith, (omega arith, (omega arith, (omega arith, (omega arith, tt)))))),
  ),
)

length-seq_bytes : (seq : ℕ) → length (seq_bytes seq) ≡ 8
unfolding seq_bytes word_bytes
length-seq_bytes seq = refl

module _ (btoa : List ℕ → Text) (atob : Text → Option (List ℕ))
    (atob-btoa : (bytes : List ℕ) → All (λ b. b < 256) bytes → atob (btoa bytes) ≡ some bytes)
    (btoa-eight : (bytes : List ℕ)
      → All (λ b. b < 256) bytes
      → length bytes ≡ 8
      → (body : Text) × (btoa bytes ≡ body ++ 61 ∷ [])
        × (length body ≡ 11)
        × All IsDigit body) where
  decode_url :
      (body : Text) (bytes : List ℕ)
      → All IsDigit body
      → length body ≡ 11
      → atob (body ++ 61 ∷ []) ≡ some bytes
      → decode_cursor btoa atob (some (map url_digit body)) ≡ bytes_seq bytes
  unfolding decode_cursor
  decode_url [] bytes h n e = absurd (omega (arith, n))
  decode_url (c ∷ body) bytes h n e =
      ap (decoded btoa atob) (ap atob (of_url-digits (c ∷ body) h n) ∙ e)

  -- A cursor that was written for a sequence number below 2^64 is read back as that number, when
  -- `atob` takes back what `btoa` writes, and `btoa` writes eight bytes as eleven characters of the
  -- base64 alphabet and one of padding.
  pub decode_cursor-encode_cursor :
      (seq : ℕ)
      → seq < 18446744073709551616
      → decode_cursor btoa atob (some (encode_cursor btoa atob seq)) ≡ seq
  unfolding encode_cursor
  decode_cursor-encode_cursor seq h =
      let small = seq_bytes-small seq in
      let shape = btoa-eight (seq_bytes seq) small (length-seq_bytes seq) in
      ap (λ (s : Text). decode_cursor btoa atob (some s))
        (ap to_url shape.1 ∙ to_url-digits shape.0 shape.3)
      ∙ decode_url shape.0 (seq_bytes seq) shape.3 shape.2
          (ap atob (sym shape.1) ∙ atob-btoa (seq_bytes seq) small)
      ∙ bytes_seq-seq_bytes seq h
