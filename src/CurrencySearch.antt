-- ===== src/CurrencySearch.antt =====
-- src/utils/currency-search.ts: the search for a currency by its code, name or alias, which allows
-- one slip in a word. `lower` is JavaScript's `toLowerCase`, `trim` its `trim`.
pub mod OneEdit
pub mod Found
use expensesapp.Prelude.{
  ℕ, suc, Bool, true, false, ◌&&◌, ◌||◌, ◌==◌, ◌+◌, if◌then◌else◌, List, [], ◌∷◌, ◌++◌, map, any,
  filter, length, leb, ltb, get_or,
}
use expensesapp.Prelude.Fields.{Fields, field_get}
use expensesapp.Prelude.Text.{Text, text, text_eq}
use expensesapp.Validation.{is_space}

-- `CURRENCY_ALIASES`
abbrev pub currency_aliases : Fields (List Text)
currency_aliases =
    (text "PLN", text "zl" ∷ text "zł" ∷ text "zloty" ∷ [])
    ∷ (text "HUF", text "ft" ∷ text "forint" ∷ [])
    ∷ (text "CZK", text "kc" ∷ text "kč" ∷ text "koruna" ∷ [])
    ∷ (text "RON", text "lei" ∷ text "leu" ∷ [])
    ∷ (text "BGN", text "lev" ∷ text "lv" ∷ [])
    ∷ (text "HRK", text "kn" ∷ text "kuna" ∷ [])
    ∷ (text "RSD", text "din" ∷ text "dinar" ∷ [])
    ∷ (text "UAH", text "hrn" ∷ text "hryvnia" ∷ text "hryvna" ∷ [])
    ∷ (text "KZT", text "tenge" ∷ [])
    ∷ (text "GEL", text "lari" ∷ [])
    ∷ (text "AMD", text "dram" ∷ [])
    ∷ (text "AZN", text "manat" ∷ [])
    ∷ (text "BYN", text "ruble" ∷ text "rubel" ∷ [])
    ∷ (text "MDL", text "leu" ∷ [])
    ∷ (text "ALL", text "lek" ∷ [])
    ∷ (text "MKD", text "denar" ∷ [])
    ∷ (text "BAM", text "mark" ∷ text "marka" ∷ [])
    ∷ (text "CHF", text "franc" ∷ text "franken" ∷ [])
    ∷ (text "SEK", text "kr" ∷ text "krona" ∷ [])
    ∷ (text "NOK", text "kr" ∷ text "krone" ∷ [])
    ∷ (text "DKK", text "kr" ∷ text "krone" ∷ [])
    ∷ (text "ISK", text "kr" ∷ text "krona" ∷ [])
    ∷ (text "GBP", text "pound" ∷ text "quid" ∷ text "sterling" ∷ [])
    ∷ (text "USD", text "buck" ∷ text "greenback" ∷ text "dollar" ∷ [])
    ∷ (text "EUR", text "euro" ∷ [])
    ∷ (text "JPY", text "yen" ∷ [])
    ∷ (text "CNY", text "yuan" ∷ text "rmb" ∷ text "renminbi" ∷ [])
    ∷ (text "INR", text "rupee" ∷ [])
    ∷ (text "KRW", text "won" ∷ [])
    ∷ (text "THB", text "baht" ∷ [])
    ∷ (text "IDR", text "rupiah" ∷ [])
    ∷ (text "MYR", text "ringgit" ∷ [])
    ∷ (text "PHP", text "peso" ∷ [])
    ∷ (text "VND", text "dong" ∷ [])
    ∷ (text "BRL", text "real" ∷ [])
    ∷ (text "MXN", text "peso" ∷ [])
    ∷ (text "ARS", text "peso" ∷ [])
    ∷ (text "CLP", text "peso" ∷ [])
    ∷ (text "COP", text "peso" ∷ [])
    ∷ (text "PEN", text "sol" ∷ [])
    ∷ (text "ZAR", text "rand" ∷ [])
    ∷ (text "EGP", text "pound" ∷ [])
    ∷ (text "NGN", text "naira" ∷ [])
    ∷ (text "KES", text "shilling" ∷ [])
    ∷ (text "TZS", text "shilling" ∷ [])
    ∷ (text "UGX", text "shilling" ∷ [])
    ∷ (text "MAD", text "dirham" ∷ [])
    ∷ (text "AED", text "dirham" ∷ [])
    ∷ (text "SAR", text "riyal" ∷ [])
    ∷ (text "QAR", text "riyal" ∷ [])
    ∷ (text "ILS", text "shekel" ∷ [])
    ∷ (text "TRY", text "lira" ∷ [])
    ∷ (text "PKR", text "rupee" ∷ [])
    ∷ (text "BDT", text "taka" ∷ [])
    ∷ (text "LKR", text "rupee" ∷ [])
    ∷ []

-- The loop from the position of each text on: `a` and `b` are what is left, and `same` is whether
-- the texts have one length.
unfoldable pub scan : (same : Bool) → (edits : ℕ) → Text → Text → Bool
scan same edits [] b = leb (edits + length b) 1
scan same edits (c ∷ a) [] = leb (edits + 0) 1
scan same edits (c ∷ a) (d ∷ b) = elim (c == d) [
  | true ↦ scan same edits a b
  | false ↦ elim (ltb 1 (suc edits)) [
    | true ↦ false
    | false ↦ elim same [
      | true ↦ scan same (suc edits) a b
      | false ↦ scan same (suc edits) (c ∷ a) b
    ]
  ]
]

-- `Math.abs(la - lb) > 1`
abbrev pub is_far : Text → Text → Bool
is_far a b = ltb (suc (length a)) (length b) || ltb (suc (length b)) (length a)

unfoldable pub scan_both : Text → Text → Bool
scan_both a b = scan (length a == length b) 0 a b

-- The call with the texts in the order of their lengths.
unfoldable pub levenshtein_ordered : Text → Text → Bool
levenshtein_ordered a b = if text_eq a b then true else if is_far a b then false else scan_both a b

unfoldable pub levenshtein_at_most_1 : Text → Text → Bool
levenshtein_at_most_1 a b =
    if text_eq a b
    then true
    else if is_far a b
    then false
    else if ltb (length b) (length a)
    then levenshtein_ordered b a
    else scan_both a b

-- `s.startsWith(t)` and `s.includes(t)`
abbrev pub starts_with : Text → Text → Bool
starts_with s [] = true
starts_with [] (d ∷ t) = false
starts_with (c ∷ s) (d ∷ t) = c == d && starts_with s t

abbrev pub includes : Text → Text → Bool
includes [] t = starts_with [] t
includes (c ∷ s) t = starts_with (c ∷ s) t || includes s t

abbrev pub all_of : {A : Type 0} → (A → Bool) → List A → Bool
all_of p [] = true
all_of p (x ∷ xs) = p x && all_of p xs

-- `s.split(/\s+/).filter(Boolean)`: the runs of units that are not white space; `word` is the run
-- that is being read.
abbrev pub flushed : Text → List Text → List Text
flushed [] ws = ws
flushed (c ∷ word) ws = (c ∷ word) ∷ ws

unfoldable pub words_from : (word : Text) → Text → List Text
words_from word [] = flushed word []
words_from word (c ∷ s) = elim (is_space c) [
  | true ↦ flushed word (words_from [] s)
  | false ↦ words_from (word ++ c ∷ []) s
]

abbrev pub is_empty : Text → Bool
is_empty [] = true
is_empty (c ∷ s) = false

-- The near matches are looked for only where nothing matches directly.
abbrev pub or_nearly : List Text → (Text → Bool) → List Text → List Text
or_nearly [] nearly codes = filter nearly codes
or_nearly (code ∷ tier1) nearly codes = code ∷ tier1

module _ (lower trim : Text → Text) where
  unfoldable pub tokenize : Text → List Text
  tokenize s = words_from [] (lower s)

  unfoldable pub matches_directly : (get_name : Text → Text) → (q code : Text) → Bool
  matches_directly get_name q code =
      includes (lower code) q
      || includes (lower (get_name code)) q
      || any (λ (a : Text). includes a q) (get_or (field_get code currency_aliases) [])

  unfoldable pub matches_nearly : (get_name : Text → Text) → (words : List Text) → Text → Bool
  matches_nearly get_name words code =
      let candidates = tokenize code ++ tokenize (get_name code) in
      all_of
        (λ (qt : Text).
          any (λ (ct : Text). includes ct qt || levenshtein_at_most_1 qt ct) candidates)
        words

  unfoldable pub filter_currencies : List Text → Text → (Text → Text) → List Text
  filter_currencies codes query get_name =
      let q = lower (trim query) in
      if is_empty q
      then codes
      else or_nearly (filter (matches_directly get_name q) codes)
          (matches_nearly get_name (tokenize q)) codes
