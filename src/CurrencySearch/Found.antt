-- ===== src/CurrencySearch/Found.antt =====
-- `filterCurrencies` of src/utils/currency-search.ts: what a search returns.
use expensesapp.Prelude.{
  ◌≡◌, refl, Bool, true, false, if◌then◌else◌, List, [], ◌∷◌, any, filter, arith, Bool-cases, inl,
  inr,
}
use expensesapp.Prelude.Text.{Text, text_eq, text_eq_iff}
use expensesapp.CurrencySearch.{
  filter_currencies, includes, is_empty, matches_directly, matches_nearly, or_nearly, tokenize,
}

-- The code is in the list.
abbrev pub lists : Text → List Text → Bool
lists code codes = any (text_eq code) codes

lists-filter :
    (p : Text → Bool) (code : Text) (codes : List Text)
    → lists code codes ≡ true
    → p code ≡ true
    → lists code (filter p codes) ≡ true
lists-filter p code [] h k = h
lists-filter p code (x ∷ codes) h k = elim (Bool-cases (text_eq code x)) [
  | inl e ↦ rw (← (text_eq_iff code x).0 e) (ground (arith, k, (text_eq_iff code code).1 refl))
  | inr e ↦ ground (arith, e, lists-filter p code codes, h, k)
]

lists-or_nearly :
    (tier1 codes : List Text) (nearly : Text → Bool) (code : Text)
    → lists code tier1 ≡ true
    → lists code (or_nearly tier1 nearly codes) ≡ true
lists-or_nearly [] codes nearly code h = cc
lists-or_nearly (x ∷ tier1) codes nearly code h = h

module _ (lower trim get_name : Text → Text) where
  directly :
      (q code : Text)
      → includes (lower code) q ≡ true
      → matches_directly lower trim get_name q code ≡ true
  unfolding matches_directly
  directly q code h = rw h refl

  -- A listed code whose lower-case text includes the query, trimmed and in lower case, is in the
  -- result of the search.
  pub filter_currencies-lists :
      (codes : List Text) (query code : Text)
      → lists code codes ≡ true
      → includes (lower code) (lower (trim query)) ≡ true
      → lists code (filter_currencies lower trim codes query get_name) ≡ true
  unfolding filter_currencies
  filter_currencies-lists codes query code h k = split (is_empty q)
    where
      q : Text
      q = lower (trim query)

      tier1 : List Text
      tier1 = filter (matches_directly lower trim get_name q) codes

      nearly : Text → Bool
      nearly = matches_nearly lower trim get_name (tokenize lower trim q)

      split : (b : Bool) → lists code (if b then codes else or_nearly tier1 nearly codes) ≡ true
      split true = h
      split false =
          lists-or_nearly tier1 codes nearly code
            (lists-filter (matches_directly lower trim get_name q) code codes h (directly q code k))
