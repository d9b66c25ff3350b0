-- ===== src/Examples/Searches.antt =====
-- The theorems on the search for a currency.
use expensesapp.Prelude.{◌≡◌, ◌↔◌, refl, true, List, [], ◌∷◌}
use expensesapp.Prelude.Text.{Text, text, text_eq}
use expensesapp.CurrencySearch.{filter_currencies, levenshtein_at_most_1}
use expensesapp.CurrencySearch.OneEdit.{OneEdit, levenshtein_at_most_1-OneEdit}
use expensesapp.CurrencySearch.Found.{lists, filter_currencies-lists}

levenshtein_at_most_1-OneEdit_example :
    (levenshtein_at_most_1 (text "dolar") (text "dollar") ≡ true)
    ↔ OneEdit (text "dolar") (text "dollar")
levenshtein_at_most_1-OneEdit_example = levenshtein_at_most_1-OneEdit (text "dolar") (text "dollar")

-- The case and the spaces are left as they are.
abbrev same : Text → Text
same s = s

abbrev codes : List Text
codes = text "eur" ∷ text "usd" ∷ []

filter_currencies-lists_example :
    lists (text "usd") (filter_currencies same same codes (text "us") same) ≡ true
unfolding text_eq
filter_currencies-lists_example =
    filter_currencies-lists same same same codes (text "us") (text "usd") refl refl
