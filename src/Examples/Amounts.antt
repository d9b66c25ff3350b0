-- ===== src/Examples/Amounts.antt =====
-- The theorems on typed amounts, with whole numbers for numbers.
use expensesapp.Prelude.{ℕ, ◌≡◌, refl, ◌+◌, ◌-◌, ◌*◌, ◌/◌, some, List, [], ◌∷◌}
use expensesapp.Prelude.Int.{pos}
use expensesapp.Prelude.Text.{Text}
use expensesapp.MathParser.{Arithmetic, Token, num, op, plus, times, alternates, evaluate_tokens}
use expensesapp.MathParser.Precedence.{evaluate_tokens-value, tokens_of, value, Rest}

-- The digits of a text, from a value on; what is no digit is passed over.
abbrev digits_from : ℕ → Text → ℕ
digits_from n [] = n
digits_from n (c ∷ s) = digits_from (10 * n + (c - 48)) s

abbrev whole_numbers : Arithmetic
whole_numbers = record {
  Number = ℕ;
  parse_float = digits_from 0;
  multiply = λ a b. a * b;
  divide = λ a b. a / b;
  add = λ a b. a + b;
  subtract = λ a b. a - b;
  clamp = λ places a. a;
  minor = λ places a. some (pos (a * 100));
}

-- 2 + 3 * 4
abbrev sum_of_product : List (Token whole_numbers)
sum_of_product = num 2 ∷ op plus ∷ num 3 ∷ op times ∷ num 4 ∷ []

evaluate_tokens-value_example :
    (v : ℕ) × (rest : Rest whole_numbers 2) × (sum_of_product
      ≡ num v ∷ tokens_of whole_numbers 2 rest)
    × (evaluate_tokens whole_numbers 2 sum_of_product
        ≡ some (value whole_numbers 2 (λ x. x) v rest))
unfolding alternates
evaluate_tokens-value_example = evaluate_tokens-value whole_numbers 2 sum_of_product refl
