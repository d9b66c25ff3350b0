-- ===== src/MathParser.antt =====
-- src/services/math-parser.ts: an amount that is typed as an expression. The numbers are
-- floating-point ones, of which `Arithmetic` has what the code uses.
pub mod Precedence
use expensesapp.Prelude.{
  ℕ, Bool, true, false, ◌&&◌, ◌||◌, ◌==◌, Option, none, some, List, [], ◌∷◌, ◌++◌, map,
  if◌then◌else◌, get_or,
}
use expensesapp.Prelude.Int.{ℤ, pos, ltb_ℤ}
use expensesapp.Prelude.Text.{Text}
use expensesapp.Validation.{is_digit, is_space, max_amount}

-- `clamp places x` is `Math.round(x * scale) / scale` and `minor places x` is `Math.round(x * scale)`,
-- without a value where that is not finite; `scale` is ten to the power of `places`.
pub record Arithmetic : Type 1 where
  pub Number : Type 0
  pub parse_float : Text → Number
  pub multiply : Number → Number → Number
  pub divide : Number → Number → Number
  pub add : Number → Number → Number
  pub subtract : Number → Number → Number
  pub clamp : ℕ → Number → Number
  pub minor : ℕ → Number → Option ℤ

pub data Operator : Type 0 where
  plus minus times divided : Operator

-- `replace(/×/g, "*").replace(/÷/g, "/").replace(/−/g, "-")`
abbrev pub ascii_operator : ℕ → ℕ
ascii_operator c = if c == 215 then 42 else if c == 247 then 47 else if c == 8722 then 45 else c

abbrev pub operator_of : ℕ → Option Operator
operator_of c =
    if c == 43
    then some plus
    else if c == 45
    then some minus
    else if c == 42
    then some times
    else if c == 47
    then some divided
    else none

abbrev pub is_operator : Option Operator → Bool
is_operator none = false
is_operator (some o) = true

abbrev pub all_spaces : Text → Bool
all_spaces [] = true
all_spaces (c ∷ s) = is_space c && all_spaces s

-- `replace(/[+\-*/]\s*$/, "")`
unfoldable pub strip_trailing : Text → Text
strip_trailing [] = []
strip_trailing (c ∷ s) =
    if is_operator (operator_of c) && all_spaces s then [] else c ∷ strip_trailing s

module _ (ar : Arithmetic) where
  pub data Token : Type 0 where
    num : ar.Number → Token
    op : Operator → Token

  -- Where the next unit stands: before a token; after a dot that begins a number; in the whole part
  -- of a number; behind its dot. The text of the number is the one that has been read.
  pub data Position : Type 0 where
    between after_dot : Position
    whole fraction : Text → Position

  abbrev pub before : Token → Option (List Token) → Option (List Token)
  before t none = none
  before t (some ts) = some (t ∷ ts)

  -- A unit that begins no number.
  abbrev pub other_token : Option Operator → Option (List Token) → Option (List Token)
  other_token none rest = none
  other_token (some o) rest = before (op o) rest

  -- The matches of `/(\d+\.?\d*|\.\d+)|([+\-*/])/g` one behind the other, if they cover the text.
  unfoldable pub tokenize : Position → Text → Option (List Token)
  tokenize between [] = some []
  tokenize after_dot [] = none
  tokenize (whole word) [] = some (num (ar.parse_float word) ∷ [])
  tokenize (fraction word) [] = some (num (ar.parse_float word) ∷ [])
  tokenize between (c ∷ s) = elim (is_digit c) [
    | true ↦ tokenize (whole (c ∷ [])) s
    | false ↦ elim (c == 46) [
      | true ↦ tokenize after_dot s
      | false ↦ other_token (operator_of c) (tokenize between s)
    ]
  ]
  tokenize after_dot (c ∷ s) = elim (is_digit c) [
    | true ↦ tokenize (fraction (46 ∷ c ∷ [])) s
    | false ↦ none
  ]
  tokenize (whole word) (c ∷ s) = elim (is_digit c) [
    | true ↦ tokenize (whole (word ++ c ∷ [])) s
    | false ↦ elim (c == 46) [
      | true ↦ tokenize (fraction (word ++ c ∷ [])) s
      | false ↦
          before (num (ar.parse_float word)) (other_token (operator_of c) (tokenize between s))
    ]
  ]
  tokenize (fraction word) (c ∷ s) = elim (is_digit c) [
    | true ↦ tokenize (fraction (word ++ c ∷ [])) s
    | false ↦ before (num (ar.parse_float word)) (elim (c == 46) [
      | true ↦ tokenize after_dot s
      | false ↦ other_token (operator_of c) (tokenize between s)
    ])
  ]

  -- The tokens are a number, an operator, a number and so on, up to a number.
  unfoldable pub alternates : (at_number : Bool) → List Token → Bool
  alternates true [] = false
  alternates false [] = true
  alternates true (num v ∷ ts) = alternates false ts
  alternates true (op o ∷ ts) = false
  alternates false (num v ∷ ts) = false
  alternates false (op o ∷ ts) = alternates true ts

  -- The first pass: `done` is `afterMulDiv` with its last token first.
  unfoldable pub first_pass : ℕ → (done : List Token) → List Token → Option (List Token)
  first_pass places done [] = some done
  first_pass places done (num v ∷ ts) = first_pass places (num v ∷ done) ts
  first_pass places done (op plus ∷ ts) = first_pass places (op plus ∷ done) ts
  first_pass places done (op minus ∷ ts) = first_pass places (op minus ∷ done) ts
  first_pass places (num left ∷ done) (op times ∷ num right ∷ ts) =
      first_pass places (num (ar.clamp places (ar.multiply left right)) ∷ done) ts
  first_pass places (num left ∷ done) (op divided ∷ num right ∷ ts) =
      first_pass places (num (ar.clamp places (ar.divide left right)) ∷ done) ts
  first_pass places done (op o ∷ ts) = none

  -- The second pass: from the number `result` on.
  unfoldable pub second_pass : ℕ → (result : ar.Number) → List Token → Option ar.Number
  second_pass places result [] = some result
  second_pass places result (op plus ∷ num right ∷ ts) =
      second_pass places (ar.clamp places (ar.add result right)) ts
  second_pass places result (op minus ∷ num right ∷ ts) =
      second_pass places (ar.clamp places (ar.subtract result right)) ts
  second_pass places result ts = none

  unfoldable pub sum_tokens : ℕ → List Token → Option ar.Number
  sum_tokens places (num v ∷ ts) = second_pass places v ts
  sum_tokens places ts = none

  abbrev pub reversed : List Token → List Token
  reversed [] = []
  reversed (t ∷ ts) = reversed ts ++ t ∷ []

  abbrev pub then_sum : ℕ → Option (List Token) → Option ar.Number
  then_sum places none = none
  then_sum places (some done) = sum_tokens places (reversed done)

  unfoldable pub evaluate_tokens : ℕ → List Token → Option ar.Number
  evaluate_tokens places ts = then_sum places (first_pass places [] ts)

  abbrev pub rounded : ℕ → Option ar.Number → Option ℤ
  rounded places none = none
  rounded places (some result) = ar.minor places result

  abbrev pub evaluate_checked : ℕ → Option (List Token) → Option ℤ
  evaluate_checked places none = none
  evaluate_checked places (some ts) =
      if alternates true ts then rounded places (evaluate_tokens places ts) else none

  abbrev pub evaluate_stripped : ℕ → Text → Option ℤ
  evaluate_stripped places [] = none
  evaluate_stripped places (c ∷ s) = evaluate_checked places (tokenize between (c ∷ s))

  -- `none` stands for a number of decimal places that is negative or not finite.
  unfoldable pub evaluate_raw : Text → (decimal_places : Option ℕ) → Option ℤ
  evaluate_raw expr decimal_places =
      if all_spaces expr
      then none
      else evaluate_stripped (get_or decimal_places 2) (strip_trailing (map ascii_operator expr))

  abbrev pub is_over : ℤ → Bool
  is_over raw = ltb_ℤ (pos max_amount) raw

  abbrev pub within_limit : Option ℤ → Option ℤ
  within_limit none = none
  within_limit (some raw) = if ltb_ℤ raw (pos 0) || is_over raw then none else some raw

  unfoldable pub evaluate_expression : Text → Option ℕ → Option ℤ
  evaluate_expression expr decimal_places = within_limit (evaluate_raw expr decimal_places)

  abbrev pub exceeds : Option ℤ → Bool
  exceeds none = false
  exceeds (some raw) = is_over raw

  unfoldable pub is_amount_over_limit : Text → Option ℕ → Bool
  is_amount_over_limit expr decimal_places = exceeds (evaluate_raw expr decimal_places)
