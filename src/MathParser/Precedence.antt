-- ===== src/MathParser/Precedence.antt =====
-- The two passes of src/services/math-parser.ts, against one that knows the precedence of `*` and `/`.
use expensesapp.Prelude.{ℕ, ◌≡◌, refl, ap, ◌∙◌, true, false, some, List, [], ◌∷◌, ◌++◌, eq_of_some}
use expensesapp.MathParser.{
  Arithmetic, Operator, plus, minus, times, divided, Token, num, op, alternates, evaluate_tokens,
  first_pass, reversed, second_pass, sum_tokens, then_sum,
}

module _ (ar : Arithmetic) (places : ℕ) where
  -- An expression: operators, each with the number on its right.
  abbrev pub Rest : Type 0
  Rest = List (Operator × ar.Number)

  abbrev pub tokens_of : Rest → List (Token ar)
  tokens_of [] = []
  tokens_of ((o, v) ∷ rest) = op o ∷ num v ∷ tokens_of rest

  -- The value of `v` and the rest: a product goes on for as long as `*` and `/` do, and `held` is
  -- what the sum before it does with the product.
  abbrev pub value : (held : ar.Number → ar.Number) → ar.Number → Rest → ar.Number
  value held v [] = held v
  value held v ((times, w) ∷ rest) = value held (ar.clamp places (ar.multiply v w)) rest
  value held v ((divided, w) ∷ rest) = value held (ar.clamp places (ar.divide v w)) rest
  value held v ((plus, w) ∷ rest) = value (λ x. ar.clamp places (ar.add (held v) x)) w rest
  value held v ((minus, w) ∷ rest) = value (λ x. ar.clamp places (ar.subtract (held v) x)) w rest

  -- `o` goes on with `f` wherever the second pass meets it.
  Continues : Operator → (ar.Number → ar.Number → ar.Number) → Type 0
  Continues o f =
      (result v : ar.Number) (ts : List (Token ar))
      → second_pass ar places result (op o ∷ num v ∷ ts)
        ≡ second_pass ar places (ar.clamp places (f result v)) ts

  second_pass-snoc :
      (o : Operator) (f : ar.Number → ar.Number → ar.Number) (result a x : ar.Number)
      (ts : List (Token ar))
      → Continues o f
      → second_pass ar places result ts ≡ some a
      → second_pass ar places result (ts ++ op o ∷ num x ∷ []) ≡ some (ar.clamp places (f a x))
  unfolding second_pass Continues
  second_pass-snoc o f result a x [] step h =
      step result x [] ∙ ap (λ (b : ar.Number). some (ar.clamp places (f b x))) (eq_of_some h)
  second_pass-snoc o f result a x (num v ∷ ts) step h = cc
  second_pass-snoc o f result a x (op plus ∷ num v ∷ ts) step h =
      second_pass-snoc o f (ar.clamp places (ar.add result v)) a x ts step h
  second_pass-snoc o f result a x (op minus ∷ num v ∷ ts) step h =
      second_pass-snoc o f (ar.clamp places (ar.subtract result v)) a x ts step h
  second_pass-snoc o f result a x (op plus ∷ []) step h = cc
  second_pass-snoc o f result a x (op minus ∷ []) step h = cc
  second_pass-snoc o f result a x (op plus ∷ op p ∷ ts) step h = cc
  second_pass-snoc o f result a x (op minus ∷ op p ∷ ts) step h = cc
  second_pass-snoc o f result a x (op times ∷ ts) step h = cc
  second_pass-snoc o f result a x (op divided ∷ ts) step h = cc

  sum_tokens-snoc :
      (o : Operator) (f : ar.Number → ar.Number → ar.Number) (a x : ar.Number)
      (ts : List (Token ar))
      → Continues o f
      → sum_tokens ar places ts ≡ some a
      → sum_tokens ar places (ts ++ op o ∷ num x ∷ []) ≡ some (ar.clamp places (f a x))
  unfolding sum_tokens
  sum_tokens-snoc o f a x [] step h = cc
  sum_tokens-snoc o f a x (num v ∷ ts) step h = second_pass-snoc o f v a x ts step h
  sum_tokens-snoc o f a x (op p ∷ ts) step h = cc

  append_two : (ts : List (Token ar)) (t u : Token ar) → (ts ++ t ∷ []) ++ u ∷ [] ≡ ts ++ t ∷ u ∷ []
  append_two [] t u = refl
  append_two (x ∷ ts) t u = ap (λ (l : List (Token ar)). x ∷ l) (append_two ts t u)

  -- What the tokens that are done, the last one first, make of a number behind them.
  Holds : List (Token ar) → (ar.Number → ar.Number) → Type 0
  Holds done held =
      (x : ar.Number) → sum_tokens ar places (reversed ar (num x ∷ done)) ≡ some (held x)

  next-Holds :
      (o : Operator) (f : ar.Number → ar.Number → ar.Number) (done : List (Token ar))
      (held : ar.Number → ar.Number) (v : ar.Number)
      → Continues o f
      → Holds done held
      → Holds (op o ∷ num v ∷ done) (λ x. ar.clamp places (f (held v) x))
  unfolding Holds
  next-Holds o f done held v step h x =
      rw (append_two (reversed ar (num v ∷ done)) (op o) (num x))
        (sum_tokens-snoc o f (held v) x (reversed ar (num v ∷ done)) step (h v))

  plus-Continues : Continues plus ar.add
  unfolding Continues second_pass
  plus-Continues result v ts = refl

  minus-Continues : Continues minus ar.subtract
  unfolding Continues second_pass
  minus-Continues result v ts = refl

  passes-value :
      (held : ar.Number → ar.Number) (v : ar.Number) (rest : Rest) (done : List (Token ar))
      → Holds done held
      → then_sum ar places (first_pass ar places (num v ∷ done) (tokens_of rest))
        ≡ some (value held v rest)
  unfolding first_pass Holds
  passes-value held v [] done h = h v
  passes-value held v ((times, w) ∷ rest) done h =
      passes-value held (ar.clamp places (ar.multiply v w)) rest done h
  passes-value held v ((divided, w) ∷ rest) done h =
      passes-value held (ar.clamp places (ar.divide v w)) rest done h
  passes-value held v ((plus, w) ∷ rest) done h =
      passes-value (λ x. ar.clamp places (ar.add (held v) x)) w rest (op plus ∷ num v ∷ done)
        (next-Holds plus ar.add done held v plus-Continues h)
  passes-value held v ((minus, w) ∷ rest) done h =
      passes-value (λ x. ar.clamp places (ar.subtract (held v) x)) w rest (op minus ∷ num v ∷ done)
        (next-Holds minus ar.subtract done held v minus-Continues h)

  -- Tokens that alternate are an expression.
  split_tokens :
      (ts : List (Token ar)) → alternates ar false ts ≡ true → (rest : Rest) × (ts ≡ tokens_of rest)
  unfolding alternates
  split_tokens [] h = ([], refl)
  split_tokens (num v ∷ ts) h = cc
  split_tokens (op o ∷ []) h = cc
  split_tokens (op o ∷ op p ∷ ts) h = cc
  split_tokens (op o ∷ num v ∷ ts) h =
      let (rest, e) = split_tokens ts h in
      ((o, v) ∷ rest, ap (λ (l : List (Token ar)). op o ∷ num v ∷ l) e)

  -- Tokens that alternate are a number and a rest of operators with their numbers, and the two passes
  -- come to their value with `*` and `/` before `+` and `-`; they never fail.
  pub evaluate_tokens-value :
      (ts : List (Token ar))
      → alternates ar true ts ≡ true
      → (v : ar.Number) × (rest : Rest) × (ts ≡ num v ∷ tokens_of rest)
        × (evaluate_tokens ar places ts ≡ some (value (λ x. x) v rest))
  unfolding alternates evaluate_tokens first_pass Holds sum_tokens second_pass
  evaluate_tokens-value [] h = cc
  evaluate_tokens-value (op o ∷ ts) h = cc
  evaluate_tokens-value (num v ∷ ts) h =
      let (rest, e) = split_tokens ts h in
      (
        v,
        rest,
        ap (λ (l : List (Token ar)). num v ∷ l) e,
        rw e (passes-value (λ x. x) v rest [] (λ x. refl)),
      )
