-- ===== src/Prelude/Int.antt =====
-- Signed integers over the native numbers: the integer values of a JavaScript `number`.
use Prim.Native.Nat.{ℕ, suc, ◌+◌, ◌-◌, ◌≤◌}
use mathlib.Core.Path.{◌≡◌, ap}
use mathlib.Core.Bool.{Bool}
use native.Mathlib.Omega.{arith}
use expensesapp.Prelude.Tests.{ltb, leb, if◌then◌else◌}

-- `negsuc n` is -(n + 1).
pub data ℤ : Type 0 where
  pos : ℕ → ℤ
  negsuc : ℕ → ℤ

abbrev pub pos_part : ℤ → ℕ
pos_part (pos n) = n
pos_part (negsuc n) = 0

abbrev pub neg_part : ℤ → ℕ
neg_part (pos n) = 0
neg_part (negsuc n) = suc n

abbrev pub sub_ℕ : ℕ → ℕ → ℤ
sub_ℕ a b = if leb b a then pos (a - b) else negsuc (b - a - 1)

infixl 65 ◌+ℤ◌ ◌-ℤ◌
infix 50 ◌≤ℤ◌ ◌<ℤ◌
unfoldable pub ◌+ℤ◌ : ℤ → ℤ → ℤ
a +ℤ b = sub_ℕ (pos_part a + pos_part b) (neg_part a + neg_part b)

unfoldable pub ◌-ℤ◌ : ℤ → ℤ → ℤ
a -ℤ b = sub_ℕ (pos_part a + neg_part b) (neg_part a + pos_part b)

abbrev pub neg : ℤ → ℤ
neg a = pos 0 -ℤ a

abbrev pub ◌≤ℤ◌ : ℤ → ℤ → Type 0
a ≤ℤ b = pos_part a + neg_part b ≤ pos_part b + neg_part a

abbrev pub ◌<ℤ◌ : ℤ → ℤ → Type 0
a <ℤ b = suc (pos_part a + neg_part b) ≤ pos_part b + neg_part a

abbrev pub ltb_ℤ : ℤ → ℤ → Bool
ltb_ℤ a b = ltb (pos_part a + neg_part b) (pos_part b + neg_part a)

abbrev pub min_ℤ : ℤ → ℤ → ℤ
min_ℤ a b = if ltb_ℤ b a then b else a

pub +ℤ_parts :
    (a b : ℤ)
    → pos_part (a +ℤ b) + neg_part a + neg_part b ≡ neg_part (a +ℤ b) + pos_part a + pos_part b
unfolding ◌+ℤ◌
+ℤ_parts a b = ground arith

pub -ℤ_parts :
    (a b : ℤ)
    → pos_part (a -ℤ b) + neg_part a + pos_part b ≡ neg_part (a -ℤ b) + pos_part a + neg_part b
unfolding ◌-ℤ◌
-ℤ_parts a b = ground arith

pub eq_of_parts : (a b : ℤ) → pos_part a + neg_part b ≡ pos_part b + neg_part a → a ≡ b
eq_of_parts a b h = ground arith

pub ruleset int_laws = (arith, +ℤ_parts, -ℤ_parts, eq_of_parts)

-- `omega` reads an equation between integers through its two parts.
pub sub-eq_of_add : (x y e f : ℤ) → x +ℤ e ≡ y +ℤ f → x -ℤ f ≡ y -ℤ e
sub-eq_of_add x y e f h = omega (int_laws, ap pos_part h, ap neg_part h)

pub add_add_comm : (x d e : ℤ) → x +ℤ d +ℤ e ≡ x +ℤ (e +ℤ d)
add_add_comm x d e = omega int_laws

pub add-zero_ℤ : (x : ℤ) → x +ℤ pos 0 ≡ x
add-zero_ℤ x = omega int_laws

pub sub_add_cancel : (x d e f : ℤ) → f +ℤ d ≡ e → x -ℤ d +ℤ e ≡ x +ℤ f
sub_add_cancel x d e f h = omega (int_laws, ap pos_part h, ap neg_part h)

pub sub_add_swap : (x o n e f : ℤ) → f +ℤ o ≡ e +ℤ n → x -ℤ o +ℤ n +ℤ e ≡ x +ℤ f
sub_add_swap x o n e f h = omega (int_laws, ap pos_part h, ap neg_part h)

pub add-zero_eq : (x y : ℤ) → x +ℤ pos 0 ≡ y → x ≡ y
add-zero_eq x y h = omega (int_laws, ap pos_part h, ap neg_part h)

pub cancel_zeros : (x y d e : ℤ) → x +ℤ d ≡ y +ℤ e → d ≡ pos 0 → e ≡ pos 0 → x ≡ y
cancel_zeros x y d e h zd ze = omega (
  int_laws,
  ap pos_part h,
  ap neg_part h,
  ap pos_part zd,
  ap neg_part zd,
  ap pos_part ze,
  ap neg_part ze,
)

pub sub_of_effects : (x o n e f : ℤ) → f +ℤ o ≡ e +ℤ n → n ≡ pos 0 → x -ℤ o +ℤ e ≡ x +ℤ f
sub_of_effects x o n e f h z =
    omega (int_laws, ap pos_part h, ap neg_part h, ap pos_part z, ap neg_part z)

pub add_of_effects : (x o n e f : ℤ) → f +ℤ o ≡ e +ℤ n → o ≡ pos 0 → x +ℤ n +ℤ e ≡ x +ℤ f
add_of_effects x o n e f h z =
    omega (int_laws, ap pos_part h, ap neg_part h, ap pos_part z, ap neg_part z)

-- Two effects are added: on the one account, on the other, and on the same one.
pub add_first : (x o n e f : ℤ) → f ≡ e +ℤ o +ℤ n → n ≡ pos 0 → x +ℤ o +ℤ e ≡ x +ℤ f
add_first x o n e f h z =
    omega (int_laws, ap pos_part h, ap neg_part h, ap pos_part z, ap neg_part z)

pub add_second : (x o n e f : ℤ) → f ≡ e +ℤ o +ℤ n → o ≡ pos 0 → x +ℤ n +ℤ e ≡ x +ℤ f
add_second x o n e f h z =
    omega (int_laws, ap pos_part h, ap neg_part h, ap pos_part z, ap neg_part z)

pub add_both : (x o n e f : ℤ) → f ≡ e +ℤ o +ℤ n → x +ℤ o +ℤ n +ℤ e ≡ x +ℤ f
add_both x o n e f h = omega (int_laws, ap pos_part h, ap neg_part h)

pub add_neither : (o n e f : ℤ) → f ≡ e +ℤ o +ℤ n → o ≡ pos 0 → n ≡ pos 0 → f ≡ e
add_neither o n e f h zo zn = omega (
  int_laws,
  ap pos_part h,
  ap neg_part h,
  ap pos_part zo,
  ap neg_part zo,
  ap pos_part zn,
  ap neg_part zn,
)

-- The three ways in which JavaScript's `a - b` can compare with 0.
pub data Comparison : Type 0 where
  less tie greater : Comparison

abbrev pub compare_ℤ : ℤ → ℤ → Comparison
compare_ℤ a b = if ltb_ℤ a b then less else if ltb_ℤ b a then greater else tie

abbrev pub flip : Comparison → Comparison
flip less = greater
flip tie = tie
flip greater = less

pub compare_ℤ-flip : (a b : ℤ) → compare_ℤ b a ≡ flip (compare_ℤ a b)
compare_ℤ-flip a b = ground arith
