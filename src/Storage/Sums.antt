-- ===== src/Storage/Sums.antt =====
-- The sum of an integer over the rows of a table, under each write.
use expensesapp.Prelude.{ℕ, suc, ◌≡◌, none, some, [], ◌∷◌}
use expensesapp.Prelude.Int.{ℤ, pos, ◌+ℤ◌, int_laws}
use expensesapp.Storage.Keyed.{Rows, lookup, insert, erase, IsAscending, lookup_below}

module _ {R : Type 0} (weight : R → ℤ) where
  pub sum_rows : Rows R → ℤ
  sum_rows [] = pos 0
  sum_rows ((k, r) ∷ m) = weight r +ℤ sum_rows m

  pub sum_rows-insert_new :
      (k : ℕ) (r : R) (m : Rows R)
      → lookup k m ≡ none
      → sum_rows (insert k r m) ≡ sum_rows m +ℤ weight r
  unfolding sum_rows lookup insert
  sum_rows-insert_new k r [] e = omega int_laws
  sum_rows-insert_new k r ((j, s) ∷ m) e = grind (int_laws, sum_rows-insert_new k r m)

  pub sum_rows-insert :
      (lo k : ℕ) (r old : R) (m : Rows R)
      → IsAscending lo m
      → lookup k m ≡ some old
      → sum_rows (insert k r m) +ℤ weight old ≡ sum_rows m +ℤ weight r
  unfolding sum_rows lookup insert
  sum_rows-insert lo k r old [] a e = cc
  sum_rows-insert lo k r old ((j, s) ∷ m) a e =
      grind (int_laws, lookup_below (suc j) k m a.1, sum_rows-insert (suc j) k r old m a.1)

  pub sum_rows-erase :
      (k : ℕ) (old : R) (m : Rows R)
      → lookup k m ≡ some old
      → sum_rows (erase k m) +ℤ weight old ≡ sum_rows m
  unfolding sum_rows lookup erase
  sum_rows-erase k old [] e = cc
  sum_rows-erase k old ((j, s) ∷ m) e = grind (int_laws, sum_rows-erase k old m)
