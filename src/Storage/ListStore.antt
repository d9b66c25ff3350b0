-- ===== src/Storage/ListStore.antt =====
-- A table held as its list of rows, whose next key lies above all that are in it: an instance of
-- the interface, on which the models run.
use expensesapp.Prelude.{ℕ, suc, ◌≤◌, ◌≡◌, refl, Option, none, some, [], ◌∷◌, arith, get_or, filter}
use expensesapp.Storage.{Store}
use expensesapp.Storage.Keyed.{
  HasId, id, set_id, Rows, rows_of, lookup, insert, erase, modify, insert_new, add_row, keep_rows,
  IsAscending, insert-IsAscending, erase-IsAscending, modify-IsAscending,
}

abbrev pub Ordered : Type 0 → Type 0
Ordered R = (m : Rows R) × IsAscending 0 m

module _ {R : Type 0} where
  -- Dexie's key generator starts at 1.
  unfoldable pub next_after : ℕ → Rows R → ℕ
  next_after lo [] = lo
  next_after lo ((k, r) ∷ m) = next_after (suc k) m

  le-next_after : (lo : ℕ) (m : Rows R) → IsAscending lo m → lo ≤ next_after lo m
  unfolding next_after
  le-next_after lo [] a = omega arith
  le-next_after lo ((k, r) ∷ m) a = omega (arith, le-next_after (suc k) m a.1)

  next_after-fresh : (lo : ℕ) (m : Rows R) → IsAscending lo m → lookup (next_after lo m) m ≡ none
  unfolding next_after lookup
  next_after-fresh lo [] a = refl
  next_after-fresh lo ((k, r) ∷ m) a =
      ground (arith, next_after-fresh (suc k) m a.1, le-next_after (suc k) m a.1)

  unfoldable pub next_key : Rows R → ℕ
  unfolding next_after
  next_key [] = 1
  next_key ((k, r) ∷ m) = next_after (suc k) m

  pub next_key-fresh : (m : Rows R) → IsAscending 0 m → lookup (next_key m) m ≡ none
  unfolding next_key lookup
  next_key-fresh [] a = refl
  next_key-fresh ((k, r) ∷ m) a = next_after-fresh 0 ((k, r) ∷ m) a

  unfoldable pub write : ℕ → R → Ordered R → Ordered R
  write k r (m, a) = (insert k r m, insert-IsAscending 0 k r m (omega arith) a)

  pub write-rows : (k : ℕ) (r : R) (t : Ordered R) → (write k r t).0 ≡ insert k r t.0
  unfolding write
  write-rows k r t = refl

  module _ ⦃h : HasId R⦄ where
    -- `add`, once it is known whether the key is taken.
    unfoldable pub add_at : ℕ → R → Ordered R → Option R → Option (ℕ × Ordered R)
    unfolding write
    add_at k r t none = some (k, write k r t)
    add_at k r t (some taken) = none

    unfoldable pub add : R → Ordered R → Option (ℕ × Ordered R)
    unfolding add_at next_key lookup insert erase
    add r t = let k = get_or (id r) (next_key t.0) in add_at k (set_id k r) t (lookup k t.0)

    pub rows-add :
        (r : R) (t : Ordered R)
        → keep_rows (λ (t : Ordered R). t.0) (add r t) ≡ add_row (next_key t.0) r t.0
    unfolding add_at add write
    rows-add r t = same (lookup (get_or (id r) (next_key t.0)) t.0)
      where
        k : ℕ
        k = get_or (id r) (next_key t.0)

        same :
            (o : Option R)
            → keep_rows (λ (t : Ordered R). t.0) (add_at k (set_id k r) t o)
              ≡ insert_new k (set_id k r) t.0 o
        same none = refl
        same (some s) = refl

    abbrev pub list_store : Store R
    list_store = record {
      Table = Ordered R;
      rows = λ t. t.0;
      next_key = λ t. next_key t.0;
      get = λ k t. lookup k t.0;
      put = λ r t. let k = get_or (id r) (next_key t.0) in write k (set_id k r) t;
      add = add;
      update = λ k f t. (modify k f t.0, modify-IsAscending 0 k f t.0 t.1);
      delete = λ k t. (erase k t.0, erase-IsAscending 0 k t.0 t.1);
      clear = λ t. ([], tt);
      rows-clear = λ t. refl;
      query = λ p t. filter p (rows_of t.0);
      query-rows = λ p t. refl;
      rows-IsAscending = λ t. t.1;
      next_key-fresh = λ t. next_key-fresh t.0 t.1;
      get-rows = λ k t. refl;
      rows-put = λ r t.
          write-rows (get_or (id r) (next_key t.0)) (set_id (get_or (id r) (next_key t.0)) r) t;
      rows-add = rows-add;
      rows-update = λ k f t. refl;
      rows-delete = λ k t. refl;
    }
