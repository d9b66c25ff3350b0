-- ===== src/Storage.antt =====
-- The tables of src/db/database.ts (`db.version(9).stores`). Dexie is a package outside the
-- repository: a table is a parameter, a record of the calls that the code makes with the documented
-- behaviour of each, stated on the rows that `toArray` returns in the order of the primary key.
pub mod Keyed
pub mod ListStore
pub mod Laws
pub mod Sums
pub mod Queries
pub mod Bulk
use expensesapp.Prelude.{ℕ, ◌≡◌, Bool, Option, List, [], none, filter}
use expensesapp.Storage.Keyed.{
  HasId, Rows, rows_of, lookup, insert, erase, modify, put_row, add_row, keep_rows, IsAscending,
}

-- A table declared `++id`: an auto-incremented primary key, stored in the row's `id`.
pub record Store (R : Type 0) ⦃h : HasId R⦄ : Type 1 where
  pub Table : Type 0
  pub rows : Table → Rows R
  pub next_key : Table → ℕ
  pub get : ℕ → Table → Option R
  pub put : R → Table → Table
  pub add : R → Table → Option (ℕ × Table)
  pub update : ℕ → (R → R) → Table → Table
  pub delete : ℕ → Table → Table
  pub clear : Table → Table
  -- `where(index).equals(value).toArray()` and `filter(p).toArray()`
  pub query : (R → Bool) → Table → List R
  pub rows-IsAscending : (t : Table) → IsAscending 0 (rows t)
  pub next_key-fresh : (t : Table) → lookup (next_key t) (rows t) ≡ none
  pub get-rows : (k : ℕ) (t : Table) → get k t ≡ lookup k (rows t)
  pub rows-put : (r : R) (t : Table) → rows (put r t) ≡ put_row (next_key t) r (rows t)
  pub rows-add : (r : R) (t : Table) → keep_rows rows (add r t) ≡ add_row (next_key t) r (rows t)
  pub rows-update : (k : ℕ) (f : R → R) (t : Table) → rows (update k f t) ≡ modify k f (rows t)
  pub query-rows : (p : R → Bool) (t : Table) → query p t ≡ filter p (rows_of (rows t))
  pub rows-delete : (k : ℕ) (t : Table) → rows (delete k t) ≡ erase k (rows t)
  pub rows-clear : (t : Table) → rows (clear t) ≡ []
