-- ===== src/Storage/Keyed.antt =====
-- The rows of a table as a list of keys and rows in the order of the keys, and what each call of a
-- table does to them.
use mathlib.Core.Option
use expensesapp.Prelude.{
  ℕ, suc, ◌≤◌, ◌<◌, ◌≡◌, ◌≢◌, refl, Option, none, some, List, [], ◌∷◌, arith, ltb, ◌==◌,
  if◌then◌else◌, get_or,
}

-- `id?: number` of a row.
pub record HasId (R : Type 0) : Type 0 where
  pub id : R → Option ℕ
  pub set_id : ℕ → R → R

module _ {R : Type 0} where
  abbrev pub id : ⦃h : HasId R⦄ → R → Option ℕ
  id ⦃h⦄ = h.id

  abbrev pub set_id : ⦃h : HasId R⦄ → ℕ → R → R
  set_id ⦃h⦄ = h.set_id

abbrev pub Rows : Type 0 → Type 0
Rows R = List (ℕ × R)

abbrev pub rows_of : {R : Type 0} → Rows R → List R
rows_of [] = []
rows_of ((k, r) ∷ m) = r ∷ rows_of m

-- The keys ascend from `lo`.
abbrev pub IsAscending : {R : Type 0} → ℕ → Rows R → Type 0
IsAscending lo [] = Unit
IsAscending lo ((k, r) ∷ m) = (lo ≤ k) × IsAscending (suc k) m

module _ {R : Type 0} where
  unfoldable pub lookup : ℕ → Rows R → Option R
  lookup k [] = none
  lookup k ((j, r) ∷ m) = if k == j then some r else lookup k m

  -- A write at the key's place in the order.
  unfoldable pub insert : ℕ → R → Rows R → Rows R
  insert k r [] = (k, r) ∷ []
  insert k r ((j, s) ∷ m) =
      if k == j then (k, r) ∷ m else if ltb k j then (k, r) ∷ (j, s) ∷ m else (j, s) ∷ insert k r m

  unfoldable pub erase : ℕ → Rows R → Rows R
  erase k [] = []
  erase k ((j, s) ∷ m) = if k == j then m else (j, s) ∷ erase k m

  unfoldable pub modify : ℕ → (R → R) → Rows R → Rows R
  modify k f [] = []
  modify k f ((j, s) ∷ m) = if k == j then (j, f s) ∷ m else (j, s) ∷ modify k f m

  -- `table.put(row)`: at the row's own key, or at a new one if it has none.
  abbrev pub put_row : ⦃h : HasId R⦄ → ℕ → R → Rows R → Rows R
  put_row next r m = let k = get_or (id r) next in insert k (set_id k r) m

  -- `table.add(row)`: as `put`, but a key that is taken is an error.
  abbrev pub insert_new : ℕ → R → Rows R → Option R → Option (ℕ × Rows R)
  insert_new k r m none = some (k, insert k r m)
  insert_new k r m (some taken) = none

  abbrev pub add_row : ⦃h : HasId R⦄ → ℕ → R → Rows R → Option (ℕ × Rows R)
  add_row next r m = let k = get_or (id r) next in insert_new k (set_id k r) m (lookup k m)

  abbrev pub keep_rows : {T : Type 0} → (T → Rows R) → Option (ℕ × T) → Option (ℕ × Rows R)
  keep_rows rows none = none
  keep_rows rows (some (k, t)) = some (k, rows t)

  pub lookup-insert :
      (j k : ℕ) (r : R) (m : Rows R)
      → lookup j (insert k r m) ≡ (if j == k then some r else lookup j m)
  unfolding lookup insert
  lookup-insert j k r [] = refl
  lookup-insert j k r ((i, s) ∷ m) = ground (arith, lookup-insert j k r m)

  pub lookup-modify :
      (j k : ℕ) (f : R → R) (m : Rows R)
      → lookup j (modify k f m) ≡ (if j == k then Option.map f (lookup k m) else lookup j m)
  unfolding lookup modify
  lookup-modify j k f [] = ground arith
  lookup-modify j k f ((i, s) ∷ m) = ground (arith, lookup-modify j k f m)

  pub lookup_below : (lo k : ℕ) (m : Rows R) → IsAscending lo m → k < lo → lookup k m ≡ none
  unfolding lookup
  lookup_below lo k [] a h = refl
  lookup_below lo k ((j, s) ∷ m) a h = ground (arith, lookup_below (suc j) k m a.1)

  pub lookup-erase_ne : (j k : ℕ) (m : Rows R) → j ≢ k → lookup j (erase k m) ≡ lookup j m
  unfolding lookup erase
  lookup-erase_ne j k [] ne = refl
  lookup-erase_ne j k ((i, s) ∷ m) ne = ground (arith, lookup-erase_ne j k m)

  pub lookup-erase_self : (lo k : ℕ) (m : Rows R) → IsAscending lo m → lookup k (erase k m) ≡ none
  unfolding lookup erase
  lookup-erase_self lo k [] a = refl
  lookup-erase_self lo k ((j, s) ∷ m) a =
      ground (arith, lookup-erase_self (suc j) k m a.1, lookup_below (suc j) k m a.1)

  pub insert-IsAscending :
      (lo k : ℕ) (r : R) (m : Rows R) → lo ≤ k → IsAscending lo m → IsAscending lo (insert k r m)
  unfolding insert
  insert-IsAscending lo k r [] h a = (h, tt)
  insert-IsAscending lo k r ((j, s) ∷ m) h a = ground (arith, insert-IsAscending (suc j) k r m)

  pub weaken-IsAscending : (lo hi : ℕ) (m : Rows R) → lo ≤ hi → IsAscending hi m → IsAscending lo m
  weaken-IsAscending lo hi [] h a = tt
  weaken-IsAscending lo hi ((j, s) ∷ m) h a = (omega arith, a.1)

  pub erase-IsAscending : (lo k : ℕ) (m : Rows R) → IsAscending lo m → IsAscending lo (erase k m)
  unfolding erase
  erase-IsAscending lo k [] a = tt
  erase-IsAscending lo k ((j, s) ∷ m) a =
      ground (arith, erase-IsAscending (suc j) k m a.1, weaken-IsAscending lo (suc j) m)

  pub modify-IsAscending :
      (lo k : ℕ) (f : R → R) (m : Rows R) → IsAscending lo m → IsAscending lo (modify k f m)
  unfolding modify
  modify-IsAscending lo k f [] a = tt
  modify-IsAscending lo k f ((j, s) ∷ m) a = ground (arith, modify-IsAscending (suc j) k f m a.1)

  pub erase_missing : (k : ℕ) (m : Rows R) → lookup k m ≡ none → erase k m ≡ m
  unfolding lookup erase
  erase_missing k [] h = refl
  erase_missing k ((j, s) ∷ m) h = ground (arith, h, erase_missing k m)
