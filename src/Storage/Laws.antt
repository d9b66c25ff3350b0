-- ===== src/Storage/Laws.antt =====
-- What a table holds at a key after each call: the interface's laws at `get`.
use mathlib.Core.Option
use expensesapp.Prelude.{
  ℕ, ◌≡◌, ◌≢◌, ◌∙◌, Option, none, some, ◌==◌, if◌then◌else◌, get_or, refl, ap,
}
use expensesapp.Storage.{Store}
use expensesapp.Storage.Keyed.{
  HasId, id, set_id, lookup, insert, insert_new, keep_rows, lookup-insert, lookup-modify,
  lookup-erase_ne, lookup-erase_self,
}

module _ {R : Type 0} ⦃h : HasId R⦄ (st : Store R) where
  open st use {Table, rows, next_key, get, put, add, update, delete}

  pub get-update :
      (j k : ℕ) (f : R → R) (t : Table)
      → get j (update k f t) ≡ (if j == k then Option.map f (get k t) else get j t)
  get-update j k f t = simp (st.get-rows, st.rows-update) (lookup-modify j k f (rows t))

  pub get-delete_ne : (j k : ℕ) (t : Table) → j ≢ k → get j (delete k t) ≡ get j t
  get-delete_ne j k t ne = simp (st.get-rows, st.rows-delete) (lookup-erase_ne j k (rows t) ne)

  pub get-delete_self : (k : ℕ) (t : Table) → get k (delete k t) ≡ none
  get-delete_self k t =
      simp (st.get-rows, st.rows-delete) (lookup-erase_self 0 k (rows t) (st.rows-IsAscending t))

  pub get-put :
      (j k : ℕ) (r : R) (t : Table)
      → id r ≡ some k
      → get j (put r t) ≡ (if j == k then some (set_id k r) else get j t)
  get-put j k r t e = simp (st.get-rows, st.rows-put, e) (lookup-insert j k (set_id k r) (rows t))

  -- `add` of a row that has no key yet succeeds, under a key that was free.
  pub rows-add_new :
      (r : R) (t : Table)
      → id r ≡ none
      → (t' : Table) × (add r t ≡ some (next_key t, t'))
        × (rows t' ≡ insert (next_key t) (set_id (next_key t) r) (rows t))
  rows-add_new r t e = split (add r t) law
    where
      law :
          keep_rows rows (add r t)
          ≡ some (next_key t, insert (next_key t) (set_id (next_key t) r) (rows t))
      law = st.rows-add r t ∙ (rw (e, st.next_key-fresh t))

      split :
          (o : Option (ℕ × Table))
          → keep_rows rows o
            ≡ some (next_key t, insert (next_key t) (set_id (next_key t) r) (rows t))
          → (t' : Table) × (o ≡ some (next_key t, t'))
            × (rows t' ≡ insert (next_key t) (set_id (next_key t) r) (rows t))
      split none q = cc
      split (some (k, t')) q = (t', cc, cc)

  -- Whenever `add` succeeds it writes the row, with its key, at a key that was free.
  pub rows-add_ok :
      (r : R) (t : Table) {k : ℕ} {t' : Table}
      → add r t ≡ some (k, t')
      → (lookup k (rows t) ≡ none)
        × (rows t' ≡ insert k (set_id k r) (rows t))
        × (k ≡ get_or (id r) (next_key t))
  rows-add_ok r t {k} {t'} e =
      split (lookup (get_or (id r) (next_key t)) (rows t)) refl (rw e at (st.rows-add r t))
    where
      n : ℕ
      n = get_or (id r) (next_key t)

      split :
          (o : Option R)
          → lookup n (rows t) ≡ o
          → some (k, rows t') ≡ insert_new n (set_id n r) (rows t) o
          → (lookup k (rows t) ≡ none) × (rows t' ≡ insert k (set_id k r) (rows t)) × (k ≡ n)
      split none free q = let e : k ≡ n = cc in (rw e free, rw e (cc), e)
      split (some s) taken q = cc

  -- The table after an `add` of a row that has no key yet.
  pub get-add_new :
      (r : R) (t : Table)
      → id r ≡ none
      → (t' : Table) × (add r t ≡ some (next_key t, t'))
        × ((j : ℕ) → get j t' ≡ (if j == next_key t then some (set_id (next_key t) r) else get j t))
  get-add_new r t e =
      let made = rows-add_new r t e in
      (
        made.0,
        made.1,
        λ j.
            st.get-rows j made.0
            ∙ ap (lookup j) made.2
            ∙ simp st.get-rows (lookup-insert j (next_key t) (set_id (next_key t) r) (rows t)),
      )
