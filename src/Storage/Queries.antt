-- ===== src/Storage/Queries.antt =====
-- The rows that a query returns: each stands under its key, in the order of the keys.
use expensesapp.Prelude.{
  All, ℕ, suc, ◌≤◌, ◌≡◌, ◌∙◌, Bool, Option, some, List, [], ◌∷◌, filter, arith, Bool-cases, inl,
  inr,
}
use expensesapp.Storage.{Store}
use expensesapp.Storage.Keyed.{HasId, Rows, rows_of, lookup, IsAscending}

-- The rows stand under keys that ascend from `lo`.
abbrev pub Stands : {R : Type 0} → (ℕ → Option R) → ℕ → List R → Type 0
Stands at lo [] = Unit
Stands at lo (r ∷ rs) = (k : ℕ) × (lo ≤ k) × (at k ≡ some r) × Stands at (suc k) rs

module _ {R : Type 0} where
  pub Stands-agree :
      (at at' : ℕ → Option R) (lo lo' : ℕ) (rs : List R)
      → lo' ≤ lo
      → ((k : ℕ) → lo ≤ k → at' k ≡ at k)
      → Stands at lo rs
      → Stands at' lo' rs
  Stands-agree at at' lo lo' [] h same s = tt
  Stands-agree at at' lo lo' (r ∷ rs) h same (k, above, here, rest) = (
    k,
    omega arith,
    same k above ∙ here,
    Stands-agree at at' (suc k) (suc k) rs (omega arith) (λ i hi. same i (omega arith)) rest,
  )

  pub Stands-All :
      (P : R → Type 0) (at : ℕ → Option R) (lo : ℕ) (rs : List R)
      → Stands at lo rs
      → ((k : ℕ) (r : R) → at k ≡ some r → P r)
      → All P rs
  Stands-All P at lo [] s h = tt
  Stands-All P at lo (r ∷ rs) (k, above, here, rest) h =
      (h k r here, Stands-All P at (suc k) rs rest h)

  lookup_above : (j k : ℕ) (s : R) (m : Rows R) → suc j ≤ k → lookup k ((j, s) ∷ m) ≡ lookup k m
  unfolding lookup
  lookup_above j k s m h = ground arith

  lookup_here : (j : ℕ) (s : R) (m : Rows R) → lookup j ((j, s) ∷ m) ≡ some s
  unfolding lookup
  lookup_here j s m = ground arith

  pub filter-Stands :
      (p : R → Bool) (lo : ℕ) (m : Rows R)
      → IsAscending lo m
      → Stands (λ k. lookup k m) lo (filter p (rows_of m))
  filter-Stands p lo [] a = tt
  filter-Stands p lo ((j, s) ∷ m) a = elim (Bool-cases (p s)) [
    | inl hit ↦ rw hit (
      j,
      a.0,
      lookup_here j s m,
      Stands-agree (λ k. lookup k m) (λ k. lookup k ((j, s) ∷ m)) (suc j) (suc j)
          (filter p (rows_of m)) (omega arith) (λ k h. lookup_above j k s m h)
          (filter-Stands p (suc j) m a.1),
    )
    | inr miss ↦ rw miss (
        Stands-agree (λ k. lookup k m) (λ k. lookup k ((j, s) ∷ m)) (suc j) lo
          (filter p (rows_of m)) (omega (arith, a.0)) (λ k h. lookup_above j k s m h)
          (filter-Stands p (suc j) m a.1))
  ]

  module _ ⦃h : HasId R⦄ (st : Store R) where
    pub query-Stands : (p : R → Bool) (t : st.Table) → Stands (λ k. st.get k t) 0 (st.query p t)
    query-Stands p t = rw (st.query-rows p t) (
        Stands-agree (λ k. lookup k (st.rows t)) (λ k. st.get k t) 0 0
          (filter p (rows_of (st.rows t))) (omega arith) (λ k above. st.get-rows k t)
          (filter-Stands p 0 (st.rows t) (st.rows-IsAscending t)))
