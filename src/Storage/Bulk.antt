-- ===== src/Storage/Bulk.antt =====
-- Dexie's `bulkAdd`, of which the documentation says that it adds the rows as `add` does.
use expensesapp.Prelude.{ℕ, Option, none, some, List, [], ◌∷◌}
use expensesapp.Storage.{Store}
use expensesapp.Storage.Keyed.{HasId}
use expensesapp.Sync.Outbox.Conflict.{and_then}

-- A key that is taken aborts the transaction.
module _ {R : Type 0} ⦃h : HasId R⦄ (st : Store R) where
  abbrev pub table_of : Option (ℕ × st.Table) → Option st.Table
  table_of none = none
  table_of (some (k, t)) = some t

  unfoldable pub bulk_add : List R → st.Table → Option st.Table
  bulk_add [] t = some t
  bulk_add (r ∷ rs) t = and_then (table_of (st.add r t)) (bulk_add rs)
