-- ===== src/Ledger/Transfer/Reverting.antt =====
-- Taking the legs of a transfer back leaves what every account started from as it was.
use expensesapp.Prelude.{
  ℕ, suc, ◌≤◌, ◌≡◌, ◌≢◌, refl, ap, sym, ◌∙◌, Bool, true, false, Option, none, some, List, [], ◌∷◌,
  ◌++◌, map, length, not, ◌==◌, if◌then◌else◌, arith, eq_of_some,
}
use expensesapp.Prelude.Int.{ℤ, pos, ◌+ℤ◌, ◌-ℤ◌, neg, int_laws}
use expensesapp.Prelude.Text.{Text, holds_text}
use expensesapp.Models.{Account, Transaction, transaction_has_id}
use expensesapp.Storage.Laws.{get-delete_ne}
use expensesapp.Storage.Queries.{Stands, query-Stands}
use expensesapp.Ledger.Delta.{get_balance_delta}
use expensesapp.Ledger.Database.{
  Faults, Dexie, Db, Error, unexpected_record_count, push_transaction_tombstone, ◌>>=◌, ◌>>◌,
  Result, ok, Push, usable, set_balance, with_balance, delete_transaction,
}
use expensesapp.Ledger.Opening.{
  effect_on, delete_transaction-ok, opening, bind_ok, settle_keeps, get-set_balance,
  set_balance-transactions,
}
use expensesapp.Ledger.Moves.{Moves-trans, Moves-opening, debit-Moves, delete_transaction-Moves}
use expensesapp.Ledger.Transfer.{
  guard_ok, touched_pushes, Touched, touched_get, touched_set, or_else, load_touched, revert_record,
  revert_records, group_records, revert_transfer_body, revert_transfer,
}

touched_get-set :
    (j k : ℕ) (a : Account) (m : Touched)
    → touched_get j (touched_set k a m) ≡ (if j == k then some a else touched_get j m)
touched_get-set j k a [] = refl
touched_get-set j k a ((i, b) ∷ m) = ground (arith, touched_get-set j k a m)

-- Whichever of two sources an account comes from, it is usable.
usable-ok : (k : ℕ) (o : Option Account) (a : Account) → usable k o ≡ ok a → o ≡ some a
usable-ok k o a h = ground arith

-- A check that has passed.
pub guarded :
    {A : Type 0} (b : Bool) (e : Error) (rest : Result A) {a : A}
    → (guard_ok b e >> rest) ≡ ok a
    → rest ≡ ok a
guarded true e rest h = h
guarded false e rest h = cc

swap_zero : (x : ℤ) → x +ℤ pos 0 ≡ pos 0 +ℤ x
swap_zero x = omega int_laws

module _ (dx : Dexie) where
  -- Each transaction holds its own key.
  unfoldable pub HoldsKeys : Db dx → Type 0
  HoldsKeys db =
      (k : ℕ) (tx : Transaction) → dx.transactions.get k db.transactions ≡ some tx → tx.id ≡ some k

  -- The snapshots of the touched accounts are the accounts.
  unfoldable pub IsCoherent : Touched → Db dx → Type 0
  IsCoherent touched db =
      (k : ℕ) (a : Account)
      → touched_get k touched ≡ some a
      → dx.accounts.get k db.accounts ≡ some a

  -- The legs that are still to be taken back.
  abbrev pub AreStored : ℕ → List Transaction → Db dx → Type 0
  AreStored lo [] db = Unit
  AreStored lo (r ∷ rs) db =
      (k : ℕ) × (lo ≤ k)
      × (dx.transactions.get k db.transactions ≡ some r)
      × (r.id ≡ some k)
      × AreStored (suc k) rs db

  AreStored-agree :
      (lo : ℕ) (rs : List Transaction) (db db' : Db dx)
      → ((k : ℕ)
          → lo ≤ k
          → dx.transactions.get k db'.transactions ≡ dx.transactions.get k db.transactions)
      → AreStored lo rs db
      → AreStored lo rs db'
  AreStored-agree lo [] db db' same s = tt
  AreStored-agree lo (r ∷ rs) db db' same (k, above, here, own, rest) = (
    k,
    above,
    same k above ∙ here,
    own,
    AreStored-agree (suc k) rs db db' (λ i hi. same i (omega arith)) rest,
  )

  AreStored-of_Stands :
      (lo : ℕ) (rs : List Transaction) (db : Db dx)
      → HoldsKeys db
      → Stands (λ k. dx.transactions.get k db.transactions) lo rs
      → AreStored lo rs db
  unfolding HoldsKeys
  AreStored-of_Stands lo [] db keyed s = tt
  AreStored-of_Stands lo (r ∷ rs) db keyed (k, above, here, rest) =
      (k, above, here, keyed k r here, AreStored-of_Stands (suc k) rs db keyed rest)

  IsCoherent-accounts :
      (touched : Touched) (db db' : Db dx)
      → db'.accounts ≡ db.accounts
      → IsCoherent touched db
      → IsCoherent touched db'
  unfolding IsCoherent
  IsCoherent-accounts touched db db' same coherent k a h =
      ap (dx.accounts.get k) same ∙ coherent k a h

  delete_transaction-get :
      (n i : ℕ) (key : Option ℕ) (db : Db dx) {db' : Db dx}
      → key ≡ some i
      → delete_transaction dx key db ≡ ok db'
      → n ≢ i
      → dx.transactions.get n db'.transactions ≡ dx.transactions.get n db.transactions
  unfolding delete_transaction
  delete_transaction-get n i none db {db'} e h ne = cc
  delete_transaction-get n i (some k) db {db'} e h ne =
      let keyed : k ≡ i = eq_of_some e in
      let same : record db { transactions = dx.transactions.delete k db.transactions } ≡ db' = cc in
      rw (← same) (get-delete_ne dx.transactions n k db.transactions (rw keyed ne))

  pub no-IsCoherent : (db : Db dx) → IsCoherent [] db
  unfolding IsCoherent
  no-IsCoherent db k a h = cc

  module _ (faults : Faults dx) (now : Text) where
    pub load_touched-ok :
        (k : ℕ) (touched : Touched) (db : Db dx) (a : Account)
        → IsCoherent touched db
        → load_touched dx faults now k touched db ≡ ok a
        → dx.accounts.get k db.accounts ≡ some a
    unfolding load_touched IsCoherent
    load_touched-ok k touched db a coherent h =
        split (touched_get k touched) refl
          (usable-ok k (or_else (touched_get k touched) (dx.accounts.get k db.accounts)) a h)
      where
        split :
            (o : Option Account)
            → touched_get k touched ≡ o
            → or_else o (dx.accounts.get k db.accounts) ≡ some a
            → dx.accounts.get k db.accounts ≡ some a
        split none e q = q
        split (some b) e q = coherent k b e ∙ q

    -- A snapshot that is written with its account stays that account.
    pub set-IsCoherent :
        (k : ℕ) (balance : ℤ) (a : Account) (touched : Touched) (db : Db dx)
        → dx.accounts.get k db.accounts ≡ some a
        → IsCoherent touched db
        → IsCoherent
            (touched_set k (with_balance balance now a) touched)
            (set_balance dx k balance now db)
    unfolding IsCoherent
    set-IsCoherent k balance a touched db here coherent j b h =
        get-set_balance dx j k balance now a db here
        ∙ split (j == k) (sym (touched_get-set j k (with_balance balance now a) touched) ∙ h)
      where
        split :
            (hit : Bool)
            → (if hit then some (with_balance balance now a) else touched_get j touched) ≡ some b
            → (if hit then some (with_balance balance now a) else dx.accounts.get j db.accounts)
              ≡ some b
        split true q = q
        split false q = coherent j b q

    revert_record-ok :
        (lo : ℕ) (r : Transaction) (rs : List Transaction) (touched : Touched) (db : Db dx)
        (p : Touched × Db dx)
        → AreStored lo (r ∷ rs) db
        → IsCoherent touched db
        → revert_record dx faults now r touched db ≡ ok p
        → ((j : ℕ) → opening dx j p.1 ≡ opening dx j db)
          × IsCoherent p.0 p.1
          × ((k : ℕ) × AreStored k rs p.1)
    unfolding revert_record
    revert_record-ok lo r rs touched db p (i, above, here, own, rest) coherent h =
        bind_ok (load_touched dx faults now r.account_id touched db) _ h λ a loaded h1.
          let balance = a.balance -ℤ get_balance_delta a r in
          let k = r.account_id in
          let db1 = set_balance dx k balance now db in
          bind_ok (delete_transaction dx r.id db1) _ h1 λ db2 deleted h2.
            let there = load_touched-ok k touched db a coherent loaded in
            let stored : dx.transactions.get i db1.transactions ≡ some r =
              ap (dx.transactions.get i) (set_balance-transactions dx k balance now db) ∙ here in
            let moves =
              Moves-trans dx (debit-Moves dx r now a a db there refl)
                (delete_transaction-Moves dx i r db1 own stored deleted) in
            let snapshots = touched_set k (with_balance balance now a) touched in
            let same : (snapshots, db2) ≡ p = cc in
            rw (← same) (
              Moves-opening dx moves (λ j t. swap_zero (neg (effect_on j t r))),
              IsCoherent-accounts snapshots db1 db2
                  ((delete_transaction-ok dx i r.id r db1 own stored deleted).0)
                  (set-IsCoherent k balance a touched db there coherent),
              (
                suc i,
                AreStored-agree (suc i) rs db db2
                    (λ n hn.
                      delete_transaction-get n i r.id db1 own deleted (omega arith)
                      ∙ ap (dx.transactions.get n) (set_balance-transactions dx k balance now db))
                    rest,
              ),
            )

    pub revert_records-ok :
        (lo : ℕ) (rs : List Transaction) (touched : Touched) (db : Db dx) (p : Touched × Db dx)
        → AreStored lo rs db
        → IsCoherent touched db
        → revert_records dx faults now rs touched db ≡ ok p
        → ((j : ℕ) → opening dx j p.1 ≡ opening dx j db) × IsCoherent p.0 p.1
    unfolding revert_records
    revert_records-ok lo [] touched db p stored coherent h =
        let same : (touched, db) ≡ p = cc in rw (← same) (λ j. refl, coherent)
    revert_records-ok lo (r ∷ rs) touched db p stored coherent h =
        bind_ok (revert_record dx faults now r touched db) _ h λ q first h1.
          let step = revert_record-ok lo r rs touched db q stored coherent first in
          let rest = revert_records-ok step.2.0 rs q.0 q.1 p step.2.1 step.1 h1 in
          (λ j. rest.0 j ∙ step.0 j, rest.1)

    pub group_records-AreStored :
        (group : Text) (db : Db dx)
        → HoldsKeys db
        → AreStored 0 (group_records dx faults now group db) db
    unfolding group_records
    group_records-AreStored group db keyed =
        AreStored-of_Stands 0 (group_records dx faults now group db) db keyed
          (query-Stands dx.transactions (λ t. holds_text t.transfer_group_id group) db.transactions)

    revert_transfer_body-opening :
        (group : Text) (db : Db dx) (ps : List Push) (db' : Db dx)
        → HoldsKeys db
        → revert_transfer_body dx faults now group db ≡ ok (ps, db')
        → (j : ℕ) → opening dx j db' ≡ opening dx j db
    unfolding revert_transfer_body
    revert_transfer_body-opening group db ps db' keyed h j =
        let records = group_records dx faults now group db in
        let checked =
          guarded (not (length records == 0)) (unexpected_record_count group 0)
            (revert_records dx faults now records [] db >>= λ q.
              ok (map push_transaction_tombstone records ++ touched_pushes q.0, q.1))
            h in
        bind_ok (revert_records dx faults now records [] db) _ checked λ q reverted h1.
          let same : q.1 ≡ db' = cc in
          rw (← same) (
            (revert_records-ok 0 records [] db q (group_records-AreStored group db keyed)
                (no-IsCoherent db) reverted).0
              j)

    -- Deleting the legs of a transfer, as many as there are in its group, leaves the opening
    -- balance of every account as it was, whether the call succeeds or fails, provided that each
    -- stored transaction holds its own key.
    pub revert_transfer-opening :
        (group : Text) (db : Db dx)
        → HoldsKeys db
        → (j : ℕ) → opening dx j (revert_transfer dx faults now group db).1 ≡ opening dx j db
    unfolding revert_transfer
    revert_transfer-opening group db keyed j =
        settle_keeps dx (λ db'. opening dx j db' ≡ opening dx j db) faults db
          (revert_transfer_body dx faults now group db) refl
          (λ ps db' h. revert_transfer_body-opening group db ps db' keyed h j)
