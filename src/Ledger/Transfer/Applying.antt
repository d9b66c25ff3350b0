-- ===== src/Ledger/Transfer/Applying.antt =====
-- Writing both legs of a transfer leaves what every account started from as it was.
use mathlib.Core.Path.{ap₂}
use expensesapp.Prelude.{
  eq_of_some, none, ℕ, ◌≡◌, refl, ◌∙◌, false, true, List, some, Option, ◌==◌, if◌then◌else◌, ==_iff,
  ap, ==_sym_false, Bool, sym, Bool-cases, inl, inr,
}
use expensesapp.Prelude.Int.{ℤ, ◌+ℤ◌, add_first, add_second, add_both, add_neither}
use expensesapp.Prelude.Text.{Text}
use expensesapp.Models.{Account, AccountType, Transaction}
use expensesapp.Ledger.Delta.{get_balance_delta}
use expensesapp.Ledger.Database.{
  Faults, Dexie, Db, ok, set_balance, load_account, Push, with_balance, add_transaction, placed,
}
use expensesapp.Ledger.Opening.{
  opening, effects, effect_on, bind_ok, settle_keeps, get_balance_delta-at, effect_on_other,
  add_transaction-ok, effect_on-placed, get-set_balance, load_account-ok, effects-set_balance,
}
use expensesapp.Ledger.Single.Opening.{opening_of_move}
use expensesapp.Ledger.Single.Replacing.{opening_of_moves}
use expensesapp.Ledger.Transfer.{
  add_leg, credit_same, credit_other, apply_transfer_body, apply_transfer, same_group, found,
}

module _ (dx : Dexie) (faults : Faults dx) (now : Text) where
  pub add_leg-ok :
      (created : Text) (tx : Transaction) (db : Db dx) (p : Transaction × Db dx)
      → add_leg dx faults now created tx db ≡ ok p
      → (p.1.accounts ≡ db.accounts)
        × ((j : ℕ) (t : AccountType) → effects dx j t p.1 ≡ effects dx j t db +ℤ effect_on j t tx)
  unfolding add_leg
  add_leg-ok created tx db p h =
      bind_ok (add_transaction dx (placed dx created now tx db) db) _ h λ q inserted h1.
        let same : q.1 ≡ p.1 = cc in
        let (accounts, effect) = add_transaction-ok dx (placed dx created now tx db) db inserted in
        (
          rw (← same) accounts,
          λ j t. rw (← same) (
              effect j t
              ∙ ap (λ (e : ℤ). effects dx j t db +ℤ e) (effect_on-placed dx created now tx db j t)),
        )

  -- The two inserted legs together.
  pub AddsLegs : Transaction → Transaction → Db dx → Db dx → Type 0
  AddsLegs out_tx in_tx db db' =
      (db'.accounts ≡ db.accounts)
      × ((j : ℕ) (t : AccountType)
          → effects dx j t db' ≡ effects dx j t db +ℤ effect_on j t out_tx +ℤ effect_on j t in_tx)

  -- Both legs on one account.
  same-opening :
      (out_tx in_tx : Transaction) (a : Account) (db db2 db4 : Db dx) (balance : ℤ)
      → dx.accounts.get in_tx.account_id db.accounts ≡ some a
      → out_tx.account_id ≡ in_tx.account_id
      → ((j : ℕ)
          → dx.accounts.get j db2.accounts ≡ (
              if j == in_tx.account_id
              then some (with_balance balance now a)
              else dx.accounts.get j db.accounts))
      → ((j : ℕ) (t : AccountType) → effects dx j t db2 ≡ effects dx j t db)
      → balance ≡ a.balance +ℤ get_balance_delta a out_tx +ℤ get_balance_delta a in_tx
      → AddsLegs out_tx in_tx db2 db4
      → (j : ℕ) → opening dx j db4 ≡ opening dx j db
  unfolding AddsLegs
  same-opening out_tx in_tx a db db2 db4 balance e one written kept eb (accounts, effect) =
      let k = in_tx.account_id in
      let effect' : (j : ℕ) (t : AccountType)
          → effects dx j t db4 ≡ effects dx j t db +ℤ effect_on j t out_tx +ℤ effect_on j t in_tx =
        λ j t.
          effect j t
          ∙ ap (λ (x : ℤ). x +ℤ effect_on j t out_tx +ℤ effect_on j t in_tx) (kept j t) in
      opening_of_move dx k a (with_balance balance now a) db db4 e
        (λ j. ap (dx.accounts.get j) accounts ∙ written j) refl
        (rw (eb, get_balance_delta-at k a out_tx one, get_balance_delta-at k a in_tx refl)
          (add_both _ _ _ _ _ (effect' k a.type)))
        (λ j t other.
          add_neither _ _ _ _ (effect' j t) (effect_on_other j t out_tx (rw one other))
            (effect_on_other j t in_tx other))

  -- The legs on two accounts.
  other-opening :
      (out_tx in_tx : Transaction) (a b : Account) (db db2 db4 : Db dx) (x y : ℤ)
      → dx.accounts.get out_tx.account_id db.accounts ≡ some a
      → dx.accounts.get in_tx.account_id db.accounts ≡ some b
      → (in_tx.account_id == out_tx.account_id) ≡ false
      → ((j : ℕ)
          → dx.accounts.get j db2.accounts ≡ (
              if j == in_tx.account_id
              then some (with_balance y now b)
              else if j == out_tx.account_id
              then some (with_balance x now a)
              else dx.accounts.get j db.accounts))
      → ((j : ℕ) (t : AccountType) → effects dx j t db2 ≡ effects dx j t db)
      → x ≡ a.balance +ℤ get_balance_delta a out_tx
      → y ≡ b.balance +ℤ get_balance_delta b in_tx
      → AddsLegs out_tx in_tx db2 db4
      → (j : ℕ) → opening dx j db4 ≡ opening dx j db
  unfolding AddsLegs
  other-opening out_tx in_tx a b db db2 db4 x y ea eb ne written kept ex ey (accounts, effect) =
      let k = out_tx.account_id in
      let n = in_tx.account_id in
      let effect' : (j : ℕ) (t : AccountType)
          → effects dx j t db4 ≡ effects dx j t db +ℤ effect_on j t out_tx +ℤ effect_on j t in_tx =
        λ j t.
          effect j t
          ∙ ap (λ (x : ℤ). x +ℤ effect_on j t out_tx +ℤ effect_on j t in_tx) (kept j t) in
      opening_of_moves dx k n a (with_balance x now a) b (with_balance y now b) db db4 ne ea eb
        (λ j. ap (dx.accounts.get j) accounts ∙ written j) refl refl
        (rw (ex, get_balance_delta-at k a out_tx refl)
          (add_first _ _ _ _ _ (effect' k a.type)
            (effect_on_other k a.type in_tx (==_sym_false n k ne))))
        (rw (ey, get_balance_delta-at n b in_tx refl)
          (add_second _ _ _ _ _ (effect' n b.type) (effect_on_other n b.type out_tx ne)))
        (λ j t other1 other2.
          add_neither _ _ _ _ (effect' j t) (effect_on_other j t out_tx other1)
            (effect_on_other j t in_tx other2))

  pub found-ok : (k : ℕ) (o : Option Account) {a : Account} → found k o ≡ ok a → o ≡ some a
  found-ok k none h = cc
  found-ok k (some b) h = cc

  if_twice :
      {A : Type 0} (c : Bool) (x y z w : A)
      → z ≡ (if c then y else w)
      → (if c then x else z) ≡ (if c then x else w)
  if_twice true x y z w e = refl
  if_twice false x y z w e = e

  -- The balance write of the IN leg, on whichever branch, and then the two legs.
  credit_same-opening :
      (out_tx in_tx : Transaction) (a b : Account) (db db4 : Db dx) (p : List Account × Db dx)
      → dx.accounts.get out_tx.account_id db.accounts ≡ some a
      → dx.accounts.get in_tx.account_id db.accounts ≡ some b
      → (out_tx.account_id == in_tx.account_id) ≡ true
      → credit_same dx faults now b in_tx
          (set_balance dx out_tx.account_id (a.balance +ℤ get_balance_delta a out_tx) now db)
        ≡ ok p
      → AddsLegs out_tx in_tx p.1 db4
      → (j : ℕ) → opening dx j db4 ≡ opening dx j db
  unfolding credit_same
  credit_same-opening out_tx in_tx a b db db4 p ea eb same h legs j =
      let one = (==_iff out_tx.account_id in_tx.account_id).0 same in
      let n = in_tx.account_id in
      let x = a.balance +ℤ get_balance_delta a out_tx in
      let db1 = set_balance dx out_tx.account_id x now db in
      let ab : a ≡ b =
        eq_of_some (sym ea ∙ ap (λ (k : ℕ). dx.accounts.get k db.accounts) one ∙ eb) in
      let read1 : (j : ℕ)
          → dx.accounts.get j db1.accounts
            ≡ (if j == n then some (with_balance x now a) else dx.accounts.get j db.accounts) =
        λ j.
          get-set_balance dx j out_tx.account_id x now a db ea
          ∙ ap
              (λ (k : ℕ).
                if j == k then some (with_balance x now a) else dx.accounts.get j db.accounts)
              one in
      let fresh : dx.accounts.get n db1.accounts ≡ some (with_balance x now a) =
        read1 n ∙ rw ((==_iff n n).1 refl) in
      bind_ok (found n (dx.accounts.get n db1.accounts)) _ h λ c loaded h1.
        let ec : c ≡ with_balance x now a =
          eq_of_some (sym (found-ok n (dx.accounts.get n db1.accounts) loaded) ∙ fresh) in
        let y = c.balance +ℤ get_balance_delta b in_tx in
        let state : set_balance dx n y now db1 ≡ p.1 = cc in
        let ey : y ≡ x +ℤ get_balance_delta a in_tx =
          ap₂ ◌+ℤ◌ (ap (λ (c : Account). c.balance) ec)
            (ap (λ (b : Account). get_balance_delta b in_tx) (sym ab)) in
        same-opening out_tx in_tx a db p.1 db4 y (rw (← one) ea) one
          (λ j. rw (← state) (
            get-set_balance dx j n y now (with_balance x now a) db1 fresh
            ∙ if_twice (j == n) (some (with_balance y now a)) (some (with_balance x now a)) _ _
                (read1 j)))
          (λ j t. rw (← state) (
            effects-set_balance dx j n t y now db1
            ∙ effects-set_balance dx j out_tx.account_id t x now db))
          ey legs j

  credit_other-opening :
      (out_tx in_tx : Transaction) (a b c : Account) (db db4 : Db dx) (p : List Account × Db dx)
      → dx.accounts.get out_tx.account_id db.accounts ≡ some a
      → dx.accounts.get in_tx.account_id db.accounts ≡ some b
      → (out_tx.account_id == in_tx.account_id) ≡ false
      → credit_other dx faults now c b in_tx
          (set_balance dx out_tx.account_id (a.balance +ℤ get_balance_delta a out_tx) now db)
        ≡ ok p
      → AddsLegs out_tx in_tx p.1 db4
      → (j : ℕ) → opening dx j db4 ≡ opening dx j db
  unfolding credit_other
  credit_other-opening out_tx in_tx a b c db db4 p ea eb ne h legs j =
      let k = out_tx.account_id in
      let n = in_tx.account_id in
      let x = a.balance +ℤ get_balance_delta a out_tx in
      let y = b.balance +ℤ get_balance_delta b in_tx in
      let db1 = set_balance dx k x now db in
      let state : set_balance dx n y now db1 ≡ p.1 = cc in
      let read1 : (j : ℕ)
          → dx.accounts.get j db1.accounts
            ≡ (if j == k then some (with_balance x now a) else dx.accounts.get j db.accounts) =
        λ j. get-set_balance dx j k x now a db ea in
      let apart = ==_sym_false k n ne in
      let eb1 : dx.accounts.get n db1.accounts ≡ some b = read1 n ∙ rw apart eb in
      other-opening out_tx in_tx a b db p.1 db4 x y ea eb apart
        (λ j. rw (← state) (get-set_balance dx j n y now b db1 eb1 ∙ rw (read1 j)))
        (λ j t.
          rw (← state)
            (effects-set_balance dx j n t y now db1 ∙ effects-set_balance dx j k t x now db))
        refl refl legs j

  apply_transfer_body-opening :
      (out_tx in_tx : Transaction) (db : Db dx) (ps : List Push) (db' : Db dx)
      → apply_transfer_body dx faults now out_tx in_tx db ≡ ok (ps, db')
      → (j : ℕ) → opening dx j db' ≡ opening dx j db
  unfolding apply_transfer_body AddsLegs
  apply_transfer_body-opening out_tx in_tx db ps db' h j =
      bind_ok (load_account dx out_tx.account_id db) _ h λ a loaded_a h1.
        bind_ok (load_account dx in_tx.account_id db) _ h1 λ b loaded_b h2.
          let ea = (load_account-ok dx out_tx.account_id db loaded_a).0 in
          let eb = (load_account-ok dx in_tx.account_id db loaded_b).0 in
          let x = a.balance +ℤ get_balance_delta a out_tx in
          let db1 = set_balance dx out_tx.account_id x now db in
          bind_ok
            (if out_tx.account_id == in_tx.account_id
              then credit_same dx faults now b in_tx db1
              else credit_other dx faults now (with_balance x now a) b in_tx db1)
            _ h2
            λ p balances h3. bind_ok (add_leg dx faults now now out_tx p.1) _ h3 λ q out_leg h4.
              bind_ok (add_leg dx faults now now in_tx q.1) _ h4 λ r in_leg h5.
                let (accounts1, effect1) = add_leg-ok now out_tx p.1 q out_leg in
                let (accounts2, effect2) = add_leg-ok now in_tx q.1 r in_leg in
                let legs : AddsLegs out_tx in_tx p.1 r.1 = (
                  accounts2 ∙ accounts1,
                  λ j t. effect2 j t ∙ ap (λ (e : ℤ). e +ℤ effect_on j t in_tx) (effect1 j t),
                ) in
                let done : r.1 ≡ db' = cc in
                rw (← done) elim (Bool-cases (out_tx.account_id == in_tx.account_id)) [
                  | inl one ↦
                      credit_same-opening out_tx in_tx a b db r.1 p ea eb one (rw one at balances)
                        legs j
                  | inr other ↦
                      credit_other-opening out_tx in_tx a b (with_balance x now a) db r.1 p ea eb
                        other (rw other at balances) legs j
                ]

  -- Writing a transfer leaves the opening balance of every account as it was: on two accounts or
  -- on one, for accounts of any type, and whether the call succeeds or fails.
  pub apply_transfer-opening :
      (out_tx in_tx : Transaction) (db : Db dx) (j : ℕ)
      → opening dx j (apply_transfer dx faults now out_tx in_tx db).1 ≡ opening dx j db
  unfolding apply_transfer
  apply_transfer-opening out_tx in_tx db j =
      elim (Bool-cases (same_group out_tx.transfer_group_id in_tx.transfer_group_id)) [
        | inl same ↦ rw same (
            settle_keeps dx (λ db'. opening dx j db' ≡ opening dx j db) faults db
              (apply_transfer_body dx faults now out_tx in_tx db) refl
              (λ ps db' h. apply_transfer_body-opening out_tx in_tx db ps db' h j))
        | inr other ↦ rw other
      ]
