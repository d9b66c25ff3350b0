-- ===== src/Ledger/Transfer/Replacing.antt =====
-- Replacing the legs of a transfer leaves what every account started from as it was.
use expensesapp.Prelude.{
  ℕ, ◌≡◌, refl, ap, sym, ◌∙◌, true, some, List, [], length, find, ◌==◌, ==_iff, Bool-cases, inl,
  inr, eq_of_some, ==_sym_false,
}
use expensesapp.Prelude.Int.{ℤ, pos, ◌+ℤ◌, int_laws}
use expensesapp.Prelude.Text.{Text}
use expensesapp.Models.{Account, Transaction}
use expensesapp.Ledger.Delta.{get_balance_delta}
use expensesapp.Ledger.Database.{
  Faults, Dexie, Db, ok, Push, set_balance, with_balance, unexpected_record_count,
}
use expensesapp.Ledger.Opening.{opening, bind_ok, settle_keeps, get-set_balance, effect_on}
use expensesapp.Ledger.Moves.{
  Moves, Moves-trans, Moves-opening, credit-Moves, nothing, effect_of, ◌and◌, Shift-unmoved,
}
use expensesapp.Ledger.Transfer.{
  Touched, touched_set, is_out, is_in, load_touched, add_leg, credit_same_touched,
  credit_other_touched, apply_legs, created_of, revert_records, group_records,
  replace_transfer_body, replace_transfer, found,
}
use expensesapp.Ledger.Transfer.Applying.{add_leg-ok, found-ok}
use expensesapp.Ledger.Transfer.Reverting.{
  HoldsKeys, IsCoherent, guarded, load_touched-ok, group_records-AreStored, no-IsCoherent,
  revert_records-ok,
}

balanced_legs : (x y : ℤ) → x +ℤ y +ℤ pos 0 +ℤ pos 0 ≡ pos 0 +ℤ pos 0 +ℤ x +ℤ y
balanced_legs x y = omega int_laws

module _ (dx : Dexie) (faults : Faults dx) (now : Text) where
  add_leg-Moves :
      (created : Text) (tx : Transaction) (db : Db dx) (p : Transaction × Db dx)
      → add_leg dx faults now created tx db ≡ ok p
      → Moves dx db p.1 nothing (effect_of tx)
  add_leg-Moves created tx db p h =
      let written = add_leg-ok dx faults now created tx db p h in
      record {
        shifts = λ j.
            rw (written.0) (Shift-unmoved (λ t. pos 0) (dx.accounts.get j db.accounts) (λ t. refl));
        effects_move = written.1;
      }

  -- The second balance write, on the account of the first one or on another.
  credit_same_touched-Moves :
      (in_account refreshed : Account) (in_tx : Transaction) (touched : Touched) (db : Db dx)
      (p : Touched × Db dx)
      → dx.accounts.get in_tx.account_id db.accounts ≡ some refreshed
      → in_account.type ≡ refreshed.type
      → credit_same_touched dx faults now in_account in_tx touched db ≡ ok p
      → Moves dx db p.1 (effect_of in_tx) nothing
  unfolding credit_same_touched
  credit_same_touched-Moves in_account refreshed in_tx touched db p here type h =
      bind_ok (found in_tx.account_id (dx.accounts.get in_tx.account_id db.accounts)) _ h
        λ a loaded h1.
          let same_row : refreshed ≡ a = eq_of_some (
            sym here
            ∙ found-ok dx faults now in_tx.account_id (dx.accounts.get in_tx.account_id db.accounts)
                loaded) in
          let balance = a.balance +ℤ get_balance_delta in_account in_tx in
          let same : set_balance dx in_tx.account_id balance now db ≡ p.1 = cc in
          rw (← same) (
            credit-Moves dx in_tx now a in_account db (here ∙ ap some same_row)
              (type ∙ ap (λ (x : Account). x.type) same_row))

  credit_other_touched-Moves :
      (in_account : Account) (in_tx : Transaction) (touched : Touched) (db : Db dx)
      (p : Touched × Db dx)
      → dx.accounts.get in_tx.account_id db.accounts ≡ some in_account
      → credit_other_touched dx faults now in_account in_tx touched db ≡ ok p
      → Moves dx db p.1 (effect_of in_tx) nothing
  unfolding credit_other_touched
  credit_other_touched-Moves in_account in_tx touched db p here h =
      let balance = in_account.balance +ℤ get_balance_delta in_account in_tx in
      let same : set_balance dx in_tx.account_id balance now db ≡ p.1 = cc in
      rw (← same) (credit-Moves dx in_tx now in_account in_account db here refl)

  apply_legs-Moves :
      (out_tx in_tx : Transaction) (touched : Touched) (db : Db dx) (p : Touched × Db dx)
      → IsCoherent dx touched db
      → apply_legs dx faults now out_tx in_tx touched db ≡ ok p
      → Moves dx db p.1 (effect_of out_tx and effect_of in_tx) (nothing and nothing)
  unfolding apply_legs
  apply_legs-Moves out_tx in_tx touched db p coherent h =
      bind_ok (load_touched dx faults now out_tx.account_id touched db) _ h λ a loaded h1.
        bind_ok (load_touched dx faults now in_tx.account_id touched db) _ h1 λ b loaded' h2.
          let k = out_tx.account_id in
          let n = in_tx.account_id in
          let here = load_touched-ok dx faults now k touched db a coherent loaded in
          let there = load_touched-ok dx faults now n touched db b coherent loaded' in
          let balance = a.balance +ℤ get_balance_delta a out_tx in
          let db1 = set_balance dx k balance now db in
          let touched1 = touched_set k (with_balance balance now a) touched in
          let written = get-set_balance dx n k balance now a db here in
          Moves-trans dx (credit-Moves dx out_tx now a a db here refl) (elim (Bool-cases (k == n)) [
            | inl one ↦
                let at : k ≡ n = (==_iff k n).0 one in
                let same_row : a ≡ b =
                  eq_of_some
                    (sym here ∙ ap (λ (i : ℕ). dx.accounts.get i db.accounts) at ∙ there) in
                let on_it : (n == k) ≡ true = (==_iff n k).1 (sym at) in
                credit_same_touched-Moves b (with_balance balance now a) in_tx touched1 db1 p
                  (written ∙ rw on_it refl) (ap (λ (x : Account). x.type) (sym same_row))
                  (rw one at h2)
            | inr two ↦
                credit_other_touched-Moves b in_tx touched1 db1 p
                  (written ∙ rw (==_sym_false k n two) there) (rw two at h2)
          ])

  replace_transfer_body-opening :
      (group : Text) (out_tx in_tx : Transaction) (db : Db dx) (ps : List Push) (db' : Db dx)
      → HoldsKeys dx db
      → replace_transfer_body dx faults now group out_tx in_tx db ≡ ok (ps, db')
      → (j : ℕ) → opening dx j db' ≡ opening dx j db
  unfolding replace_transfer_body
  replace_transfer_body-opening group out_tx in_tx db ps db' keyed h j =
      let records = group_records dx faults now group db in
      let checked =
        guarded (length records == 2) (unexpected_record_count group (length records)) _ h in
      bind_ok (revert_records dx faults now records [] db) _ checked λ q1 reverted h1.
        bind_ok (apply_legs dx faults now out_tx in_tx q1.0 q1.1) _ h1 λ q2 applied h2.
          bind_ok
            (add_leg dx faults now
              (created_of dx faults now (find (λ t. is_out t.transfer_direction) records)) out_tx
              q2.1)
            _ h2
            λ q3 added h3.
              bind_ok
                (add_leg dx faults now
                  (created_of dx faults now (find (λ t. is_in t.transfer_direction) records)) in_tx
                  q3.1)
                _ h3
                λ q4 added' h4.
                  let kept =
                    revert_records-ok dx faults now 0 records [] db q1
                      (group_records-AreStored dx faults now group db keyed) (no-IsCoherent dx db)
                      reverted in
                  let moves =
                    Moves-trans dx
                      (Moves-trans dx (apply_legs-Moves out_tx in_tx q1.0 q1.1 q2 kept.1 applied)
                        (add_leg-Moves _ out_tx q2.1 q3 added))
                      (add_leg-Moves _ in_tx q3.1 q4 added') in
                  let same : q4.1 ≡ db' = cc in
                  rw (← same) (
                    Moves-opening dx moves
                      (λ i t. balanced_legs (effect_on i t out_tx) (effect_on i t in_tx)) j
                    ∙ kept.0 j)

  -- Replacing the two legs of a transfer by two others, on the same accounts or on different ones,
  -- leaves the opening balance of every account as it was, whether the call succeeds or fails,
  -- provided that each stored transaction holds its own key.
  pub replace_transfer-opening :
      (group : Text) (out_tx in_tx : Transaction) (db : Db dx)
      → HoldsKeys dx db
      → (j : ℕ)
      → opening dx j (replace_transfer dx faults now group out_tx in_tx db).1 ≡ opening dx j db
  unfolding replace_transfer
  replace_transfer-opening group out_tx in_tx db keyed j =
      settle_keeps dx (λ db'. opening dx j db' ≡ opening dx j db) faults db
        (replace_transfer_body dx faults now group out_tx in_tx db) refl
        (λ ps db' h. replace_transfer_body-opening group out_tx in_tx db ps db' keyed h j)
