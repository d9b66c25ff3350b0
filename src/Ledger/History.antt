-- ===== src/Ledger/History.antt =====
-- Sequences of writes of src/services/balance.service.ts: what a ledger started from is still there
-- after all of them.
use expensesapp.Prelude.{ℕ, ◌≡◌, refl, ◌∙◌, Bool, true, false, ◌||◌, any, some, List, [], ◌∷◌, ◌==◌}
use expensesapp.Prelude.Text.{Text}
use expensesapp.Models.{Transaction}
use expensesapp.Ledger.Database.{Faults, Dexie, Db}
use expensesapp.Ledger.Single.Adjusting.{adjust_balance-other}
use expensesapp.Ledger.Single.Opening.{apply_transaction-opening, revert_transaction-opening}
use expensesapp.Ledger.Single.Replacing.{replace_transaction-opening}
use expensesapp.Ledger.Transfer.Applying.{apply_transfer-opening}
use expensesapp.Ledger.Transfer.Reverting.{HoldsKeys, revert_transfer-opening}
use expensesapp.Ledger.Transfer.Replacing.{replace_transfer-opening}
use expensesapp.Ledger.Opening.{opening}
use expensesapp.Ledger.Atomic.{
  Write, apply, revert, replace, applies_transfer, adjust, reverts_transfer, replaces_transfer, run,
}

-- `adjustBalance` of the account at key `j`.
unfoldable pub adjusts : ℕ → Write → Bool
adjusts j (adjust k balance) = j == k
adjusts j _ = false

module _ (dx : Dexie) where
  -- The transaction is stored under its key.
  pub record IsStored (tx : Transaction) (db : Db dx) : Type 0 where
    pub key : ℕ
    pub has_key : tx.id ≡ some key
    pub stored : dx.transactions.get key db.transactions ≡ some tx

  -- What the callers see to: a transaction that is replaced or deleted is the stored one, and rows
  -- hold their keys where the rows of a transfer are looked up.
  unfoldable pub IsApplicable : Write → Db dx → Type 0
  IsApplicable (apply tx) db = Unit
  IsApplicable (revert tx) db = IsStored tx db
  IsApplicable (replace old_tx new_tx) db = IsStored old_tx db
  IsApplicable (applies_transfer out_tx in_tx) db = Unit
  IsApplicable (adjust k balance) db = Unit
  IsApplicable (reverts_transfer group) db = HoldsKeys dx db
  IsApplicable (replaces_transfer group out_tx in_tx) db = HoldsKeys dx db

  -- Writes one after the other, the last one first, each at its time, and each completed or failed.
  pub data History : Db dx → List Write → Db dx → Type 0 where
    unwritten : (db : Db dx) → History db [] db
    then_write :
        {db db' : Db dx} {ws : List Write} (faults : Faults dx) (now : Text) (w : Write)
        → IsApplicable w db'
        → History db ws db'
        → History db (w ∷ ws) (run dx faults now w db').1

  module _ (faults : Faults dx) (now : Text) where
    run-opening :
        (j : ℕ) (w : Write) (db : Db dx)
        → IsApplicable w db
        → adjusts j w ≡ false
        → opening dx j (run dx faults now w db).1 ≡ opening dx j db
    unfolding IsApplicable adjusts
    run-opening j (apply tx) db h e = apply_transaction-opening dx faults now tx db j
    run-opening j (revert tx) db h e =
        revert_transaction-opening dx faults now h.key tx db h.has_key h.stored j
    run-opening j (replace old_tx new_tx) db h e =
        replace_transaction-opening dx faults now h.key old_tx new_tx db h.has_key h.stored j
    run-opening j (applies_transfer out_tx in_tx) db h e =
        apply_transfer-opening dx faults now out_tx in_tx db j
    run-opening j (adjust k balance) db h e = adjust_balance-other dx faults now j k balance db e
    run-opening j (reverts_transfer group) db h e =
        revert_transfer-opening dx faults now group db h j
    run-opening j (replaces_transfer group out_tx in_tx) db h e =
        replace_transfer-opening dx faults now group out_tx in_tx db h j

  neither : (b c : Bool) → (b || c) ≡ false → (b ≡ false) × (c ≡ false)
  neither false c h = (refl, h)
  neither true c h = cc

  -- After any sequence of writes of the ledger, each of which may fail, that does not adjust the
  -- balance of an account, the opening balance of that account is the one it had at first, provided
  -- that each transaction that is replaced or deleted is then the stored one and that rows hold their
  -- keys where a transfer is replaced or deleted.
  pub History-opening :
      {db db' : Db dx} {ws : List Write} (j : ℕ)
      → History db ws db'
      → any (adjusts j) ws ≡ false
      → opening dx j db' ≡ opening dx j db
  History-opening j (unwritten db) e = refl
  History-opening j (then_write {ws} faults now w applicable before) e =
      let (this, others) = neither (adjusts j w) (any (adjusts j) ws) e in
      run-opening faults now j w _ applicable this ∙ History-opening j before others
