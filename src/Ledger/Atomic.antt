-- ===== src/Ledger/Atomic.antt =====
-- The writes of src/services/balance.service.ts taken together, and what one that fails leaves.
use expensesapp.Prelude.{
  ℕ, ◌≡◌, ◌≢◌, ◌⊎◌, inl, inr, ap, ◌∙◌, Bool, true, false, Option, none, some, List, [], ◌∷◌, refl,
  if◌then◌else◌,
}
use expensesapp.Prelude.Int.{ℤ}
use expensesapp.Prelude.Text.{Text}
use expensesapp.Models.{Transaction}
use expensesapp.Ledger.Database.{
  Faults, Dexie, Db, Error, Result, ok, err, Push, settle, commit, wrap_quota_error, thrown_by,
  or_next, pushed, dom_quota_exceeded_error, other_exception, dexie_error, account_not_found,
  account_archived, group_mismatch, quota_error, unexpected_record_count,
}
use expensesapp.Ledger.Single.{
  apply_transaction, revert_transaction, replace_transaction, adjust_balance,
}
use expensesapp.Ledger.Transfer.{apply_transfer, revert_transfer, replace_transfer, same_group}

-- The exported functions of the service, with their arguments.
pub data Write : Type 0 where
  apply revert : Transaction → Write
  replace applies_transfer : Transaction → Transaction → Write
  adjust : ℕ → ℤ → Write
  reverts_transfer : Text → Write
  replaces_transfer : Text → Transaction → Transaction → Write

wrap_quota_error-ne : (e : Error) → wrap_quota_error e ≢ dom_quota_exceeded_error
wrap_quota_error-ne dom_quota_exceeded_error h = cc
wrap_quota_error-ne other_exception h = cc
wrap_quota_error-ne (dexie_error d) h = cc
wrap_quota_error-ne (account_not_found k) h = cc
wrap_quota_error-ne account_archived h = cc
wrap_quota_error-ne group_mismatch h = cc
wrap_quota_error-ne quota_error h = cc
wrap_quota_error-ne (unexpected_record_count g n) h = cc

module _ (dx : Dexie) (faults : Faults dx) (now : Text) where
  abbrev pub run : Write → Db dx → Result (List Push) × Db dx
  run (apply tx) db = apply_transaction dx faults now tx db
  run (revert tx) db = revert_transaction dx faults now tx db
  run (replace old_tx new_tx) db = replace_transaction dx faults now old_tx new_tx db
  run (applies_transfer out_tx in_tx) db = apply_transfer dx faults now out_tx in_tx db
  run (adjust k balance) db = adjust_balance dx faults now k balance db
  run (reverts_transfer group) db = revert_transfer dx faults now group db
  run (replaces_transfer group out_tx in_tx) db =
      replace_transfer dx faults now group out_tx in_tx db

  -- The call has changed nothing and its error is no quota error of the browser's own, or a push
  -- has thrown the error.
  abbrev pub Explains : Db dx → Error → Db dx → Type 0
  Explains db e db' =
      ((db' ≡ db) × (e ≢ dom_quota_exceeded_error))
      ⊎ ((faults.write db' ≡ none) × (p : Push) × (faults.push p ≡ some e))

  thrown_by-push :
      (ps : List Push) (e : Error)
      → thrown_by dx faults.push ps ≡ some e
      → (p : Push) × (faults.push p ≡ some e)
  thrown_by-push [] e h = cc
  thrown_by-push (p ∷ ps) e h = split (faults.push p) refl (thrown_by-push ps e) h
    where
      split :
          (o : Option Error)
          → faults.push p ≡ o
          → (thrown_by dx faults.push ps ≡ some e → (q : Push) × (faults.push q ≡ some e))
          → or_next dx o (thrown_by dx faults.push ps) ≡ some e
          → (q : Push) × (faults.push q ≡ some e)
      split none same later k = later k
      split (some d) same later k = (p, same ∙ k)

  pushed-failed :
      (ps : List Push) (o : Option Error) (e : Error) → pushed dx ps o ≡ err e → o ≡ some e
  pushed-failed ps none e h = cc
  pushed-failed ps (some d) e h = let same : d ≡ e = cc in ap some same

  commit-failed :
      (db db' : Db dx) (ps : List Push) (o : Option Error) (e : Error)
      → faults.write db' ≡ o
      → (commit dx faults db ps db' o).0 ≡ err e
      → Explains db e (commit dx faults db ps db' o).1
  commit-failed db db' ps none e written h =
      let thrown = thrown_by-push ps e (pushed-failed ps (thrown_by dx faults.push ps) e h) in
      inr (written, thrown.0, thrown.1)
  commit-failed db db' ps (some d) e written h =
      let same : wrap_quota_error d ≡ e = cc in inl (refl, rw (← same) (wrap_quota_error-ne d))

  settle-failed :
      (db : Db dx) (r : Result (List Push × Db dx)) (e : Error)
      → (settle dx faults db r).0 ≡ err e
      → Explains db e (settle dx faults db r).1
  settle-failed db (ok (ps, db')) e h = commit-failed db db' ps (faults.write db') e refl h
  settle-failed db (err d) e h =
      let same : wrap_quota_error d ≡ e = cc in inl (refl, rw (← same) (wrap_quota_error-ne d))

  transfer-failed :
      (b : Bool) (db : Db dx) (r : Result (List Push × Db dx)) (e : Error)
      → (if b then settle dx faults db r else (err group_mismatch, db)).0 ≡ err e
      → Explains db e (if b then settle dx faults db r else (err group_mismatch, db)).1
  transfer-failed true db r e h = settle-failed db r e h
  transfer-failed false db r e h =
      let same : group_mismatch ≡ e = cc in
      inl (refl, rw (← same) (wrap_quota_error-ne group_mismatch))

  -- Where a write of the ledger fails, both tables are as they were and the error is not the
  -- browser's own quota error, or the state that it leaves is one that was written and the error
  -- is that of a push.
  pub run-failed :
      (w : Write) (db : Db dx) (e : Error)
      → (run w db).0 ≡ err e
      → (((run w db).1 ≡ db) × (e ≢ dom_quota_exceeded_error))
        ⊎ ((faults.write (run w db).1 ≡ none) × (p : Push) × (faults.push p ≡ some e))
  unfolding apply_transaction revert_transaction replace_transaction adjust_balance apply_transfer
      revert_transfer replace_transfer
  run-failed (apply tx) db e h = settle-failed db _ e h
  run-failed (revert tx) db e h = settle-failed db _ e h
  run-failed (replace old_tx new_tx) db e h = settle-failed db _ e h
  run-failed (applies_transfer out_tx in_tx) db e h =
      transfer-failed (same_group out_tx.transfer_group_id in_tx.transfer_group_id) db _ e h
  run-failed (adjust k balance) db e h = settle-failed db _ e h
  run-failed (reverts_transfer group) db e h = settle-failed db _ e h
  run-failed (replaces_transfer group out_tx in_tx) db e h = settle-failed db _ e h
