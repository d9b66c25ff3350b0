-- ===== src/Integrity.antt =====
-- src/services/integrity.service.ts: the check of the database that runs when the app starts.
pub mod Consistent
use expensesapp.Prelude.{
  ℕ, suc, Bool, true, false, not, ◌==◌, ltb, if◌then◌else◌, Option, none, some, List, [], ◌∷◌, any,
  length, is_some,
}
use expensesapp.Prelude.Text.{Text, text_eq, holds_text}
use expensesapp.Models.{Transaction}
use expensesapp.Ledger.Database.{Dexie, Db}

pub data IntegrityFailureKind : Type 0 where
  read orphaned_transfer orphaned_account_ref : IntegrityFailureKind

-- The error of a semantic failure is the count that its message begins with.
pub record IntegrityResult : Type 0 where
  pub ok : Bool
  pub error : Option ℕ
  pub failure_kind : Option IntegrityFailureKind

-- The keys of an index are its distinct values; a row without a value is not in the index.
abbrev pub with_group : Option Text → List Text → List Text
with_group none gs = gs
with_group (some g) gs = g ∷ gs

abbrev pub group_ids : List Transaction → List Text
group_ids [] = []
group_ids (t ∷ txs) = with_group t.transfer_group_id (group_ids txs)

abbrev pub unique_keys : List Text → List Text
unique_keys [] = []
unique_keys (g ∷ gs) = if any (text_eq g) gs then unique_keys gs else g ∷ unique_keys gs

abbrev pub count_of : {A : Type 0} → (A → Bool) → List A → ℕ
count_of p [] = 0
count_of p (x ∷ xs) = if p x then suc (count_of p xs) else count_of p xs

module _ (dx : Dexie) where
  abbrev pub all_transactions : Db dx → List Transaction
  all_transactions db = dx.transactions.query (λ t. true) db.transactions

  -- `where("transferGroupId").equals(groupId).count()`
  unfoldable pub leg_count : Db dx → Text → ℕ
  leg_count db g =
      length (dx.transactions.query (λ t. holds_text t.transfer_group_id g) db.transactions)

  unfoldable pub count_orphaned_transfer_legs : Db dx → ℕ
  count_orphaned_transfer_legs db =
      count_of (λ (g : Text). not (leg_count db g == 2))
        (unique_keys (group_ids (all_transactions db)))

  unfoldable pub count_orphaned_account_refs : Db dx → ℕ
  count_orphaned_account_refs db =
      count_of (λ (t : Transaction). not (is_some (dx.accounts.get t.account_id db.accounts)))
        (all_transactions db)

  abbrev pub passed : IntegrityResult
  passed = record { ok = true; error = none; failure_kind = none }

  abbrev pub semantic_check : Db dx → IntegrityResult
  semantic_check db =
      let transfers = count_orphaned_transfer_legs db in
      let refs = count_orphaned_account_refs db in
      if ltb 0 transfers
      then record { ok = false; error = some transfers; failure_kind = some orphaned_transfer }
      else if ltb 0 refs
      then record { ok = false; error = some refs; failure_kind = some orphaned_account_ref }
      else passed

  -- `reads` and `counts` are whether the first reads, and the two counts, come to their end without
  -- an exception of the database.
  unfoldable pub check_database_integrity : (reads counts : Bool) → Db dx → IntegrityResult
  check_database_integrity false counts db = record {
    ok = false;
    error = none;
    failure_kind = some read;
  }
  check_database_integrity true false db = passed
  check_database_integrity true true db = semantic_check db
