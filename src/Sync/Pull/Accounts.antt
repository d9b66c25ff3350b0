-- ===== src/Sync/Pull/Accounts.antt =====
-- A pulled account, in src/services/sync/engine.ts, and the stored balances.
use expensesapp.Prelude.{
  ℕ, Bool, true, false, ◌≡◌, refl, ◌∙◌, Option, none, some, if◌then◌else◌, ◌==◌, ==_iff, Bool-cases,
  inl, inr, arith,
}
use expensesapp.Prelude.Fields.{Fields, field_get, field_delete, field_get-delete}
use expensesapp.Prelude.Text.{Text, text, text_eq}
use expensesapp.Models.{Account, account_has_id}
use expensesapp.Storage.Keyed.{set_id, lookup-insert, lookup}
use expensesapp.Storage.Laws.{get-update, rows-add_ok}
use expensesapp.Ledger.Database.{Dexie, Db}
use expensesapp.Sync.Outbox.{Runtime}
use expensesapp.Sync.Outbox.Conflict.{bury}
use expensesapp.Sync.Pull.Balances.{map_row-ledger, on_db-state, rolled_back_keeps}
use expensesapp.Sync.Pull.Upsert.{
  Origin, state_of, then_mapped, map_row, local_row, update_account, upsert_account_at,
  account_added, upsert_pulled_account,
}
use expensesapp.Sync.Pull.Write.{
  Device, PulledRecord, Reading, write_decrypted_record, write_account, type_of, is_tombstone,
  checked, origin_of, bury_at, bury_row,
}
use expensesapp.Sync.Records.{account}
use expensesapp.Sync.Tables.{SyncDexie, SyncDb}
use expensesapp.Validation.{account_schema}

pub then_mapped_keeps :
    {S : Type 0} (P : S → Type 0) (written : S) (o : Option S)
    → P written
    → ((mapped : S) → o ≡ some mapped → P mapped)
    → P (state_of (then_mapped written o))
then_mapped_keeps P written none p step = p
then_mapped_keeps P written (some mapped) p step = step mapped refl

module _ (dx : Dexie) where
  -- Every account that was there is there, with its balance, and no transaction has changed.
  unfoldable pub KeepsBalances : Db dx → Db dx → Type 0
  KeepsBalances db db' =
      (db'.transactions ≡ db.transactions)
      × ((j : ℕ) (a : Account)
          → dx.accounts.get j db.accounts ≡ some a
          → (a' : Account) × (dx.accounts.get j db'.accounts ≡ some a') × (a'.balance ≡ a.balance))

  KeepsBalances-refl : (db : Db dx) → KeepsBalances db db
  unfolding KeepsBalances
  KeepsBalances-refl db = (refl, λ j a h. (a, h, refl))

  update-KeepsBalances :
      (k : ℕ) (f : Account → Account) (db : Db dx)
      → ((a : Account) → (f a).balance ≡ a.balance)
      → KeepsBalances db (record db { accounts = dx.accounts.update k f db.accounts })
  unfolding KeepsBalances
  update-KeepsBalances k f db keeps = (
    refl,
    λ j a h. rw (get-update dx.accounts j k f db.accounts) (elim (Bool-cases (j == k)) [
      | inl e ↦ (f a, rw (e, ← (==_iff j k).0 e, h) refl, keeps a)
      | inr e ↦ (a, rw (e, h) refl, refl)
    ]),
  )

  add-KeepsBalances :
      (row : Account) (db : Db dx) {k : ℕ} {t : dx.accounts.Table}
      → dx.accounts.add row db.accounts ≡ some (k, t)
      → KeepsBalances db (record db { accounts = t })
  unfolding KeepsBalances
  add-KeepsBalances row db {k} {t} made =
      let s = dx.accounts in
      let (free, written, _) = rows-add_ok s row db.accounts made in
      (
        refl,
        λ j a h.
            let there : lookup j (s.rows db.accounts) ≡ some a = rw s.get-rows at h in
            (
              a,
              rw (s.get-rows, written, lookup-insert j k (set_id k row) (s.rows db.accounts))
                  (ground (arith, there, free, ==_iff j k)),
              refl,
            ),
      )

module _ (sx : SyncDexie) {V : Type 0} (rt : Runtime V) (now : Text) where
  Kept : SyncDb sx → SyncDb sx → Type 0
  Kept db s = KeepsBalances sx.ledger db.ledger s.ledger

  mapped-Kept :
      (local_id : Text) (origin : Origin) (db written mapped : SyncDb sx)
      → Kept db written
      → map_row sx rt now account local_id origin written ≡ some mapped
      → Kept db mapped
  unfolding Kept
  mapped-Kept local_id origin db written mapped kept h =
      rw (map_row-ledger sx rt now account local_id origin written h) kept

  buried-Kept :
      (r : PulledRecord) (o : Option ℕ) (rd : Reading V) (db : SyncDb sx)
      → Kept db (state_of (bury_at sx rt rd now account r o db))
  unfolding Kept
  buried-Kept r none rd db = KeepsBalances-refl sx.ledger db.ledger
  buried-Kept r (some k) rd db =
      let buried : SyncDb sx = bury sx account (some k) db in
      let kept : Kept db buried =
        update-KeepsBalances sx.ledger k (λ a. record a { is_trashed = true }) db.ledger
          (λ a. refl) in
      then_mapped_keeps (Kept db) buried
        (map_row sx rt now account (rt.string k) (origin_of r) buried) kept
        (λ m e. mapped-Kept (rt.string k) (origin_of r) db buried m kept e)

  -- Dexie's update of a row leaves the fields that the object does not have.
  unfoldable pub LeavesBalance : (Fields V → Account → Account) → Type 0
  LeavesBalance overlay =
      (payload : Fields V) (a : Account)
      → field_get (text "balance") payload ≡ none
      → (overlay payload a).balance ≡ a.balance

  no_balance :
      (payload : Fields V)
      → field_get
          (text "balance")
          (field_delete (text "id") (field_delete (text "balance") payload))
        ≡ none
  unfolding text_eq
  no_balance payload =
      field_get-delete (text "balance") (text "id") (field_delete (text "balance") payload)
      ∙ field_get-delete (text "balance") (text "balance") payload

  upsert_account_at-Kept :
      (overlay : Fields V → Account → Account) (o : Option ℕ) (payload : Fields V) (row : Account)
      (origin : Origin) (db after : SyncDb sx)
      → LeavesBalance overlay
      → upsert_account_at sx rt now overlay o payload row origin db ≡ some after
      → Kept db after
  unfolding Kept LeavesBalance
  upsert_account_at-Kept overlay (some k) payload row origin db after leaves h =
      mapped-Kept (rt.string k) origin db (update_account sx rt now overlay k payload db) after
        (update-KeepsBalances sx.ledger k
          (overlay (field_delete (text "id") (field_delete (text "balance") payload))) db.ledger
          (λ a. leaves _ a (no_balance payload)))
        h
  upsert_account_at-Kept overlay none payload row origin db after leaves h =
      split (sx.ledger.accounts.add (record row { id = none }) db.ledger.accounts) refl h
    where
      split :
          (o : Option (ℕ × sx.ledger.accounts.Table))
          → sx.ledger.accounts.add (record row { id = none }) db.ledger.accounts ≡ o
          → account_added sx rt now origin db o ≡ some after
          → Kept db after
      split none e q = cc
      split (some (k, t)) e q =
          mapped-Kept (rt.string k) origin db
            (record db { ledger = record db.ledger { accounts = t } }) after
            (add-KeepsBalances sx.ledger (record row { id = none }) db.ledger e) q

  module _ (rd : Reading V) where
    write_account-Kept :
        (payload : Fields V) (o : Option Account) (r : PulledRecord) (db : SyncDb sx)
        → LeavesBalance rd.overlay
        → Kept db (state_of (write_account sx rt rd now payload o r db))
    unfolding Kept upsert_pulled_account
    write_account-Kept payload none r db leaves = KeepsBalances-refl sx.ledger db.ledger
    write_account-Kept payload (some row) r db leaves =
        let k = local_row sx rt now (origin_of r) db in
        rolled_back_keeps (Kept db) db
          (upsert_account_at sx rt now rd.overlay k payload row (origin_of r) db)
          (KeepsBalances-refl sx.ledger db.ledger)
          (λ after e.
            upsert_account_at-Kept rd.overlay k payload row (origin_of r) db after leaves e)

    -- Writing a pulled account, be it new, known or a tombstone, valid or not, and whether the write
    -- succeeds or throws, leaves the stored balance of every account that was there as it was, and
    -- every transaction, provided that an update leaves the fields that the object does not have.
    pub pulled_account-KeepsBalances :
        (payload : Fields V) (r : PulledRecord) (d : Device sx)
        → LeavesBalance rd.overlay
        → type_of r.record_type ≡ some account
        → KeepsBalances sx.ledger d.db.ledger
            (state_of (write_decrypted_record sx rt rd now payload r d)).db.ledger
    unfolding write_decrypted_record Kept
    pulled_account-KeepsBalances payload r d leaves e =
        rw (e, on_db-state sx rt now rd) (split (is_tombstone r))
      where
        split :
            (b : Bool)
            → Kept d.db (
                state_of (
                  if b
                  then bury_row sx rt rd now account r d.db
                  else write_account sx rt rd now payload
                      (checked (account_schema rd.formats) (rd.account_of payload))
                      r
                      d.db))
        split true = buried-Kept r (local_row sx rt now (origin_of r) d.db) rd d.db
        split false =
            write_account-Kept payload (checked (account_schema rd.formats) (rd.account_of payload))
              r d.db leaves
