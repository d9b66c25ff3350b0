-- ===== src/Sync/Pull/KeptCursors.antt =====
-- No write of a pulled record, in src/services/sync/engine.ts, touches the cursors.
use expensesapp.Prelude.{ℕ, Bool, true, false, ◌≡◌, refl, Option, none, some, if◌then◌else◌}
use expensesapp.Prelude.Fields.{Fields}
use expensesapp.Prelude.Text.{Text}
use expensesapp.Models.{Account, Transaction, Category, Budget, transaction_has_id}
use expensesapp.Sync.Outbox.{Runtime}
use expensesapp.Sync.Outbox.Conflict.{bury}
use expensesapp.Sync.PushHelpers.{is_synced_key}
use expensesapp.Sync.Pull.Accounts.{then_mapped_keeps}
use expensesapp.Sync.Pull.Balances.{map_row-eq, on_db-state, rolled_back_keeps}
use expensesapp.Sync.Pull.Upsert.{
  Origin, Written, applied, rejected, state_of, rolled_back, then_mapped, map_row, revert_stored,
  upsert_transaction_at, transaction_added, upsert_pulled_transaction, tombstone_at, local_row,
  apply_pulled_transaction_tombstone, update_account, upsert_account_at, account_added,
  upsert_pulled_account, upsert_domain_row, upsert_domain_at, domain_row_added,
}
use expensesapp.Sync.Pull.Write.{
  Device, PulledRecord, Reading, write_decrypted_record, write_record, type_of, is_tombstone,
  write_transaction, write_account, write_category, write_budget, checked, origin_of, bury_at,
  bury_row, write_setting, settle_setting, put_setting, delete_setting, refreshed, put_category,
  category_in, put_budget, budget_in, refresh_settings_store_cache,
}
use expensesapp.Sync.Records.{RecordType, transaction, account, category, budget, settings}
use expensesapp.Sync.Tables.{SyncDexie, SyncDb}
use expensesapp.Validation.{account_schema, transaction_schema, category_schema, budget_schema}

module _ (sx : SyncDexie) {V : Type 0} (rt : Runtime V) (now : Text) where
  -- The cursors are those of the first state.
  Kept : SyncDb sx → SyncDb sx → Type 0
  Kept db s = s.cursors ≡ db.cursors

  mapped-Kept :
      (type : RecordType) (local_id : Text) (origin : Origin) (db written : SyncDb sx)
      {s : SyncDb sx}
      → Kept db written
      → map_row sx rt now type local_id origin written ≡ some s
      → Kept db s
  unfolding Kept
  mapped-Kept type local_id origin db written kept h =
      rw (map_row-eq sx rt now type local_id origin written h).1 kept

  revert_stored-cursors :
      (o : Option Transaction) (db : SyncDb sx)
      → (revert_stored sx rt now o db).cursors ≡ db.cursors
  revert_stored-cursors none db = refl
  revert_stored-cursors (some old) db = refl

  transaction-Kept :
      (o : Option ℕ) (tx : Transaction) (origin : Origin) (db : SyncDb sx) (s : SyncDb sx)
      → upsert_transaction_at sx rt now o tx origin db ≡ some s
      → Kept db s
  unfolding Kept
  transaction-Kept (some k) tx origin db s h =
      mapped-Kept transaction (rt.string k) origin db _
        (revert_stored-cursors (sx.ledger.transactions.get k db.ledger.transactions) db) h
  transaction-Kept none tx origin db s h =
      split (sx.ledger.transactions.add (record tx { id = none }) db.ledger.transactions) h
    where
      split :
          (o : Option (ℕ × sx.ledger.transactions.Table))
          → transaction_added sx rt now tx origin db o ≡ some s
          → Kept db s
      split none q = cc
      split (some (k, t)) q = mapped-Kept transaction (rt.string k) origin db _ refl q

  tombstone-Kept :
      (o : Option ℕ) (origin : Origin) (db s : SyncDb sx)
      → tombstone_at sx rt now o origin db ≡ some s
      → Kept db s
  unfolding Kept
  tombstone-Kept none origin db s h = let same : db ≡ s = cc in rw (← same) refl
  tombstone-Kept (some k) origin db s h =
      mapped-Kept transaction (rt.string k) origin db _
        (revert_stored-cursors (sx.ledger.transactions.get k db.ledger.transactions) db) h

  account-Kept :
      (overlay : Fields V → Account → Account) (o : Option ℕ) (payload : Fields V) (row : Account)
      (origin : Origin) (db s : SyncDb sx)
      → upsert_account_at sx rt now overlay o payload row origin db ≡ some s
      → Kept db s
  unfolding Kept
  account-Kept overlay (some k) payload row origin db s h =
      mapped-Kept account (rt.string k) origin db (update_account sx rt now overlay k payload db)
        refl h
  account-Kept overlay none payload row origin db s h =
      split (sx.ledger.accounts.add (record row { id = none }) db.ledger.accounts) h
    where
      split :
          (o : Option (ℕ × sx.ledger.accounts.Table))
          → account_added sx rt now origin db o ≡ some s
          → Kept db s
      split none q = cc
      split (some (k, t)) q = mapped-Kept account (rt.string k) origin db _ refl q

  then_mapped-Kept :
      (type : RecordType) (local_id : Text) (origin : Origin) (db written : SyncDb sx)
      → Kept db written
      → Kept db (state_of (then_mapped written (map_row sx rt now type local_id origin written)))
  then_mapped-Kept type local_id origin db written kept =
      then_mapped_keeps (Kept db) written (map_row sx rt now type local_id origin written) kept
        (λ m e. mapped-Kept type local_id origin db written kept e)

  domain-Kept :
      (type : RecordType) (origin : Origin) (put_at : ℕ → SyncDb sx → SyncDb sx)
      (add_new : SyncDb sx → Option (ℕ × SyncDb sx)) (o : Option ℕ) (db : SyncDb sx)
      → ((k : ℕ) → Kept db (put_at k db))
      → ((k : ℕ) (s : SyncDb sx) → add_new db ≡ some (k, s) → Kept db s)
      → Kept db (state_of (upsert_domain_at sx rt now type origin put_at add_new o db))
  unfolding Kept
  domain-Kept type origin put_at add_new (some k) db put_kept add_kept =
      then_mapped-Kept type (rt.string k) origin db (put_at k db) (put_kept k)
  domain-Kept type origin put_at add_new none db put_kept add_kept = split (add_new db) add_kept
    where
      split :
          (o : Option (ℕ × SyncDb sx))
          → ((k : ℕ) (s : SyncDb sx) → o ≡ some (k, s) → Kept db s)
          → Kept db (state_of (domain_row_added sx rt now type origin db o))
      split none kept = refl
      split (some (k, s)) kept = then_mapped-Kept type (rt.string k) origin db s (kept k s refl)

  module _ (rd : Reading V) where
    buried-Kept :
        (type : RecordType) (r : PulledRecord) (o : Option ℕ) (db : SyncDb sx)
        → Kept db (state_of (bury_at sx rt rd now type r o db))
    unfolding Kept
    buried-Kept type r none db = refl
    buried-Kept type r (some k) db =
        then_mapped-Kept type (rt.string k) (origin_of r) db (bury sx type (some k) db)
          (bury_kept type)
      where
        bury_kept : (t : RecordType) → (bury sx t (some k) db).cursors ≡ db.cursors
        bury_kept transaction = refl
        bury_kept account = refl
        bury_kept category = refl
        bury_kept budget = refl
        bury_kept settings = refl

    rolled_back-Kept :
        (db : SyncDb sx) (o : Option (SyncDb sx))
        → ((s : SyncDb sx) → o ≡ some s → Kept db s)
        → Kept db (state_of (rolled_back db o))
    unfolding Kept
    rolled_back-Kept db o kept = rolled_back_keeps (Kept db) db o refl kept

    transaction_record-Kept :
        (b : Bool) (o : Option Transaction) (r : PulledRecord) (db : SyncDb sx)
        → Kept db (
            state_of (
              if b
              then apply_pulled_transaction_tombstone sx rt now (origin_of r) db
              else write_transaction sx rt rd now o r db))
    unfolding Kept upsert_pulled_transaction apply_pulled_transaction_tombstone
    transaction_record-Kept true o r db =
        rolled_back-Kept db
          (tombstone_at sx rt now (local_row sx rt now (origin_of r) db) (origin_of r) db)
          (tombstone-Kept (local_row sx rt now (origin_of r) db) (origin_of r) db)
    transaction_record-Kept false none r db = refl
    transaction_record-Kept false (some tx) r db =
        rolled_back-Kept db
          (upsert_transaction_at sx rt now (local_row sx rt now (origin_of r) db) tx (origin_of r)
            db)
          (transaction-Kept (local_row sx rt now (origin_of r) db) tx (origin_of r) db)

    account_record-Kept :
        (b : Bool) (payload : Fields V) (o : Option Account) (r : PulledRecord) (db : SyncDb sx)
        → Kept db (
            state_of (
              if b
              then bury_row sx rt rd now account r db
              else write_account sx rt rd now payload o r db))
    unfolding Kept upsert_pulled_account
    account_record-Kept true payload o r db =
        buried-Kept account r (local_row sx rt now (origin_of r) db) db
    account_record-Kept false payload none r db = refl
    account_record-Kept false payload (some row) r db =
        rolled_back-Kept db
          (upsert_account_at sx rt now rd.overlay (local_row sx rt now (origin_of r) db) payload row
            (origin_of r) db)
          (account-Kept rd.overlay (local_row sx rt now (origin_of r) db) payload row (origin_of r)
            db)

    category_record-Kept :
        (b : Bool) (o : Option Category) (r : PulledRecord) (db : SyncDb sx)
        → Kept db (
            state_of (
              if b
              then bury_row sx rt rd now category r db
              else write_category sx rt rd now o r db))
    unfolding Kept upsert_domain_row
    category_record-Kept true o r db =
        buried-Kept category r (local_row sx rt now (origin_of r) db) db
    category_record-Kept false none r db = refl
    category_record-Kept false (some row) r db =
        domain-Kept category (origin_of r) (put_category sx rt rd now row) _
          (local_row sx rt now (origin_of r) db) db (λ k. refl)
          (λ k s. added (sx.categories.add (record row { id = none }) db.categories))
      where
        added :
            {k : ℕ} {s : SyncDb sx} (o : Option (ℕ × sx.categories.Table))
            → category_in sx rt rd now db o ≡ some (k, s)
            → s.cursors ≡ db.cursors
        added none q = cc
        added {k} {s} (some (i, t)) q =
            let same : record db { categories = t } ≡ s = cc in rw (← same) refl

    budget_record-Kept :
        (b : Bool) (o : Option Budget) (r : PulledRecord) (db : SyncDb sx)
        → Kept db (
            state_of
              (if b then bury_row sx rt rd now budget r db else write_budget sx rt rd now o r db))
    unfolding Kept upsert_domain_row
    budget_record-Kept true o r db = buried-Kept budget r (local_row sx rt now (origin_of r) db) db
    budget_record-Kept false none r db = refl
    budget_record-Kept false (some row) r db =
        domain-Kept budget (origin_of r) (put_budget sx rt rd now row) _
          (local_row sx rt now (origin_of r) db) db (λ k. refl)
          (λ k s. added (sx.budgets.add (record row { id = none }) db.budgets))
      where
        added :
            {k : ℕ} {s : SyncDb sx} (o : Option (ℕ × sx.budgets.Table))
            → budget_in sx rt rd now db o ≡ some (k, s)
            → s.cursors ≡ db.cursors
        added none q = cc
        added {k} {s} (some (i, t)) q =
            let same : record db { budgets = t } ≡ s = cc in rw (← same) refl

    settled-cursors :
        (key : Text) (r : PulledRecord) (db : SyncDb sx) (d : Device sx)
        → Kept d.db db
        → (state_of (settle_setting sx rt rd now key r db d)).db.cursors ≡ d.db.cursors
    unfolding Kept
    settled-cursors key r db d kept =
        rw (on_db-state sx rt now rd) (then_mapped-Kept settings key (origin_of r) d.db db kept)

    refreshed-db :
        (key value : Text) (w : Written (Device sx))
        → (state_of (refreshed sx rt rd now key value w)).db ≡ (state_of w).db
    unfolding refresh_settings_store_cache
    refreshed-db key value (applied d) = refl
    refreshed-db key value (rejected d) = refl

    setting_record-Kept :
        (o : Option (Text × Text)) (r : PulledRecord) (d : Device sx)
        → (state_of (write_setting sx rt rd now o r d)).db.cursors ≡ d.db.cursors
    unfolding write_setting Kept
    setting_record-Kept none r d = refl
    setting_record-Kept (some (key, value)) r d = split (is_synced_key key) (is_tombstone r)
      where
        put : SyncDb sx
        put = put_setting sx rt rd now key value d.db

        split :
            (b c : Bool)
            → (state_of (
                if b
                then (if c
                    then settle_setting sx rt rd now key r (delete_setting sx rt rd now key d.db) d
                    else refreshed sx rt rd now key value (
                        settle_setting sx rt rd now key r
                          (put_setting sx rt rd now key value d.db)
                          d))
                else applied d)).db.cursors
              ≡ d.db.cursors
        split true true = settled-cursors key r (delete_setting sx rt rd now key d.db) d refl
        split true false =
            rw (refreshed-db key value (settle_setting sx rt rd now key r put d))
              (settled-cursors key r put d refl)
        split false c = refl

    pub write_decrypted_record-cursors :
        (payload : Fields V) (r : PulledRecord) (d : Device sx)
        → (state_of (write_decrypted_record sx rt rd now payload r d)).db.cursors ≡ d.db.cursors
    unfolding write_decrypted_record Kept
    write_decrypted_record-cursors payload r d = of_type (type_of r.record_type)
      where
        of_type :
            (t : Option RecordType)
            → (state_of (write_record sx rt rd now t payload r d)).db.cursors ≡ d.db.cursors
        of_type none = refl
        of_type (some transaction) = rw (on_db-state sx rt now rd) (
            transaction_record-Kept (is_tombstone r)
              (checked (transaction_schema rd.formats) (rd.transaction_of payload)) r d.db)
        of_type (some account) = rw (on_db-state sx rt now rd) (
            account_record-Kept (is_tombstone r) payload
              (checked (account_schema rd.formats) (rd.account_of payload)) r d.db)
        of_type (some category) = rw (on_db-state sx rt now rd) (
            category_record-Kept (is_tombstone r) (checked category_schema (rd.category_of payload))
              r d.db)
        of_type (some budget) = rw (on_db-state sx rt now rd) (
            budget_record-Kept (is_tombstone r) (checked budget_schema (rd.budget_of payload)) r
              d.db)
        of_type (some settings) = setting_record-Kept (rd.setting_of payload) r d
