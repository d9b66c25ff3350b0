-- ===== src/Sync/Pull/Balances.antt =====
-- A pulled transaction, in src/services/sync/engine.ts, and the opening balances of the ledger.
use expensesapp.Prelude.{
  ℕ, Bool, true, false, ◌≡◌, refl, ap, sym, ◌∙◌, Option, none, some, if◌then◌else◌,
}
use expensesapp.Prelude.Int.{ℤ, pos, ◌+ℤ◌, int_laws}
use expensesapp.Prelude.Fields.{Fields}
use expensesapp.Prelude.Text.{Text}
use expensesapp.Models.{Transaction, transaction_has_id}
use expensesapp.Storage.Keyed.{set_id}
use expensesapp.Ledger.Database.{Db, add_transaction}
use expensesapp.Ledger.Opening.{opening, effect_on}
use expensesapp.Ledger.Moves.{
  Moves, Moves-same, Moves-trans, Moves-opening, nothing, add_transaction-Moves, ◌and◌, effect_of,
}
use expensesapp.Sync.Identity.{upsert_mapping_from_pull, with_mappings}
use expensesapp.Sync.Outbox.{Runtime}
use expensesapp.Sync.Outbox.Conflict.{is_set}
use expensesapp.Sync.Pull.{apply_transaction_balance}
use expensesapp.Sync.Pull.Moved.{
  undone, apply_transaction_balance-Moves, revert_transaction_balance-Moves, put-Moves,
  delete-Moves, apply_transaction_balance-transactions, revert_transaction_balance-transactions,
}
use expensesapp.Sync.Pull.Upsert.{
  Origin, Written, applied, rejected, state_of, rolled_back, map_row, revert_stored,
  upsert_transaction_at, transaction_added, put_row, apply_row, upsert_pulled_transaction,
  tombstone_at, local_row, apply_pulled_transaction_tombstone,
}
use expensesapp.Sync.Pull.Write.{
  Device, PulledRecord, Reading, write_decrypted_record, type_of, is_tombstone, on_db,
  write_transaction, checked, origin_of,
}
use expensesapp.Sync.Records.{RecordType, transaction}
use expensesapp.Sync.Tables.{SyncDexie, SyncDb}
use expensesapp.Validation.{transaction_schema}

pub rolled_back_keeps :
    {S : Type 0} (P : S → Type 0) (before : S) (o : Option S)
    → P before
    → ((after : S) → o ≡ some after → P after)
    → P (state_of (rolled_back before o))
rolled_back_keeps P before none p step = p
rolled_back_keeps P before (some after) p step = step after refl

module _ (sx : SyncDexie) {V : Type 0} (rt : Runtime V) (now : Text) where
  with_mappings-eq :
      (o : Option sx.mappings.Table) (db : SyncDb sx) {db' : SyncDb sx}
      → with_mappings sx db o ≡ some db'
      → (t : sx.mappings.Table) × (db' ≡ record db { mappings = t })
  with_mappings-eq none db h = cc
  with_mappings-eq (some t) db h = (t, cc)

  -- Writing a mapping changes the mappings alone.
  pub map_row-eq :
      (type : RecordType) (local_id : Text) (origin : Origin) (db : SyncDb sx) {db' : SyncDb sx}
      → map_row sx rt now type local_id origin db ≡ some db'
      → (t : sx.mappings.Table) × (db' ≡ record db { mappings = t })
  unfolding map_row upsert_mapping_from_pull
  map_row-eq type local_id origin db {db'} h = split (is_set (some origin.uuid)) _ h
    where
      split :
          (b : Bool) (o : Option sx.mappings.Table)
          → (if b then with_mappings sx db o else some db) ≡ some db'
          → (t : sx.mappings.Table) × (db' ≡ record db { mappings = t })
      split true o q = with_mappings-eq o db q
      split false o q = (db.mappings, cc)

  pub map_row-ledger :
      (type : RecordType) (local_id : Text) (origin : Origin) (db : SyncDb sx) {db' : SyncDb sx}
      → map_row sx rt now type local_id origin db ≡ some db'
      → db'.ledger ≡ db.ledger
  map_row-ledger type local_id origin db h = rw (map_row-eq type local_id origin db h).1 refl

  revert_stored-Moves :
      (o : Option Transaction) (db : SyncDb sx)
      → Moves sx.ledger db.ledger (revert_stored sx rt now o db).ledger (undone o) nothing
  revert_stored-Moves none db = Moves-same sx.ledger db.ledger
  revert_stored-Moves (some old) db = revert_transaction_balance-Moves sx.ledger now old db.ledger

  revert_stored-transactions :
      (o : Option Transaction) (db : SyncDb sx)
      → (revert_stored sx rt now o db).ledger.transactions ≡ db.ledger.transactions
  revert_stored-transactions none db = refl
  revert_stored-transactions (some old) db =
      revert_transaction_balance-transactions sx.ledger now old db.ledger

  alike_updated : (u f : ℤ) → u +ℤ f +ℤ pos 0 ≡ pos 0 +ℤ pos 0 +ℤ (u +ℤ f)
  alike_updated u f = omega int_laws

  alike_added : (f : ℤ) → pos 0 +ℤ f ≡ f +ℤ pos 0
  alike_added f = omega int_laws

  -- The row that is known is taken back, and the new one is applied and put in its place.
  pub updated-Moves :
      (k : ℕ) (tx : Transaction) (db : SyncDb sx)
      → let stored = sx.ledger.transactions.get k db.ledger.transactions in
        Moves sx.ledger db.ledger
          (put_row sx rt now
            (set_id k tx)
            (apply_row sx rt now (set_id k tx) (revert_stored sx rt now stored db))).ledger
          (undone stored and effect_of (set_id k tx) and nothing)
          (nothing and nothing and (undone stored and effect_of (set_id k tx)))
  updated-Moves k tx db =
      let dx = sx.ledger in
      let stored = dx.transactions.get k db.ledger.transactions in
      let reverted : SyncDb sx = revert_stored sx rt now stored db in
      let moved = apply_transaction_balance dx now (set_id k tx) reverted.ledger in
      let kept =
        apply_transaction_balance-transactions dx now (set_id k tx) reverted.ledger
        ∙ revert_stored-transactions stored db in
      Moves-trans dx
        (Moves-trans dx (revert_stored-Moves stored db)
          (apply_transaction_balance-Moves dx now (set_id k tx) reverted.ledger))
        (put-Moves dx now k tx stored moved (ap (dx.transactions.get k) kept))

  updated-opening :
      (k : ℕ) (tx : Transaction) (db : SyncDb sx) (j : ℕ)
      → opening sx.ledger j
          (put_row sx rt now (set_id k tx) (
            apply_row sx rt now (set_id k tx) (
              revert_stored sx rt now
                (sx.ledger.transactions.get k db.ledger.transactions)
                db))).ledger
        ≡ opening sx.ledger j db.ledger
  updated-opening k tx db j =
      let stored = sx.ledger.transactions.get k db.ledger.transactions in
      Moves-opening sx.ledger (updated-Moves k tx db)
        (λ i t. alike_updated (undone stored i t) (effect_on i t (set_id k tx))) j

  -- A new row is added and applied.
  added-opening :
      (k : ℕ) (tx : Transaction) (t : sx.ledger.transactions.Table) (db : SyncDb sx)
      → sx.ledger.transactions.add (record tx { id = none }) db.ledger.transactions ≡ some (k, t)
      → (j : ℕ)
      → opening sx.ledger j (
          apply_transaction_balance sx.ledger now
            (set_id k tx)
            (record db.ledger { transactions = t }))
        ≡ opening sx.ledger j db.ledger
  unfolding add_transaction effect_on
  added-opening k tx t db made j =
      let dx = sx.ledger in
      let written : Db dx = record db.ledger { transactions = t } in
      Moves-opening dx
        (Moves-trans dx
          (add_transaction-Moves dx (record tx { id = none }) db.ledger {k = k} {db' = written}
            (rw made refl))
          (apply_transaction_balance-Moves dx now (set_id k tx) written))
        (λ i u. alike_added (effect_on i u tx)) j

  upsert_transaction_at-opening :
      (o : Option ℕ) (tx : Transaction) (origin : Origin) (db db' : SyncDb sx)
      → upsert_transaction_at sx rt now o tx origin db ≡ some db'
      → (j : ℕ) → opening sx.ledger j db'.ledger ≡ opening sx.ledger j db.ledger
  upsert_transaction_at-opening (some k) tx origin db db' h j =
      rw (map_row-ledger transaction (rt.string k) origin _ h) (updated-opening k tx db j)
  upsert_transaction_at-opening none tx origin db db' h j =
      split (sx.ledger.transactions.add (record tx { id = none }) db.ledger.transactions) refl h
    where
      split :
          (o : Option (ℕ × sx.ledger.transactions.Table))
          → sx.ledger.transactions.add (record tx { id = none }) db.ledger.transactions ≡ o
          → transaction_added sx rt now tx origin db o ≡ some db'
          → opening sx.ledger j db'.ledger ≡ opening sx.ledger j db.ledger
      split none e q = cc
      split (some (k, t)) e q =
          rw (map_row-ledger transaction (rt.string k) origin _ q) (added-opening k tx t db e j)

  tombstone_at-opening :
      (o : Option ℕ) (origin : Origin) (db db' : SyncDb sx)
      → tombstone_at sx rt now o origin db ≡ some db'
      → (j : ℕ) → opening sx.ledger j db'.ledger ≡ opening sx.ledger j db.ledger
  tombstone_at-opening none origin db db' h j = let same : db ≡ db' = cc in rw (← same) refl
  tombstone_at-opening (some k) origin db db' h j =
      let dx = sx.ledger in
      let stored = dx.transactions.get k db.ledger.transactions in
      let reverted : SyncDb sx = revert_stored sx rt now stored db in
      rw (map_row-ledger transaction (rt.string k) origin _ h) (
        Moves-opening dx
          (Moves-trans dx (revert_stored-Moves stored db) (
            delete-Moves dx now k stored reverted.ledger
              (ap (dx.transactions.get k) (revert_stored-transactions stored db))))
          (λ i t. sym (alike_added (undone stored i t))) j)

  module _ (rd : Reading V) where
    write_transaction-opening :
        (o : Option Transaction) (r : PulledRecord) (db : SyncDb sx) (j : ℕ)
        → opening sx.ledger j (state_of (write_transaction sx rt rd now o r db)).ledger
          ≡ opening sx.ledger j db.ledger
    unfolding upsert_pulled_transaction
    write_transaction-opening none r db j = refl
    write_transaction-opening (some tx) r db j =
        rolled_back_keeps (λ s. opening sx.ledger j s.ledger ≡ opening sx.ledger j db.ledger) db
          (upsert_transaction_at sx rt now (local_row sx rt now (origin_of r) db) tx (origin_of r)
            db)
          refl
          (λ after e.
            upsert_transaction_at-opening (local_row sx rt now (origin_of r) db) tx (origin_of r) db
              after e j)

    tombstone-opening :
        (r : PulledRecord) (db : SyncDb sx) (j : ℕ)
        → opening sx.ledger j
            (state_of (apply_pulled_transaction_tombstone sx rt now (origin_of r) db)).ledger
          ≡ opening sx.ledger j db.ledger
    unfolding apply_pulled_transaction_tombstone
    tombstone-opening r db j =
        rolled_back_keeps (λ s. opening sx.ledger j s.ledger ≡ opening sx.ledger j db.ledger) db
          (tombstone_at sx rt now (local_row sx rt now (origin_of r) db) (origin_of r) db) refl
          (λ after e.
            tombstone_at-opening (local_row sx rt now (origin_of r) db) (origin_of r) db after e j)

    pub on_db-state :
        (d : Device sx) (w : Written (SyncDb sx))
        → (state_of (on_db sx rt rd now d w)).db ≡ state_of w
    on_db-state d (applied db) = refl
    on_db-state d (rejected db) = refl

    -- Writing a pulled transaction, be it new, an edit or a tombstone, valid or not, and whether the
    -- write succeeds or throws, leaves the opening balance of every account as it was: the stored
    -- balance moves with the effects. An account that a pull has created from a snapshot is no
    -- exception, so that its balance moves although the snapshot may have counted the transaction.
    pub pulled_transaction-opening :
        (payload : Fields V) (r : PulledRecord) (d : Device sx)
        → type_of r.record_type ≡ some transaction
        → (j : ℕ)
        → opening sx.ledger j (state_of (write_decrypted_record sx rt rd now payload r d)).db.ledger
          ≡ opening sx.ledger j d.db.ledger
    unfolding write_decrypted_record
    pulled_transaction-opening payload r d e j = rw (e, on_db-state) (split (is_tombstone r))
      where
        split :
            (b : Bool)
            → opening sx.ledger j
                (state_of (
                  if b
                  then apply_pulled_transaction_tombstone sx rt now (origin_of r) d.db
                  else write_transaction sx rt rd now
                      (checked (transaction_schema rd.formats) (rd.transaction_of payload))
                      r
                      d.db)).ledger
              ≡ opening sx.ledger j d.db.ledger
        split true = tombstone-opening r d.db j
        split false =
            write_transaction-opening
              (checked (transaction_schema rd.formats) (rd.transaction_of payload)) r d.db j
