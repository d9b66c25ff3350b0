-- ===== src/Sync/Pull/Redelivery.antt =====
-- A pulled transaction that is delivered twice, as after a pull that stopped, in
-- src/services/sync/engine.ts.
use expensesapp.Prelude.{
  ℕ, true, ◌≡◌, refl, ap, ◌∙◌, Option, none, some, [], ◌∷◌, ==_iff, eq_of_some,
}
use expensesapp.Prelude.Int.{ℤ, pos, neg, ◌+ℤ◌, int_laws, pos_part, neg_part}
use expensesapp.Prelude.Text.{Text}
use expensesapp.Models.{Account, AccountType, Transaction, transaction_has_id}
use expensesapp.Storage.Keyed.{set_id, lookup, lookup-insert}
use expensesapp.Storage.Laws.{get-put, rows-add_ok}
use expensesapp.Ledger.Opening.{effect_on}
use expensesapp.Ledger.Moves.{Shift}
use expensesapp.Sync.Identity.{get_mapping_by_uuid, upsert_mapping_from_pull, with_mappings}
use expensesapp.Sync.Outbox.{Runtime}
use expensesapp.Sync.Outbox.Conflict.{is_set}
use expensesapp.Sync.Pull.{resolve_local_id_for_uuid}
use expensesapp.Sync.Pull.Balances.{map_row-ledger, rolled_back_keeps, updated-Moves}
use expensesapp.Sync.Pull.Moved.{apply_transaction_balance-transactions}
use expensesapp.Sync.Pull.Upsert.{
  Origin, applied, rolled_back, state_of, map_row, local_row, put_row, apply_row, revert_stored,
  transaction_added, upsert_transaction_at, upsert_pulled_transaction,
}
use expensesapp.Sync.Records.{RecordMapping, transaction}
use expensesapp.Sync.Tables.{SyncDexie, SyncDb}

module _ (sx : SyncDexie) {V : Type 0} (rt : Runtime V) (now : Text) where
  map_row-mapped :
      (local_id : Text) (origin : Origin) (db db' : SyncDb sx)
      → is_set (some origin.uuid) ≡ true
      → map_row sx rt now transaction local_id origin db ≡ some db'
      → (m : RecordMapping) × (get_mapping_by_uuid sx origin.uuid db' ≡ some m)
        × (m.local_id ≡ local_id)
  unfolding map_row upsert_mapping_from_pull get_mapping_by_uuid
  map_row-mapped local_id origin db db' set h =
      split (sx.mappings.put mapping db.mappings) refl (rw set at h)
    where
      mapping : RecordMapping
      mapping = record {
        record_type = transaction;
        local_id = local_id;
        uuid = origin.uuid;
        last_server_version = origin.version;
        creator_user_id = origin.creator_user_id;
      }

      split :
          (o : Option sx.mappings.Table)
          → sx.mappings.put mapping db.mappings ≡ o
          → with_mappings sx db o ≡ some db'
          → (m : RecordMapping) × (sx.mappings.by_uuid origin.uuid db'.mappings ≡ some m)
            × (m.local_id ≡ local_id)
      split none e q = cc
      split (some t) e q =
          let same : record db { mappings = t } ≡ db' = cc in
          (mapping, rw (← same) (sx.mappings.by_uuid-put mapping db.mappings t e), refl)

  resolve-mapped :
      (uuid : Text) (db : SyncDb sx) (m : RecordMapping)
      → is_set (some uuid) ≡ true
      → get_mapping_by_uuid sx uuid db ≡ some m
      → resolve_local_id_for_uuid sx rt (some uuid) db ≡ rt.number m.local_id
  unfolding resolve_local_id_for_uuid
  resolve-mapped [] db m set h = cc
  resolve-mapped (c ∷ s) db m set h = rw h refl

  -- The record is mapped to the key `k`, which holds its row.
  IsHeld : ℕ → Transaction → Origin → SyncDb sx → Type 0
  IsHeld k tx origin db =
      (local_row sx rt now origin db ≡ some k)
      × (sx.ledger.transactions.get k db.ledger.transactions ≡ some (set_id k tx))

  row-IsHeld :
      (k : ℕ) (tx : Transaction) (origin : Origin) (written db : SyncDb sx)
      → ((i : ℕ) → rt.number (rt.string i) ≡ some i)
      → is_set (some origin.uuid) ≡ true
      → sx.ledger.transactions.get k written.ledger.transactions ≡ some (set_id k tx)
      → map_row sx rt now transaction (rt.string k) origin written ≡ some db
      → IsHeld k tx origin db
  unfolding IsHeld
  row-IsHeld k tx origin written db numbered set row h =
      let (m, found, here) = map_row-mapped (rt.string k) origin written db set h in
      (
        resolve-mapped origin.uuid db m set found ∙ ap rt.number here ∙ numbered k,
        rw (map_row-ledger sx rt now transaction (rt.string k) origin written h) row,
      )

  upserted-IsHeld :
      (o : Option ℕ) (tx : Transaction) (origin : Origin) (db after : SyncDb sx)
      → ((i : ℕ) → rt.number (rt.string i) ≡ some i)
      → is_set (some origin.uuid) ≡ true
      → upsert_transaction_at sx rt now o tx origin db ≡ some after
      → (k : ℕ) × IsHeld k tx origin after
  upserted-IsHeld (some k) tx origin db after numbered set h =
      let applied_db : SyncDb sx =
        apply_row sx rt now (set_id k tx)
          (revert_stored sx rt now (sx.ledger.transactions.get k db.ledger.transactions) db) in
      (
        k,
        row-IsHeld k tx origin (put_row sx rt now (set_id k tx) applied_db) after numbered set
            (rw
              (get-put sx.ledger.transactions k k (set_id k tx) applied_db.ledger.transactions refl)
              (rw ((==_iff k k).1 refl) refl))
            h,
      )
  upserted-IsHeld none tx origin db after numbered set h =
      split (sx.ledger.transactions.add (record tx { id = none }) db.ledger.transactions) refl h
    where
      split :
          (o : Option (ℕ × sx.ledger.transactions.Table))
          → sx.ledger.transactions.add (record tx { id = none }) db.ledger.transactions ≡ o
          → transaction_added sx rt now tx origin db o ≡ some after
          → (k : ℕ) × IsHeld k tx origin after
      split none e q = cc
      split (some (k, t)) e q =
          let s = sx.ledger.transactions in
          let (_, written, _) = rows-add_ok s (record tx { id = none }) db.ledger.transactions e in
          (
            k,
            row-IsHeld k tx origin _ after numbered set
                (ap (s.get k) (
                    apply_transaction_balance-transactions sx.ledger now (set_id k tx)
                      (record db.ledger { transactions = t }))
                  ∙ s.get-rows k t
                  ∙ ap (lookup k) written
                  ∙ lookup-insert k k (set_id k tx) (s.rows db.ledger.transactions)
                  ∙ rw ((==_iff k k).1 refl) refl)
                q,
          )

  -- The balance of every account that was there is as it was.
  unfoldable pub SameBalances : SyncDb sx → SyncDb sx → Type 0
  SameBalances db db' =
      (j : ℕ) (a : Account)
      → sx.ledger.accounts.get j db.ledger.accounts ≡ some a
      → (a' : Account) × (sx.ledger.accounts.get j db'.ledger.accounts ≡ some a')
        × (a'.balance ≡ a.balance)

  cancelled : (f : ℤ) → neg f +ℤ f +ℤ pos 0 ≡ pos 0
  cancelled f = omega int_laws

  plus_zero : (x y c : ℤ) → y ≡ x +ℤ c → c ≡ pos 0 → y ≡ x
  plus_zero x y c h z = omega (int_laws, ap pos_part h, ap neg_part h, ap pos_part z, ap neg_part z)

  unshifted :
      (c : AccountType → ℤ) (x y : Option Account) (a : Account)
      → x ≡ some a
      → Shift c x y
      → ((t : AccountType) → c t ≡ pos 0)
      → (a' : Account) × (y ≡ some a') × (a'.balance ≡ a.balance)
  unshifted c none y a e s zero = cc
  unshifted c (some b) none a e s zero = absurd s
  unshifted c (some b) (some b') a e s zero =
      let same : b ≡ a = eq_of_some e in
      (
        b',
        refl,
        plus_zero b.balance b'.balance (c b.type) s.1 (zero b.type)
            ∙ ap (λ (x : Account). x.balance) same,
      )

  held-SameBalances :
      (k : ℕ) (tx : Transaction) (origin : Origin) (db after : SyncDb sx)
      → IsHeld k tx origin db
      → upsert_transaction_at sx rt now (local_row sx rt now origin db) tx origin db ≡ some after
      → SameBalances db after
  unfolding IsHeld SameBalances
  held-SameBalances k tx origin db after held h j a here =
      let again : upsert_transaction_at sx rt now (some k) tx origin db ≡ some after =
        rw held.0 at h in
      rw (map_row-ledger sx rt now transaction (rt.string k) origin _ again) (
        unshifted _ (sx.ledger.accounts.get j db.ledger.accounts) _ a here
          ((updated-Moves sx rt now k tx db).shifts j)
          (λ t. rw held.1 (cancelled (effect_on j t (set_id k tx)))))

  applied_eq :
      (before after : SyncDb sx) (o : Option (SyncDb sx))
      → rolled_back before o ≡ applied after
      → o ≡ some after
  applied_eq before after none h = cc
  applied_eq before after (some s) h = cc

  -- A pulled transaction with an identifier that has been written is written again without moving
  -- the balance of any account, whether the second write succeeds or not, provided that numbers read
  -- back from their texts.
  pub upsert_pulled_transaction-again :
      (tx : Transaction) (origin : Origin) (db after : SyncDb sx)
      → ((i : ℕ) → rt.number (rt.string i) ≡ some i)
      → is_set (some origin.uuid) ≡ true
      → upsert_pulled_transaction sx rt now tx origin db ≡ applied after
      → SameBalances after (state_of (upsert_pulled_transaction sx rt now tx origin after))
  unfolding upsert_pulled_transaction SameBalances
  upsert_pulled_transaction-again tx origin db after numbered set h =
      let first =
        applied_eq db after
          (upsert_transaction_at sx rt now (local_row sx rt now origin db) tx origin db) h in
      let (k, held) =
        upserted-IsHeld (local_row sx rt now origin db) tx origin db after numbered set first in
      rolled_back_keeps (SameBalances after) after
        (upsert_transaction_at sx rt now (local_row sx rt now origin after) tx origin after)
        (λ j a here. (a, here, refl)) (λ s e. held-SameBalances k tx origin after s held e)
