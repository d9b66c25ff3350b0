-- ===== src/Ledger/Opening.antt =====
-- What a ledger starts from: the stored balance of an account less the signed effects of all the
-- transactions that stand on it.
use expensesapp.Prelude.{
  ℕ, ==_iff, ◌≡◌, refl, ap, ◌∙◌, false, Option, none, some, List, arith, if◌then◌else◌, ◌==◌,
}
use expensesapp.Prelude.Int.{ℤ, pos, ◌+ℤ◌, ◌-ℤ◌, sub-eq_of_add}
use expensesapp.Prelude.Text.{Text}
use expensesapp.Models.{AccountType, Account, Transaction, transaction_has_id, account_has_id}
use expensesapp.Storage.Keyed.{set_id}
use expensesapp.Storage.Laws.{rows-add_ok, get-update}
use expensesapp.Storage.Sums.{sum_rows, sum_rows-insert_new, sum_rows-insert, sum_rows-erase}
use expensesapp.Ledger.Delta.{delta_of, get_balance_delta}
use expensesapp.Ledger.Database.{
  Faults, Dexie, Db, Result, ok, err, ◌>>=◌, Push, settle, commit, load_account, with_balance,
  set_balance, placed, put_transaction, add_transaction, added, delete_transaction, Error,
}

-- The effect of a transaction on an account of type `t` at key `k`.
unfoldable pub effect_on : ℕ → AccountType → Transaction → ℤ
effect_on k t tx =
    if k == tx.account_id
    then delta_of tx.type t tx.transfer_direction tx.amount tx.principal_amount
    else pos 0

pub get_balance_delta-eq :
    (a : Account) (tx : Transaction) → get_balance_delta a tx ≡ effect_on tx.account_id a.type tx
unfolding get_balance_delta effect_on
get_balance_delta-eq a tx = rw ((==_iff tx.account_id tx.account_id).1 refl)

pub get_balance_delta-at :
    (k : ℕ) (a : Account) (tx : Transaction)
    → tx.account_id ≡ k
    → get_balance_delta a tx ≡ effect_on k a.type tx
get_balance_delta-at k a tx e = get_balance_delta-eq a tx ∙ ap (λ (j : ℕ). effect_on j a.type tx) e

pub effect_on_other :
    (j : ℕ) (t : AccountType) (tx : Transaction)
    → (j == tx.account_id) ≡ false
    → effect_on j t tx ≡ pos 0
unfolding effect_on
effect_on_other j t tx h = rw h

-- A chain that succeeds has come through its first step.
pub bind_ok {ℓ κ μ} :
    {A : Type ℓ} {B : Type κ} {C : Type μ} (m : Result A) (f : A → Result B) {b : B}
    → (m >>= f) ≡ ok b
    → ((a : A) → m ≡ ok a → f a ≡ ok b → C)
    → C
bind_ok (ok a) f h rest = rest a refl h
bind_ok (err e) f h rest = cc

module _ (dx : Dexie) where
  unfoldable pub effects : ℕ → AccountType → Db dx → ℤ
  effects k t db = sum_rows (effect_on k t) (dx.transactions.rows db.transactions)

  -- The opening balance of the account at key `k`, if there is one.
  abbrev pub opening_of : ℕ → Db dx → Option Account → Option ℤ
  opening_of k db none = none
  opening_of k db (some a) = some (a.balance -ℤ effects k a.type db)

  unfoldable pub opening : ℕ → Db dx → Option ℤ
  opening k db = opening_of k db (dx.accounts.get k db.accounts)

  pub opening_same :
      (k : ℕ) (db db' : Db dx) (a a' : Account)
      → dx.accounts.get k db.accounts ≡ some a
      → dx.accounts.get k db'.accounts ≡ some a'
      → a'.type ≡ a.type
      → a'.balance +ℤ effects k a.type db ≡ a.balance +ℤ effects k a.type db'
      → opening k db' ≡ opening k db
  unfolding opening
  opening_same k db db' a a' e e' t b = rw (e, e', t) (ap some (sub-eq_of_add _ _ _ _ b))

  pub opening_ne :
      (k : ℕ) (db db' : Db dx)
      → dx.accounts.get k db'.accounts ≡ dx.accounts.get k db.accounts
      → ((t : AccountType) → effects k t db' ≡ effects k t db)
      → opening k db' ≡ opening k db
  unfolding opening
  opening_ne k db db' e same = rw e (at_type (dx.accounts.get k db.accounts))
    where
      at_type : (o : Option Account) → opening_of k db' o ≡ opening_of k db o
      at_type none = refl
      at_type (some a) = rw (same a.type)

  pub settle_keeps :
      (P : Db dx → Type 0) (faults : Faults dx) (db : Db dx) (result : Result (List Push × Db dx))
      → P db
      → ((ps : List Push) (db' : Db dx) → result ≡ ok (ps, db') → P db')
      → P (settle dx faults db result).1
  settle_keeps P faults db (err e) p step = p
  settle_keeps P faults db (ok (ps, db')) p step = committed (faults.write db')
    where
      committed : (o : Option Error) → P (commit dx faults db ps db' o).1
      committed none = step ps db' refl
      committed (some e) = p

  pub load_account-ok :
      (k : ℕ) (db : Db dx) {a : Account}
      → load_account dx k db ≡ ok a
      → (dx.accounts.get k db.accounts ≡ some a) × (a.is_trashed ≡ false)
  unfolding load_account
  load_account-ok k db h = ground arith

  pub get-set_balance :
      (j k : ℕ) (balance : ℤ) (now : Text) (a : Account) (db : Db dx)
      → dx.accounts.get k db.accounts ≡ some a
      → dx.accounts.get j (set_balance dx k balance now db).accounts
        ≡ (if j == k then some (with_balance balance now a) else dx.accounts.get j db.accounts)
  unfolding set_balance
  get-set_balance j k balance now a db e =
      get-update dx.accounts j k (with_balance balance now) db.accounts ∙ rw e

  pub effects-set_balance :
      (j k : ℕ) (t : AccountType) (balance : ℤ) (now : Text) (db : Db dx)
      → effects j t (set_balance dx k balance now db) ≡ effects j t db
  unfolding effects set_balance
  effects-set_balance j k t balance now db = refl

  pub add_transaction-ok :
      (tx : Transaction) (db : Db dx) {k : ℕ} {db' : Db dx}
      → add_transaction dx tx db ≡ ok (k, db')
      → (db'.accounts ≡ db.accounts)
        × ((j : ℕ) (t : AccountType) → effects j t db' ≡ effects j t db +ℤ effect_on j t tx)
  unfolding add_transaction effects effect_on
  add_transaction-ok tx db {k} {db'} h = split (dx.transactions.add tx db.transactions) refl h
    where
      split :
          (o : Option (ℕ × dx.transactions.Table))
          → dx.transactions.add tx db.transactions ≡ o
          → added dx db o ≡ ok (k, db')
          → (db'.accounts ≡ db.accounts)
            × ((j : ℕ) (t : AccountType) → effects j t db' ≡ effects j t db +ℤ effect_on j t tx)
      split none e q = cc
      split (some (i, table)) e q =
          let (free, written, _) = rows-add_ok dx.transactions tx db.transactions e in
          let same : db' ≡ record db { transactions = table } = cc in
          (
            rw same,
            λ j t.
                rw (same, written)
                  (sum_rows-insert_new (effect_on j t) i (set_id i tx)
                    (dx.transactions.rows db.transactions) free),
          )

  pub delete_transaction-ok :
      (k : ℕ) (key : Option ℕ) (tx : Transaction) (db : Db dx) {db' : Db dx}
      → key ≡ some k
      → dx.transactions.get k db.transactions ≡ some tx
      → delete_transaction dx key db ≡ ok db'
      → (db'.accounts ≡ db.accounts)
        × ((j : ℕ) (t : AccountType) → effects j t db' +ℤ effect_on j t tx ≡ effects j t db)
  unfolding delete_transaction effects
  delete_transaction-ok k none tx db {db'} i e h = cc
  delete_transaction-ok k (some key) tx db {db'} i e h =
      let s = dx.transactions in
      let keyed : key ≡ k = cc in
      let same : db' ≡ record db { transactions = s.delete key db.transactions } = cc in
      (
        rw same,
        λ j t.
            rw (same, s.rows-delete)
              (sum_rows-erase (effect_on j t) key tx (s.rows db.transactions)
                (rw s.get-rows at (rw (← keyed) at e))),
      )

  pub put_transaction-effects :
      (k : ℕ) (old tx : Transaction) (db : Db dx)
      → dx.transactions.get k db.transactions ≡ some old
      → tx.id ≡ some k
      → (j : ℕ) (t : AccountType)
      → effects j t (put_transaction dx tx db) +ℤ effect_on j t old
        ≡ effects j t db +ℤ effect_on j t tx
  unfolding effects put_transaction effect_on
  put_transaction-effects k old tx db e i j t =
      let s = dx.transactions in
      rw (s.rows-put, i)
        (sum_rows-insert (effect_on j t) 0 k (set_id k tx) old (s.rows db.transactions)
          (s.rows-IsAscending db.transactions) (rw s.get-rows at e))

  pub put_transaction-accounts :
      (tx : Transaction) (db : Db dx) → (put_transaction dx tx db).accounts ≡ db.accounts
  unfolding put_transaction
  put_transaction-accounts tx db = refl

  pub set_balance-transactions :
      (k : ℕ) (balance : ℤ) (now : Text) (db : Db dx)
      → (set_balance dx k balance now db).transactions ≡ db.transactions
  unfolding set_balance
  set_balance-transactions k balance now db = refl

  pub effect_on-placed :
      (created now : Text) (tx : Transaction) (db : Db dx) (j : ℕ) (t : AccountType)
      → effect_on j t (placed dx created now tx db) ≡ effect_on j t tx
  unfolding placed effect_on
  effect_on-placed created now tx db j t = refl
