-- ===== src/Ledger/Moves.antt =====
-- How a write moves the stored balances and the effects of the stored transactions. Moves add up
-- along the steps of a write, and one that moves both alike keeps every opening balance.
use expensesapp.Prelude.{
  ℕ, Bool, true, false, ◌≡◌, refl, ap, sym, ◌∙◌, Option, none, some, ◌==◌, ==_iff, if◌then◌else◌,
}
use expensesapp.Prelude.Int.{ℤ, pos, neg, ◌+ℤ◌, ◌-ℤ◌, int_laws, add-zero_ℤ, pos_part, neg_part}
use expensesapp.Prelude.Text.{Text}
use expensesapp.Models.{Account, AccountType, Transaction}
use expensesapp.Ledger.Delta.{get_balance_delta}
use expensesapp.Ledger.Database.{
  Dexie, Db, ok, set_balance, with_balance, add_transaction, delete_transaction,
}
use expensesapp.Ledger.Opening.{
  opening, effects, effect_on, effect_on_other, get_balance_delta-at, get-set_balance,
  effects-set_balance, add_transaction-ok, delete_transaction-ok, opening_of,
}

-- A change of balance that depends on the account's key and type.
abbrev pub Change : Type 0
Change = ℕ → AccountType → ℤ

abbrev pub nothing : Change
nothing j t = pos 0

abbrev pub effect_of : Transaction → Change
effect_of tx j t = effect_on j t tx

abbrev pub taken_back : Transaction → Change
taken_back tx j t = neg (effect_on j t tx)

infixl 65 ◌and◌
abbrev pub ◌and◌ : Change → Change → Change
(c and d) j t = c j t +ℤ d j t

-- A row of an account before and after: it keeps its type, and its balance moves.
abbrev pub Shift : (AccountType → ℤ) → Option Account → Option Account → Type 0
Shift c none none = Unit
Shift c none (some b) = ⊥
Shift c (some a) none = ⊥
Shift c (some a) (some b) = (b.type ≡ a.type) × (b.balance ≡ a.balance +ℤ c a.type)

add_assoc_of : (x y z c d : ℤ) → y ≡ x +ℤ c → z ≡ y +ℤ d → z ≡ x +ℤ (c +ℤ d)
add_assoc_of x y z c d h k =
    omega (int_laws, ap pos_part h, ap neg_part h, ap pos_part k, ap neg_part k)

Shift-trans :
    (c d : AccountType → ℤ) (x y z : Option Account)
    → Shift c x y
    → Shift d y z
    → Shift (λ t. c t +ℤ d t) x z
Shift-trans c d none none none h k = tt
Shift-trans c d none none (some z) h k = k
Shift-trans c d none (some y) z h k = absurd h
Shift-trans c d (some x) none z h k = absurd h
Shift-trans c d (some x) (some y) none h k = absurd k
Shift-trans c d (some x) (some y) (some z) h k = (
  k.0 ∙ h.0,
  add_assoc_of x.balance y.balance z.balance (c x.type) (d x.type) h.1
      (k.1 ∙ ap (λ (t : AccountType). y.balance +ℤ d t) h.0),
)

pub Shift-unmoved :
    (c : AccountType → ℤ) (x : Option Account) → ((t : AccountType) → c t ≡ pos 0) → Shift c x x
Shift-unmoved c none h = tt
Shift-unmoved c (some a) h =
    (refl, sym (ap (λ (d : ℤ). a.balance +ℤ d) (h a.type) ∙ add-zero_ℤ a.balance))

module _ (dx : Dexie) where
  pub record Moves (db db' : Db dx) (c e : Change) : Type 0 where
    pub shifts :
        (j : ℕ) → Shift (c j) (dx.accounts.get j db.accounts) (dx.accounts.get j db'.accounts)
    pub effects_move : (j : ℕ) (t : AccountType) → effects dx j t db' ≡ effects dx j t db +ℤ e j t

  pub Moves-same : (db : Db dx) → Moves db db nothing nothing
  Moves-same db = record {
    shifts = λ j. Shift-unmoved (λ t. pos 0) (dx.accounts.get j db.accounts) (λ t. refl);
    effects_move = λ j t. sym (add-zero_ℤ (effects dx j t db));
  }

  pub Moves-trans :
      {db db1 db2 : Db dx} {c d e f : Change}
      → Moves db db1 c e
      → Moves db1 db2 d f
      → Moves db db2 (c and d) (e and f)
  Moves-trans {db} {db1} {db2} {c} {d} {e} {f} m n = record {
    shifts = λ j.
        Shift-trans (c j) (d j) (dx.accounts.get j db.accounts) (dx.accounts.get j db1.accounts)
          (dx.accounts.get j db2.accounts) (m.shifts j) (n.shifts j);
    effects_move = λ j t.
        add_assoc_of (effects dx j t db) (effects dx j t db1) (effects dx j t db2) (e j t) (f j t)
          (m.effects_move j t) (n.effects_move j t);
  }

  -- Where both move alike, the opening balance stays.
  pub Moves-opening :
      {db db' : Db dx} {c e : Change}
      → Moves db db' c e
      → ((j : ℕ) (t : AccountType) → c j t ≡ e j t)
      → (j : ℕ) → opening dx j db' ≡ opening dx j db
  unfolding opening
  Moves-opening {db} {db'} {c} {e} m alike j =
      at (dx.accounts.get j db.accounts) (dx.accounts.get j db'.accounts) (m.shifts j)
    where
      balanced : (x y z f g h : ℤ) → y ≡ x +ℤ z → g ≡ f +ℤ h → z ≡ h → y -ℤ g ≡ x -ℤ f
      balanced x y z f g h p q r = omega (
        int_laws,
        ap pos_part p,
        ap neg_part p,
        ap pos_part q,
        ap neg_part q,
        ap pos_part r,
        ap neg_part r,
      )

      at : (x y : Option Account) → Shift (c j) x y → opening_of dx j db' y ≡ opening_of dx j db x
      at none none s = refl
      at none (some b) s = absurd s
      at (some a) none s = absurd s
      at (some a) (some b) s = rw s.0 (
          ap some (
            balanced a.balance b.balance (c j a.type) (effects dx j a.type db)
              (effects dx j a.type db') (e j a.type) s.1 (m.effects_move j a.type)
              (alike j a.type)))

  -- A balance write to an account that is there.
  pub set_balance-Moves :
      (c : Change) (k : ℕ) (balance : ℤ) (now : Text) (a : Account) (db : Db dx)
      → dx.accounts.get k db.accounts ≡ some a
      → balance ≡ a.balance +ℤ c k a.type
      → ((j : ℕ) (t : AccountType) → (j == k) ≡ false → c j t ≡ pos 0)
      → Moves db (set_balance dx k balance now db) c nothing
  set_balance-Moves c k balance now a db here moved others = record {
    shifts = λ j. rw (get-set_balance dx j k balance now a db here) (
        written j (j == k) (dx.accounts.get j db.accounts)
          (λ e. (
            (==_iff j k).0 e,
            ap (λ (i : ℕ). dx.accounts.get i db.accounts) ((==_iff j k).0 e) ∙ here,
          ))
          (λ e t. others j t e));
    effects_move =
        λ j t. effects-set_balance dx j k t balance now db ∙ sym (add-zero_ℤ (effects dx j t db));
  }
    where
      written :
          (j : ℕ) (b : Bool) (x : Option Account)
          → (b ≡ true → (j ≡ k) × (x ≡ some a))
          → (b ≡ false → (t : AccountType) → c j t ≡ pos 0)
          → Shift (c j) x (if b then some (with_balance balance now a) else x)
      written j true x hit miss =
          rw ((hit refl).1)
            (refl, moved ∙ ap (λ (i : ℕ). a.balance +ℤ c i a.type) (sym (hit refl).0))
      written j false x hit miss = Shift-unmoved (c j) x (miss refl)

  -- `account.balance + delta` and `account.balance - delta`, with the delta for an account of the
  -- same type.
  pub credit-Moves :
      (tx : Transaction) (now : Text) (a b : Account) (db : Db dx)
      → dx.accounts.get tx.account_id db.accounts ≡ some a
      → b.type ≡ a.type
      → Moves db
          (set_balance dx tx.account_id (a.balance +ℤ get_balance_delta b tx) now db)
          (effect_of tx)
          nothing
  credit-Moves tx now a b db here same =
      set_balance-Moves (effect_of tx) tx.account_id (a.balance +ℤ get_balance_delta b tx) now a db
        here
        (ap (λ (d : ℤ). a.balance +ℤ d)
          (get_balance_delta-at tx.account_id b tx refl
            ∙ ap (λ (t : AccountType). effect_on tx.account_id t tx) same))
        (λ j t other. effect_on_other j t tx other)

  sub-eq-add_neg : (x d : ℤ) → x -ℤ d ≡ x +ℤ neg d
  sub-eq-add_neg x d = omega int_laws

  pub neg-zero_of : (d : ℤ) → d ≡ pos 0 → neg d ≡ pos 0
  neg-zero_of d h = omega (int_laws, ap pos_part h, ap neg_part h)

  pub debit-Moves :
      (tx : Transaction) (now : Text) (a b : Account) (db : Db dx)
      → dx.accounts.get tx.account_id db.accounts ≡ some a
      → b.type ≡ a.type
      → Moves db
          (set_balance dx tx.account_id (a.balance -ℤ get_balance_delta b tx) now db)
          (taken_back tx)
          nothing
  debit-Moves tx now a b db here same =
      set_balance-Moves (taken_back tx) tx.account_id (a.balance -ℤ get_balance_delta b tx) now a db
        here
        (ap (λ (d : ℤ). a.balance -ℤ d)
            (get_balance_delta-at tx.account_id b tx refl
              ∙ ap (λ (t : AccountType). effect_on tx.account_id t tx) same)
          ∙ sub-eq-add_neg a.balance (effect_on tx.account_id a.type tx))
        (λ j t other. neg-zero_of (effect_on j t tx) (effect_on_other j t tx other))

  pub add_transaction-Moves :
      (tx : Transaction) (db : Db dx) {k : ℕ} {db' : Db dx}
      → add_transaction dx tx db ≡ ok (k, db')
      → Moves db db' nothing (effect_of tx)
  add_transaction-Moves tx db {k} {db'} h =
      let written = add_transaction-ok dx tx db h in
      record {
        shifts = λ j.
            rw (written.0) (Shift-unmoved (λ t. pos 0) (dx.accounts.get j db.accounts) (λ t. refl));
        effects_move = written.1;
      }

  less_back : (x y z : ℤ) → x +ℤ y ≡ z → x ≡ z +ℤ neg y
  less_back x y z h = omega (int_laws, ap pos_part h, ap neg_part h)

  pub delete_transaction-Moves :
      (i : ℕ) (tx : Transaction) (db : Db dx) {db' : Db dx}
      → tx.id ≡ some i
      → dx.transactions.get i db.transactions ≡ some tx
      → delete_transaction dx tx.id db ≡ ok db'
      → Moves db db' nothing (taken_back tx)
  delete_transaction-Moves i tx db {db'} has_id stored h =
      let deleted = delete_transaction-ok dx i tx.id tx db has_id stored h in
      record {
        shifts = λ j.
            rw (deleted.0) (Shift-unmoved (λ t. pos 0) (dx.accounts.get j db.accounts) (λ t. refl));
        effects_move = λ j t.
            less_back (effects dx j t db') (effect_on j t tx) (effects dx j t db) (deleted.1 j t);
      }
