-- ===== src/Integrity/Consistent.antt =====
-- What the check of src/services/integrity.service.ts finds, against what it is to find.
use expensesapp.Prelude.{
  ℕ, ◌≡◌, refl, ap, sym, ◌∙◌, ◌↔◌, ◌⊎◌, ◌+◌, length, Bool, true, false, not, ◌==◌, ltb,
  if◌then◌else◌, Option, none, some, List, [], ◌∷◌, any, All, is_some, arith, Bool-cases, inl, inr,
  filter, eq_of_some,
}
use expensesapp.Prelude.Text.{Text, text_eq, text_eq_iff, holds_text}
use expensesapp.Models.{Transaction, transaction_has_id}
use expensesapp.Storage.Keyed.{Rows, rows_of, lookup}
use expensesapp.Storage.Queries.{Stands-All, query-Stands}
use expensesapp.Ledger.Database.{Dexie, Db}
use expensesapp.Integrity.{
  all_transactions, check_database_integrity, count_of, count_orphaned_account_refs,
  count_orphaned_transfer_legs, group_ids, leg_count, unique_keys, with_group, passed,
  IntegrityFailureKind, semantic_check,
}

module _ {A : Type 0} where
  count_of-zero : (p : A → Bool) (xs : List A) → count_of p xs ≡ 0 → All (λ x. p x ≡ false) xs
  count_of-zero p [] h = tt
  count_of-zero p (x ∷ xs) h = elim (Bool-cases (p x)) [
    | inl e ↦ absurd (ground (arith, e, h))
    | inr e ↦ (e, count_of-zero p xs (rw e at h))
  ]

  zero-count_of : (p : A → Bool) (xs : List A) → All (λ x. p x ≡ false) xs → count_of p xs ≡ 0
  zero-count_of p [] h = refl
  zero-count_of p (x ∷ xs) h = rw h.0 (zero-count_of p xs h.1)

All_member :
    (P : Text → Type 0) (g : Text) (gs : List Text) → any (text_eq g) gs ≡ true → All P gs → P g
All_member P g [] h a = cc
All_member P g (x ∷ gs) h a = elim (Bool-cases (text_eq g x)) [
  | inl e ↦ rw ((text_eq_iff g x).0 e) a.0
  | inr e ↦ All_member P g gs (rw e at h) a.1
]

All-unique_keys : (P : Text → Type 0) (gs : List Text) → All P (unique_keys gs) → All P gs
All-unique_keys P [] h = tt
All-unique_keys P (g ∷ gs) h = elim (Bool-cases (any (text_eq g) gs)) [
  | inl e ↦ let rest = All-unique_keys P gs (rw e at h) in (All_member P g gs e rest, rest)
  | inr e ↦
      let both : All P (g ∷ unique_keys gs) = rw e at h in (both.0, All-unique_keys P gs both.1)
]

unique_keys-All : (P : Text → Type 0) (gs : List Text) → All P gs → All P (unique_keys gs)
unique_keys-All P [] h = tt
unique_keys-All P (g ∷ gs) h = elim (Bool-cases (any (text_eq g) gs)) [
  | inl e ↦ rw e (unique_keys-All P gs h.1)
  | inr e ↦ rw e (h.0, unique_keys-All P gs h.1)
]

-- A predicate on the group of a transaction, if it has one.
abbrev OnGroup : (Text → Type 0) → Transaction → Type 0
OnGroup P t = (g : Text) → t.transfer_group_id ≡ some g → P g

group_ids-All :
    (P : Text → Type 0) (txs : List Transaction) → All P (group_ids txs) → All (OnGroup P) txs
group_ids-All P [] h = tt
group_ids-All P (t ∷ txs) h = split t.transfer_group_id (group_ids-All P txs) h
  where
    split :
        (o : Option Text)
        → (All P (group_ids txs) → All (OnGroup P) txs)
        → All P (with_group o (group_ids txs))
        → ((g : Text) → o ≡ some g → P g) × All (OnGroup P) txs
    split none again a = (λ g e. cc, again a)
    split (some i) again a = (λ g e. let same : i ≡ g = eq_of_some e in rw (← same) a.0, again a.1)

All-group_ids :
    (P : Text → Type 0) (txs : List Transaction) → All (OnGroup P) txs → All P (group_ids txs)
All-group_ids P [] h = tt
All-group_ids P (t ∷ txs) h = split t.transfer_group_id (All-group_ids P txs h.1) h.0
  where
    split :
        (o : Option Text)
        → All P (group_ids txs)
        → ((g : Text) → o ≡ some g → P g)
        → All P (with_group o (group_ids txs))
    split none rest a = rest
    split (some i) rest a = (a i refl, rest)

module _ {R : Type 0} where
  All-lookup :
      (P : R → Type 0) (m : Rows R)
      → All P (rows_of m)
      → (k : ℕ) (r : R) → lookup k m ≡ some r
      → P r
  unfolding lookup
  All-lookup P [] a k r h = cc
  All-lookup P ((j, s) ∷ m) a k r h = elim (Bool-cases (k == j)) [
    | inl e ↦ let same : s ≡ r = eq_of_some (rw e at h) in rw (← same) a.0
    | inr e ↦ All-lookup P m a.1 k r (rw e at h)
  ]

  filter_all : (xs : List R) → filter (λ r. true) xs ≡ xs
  filter_all [] = refl
  filter_all (x ∷ xs) = ap (λ (l : List R). x ∷ l) (filter_all xs)

-- The rows of a list that are in a transfer group, counted one by one.
abbrev pub one_if : Option Text → Text → ℕ
one_if none g = 0
one_if (some h) g = if text_eq h g then 1 else 0

abbrev pub legs : Text → List Transaction → ℕ
legs g [] = 0
legs g (t ∷ txs) = one_if t.transfer_group_id g + legs g txs

length-legs :
    (g : Text) (txs : List Transaction)
    → length (filter (λ t. holds_text t.transfer_group_id g) txs) ≡ legs g txs
length-legs g [] = refl
length-legs g (t ∷ txs) = split t.transfer_group_id (length-legs g txs)
  where
    split :
        (o : Option Text)
        → length (filter (λ t. holds_text t.transfer_group_id g) txs) ≡ legs g txs
        → length (
            if holds_text o g
            then t ∷ filter (λ t. holds_text t.transfer_group_id g) txs
            else filter (λ t. holds_text t.transfer_group_id g) txs)
          ≡ one_if o g + legs g txs
    split none h = omega (arith, h)
    split (some i) h = elim (Bool-cases (text_eq i g)) [
      | inl e ↦ rw e (omega (arith, h))
      | inr e ↦ rw e (omega (arith, h))
    ]

module _ (dx : Dexie) where
  -- The rows of the table of transactions.
  abbrev pub stored : Db dx → List Transaction
  stored db = rows_of (dx.transactions.rows db.transactions)

  leg_count-legs : (db : Db dx) (g : Text) → leg_count dx db g ≡ legs g (stored db)
  unfolding leg_count
  leg_count-legs db g =
      ap length (dx.transactions.query-rows (λ t. holds_text t.transfer_group_id g) db.transactions)
      ∙ length-legs g (stored db)

  -- Each transaction that is in a transfer group is one of two, and the account of each is there.
  unfoldable pub IsConsistent : Db dx → Type 0
  IsConsistent db =
      (k : ℕ) (tx : Transaction)
      → dx.transactions.get k db.transactions ≡ some tx
      → ((g : Text) → tx.transfer_group_id ≡ some g → legs g (stored db) ≡ 2)
        × (is_some (dx.accounts.get tx.account_id db.accounts) ≡ true)

  HasTwoLegs : Db dx → Text → Type 0
  HasTwoLegs db g = not (leg_count dx db g == 2) ≡ false

  HasAccount : Db dx → Transaction → Type 0
  HasAccount db t = not (is_some (dx.accounts.get t.account_id db.accounts)) ≡ false

  two_of : (n : ℕ) → not (n == 2) ≡ false → n ≡ 2
  two_of n h = ground (arith, h)

  counts_sound :
      (db : Db dx)
      → count_orphaned_transfer_legs dx db ≡ 0
      → count_orphaned_account_refs dx db ≡ 0
      → IsConsistent db
  unfolding count_orphaned_transfer_legs count_orphaned_account_refs IsConsistent HasTwoLegs
      HasAccount
  counts_sound db legs refs k tx here =
      let s = dx.transactions in
      let all_rows : all_transactions dx db ≡ rows_of (s.rows db.transactions) =
        s.query-rows (λ t. true) db.transactions ∙ filter_all (rows_of (s.rows db.transactions)) in
      let at : lookup k (s.rows db.transactions) ≡ some tx = rw s.get-rows at here in
      let two = group_ids-All (HasTwoLegs db) (all_transactions dx db) (
        All-unique_keys (HasTwoLegs db) (group_ids (all_transactions dx db))
          (count_of-zero _ (unique_keys (group_ids (all_transactions dx db))) legs)) in
      let there = count_of-zero _ (all_transactions dx db) refs in
      (
        λ g e.
            let h =
              All-lookup (OnGroup (HasTwoLegs db)) (s.rows db.transactions) (rw all_rows at two) k
                tx at g e in
            sym (leg_count-legs db g) ∙ two_of (leg_count dx db g) h,
        let h =
              All-lookup (HasAccount db) (s.rows db.transactions) (rw all_rows at there) k tx at in
            ground (arith, h),
      )

  counts_complete :
      (db : Db dx)
      → IsConsistent db
      → (count_orphaned_transfer_legs dx db ≡ 0) × (count_orphaned_account_refs dx db ≡ 0)
  unfolding count_orphaned_transfer_legs count_orphaned_account_refs IsConsistent HasTwoLegs
      HasAccount
  counts_complete db consistent =
      let stands = query-Stands dx.transactions (λ t. true) db.transactions in
      let at : ℕ → Option Transaction = λ k. dx.transactions.get k db.transactions in
      (
        zero-count_of _ (unique_keys (group_ids (all_transactions dx db))) (
            unique_keys-All (HasTwoLegs db) (group_ids (all_transactions dx db)) (
              All-group_ids (HasTwoLegs db) (all_transactions dx db) (
                Stands-All (OnGroup (HasTwoLegs db)) at 0 (all_transactions dx db) stands
                  (λ k r here g e.
                    let h = leg_count-legs db g ∙ (consistent k r here).0 g e in rw h refl)))),
        zero-count_of _ (all_transactions dx db) (
            Stands-All (HasAccount db) at 0 (all_transactions dx db) stands
              (λ k r here. let h = (consistent k r here).1 in rw h refl)),
      )

  -- The check passes just where the first reads come to their end and, further, a count of the
  -- semantic check throws, which it passes over, or each transaction of a transfer group is one of
  -- two and the account of each transaction is there.
  pub check_database_integrity-IsConsistent :
      (reads counts : Bool) (db : Db dx)
      → ((check_database_integrity dx reads counts db).ok ≡ true)
        ↔ ((reads ≡ true) × ((counts ≡ false) ⊎ IsConsistent db))
  unfolding check_database_integrity
  check_database_integrity-IsConsistent false counts db = (λ h. cc, λ h. cc)
  check_database_integrity-IsConsistent true false db = (λ h. (refl, inl refl), λ h. refl)
  check_database_integrity-IsConsistent true true db =
      (λ h. (refl, inr (sound h)), λ h. complete h.1)
    where
      passes :
          (m n : ℕ)
          → (if ltb 0 m
              then record {
                ok = false;
                error = some m;
                failure_kind = some IntegrityFailureKind.orphaned_transfer;
              }
              else if ltb 0 n
              then record {
                ok = false;
                error = some n;
                failure_kind = some IntegrityFailureKind.orphaned_account_ref;
              }
              else passed dx).ok
            ≡ true
          → (m ≡ 0) × (n ≡ 0)
      passes m n h = (ground (arith, h), ground (arith, h))

      complete : (true ≡ false) ⊎ IsConsistent db → (semantic_check dx db).ok ≡ true
      complete (inl h) = cc
      complete (inr c) = let zero = counts_complete db c in rw (zero.0, zero.1) refl

      sound : (semantic_check dx db).ok ≡ true → IsConsistent db
      sound h =
          let zero =
            passes (count_orphaned_transfer_legs dx db) (count_orphaned_account_refs dx db) h in
          counts_sound db zero.0 zero.1
