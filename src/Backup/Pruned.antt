-- ===== src/Backup/Pruned.antt =====
-- What `createBackup` of src/services/backup.service.ts leaves alone.
use expensesapp.Prelude.{
  ℕ, zero, suc, ◌≡◌, ◌≢◌, refl, ap, sym, ◌∙◌, Bool, true, false, ltb, ◌-◌, ◌==◌, ==_iff, Option,
  none, some, List, [], ◌∷◌, All, filter, length, map, take, if◌then◌else◌, Bool-cases, inl, inr,
  eq_of_some,
}
use expensesapp.Prelude.Text.{Text, text_lt}
use expensesapp.Models.{Backup, backup_has_id}
use expensesapp.Storage.{Store}
use expensesapp.Storage.Keyed.{set_id, lookup, lookup-insert}
use expensesapp.Storage.Laws.{get-delete_ne, rows-add_ok}
use expensesapp.Storage.Queries.{Stands-All, query-Stands}
use expensesapp.Backup.{
  backups_of_kind, bulk_delete, committed, create_backup, insert_by_time, is_of_kind,
  max_backups_per_kind, prune, prune_added, sort_onto,
}

module _ (P : Backup → Type 0) where
  All-filter :
      (p : Backup → Bool) (bs : List Backup) → All (λ b. p b ≡ true → P b) bs → All P (filter p bs)
  All-filter p [] h = tt
  All-filter p (b ∷ bs) h = elim (Bool-cases (p b)) [
    | inl e ↦ rw e (h.0 e, All-filter p bs h.1)
    | inr e ↦ rw e (All-filter p bs h.1)
  ]

  All-insert_by_time :
      (b : Backup) (bs : List Backup) → P b → All P bs → All P (insert_by_time b bs)
  All-insert_by_time b [] h a = (h, tt)
  All-insert_by_time b (c ∷ bs) h a = elim (Bool-cases (text_lt b.created_at c.created_at)) [
    | inl e ↦ rw e (h, (a.0, a.1))
    | inr e ↦ rw e (a.0, All-insert_by_time b bs h a.1)
  ]

  All-sort_onto : (sorted bs : List Backup) → All P sorted → All P bs → All P (sort_onto sorted bs)
  All-sort_onto sorted [] s a = s
  All-sort_onto sorted (b ∷ bs) s a =
      All-sort_onto (insert_by_time b sorted) bs (All-insert_by_time b sorted a.0 s) a.1

  All-take : (n : ℕ) (bs : List Backup) → All P bs → All P (take n bs)
  All-take zero bs a = tt
  All-take (suc n) [] a = tt
  All-take (suc n) (b ∷ bs) a = (a.0, All-take n bs a.1)

module _ (backups : Store Backup) where
  -- Each stored backup holds its own key.
  unfoldable pub HoldsKeys : backups.Table → Type 0
  HoldsKeys t = (k : ℕ) (b : Backup) → backups.get k t ≡ some b → b.id ≡ some k

  -- A backup whose key is not `k`.
  Elsewhere : ℕ → Backup → Type 0
  Elsewhere k b = (i : ℕ) → b.id ≡ some i → i ≢ k

  bulk_delete-get :
      (k : ℕ) (bs : List Backup) (t t' : backups.Table)
      → All (Elsewhere k) bs
      → bulk_delete backups (map (λ (b : Backup). b.id) bs) t ≡ some t'
      → backups.get k t' ≡ backups.get k t
  unfolding Elsewhere
  bulk_delete-get k [] t t' a h = ap (backups.get k) (sym (eq_of_some h))
  bulk_delete-get k (b ∷ bs) t t' a h = split b.id a.0 (bulk_delete-get k bs) h
    where
      split :
          (o : Option ℕ)
          → ((i : ℕ) → o ≡ some i → i ≢ k)
          → ((s s' : backups.Table)
              → All (Elsewhere k) bs
              → bulk_delete backups (map (λ (b : Backup). b.id) bs) s ≡ some s'
              → backups.get k s' ≡ backups.get k s)
          → bulk_delete backups (o ∷ map (λ (b : Backup). b.id) bs) t ≡ some t'
          → backups.get k t' ≡ backups.get k t
      split none ne again q = cc
      split (some i) ne again q =
          again (backups.delete i t) t' a.1 q ∙ get-delete_ne backups k i t (λ e. ne i refl (sym e))

  -- The backups of the other kind than that of the backup at `k`.
  others-Elsewhere :
      (kind : Bool) (k : ℕ) (b : Backup) (t : backups.Table)
      → HoldsKeys t
      → backups.get k t ≡ some b
      → is_of_kind kind b ≡ false
      → All (Elsewhere k) (backups_of_kind backups kind t)
  unfolding HoldsKeys Elsewhere backups_of_kind
  others-Elsewhere kind k b t keyed here other =
      All-sort_onto (Elsewhere k) [] (filter (is_of_kind kind) (backups.query (λ b. true) t)) tt (
        All-filter (Elsewhere k) (is_of_kind kind) (backups.query (λ b. true) t) (
          Stands-All (λ r. is_of_kind kind r ≡ true → (i : ℕ) → r.id ≡ some i → i ≢ k)
            (λ i. backups.get i t) 0 (backups.query (λ b. true) t)
            (query-Stands backups (λ b. true) t)
            (λ j r at same i has e.
              let key : j ≡ k = eq_of_some (sym (keyed j r at) ∙ has) ∙ e in
              let row : r ≡ b = eq_of_some (sym at ∙ ap (λ (i : ℕ). backups.get i t) key ∙ here) in
              let kinds : is_of_kind kind r ≡ is_of_kind kind b = ap (is_of_kind kind) row in
              let clash : true ≡ false = sym same ∙ kinds ∙ other in cc)))

  prune-get :
      (kind : Bool) (k : ℕ) (b : Backup) (t t' : backups.Table)
      → HoldsKeys t
      → backups.get k t ≡ some b
      → is_of_kind kind b ≡ false
      → prune backups kind t ≡ some t'
      → backups.get k t' ≡ some b
  unfolding prune
  prune-get kind k b t t' keyed here other h = split (ltb max_backups_per_kind (length same)) h
    where
      same : List Backup
      same = backups_of_kind backups kind t

      ids : List (Option ℕ)
      ids = map (λ (b : Backup). b.id) (take (length same - max_backups_per_kind) same)

      split :
          (c : Bool)
          → (if c then bulk_delete backups ids t else some t) ≡ some t'
          → backups.get k t' ≡ some b
      split true q =
          bulk_delete-get k (take (length same - max_backups_per_kind) same) t t'
            (All-take (Elsewhere k) (length same - max_backups_per_kind) same
              (others-Elsewhere kind k b t keyed here other))
            q
          ∙ here
      split false q = ap (backups.get k) (sym (eq_of_some q)) ∙ here

  added-get :
      (made : Backup) (t : backups.Table) {i : ℕ} {t' : backups.Table}
      → backups.add made t ≡ some (i, t')
      → (j : ℕ) → backups.get j t' ≡ (if j == i then some (set_id i made) else backups.get j t)
  added-get made t {i} {t'} e j =
      let (_, written, _) = rows-add_ok backups made t e in
      backups.get-rows j t'
      ∙ ap (lookup j) written
      ∙ lookup-insert j i (set_id i made) (backups.rows t)
      ∙ ap (λ (o : Option Backup). if j == i then some (set_id i made) else o)
          (sym (backups.get-rows j t))

  added-HoldsKeys :
      (made : Backup) (t : backups.Table) {i : ℕ} {t' : backups.Table}
      → backups.add made t ≡ some (i, t')
      → HoldsKeys t
      → HoldsKeys t'
  unfolding HoldsKeys
  added-HoldsKeys made t {i} {t'} e keyed j r at = elim (Bool-cases (j == i)) [
    | inl hit ↦
        let row : set_id i made ≡ r = eq_of_some (rw hit at (sym (added-get made t e j) ∙ at)) in
        ap (λ (b : Backup). b.id) (sym row) ∙ ap some (sym ((==_iff j i).0 hit))
    | inr miss ↦ keyed j r (rw miss at (sym (added-get made t e j) ∙ at))
  ]

  added-keeps :
      (made b : Backup) (k : ℕ) (t : backups.Table) {i : ℕ} {t' : backups.Table}
      → backups.add made t ≡ some (i, t')
      → backups.get k t ≡ some b
      → backups.get k t' ≡ some b
  added-keeps made b k t {i} {t'} e here = elim (Bool-cases (k == i)) [
    | inl hit ↦
        let free : backups.get i t ≡ none =
          backups.get-rows i t ∙ (rows-add_ok backups made t e).0 in
        let taken : backups.get i t ≡ some b =
          ap (λ (j : ℕ). backups.get j t) (sym ((==_iff k i).0 hit)) ∙ here in
        cc
    | inr miss ↦ added-get made t e k ∙ (rw miss here)
  ]

  -- A new backup, automatic or not, leaves every stored backup of the other kind in place, whether
  -- the write succeeds or fails, provided that each stored backup holds its own key.
  pub create_backup-other_kind :
      (snapshot now : Text) (is_automatic : Bool) (t : backups.Table) (k : ℕ) (b : Backup)
      → HoldsKeys t
      → backups.get k t ≡ some b
      → is_of_kind is_automatic b ≡ false
      → backups.get k (create_backup backups snapshot now is_automatic t).1 ≡ some b
  unfolding create_backup
  create_backup-other_kind snapshot now is_automatic t k b keyed here other =
      added (backups.add made t) refl
    where
      made : Backup
      made = record {
        id = none;
        created_at = now;
        backup_data = snapshot;
        is_automatic = is_automatic;
      }

      pruned :
          (o : Option backups.Table)
          → ((t' : backups.Table) → o ≡ some t' → backups.get k t' ≡ some b)
          → backups.get k (committed backups t o).1 ≡ some b
      pruned none h = here
      pruned (some t') h = h t' refl

      added :
          (o : Option (ℕ × backups.Table))
          → backups.add made t ≡ o
          → backups.get k (committed backups t (prune_added backups is_automatic o)).1 ≡ some b
      added none e = here
      added (some (i, t')) e = pruned (prune backups is_automatic t') (λ s q.
          prune-get is_automatic k b t' s (added-HoldsKeys made t e keyed)
            (added-keeps made b k t e here) other q)
