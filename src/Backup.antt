-- ===== src/Backup.antt =====
-- src/services/backup.service.ts: making a backup, with the older ones of its kind pruned; Restore reads one back.
pub mod Pruned
pub mod Restore
pub mod Outcome
use expensesapp.Prelude.{
  ℕ, Bool, true, false, not, ltb, ◌-◌, Option, none, some, List, [], ◌∷◌, filter, length, map, take,
  if◌then◌else◌,
}
use expensesapp.Prelude.Text.{Text, text_lt}
use expensesapp.Models.{Backup, backup_has_id}
use expensesapp.Storage.{Store}

abbrev pub max_backups_per_kind : ℕ
max_backups_per_kind = 3

-- `b.isAutomatic === isAutomatic`
abbrev pub is_of_kind : Bool → Backup → Bool
is_of_kind true b = b.is_automatic
is_of_kind false b = not b.is_automatic

-- `sort((a, b) => (a.createdAt < b.createdAt ? -1 : 1))` by insertion from the front: a row goes
-- behind those that are not later.
abbrev pub insert_by_time : Backup → List Backup → List Backup
insert_by_time b [] = b ∷ []
insert_by_time b (c ∷ bs) =
    if text_lt b.created_at c.created_at then b ∷ c ∷ bs else c ∷ insert_by_time b bs

abbrev pub sort_onto : List Backup → List Backup → List Backup
sort_onto sorted [] = sorted
sort_onto sorted (b ∷ bs) = sort_onto (insert_by_time b sorted) bs

abbrev pub sort_by_time : List Backup → List Backup
sort_by_time bs = sort_onto [] bs

module _ (backups : Store Backup) where
  -- `bulkDelete(ids)`; an undefined key is refused.
  abbrev pub bulk_delete : List (Option ℕ) → backups.Table → Option backups.Table
  bulk_delete [] t = some t
  bulk_delete (none ∷ ids) t = none
  bulk_delete (some k ∷ ids) t = bulk_delete ids (backups.delete k t)

  unfoldable pub backups_of_kind : Bool → backups.Table → List Backup
  backups_of_kind kind t = sort_by_time (filter (is_of_kind kind) (backups.query (λ b. true) t))

  unfoldable pub prune : Bool → backups.Table → Option backups.Table
  prune kind t =
      let same_kind = backups_of_kind kind t in
      if ltb max_backups_per_kind (length same_kind)
      then bulk_delete
          (map (λ (b : Backup). b.id) (take (length same_kind - max_backups_per_kind) same_kind)) t
      else some t

  abbrev pub prune_added : Bool → Option (ℕ × backups.Table) → Option backups.Table
  prune_added kind none = none
  prune_added kind (some (k, t)) = prune kind t

  -- `db.transaction("rw", db.backups, …)`: whether the write was committed, and the table.
  abbrev pub committed : backups.Table → Option backups.Table → Bool × backups.Table
  committed before none = (false, before)
  committed before (some after) = (true, after)

  -- `snapshot` is the JSON text of the tables.
  unfoldable pub create_backup :
      (snapshot now : Text) → (is_automatic : Bool) → backups.Table → Bool × backups.Table
  create_backup snapshot now is_automatic t =
      let made : Backup = record {
        id = none;
        created_at = now;
        backup_data = snapshot;
        is_automatic = is_automatic;
      } in
      committed t (prune_added is_automatic (backups.add made t))
