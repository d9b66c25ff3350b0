-- ===== src/Examples/Tables.antt =====
-- The tables with text keys as lists: an instance of each interface, on which the models run.
use mathlib.Core.Option
use expensesapp.Prelude.{
  ◌≡◌, refl, Bool, true, false, ◌&&◌, ◌||◌, Option, none, some, List, [], ◌∷◌, map, find, filter,
  not, any, if◌then◌else◌, arith, Bool-cases, inl, inr, eq_of_some,
}
use expensesapp.Prelude.Text.{Text, text_eq, text_eq_refl, text_eq_iff}
use expensesapp.Storage.ListStore.{list_store}
use expensesapp.Models.{account_has_id, transaction_has_id, category_has_id, budget_has_id}
use expensesapp.Ledger.Database.{Dexie}
use expensesapp.Sync.Records.{
  same_type_sound, RecordType, RecordMapping, SyncCursor, same_type, upload_has_id, transaction,
  account, category, budget, settings,
}
use expensesapp.Sync.Tables.{MappingTable, CursorTable, SettingTable, SyncDexie, at_uuid}

abbrev pub matches : RecordType → Text → RecordMapping → Bool
matches type local_id m = same_type m.record_type type && text_eq m.local_id local_id

abbrev pub clashes : RecordMapping → RecordMapping → Bool
clashes n m = matches n.record_type n.local_id m || text_eq m.uuid n.uuid

same_type_refl : (t : RecordType) → same_type t t ≡ true
same_type_refl transaction = refl
same_type_refl account = refl
same_type_refl category = refl
same_type_refl budget = refl
same_type_refl settings = refl

matches_self : (m : RecordMapping) → matches m.record_type m.local_id m ≡ true
matches_self m = rw (same_type_refl m.record_type, text_eq_refl m.local_id) refl

added : RecordMapping → List RecordMapping → Bool → Option (List RecordMapping)
added m t clash = if clash then none else some (m ∷ t)

found_clash :
    (n m : RecordMapping) (t : List RecordMapping)
    → find (matches n.record_type n.local_id) t ≡ some m
    → any (clashes n) t ≡ true
found_clash n m [] h = cc
found_clash n m (x ∷ t) h = elim (Bool-cases (matches n.record_type n.local_id x)) [
  | inl hit ↦ ground (arith, hit)
  | inr miss ↦ ground (arith, miss, found_clash n m t)
]

matches-at_uuid :
    (uuid : Text) (f : RecordMapping → RecordMapping) (type : RecordType) (local_id : Text)
    (m : RecordMapping)
    → ((f m).record_type ≡ m.record_type) × ((f m).local_id ≡ m.local_id)
    → matches type local_id (at_uuid uuid f m) ≡ matches type local_id m
matches-at_uuid uuid f type local_id m kept = split (text_eq m.uuid uuid)
  where
    split : (b : Bool) → matches type local_id (if b then f m else m) ≡ matches type local_id m
    split true = rw (kept.0, kept.1) refl
    split false = refl

pub find-updated :
    (uuid : Text) (f : RecordMapping → RecordMapping) (type : RecordType) (local_id : Text)
    (t : List RecordMapping)
    → ((m : RecordMapping) → ((f m).record_type ≡ m.record_type) × ((f m).local_id ≡ m.local_id))
    → find (matches type local_id) (map (at_uuid uuid f) t)
      ≡ Option.map (at_uuid uuid f) (find (matches type local_id) t)
find-updated uuid f type local_id [] kept = refl
find-updated uuid f type local_id (m ∷ t) kept = elim (Bool-cases (matches type local_id m)) [
  | inl e ↦ rw (matches-at_uuid uuid f type local_id m (kept m), e) refl
  | inr e ↦
      rw (matches-at_uuid uuid f type local_id m (kept m), e)
        (find-updated uuid f type local_id t kept)
]

abbrev pub add : RecordMapping → List RecordMapping → Option (List RecordMapping)
add m t = if any (clashes m) t then none else some (m ∷ t)

added_eq :
    (b : Bool) (m : RecordMapping) (t t' : List RecordMapping)
    → (if b then none else some (m ∷ t)) ≡ some t'
    → (b ≡ false) × (m ∷ t ≡ t')
added_eq true m t t' h = cc
added_eq false m t t' h = (refl, eq_of_some h)

pub find-added :
    (m : RecordMapping) (t t' : List RecordMapping)
    → add m t ≡ some t'
    → find (matches m.record_type m.local_id) t' ≡ some m
find-added m t t' h = rw (← (added_eq (any (clashes m) t) m t t' h).1, matches_self m) refl

pub find-put :
    (m : RecordMapping) (t t' : List RecordMapping)
    → add m t ≡ some t'
    → find (λ (n : RecordMapping). text_eq n.uuid m.uuid) t' ≡ some m
find-put m t t' h = rw (← (added_eq (any (clashes m) t) m t t' h).1, text_eq_refl m.uuid) refl

same_key :
    (m : RecordMapping) (type : RecordType) (local_id : Text)
    → matches type local_id m ≡ true
    → (m.record_type ≡ type) × (m.local_id ≡ local_id)
same_key m type local_id h = (
  same_type_sound m.record_type type (ground (arith, h)),
  (text_eq_iff m.local_id local_id).0 (ground (arith, h)),
)

pub find-added_old :
    (m n : RecordMapping) (type : RecordType) (local_id : Text) (t t' : List RecordMapping)
    → add n t ≡ some t'
    → find (matches type local_id) t ≡ some m
    → find (matches type local_id) t' ≡ some m
find-added_old m n type local_id t t' h old =
    let fresh = added_eq (any (clashes n) t) n t t' h in
    rw (← fresh.1) (elim (Bool-cases (matches type local_id n)) [
      | inl hit ↦
          let key = same_key n type local_id hit in
          let clash = found_clash n m t (rw (key.0, key.1) old) in ground (arith, clash, fresh.0)
      | inr miss ↦ ground (arith, miss, old)
    ])

abbrev pub list_mappings : MappingTable
list_mappings = record {
  Table = List RecordMapping;
  by_local = λ type local_id t. find (matches type local_id) t;
  by_uuid = λ uuid t. find (λ m. text_eq m.uuid uuid) t;
  add = add;
  put = λ m t. add m (filter (λ n. not (text_eq n.uuid m.uuid)) t);
  clear = λ t. [];
  by_uuid-clear = λ uuid t. refl;
  update = λ uuid f t. map (at_uuid uuid f) t;
  by_local-add = find-added;
  by_local-add_old = find-added_old;
  by_uuid-put = λ m t. find-put m (filter (λ n. not (text_eq n.uuid m.uuid)) t);
  by_local-update = find-updated;
}

-- A cursor is found where it was put last.
abbrev pub cursor_in : Text → List SyncCursor → Option SyncCursor
cursor_in f [] = none
cursor_in f (c ∷ cs) = if text_eq f c.family_id then some c else cursor_in f cs

abbrev pub first_cursor : List SyncCursor → Option SyncCursor
first_cursor [] = none
first_cursor (c ∷ cs) = some c

abbrev pub list_cursors : CursorTable
list_cursors = record {
  Table = List SyncCursor;
  get = cursor_in;
  first = first_cursor;
  put = λ c t. c ∷ t;
  clear = λ t. [];
  get-clear = λ f t. refl;
  get-put = λ f c t. refl;
}

-- A setting is what was written to its key last, and a deletion is a write of nothing.
abbrev pub setting_in : Text → List (Text × Option Text) → Option Text
setting_in k [] = none
setting_in k ((j, v) ∷ t) = if text_eq k j then v else setting_in k t

abbrev pub list_settings : SettingTable
list_settings = record {
  Table = List (Text × Option Text);
  get = setting_in;
  put = λ k v t. (k, some v) ∷ t;
  delete = λ k t. (k, none) ∷ t;
  clear = λ t. [];
  get-clear = λ k t. refl;
  get-put = λ k j v t. refl;
  get-delete = λ k j t. refl;
}

abbrev pub dexie : Dexie
dexie = record { accounts = list_store; transactions = list_store }

abbrev pub sync_dexie : SyncDexie
sync_dexie = record {
  ledger = dexie;
  categories = list_store;
  budgets = list_store;
  uploads = list_store;
  mappings = list_mappings;
  cursors = list_cursors;
  settings = list_settings;
}
