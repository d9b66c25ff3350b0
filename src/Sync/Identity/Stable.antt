-- ===== src/Sync/Identity/Stable.antt =====
-- A mapping, once made, is the one that the next pushes of the row find.
use mathlib.Core.Option
use expensesapp.Prelude.{
  ℕ, Bool, true, false, ◌∙◌, if◌then◌else◌, ◌≡◌, Option, none, some, refl, ap, eq_of_some,
}
use expensesapp.Prelude.Text.{Text, text_eq}
use expensesapp.Sync.Identity.{
  get_mapping_by_local_id, get_or_create_mapping_for_push, update_last_server_version,
  set_server_version, with_version, get_or_create, with_mapping, with_mappings,
}
use expensesapp.Sync.Records.{RecordMapping, RecordType}
use expensesapp.Sync.Tables.{SyncDexie, SyncDb, at_uuid}

module _ (sx : SyncDexie) where
  added_is_found :
      (n m : RecordMapping) (db db' : SyncDb sx) (o : Option sx.mappings.Table)
      → sx.mappings.add n db.mappings ≡ o
      → with_mapping sx n (with_mappings sx db o) ≡ some (m, db')
      → sx.mappings.by_local n.record_type n.local_id db'.mappings ≡ some m
  added_is_found n m db db' none e h = cc
  added_is_found n m db db' (some t) e h =
      let first : n ≡ m = ap (λ (p : RecordMapping × SyncDb sx). p.0) (eq_of_some h) in
      let second : t ≡ db'.mappings =
        ap (λ (p : RecordMapping × SyncDb sx). p.1.mappings) (eq_of_some h) in
      rw (← second, ← first) (sx.mappings.by_local-add n db.mappings t e)

  resolved_is_found :
      (type : RecordType) (local_id uuid user : Text) (db db' : SyncDb sx) (m : RecordMapping)
      (o : Option RecordMapping)
      → sx.mappings.by_local type local_id db.mappings ≡ o
      → get_or_create sx type local_id uuid user db o ≡ some (m, db')
      → sx.mappings.by_local type local_id db'.mappings ≡ some m
  resolved_is_found type local_id uuid user db db' m none e h =
      added_is_found
        (record {
          record_type = type;
          local_id = local_id;
          uuid = uuid;
          last_server_version = 0;
          creator_user_id = user;
        })
        m db db'
        (sx.mappings.add
          (record {
            record_type = type;
            local_id = local_id;
            uuid = uuid;
            last_server_version = 0;
            creator_user_id = user;
          })
          db.mappings)
        refl h
  resolved_is_found type local_id uuid user db db' m (some n) e h =
      let first : n ≡ m = ap (λ (p : RecordMapping × SyncDb sx). p.0) (eq_of_some h) in
      let second : db ≡ db' = ap (λ (p : RecordMapping × SyncDb sx). p.1) (eq_of_some h) in
      rw (← second, ← first) e

  -- What pushes do to the mappings: each resolves the mapping of its row, and the server's versions
  -- are stored.
  pub data Pushes : SyncDb sx → SyncDb sx → Type 0 where
    unpushed : (db : SyncDb sx) → Pushes db db
    resolved :
        {db d d' : SyncDb sx} (type : RecordType) (local_id uuid user : Text) (m : RecordMapping)
        → get_or_create_mapping_for_push sx type local_id uuid user d ≡ some (m, d')
        → Pushes db d
        → Pushes db d'
    versioned :
        {db d : SyncDb sx} (type : RecordType) (local_id : Text) (version : ℕ)
        → Pushes db d
        → Pushes db (update_last_server_version sx type local_id version d)

  -- The row has the mapping, whatever version it holds.
  abbrev pub HasMapping : RecordType → Text → RecordMapping → SyncDb sx → Type 0
  HasMapping type local_id m db =
      (m' : RecordMapping) × (sx.mappings.by_local type local_id db.mappings ≡ some m')
      × (m'.uuid ≡ m.uuid)
      × (m'.creator_user_id ≡ m.creator_user_id)

  at_uuid-same :
      (uuid : Text) (version : ℕ) (m : RecordMapping)
      → ((at_uuid uuid (with_version version) m).uuid ≡ m.uuid)
        × ((at_uuid uuid (with_version version) m).creator_user_id ≡ m.creator_user_id)
  at_uuid-same uuid version m = split (text_eq m.uuid uuid)
    where
      split :
          (b : Bool)
          → ((if b then with_version version m else m).uuid ≡ m.uuid)
            × ((if b then with_version version m else m).creator_user_id ≡ m.creator_user_id)
      split true = (refl, refl)
      split false = (refl, refl)

  versioned-HasMapping :
      (type : RecordType) (local_id : Text) (m : RecordMapping) (version : ℕ) (db : SyncDb sx)
      (o : Option RecordMapping)
      → HasMapping type local_id m db
      → HasMapping type local_id m (set_server_version sx o version db)
  versioned-HasMapping type local_id m version db none h = h
  versioned-HasMapping type local_id m version db (some n) (m', here, same, maker) = (
    at_uuid n.uuid (with_version version) m',
    sx.mappings.by_local-update n.uuid (with_version version) type local_id db.mappings
          (λ r. (refl, refl))
        ∙ ap (Option.map (at_uuid n.uuid (with_version version))) here,
    (at_uuid-same n.uuid version m').0 ∙ same,
    (at_uuid-same n.uuid version m').1 ∙ maker,
  )

  added-HasMapping :
      (type : RecordType) (local_id : Text) (m n n' : RecordMapping) (db db' : SyncDb sx)
      (o : Option sx.mappings.Table)
      → sx.mappings.add n db.mappings ≡ o
      → with_mapping sx n (with_mappings sx db o) ≡ some (n', db')
      → HasMapping type local_id m db
      → HasMapping type local_id m db'
  added-HasMapping type local_id m n n' db db' none e h has = cc
  added-HasMapping type local_id m n n' db db' (some t) e h (m', here, same, maker) =
      let written : t ≡ db'.mappings =
        ap (λ (p : RecordMapping × SyncDb sx). p.1.mappings) (eq_of_some h) in
      (
        m',
        rw (← written) (sx.mappings.by_local-add_old m' n type local_id db.mappings t e here),
        same,
        maker,
      )

  resolved-HasMapping :
      (type type' : RecordType) (local_id local_id' uuid user : Text) (m n : RecordMapping)
      (db db' : SyncDb sx) (o : Option RecordMapping)
      → get_or_create sx type' local_id' uuid user db o ≡ some (n, db')
      → HasMapping type local_id m db
      → HasMapping type local_id m db'
  resolved-HasMapping type type' local_id local_id' uuid user m n db db' none h has =
      let made : RecordMapping = record {
        record_type = type';
        local_id = local_id';
        uuid = uuid;
        last_server_version = 0;
        creator_user_id = user;
      } in
      added-HasMapping type local_id m made n db db' (sx.mappings.add made db.mappings) refl h has
  resolved-HasMapping type type' local_id local_id' uuid user m n db db' (some r) h has =
      let same : db ≡ db' = ap (λ (p : RecordMapping × SyncDb sx). p.1) (eq_of_some h) in
      rw (← same) has

  Pushes-HasMapping :
      (type : RecordType) (local_id : Text) (m : RecordMapping) {db db' : SyncDb sx}
      → Pushes db db'
      → HasMapping type local_id m db
      → HasMapping type local_id m db'
  unfolding get_or_create_mapping_for_push update_last_server_version
  Pushes-HasMapping type local_id m (unpushed db) has = has
  Pushes-HasMapping type local_id m (resolved {db} {d} {d'} type' local_id' uuid user n h before)
        has =
      resolved-HasMapping type type' local_id local_id' uuid user m n d d'
        (get_mapping_by_local_id sx type' local_id' d) h
        (Pushes-HasMapping type local_id m before has)
  Pushes-HasMapping type local_id m (versioned {db} {d} type' local_id' version before) has =
      versioned-HasMapping type local_id m version d (get_mapping_by_local_id sx type' local_id' d)
        (Pushes-HasMapping type local_id m before has)

  -- Once a push has resolved the mapping of a row, then after any sequence of pushes of this and
  -- other rows and of stored server versions, a push of the row, by any user, changes no table and
  -- gets a mapping to the same server record with the same creator.
  pub get_or_create-again :
      (type : RecordType) (local_id uuid user uuid' user' : Text) (db db' later : SyncDb sx)
      (m : RecordMapping)
      → get_or_create_mapping_for_push sx type local_id uuid user db ≡ some (m, db')
      → Pushes db' later
      → (m' : RecordMapping) × (get_or_create_mapping_for_push sx type local_id uuid' user' later
          ≡ some (m', later))
        × (m'.uuid ≡ m.uuid)
        × (m'.creator_user_id ≡ m.creator_user_id)
  unfolding get_or_create_mapping_for_push get_mapping_by_local_id
  get_or_create-again type local_id uuid user uuid' user' db db' later m h pushes =
      let here =
        resolved_is_found type local_id uuid user db db' m
          (sx.mappings.by_local type local_id db.mappings) refl h in
      let (m', there, same, maker) =
        Pushes-HasMapping type local_id m pushes (m, here, refl, refl) in
      (m', ap (get_or_create sx type local_id uuid' user' later) there, same, maker)
