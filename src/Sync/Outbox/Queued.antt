-- ===== src/Sync/Outbox/Queued.antt =====
-- What `enqueuePush` leaves in the outbox.
use mathlib.Core.Option
use expensesapp.Prelude.{
  ℕ, suc, ◌≡◌, ◌≢◌, ◌⊎◌, refl, ap, ◌∙◌, Bool, true, false, Option, none, some, [], ◌∷◌, filter,
  arith, ==_iff, sym, ◌==◌, if◌then◌else◌, Bool-cases, inl, inr, Option-cases, eq_of_some, sym,
}
use expensesapp.Storage.Keyed.{Rows, rows_of, lookup, set_id, IsAscending, lookup_below}
use expensesapp.Storage.Laws.{get-update, get-add_new}
use expensesapp.Sync.Outbox.{is_terminal}
use expensesapp.Sync.Outbox.Batch.{push_record}
use expensesapp.Sync.Outbox.Enqueue.{
  add_upload, coalesce, first_of, overwrite, queue_upload, queued_id, supersedes, with_added,
  written_unless,
}
use expensesapp.Sync.Outbox.Keys.{IsKeyed}
use expensesapp.Prelude.Text.{text_eq, text_eq_iff}
use expensesapp.Sync.Records.{PendingUpload, upload_has_id, same_type, same_type_sound}
use expensesapp.Sync.Tables.{SyncDexie, SyncDb}

-- The first row of a query stands in the table, and passes the test.
first_of-found :
    (p : PendingUpload → Bool) (lo : ℕ) (m : Rows PendingUpload) (r : PendingUpload)
    → IsAscending lo m
    → first_of (filter p (rows_of m)) ≡ some r
    → (k : ℕ) × (lookup k m ≡ some r) × (p r ≡ true)
unfolding lookup
first_of-found p lo [] r a h = cc
first_of-found p lo ((j, s) ∷ m) r a h = elim (Bool-cases (p s)) [
  | inl hit ↦
      let same : s ≡ r = ground (arith, hit, h) in (j, ground (arith, same), rw (← same) hit)
  | inr miss ↦
      let found = first_of-found p (suc j) m r a.1 (ground (arith, miss, h)) in
      (found.0, ground (arith, found.1, lookup_below (suc j) found.0 m a.1), found.2)
]

own :
    (k : ℕ) (r : PendingUpload) (o : Option PendingUpload) → (if k == k then some r else o) ≡ some r
own k r o = rw ((==_iff k k).1 refl) refl

module _ (sx : SyncDexie) where
  -- The row that a new edit supersedes, if there is one.
  abbrev target : PendingUpload → SyncDb sx → Option PendingUpload
  target fields db = first_of (sx.uploads.query (supersedes fields) db.uploads)

  target-found :
      (fields : PendingUpload) (db : SyncDb sx) (r : PendingUpload)
      → target fields db ≡ some r
      → (k : ℕ) × (sx.uploads.get k db.uploads ≡ some r) × (supersedes fields r ≡ true)
  target-found fields db r h =
      let found =
        first_of-found (supersedes fields) 0 (sx.uploads.rows db.uploads) r
          (sx.uploads.rows-IsAscending db.uploads)
          (ap first_of (sym (sx.uploads.query-rows (supersedes fields) db.uploads)) ∙ h) in
      (found.0, sx.uploads.get-rows found.0 db.uploads ∙ found.1, found.2)

  -- The edit is in the outbox of `db'`, in a row that the next batches take.
  abbrev pub IsQueued : PendingUpload → SyncDb sx → Type 0
  IsQueued fields db' =
      (k : ℕ) × (r : PendingUpload) × (sx.uploads.get k db'.uploads ≡ some r)
      × (push_record r ≡ push_record fields)
      × (is_terminal r ≡ false)

  added_row :
      (fields : PendingUpload) (db : SyncDb sx)
      → fields.id ≡ none
      → is_terminal fields ≡ false
      → (db' : SyncDb sx) × (add_upload sx fields db ≡ some db') × IsQueued fields db'
  unfolding add_upload
  added_row fields db new live =
      let made = get-add_new sx.uploads fields db.uploads new in
      let k = sx.uploads.next_key db.uploads in
      (
        record db { uploads = made.0 },
        ap (with_added sx db) made.1,
        (
          k,
          set_id k fields,
          made.2 k ∙ own k (set_id k fields) (sx.uploads.get k db.uploads),
          refl,
          live,
        ),
      )

  overwritten_row :
      (fields r : PendingUpload) (k : ℕ) (db : SyncDb sx)
      → sx.uploads.get k db.uploads ≡ some r
      → supersedes fields r ≡ true
      → IsQueued fields (record db { uploads = sx.uploads.update k (overwrite fields) db.uploads })
  overwritten_row fields r k db here hit = (
    k,
    overwrite fields r,
    get-update sx.uploads k k (overwrite fields) db.uploads
        ∙ ap (λ o. if k == k then Option.map (overwrite fields) o else sx.uploads.get k db.uploads)
            here
        ∙ own k (overwrite fields r) (sx.uploads.get k db.uploads),
    refl,
    ground (arith, hit),
  )

  -- The row is overwritten or added, before Dexie writes it.
  abbrev coalesced : PendingUpload → SyncDb sx → Option (SyncDb sx)
  coalesced fields db = coalesce sx fields (queued_id sx (target fields db)) db

  coalesced-IsQueued :
      (fields : PendingUpload) (db : SyncDb sx)
      → fields.id ≡ none
      → is_terminal fields ≡ false
      → IsKeyed sx db.uploads
      → (db' : SyncDb sx) × (coalesced fields db ≡ some db') × IsQueued fields db'
  unfolding IsKeyed
  coalesced-IsQueued fields db new live keyed = elim (Option-cases (target fields db)) [
    | inl missing ↦
        let made = added_row fields db new live in
        (
          made.0,
          ap (λ (o : Option PendingUpload). coalesce sx fields (queued_id sx o) db) missing
              ∙ made.1,
          made.2,
        )
    | inr (r, here) ↦
        let found = target-found fields db r here in
        (
          record db { uploads = sx.uploads.update found.0 (overwrite fields) db.uploads },
          ap (λ (o : Option PendingUpload). coalesce sx fields (queued_id sx o) db) here
              ∙ ap (λ (o : Option ℕ). coalesce sx fields o db) (keyed found.0 r found.1),
          overwritten_row fields r found.0 db found.1 found.2,
        )
  ]

  -- Once the record is encrypted, `enqueuePush` fails only where Dexie does not write the row, and
  -- else leaves the new edit in a row of the outbox that is not terminal, provided that each row
  -- holds its own key.
  pub queue_upload-IsQueued :
      (refuses : SyncDb sx → Bool) (fields : PendingUpload) (db : SyncDb sx)
      → fields.id ≡ none
      → is_terminal fields ≡ false
      → IsKeyed sx db.uploads
      → (db' : SyncDb sx) × IsQueued fields db'
        × (((refuses db' ≡ true) × (queue_upload sx refuses fields db ≡ none))
            ⊎ ((refuses db' ≡ false) × (queue_upload sx refuses fields db ≡ some db')))
  unfolding queue_upload
  queue_upload-IsQueued refuses fields db new live keyed =
      let made = coalesced-IsQueued fields db new live keyed in
      (
        made.0,
        made.2,
        elim (Bool-cases (refuses made.0)) [
          | inl e ↦ inl (e, ap (written_unless sx refuses) made.1 ∙ rw e refl)
          | inr e ↦ inr (e, ap (written_unless sx refuses) made.1 ∙ rw e refl)
        ],
      )

  -- A written table at a key that the write is not about.
  apart :
      (b : Bool) (o o' : Option PendingUpload) (old : PendingUpload)
      → (b ≡ false)
      → o' ≡ some old
      → (if b then o else o') ≡ some old
  apart b o o' old h e = rw h e

  added_keeps :
      (fields old : PendingUpload) (db db' : SyncDb sx) (j : ℕ)
      → fields.id ≡ none
      → add_upload sx fields db ≡ some db'
      → sx.uploads.get j db.uploads ≡ some old
      → sx.uploads.get j db'.uploads ≡ some old
  unfolding add_upload
  added_keeps fields old db db' j new h here =
      let made = get-add_new sx.uploads fields db.uploads new in
      let k = sx.uploads.next_key db.uploads in
      let same : record db { uploads = made.0 } ≡ db' =
        eq_of_some (sym (ap (with_added sx db) made.1) ∙ h) in
      let free : sx.uploads.get k db.uploads ≡ none =
        sx.uploads.get-rows k db.uploads ∙ sx.uploads.next_key-fresh db.uploads in
      rw (← same) (
        made.2 j
        ∙ apart (j == k) (some (set_id k fields)) (sx.uploads.get j db.uploads) old
            (elim (Bool-cases (j == k)) [
              | inl e ↦
                  let at : j ≡ k = (==_iff j k).0 e in
                  let taken : sx.uploads.get k db.uploads ≡ some old = rw (← at) here in cc
              | inr ne ↦ ne
            ])
            here)

  overwritten_keeps :
      (fields r old : PendingUpload) (db : SyncDb sx) (j k : ℕ)
      → sx.uploads.get k db.uploads ≡ some r
      → supersedes fields r ≡ true
      → sx.uploads.get j db.uploads ≡ some old
      → supersedes fields old ≡ false
      → sx.uploads.get j (sx.uploads.update k (overwrite fields) db.uploads) ≡ some old
  overwritten_keeps fields r old db j k there hit here miss =
      get-update sx.uploads j k (overwrite fields) db.uploads
      ∙ apart (j == k) (Option.map (overwrite fields) (sx.uploads.get k db.uploads))
          (sx.uploads.get j db.uploads) old
          (elim (Bool-cases (j == k)) [
            | inl e ↦
                let at : j ≡ k = (==_iff j k).0 e in
                let taken : sx.uploads.get k db.uploads ≡ some old = rw (← at) here in
                let one : r ≡ old = eq_of_some (sym there ∙ taken) in
                let clash : supersedes fields old ≡ true = rw (← one) hit in cc
            | inr ne ↦ ne
          ])
          here

  coalesced-keeps :
      (fields old : PendingUpload) (db db' : SyncDb sx) (j : ℕ)
      → fields.id ≡ none
      → IsKeyed sx db.uploads
      → coalesced fields db ≡ some db'
      → sx.uploads.get j db.uploads ≡ some old
      → supersedes fields old ≡ false
      → sx.uploads.get j db'.uploads ≡ some old
  unfolding IsKeyed
  coalesced-keeps fields old db db' j new keyed h here miss =
      elim (Option-cases (target fields db)) [
        | inl missing ↦
            added_keeps fields old db db' j new
              (sym (
                  ap (λ (o : Option PendingUpload). coalesce sx fields (queued_id sx o) db) missing)
                ∙ h)
              here
        | inr (r, there) ↦
            let found = target-found fields db r there in
            let same : record db {
              uploads = sx.uploads.update found.0 (overwrite fields) db.uploads;
            }
                ≡ db' =
              eq_of_some (
                sym (
                  ap (λ (o : Option PendingUpload). coalesce sx fields (queued_id sx o) db) there
                  ∙ ap (λ (o : Option ℕ). coalesce sx fields o db) (keyed found.0 r found.1))
                ∙ h) in
            rw (← same) (overwritten_keeps fields r old db j found.0 found.1 found.2 here miss)
      ]

  written-coalesced :
      (refuses : SyncDb sx → Bool) (o : Option (SyncDb sx)) (db' : SyncDb sx)
      → written_unless sx refuses o ≡ some db'
      → o ≡ some db'
  written-coalesced refuses none db' h = cc
  written-coalesced refuses (some db) db' h = elim (Bool-cases (refuses db)) [
    | inl e ↦ let clash : none ≡ some db' = rw e at h in cc
    | inr e ↦ rw e at h
  ]

  -- The row is terminal, or of another record, or of another type.
  abbrev pub IsOther : PendingUpload → PendingUpload → Type 0
  IsOther fields old =
      (old.terminal ≡ some true)
      ⊎ ((old.record_id ≢ fields.record_id) ⊎ (old.record_type ≢ fields.record_type))

  other-supersedes :
      (fields old : PendingUpload) → IsOther fields old → supersedes fields old ≡ false
  other-supersedes fields old (inl h) = ground (arith, h)
  other-supersedes fields old (inr (inl h)) =
      elim (Bool-cases (text_eq old.record_id fields.record_id)) [
        | inl e ↦ absurd (h ((text_eq_iff old.record_id fields.record_id).0 e))
        | inr e ↦ rw e refl
      ]
  other-supersedes fields old (inr (inr h)) =
      elim (Bool-cases (same_type old.record_type fields.record_type)) [
        | inl e ↦ absurd (h (same_type_sound old.record_type fields.record_type e))
        | inr e ↦ ground (arith, e)
      ]

  -- Queuing an edit leaves every row that is terminal, or of another record or type, as it was,
  -- provided that each row holds its own key.
  pub queue_upload-keeps :
      (refuses : SyncDb sx → Bool) (fields old : PendingUpload) (db db' : SyncDb sx) (j : ℕ)
      → fields.id ≡ none
      → IsKeyed sx db.uploads
      → queue_upload sx refuses fields db ≡ some db'
      → sx.uploads.get j db.uploads ≡ some old
      → IsOther fields old
      → sx.uploads.get j db'.uploads ≡ some old
  unfolding queue_upload
  queue_upload-keeps refuses fields old db db' j new keyed h here other =
      coalesced-keeps fields old db db' j new keyed
        (written-coalesced refuses (coalesced fields db) db' h) here
        (other-supersedes fields old other)
