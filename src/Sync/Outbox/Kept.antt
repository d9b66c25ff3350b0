-- ===== src/Sync/Outbox/Kept.antt =====
-- What becomes of the edits that a batch holds.
use mathlib.Core.Option
use expensesapp.Prelude.{
  ◌≡◌, ◌∙◌, ap, ℕ, suc, Bool, true, false, ◌&&◌, ◌==◌, Option, none, some, List, [], ◌∷◌, any,
  if◌then◌else◌, arith, refl, Bool-cases, inl, inr, ==_iff, sym, map,
}
use expensesapp.Prelude.Text.{Text}
use expensesapp.Storage.Laws.{get-update, get-delete_ne, get-delete_self}
use expensesapp.Sync.Outbox.{Runtime, Server, Engine, failed}
use expensesapp.Sync.Outbox.Batch.{
  settle_batch, settle_item, flush_batch_once, next_batch, after_failure, after_push, push_batch,
  failure_of, Failure, over_quota, rejected, transient, push_record, is_accepted, delete_item,
  update_item, mark_failed, mark_batch_terminal, mark_batch_failed, mark_terminal,
}
use expensesapp.Sync.Records.{PendingUpload, PushRecord, PushResponse, PushFailure, upload_has_id}
use expensesapp.Sync.Tables.{SyncDexie}

-- Whether the batch's row of key `k` was accepted.
abbrev pub is_key : ℕ → Option ℕ → Bool
is_key k none = false
is_key k (some j) = j == k

abbrev pub accepts : ℕ → PushResponse → List PendingUpload → Bool
accepts k response batch =
    any (λ item. is_key k item.id && is_accepted response.accepted item.record_id) batch

edit_of_updated :
    (b : Bool) (f : PendingUpload → PendingUpload) (o o' : Option PendingUpload)
    → ((p : PendingUpload) → push_record (f p) ≡ push_record p)
    → (b ≡ true → o ≡ o')
    → Option.map push_record (if b then Option.map f o else o') ≡ Option.map push_record o'
edit_of_updated false f o o' same e = refl
edit_of_updated true f none o' same e = ap (Option.map push_record) (e refl)
edit_of_updated true f (some p) o' same e = ap some (same p) ∙ ap (Option.map push_record) (e refl)

module _ (sx : SyncDexie) where
  -- The edit that is queued under a key, as the next push sends it.
  abbrev pub edit_at : ℕ → sx.uploads.Table → Option PushRecord
  edit_at k t = Option.map push_record (sx.uploads.get k t)

  edit_at-update_item :
      (k : ℕ) (i : Option ℕ) (f : PendingUpload → PendingUpload) (t : sx.uploads.Table)
      → ((p : PendingUpload) → push_record (f p) ≡ push_record p)
      → edit_at k (update_item sx i f t) ≡ edit_at k t
  edit_at-update_item k none f t same = refl
  edit_at-update_item k (some j) f t same =
      ap (Option.map push_record) (get-update sx.uploads k j f t)
      ∙ edit_of_updated (k == j) f (sx.uploads.get j t) (sx.uploads.get k t) same
          (λ e. ap (λ i. sx.uploads.get i t) (sym ((==_iff k j).0 e)))

  edit_at-delete_item :
      (k : ℕ) (i : Option ℕ) (t : sx.uploads.Table)
      → edit_at k (delete_item sx i t) ≡ (if is_key k i then none else edit_at k t)
  edit_at-delete_item k none t = refl
  edit_at-delete_item k (some j) t = elim (Bool-cases (j == k)) [
    | inl same ↦
        rw (same, (==_iff j k).0 same)
          (ap (Option.map push_record) (get-delete_self sx.uploads k t))
    | inr other ↦
        rw other
          (ap (Option.map push_record) (get-delete_ne sx.uploads k j t (ground (arith, other))))
  ]

  settle_item-edit_at :
      (now : Text) (response : PushResponse) (k : ℕ) (item : PendingUpload) (t : sx.uploads.Table)
      → edit_at k (settle_item sx now response item t) ≡ (
          if is_key k item.id && is_accepted response.accepted item.record_id
          then none
          else edit_at k t)
  settle_item-edit_at now response k item t = grind (
    arith,
    edit_at-delete_item k item.id t,
    edit_at-update_item k item.id (mark_failed now (suc item.attempts)) t (λ p. refl),
  )

  pub settle_batch-edits :
      (now : Text) (response : PushResponse) (k : ℕ) (batch : List PendingUpload)
      (t : sx.uploads.Table)
      → edit_at k (settle_batch sx now response batch t)
        ≡ (if accepts k response batch then none else edit_at k t)
  unfolding settle_batch
  settle_batch-edits now response k [] t = refl
  settle_batch-edits now response k (item ∷ batch) t = ground (
    arith,
    settle_batch-edits now response k batch (settle_item sx now response item t),
    settle_item-edit_at now response k item t,
  )

  mark_batch_terminal-edit_at :
      (now : Text) (k : ℕ) (batch : List PendingUpload) (t : sx.uploads.Table)
      → edit_at k (mark_batch_terminal sx now batch t) ≡ edit_at k t
  unfolding mark_batch_terminal
  mark_batch_terminal-edit_at now k [] t = refl
  mark_batch_terminal-edit_at now k (item ∷ batch) t =
      mark_batch_terminal-edit_at now k batch (update_item sx item.id (mark_terminal now) t)
      ∙ edit_at-update_item k item.id (mark_terminal now) t (λ p. refl)

  mark_batch_failed-edit_at :
      (now : Text) (k : ℕ) (batch : List PendingUpload) (t : sx.uploads.Table)
      → edit_at k (mark_batch_failed sx now batch t) ≡ edit_at k t
  unfolding mark_batch_failed
  mark_batch_failed-edit_at now k [] t = refl
  mark_batch_failed-edit_at now k (item ∷ batch) t =
      mark_batch_failed-edit_at now k batch
        (update_item sx item.id (mark_failed now (suc item.attempts)) t)
      ∙ edit_at-update_item k item.id (mark_failed now (suc item.attempts)) t (λ p. refl)

  module _ {V : Type 0} (rt : Runtime V) (sv : Server) (now : Text) (k : ℕ) where
    after_failure-edit_at :
        (batch : List PendingUpload) (f : PushFailure) (kind : Failure) (e : Engine sx sv)
        → edit_at k (after_failure sx rt sv now batch f kind e).3.db.uploads
          ≡ edit_at k e.db.uploads
    after_failure-edit_at batch f over_quota e =
        mark_batch_terminal-edit_at now k batch e.db.uploads
    after_failure-edit_at batch f rejected e = mark_batch_terminal-edit_at now k batch e.db.uploads
    after_failure-edit_at batch f transient e = mark_batch_failed-edit_at now k batch e.db.uploads

    push_batch-edit_at :
        (batch : List PendingUpload) (f : PushFailure) (e : Engine sx sv)
        → (sv.push_records e.world (map push_record batch)).0 ≡ failed f
        → edit_at k (push_batch sx rt sv now batch e).3.db.uploads ≡ edit_at k e.db.uploads
    push_batch-edit_at [] f e h = refl
    push_batch-edit_at (p ∷ ps) f e h =
        ap
          (λ a.
            edit_at k
              (after_push sx rt sv now (p ∷ ps) a (record e {
                world = (sv.push_records e.world (map push_record (p ∷ ps))).1;
              })).3.db.uploads)
          h
        ∙ after_failure-edit_at (p ∷ ps) f (failure_of f.status)
            (record e { world = (sv.push_records e.world (map push_record (p ∷ ps))).1 })

    -- A push that fails, for the quota, as a bad request or for the network, leaves every queued
    -- edit in the outbox as it was.
    pub flush_batch_once-failed :
        (f : PushFailure) (e : Engine sx sv)
        → (sv.push_records e.world (map push_record (next_batch sx e.db))).0 ≡ failed f
        → edit_at k (flush_batch_once sx rt sv now e).3.db.uploads ≡ edit_at k e.db.uploads
    unfolding flush_batch_once
    flush_batch_once-failed f e h = push_batch-edit_at (next_batch sx e.db) f e h
