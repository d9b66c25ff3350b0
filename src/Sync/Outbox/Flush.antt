-- ===== src/Sync/Outbox/Flush.antt =====
-- `flushOutbox` and `retryTerminalUploads` of src/services/sync/engine.ts. The loop over batches
-- and the flush that a request during a flush asks for run on fuel; `none` is fuel run out.
use expensesapp.Prelude.{
  ℕ, zero, suc, true, false, Option, none, some, List, [], ◌∷◌, if◌then◌else◌, ltb,
}
use expensesapp.Prelude.Text.{Text}
use expensesapp.Sync.Outbox.{
  Runtime, Server, Engine, push_batch_size, clear_scheduled_retry, schedule_retry, is_terminal,
}
use expensesapp.Sync.Outbox.Batch.{
  Outcome, empty, success, terminal, error, update_item, flush_batch_once,
}
use expensesapp.Sync.Outbox.Conflict.{and_then}
use expensesapp.Sync.Records.{PendingUpload, upload_has_id}
use expensesapp.Sync.Tables.{SyncDexie}

abbrev pub reset_terminal : PendingUpload → PendingUpload
reset_terminal p = record p { terminal = some false; attempts = 0; last_failed_at = none }

module _ (sx : SyncDexie) {V : Type 0} (rt : Runtime V) (sv : Server) (now : Text) where
  -- Whether the loop stops, and the attempts of the error it stops at.
  abbrev pub stop : Outcome → ℕ → ℕ → Option (Option ℕ)
  stop empty batch_length attempts = some none
  stop terminal batch_length attempts = some none
  stop error batch_length attempts = some (some attempts)
  stop success batch_length attempts = if ltb batch_length push_batch_size then some none else none

  abbrev pub stop_or :
      Option (Option ℕ)
      → Engine sx sv
      → Option (Option ℕ × Engine sx sv)
      → Option (Option ℕ × Engine sx sv)
  stop_or (some reason) e rest = some (reason, e)
  stop_or none e rest = rest

  unfoldable pub flush_loop : ℕ → Engine sx sv → Option (Option ℕ × Engine sx sv)
  flush_loop zero e = none
  flush_loop (suc fuel) e =
      let b = flush_batch_once sx rt sv now e in
      let rest = flush_loop fuel b.3 in stop_or (stop b.0 b.1 b.2) b.3 rest

  -- The timer after the loop.
  abbrev pub reschedule : Option ℕ → Engine sx sv → Engine sx sv
  reschedule none e = clear_scheduled_retry e
  reschedule (some attempts) e = schedule_retry attempts e

  abbrev pub finish : Option ℕ → Engine sx sv → Engine sx sv
  finish reason e =
      reschedule reason
        (record e { flush_in_progress = false; store = record e.store { is_syncing = false } })

  abbrev pub begin : Engine sx sv → Engine sx sv
  begin e = record e { flush_in_progress = true; store = record e.store { is_syncing = true } }

  unfoldable pub flush_once : ℕ → Engine sx sv → Option (Engine sx sv)
  flush_once fuel e = and_then (flush_loop fuel (begin e)) λ r. some (finish r.0 r.1)

  -- The flush that was asked for meanwhile; no further request arrives while it runs.
  abbrev pub rerun : ℕ → Engine sx sv → Option (Engine sx sv)
  rerun fuel e =
      if e.pending_flush_requested
      then flush_once fuel (record e { pending_flush_requested = false })
      else some e

  unfoldable pub flush_outbox : ℕ → Engine sx sv → Option (Engine sx sv)
  flush_outbox fuel e =
      if e.flush_in_progress
      then some (record e { pending_flush_requested = true })
      else and_then (flush_once fuel e) (rerun fuel)

  unfoldable pub reset_rows : List PendingUpload → sx.uploads.Table → sx.uploads.Table
  reset_rows [] t = t
  reset_rows (row ∷ terminal_rows) t =
      reset_rows terminal_rows (update_item sx row.id reset_terminal t)

  unfoldable pub retry_terminal_uploads : ℕ → Engine sx sv → Option (Engine sx sv)
  retry_terminal_uploads fuel e =
      let terminal_rows = sx.uploads.query is_terminal e.db.uploads in
      flush_outbox fuel (record e {
        db = record e.db { uploads = reset_rows terminal_rows e.db.uploads };
        store = record e.store { last_error = none };
      })
