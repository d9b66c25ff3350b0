-- ===== src/Examples/Outboxes.antt =====
-- The theorems on the outbox, at concrete inputs.
use expensesapp.Prelude.{◌≤◌, ◌≡◌, none, some, List, refl, [], ◌∷◌, any, true, arith, ◌==◌}
use expensesapp.Prelude.Text.{text, text_eq}
use expensesapp.Storage.Keyed.{modify, erase, lookup}
use expensesapp.Sync.Outbox.{Server, failed, Engine, retry_delay_ms, retry_base_ms, retry_max_ms}
use expensesapp.Sync.Outbox.Batch.{settle_batch, flush_batch_once, is_contiguous}
use expensesapp.Sync.Outbox.Kept.{edit_at, flush_batch_once-failed}
use expensesapp.Sync.Outbox.Enqueue.{overwrite}
use expensesapp.Sync.Outbox.Contiguous.{contiguous-skips_none}
use expensesapp.Sync.Outbox.Backoff.{retry_delay-bounds}
use expensesapp.Sync.Records.{PendingUpload, PushResponse, upload_has_id}
use expensesapp.Examples.Tables.{sync_dexie}
use expensesapp.Examples.Books.{synced, upload_of, plain_runtime, engine_of, today}

abbrev accept_a : PushResponse
accept_a = record {
  accepted = record { record_id = text "a"; version = 1; family_seq = 1 } ∷ [];
  conflicts = [];
}

abbrev both : List PendingUpload
both = upload_of 1 (text "a") ∷ upload_of 2 (text "b") ∷ []

-- The edit of row 1 that was queued while the batch was on its way goes with the accepted one.
abbrev edited_meanwhile : sync_dexie.uploads.Table
edited_meanwhile =
    sync_dexie.uploads.update 1 (overwrite (record (upload_of 1 (text "a")) { blob = text "BBBB" }))
      synced.uploads

lost_edit :
    sync_dexie.uploads.get 1 (settle_batch sync_dexie today accept_a both edited_meanwhile) ≡ none
unfolding settle_batch lookup text_eq modify erase
lost_edit = refl

-- A server that answers every push with 413.
abbrev over_limit : Server
over_limit = record {
  World = Unit;
  push_records = λ w records. (failed (record { status = some 413; message = [] }), w);
}

abbrev waiting : Engine sync_dexie over_limit
waiting = engine_of tt synced

flush_batch_once-failed_example :
    edit_at sync_dexie 1
      (flush_batch_once sync_dexie plain_runtime over_limit today waiting).3.db.uploads
    ≡ edit_at sync_dexie 1 synced.uploads
flush_batch_once-failed_example =
    flush_batch_once-failed sync_dexie plain_runtime over_limit today 1
      (record { status = some 413; message = [] }) waiting refl

contiguous-skips_none_example : any (λ s. s == 5) (6 ∷ 4 ∷ 5 ∷ []) ≡ true
unfolding is_contiguous
contiguous-skips_none_example =
    contiguous-skips_none 3 5 (6 ∷ 4 ∷ 5 ∷ []) refl (omega arith) (omega arith)

retry_delay-bounds_example :
    (retry_base_ms ≤ retry_delay_ms 3)
    × (retry_delay_ms 3 ≤ retry_max_ms)
    × (retry_delay_ms 3 ≤ retry_delay_ms 4)
    × (retry_delay_ms 1 ≡ retry_base_ms)
retry_delay-bounds_example = retry_delay-bounds 3
