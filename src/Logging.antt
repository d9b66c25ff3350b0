-- ===== src/Logging.antt =====
-- src/services/log.service.ts: the buffer of log entries and the one write of it that may run. What
-- `JSON.stringify` refuses is a parameter, and so are the clock and the setting of the log level.
pub mod Flushed
pub mod Order
use expensesapp.Prelude.{
  ℕ, suc, ◌-◌, Bool, true, false, not, ◌&&◌, ◌||◌, leb, Option, none, some, List, [], ◌∷◌, ◌++◌,
  length, if◌then◌else◌,
}
use expensesapp.Prelude.Fields.{Fields}
use expensesapp.Prelude.Text.{Text}

pub data LogLevel : Type 0 where
  debug info warn error : LogLevel

abbrev pub is_error : LogLevel → Bool
is_error error = true
is_error _ = false

-- The context of a call: an `Error` with its name, message and stack, or an object,
-- whose values are not looked at.
pub data Context : Type 0 where
  thrown : (name : Text) → (message : Text) → (stack : Option Text) → Context
  object : Fields Text → Context

-- The context of an entry.
pub data Serialized : Type 0 where
  error_fields : (name : Text) → (message : Text) → (stack : Option Text) → Serialized
  fields : Fields Text → Serialized
  not_serializable : Serialized

-- An entry, without the key that the database gives it.
pub record Log : Type 0 where
  pub timestamp : Text
  pub level : LogLevel
  pub message : Text
  pub context : Option Serialized

-- The variables of the module; `queued` counts the microtasks of `scheduleFlush` that have not run,
-- and `handed` are the entries that `bulkAdd` has been called with.
pub record Logger : Type 0 where
  pub buffer : List Log
  pub is_flushing : Bool
  pub flush_scheduled : Bool
  pub queued : ℕ
  pub handed : List Log

abbrev pub max_buffer : ℕ
max_buffer = 500

abbrev pub logger : Logger
logger = record {
  buffer = [];
  is_flushing = false;
  flush_scheduled = false;
  queued = 0;
  handed = [];
}

abbrev pub is_empty : List Log → Bool
is_empty [] = true
is_empty (e ∷ es) = false

-- `queueMicrotask` adds a microtask.
abbrev pub schedule_if : (scheduled : Bool) → Logger → Logger
schedule_if true s = s
schedule_if false s = record s { flush_scheduled = true; queued = suc s.queued }

unfoldable pub schedule_flush : Logger → Logger
schedule_flush s = schedule_if s.flush_scheduled s

-- `_flush` up to the call of `bulkAdd`.
unfoldable pub flush : Logger → Logger
flush s =
    if s.is_flushing || is_empty s.buffer
    then s
    else record s { buffer = []; is_flushing = true; handed = s.handed ++ s.buffer }

-- The rest of `_flush`, whether `bulkAdd` has failed or not.
unfoldable pub flushed : Logger → Logger
flushed s =
    let idle = record s { is_flushing = false } in
    if not (is_empty s.buffer) then schedule_flush idle else idle

-- The microtask of `scheduleFlush`.
unfoldable pub run_scheduled : Logger → Logger
run_scheduled s = flush (record s { flush_scheduled = false; queued = s.queued - 1 })

abbrev pub shift : List Log → List Log
shift [] = []
shift (e ∷ es) = es

-- `errors_only` tells that the setting is `"errors"`.
unfoldable pub is_skipped : (errors_only : Bool) → LogLevel → Bool
is_skipped errors_only level = errors_only && not (is_error level)

unfoldable pub push_entry : Log → Logger → Logger
push_entry entry s =
    let kept = if leb max_buffer (length s.buffer) then shift s.buffer else s.buffer in
    schedule_flush (record s { buffer = kept ++ entry ∷ [] })

module _ (stringifies : Fields Text → Bool) (now : Text) where
  abbrev pub serialize_context : Option Context → Option Serialized
  serialize_context none = none
  serialize_context (some (thrown name message stack)) = some (error_fields name message stack)
  serialize_context (some (object fs)) =
      if stringifies fs then some (fields fs) else some not_serializable

  abbrev pub entry_of : LogLevel → Text → Option Context → Log
  entry_of level message context = record {
    timestamp = now;
    level = level;
    message = message;
    context = serialize_context context;
  }

  unfoldable pub log : (errors_only : Bool) → LogLevel → Text → Option Context → Logger → Logger
  log errors_only level message context s =
      if is_skipped errors_only level then s else push_entry (entry_of level message context) s
