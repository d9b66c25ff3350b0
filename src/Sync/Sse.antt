-- ===== src/Sync/Sse.antt =====
-- src/services/sync/sse.ts: the live events of the server, as what each callback of the browser does
-- to the variables of `connectSSE`. An `EventSource` and a timer are known by their number.
pub mod Reached
pub mod Duplicates
pub mod Stopped
use expensesapp.Prelude.{
  ℕ, suc, Bool, true, false, not, ◌==◌, ltb, leb, Option, none, some, List, [], ◌∷◌, ◌++◌, filter,
  length, if◌then◌else◌,
}
use expensesapp.Prelude.Fields.{Fields, field_delete, field_get, field_set}
use expensesapp.Prelude.Text.{Text, text}

pub data SseEventType : Type 0 where
  device_joined device_activated device_revoked you_removed sync_barrier notification_dismiss :
      SseEventType

-- A parsed event: a change of a record, or another type with its data.
pub data SseEvent : Type 0 where
  record_changed : (seq : ℕ) → (record_id : Text) → SseEvent
  other : SseEventType → Text → SseEvent

abbrev pub max_last_seen_entries : ℕ
max_last_seen_entries = 500

-- `BACKOFF_MS[Math.min(attempt, BACKOFF_MS.length - 1)]`
unfoldable pub backoff_ms : ℕ → ℕ
backoff_ms attempt =
    if attempt == 0
    then 500
    else if attempt == 1
    then 1000
    else if attempt == 2
    then 2000
    else if attempt == 3
    then 5000
    else 10000

-- The variables; `open` are the sources that are not closed, `reconnects` the timers that are set,
-- with their delays, `events` what `onEvent` has been called with, the last one first, and `next` the
-- number of the next source or timer.
pub record Connection : Type 0 where
  pub es : Option ℕ
  pub open_sources : List ℕ
  pub reconnect_attempt : ℕ
  pub reconnect_timer : Option ℕ
  pub reconnects : List (ℕ × ℕ)
  pub heartbeat : Bool
  pub stopped : Bool
  pub last_seen_seq : Fields ℕ
  pub events : List SseEvent
  pub next : ℕ

-- The first key is the oldest, as a `Map` keeps the order of insertion.
abbrev pub without_oldest : Fields ℕ → Fields ℕ
without_oldest [] = []
without_oldest ((k, seq) ∷ seen) = field_delete k ((k, seq) ∷ seen)

unfoldable pub remember_seen_seq : Text → ℕ → Fields ℕ → Fields ℕ
remember_seen_seq key seq seen =
    let grown = field_set key seq seen in
    if ltb max_last_seen_entries (length grown) then without_oldest grown else grown

abbrev pub reset_heartbeat : Connection → Connection
reset_heartbeat c = record c { heartbeat = true }

unfoldable pub connect : Connection → Connection
connect c =
    if c.stopped
    then c
    else record c { es = some c.next; open_sources = c.next ∷ c.open_sources; next = suc c.next }

unfoldable pub schedule_reconnect : Connection → Connection
schedule_reconnect c = if c.stopped then c else record c {
  reconnect_attempt = suc c.reconnect_attempt;
  reconnect_timer = some c.next;
  reconnects = (c.next, backoff_ms c.reconnect_attempt) ∷ c.reconnects;
  next = suc c.next;
}

-- `es?.close(); es = null`
abbrev pub without : Option ℕ → List ℕ → List ℕ
without none sources = sources
without (some i) sources = filter (λ j. not (j == i)) sources

abbrev pub close : Connection → Connection
close c = record c { es = none; open_sources = without c.es c.open_sources }

-- `es.onopen`; the caller's `onOpen` pulls.
unfoldable pub on_open : Connection → Connection
on_open c = reset_heartbeat (record c { reconnect_attempt = 0 })

-- `lastSeenSeq.get(key) ?? -1` against the event's number.
abbrev pub is_seen : Option ℕ → ℕ → Bool
is_seen none seq = false
is_seen (some last) seq = leb seq last

abbrev pub seen_key : Text → Text
seen_key record_id = text "record.changed:" ++ record_id

abbrev pub deliver : SseEvent → Connection → Connection
deliver e c = record c { events = e ∷ c.events }

abbrev pub deliver_change : ℕ → Text → Connection → Connection
deliver_change seq record_id c =
    if is_seen (field_get (seen_key record_id) c.last_seen_seq) seq
    then c
    else deliver (record_changed seq record_id)
        (record c { last_seen_seq = remember_seen_seq (seen_key record_id) seq c.last_seen_seq })

-- The listener of an event, whose data is `none` where it is no JSON, and for an event without a
-- name, which is passed over too.
abbrev pub handle : Option SseEvent → Connection → Connection
handle none c = c
handle (some (record_changed seq record_id)) c = deliver_change seq record_id c
handle (some (other type payload)) c = deliver (other type payload) c

unfoldable pub on_event : Option SseEvent → Connection → Connection
on_event e c = handle e (reset_heartbeat c)

unfoldable pub on_error : Connection → Connection
on_error c = schedule_reconnect (close c)

-- The heartbeat's timer goes off.
unfoldable pub heartbeat_lost : Connection → Connection
heartbeat_lost c = schedule_reconnect (close (record c { heartbeat = false }))

abbrev pub without_timer : ℕ → List (ℕ × ℕ) → List (ℕ × ℕ)
without_timer k [] = []
without_timer k ((j, delay) ∷ timers) =
    if k == j then without_timer k timers else (j, delay) ∷ without_timer k timers

abbrev pub clear_timer : Option ℕ → List (ℕ × ℕ) → List (ℕ × ℕ)
clear_timer none timers = timers
clear_timer (some k) timers = without_timer k timers

-- A reconnect's timer goes off: `if (!stopped) connect()`.
unfoldable pub reconnect : ℕ → Connection → Connection
reconnect k c =
    let fired = record c { reconnects = without_timer k c.reconnects } in
    if c.stopped then fired else connect fired

unfoldable pub disconnect : Connection → Connection
disconnect c = close (record c {
  stopped = true;
  reconnects = clear_timer c.reconnect_timer c.reconnects;
  heartbeat = false;
})

-- `connectSSE`
unfoldable pub connect_sse : Connection
connect_sse = connect (record {
  es = none;
  open_sources = [];
  reconnect_attempt = 0;
  reconnect_timer = none;
  reconnects = [];
  heartbeat = false;
  stopped = false;
  last_seen_seq = [];
  events = [];
  next = 0;
})
