-- ===== src/Sync/Sse/Stopped.antt =====
-- What a connection of src/services/sync/sse.ts does once `disconnect` has been called.
use expensesapp.Prelude.{
  ℕ, ◌≤◌, ◌≡◌, refl, Bool, true, false, not, ◌==◌, Option, none, some, List, [], ◌∷◌, length,
  filter, arith, if◌then◌else◌,
}
use expensesapp.Prelude.Fields.{field_get}
use expensesapp.Sync.Sse.{
  Connection, SseEvent, record_changed, other, close, disconnect, handle, heartbeat_lost, on_error,
  on_event, on_open, reconnect, schedule_reconnect, without, is_seen, seen_key, deliver,
  without_timer, clear_timer, remember_seen_seq, reset_heartbeat,
}
use expensesapp.Sync.Sse.Reached.{Step, opened, event, errored, lost, timer, disconnected}

length-filter : (p : ℕ → Bool) (xs : List ℕ) → length (filter p xs) ≤ length xs
length-filter p [] = omega arith
length-filter p (x ∷ xs) = ground (arith, length-filter p xs)

length-without : (o : Option ℕ) (xs : List ℕ) → length (without o xs) ≤ length xs
length-without none xs = omega arith
length-without (some i) xs = length-filter (λ j. not (j == i)) xs

-- The connection stays stopped, sets no timer, and opens no source.
unfoldable pub StaysStopped : Connection → Connection → Type 0
StaysStopped c d =
    (d.stopped ≡ true)
    × (length d.reconnects ≤ length c.reconnects)
    × (length d.open_sources ≤ length c.open_sources)

length-without_timer : (k : ℕ) (ts : List (ℕ × ℕ)) → length (without_timer k ts) ≤ length ts
length-without_timer k [] = omega arith
length-without_timer k ((j, delay) ∷ ts) = ground (arith, length-without_timer k ts)

length-clear_timer : (o : Option ℕ) (ts : List (ℕ × ℕ)) → length (clear_timer o ts) ≤ length ts
length-clear_timer none ts = omega arith
length-clear_timer (some k) ts = length-without_timer k ts

same-StaysStopped : (c : Connection) → c.stopped ≡ true → StaysStopped c c
unfolding StaysStopped
same-StaysStopped c h = (h, omega arith, omega arith)

handle-StaysStopped :
    (e : Option SseEvent) (c : Connection) → c.stopped ≡ true → StaysStopped c (handle e c)
unfolding StaysStopped
handle-StaysStopped none c h = (h, omega arith, omega arith)
handle-StaysStopped (some (other type payload)) c h = (h, omega arith, omega arith)
handle-StaysStopped (some (record_changed seq record_id)) c h =
    split (is_seen (field_get (seen_key record_id) c.last_seen_seq) seq)
  where
    seen : Connection
    seen =
        deliver (record_changed seq record_id)
          (record c { last_seen_seq = remember_seen_seq (seen_key record_id) seq c.last_seen_seq })

    split : (b : Bool) → StaysStopped c (if b then c else seen)
    split true = (h, omega arith, omega arith)
    split false = (h, omega arith, omega arith)

closed-StaysStopped :
    (c : Connection) → c.stopped ≡ true → StaysStopped c (schedule_reconnect (close c))
unfolding StaysStopped schedule_reconnect
closed-StaysStopped c h = rw h (refl, omega arith, length-without c.es c.open_sources)

reconnect-StaysStopped :
    (k : ℕ) (c : Connection) → c.stopped ≡ true → StaysStopped c (reconnect k c)
unfolding StaysStopped reconnect
reconnect-StaysStopped k c h = rw h (refl, length-without_timer k c.reconnects, omega arith)

disconnect-StaysStopped : (c : Connection) → StaysStopped c (disconnect c)
unfolding StaysStopped disconnect
disconnect-StaysStopped c =
    (refl, length-clear_timer c.reconnect_timer c.reconnects, length-without c.es c.open_sources)

step-StaysStopped : {c d : Connection} → Step c d → c.stopped ≡ true → StaysStopped c d
unfolding on_open on_event on_error heartbeat_lost StaysStopped
step-StaysStopped (opened c) h = (h, omega arith, omega arith)
step-StaysStopped (event e c) h = handle-StaysStopped e (reset_heartbeat c) h
step-StaysStopped (errored c) h = closed-StaysStopped c h
step-StaysStopped (lost c) h = closed-StaysStopped (record c { heartbeat = false }) h
step-StaysStopped (timer k c) h = reconnect-StaysStopped k c h
step-StaysStopped (disconnected c) h = disconnect-StaysStopped c

-- Callbacks one after the other.
pub data Later : Connection → Connection → Type 0 where
  unchanged : (c : Connection) → Later c c
  then_called : {c d e : Connection} → Later c d → Step d e → Later c e

Later-StaysStopped : {c d : Connection} → Later c d → c.stopped ≡ true → StaysStopped c d
unfolding StaysStopped
Later-StaysStopped (unchanged c) h = same-StaysStopped c h
Later-StaysStopped (then_called later step) h =
    let before = Later-StaysStopped later h in
    let after = step-StaysStopped step before.0 in
    (after.0, omega (arith, before.1, after.1), omega (arith, before.2, after.2))

-- After `disconnect`, whatever callbacks still come and in whatever order, the connection stays
-- stopped, and neither more reconnects are set nor more sources open than there were before it.
pub disconnect-opens_none :
    (c d : Connection)
    → Later (disconnect c) d
    → (d.stopped ≡ true)
      × (length d.reconnects ≤ length c.reconnects)
      × (length d.open_sources ≤ length c.open_sources)
unfolding StaysStopped
disconnect-opens_none c d later =
    let stopped = disconnect-StaysStopped c in
    let after = Later-StaysStopped later stopped.0 in
    (after.0, omega (arith, stopped.1, after.1), omega (arith, stopped.2, after.2))
