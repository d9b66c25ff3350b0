-- ===== src/Sync/Sse/Reached.antt =====
-- The states that `connectSSE` of src/services/sync/sse.ts comes to, whatever the browser calls and
-- in whatever order.
use expensesapp.Prelude.{
  ℕ, suc, ◌≤◌, ◌≡◌, refl, Bool, true, false, ◌&&◌, is_some, ltb, Option, none, some, [], ◌∷◌,
  length, arith, Bool-cases, inl, inr, if◌then◌else◌,
}
use expensesapp.Prelude.Fields.{Fields, field_delete, field_get, field_set}
use expensesapp.Prelude.Text.{Text, text_eq_refl}
use expensesapp.Sync.Sse.{
  without_timer, reset_heartbeat, deliver, Connection, SseEvent, record_changed, other, connect,
  connect_sse, close, disconnect, handle, heartbeat_lost, max_last_seen_entries, on_error, on_event,
  on_open, reconnect, remember_seen_seq, schedule_reconnect, without_oldest, is_seen, seen_key,
}

-- One callback.
pub data Step : Connection → Connection → Type 0 where
  opened : (c : Connection) → Step c (on_open c)
  event : (e : Option SseEvent) → (c : Connection) → Step c (on_event e c)
  errored : (c : Connection) → Step c (on_error c)
  lost : (c : Connection) → Step c (heartbeat_lost c)
  timer : (k : ℕ) → (c : Connection) → Step c (reconnect k c)
  disconnected : (c : Connection) → Step c (disconnect c)

pub data Reached : Connection → Type 0 where
  start : Reached connect_sse
  then_step : {c d : Connection} → Reached c → Step c d → Reached d

length-field_set : (k : Text) (v : ℕ) (o : Fields ℕ) → length (field_set k v o) ≤ suc (length o)
unfolding field_set
length-field_set k v [] = omega arith
length-field_set k v ((j, w) ∷ o) = ground (arith, length-field_set k v o)

length-field_delete : (k : Text) (o : Fields ℕ) → length (field_delete k o) ≤ length o
unfolding field_delete
length-field_delete k [] = omega arith
length-field_delete k ((j, w) ∷ o) = ground (arith, length-field_delete k o)

length-without_oldest :
    (o : Fields ℕ)
    → length o ≤ suc max_last_seen_entries
    → length (without_oldest o) ≤ max_last_seen_entries
unfolding field_delete
length-without_oldest [] h = omega arith
length-without_oldest ((k, v) ∷ o) h = ground (arith, h, length-field_delete k o, text_eq_refl k)

pub length-remember_seen_seq :
    (k : Text) (v : ℕ) (o : Fields ℕ)
    → length o ≤ max_last_seen_entries
    → length (remember_seen_seq k v o) ≤ max_last_seen_entries
unfolding remember_seen_seq
length-remember_seen_seq k v o h =
    elim (Bool-cases (ltb max_last_seen_entries (length (field_set k v o)))) [
      | inl e ↦
          rw e (length-without_oldest (field_set k v o) (omega (arith, h, length-field_set k v o)))
      | inr e ↦ rw e (ground (arith, e))
    ]

-- No more than five hundred sequence numbers are kept, and a connection that is stopped has none in
-- `es`.
unfoldable pub IsSound : Connection → Type 0
IsSound c = (length c.last_seen_seq ≤ max_last_seen_entries) × ((c.stopped && is_some c.es) ≡ false)

connect-IsSound : (c : Connection) → IsSound c → IsSound (connect c)
unfolding IsSound connect
connect-IsSound c h = elim (Bool-cases c.stopped) [
  | inl e ↦ rw e (h.0, rw e at h.1)
  | inr e ↦ rw e (h.0, refl)
]

and_false : (b : Bool) → (b && false) ≡ false
and_false true = refl
and_false false = refl

close-IsSound :
    (c : Connection) → length c.last_seen_seq ≤ max_last_seen_entries → IsSound (close c)
unfolding IsSound
close-IsSound c h = (h, and_false c.stopped)

schedule_reconnect-IsSound : (c : Connection) → IsSound c → IsSound (schedule_reconnect c)
unfolding IsSound schedule_reconnect
schedule_reconnect-IsSound c h = elim (Bool-cases c.stopped) [
  | inl e ↦ rw e (h.0, rw e at h.1)
  | inr e ↦ rw e (h.0, refl)
]

handle-IsSound : (e : Option SseEvent) (c : Connection) → IsSound c → IsSound (handle e c)
unfolding IsSound
handle-IsSound none c h = h
handle-IsSound (some (other type payload)) c h = h
handle-IsSound (some (record_changed seq record_id)) c h =
    split (is_seen (field_get (seen_key record_id) c.last_seen_seq) seq)
  where
    seen : Connection
    seen =
        deliver (record_changed seq record_id)
          (record c { last_seen_seq = remember_seen_seq (seen_key record_id) seq c.last_seen_seq })

    split : (b : Bool) → IsSound (if b then c else seen)
    split true = h
    split false = (length-remember_seen_seq (seen_key record_id) seq c.last_seen_seq h.0, h.1)

step-IsSound : {c d : Connection} → Step c d → IsSound c → IsSound d
unfolding IsSound on_open on_event on_error heartbeat_lost reconnect disconnect
step-IsSound (opened c) h = h
step-IsSound (event e c) h = handle-IsSound e (reset_heartbeat c) h
step-IsSound (errored c) h = schedule_reconnect-IsSound (close c) (close-IsSound c h.0)
step-IsSound (lost c) h =
    schedule_reconnect-IsSound (close (record c { heartbeat = false })) (close-IsSound c h.0)
step-IsSound (timer k c) h =
    fired c.stopped (connect-IsSound (record c { reconnects = without_timer k c.reconnects }) h)
  where
    fired :
        (b : Bool)
        → IsSound (connect (record c { reconnects = without_timer k c.reconnects }))
        → IsSound (
            if b
            then record c { reconnects = without_timer k c.reconnects }
            else connect (record c { reconnects = without_timer k c.reconnects }))
    fired true s = h
    fired false s = s
step-IsSound (disconnected c) h = (h.0, refl)

-- Whatever the browser calls and in whatever order, no more than five hundred sequence numbers are
-- kept, and the variable `es` of a connection that is stopped is null.
pub Reached-IsSound : {c : Connection} → Reached c → IsSound c
unfolding IsSound connect_sse connect
Reached-IsSound start = (omega arith, refl)
Reached-IsSound (then_step r s) = step-IsSound s (Reached-IsSound r)
