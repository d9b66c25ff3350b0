-- ===== src/Examples/Events.antt =====
-- The theorems on live events, on a connection that has opened and failed.
use expensesapp.Prelude.{◌≡◌, ◌≤◌, length, true, refl, some, arith, ◌∷◌, []}
use expensesapp.Prelude.Text.{text}
use expensesapp.Sync.Sse.{
  Connection, connect, connect_sse, disconnect, heartbeat_lost, on_error, on_event, on_open,
  reconnect, record_changed, schedule_reconnect,
}
use expensesapp.Sync.Sse.Duplicates.{on_event-again}
use expensesapp.Sync.Sse.Reached.{
  IsSound, Reached, Reached-IsSound, errored, lost, opened, start, then_step, timer,
}
use expensesapp.Sync.Sse.Stopped.{disconnect-opens_none, then_called, unchanged}

-- The source opens and fails, and then the heartbeat is lost.
abbrev failed : Connection
failed = heartbeat_lost (on_error (on_open connect_sse))

failed-Reached : Reached failed
failed-Reached =
    then_step (then_step (then_step start (opened connect_sse)) (errored (on_open connect_sse)))
      (lost (on_error (on_open connect_sse)))

Reached-IsSound_example : IsSound failed
Reached-IsSound_example = Reached-IsSound failed-Reached

on_event-again_example :
    on_event
      (some (record_changed 3 (text "a")))
      (on_event (some (record_changed 4 (text "a"))) failed)
    ≡ on_event (some (record_changed 4 (text "a"))) failed
on_event-again_example = on_event-again failed 4 3 (text "a") failed-Reached (omega arith)

-- Both timers that are set then go off: the first of their sources stays open after `disconnect`.
leaked_source : (disconnect (reconnect 2 (reconnect 1 failed))).open_sources ≡ 3 ∷ []
unfolding disconnect reconnect connect connect_sse on_open on_error heartbeat_lost
    schedule_reconnect
leaked_source = refl

-- A timer that goes off after `disconnect` opens no source.
disconnect-opens_none_example :
    ((reconnect 1 (disconnect failed)).stopped ≡ true)
    × (length (reconnect 1 (disconnect failed)).reconnects ≤ length failed.reconnects)
    × (length (reconnect 1 (disconnect failed)).open_sources ≤ length failed.open_sources)
disconnect-opens_none_example =
    disconnect-opens_none failed (reconnect 1 (disconnect failed))
      (then_called (unchanged (disconnect failed)) (timer 1 (disconnect failed)))
