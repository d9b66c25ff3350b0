-- ===== src/Examples/Logs.antt =====
-- The theorems on the log, on a service that logs while its first write runs.
use expensesapp.Prelude.{Bool, true, false, none, ◌≡◌, refl, [], ◌∷◌, List}
use expensesapp.Prelude.Fields.{Fields}
use expensesapp.Prelude.Text.{Text, text}
use expensesapp.Logging.{
  Logger, Log, logger, log, flush, flushed, run_scheduled, is_skipped, push_entry, entry_of,
  LogLevel, schedule_flush,
}
use expensesapp.Logging.Flushed.{
  Reached, start, then_step, logged, microtask, settled, IsAttended, Reached-IsAttended,
}
use expensesapp.Logging.Order.{IsSublist, kept, Reached-IsSublist}

abbrev stringifies : Fields Text → Bool
stringifies fs = true

abbrev noon : Text
noon = text "12:00"

-- One entry is logged and its write starts.
abbrev writing : Logger
writing = run_scheduled (log stringifies noon false LogLevel.warn (text "slow") none logger)

-- Meanwhile another one is logged, and a third is below the level; then the write ends.
abbrev logging : Logger
logging =
    log stringifies noon true LogLevel.debug (text "x") none
      (log stringifies noon true LogLevel.error (text "lost") none writing)

abbrev entries : List Log
entries =
    entry_of stringifies noon LogLevel.warn (text "slow") none
    ∷ entry_of stringifies noon LogLevel.error (text "lost") none
    ∷ []

logging-Reached : Reached stringifies (flushed logging) entries
unfolding log schedule_flush push_entry is_skipped run_scheduled flush
logging-Reached =
    then_step
      (then_step
        (then_step
          (then_step (then_step start (logged noon false LogLevel.warn (text "slow") none logger))
            (microtask (log stringifies noon false LogLevel.warn (text "slow") none logger) refl))
          (logged noon true LogLevel.error (text "lost") none writing))
        (logged noon true LogLevel.debug (text "x") none
          (log stringifies noon true LogLevel.error (text "lost") none writing)))
      (settled logging refl)

Reached-IsAttended_example : IsAttended (flushed logging)
Reached-IsAttended_example = Reached-IsAttended stringifies logging-Reached

Reached-IsSublist_example : IsSublist (kept (flushed logging)) entries
Reached-IsSublist_example = Reached-IsSublist stringifies logging-Reached

-- The entry that came meanwhile waits for a flush that is scheduled.
logging_scheduled : (flushed logging).flush_scheduled ≡ true
unfolding log schedule_flush push_entry is_skipped run_scheduled flush flushed
logging_scheduled = refl
