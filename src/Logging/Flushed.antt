-- ===== src/Logging/Flushed.antt =====
-- The states that the log service of src/services/log.service.ts comes to, with the entries that it
-- has accepted, and that none of them waits for a write that nobody starts.
use expensesapp.Prelude.{
  ◌-◌, suc, ◌≤◌, ◌≡◌, refl, Bool, true, false, ◌||◌, leb, Option, List, [], ◌∷◌, ◌++◌, length,
  length-append, arith, Bool-cases, inl, inr, if◌then◌else◌, ltb, ℕ, ap,
}
use expensesapp.Prelude.Fields.{Fields}
use expensesapp.Prelude.Text.{Text}
use expensesapp.Logging.{
  Logger, Log, LogLevel, Context, logger, log, flush, flushed, run_scheduled, push_entry, is_empty,
  is_skipped, entry_of, max_buffer, shift, schedule_flush,
}

module _ (stringifies : Fields Text → Bool) where
  -- A call of a log method, the scheduled microtask, the end of a write, and `exportLogs`, which
  -- calls `_flush`; with the entries accepted.
  pub data Step : Logger → List Log → Logger → Type 0 where
    logged :
        (now : Text) (errors_only : Bool) (level : LogLevel) (message : Text)
        (context : Option Context) (s : Logger)
        → Step s
            (if is_skipped errors_only level
              then []
              else entry_of stringifies now level message context ∷ [])
            (log stringifies now errors_only level message context s)
    microtask : (s : Logger) → ltb 0 s.queued ≡ true → Step s [] (run_scheduled s)
    settled : (s : Logger) → s.is_flushing ≡ true → Step s [] (flushed s)
    exported : (s : Logger) → Step s [] (flush s)

  pub data Reached : Logger → List Log → Type 0 where
    start : Reached logger []
    then_step :
        {s t : Logger} {accepted more : List Log}
        → Reached s accepted
        → Step s more t
        → Reached t (accepted ++ more)

-- The flag is set just where a microtask is queued, and then it is one.
unfoldable IsQueued : Logger → Type 0
IsQueued s = s.queued ≡ (if s.flush_scheduled then 1 else 0)

-- The buffer has room for five hundred entries, one that is not empty has a flush scheduled or one
-- that is running, and a flush is scheduled just where one microtask is queued.
unfoldable pub IsAttended : Logger → Type 0
IsAttended s =
    (length s.buffer ≤ max_buffer)
    × ((is_empty s.buffer || s.flush_scheduled || s.is_flushing) ≡ true)
    × (s.queued ≡ (if s.flush_scheduled then 1 else 0))

length-shifted :
    (es : List Log) (e : Log)
    → length es ≤ max_buffer
    → length ((if leb max_buffer (length es) then shift es else es) ++ e ∷ []) ≤ max_buffer
length-shifted [] e h = omega arith
length-shifted (d ∷ es) e h = elim (Bool-cases (leb max_buffer (length (d ∷ es)))) [
  | inl full ↦ rw (full, length-append es (e ∷ [])) (omega (arith, h))
  | inr room ↦ rw (room, length-append (d ∷ es) (e ∷ [])) (ground (arith, room))
]

second_true : (b c : Bool) → (b || true || c) ≡ true
second_true true c = refl
second_true false c = refl

third_true : (b c : Bool) → (b || c || true) ≡ true
third_true true c = refl
third_true false true = refl
third_true false false = refl

schedule_flush-IsAttended :
    (s : Logger) → length s.buffer ≤ max_buffer → IsQueued s → IsAttended (schedule_flush s)
unfolding schedule_flush IsAttended IsQueued
schedule_flush-IsAttended s h q = split s.flush_scheduled refl
  where
    split : (b : Bool) → s.flush_scheduled ≡ b → IsAttended (schedule_flush s)
    split true e = rw e (h, second_true (is_empty s.buffer) s.is_flushing, rw e at q)
    split false e = rw e (h, second_true (is_empty s.buffer) s.is_flushing, ap suc (rw e at q))

push_entry-IsAttended : (e : Log) (s : Logger) → IsAttended s → IsAttended (push_entry e s)
unfolding push_entry IsAttended IsQueued
push_entry-IsAttended e s h = schedule_flush-IsAttended _ (length-shifted s.buffer e h.0) h.2

flush-IsAttended : (s : Logger) → length s.buffer ≤ max_buffer → IsQueued s → IsAttended (flush s)
unfolding flush IsAttended IsQueued
flush-IsAttended s h q = split s.is_flushing s.buffer h refl refl
  where
    split :
        (b : Bool) (es : List Log)
        → length es ≤ max_buffer
        → s.is_flushing ≡ b
        → s.buffer ≡ es
        → IsAttended (flush s)
    split true es n e f = rw (e, f) (n, third_true (is_empty es) s.flush_scheduled, q)
    split false [] n e f = rw (e, f) (n, refl, q)
    split false (d ∷ es) n e f = rw (e, f) (omega arith, third_true true s.flush_scheduled, q)

flushed-IsAttended :
    (s : Logger) → length s.buffer ≤ max_buffer → IsQueued s → IsAttended (flushed s)
unfolding flushed IsAttended IsQueued
flushed-IsAttended s h q = split s.buffer h refl
  where
    split : (es : List Log) → length es ≤ max_buffer → s.buffer ≡ es → IsAttended (flushed s)
    split [] n f = rw f (n, refl, q)
    split (d ∷ es) n f =
        rw f (schedule_flush-IsAttended (record s { buffer = d ∷ es; is_flushing = false }) n q)

one_less : (b : Bool) (n : ℕ) → n ≡ (if b then 1 else 0) → n - 1 ≡ 0
one_less true n h = omega (arith, h)
one_less false n h = omega (arith, h)

bound : (s : Logger) → IsAttended s → length s.buffer ≤ max_buffer
unfolding IsAttended
bound s h = h.0

IsAttended-IsQueued : (s : Logger) → IsAttended s → IsQueued s
unfolding IsAttended IsQueued
IsAttended-IsQueued s h = h.2

module _ (stringifies : Fields Text → Bool) where
  step-IsAttended :
      {s t : Logger} {more : List Log} → Step stringifies s more t → IsAttended s → IsAttended t
  unfolding log run_scheduled IsQueued
  step-IsAttended (logged now errors_only level message context s) h =
      elim (Bool-cases (is_skipped errors_only level)) [
        | inl e ↦ rw e h
        | inr e ↦ rw e (push_entry-IsAttended (entry_of stringifies now level message context) s h)
      ]
  step-IsAttended (microtask s e) h =
      flush-IsAttended (record s { flush_scheduled = false; queued = s.queued - 1 }) (bound s h)
        (one_less s.flush_scheduled s.queued (IsAttended-IsQueued s h))
  step-IsAttended (settled s e) h = flushed-IsAttended s (bound s h) (IsAttended-IsQueued s h)
  step-IsAttended (exported s) h = flush-IsAttended s (bound s h) (IsAttended-IsQueued s h)

  -- Whatever is logged, and whenever the scheduled microtasks and the writes end, with an error or
  -- without, at most five hundred entries wait; where one waits a flush is scheduled or running; and
  -- one microtask is queued where a flush is scheduled, and none where it is not.
  pub Reached-IsAttended :
      {s : Logger} {accepted : List Log} → Reached stringifies s accepted → IsAttended s
  unfolding IsAttended
  Reached-IsAttended start = (omega arith, refl, refl)
  Reached-IsAttended (then_step r step) = step-IsAttended step (Reached-IsAttended r)
