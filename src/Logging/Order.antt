-- ===== src/Logging/Order.antt =====
-- Which entries src/services/log.service.ts hands to the database, and in which order.
use expensesapp.Prelude.{
  ◌-◌, ◌≡◌, refl, ap, ◌⊎◌, Bool, true, false, ◌||◌, leb, List, [], ◌∷◌, ◌++◌, length, Bool-cases,
  inl, inr, if◌then◌else◌, ◌∙◌, sym,
}
use expensesapp.Prelude.Fields.{Fields}
use expensesapp.Prelude.Text.{Text}
use expensesapp.Logging.{
  Logger, Log, log, flush, flushed, run_scheduled, push_entry, is_empty, is_skipped, entry_of,
  max_buffer, shift, schedule_flush, schedule_if,
}
use expensesapp.Logging.Flushed.{
  Step, logged, microtask, settled, exported, Reached, start, then_step,
}

-- The entries of the first list stand in the second, each once and in the same order.
unfoldable pub IsSublist : List Log → List Log → Type 0
IsSublist [] ys = Unit
IsSublist (x ∷ xs) [] = ⊥
IsSublist (x ∷ xs) (y ∷ ys) = ((x ≡ y) × IsSublist xs ys) ⊎ IsSublist (x ∷ xs) ys

IsSublist-cons : (y : Log) (xs ys : List Log) → IsSublist xs ys → IsSublist xs (y ∷ ys)
unfolding IsSublist
IsSublist-cons y [] ys h = tt
IsSublist-cons y (x ∷ xs) ys h = inr h

IsSublist-tail : (x : Log) (xs ys : List Log) → IsSublist (x ∷ xs) ys → IsSublist xs ys
unfolding IsSublist
IsSublist-tail x xs [] h = absurd h
IsSublist-tail x xs (y ∷ ys) (inl h) = IsSublist-cons y xs ys h.1
IsSublist-tail x xs (y ∷ ys) (inr h) = IsSublist-cons y xs ys (IsSublist-tail x xs ys h)

IsSublist-without :
    (xs : List Log) (e : Log) (es ys : List Log)
    → IsSublist (xs ++ e ∷ es) ys
    → IsSublist (xs ++ es) ys
unfolding IsSublist
IsSublist-without [] e es ys h = IsSublist-tail e es ys h
IsSublist-without (x ∷ xs) e es [] h = absurd h
IsSublist-without (x ∷ xs) e es (y ∷ ys) (inl h) = inl (h.0, IsSublist-without xs e es ys h.1)
IsSublist-without (x ∷ xs) e es (y ∷ ys) (inr h) = inr (IsSublist-without (x ∷ xs) e es ys h)

IsSublist-snoc :
    (e : Log) (xs ys : List Log) → IsSublist xs ys → IsSublist (xs ++ e ∷ []) (ys ++ e ∷ [])
unfolding IsSublist
IsSublist-snoc e [] [] h = inl (refl, tt)
IsSublist-snoc e (x ∷ xs) [] h = absurd h
IsSublist-snoc e [] (y ∷ ys) h = inr (IsSublist-snoc e [] ys tt)
IsSublist-snoc e (x ∷ xs) (y ∷ ys) (inl h) = inl (h.0, IsSublist-snoc e xs ys h.1)
IsSublist-snoc e (x ∷ xs) (y ∷ ys) (inr h) = inr (IsSublist-snoc e (x ∷ xs) ys h)

append_nil : (xs : List Log) → xs ++ [] ≡ xs
append_nil [] = refl
append_nil (x ∷ xs) = ap (λ (r : List Log). x ∷ r) (append_nil xs)

append_assoc : (xs ys zs : List Log) → (xs ++ ys) ++ zs ≡ xs ++ (ys ++ zs)
append_assoc [] ys zs = refl
append_assoc (x ∷ xs) ys zs = ap (λ (r : List Log). x ∷ r) (append_assoc xs ys zs)

-- The entries handed on, and behind them those that wait.
abbrev pub kept : Logger → List Log
kept s = s.handed ++ s.buffer

kept-flush : (s : Logger) → kept (flush s) ≡ kept s
unfolding flush
kept-flush s = elim (Bool-cases (s.is_flushing || is_empty s.buffer)) [
  | inl e ↦ rw e refl
  | inr e ↦ rw e (append_nil (s.handed ++ s.buffer))
]

kept-schedule_flush : (s : Logger) → kept (schedule_flush s) ≡ kept s
unfolding schedule_flush
kept-schedule_flush s = by_flag s.flush_scheduled
  where
    by_flag : (b : Bool) → kept (schedule_if b s) ≡ kept s
    by_flag true = refl
    by_flag false = refl

kept-flushed : (s : Logger) → kept (flushed s) ≡ kept s
unfolding flushed
kept-flushed s = elim (Bool-cases (is_empty s.buffer)) [
  | inl e ↦ rw e refl
  | inr e ↦ rw e (kept-schedule_flush (record s { is_flushing = false }))
]

kept-push_entry :
    (e : Log) (s : Logger) (accepted : List Log)
    → IsSublist (kept s) accepted
    → IsSublist (kept (push_entry e s)) (accepted ++ e ∷ [])
unfolding push_entry
kept-push_entry e s accepted h =
    rw
      (kept-schedule_flush (record s { buffer = room ++ e ∷ [] })
        ∙ sym (append_assoc s.handed room (e ∷ [])))
      (IsSublist-snoc e _ accepted (shifted (leb max_buffer (length s.buffer)) s.buffer h))
  where
    room : List Log
    room = if leb max_buffer (length s.buffer) then shift s.buffer else s.buffer

    shifted :
        (b : Bool) (es : List Log)
        → IsSublist (s.handed ++ es) accepted
        → IsSublist (s.handed ++ (if b then shift es else es)) accepted
    shifted true [] n = n
    shifted true (d ∷ es) n = IsSublist-without s.handed d es accepted n
    shifted false es n = n

module _ (stringifies : Fields Text → Bool) where
  step-IsSublist :
      {s t : Logger} {more : List Log} (accepted : List Log)
      → Step stringifies s more t
      → IsSublist (kept s) accepted
      → IsSublist (kept t) (accepted ++ more)
  unfolding log run_scheduled
  step-IsSublist accepted (logged now errors_only level message context s) h =
      elim (Bool-cases (is_skipped errors_only level)) [
        | inl e ↦ rw (e, append_nil accepted) h
        | inr e ↦
            rw e (kept-push_entry (entry_of stringifies now level message context) s accepted h)
      ]
  step-IsSublist accepted (microtask s e) h =
      rw
        (
          append_nil accepted,
          kept-flush (record s { flush_scheduled = false; queued = s.queued - 1 }),
        )
        h
  step-IsSublist accepted (settled s e) h = rw (append_nil accepted, kept-flushed s) h
  step-IsSublist accepted (exported s) h = rw (append_nil accepted, kept-flush s) h

  -- The entries handed to the database, and behind them those that still wait, are entries that the
  -- service has accepted, each at most once and in the order of their calls, however the calls, the
  -- microtasks and the ends of the writes are ordered.
  pub Reached-IsSublist :
      {s : Logger} {accepted : List Log}
      → Reached stringifies s accepted
      → IsSublist (kept s) accepted
  unfolding IsSublist
  Reached-IsSublist start = tt
  Reached-IsSublist (then_step {s} {t} {accepted} {more} r step) =
      step-IsSublist accepted step (Reached-IsSublist r)
