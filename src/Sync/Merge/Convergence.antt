-- ===== src/Sync/Merge/Convergence.antt =====
-- Two devices that resolve one conflict from its two sides agree on what is kept.
use expensesapp.Prelude.{
  ◌||◌, if◌then◌else◌, get_or, ap, [], ◌∷◌, Bool, true, false, not, Option, none, some, ◌≡◌, ◌≢◌,
  refl, sym, is_some, Bool-cases, inl, inr, arith,
}
use expensesapp.Prelude.Int.{ℤ, Comparison, less, tie, greater, flip, compare_ℤ, compare_ℤ-flip}
use expensesapp.Prelude.Text.{Text, text_lt, text_lt_asymm, text_lt_total}
use expensesapp.Prelude.Fields.{Fields, field_get}
use expensesapp.Sync.Merge.{
  time_of, compare_times, compare_timestamps, wins, all_key, merge_whole_record, merge_payloads,
}

compare_times-flip : (a b : Option ℤ) → compare_times b a ≡ flip (compare_times a b)
compare_times-flip none none = refl
compare_times-flip none (some b) = refl
compare_times-flip (some a) none = refl
compare_times-flip (some a) (some b) = compare_ℤ-flip a b

text_lt_swap : (s t : Text) → s ≢ t → text_lt t s ≡ not (text_lt s t)
text_lt_swap s t ne = elim (Bool-cases (text_lt s t)) [
  | inl lt ↦ rw (lt, text_lt_asymm s t lt)
  | inr not_lt ↦ elim (Bool-cases (text_lt t s)) [
    | inl gt ↦ rw (not_lt, gt)
    | inr not_gt ↦ absurd (ne (text_lt_total s t not_lt not_gt))
  ]
]

-- Seen from the other side the winner is the other side.
wins-flip : (c : Comparison) (l s : Text) → (c ≡ tie → l ≢ s) → wins (flip c) s l ≡ not (wins c l s)
wins-flip less l s ne = refl
wins-flip greater l s ne = refl
wins-flip tie l s ne = text_lt_swap s l (λ e. ne refl (sym e))

or-swap : (a b : Bool) → (a || b) ≡ true → (b || a) ≡ true
or-swap true true h = refl
or-swap true false h = refl
or-swap false b h = ground arith

if-not : {A : Type 0} (b : Bool) (x y : A) → (if not b then x else y) ≡ (if b then y else x)
if-not true x y = refl
if-not false x y = refl

-- A timestamp whose time can be read is there, so that no clock takes its place.
read_time :
    (get_time : Text → Option ℤ) (now now' : Text) (ts : Option Text)
    → is_some (time_of get_time ts) ≡ true
    → get_or ts now' ≡ get_or ts now
read_time get_time now now' none h = cc
read_time get_time now now' (some s) h = refl

-- The winner's time can be read where one of the two can.
wins_some :
    (a b : Option ℤ) (l s : Text)
    → (is_some a || is_some b) ≡ true
    → (if wins (compare_times a b) l s then is_some a else is_some b) ≡ true
wins_some none none l s h = cc
wins_some none (some b) l s h = refl
wins_some (some a) none l s h = refl
wins_some (some a) (some b) l s h = if_same (wins (compare_ℤ a b) l s)
  where
    if_same : (b : Bool) → (if b then true else true) ≡ true
    if_same true = refl
    if_same false = refl

winner_time :
    (get_time : Text → Option ℤ) (now now' : Text) (local_ts server_ts : Option Text) (l s : Text)
    → (is_some (time_of get_time local_ts) || is_some (time_of get_time server_ts)) ≡ true
    → get_or
        (if wins (compare_times (time_of get_time local_ts) (time_of get_time server_ts)) l s
          then local_ts
          else server_ts)
        now'
      ≡ get_or
          (if wins (compare_times (time_of get_time local_ts) (time_of get_time server_ts)) l s
            then local_ts
            else server_ts)
          now
winner_time get_time now now' local_ts server_ts l s timed =
    split (wins (compare_times (time_of get_time local_ts) (time_of get_time server_ts)) l s)
      (wins_some (time_of get_time local_ts) (time_of get_time server_ts) l s timed)
  where
    split :
        (b : Bool)
        → (if b then is_some (time_of get_time local_ts) else is_some (time_of get_time server_ts))
          ≡ true
        → get_or (if b then local_ts else server_ts) now'
          ≡ get_or (if b then local_ts else server_ts) now
    split true h = read_time get_time now now' local_ts h
    split false h = read_time get_time now now' server_ts h

module _ (get_time : Text → Option ℤ) {V : Type 0} (undefined : V) where
  merge_whole_record-flip :
      (now now' : Text) (local server : Fields V) (local_ts server_ts : Option Text) (l s : Text)
      → (is_some (time_of get_time local_ts) || is_some (time_of get_time server_ts)) ≡ true
      → (compare_timestamps get_time local_ts server_ts ≡ tie → l ≢ s)
      → merge_whole_record get_time undefined now' server local server_ts local_ts s l
        ≡ merge_whole_record get_time undefined now local server local_ts server_ts l s
  unfolding merge_whole_record compare_timestamps
  merge_whole_record-flip now now' local server local_ts server_ts l s timed ne =
      let c = compare_times (time_of get_time local_ts) (time_of get_time server_ts) in
      rw
        (
          compare_times-flip (time_of get_time local_ts) (time_of get_time server_ts),
          wins-flip c l s ne,
          if-not (wins c l s) server local,
          if-not (wins c l s) server_ts local_ts,
        )
        (ap
          (λ (ts : Text). record {
            merged_payload = if wins c l s then local else server;
            merged_map = (all_key, ts) ∷ [];
          })
          (winner_time get_time now now' local_ts server_ts l s timed))

  -- A whole-record merge keeps the same payload and the same timestamp from whichever side it is
  -- run, each with its own clock, provided that the time of one version at least can be read and
  -- that the two do not carry the same time and the same editor.
  pub merge_payloads-converges :
      (now now' : Text) (local server : Fields V) (local_map server_map : Fields Text) (l s : Text)
      → (is_some (time_of get_time (field_get all_key local_map))
          || is_some (time_of get_time (field_get all_key server_map)))
        ≡ true
      → (is_some (field_get all_key local_map) || is_some (field_get all_key server_map)) ≡ true
      → (compare_timestamps get_time (field_get all_key local_map) (field_get all_key server_map)
            ≡ tie
          → l ≢ s)
      → merge_payloads get_time undefined now' server local server_map local_map s l
        ≡ merge_payloads get_time undefined now local server local_map server_map l s
  unfolding merge_payloads
  merge_payloads-converges now now' local server local_map server_map l s timed whole ne =
      rw (whole, or-swap _ _ whole)
        (merge_whole_record-flip now now' local server (field_get all_key local_map)
          (field_get all_key server_map) l s timed ne)
