-- ===== src/Sync/Merge/Fresher.antt =====
-- Which side of a field is the fresher one, in src/services/sync/merge.ts: what a per-field merge is
-- to keep, said without its code.
use expensesapp.Prelude.{
  ◌≡◌, refl, ◌⊎◌, inl, inr, true, false, Option, none, some, [], ◌∷◌, Bool-cases, arith, get_or,
}
use expensesapp.Prelude.Int.{ℤ, ltb_ℤ}
use expensesapp.Prelude.Text.{Text, text_lt}
use expensesapp.Prelude.Fields.{Fields, field_get}
use expensesapp.Sync.Merge.{
  time_of, compare_times, compare_timestamps, wins, takes_local, merge_per_field,
}
use expensesapp.Sync.Merge.PerField.{merge_per_field-takes}

-- A timestamp that is there and is not empty.
abbrev pub HasTime : Option Text → Type 0
HasTime none = ⊥
HasTime (some []) = ⊥
HasTime (some (c ∷ s)) = Unit

-- A time that cannot be read comes before each that can.
abbrev pub IsEarlier : Option ℤ → Option ℤ → Type 0
IsEarlier none none = ⊥
IsEarlier none (some a) = Unit
IsEarlier (some b) none = ⊥
IsEarlier (some b) (some a) = ltb_ℤ b a ≡ true

abbrev pub IsSameTime : Option ℤ → Option ℤ → Type 0
IsSameTime none none = Unit
IsSameTime none (some a) = ⊥
IsSameTime (some b) none = ⊥
IsSameTime (some b) (some a) = (ltb_ℤ b a ≡ false) × (ltb_ℤ a b ≡ false)

-- The local side has a timestamp, and the server has none, or an earlier one, or one of the same
-- time and an editor whose name is less than the local one's.
abbrev pub IsFresher :
    (Text → Option ℤ)
    → (local_ts server_ts : Option Text) → (local_editor server_editor : Text) → Type 0
IsFresher get_time local_ts server_ts l s =
    HasTime local_ts
    × ((HasTime server_ts → ⊥)
        ⊎ (IsEarlier (time_of get_time server_ts) (time_of get_time local_ts)
            ⊎ (IsSameTime (time_of get_time server_ts) (time_of get_time local_ts)
                × (text_lt s l ≡ true))))

Later : Option ℤ → Option ℤ → Text → Text → Type 0
Later x y l s = IsEarlier y x ⊎ (IsSameTime y x × (text_lt s l ≡ true))

wins_sound : (x y : Option ℤ) (l s : Text) → wins (compare_times x y) l s ≡ true → Later x y l s
unfolding Later
wins_sound none none l s h = inr (tt, h)
wins_sound none (some b) l s h = cc
wins_sound (some a) none l s h = inl tt
wins_sound (some a) (some b) l s h = elim (Bool-cases (ltb_ℤ a b)) [
  | inl e ↦ absurd (false-true (rw e at h))
  | inr e ↦ elim (Bool-cases (ltb_ℤ b a)) [ inl f ↦ inl f | inr f ↦ inr ((f, e), rw (e, f) at h) ]
]
  where
    false-true : false ≡ true → ⊥
    false-true h = cc

not_before : (a b : ℤ) → ltb_ℤ b a ≡ true → ltb_ℤ a b ≡ false
not_before a b h = ground (arith, h)

Later-wins : (x y : Option ℤ) (l s : Text) → Later x y l s → wins (compare_times x y) l s ≡ true
unfolding Later
Later-wins none none l s (inl h) = absurd h
Later-wins none none l s (inr h) = h.1
Later-wins none (some b) l s (inl h) = absurd h
Later-wins none (some b) l s (inr h) = absurd h.0
Later-wins (some a) none l s h = refl
Later-wins (some a) (some b) l s (inl h) = rw (not_before a b h, h) refl
Later-wins (some a) (some b) l s (inr h) = rw (h.0.1, h.0.0) h.1

IsFresher-takes :
    (get_time : Text → Option ℤ) (local_ts server_ts : Option Text) (l s : Text)
    → IsFresher get_time local_ts server_ts l s
    → takes_local get_time local_ts server_ts l s ≡ true
unfolding takes_local compare_timestamps Later
IsFresher-takes get_time none st l s h = absurd h.0
IsFresher-takes get_time (some []) st l s h = absurd h.0
IsFresher-takes get_time (some (c ∷ t)) none l s h = refl
IsFresher-takes get_time (some (c ∷ t)) (some []) l s h = refl
IsFresher-takes get_time (some (c ∷ t)) (some (d ∷ u)) l s (timed, inl h) = absurd (h tt)
IsFresher-takes get_time (some (c ∷ t)) (some (d ∷ u)) l s (timed, inr h) =
    Later-wins (get_time (c ∷ t)) (get_time (d ∷ u)) l s h

takes-IsFresher :
    (get_time : Text → Option ℤ) (local_ts server_ts : Option Text) (l s : Text)
    → takes_local get_time local_ts server_ts l s ≡ true
    → IsFresher get_time local_ts server_ts l s
unfolding takes_local compare_timestamps Later
takes-IsFresher get_time none st l s h = cc
takes-IsFresher get_time (some []) st l s h = cc
takes-IsFresher get_time (some (c ∷ t)) none l s h = (tt, inl (λ e. e))
takes-IsFresher get_time (some (c ∷ t)) (some []) l s h = (tt, inl (λ e. e))
takes-IsFresher get_time (some (c ∷ t)) (some (d ∷ u)) l s h =
    (tt, inr (wins_sound (get_time (c ∷ t)) (get_time (d ∷ u)) l s h))

-- Of each field the per-field merge keeps the local value, or `undefined` where the local payload
-- lacks the field, if the local side is the fresher one for it, and the server's value if it is
-- not.
pub merge_per_field-get :
    (get_time : Text → Option ℤ) {V : Type 0} (undefined : V) (local server : Fields V)
    (local_map server_map : Fields Text) (l s f : Text)
    → (IsFresher get_time (field_get f local_map) (field_get f server_map) l s
        × (field_get f
              (merge_per_field get_time undefined local server local_map server_map l
                s).merged_payload
            ≡ some (get_or (field_get f local) undefined)))
      ⊎ ((IsFresher get_time (field_get f local_map) (field_get f server_map) l s → ⊥)
          × (field_get f
                (merge_per_field get_time undefined local server local_map server_map l
                  s).merged_payload
              ≡ field_get f server))
merge_per_field-get get_time undefined local server local_map server_map l s f =
    let lt = field_get f local_map in
    let st = field_get f server_map in
    let kept = merge_per_field-takes get_time undefined local server local_map server_map l s f in
    elim (Bool-cases (takes_local get_time lt st l s)) [
      | inl e ↦ inl (takes-IsFresher get_time lt st l s e, rw e at kept)
      | inr e ↦ inr (
        λ h.
            let clash : takes_local get_time lt st l s ≡ true =
              IsFresher-takes get_time lt st l s h in
            cc,
        rw e at kept,
      )
    ]
