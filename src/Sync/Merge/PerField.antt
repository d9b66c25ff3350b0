-- ===== src/Sync/Merge/PerField.antt =====
-- What the per-field merge keeps of each field.
use expensesapp.Prelude.{
  Bool, true, ◌&&◌, ◌||◌, Option, some, ◌≡◌, refl, List, ◌∷◌, [], ◌++◌, any, if◌then◌else◌, get_or,
  arith, Bool-cases, inl, inr, Option-cases,
}
use expensesapp.Prelude.Int.{ℤ}
use expensesapp.Prelude.Text.{Text, text_eq, text_eq_iff, text_eq_refl}
use expensesapp.Prelude.Fields.{Fields, field_get, field_get-set}
use expensesapp.Sync.Merge.{
  Merged, add_keys, takes_local, merge_field, merge_fields, merge_per_field,
}

any-append :
    {A : Type 0} (p : A → Bool) (xs ys : List A) → any p (xs ++ ys) ≡ (any p xs || any p ys)
any-append p [] ys = refl
any-append p (x ∷ xs) ys = ground (arith, any-append p xs ys)

add_key : Text → List Text → List Text
add_key k keys = if any (text_eq k) keys then keys else keys ++ k ∷ []

any-add_key :
    (f k : Text) (keys : List Text)
    → any (text_eq f) keys ≡ true
    → any (text_eq f) (add_key k keys) ≡ true
unfolding add_key
any-add_key f k keys h = ground (arith, any-append (text_eq f) keys (k ∷ []))

any-add_key_self : (k : Text) (keys : List Text) → any (text_eq k) (add_key k keys) ≡ true
unfolding add_key
any-add_key_self k keys = ground (arith, any-append (text_eq k) keys (k ∷ []), text_eq_refl k)

-- Adding the keys of an object keeps the keys that are there.
any-add_keys_old :
    (f : Text) (keys : List Text) (o : Fields Text)
    → any (text_eq f) keys ≡ true
    → any (text_eq f) (add_keys keys o) ≡ true
unfolding add_key
any-add_keys_old f keys [] h = h
any-add_keys_old f keys ((k, v) ∷ o) h =
    any-add_keys_old f (add_key k keys) o (any-add_key f k keys h)

-- Every field of the object is among them.
any-add_keys :
    (f : Text) (keys : List Text) (o : Fields Text) {v : Text}
    → field_get f o ≡ some v
    → any (text_eq f) (add_keys keys o) ≡ true
unfolding field_get add_key
any-add_keys f keys [] {v} h = cc
any-add_keys f keys ((k, w) ∷ o) {v} h = elim (Bool-cases (text_eq f k)) [
  | inl same ↦
      let e : f ≡ k = (text_eq_iff f k).0 same in
      any-add_keys_old f (add_key k keys) o (rw e (any-add_key_self k keys))
  | inr other ↦ any-add_keys f (add_key k keys) o {v = v} (ground (arith, h, other))
]

module _ (get_time : Text → Option ℤ) {V : Type 0} (undefined : V) (local server : Fields V)
    (local_map server_map : Fields Text) (l s : Text) where
  takes : Text → Bool
  takes f = takes_local get_time (field_get f local_map) (field_get f server_map) l s

  -- The loop writes the fields that it takes, and no other.
  merge_fields-payload :
      (f : Text) (fields : List Text) (m : Merged V)
      → field_get f
          (merge_fields get_time undefined local local_map server_map l s fields m).merged_payload
        ≡ (if any (text_eq f) fields && takes f
            then some (get_or (field_get f local) undefined)
            else field_get f m.merged_payload)
  unfolding merge_fields merge_field takes
  merge_fields-payload f [] m = refl
  merge_fields-payload f (g ∷ fields) m = ground (
    arith,
    merge_fields-payload f fields
        (merge_field get_time undefined local local_map server_map l s g m),
    text_eq_iff f g,
    Bool-cases (takes g),
    field_get-set f g (get_or (field_get g local) undefined) m.merged_payload,
  )

  takes_known : (f : Text) → takes f ≡ true → (v : Text) × (field_get f local_map ≡ some v)
  unfolding takes takes_local
  takes_known f h = elim (Option-cases (field_get f local_map)) [
    | inl missing ↦ ground (arith, missing)
    | inr known ↦ known
  ]

  -- The field's value as the loop's test picks it.
  pub merge_per_field-takes :
      (f : Text)
      → field_get f
          (merge_per_field get_time undefined local server local_map server_map l s).merged_payload
        ≡ (if takes_local get_time (field_get f local_map) (field_get f server_map) l s
            then some (get_or (field_get f local) undefined)
            else field_get f server)
  unfolding merge_per_field takes
  merge_per_field-takes f = elim (Bool-cases (takes f)) [
    | inl won ↦
        let known = takes_known f won in
        let there =
          any-add_keys_old f (add_keys [] local_map) server_map
            (any-add_keys f [] local_map known.1) in
        ground (
          arith,
          there,
          won,
          merge_fields-payload f (add_keys (add_keys [] local_map) server_map)
              (record { merged_payload = server; merged_map = server_map }),
        )
    | inr lost ↦ ground (
      arith,
      lost,
      merge_fields-payload f (add_keys (add_keys [] local_map) server_map)
          (record { merged_payload = server; merged_map = server_map }),
    )
  ]
