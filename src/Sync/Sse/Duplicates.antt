-- ===== src/Sync/Sse/Duplicates.antt =====
-- Events that `connectSSE` of src/services/sync/sse.ts drops.
use expensesapp.Prelude.{
  ℕ, ◌≤◌, ◌≡◌, refl, ◌∙◌, Bool, true, false, ltb, Option, none, some, [], ◌∷◌, length, arith,
  Bool-cases, inl, inr, if◌then◌else◌, eq_of_some,
}
use expensesapp.Prelude.Fields.{Fields, field_get, field_set, field_get-delete, field_get-set}
use expensesapp.Prelude.Text.{Text, text_eq, text_eq_refl}
use expensesapp.Sync.Sse.{
  Connection, record_changed, deliver, deliver_change, is_seen, max_last_seen_entries, on_event,
  remember_seen_seq, reset_heartbeat, seen_key, without_oldest,
}
use expensesapp.Sync.Sse.Reached.{IsSound, Reached, Reached-IsSound}

-- Forgetting the oldest key of a map that has just outgrown its limit keeps the key that was set.
get-without_oldest :
    (k : Text) (v : ℕ) (seen : Fields ℕ)
    → length seen ≤ max_last_seen_entries
    → ltb max_last_seen_entries (length (field_set k v seen)) ≡ true
    → field_get k (without_oldest (field_set k v seen)) ≡ field_get k (field_set k v seen)
unfolding field_set
get-without_oldest k v [] h g = absurd (ground (arith, g))
get-without_oldest k v ((j, w) ∷ seen) h g = elim (Bool-cases (text_eq k j)) [
  | inl e ↦ absurd (ground (arith, rw e at g, h))
  | inr e ↦ rw e (field_get-delete k j ((j, w) ∷ field_set k v seen) ∙ (rw e refl))
]

get-remember_seen_seq :
    (k : Text) (v : ℕ) (seen : Fields ℕ)
    → length seen ≤ max_last_seen_entries
    → field_get k (remember_seen_seq k v seen) ≡ some v
unfolding remember_seen_seq
get-remember_seen_seq k v seen h =
    split (ltb max_last_seen_entries (length (field_set k v seen))) refl
  where
    set : field_get k (field_set k v seen) ≡ some v
    set = field_get-set k k v seen ∙ (rw (text_eq_refl k) refl)

    split :
        (b : Bool)
        → ltb max_last_seen_entries (length (field_set k v seen)) ≡ b
        → field_get k (if b then without_oldest (field_set k v seen) else field_set k v seen)
          ≡ some v
    split true e = get-without_oldest k v seen h e ∙ set
    split false e = set

seen_again : (o : Option ℕ) (seq last : ℕ) → o ≡ some last → seq ≤ last → is_seen o seq ≡ true
seen_again none seq last h l = cc
seen_again (some i) seq last h l = ground (arith, eq_of_some h, l)

seen_older :
    (o : Option ℕ) (older seq : ℕ) → is_seen o seq ≡ true → older ≤ seq → is_seen o older ≡ true
seen_older none older seq h l = h
seen_older (some i) older seq h l = ground (arith, h, l)

-- In every state that a connection comes to, once a change of a record has been handled, a change
-- of the same record with the same or a smaller number calls nothing and is not remembered.
pub on_event-again :
    (c : Connection) (seq older : ℕ) (record_id : Text)
    → Reached c
    → older ≤ seq
    → on_event
        (some (record_changed older record_id))
        (on_event (some (record_changed seq record_id)) c)
      ≡ on_event (some (record_changed seq record_id)) c
unfolding on_event IsSound
on_event-again c seq older record_id r l =
    split (is_seen (field_get (seen_key record_id) c.last_seen_seq) seq) refl
  where
    key : Text
    key = seen_key record_id

    again : Connection → Connection
    again d = deliver_change older record_id (reset_heartbeat d)

    seen : Connection
    seen =
        deliver (record_changed seq record_id)
          (record (reset_heartbeat c) { last_seen_seq = remember_seen_seq key seq c.last_seen_seq })

    split :
        (b : Bool)
        → is_seen (field_get key c.last_seen_seq) seq ≡ b
        → again (if b then reset_heartbeat c else seen) ≡ (if b then reset_heartbeat c else seen)
    split true e = rw (seen_older (field_get key c.last_seen_seq) older seq e l) refl
    split false e =
        rw
          (seen_again (field_get key (remember_seen_seq key seq c.last_seen_seq)) older seq
            (get-remember_seen_seq key seq c.last_seen_seq (Reached-IsSound r).0) l)
          refl
