-- ===== src/Sync/Merge.antt =====
-- src/services/sync/merge.ts: last-write-wins resolution of a conflict. A payload is an object
-- whose values are unknown, a map of timestamps an object of texts.
pub mod Convergence
pub mod PerField
pub mod Fresher
use expensesapp.Prelude.{
  Bool, true, false, Option, none, some, List, [], ◌∷◌, ◌||◌, if◌then◌else◌, get_or, is_some, any,
  ◌++◌,
}
use expensesapp.Prelude.Int.{ℤ, Comparison, less, tie, greater, compare_ℤ}
use expensesapp.Prelude.Text.{Text, text, text_eq, text_lt}
use expensesapp.Prelude.Fields.{Fields, field_get, field_set}

pub record Merged (V : Type 0) : Type 0 where
  pub merged_payload : Fields V
  pub merged_map : Fields Text

-- NaN counts as -Infinity; the difference of two infinities is NaN, which is neither above 0 nor
-- below it.
abbrev pub compare_times : Option ℤ → Option ℤ → Comparison
compare_times none none = tie
compare_times none (some b) = less
compare_times (some a) none = greater
compare_times (some a) (some b) = compare_ℤ a b

-- Whether the local side wins: by time, and by the larger editor on a tie.
abbrev pub wins : Comparison → Text → Text → Bool
wins greater local_editor server_editor = true
wins less local_editor server_editor = false
wins tie local_editor server_editor = text_lt server_editor local_editor

abbrev pub all_key : Text
all_key = text "_all"

-- `new Set([...Object.keys(a), ...Object.keys(b)])`
abbrev pub add_keys : List Text → Fields Text → List Text
add_keys keys [] = keys
add_keys keys ((k, v) ∷ o) = add_keys (if any (text_eq k) keys then keys else keys ++ k ∷ []) o

-- `!ts`
abbrev pub no_time : Option Text → Bool
no_time none = true
no_time (some []) = true
no_time (some (c ∷ s)) = false

-- `get_time` is `new Date(s).getTime()`, without a value for NaN.
module _ (get_time : Text → Option ℤ) where
  -- An empty or missing timestamp is not parsed.
  abbrev pub time_of : Option Text → Option ℤ
  time_of none = none
  time_of (some []) = none
  time_of (some (c ∷ s)) = get_time (c ∷ s)

  unfoldable pub compare_timestamps : Option Text → Option Text → Comparison
  compare_timestamps a b = compare_times (time_of a) (time_of b)

  -- Whether the loop of `mergePerField` takes a field from the local side.
  unfoldable pub takes_local : Option Text → Option Text → Text → Text → Bool
  takes_local local_ts server_ts local_editor server_editor =
      if no_time local_ts
      then false
      else if no_time server_ts
      then true
      else wins (compare_timestamps local_ts server_ts) local_editor server_editor

-- `undefined` is the value of a field that an object does not have.
module _ (get_time : Text → Option ℤ) {V : Type 0} (undefined : V) where
  unfoldable pub merge_whole_record :
      (now : Text) (local_payload server_payload : Fields V) (local_ts server_ts : Option Text)
      (local_editor server_editor : Text)
      → Merged V
  merge_whole_record now local_payload server_payload local_ts server_ts local_editor
        server_editor =
      let winner_is_local =
        wins (compare_timestamps get_time local_ts server_ts) local_editor server_editor in
      record {
        merged_payload = if winner_is_local then local_payload else server_payload;
        merged_map = (all_key, get_or (if winner_is_local then local_ts else server_ts) now) ∷ [];
      }

  module _ (local_payload : Fields V) (local_map server_map : Fields Text)
      (local_editor server_editor : Text) where
    -- One round of the loop.
    unfoldable pub merge_field : Text → Merged V → Merged V
    merge_field field m =
        let local_ts = field_get field local_map in
        let server_ts = field_get field server_map in
        if takes_local get_time local_ts server_ts local_editor server_editor
        then record {
          merged_payload =
              field_set field (get_or (field_get field local_payload) undefined) m.merged_payload;
          merged_map = field_set field (get_or local_ts []) m.merged_map;
        }
        else m

    unfoldable pub merge_fields : List Text → Merged V → Merged V
    unfolding merge_field
    merge_fields [] m = m
    merge_fields (field ∷ fields) m = merge_fields fields (merge_field field m)

  unfoldable pub merge_per_field :
      (local_payload server_payload : Fields V) (local_map server_map : Fields Text)
      (local_editor server_editor : Text)
      → Merged V
  unfolding merge_fields
  merge_per_field local_payload server_payload local_map server_map local_editor server_editor =
      merge_fields local_payload local_map server_map local_editor server_editor
        (add_keys (add_keys [] local_map) server_map)
        (record { merged_payload = server_payload; merged_map = server_map })

  unfoldable pub merge_payloads :
      (now : Text) (local_payload server_payload : Fields V) (local_map server_map : Fields Text)
      (local_editor server_editor : Text)
      → Merged V
  unfolding merge_whole_record merge_per_field
  merge_payloads now local_payload server_payload local_map server_map local_editor server_editor =
      if is_some (field_get all_key local_map) || is_some (field_get all_key server_map)
      then merge_whole_record now local_payload server_payload (field_get all_key local_map)
          (field_get all_key server_map) local_editor server_editor
      else merge_per_field local_payload server_payload local_map server_map local_editor
          server_editor
