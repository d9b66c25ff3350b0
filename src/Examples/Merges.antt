-- ===== src/Examples/Merges.antt =====
-- The theorems on the merge and on identities, at concrete inputs.
use expensesapp.Prelude.{ℕ, ◌≡◌, ◌⊎◌, none, some, Option, refl, [], ◌∷◌}
use expensesapp.Prelude.Int.{ℤ, pos}
use expensesapp.Prelude.Text.{Text, text, text_eq}
use expensesapp.Prelude.Fields.{Fields, field_get}
use expensesapp.Sync.Merge.{merge_payloads, merge_per_field, all_key, compare_timestamps}
use expensesapp.Sync.Merge.Convergence.{merge_payloads-converges}
use expensesapp.Sync.Merge.Fresher.{IsFresher, merge_per_field-get}
use expensesapp.Sync.Identity.{
  get_or_create_mapping_for_push, get_mapping_by_local_id, update_last_server_version,
}
use expensesapp.Sync.Identity.Stable.{get_or_create-again, unpushed, versioned}
use expensesapp.Sync.Records.{RecordType, RecordMapping}
use expensesapp.Examples.Tables.{sync_dexie}
use expensesapp.Examples.Books.{synced, mapping}

-- A clock that reads the first code unit.
abbrev first_unit : Text → Option ℤ
first_unit [] = none
first_unit (c ∷ s) = some (pos c)

abbrev local : Fields ℕ
local = (text "amount", 5) ∷ []

abbrev server : Fields ℕ
server = (text "amount", 7) ∷ []

abbrev stamp : Text → Text → Fields Text
stamp key s = (key, s) ∷ []

merge_payloads-converges_example :
    merge_payloads first_unit 0
      (text "m")
      server
      local
      (stamp all_key (text "2"))
      (stamp all_key (text "1"))
      (text "v")
      (text "u")
    ≡ merge_payloads first_unit 0
        (text "n")
        local
        server
        (stamp all_key (text "1"))
        (stamp all_key (text "2"))
        (text "u")
        (text "v")
unfolding field_get compare_timestamps text_eq
merge_payloads-converges_example =
    merge_payloads-converges first_unit 0 (text "n") (text "m") local server
      (stamp all_key (text "1")) (stamp all_key (text "2")) (text "u") (text "v") refl refl
      (λ h. cc)

merge_per_field-get_example :
    (IsFresher first_unit (some (text "2")) (some (text "1")) (text "u") (text "v")
      × (field_get
            (text "amount")
            (merge_per_field first_unit 0 local server
              (stamp (text "amount") (text "2"))
              (stamp (text "amount") (text "1"))
              (text "u")
              (text "v")).merged_payload
          ≡ some 5))
    ⊎ ((IsFresher first_unit (some (text "2")) (some (text "1")) (text "u") (text "v") → ⊥)
        × (field_get
              (text "amount")
              (merge_per_field first_unit 0 local server
                (stamp (text "amount") (text "2"))
                (stamp (text "amount") (text "1"))
                (text "u")
                (text "v")).merged_payload
            ≡ some 7))
unfolding field_get text_eq
merge_per_field-get_example =
    merge_per_field-get first_unit 0 local server (stamp (text "amount") (text "2"))
      (stamp (text "amount") (text "1")) (text "u") (text "v") (text "amount")

-- The server's version is stored between the two pushes.
get_or_create-again_example :
    (m' : RecordMapping) × (get_or_create_mapping_for_push sync_dexie RecordType.transaction
        (text "1")
        (text "c")
        (text "w")
        (update_last_server_version sync_dexie RecordType.transaction (text "1") 4 synced)
      ≡ some (m', update_last_server_version sync_dexie RecordType.transaction (text "1") 4 synced))
    × (m'.uuid ≡ mapping.uuid)
    × (m'.creator_user_id ≡ mapping.creator_user_id)
unfolding get_or_create_mapping_for_push get_mapping_by_local_id text_eq
get_or_create-again_example =
    get_or_create-again sync_dexie RecordType.transaction (text "1") (text "b") (text "v")
      (text "c") (text "w") synced synced
      (update_last_server_version sync_dexie RecordType.transaction (text "1") 4 synced) mapping
      refl (versioned RecordType.transaction (text "1") 4 (unpushed synced))
