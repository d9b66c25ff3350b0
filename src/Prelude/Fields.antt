-- ===== src/Prelude/Fields.antt =====
-- A plain JavaScript object as the list of its fields: `o[key]`, `key in o`, `{ ...o, [key]: v }`.
use expensesapp.Prelude.Tests.{if◌then◌else◌}
use expensesapp.Prelude.Text.{Text, text_eq, text_eq_iff}
use mathlib.Core.List.{List, [], ◌∷◌}
use mathlib.Core.Option.{Option, none, some}
use mathlib.Core.Path.{◌≡◌}
use native.Mathlib.Omega.{arith}

abbrev pub Fields : Type 0 → Type 0
Fields V = List (Text × V)

module _ {V : Type 0} where
  unfoldable pub field_get : Text → Fields V → Option V
  field_get k [] = none
  field_get k ((j, v) ∷ o) = if text_eq k j then some v else field_get k o

  unfoldable pub field_set : Text → V → Fields V → Fields V
  field_set k v [] = (k, v) ∷ []
  field_set k v ((j, w) ∷ o) = if text_eq k j then (k, v) ∷ o else (j, w) ∷ field_set k v o

  -- `delete o[key]`
  unfoldable pub field_delete : Text → Fields V → Fields V
  field_delete k [] = []
  field_delete k ((j, v) ∷ o) = if text_eq k j then field_delete k o else (j, v) ∷ field_delete k o

  pub field_get-delete :
      (i k : Text) (o : Fields V)
      → field_get i (field_delete k o) ≡ (if text_eq i k then none else field_get i o)
  unfolding field_get field_delete
  field_get-delete i k [] = ground arith
  field_get-delete i k ((j, w) ∷ o) =
      ground (arith, text_eq_iff i k, text_eq_iff k j, text_eq_iff i j, field_get-delete i k o)

  pub field_get-set :
      (i k : Text) (v : V) (o : Fields V)
      → field_get i (field_set k v o) ≡ (if text_eq i k then some v else field_get i o)
  unfolding field_get field_set
  field_get-set i k v [] = ground arith
  field_get-set i k v ((j, w) ∷ o) =
      ground (arith, text_eq_iff i k, text_eq_iff k j, text_eq_iff i j, field_get-set i k v o)
