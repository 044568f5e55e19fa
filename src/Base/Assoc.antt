-- ===== src/Base/Assoc.antt =====
-- Python's `dict` with text keys, in insertion order.
use Prim.Native.String.{String}
use mathlib.Core.Path.{◌≡◌, refl}
use mathlib.Core.List.{List, [], ◌∷◌}
use mathlib.Core.Option.{Option, none, some}
use native.Mathlib.Omega.{arith}
use text.Mathlib.TextEquality.{eq_iff}
use semantic_intent_protocol.Base.Any.{Fields, Value}
use semantic_intent_protocol.Base.Tests.{◌==◌, string_eq, if◌then◌else◌}

abbrev pub Dict {ℓ} : Type ℓ → Type ℓ
Dict V = List (String × V)

-- The pairs of a dict that is a value.
abbrev pub dict_of : Fields → Dict Value
dict_of Fields.end_fields = []
dict_of (Fields.field k v fs) = (k, v) ∷ dict_of fs

module _ {ℓ} {V : Type ℓ} where
  -- `d.get(k)`
  unfoldable pub lookup : String → Dict V → Option V
  lookup k [] = none
  lookup k ((j, v) ∷ d) = if j == k then some v else lookup k d

  -- `d[k] = v`: an old key keeps its place.
  unfoldable pub insert : String → V → Dict V → Dict V
  insert k v [] = (k, v) ∷ []
  insert k v ((j, w) ∷ d) = if j == k then (j, v) ∷ d else (j, w) ∷ insert k v d

  -- `del d[k]`
  unfoldable pub erase : String → Dict V → Dict V
  erase k [] = []
  erase k ((j, w) ∷ d) = if j == k then d else (j, w) ∷ erase k d

  abbrev pub values : Dict V → List V
  values [] = []
  values ((k, v) ∷ d) = v ∷ values d

  abbrev pub NodupKeys : Dict V → Type ℓ
  NodupKeys [] = Unit
  NodupKeys ((k, v) ∷ d) = (lookup k d ≡ none) × NodupKeys d

  pub lookup-insert :
      (k j : String) (v : V) (d : Dict V)
      → lookup j (insert k v d) ≡ (if k == j then some v else lookup j d)
  unfolding lookup insert
  lookup-insert k j v [] = refl
  lookup-insert k j v ((i, w) ∷ d) =
      ground (arith, eq_iff k j, eq_iff i k, eq_iff i j, lookup-insert k j v d)

  pub lookup-erase :
      (k j : String) (d : Dict V)
      → NodupKeys d
      → lookup j (erase k d) ≡ (if k == j then none else lookup j d)
  unfolding lookup erase
  lookup-erase k j [] u = ground arith
  lookup-erase k j ((i, w) ∷ d) u =
      ground (arith, eq_iff k j, eq_iff i k, eq_iff i j, lookup-erase k j d)

  pub insert-NodupKeys : (k : String) (v : V) (d : Dict V) → NodupKeys d → NodupKeys (insert k v d)
  unfolding insert lookup
  insert-NodupKeys k v [] u = (refl, tt)
  insert-NodupKeys k v ((j, w) ∷ d) u =
      ground (arith, eq_iff j k, eq_iff k j, insert-NodupKeys k v d, lookup-insert k j v d)

  pub erase-NodupKeys : (k : String) (d : Dict V) → NodupKeys d → NodupKeys (erase k d)
  unfolding erase lookup
  erase-NodupKeys k [] u = tt
  erase-NodupKeys k ((j, w) ∷ d) u =
      ground (arith, eq_iff j k, eq_iff k j, erase-NodupKeys k d, lookup-erase k j d)
