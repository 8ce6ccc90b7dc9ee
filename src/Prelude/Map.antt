-- ===== src/Prelude/Map.antt =====
-- `HashMap<String, V>` of the standard library, as an association list. The order of iteration of a
-- `HashMap` is not specified; here it is that of the list.
use Prim.Native.String.{String}
use mathlib.Core.Path.{◌≡◌, refl}
use mathlib.Core.Logic.{◌≢◌}
use mathlib.Core.Bool.{Bool}
use mathlib.Core.Logic.{inl, inr}
use mathlib.Core.Option.{Option, none, some}
use mathlib.Core.List.{List, [], ◌∷◌}
use native.Mathlib.Omega.{arith}
use text.Mathlib.Text.{◌==◌}
use text.Mathlib.TextEquality.{eq_iff}
use package.kalatori_backend.Prelude.Tests.{if◌then◌else◌, is_some, Bool-cases}

abbrev pub Map {ℓ} : Type ℓ → Type ℓ
Map V = List (String × V)

module _ {ℓ} {V : Type ℓ} where
  unfoldable pub get : String → Map V → Option V
  get k [] = none
  get k ((j, v) ∷ m) = if j == k then some v else get k m

  unfoldable pub insert : String → V → Map V → Map V
  insert k v [] = (k, v) ∷ []
  insert k v ((j, w) ∷ m) = if j == k then (j, v) ∷ m else (j, w) ∷ insert k v m

  unfoldable pub remove : String → Map V → Map V
  remove k [] = []
  remove k ((j, v) ∷ m) = if j == k then remove k m else (j, v) ∷ remove k m

  unfoldable pub contains_key : String → Map V → Bool
  contains_key k m = is_some (get k m)

  -- `HashMap::extend`: later entries replace earlier ones
  unfoldable pub extend : Map V → Map V → Map V
  unfolding insert
  extend m [] = m
  extend m ((k, v) ∷ n) = extend (insert k v m) n

  -- `HashMap::retain`
  unfoldable pub retain : (String → V → Bool) → Map V → Map V
  retain p [] = []
  retain p ((k, v) ∷ m) = if p k v then (k, v) ∷ retain p m else retain p m

  pub get-insert :
      (k j : String) (v : V) (m : Map V)
      → get j (insert k v m) ≡ (if k == j then some v else get j m)
  unfolding get insert
  get-insert k j v [] = refl
  get-insert k j v ((i, w) ∷ m) =
      ground (arith, eq_iff k j, eq_iff i k, eq_iff i j, get-insert k j v m)

  pub get-remove :
      (k j : String) (m : Map V) → get j (remove k m) ≡ (if k == j then none else get j m)
  unfolding get remove
  get-remove k j [] = ground arith
  get-remove k j ((i, w) ∷ m) = ground (arith, eq_iff k j, eq_iff i k, eq_iff i j, get-remove k j m)

  pub get-insert_self : (k : String) (v : V) (m : Map V) → get k (insert k v m) ≡ some v
  get-insert_self k v m = ground (arith, get-insert k k v m, eq_iff k k)

  pub get-insert_ne : (k j : String) (v : V) (m : Map V) → k ≢ j → get j (insert k v m) ≡ get j m
  get-insert_ne k j v m h = ground (arith, get-insert k j v m, eq_iff k j)

  -- the keys of a `HashMap` are distinct
  unfoldable pub Distinct : Map V → Type ℓ
  Distinct [] = Unit
  Distinct ((k, v) ∷ m) = (get k m ≡ none) × Distinct m

  pub insert-Distinct : (k : String) (v : V) (m : Map V) → Distinct m → Distinct (insert k v m)
  unfolding insert Distinct get
  insert-Distinct k v [] d = (refl, tt)
  insert-Distinct k v ((j, w) ∷ m) (apart, d) =
      let rest = insert-Distinct k v m d in
      elim (Bool-cases (j == k)) [
        | inl same ↦ rw same (apart, d)
        | inr other ↦
            rw other (ground (arith, get-insert k j v m, eq_iff j k, eq_iff k j, apart), rest)
      ]

  pub remove-Distinct : (k : String) (m : Map V) → Distinct m → Distinct (remove k m)
  unfolding remove Distinct
  remove-Distinct k [] d = tt
  remove-Distinct k ((j, w) ∷ m) (apart, d) =
      let rest = remove-Distinct k m d in
      elim (Bool-cases (j == k)) [
        | inl same ↦ rw same rest
        | inr other ↦ rw other (ground (arith, get-remove k j m, apart), rest)
      ]
