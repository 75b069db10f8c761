-- ===== src/Shared/Map.antt =====
-- Go maps with string keys, as association lists. Writing a key that is there replaces its value
-- in place; a missing key is appended.
use mathlib.Core.Path.{◌≡◌, refl}
use mathlib.Core.Bool.{Bool, true, false}
use mathlib.Core.Option.{Option, none, some}
use mathlib.Core.List.{List, [], ◌∷◌}
use native.Mathlib.Omega.{arith}
use be_mycourse.Shared.Tests.{if◌then◌else◌}
use be_mycourse.Shared.Texts.{Text, text_eq, text_eq_iff, contains}

abbrev pub is_some {ℓ} : {A : Type ℓ} → Option A → Bool
is_some none = false
is_some (some a) = true

module _ {ℓ} {V : Type ℓ} where
  unfoldable pub lookup : Text → List (Text × V) → Option V
  lookup k [] = none
  lookup k ((j, v) ∷ m) = if text_eq k j then some v else lookup k m

  unfoldable pub insert : Text → V → List (Text × V) → List (Text × V)
  insert k v [] = (k, v) ∷ []
  insert k v ((j, w) ∷ m) = if text_eq k j then (j, v) ∷ m else (j, w) ∷ insert k v m

  pub lookup-insert :
      (k j : Text) (v : V) (m : List (Text × V))
      → lookup j (insert k v m) ≡ (if text_eq j k then some v else lookup j m)
  unfolding lookup insert
  lookup-insert k j v [] = refl
  lookup-insert k j v ((i, w) ∷ m) =
      ground (arith, text_eq_iff k i, text_eq_iff j i, text_eq_iff j k, lookup-insert k j v m)

  -- The keys, in order.
  abbrev pub keys : List (Text × V) → List Text
  keys [] = []
  keys ((k, v) ∷ m) = k ∷ keys m

  pub contains-keys : (k : Text) (m : List (Text × V)) → contains k (keys m) ≡ is_some (lookup k m)
  unfolding lookup contains
  contains-keys k [] = refl
  contains-keys k ((j, v) ∷ m) = ground (arith, contains-keys k m)

-- `m[k]` for a map of slices: nil for a missing key.
module _ {ℓ} {A : Type ℓ} where
  unfoldable pub get : List (Text × List A) → Text → List A
  unfolding lookup
  get m k = elim (lookup k m) [ none ↦ [] | some l ↦ l ]

  pub get-insert :
      (k j : Text) (v : List A) (m : List (Text × List A))
      → get (insert k v m) j ≡ (if text_eq j k then v else get m j)
  unfolding get
  get-insert k j v m = ground (arith, lookup-insert k j v m)
