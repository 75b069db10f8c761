-- ===== src/Shared/Every.antt =====
-- A predicate at every element of a list, and what a lookup gets of it.
use mathlib.Core.Path.{◌≡◌, refl}
use mathlib.Core.Bool.{Bool, true, false}
use mathlib.Core.Option.{some}
use mathlib.Core.Logic.{inl, inr}
use mathlib.Core.List.{List, [], ◌∷◌, ◌++◌, map}
use native.Mathlib.Omega.{arith}
use be_mycourse.Shared.Tests.{Bool-cases}
use be_mycourse.Shared.Texts.{Text, text_eq, text_eq→eq, text_eq_refl, contains}
use be_mycourse.Shared.Map.{lookup}
use be_mycourse.Shared.Lists.{any}

module _ {ℓ κ} {A : Type ℓ} where
  abbrev pub All : (A → Type κ) → List A → Type κ
  All P [] = Unit
  All P (x ∷ xs) = P x × All P xs

  pub All-append : (P : A → Type κ) (xs ys : List A) → All P xs → All P ys → All P (xs ++ ys)
  All-append P [] ys h k = k
  All-append P (x ∷ xs) ys h k = (h.0, All-append P xs ys h.1 k)

  pub All-mono : (P Q : A → Type κ) → ((x : A) → P x → Q x) → (xs : List A) → All P xs → All Q xs
  All-mono P Q f [] h = tt
  All-mono P Q f (x ∷ xs) h = (f x h.0, All-mono P Q f xs h.1)

module _ {ℓ κ} {V : Type ℓ} where
  -- The entry that a lookup finds is one of the map's.
  pub lookup-All :
      (P : Text × V → Type κ) (k : Text) (m : List (Text × V)) {v : V}
      → All P m
      → lookup k m ≡ some v
      → P (k, v)
  unfolding lookup
  lookup-All P k [] h e = cc
  lookup-All P k ((j, w) ∷ m) {v} h e = elim (Bool-cases (text_eq k j)) [
    | inl same ↦
        let key : k ≡ j = text_eq→eq k j same in
        let value : w ≡ v = ground arith in rw (key, ← value) h.0
    | inr other ↦ lookup-All P k m h.1 (ground arith)
  ]

-- What holds of every text of a list holds of each that it contains.
pub contains-All {κ} :
    (P : Text → Type κ) (a : Text) (xs : List Text) → All P xs → contains a xs ≡ true → P a
unfolding contains
contains-All P a [] h k = cc
contains-All P a (x ∷ xs) h k = elim (Bool-cases (text_eq a x)) [
  | inl same ↦ rw (text_eq→eq a x same) h.0
  | inr other ↦ contains-All P a xs h.1 (ground arith)
]

-- Every element's key is among the keys.
pub keys-All {ℓ} :
    {A : Type ℓ} (key : A → Text) (xs : List A) → All (λ x. contains (key x) (map key xs) ≡ true) xs
unfolding contains
keys-All key [] = tt
keys-All key (x ∷ xs) = (
  ground (arith, text_eq_refl (key x)),
  All-mono (λ y. contains (key y) (map key xs) ≡ true)
      (λ y. contains (key y) (map key (x ∷ xs)) ≡ true) (λ y h. ground arith) xs (keys-All key xs),
)

-- Each member of a list is among them.
pub All-contains : (ts : List Text) → All (λ t. contains t ts ≡ true) ts
unfolding contains
All-contains [] = tt
All-contains (t ∷ ts) = (
  ground (arith, text_eq_refl t),
  All-mono (λ u. contains u ts ≡ true) (λ u. contains u (t ∷ ts) ≡ true) (λ u h. ground arith) ts
      (All-contains ts),
)

module _ {ℓ} {A : Type ℓ} where
  pub any-none : (p : A → Bool) (xs : List A) → All (λ x. p x ≡ false) xs → any p xs ≡ false
  unfolding any
  any-none p [] h = refl
  any-none p (x ∷ xs) h = ground (arith, h.0, any-none p xs h.1)

  pub any-ext : (p q : A → Bool) (xs : List A) → All (λ x. p x ≡ q x) xs → any p xs ≡ any q xs
  unfolding any
  any-ext p q [] h = refl
  any-ext p q (x ∷ xs) h = ground (arith, h.0, any-ext p q xs h.1)

module _ {ℓ κ υ} {A : Type ℓ} where
  pub All-zip :
      (P : A → Type κ) (Q : A → Type υ) (xs : List A)
      → All P xs
      → All Q xs
      → All (λ x. P x × Q x) xs
  All-zip P Q [] h k = tt
  All-zip P Q (x ∷ xs) h k = ((h.0, k.0), All-zip P Q xs h.1 k.1)
