-- ===== src/Shared/Some.antt =====
-- A predicate at some element of a list, and what holds of the elements that are kept or mapped.
use mathlib.Core.Path.{◌≡◌}
use mathlib.Core.Bool.{Bool, true, not}
use mathlib.Core.Logic.{◌⊎◌, inl, inr}
use mathlib.Core.List.{List, [], ◌∷◌, map}
use be_mycourse.Shared.Tests.{Bool-cases}
use be_mycourse.Shared.Lists.{keep, is_empty}
use be_mycourse.Shared.Every.{All}

abbrev pub Some : {A : Type 0} → (A → Type 0) → List A → Type 0
Some P [] = ⊥
Some P (x ∷ xs) = P x ⊎ Some P xs

pub kept-All :
    {A : Type 0} (P : A → Type 0) (p : A → Bool) (xs : List A)
    → All P (keep p xs)
    → All (λ x. p x ≡ true → P x) xs
unfolding keep
kept-All P p [] h = tt
kept-All P p (x ∷ xs) h = elim (Bool-cases (p x)) [
  | inl t ↦ let r = rw (t, keep) at h in (λ e. r.0, kept-All P p xs (r.1))
  | inr f ↦ (λ e. absurd cc, kept-All P p xs (rw (f, keep) at h))
]

module _ {A : Type 0} where
  pub Some-mono : (P Q : A → Type 0) → ((x : A) → P x → Q x) → (xs : List A) → Some P xs → Some Q xs
  Some-mono P Q f [] h = absurd h
  Some-mono P Q f (x ∷ xs) (inl h) = inl (f x h)
  Some-mono P Q f (x ∷ xs) (inr h) = inr (Some-mono P Q f xs h)

  pub Some-All :
      (P Q : A → Type 0) (xs : List A)
      → Some P xs
      → All (λ x. P x → Q x) xs
      → Some (λ x. P x × Q x) xs
  Some-All P Q [] h a = absurd h
  Some-All P Q (x ∷ xs) (inl h) a = inl (h, a.0 h)
  Some-All P Q (x ∷ xs) (inr h) a = inr (Some-All P Q xs h a.1)

  pub is_empty-keep-Some :
      (p : A → Bool) (xs : List A) → not (is_empty (keep p xs)) ≡ true → Some (λ x. p x ≡ true) xs
  unfolding keep
  is_empty-keep-Some p [] h = absurd cc
  is_empty-keep-Some p (x ∷ xs) h = elim (Bool-cases (p x)) [
    | inl t ↦ inl t
    | inr f ↦ inr (is_empty-keep-Some p xs (rw (f, keep) at h))
  ]

  pub keep-Some :
      (P : A → Type 0) (p : A → Bool) (xs : List A)
      → Some P (keep p xs)
      → Some (λ x. (p x ≡ true) × P x) xs
  unfolding keep
  keep-Some P p [] h = absurd h
  keep-Some P p (x ∷ xs) h = elim (Bool-cases (p x)) [
    | inl t ↦ elim (rw (t, keep) at h) [ inl k ↦ inl (t, k) | inr k ↦ inr (keep-Some P p xs k) ]
    | inr f ↦ inr (keep-Some P p xs (rw (f, keep) at h))
  ]

pub map-Some :
    {A B : Type 0} (P : B → Type 0) (f : A → B) (xs : List A)
    → Some P (map f xs)
    → Some (λ x. P (f x)) xs
map-Some P f [] h = absurd h
map-Some P f (x ∷ xs) (inl h) = inl h
map-Some P f (x ∷ xs) (inr h) = inr (map-Some P f xs h)

pub map-All :
    {A B : Type 0} (P : B → Type 0) (f : A → B) (xs : List A)
    → All P (map f xs)
    → All (λ x. P (f x)) xs
map-All P f [] h = tt
map-All P f (x ∷ xs) h = (h.0, map-All P f xs h.1)
