-- ===== src/Shared/Perms.antt =====
-- Lists up to the order of their elements: `keep`, `any` and sorting.
use mathlib.Core.Path.{◌≡◌, refl}
use mathlib.Core.Logic.{inl, inr, ∥∥₁_map}
use mathlib.Core.Bool.{Bool, true, false}
use mathlib.Core.List.{List, [], ◌∷◌, Perm, Permᴰ}
use mathlib.Core.List.Perm
use mathlib.Core.List.Permᴰ
use native.Mathlib.Omega.{arith}
use be_mycourse.Shared.Tests.{Bool-cases}
use be_mycourse.Shared.Texts.{Text, text_ltb}
use be_mycourse.Shared.Lists.{keep, is_empty}
use be_mycourse.Shared.Every.{All}
use be_mycourse.Shared.Sort.{sort, sort_by, insert_by}

module _ {ℓ} {A : Type ℓ} where
  keep-permᴰ : (p : A → Bool) {xs ys : List A} → Permᴰ xs ys → Permᴰ (keep p xs) (keep p ys)
  unfolding keep
  keep-permᴰ p Permᴰ.nil = Permᴰ.nil
  keep-permᴰ p (Permᴰ.cons {a} {b} e r) = elim (Bool-cases (p b)) [
    | inl t ↦ rw (e, t) (Permᴰ.cons refl (keep-permᴰ p r))
    | inr f ↦ rw (e, f) (keep-permᴰ p r)
  ]
  keep-permᴰ p (Permᴰ.swap {a} {b} {a'} {b'} {l} e k) = rw (e, k) (both (p a') (p b') refl refl)
    where
      both :
          (s t : Bool) → p a' ≡ s → p b' ≡ t → Permᴰ (keep p (b' ∷ a' ∷ l)) (keep p (a' ∷ b' ∷ l))
      both true true h g = rw (h, g) (Permᴰ.swap refl refl)
      both true false h g = rw (h, g) (Permᴰ.refl _)
      both false true h g = rw (h, g) (Permᴰ.refl _)
      both false false h g = rw (h, g) (Permᴰ.refl _)
  keep-permᴰ p (Permᴰ.trans q r) = Permᴰ.trans (keep-permᴰ p q) (keep-permᴰ p r)

  pub keep-perm : (p : A → Bool) {xs ys : List A} → Perm xs ys → Perm (keep p xs) (keep p ys)
  keep-perm p r = ∥∥₁_map r (keep-permᴰ p)

  insert_by-perm : (key : A → Text) (a : A) (xs : List A) → Perm (insert_by key a xs) (a ∷ xs)
  unfolding insert_by
  insert_by-perm key a [] = Perm.rfl
  insert_by-perm key a (x ∷ xs) = elim (Bool-cases (text_ltb (key x) (key a))) [
    | inl t ↦
        rw (t, insert_by) (Perm.trans (Perm.cons x (insert_by-perm key a xs)) (Perm.swap a x xs))
    | inr f ↦ rw (f, insert_by) Perm.rfl
  ]

  pub sort_by-perm : (key : A → Text) (xs : List A) → Perm (sort_by key xs) xs
  unfolding sort_by
  sort_by-perm key [] = Perm.rfl
  sort_by-perm key (x ∷ xs) =
      Perm.trans (insert_by-perm key x (sort_by key xs)) (Perm.cons x (sort_by-perm key xs))

-- Sorting leaves no text out.
pub is_empty-sort : (xs : List Text) → is_empty (sort xs) ≡ is_empty xs
unfolding sort
is_empty-sort [] = refl
is_empty-sort (x ∷ xs) = is_empty-insert x (sort xs)
  where
    is_empty-insert : (a : Text) (l : List Text) → is_empty (insert_by (λ t. t) a l) ≡ false
    is_empty-insert a [] = refl
    is_empty-insert a (y ∷ l) = ground arith

module _ {ℓ κ} {A : Type ℓ} (P : A → Type κ) where
  All-insert_by :
      (key : A → Text) (a : A) (xs : List A) → P a → All P xs → All P (insert_by key a xs)
  unfolding insert_by
  All-insert_by key a [] h k = (h, tt)
  All-insert_by key a (x ∷ xs) h k = elim (Bool-cases (text_ltb (key x) (key a))) [
    | inl t ↦ rw (t, insert_by) (k.0, All-insert_by key a xs h k.1)
    | inr t ↦ rw (t, insert_by) (h, k)
  ]

  pub All-sort_by : (key : A → Text) (xs : List A) → All P xs → All P (sort_by key xs)
  unfolding sort_by
  All-sort_by key [] h = tt
  All-sort_by key (x ∷ xs) h = All-insert_by key x (sort_by key xs) h.0 (All-sort_by key xs h.1)

  -- What passes the test has the property that the test gives.
  pub All-keep : (p : A → Bool) → ((x : A) → p x ≡ true → P x) → (xs : List A) → All P (keep p xs)
  unfolding keep
  All-keep p f [] = tt
  All-keep p f (x ∷ xs) = elim (Bool-cases (p x)) [
    | inl t ↦ rw (t, keep) (f x t, All-keep p f xs)
    | inr t ↦ rw (t, keep) (All-keep p f xs)
  ]
