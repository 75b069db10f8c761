-- ===== src/Shared/Sort.antt =====
-- sort.Strings, and sort.Slice by a string field whose values are distinct, as insertion sort:
-- the order of Go's result is determined where no two keys are equal.
use mathlib.Core.Path.{◌≡◌, refl, ap, ap₂, ◌∙◌}
use mathlib.Core.Logic.{inl, inr, ∥∥₁_elim}
use mathlib.Core.Bool.{◌||◌}
use mathlib.Core.List.{List, [], ◌∷◌, map, Perm, Permᴰ}
use mathlib.Core.HLevel.{hedberg}
use native.Mathlib.Omega.{arith}
use be_mycourse.Shared.Tests.{if◌then◌else◌, Bool-cases}
use be_mycourse.Shared.Texts.{
  Text, Text-discrete, text_eq, text_ltb, text_ltb_irrefl, text_ltb_trans, text_ltb_total, contains,
}

module _ {ℓ} {A : Type ℓ} where
  unfoldable pub insert_by : (A → Text) → A → List A → List A
  insert_by key a [] = a ∷ []
  insert_by key a (x ∷ xs) = if text_ltb (key x) (key a) then x ∷ insert_by key a xs else a ∷ x ∷ xs

  unfoldable pub sort_by : (A → Text) → List A → List A
  unfolding insert_by
  sort_by key [] = []
  sort_by key (x ∷ xs) = insert_by key x (sort_by key xs)

unfoldable pub sort : List Text → List Text
unfolding sort_by
sort xs = sort_by (λ t. t) xs

map-insert_by {ℓ} :
    {A : Type ℓ} (key : A → Text) (a : A) (xs : List A)
    → map key (insert_by key a xs) ≡ insert_by (λ t. t) (key a) (map key xs)
unfolding insert_by
map-insert_by key a [] = refl
map-insert_by key a (x ∷ xs) = elim (Bool-cases (text_ltb (key x) (key a))) [
  | inl e ↦ rw (e, insert_by) (ap (λ t. key x ∷ t) (map-insert_by key a xs))
  | inr e ↦ rw (e, insert_by) refl
]

-- The sorted keys of the records are the keys of the sorted records.
pub map-sort_by {ℓ} :
    {A : Type ℓ} (key : A → Text) (xs : List A) → map key (sort_by key xs) ≡ sort (map key xs)
unfolding sort sort_by
map-sort_by key [] = refl
map-sort_by key (x ∷ xs) =
    map-insert_by key x (sort_by key xs) ∙ ap (insert_by (λ t. t) (key x)) (map-sort_by key xs)

abbrev insert : Text → List Text → List Text
insert = insert_by (λ t. t)

insert_comm : (a b : Text) (xs : List Text) → insert a (insert b xs) ≡ insert b (insert a xs)
unfolding insert_by
insert_comm a b [] = elim (Bool-cases (text_ltb a b)) [
  | inl h ↦ ground (arith, text_ltb_trans a b a, text_ltb_irrefl a)
  | inr h ↦ ground (arith, text_ltb_total a b)
]
insert_comm a b (x ∷ xs) = ground (
  arith,
  insert_comm a b xs,
  text_ltb_trans x a b,
  text_ltb_trans x b a,
  text_ltb_trans a b x,
  text_ltb_trans b a x,
  text_ltb_trans a b a,
  text_ltb_irrefl a,
  text_ltb_total a b,
  text_ltb_total x a,
  text_ltb_total x b,
)

contains-insert :
    (c a : Text) (xs : List Text) → contains c (insert a xs) ≡ (text_eq c a || contains c xs)
unfolding insert_by contains
contains-insert c a [] = refl
contains-insert c a (x ∷ xs) = ground (arith, contains-insert c a xs)

pub contains-sort : (c : Text) (xs : List Text) → contains c (sort xs) ≡ contains c xs
unfolding sort contains
contains-sort c [] = refl
contains-sort c (x ∷ xs) = ground (arith, contains-insert c x (sort xs), contains-sort c xs)

Texts-discrete : Discrete (List Text)
Texts-discrete = hlevel Text-discrete

sort-permᴰ : {xs ys : List Text} → Permᴰ xs ys → sort xs ≡ sort ys
unfolding sort
sort-permᴰ Permᴰ.nil = refl
sort-permᴰ (Permᴰ.cons e p) = ap₂ insert e (sort-permᴰ p)
sort-permᴰ (Permᴰ.swap {a} {b} {l} e k) =
    insert_comm a b (sort l) ∙ ap₂ (λ x y. insert x (insert y (sort l))) k e
sort-permᴰ (Permᴰ.trans p q) = sort-permᴰ p ∙ sort-permᴰ q

-- The order in which the texts come does not show in the sorted list.
pub sort-perm : {xs ys : List Text} → Perm xs ys → sort xs ≡ sort ys
sort-perm p = ∥∥₁_elim p (hedberg Texts-discrete _ _) sort-permᴰ
