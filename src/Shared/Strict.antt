-- ===== src/Shared/Strict.antt =====
-- Strictly ascending lists of texts: what sort.Strings leaves of distinct strings. Such a list is
-- determined by its elements.
use mathlib.Core.Path.{◌≡◌, refl, ap₂, ◌∙◌}
use mathlib.Core.Bool.{true, false}
use mathlib.Core.List.{List, [], ◌∷◌}
use native.Mathlib.Omega.{arith}
use be_mycourse.Shared.Texts.{
  Text, text_eq→eq, eq→text_eq, text_eq_refl, text_ltb, text_ltb_irrefl, text_ltb_trans,
  text_ltb_total, contains,
}
use be_mycourse.Shared.Sort.{sort, insert_by, contains-sort}

abbrev pub Above : Text → List Text → Type 0
Above a [] = Unit {0}
Above a (x ∷ xs) = (text_ltb a x ≡ true) × Above a xs

abbrev pub IsStrict : List Text → Type 0
IsStrict [] = Unit {0}
IsStrict (x ∷ xs) = Above x xs × IsStrict xs

abbrev pub IsDistinct : List Text → Type 0
IsDistinct [] = Unit {0}
IsDistinct (x ∷ xs) = (contains x xs ≡ false) × IsDistinct xs

Above-trans : (a b : Text) (xs : List Text) → text_ltb a b ≡ true → Above b xs → Above a xs
Above-trans a b [] h k = tt
Above-trans a b (x ∷ xs) h k = (text_ltb_trans a b x h k.0, Above-trans a b xs h k.1)

pub Above-contains : (a : Text) (xs : List Text) → Above a xs → contains a xs ≡ false
unfolding contains
Above-contains a [] h = refl
Above-contains a (x ∷ xs) h =
    ground (arith, Above-contains a xs h.1, text_eq→eq a x, text_ltb_irrefl a)

contains-Above :
    (a b : Text) (xs : List Text) → Above a xs → contains b xs ≡ true → text_ltb a b ≡ true
unfolding contains
contains-Above a b [] h k = cc
contains-Above a b (x ∷ xs) h k = ground (arith, contains-Above a b xs h.1, text_eq→eq b x)

insert-Above :
    (a b : Text) (xs : List Text)
    → text_ltb a b ≡ true
    → Above a xs
    → Above a (insert_by (λ t. t) b xs)
unfolding insert_by
insert-Above a b [] h k = (h, tt)
insert-Above a b (x ∷ xs) h k = ground (arith, insert-Above a b xs h k.1)

insert-IsStrict :
    (a : Text) (xs : List Text)
    → contains a xs ≡ false
    → IsStrict xs
    → IsStrict (insert_by (λ t. t) a xs)
unfolding insert_by contains
insert-IsStrict a [] h k = (tt, tt)
insert-IsStrict a (x ∷ xs) h k = ground (
  arith,
  insert-IsStrict a xs,
  insert-Above x a xs,
  text_ltb_total x a,
  eq→text_eq a x,
  Above-trans a x xs,
)

pub sort-IsStrict : (xs : List Text) → IsDistinct xs → IsStrict (sort xs)
unfolding sort
sort-IsStrict [] h = tt
sort-IsStrict (x ∷ xs) h =
    insert-IsStrict x (sort xs) (contains-sort x xs ∙ h.0) (sort-IsStrict xs h.1)

pub IsStrict-ext :
    (xs ys : List Text)
    → IsStrict xs
    → IsStrict ys
    → ((a : Text) → contains a xs ≡ contains a ys)
    → xs ≡ ys
unfolding contains
IsStrict-ext [] [] h k e = refl
IsStrict-ext [] (y ∷ ys) h k e = ground (arith, e y, text_eq_refl y)
IsStrict-ext (x ∷ xs) [] h k e = ground (arith, e x, text_eq_refl x)
IsStrict-ext (x ∷ xs) (y ∷ ys) h k e = ap₂ ◌∷◌ heads (IsStrict-ext xs ys h.1 k.1 tails)
  where
    heads : x ≡ y
    heads = ground (
      arith,
      e x,
      e y,
      text_eq_refl x,
      text_eq_refl y,
      text_eq→eq x y,
      eq→text_eq x y,
      text_eq→eq y x,
      contains-Above x y xs h.0,
      contains-Above y x ys k.0,
      text_ltb_trans x y x,
      text_ltb_irrefl x,
    )

    tails : (a : Text) → contains a xs ≡ contains a ys
    tails a = ground (
      arith,
      e a,
      heads,
      text_eq→eq a x,
      text_eq→eq a y,
      eq→text_eq a x,
      Above-contains x xs h.0,
      Above-contains y ys k.0,
    )
