-- ===== src/Authorization/Names/Laws.antt =====
-- Which texts `uniqueNonEmpty` keeps, and that a second call changes nothing.
use be_mycourse.Shared.{
  ◌≡◌, refl, sym, ap₂, ◌∙◌, Bool, ◌&&◌, not, List, [], ◌∷◌, map, Text, trim, trim-trim, is_empty,
  contains, sort, insert_by, contains-sort, text_eq→eq, text_eq_refl, arith, IsStrict, IsDistinct,
  sort-IsStrict, IsStrict-ext,
}
use be_mycourse.Shared.Every.{All}
use be_mycourse.Authorization.Names.{unique_from, unique_non_empty}

contains-unique_from :
    (c : Text) (seen vs : List Text)
    → contains c (unique_from seen vs)
      ≡ (not (contains c seen) && (not (is_empty c) && contains c (map trim vs)))
unfolding unique_from contains
contains-unique_from c seen [] = ground arith
contains-unique_from c seen (v ∷ vs) = ground (
  arith,
  contains-unique_from c seen vs,
  contains-unique_from c (trim v ∷ seen) vs,
  text_eq→eq c (trim v),
)

unique_from-IsDistinct : (seen vs : List Text) → IsDistinct (unique_from seen vs)
unfolding unique_from contains
unique_from-IsDistinct seen [] = tt
unique_from-IsDistinct seen (v ∷ vs) = ground (
  arith,
  unique_from-IsDistinct seen vs,
  unique_from-IsDistinct (trim v ∷ seen) vs,
  contains-unique_from (trim v) (trim v ∷ seen) vs,
  text_eq_refl (trim v),
)

abbrev AllTrimmed : List Text → Type 0
AllTrimmed = All (λ t. trim t ≡ t)

unique_from-AllTrimmed : (seen vs : List Text) → AllTrimmed (unique_from seen vs)
unfolding unique_from
unique_from-AllTrimmed seen [] = tt
unique_from-AllTrimmed seen (v ∷ vs) =
    ground (
      arith,
      unique_from-AllTrimmed seen vs,
      unique_from-AllTrimmed (trim v ∷ seen) vs,
      trim-trim v,
    )

insert-AllTrimmed :
    (a : Text) (xs : List Text) → trim a ≡ a → AllTrimmed xs → AllTrimmed (insert_by (λ t. t) a xs)
unfolding insert_by
insert-AllTrimmed a [] h k = (h, tt)
insert-AllTrimmed a (x ∷ xs) h k = ground (arith, insert-AllTrimmed a xs h k.1)

sort-AllTrimmed : (xs : List Text) → AllTrimmed xs → AllTrimmed (sort xs)
unfolding sort
sort-AllTrimmed [] h = tt
sort-AllTrimmed (x ∷ xs) h = insert-AllTrimmed x (sort xs) h.0 (sort-AllTrimmed xs h.1)

map-trim-AllTrimmed : (xs : List Text) → AllTrimmed xs → map trim xs ≡ xs
map-trim-AllTrimmed [] h = refl
map-trim-AllTrimmed (x ∷ xs) h = ap₂ ◌∷◌ h.0 (map-trim-AllTrimmed xs h.1)

-- A text is in the result exactly when it is not empty and is a trimmed input.
pub contains-unique_non_empty :
    (c : Text) (vs : List Text)
    → contains c (unique_non_empty vs) ≡ (not (is_empty c) && contains c (map trim vs))
unfolding unique_non_empty contains
contains-unique_non_empty c vs =
    ground (arith, contains-sort c (unique_from [] vs), contains-unique_from c [] vs)

-- The result ascends strictly: nothing occurs twice.
pub unique_non_empty-IsStrict : (vs : List Text) → IsStrict (unique_non_empty vs)
unfolding unique_non_empty
unique_non_empty-IsStrict vs = sort-IsStrict (unique_from [] vs) (unique_from-IsDistinct [] vs)

pub unique_non_empty-trimmed :
    (vs : List Text) → map trim (unique_non_empty vs) ≡ unique_non_empty vs
unfolding unique_non_empty
unique_non_empty-trimmed vs =
    map-trim-AllTrimmed _ (sort-AllTrimmed (unique_from [] vs) (unique_from-AllTrimmed [] vs))

-- Two inputs with the same trimmed, non-empty members give the same list.
pub unique_non_empty-ext :
    (vs ws : List Text)
    → ((c : Text)
        → (not (is_empty c) && contains c (map trim vs))
          ≡ (not (is_empty c) && contains c (map trim ws)))
    → unique_non_empty vs ≡ unique_non_empty ws
unique_non_empty-ext vs ws h =
    IsStrict-ext (unique_non_empty vs) (unique_non_empty ws) (unique_non_empty-IsStrict vs)
      (unique_non_empty-IsStrict ws)
      (λ c. contains-unique_non_empty c vs ∙ h c ∙ sym (contains-unique_non_empty c ws))

-- Doing it twice is doing it once.
pub unique_non_empty_idem :
    (vs : List Text) → unique_non_empty (unique_non_empty vs) ≡ unique_non_empty vs
unique_non_empty_idem vs = unique_non_empty-ext (unique_non_empty vs) vs same
  where
    twice : (a b : Bool) → (not a && (not a && b)) ≡ (not a && b)
    twice a b = ground arith

    same :
        (c : Text)
        → (not (is_empty c) && contains c (map trim (unique_non_empty vs)))
          ≡ (not (is_empty c) && contains c (map trim vs))
    same c =
        rw (unique_non_empty-trimmed vs, contains-unique_non_empty c vs)
          (twice (is_empty c) (contains c (map trim vs)))

pub unique_non_empty-All : (vs : List Text) → All (λ t. trim t ≡ t) (unique_non_empty vs)
unfolding unique_non_empty
unique_non_empty-All vs = sort-AllTrimmed (unique_from [] vs) (unique_from-AllTrimmed [] vs)
