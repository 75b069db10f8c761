-- ===== src/Course/Rows/Lookup.antt =====
-- What a SELECT finds after an INSERT or an UPDATE.
use be_mycourse.Shared.{
  ◌≡◌, refl, inl, inr, Bool, true, false, Option, none, some, List, [], ◌∷◌, ◌++◌, Text, text_eq,
  text_eq→eq, text_eq_refl, contains, map, if◌then◌else◌, Bool-cases, ok, arith,
}
use be_mycourse.Shared.Every.{All}
use be_mycourse.Course.Rows.{first_row, update_where, create}

module _ {A : Type 0} where
  abbrev pub updated : (A → Bool) → (A → A) → A → A
  updated p f x = if p x then f x else x

  abbrev pub map_option : (A → A) → Option A → Option A
  map_option f none = none
  map_option f (some a) = some (f a)

  pub first_row-passes : (q : A → Bool) (xs : List A) {a : A} → first_row q xs ≡ some a → q a ≡ true
  unfolding first_row
  first_row-passes q [] h = cc
  first_row-passes q (x ∷ xs) {a} h = elim (Bool-cases (q x)) [
    | inl t ↦ let same : x ≡ a = ground arith in rw (← same) t
    | inr t ↦ first_row-passes q xs (ground arith)
  ]

  pub first_row-All {κ} :
      (P : A → Type κ) (q : A → Bool) (xs : List A) {a : A}
      → All P xs
      → first_row q xs ≡ some a
      → P a
  unfolding first_row
  first_row-All P q [] h e = cc
  first_row-All P q (x ∷ xs) {a} h e = elim (Bool-cases (q x)) [
    | inl t ↦ let same : x ≡ a = ground arith in rw (← same) h.0
    | inr t ↦ first_row-All P q xs h.1 (ground arith)
  ]

  -- An update that the test does not show changes the row that is found, if that.
  pub first_row-update_where :
      (q p : A → Bool) (f : A → A)
      → ((x : A) → q (updated p f x) ≡ q x)
      → (xs : List A)
      → first_row q (update_where p f xs) ≡ map_option (updated p f) (first_row q xs)
  unfolding first_row update_where
  first_row-update_where q p f h [] = refl
  first_row-update_where q p f h (x ∷ xs) = elim (Bool-cases (q x)) [
    | inl t ↦ rw (h x, t) refl
    | inr t ↦ rw (h x, t) (first_row-update_where q p f h xs)
  ]

  pub first_row-append :
      (q : A → Bool) (xs ys : List A) {a : A}
      → first_row q xs ≡ some a
      → first_row q (xs ++ ys) ≡ some a
  unfolding first_row
  first_row-append q [] ys h = cc
  first_row-append q (x ∷ xs) ys {a} h = elim (Bool-cases (q x)) [
    | inl t ↦ ground arith
    | inr t ↦ ground (arith, first_row-append q xs ys {a = a})
  ]

  -- A row whose id is new is the one that is found by it.
  pub first_row-fresh :
      (id : A → Text) (xs : List A) (a : A)
      → contains (id a) (map id xs) ≡ false
      → first_row (λ x. text_eq (id x) (id a)) (xs ++ a ∷ []) ≡ some a
  unfolding first_row contains
  first_row-fresh id [] a h = ground (arith, text_eq_refl (id a))
  first_row-fresh id (x ∷ xs) a h =
      ground (arith, text_eq→eq (id x) (id a), text_eq_refl (id a), first_row-fresh id xs a)

  pub All-update_where {κ υ} :
      (P : A → Type κ) (Q : A → Type υ) (p : A → Bool) (f : A → A)
      → ((x : A) → p x ≡ true → P x → Q (f x))
      → ((x : A) → p x ≡ false → P x → Q x)
      → (xs : List A) → All P xs
      → All Q (update_where p f xs)
  unfolding update_where
  All-update_where P Q p f hit miss [] h = tt
  All-update_where P Q p f hit miss (x ∷ xs) h = elim (Bool-cases (p x)) [
    | inl t ↦ rw (t) (hit x t h.0, All-update_where P Q p f hit miss xs h.1)
    | inr t ↦ rw (t) (miss x t h.0, All-update_where P Q p f hit miss xs h.1)
  ]

  -- An INSERT that succeeds.
  pub create-ok :
      (id : A → Text) (a : A) (xs : List A) {ys : List A}
      → create id a xs ≡ ok ys
      → (contains (id a) (map id xs) ≡ false) × (ys ≡ xs ++ a ∷ [])
  unfolding create
  create-ok id a xs h = ground arith

  -- An update that keeps the ids.
  pub map-update_where :
      (id : A → Text) (p : A → Bool) (f : A → A)
      → ((x : A) → id (f x) ≡ id x)
      → (xs : List A) → map id (update_where p f xs) ≡ map id xs
  unfolding update_where
  map-update_where id p f h [] = refl
  map-update_where id p f h (x ∷ xs) = elim (Bool-cases (p x)) [
    | inl t ↦ rw (t, h x, map-update_where id p f h xs) refl
    | inr t ↦ rw (t, map-update_where id p f h xs) refl
  ]

  -- The first row to pass is the new one.
  pub first_row-last :
      (q : A → Bool) (xs : List A) (a : A)
      → first_row q xs ≡ none
      → q a ≡ true
      → first_row q (xs ++ a ∷ []) ≡ some a
  unfolding first_row
  first_row-last q [] a h k = ground arith
  first_row-last q (x ∷ xs) a h k = ground (arith, first_row-last q xs a)
