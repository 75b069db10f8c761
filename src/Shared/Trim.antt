-- ===== src/Shared/Trim.antt =====
-- strings.TrimSpace: every UTF-8 encoding of a `unicode.IsSpace` rune is cut off both ends. The
-- last byte sequence of a string that encodes a space is the last rune that Go decodes, so the
-- right end is trimmed over the reversed bytes.
use Prim.Native.Nat.{ℕ, zero, suc, ◌≤◌, ◌<◌}
use mathlib.Core.Path.{◌≡◌, refl, sym, ap, subst, ◌∙◌}
use mathlib.Core.Logic.{inl, inr}
use mathlib.Core.Bool.{Bool, ◌&&◌, ◌||◌}
use mathlib.Core.Option.{Option, none, some}
use mathlib.Core.List.{
  [], ◌∷◌, ◌++◌, reverse, reverse-reverse, reverse-append, append-nil, append_assoc,
}
use native.Mathlib.Omega.{arith}
use be_mycourse.Shared.Tests.{leb, ◌==◌, if◌then◌else◌, Bool-cases, Option-cases}
use be_mycourse.Shared.Lists.{length}
use be_mycourse.Shared.Texts.{Text, codes}

-- '\t' to '\r', and ' '.
abbrev pub is_space1 : ℕ → Bool
is_space1 b = (leb 9 b && leb b 13) || b == 0x20

-- U+0085 and U+00A0.
abbrev pub is_space2 : ℕ → ℕ → Bool
is_space2 a b = a == 0xc2 && (b == 0x85 || b == 0xa0)

-- U+1680, U+2000 to U+200A, U+2028, U+2029, U+202F, U+205F and U+3000.
abbrev pub is_space3 : ℕ → ℕ → ℕ → Bool
is_space3 a b c =
    (a == 0xe1 && b == 0x9a && c == 0x80)
    || (a == 0xe2
        && b == 0x80
        && ((leb 0x80 c && leb c 0x8a) || c == 0xa8 || c == 0xa9 || c == 0xaf))
    || (a == 0xe2 && b == 0x81 && c == 0x9f)
    || (a == 0xe3 && b == 0x80 && c == 0x80)

-- The text after one space at its front, and before one at its end (the bytes reversed).
drop_first : Text → Option Text
drop_first [] = none
drop_first (a ∷ []) = if is_space1 a then some [] else none
drop_first (a ∷ b ∷ []) =
    if is_space1 a then some (b ∷ []) else if is_space2 a b then some [] else none
drop_first (a ∷ b ∷ c ∷ s) =
    if is_space1 a
    then some (b ∷ c ∷ s)
    else if is_space2 a b
    then some (c ∷ s)
    else if is_space3 a b c
    then some s
    else none

drop_last : Text → Option Text
drop_last [] = none
drop_last (a ∷ []) = if is_space1 a then some [] else none
drop_last (b ∷ a ∷ []) =
    if is_space1 b then some (a ∷ []) else if is_space2 a b then some [] else none
drop_last (c ∷ b ∷ a ∷ s) =
    if is_space1 c
    then some (b ∷ a ∷ s)
    else if is_space2 b c
    then some (a ∷ s)
    else if is_space3 a b c
    then some s
    else none

-- Drop while there is something to drop; the fuel is the length.
exhaust : (Text → Option Text) → ℕ → Text → Text
exhaust drop zero s = s
exhaust drop (suc f) s = elim (drop s) [ none ↦ s | some r ↦ exhaust drop f r ]

trim_left : Text → Text
unfolding exhaust drop_first
trim_left s = exhaust drop_first (length s) s

trim_right_rev : Text → Text
unfolding exhaust drop_last
trim_right_rev s = exhaust drop_last (length s) s

unfoldable pub trim : Text → Text
unfolding trim_left trim_right_rev
trim s = reverse (trim_right_rev (reverse (trim_left s)))

trim_test : trim (codes "  a b \n") ≡ codes "a b"
unfolding trim
trim_test = refl

drop_first_shorter : (s r : Text) → drop_first s ≡ some r → length r < length s
unfolding drop_first
drop_first_shorter [] r h = cc
drop_first_shorter (a ∷ []) r h = ground arith
drop_first_shorter (a ∷ b ∷ []) r h = ground arith
drop_first_shorter (a ∷ b ∷ c ∷ s) r h = ground arith

drop_last_shorter : (s r : Text) → drop_last s ≡ some r → length r < length s
unfolding drop_last
drop_last_shorter [] r h = cc
drop_last_shorter (a ∷ []) r h = ground arith
drop_last_shorter (a ∷ b ∷ []) r h = ground arith
drop_last_shorter (a ∷ b ∷ c ∷ s) r h = ground arith

module _ (drop : Text → Option Text) where
  -- With a length of fuel nothing is left to drop.
  exhaust_done :
      ((s r : Text) → drop s ≡ some r → length r < length s)
      → (f : ℕ) (s : Text) → length s ≤ f
      → drop [] ≡ none
      → drop (exhaust drop f s) ≡ none
  unfolding exhaust
  exhaust_done shorter zero [] h e = e
  exhaust_done shorter zero (x ∷ s) h e = absurd (omega arith)
  exhaust_done shorter (suc f) s h e = elim (Option-cases (drop s)) [
    | inl n ↦ rw (n, exhaust) n
    | inr (r, k) ↦ rw (k, exhaust) (exhaust_done shorter f r (omega (arith, shorter s r k)) e)
  ]

  exhaust_fixed : (f : ℕ) (s : Text) → drop s ≡ none → exhaust drop f s ≡ s
  unfolding exhaust
  exhaust_fixed zero s h = refl
  exhaust_fixed (suc f) s h = rw (h, exhaust)

-- A space at the front stays there when bytes are appended.
drop_first-append : (s q r : Text) → drop_first s ≡ some r → drop_first (s ++ q) ≡ some (r ++ q)
unfolding drop_first
drop_first-append [] q r h = cc
drop_first-append (a ∷ []) [] r h = ground (arith, append-nil r)
drop_first-append (a ∷ []) (x ∷ []) r h = ground arith
drop_first-append (a ∷ []) (x ∷ y ∷ q) r h = ground arith
drop_first-append (a ∷ b ∷ []) [] r h = ground (arith, append-nil r)
drop_first-append (a ∷ b ∷ []) (x ∷ q) r h = ground arith
drop_first-append (a ∷ b ∷ c ∷ s) q r h = ground arith

-- What is dropped from the reversed bytes stands in front of the rest.
drop_last_suffix : (s r : Text) → drop_last s ≡ some r → (q : Text) × (s ≡ q ++ r)
unfolding drop_last
drop_last_suffix [] r h = cc
drop_last_suffix (a ∷ []) r h = (a ∷ [], ground arith)
drop_last_suffix (a ∷ b ∷ []) r h = elim (Bool-cases (is_space1 a)) [
  | inl e ↦ (a ∷ [], ground arith)
  | inr e ↦ (a ∷ b ∷ [], ground arith)
]
drop_last_suffix (c ∷ b ∷ a ∷ s) r h = elim (Bool-cases (is_space1 c)) [
  | inl e ↦ (c ∷ [], ground arith)
  | inr e ↦ elim (Bool-cases (is_space2 b c)) [
    | inl k ↦ (c ∷ b ∷ [], ground arith)
    | inr k ↦ (c ∷ b ∷ a ∷ [], ground arith)
  ]
]

exhaust_suffix : (f : ℕ) (s : Text) → (q : Text) × (s ≡ q ++ exhaust drop_last f s)
unfolding exhaust
exhaust_suffix zero s = ([], refl)
exhaust_suffix (suc f) s = elim (Option-cases (drop_last s)) [
  | inl e ↦ ([], rw (e, exhaust) refl)
  | inr (r, e) ↦
      let (p, first) = drop_last_suffix s r e in
      let (q, more) = exhaust_suffix f r in
      (
        p ++ q,
        rw (e, exhaust) (first ∙ ap (◌++◌ p) more ∙ sym (append_assoc p q (exhaust drop_last f r))),
      )
]

trim_left_fixed : (s : Text) → drop_first s ≡ none → trim_left s ≡ s
unfolding trim_left
trim_left_fixed s h = exhaust_fixed drop_first (length s) s h

trim_left_done : (s : Text) → drop_first (trim_left s) ≡ none
unfolding trim_left
trim_left_done s = exhaust_done drop_first drop_first_shorter (length s) s (omega arith) refl

-- A prefix of a text that starts with no space starts with none.
prefix_unspaced : (s q : Text) → drop_first (s ++ q) ≡ none → drop_first s ≡ none
prefix_unspaced s q h = elim (Option-cases (drop_first s)) [
  | inl e ↦ e
  | inr (r, e) ↦ cc (drop_first-append s q r e)
]

trim_right_prefix : (s : Text) → (q : Text) × (s ≡ reverse (trim_right_rev (reverse s)) ++ q)
unfolding trim_right_rev
trim_right_prefix s =
    let (q, e) = exhaust_suffix (length (reverse s)) (reverse s) in
    (reverse q, sym (reverse-reverse s) ∙ ap reverse e ∙ reverse-append q _)

trim_right_done : (s : Text) → drop_last (trim_right_rev s) ≡ none
unfolding trim_right_rev
trim_right_done s = exhaust_done drop_last drop_last_shorter (length s) s (omega arith) refl

trim_right_fixed : (s : Text) → drop_last s ≡ none → trim_right_rev s ≡ s
unfolding trim_right_rev
trim_right_fixed s h = exhaust_fixed drop_last (length s) s h

trim_again :
    (t : Text)
    → drop_first t ≡ none
    → let u = reverse (trim_right_rev (reverse t)) in
      reverse (trim_right_rev (reverse (trim_left u))) ≡ u
trim_again t h =
    let kept = trim_right_rev (reverse t) in
    let (q, e) = trim_right_prefix t in
    let unspaced = prefix_unspaced (reverse kept) q (subst (λ x. drop_first x ≡ none) e h) in
    ap (λ x. reverse (trim_right_rev (reverse x))) (trim_left_fixed (reverse kept) unspaced)
    ∙ ap (λ x. reverse (trim_right_rev x)) (reverse-reverse kept)
    ∙ ap reverse (trim_right_fixed kept (trim_right_done (reverse t)))

-- The trimmed text starts and ends with no space, so trimming it again leaves it as it is.
pub trim-trim : (s : Text) → trim (trim s) ≡ trim s
unfolding trim
trim-trim s = trim_again (trim_left s) (trim_left_done s)
