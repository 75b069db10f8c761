-- ===== src/RateLimit/Quota.antt =====
-- How many attempts of a window are allowed.
use be_mycourse.Shared.{
  ℕ, ◌≡◌, refl, sym, ap, ◌∙◌, ◌+◌, ◌-◌, Bool, true, false, Option, none, some, List, [], ◌∷◌, Text,
  text_eq, text_eq_iff, if◌then◌else◌, leb, ◌==◌, arith, Bool-cases, inl, inr, ok,
}
use be_mycourse.Shared.Map.{lookup, insert, lookup-insert}
use be_mycourse.RateLimit.{
  Bucket, is_other_window, fresh, allow_bucket, allow_fixed_window, allow_file, allowed_for,
}

pub occurrences : Text → List Text → ℕ
occurrences k [] = 0
occurrences k (j ∷ js) = (if text_eq k j then 1 else 0) + occurrences k js

pub lesser : ℕ → ℕ → ℕ
lesser a b = if leb a b then a else b

module _ (sec start attempts : ℕ) (match_window_sec : Bool) where
  -- The answer and the bucket that the key has afterwards.
  lookup-allow_fixed_window :
      (k j : Text) (buckets : List (Text × Bucket))
      → lookup k (allow_fixed_window buckets j sec start attempts match_window_sec).1 ≡ (
          if text_eq k j
          then some (allow_bucket sec start attempts match_window_sec (lookup j buckets)).1
          else lookup k buckets)
  unfolding allow_fixed_window
  lookup-allow_fixed_window k j buckets =
      lookup-insert j k (allow_bucket sec start attempts match_window_sec (lookup j buckets)).1
        buckets

  allow_fixed_window-current :
      (j : Text) (buckets : List (Text × Bucket)) (b : Bucket)
      → lookup j buckets ≡ some b
      → is_other_window sec start match_window_sec b ≡ false
      → allow_fixed_window buckets j sec start attempts match_window_sec
        ≡ (leb (b.count + 1) attempts, insert j (record b { count = b.count + 1 }) buckets)
  unfolding allow_fixed_window allow_bucket
  allow_fixed_window-current j buckets b e w = rw (e, allow_bucket) (rw w refl)

  lookup-counted :
      (k j : Text) (buckets : List (Text × Bucket)) (b : Bucket)
      → lookup j buckets ≡ some b
      → is_other_window sec start match_window_sec b ≡ false
      → text_eq k j ≡ true
      → lookup k (allow_fixed_window buckets j sec start attempts match_window_sec).1
        ≡ some (record b { count = b.count + 1 })
  lookup-counted k j buckets b e w same =
      rw (allow_fixed_window-current j buckets b e w)
        (lookup-insert j k (record b { count = b.count + 1 }) buckets ∙ rw same refl)

  allowed_for-current :
      (k : Text) (js : List Text) (buckets : List (Text × Bucket)) (b : Bucket)
      → lookup k buckets ≡ some b
      → is_other_window sec start match_window_sec b ≡ false
      → allowed_for k sec start attempts match_window_sec js buckets
        ≡ lesser (occurrences k js) (attempts - b.count)
  unfolding allowed_for occurrences lesser
  allowed_for-current k [] buckets b e w = ground arith
  allowed_for-current k (j ∷ js) buckets b e w =
      let next = (allow_fixed_window buckets j sec start attempts match_window_sec).1 in
      elim (Bool-cases (text_eq k j)) [
        | inl same ↦
            let key : k ≡ j = ground (arith, text_eq_iff k j) in
            let found : lookup j buckets ≡ some b = ap (λ t. lookup t buckets) (sym key) ∙ e in
            let counted = record b { count = b.count + 1 } in
            ground (
              arith,
              allow_fixed_window-current j buckets b found w,
              allowed_for-current k js next counted (lookup-counted k j buckets b found w same) w,
            )
        | inr other ↦
            ground (arith, lookup-allow_fixed_window k j buckets, allowed_for-current k js next b)
      ]

  fresh-current : is_other_window sec start match_window_sec (fresh sec start) ≡ false
  fresh-current = elim (Bool-cases match_window_sec) [ inl e ↦ ground arith | inr e ↦ ground arith ]

  -- The key has no bucket of this window.
  abbrev pub is_unused : Option Bucket → Bool
  is_unused none = true
  is_unused (some b) = is_other_window sec start match_window_sec b

  allow_bucket-unused :
      (o : Option Bucket)
      → is_unused o ≡ true
      → allow_bucket sec start attempts match_window_sec o ≡ (true, fresh sec start)
  unfolding allow_bucket
  allow_bucket-unused none h = refl
  allow_bucket-unused (some b) h = rw h refl

  -- Of the attempts on a key without a bucket of this window, among attempts on any keys, the first
  -- so many are allowed as the quota says, but at least one.
  pub allowed_for-quota :
      (k : Text) (js : List Text) (buckets : List (Text × Bucket))
      → is_unused (lookup k buckets) ≡ true
      → allowed_for k sec start attempts match_window_sec js buckets
        ≡ lesser (occurrences k js) (if attempts == 0 then 1 else attempts)
  unfolding allowed_for occurrences lesser
  allowed_for-quota k [] buckets h = ground arith
  allowed_for-quota k (j ∷ js) buckets h =
      let next = (allow_fixed_window buckets j sec start attempts match_window_sec).1 in
      elim (Bool-cases (text_eq k j)) [
        | inl same ↦
            let key : k ≡ j = ground (arith, text_eq_iff k j) in
            let unused : is_unused (lookup j buckets) ≡ true =
              ap (λ t. is_unused (lookup t buckets)) (sym key) ∙ h in
            let began = allow_bucket-unused (lookup j buckets) unused in
            let found : lookup k next ≡ some (fresh sec start) =
              lookup-allow_fixed_window k j buckets ∙ rw (same, began) refl in
            let answered : (allow_fixed_window buckets j sec start attempts match_window_sec).0
                ≡ true =
              unfold allow_fixed_window in rw began refl in
            ground (arith, allowed_for-current k js next (fresh sec start) found fresh-current)
        | inr other ↦
            let kept : lookup k next ≡ lookup k buckets =
              lookup-allow_fixed_window k j buckets ∙ rw other refl in
            ground (arith, allowed_for-quota k js next (ap is_unused kept ∙ h))
      ]

-- The file store answers and stores what the counters in memory do, when they also compare the
-- windows' lengths and the file can be read and written.
pub allow_file-allow_fixed_window :
    {E : Type 0} (buckets : List (Text × Bucket)) (key : Text) (sec start attempts : ℕ)
    → allow_file {E = E} (ok buckets) (λ payload. ok payload) key sec start attempts
      ≡ ok (allow_fixed_window buckets key sec start attempts true)
unfolding allow_file allow_fixed_window
allow_file-allow_fixed_window buckets key sec start attempts = refl
