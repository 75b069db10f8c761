-- ===== src/Slugs/Suffixes.antt =====
-- internal/shared/slug/suffix.go: the length of a suffix, and that of a candidate.
use be_mycourse.Shared.{
  ℕ, zero, suc, ◌+◌, ◌-◌, ◌≤◌, ◌≡◌, ◌≢◌, refl, inl, inr, none, some, List, [], ◌∷◌, length,
  length-append, take, Text, if◌then◌else◌, Bool-cases, ok-injective, Result, ok, err, ap, sym, ◌∙◌,
  arith,
}
use be_mycourse.Slugs.{
  SlugError, still_running, no_room, Reads, is_usable, prepend, generate_random_suffix, cut_valid,
  trim_hyphens, truncate_to_len, truncate_for_suffix, build_suffixed_candidate, joined,
}

-- How many of the reads give a byte that is not rejected.
unfoldable pub usable : Reads → ℕ
usable [] = 0
usable (none ∷ reads) = usable reads
usable (some b ∷ reads) = let rest = usable reads in if is_usable b then suc rest else rest

prepend-ok :
    (b : ℕ) (m : Result SlugError (Text × Reads)) {s : Text} {left : Reads}
    → prepend b m ≡ ok (s, left)
    → (t : Text) × (m ≡ ok (t, left))
      × (length s ≡ (if is_usable b then suc (length t) else length t))
prepend-ok b (ok (t, l)) {s} {left} h =
    let same = ok-injective h in
    (t, ap (λ x. ok (t, x)) (ap (λ p. p.1) same), ground (arith, ap (λ p. length (p.0)) same))
prepend-ok b (err e) h = cc

prepend-err :
    (b : ℕ) (m : Result SlugError (Text × Reads)) {e : SlugError} → prepend b m ≡ err e → m ≡ err e
prepend-err b (ok (t, l)) h = cc
prepend-err b (err e) h = cc

pub generate_random_suffix-ok :
    (n : ℕ) (reads : Reads) {s : Text} {left : Reads}
    → generate_random_suffix n reads ≡ ok (s, left)
    → (length s ≡ n) × (usable left + n ≡ usable reads)
unfolding generate_random_suffix usable
generate_random_suffix-ok zero reads h = ground arith
generate_random_suffix-ok (suc n) [] h = cc
generate_random_suffix-ok (suc n) (none ∷ reads) h = cc
generate_random_suffix-ok (suc n) (some b ∷ reads) h = elim (Bool-cases (is_usable b)) [
  | inl taken ↦
      let (t, e, len) = prepend-ok b _ h in
      let rest = generate_random_suffix-ok n reads (rw taken at e) in ground arith
  | inr again ↦
      let (t, e, len) = prepend-ok b _ h in
      let rest = generate_random_suffix-ok (suc n) reads (rw again at e) in ground arith
]

pub generate_random_suffix-runs :
    (n : ℕ) (reads : Reads) → n ≤ usable reads → generate_random_suffix n reads ≢ err still_running
unfolding generate_random_suffix usable
generate_random_suffix-runs zero reads h e = cc
generate_random_suffix-runs (suc n) [] h e = omega arith
generate_random_suffix-runs (suc n) (none ∷ reads) h e = cc
generate_random_suffix-runs (suc n) (some b ∷ reads) h e = elim (Bool-cases (is_usable b)) [
  | inl taken ↦ generate_random_suffix-runs n reads (ground arith) (prepend-err b _ (ground arith))
  | inr again ↦
      generate_random_suffix-runs (suc n) reads (ground arith) (prepend-err b _ (ground arith))
]

length-take : {A : Type 0} (n : ℕ) (xs : List A) → length (take n xs) ≤ n
length-take zero xs = omega arith
length-take (suc n) [] = omega arith
length-take (suc n) (x ∷ xs) = ground (arith, length-take n xs)

length-cut_valid : (n : ℕ) (s : Text) → length (cut_valid n s) ≤ n
unfolding cut_valid
length-cut_valid zero s = omega arith
length-cut_valid (suc n) s = ground (arith, length-cut_valid n s, length-take (suc n) s)

length-trim_hyphens : (s : Text) → length (trim_hyphens s) ≤ length s
unfolding trim_hyphens
length-trim_hyphens [] = omega arith
length-trim_hyphens (c ∷ s) = ground (arith, length-trim_hyphens s)

pub length-truncate_to_len : (s : Text) (n : ℕ) → length (truncate_to_len s n) ≤ n
unfolding truncate_to_len
length-truncate_to_len s zero = omega arith
length-truncate_to_len s (suc n) =
    ground (arith, length-trim_hyphens (cut_valid (suc n) s), length-cut_valid (suc n) s)

length-joined :
    (base suffix : Text) {c : Text}
    → joined base suffix ≡ ok c
    → (length c ≡ length base + suc (length suffix)) × (1 ≤ length base)
length-joined [] suffix h = cc
length-joined (b ∷ base) suffix {c} h =
    (ap length (sym (ok-injective h)) ∙ length-append (b ∷ base) (45 ∷ suffix), omega arith)

pub length-build_suffixed_candidate :
    (base suffix : Text) (max_len : ℕ) {c : Text}
    → build_suffixed_candidate base suffix max_len ≡ ok c
    → length c ≤ max_len
unfolding build_suffixed_candidate truncate_for_suffix
length-build_suffixed_candidate base suffix max_len h =
    let short = length-truncate_to_len base (max_len - 1 - length suffix) in
    let (same, room) =
      length-joined (truncate_to_len base (max_len - 1 - length suffix)) suffix h in
    omega arith

pub build_suffixed_candidate-no_room :
    (base suffix : Text) (max_len : ℕ)
    → max_len ≤ suc (length suffix)
    → build_suffixed_candidate base suffix max_len ≡ err no_room
unfolding build_suffixed_candidate truncate_for_suffix truncate_to_len
build_suffixed_candidate-no_room base suffix max_len h =
    let none_left : max_len - 1 - length suffix ≡ 0 = omega arith in rw none_left refl
