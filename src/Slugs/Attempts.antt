-- ===== src/Slugs/Attempts.antt =====
-- internal/shared/slug/suffix.go: the loop of RetryWithSuffix, over any way to build candidates that
-- has no room left from some length on.
use be_mycourse.Shared.{
  ℕ, zero, suc, ◌+◌, ◌*◌, ◌≤◌, ◌<◌, ◌≡◌, ◌≢◌, refl, ap, sym, ◌∙◌, ◌⊎◌, inl, inr, Bool, true, false,
  Option, none, some, length, Text, Bool-cases, leb, leb→le, Result, ok, err, >>=-ok, >>=-err,
  ok-injective, arith,
}
use be_mycourse.Slugs.{
  SlugError, still_running, no_room, Reads, generate_random_suffix, try_length, try_lengths,
}
use be_mycourse.Slugs.Suffixes.{usable, generate_random_suffix-ok, generate_random_suffix-runs}

-- The bytes that the given rounds draw when every attempt fails.
unfoldable pub reads_needed : ℕ → ℕ → ℕ
reads_needed zero len = 0
reads_needed (suc rounds) len = 7 * len + reads_needed rounds (suc len)

decided-ok :
    (accepted : Bool) (c : Text) (rest : Reads) (others : Result SlugError (Option Text × Reads))
    {found : Option Text} {left : Reads}
    → (elim accepted [ true ↦ ok (some c, rest) | false ↦ others ]) ≡ ok (found, left)
    → ((accepted ≡ true) × (found ≡ some c)) ⊎ ((accepted ≡ false) × (others ≡ ok (found, left)))
decided-ok true c rest others h = inl (refl, sym (ap (λ p. p.0) (ok-injective h)))
decided-ok false c rest others h = inr (refl, h)

-- An attempt is accepted, or the next ones go on with the reads that it left.
attempt-ok :
    (build : Text → Result SlugError (Text × Bool)) (k len : ℕ) (reads : Reads)
    {found : Option Text} {left : Reads}
    → try_length build (suc k) len reads ≡ ok (found, left)
    → (suffix : Text) × (rest : Reads) × (c : Text) × (generate_random_suffix len reads
        ≡ ok (suffix, rest))
      × (((build suffix ≡ ok (c, true)) × (found ≡ some c))
          ⊎ ((build suffix ≡ ok (c, false)) × (try_length build k len rest ≡ ok (found, left))))
unfolding try_length
attempt-ok build k len reads h =
    let ((suffix, rest), drawn, h₁) = >>=-ok (generate_random_suffix len reads) _ h in
    let ((c, accepted), built, h₂) = >>=-ok (build suffix) _ h₁ in
    (
      suffix,
      rest,
      c,
      drawn,
      elim (decided-ok accepted c rest (try_length build k len rest) h₂) [
        | inl (taken, same) ↦ inl (built ∙ ap (λ x. ok (c, x)) taken, same)
        | inr (refused, others) ↦ inr (built ∙ ap (λ x. ok (c, x)) refused, others)
      ],
    )

module _ (build : Text → Result SlugError (Text × Bool)) (max_len : ℕ)
    (runs : (s : Text) → build s ≢ err still_running)
    (full : (s : Text) → max_len ≤ suc (length s) → build s ≡ err no_room) where
  try_length-runs :
      (k len : ℕ) (reads : Reads)
      → k * len ≤ usable reads
      → try_length build k len reads ≢ err still_running
  unfolding try_length
  try_length-runs zero len reads h e = cc
  try_length-runs (suc k) len reads h e = elim (>>=-err (generate_random_suffix len reads) _ e) [
    | inl drawn ↦ generate_random_suffix-runs len reads (omega arith) drawn
    | inr ((suffix, left), drawn, e₁) ↦ elim (>>=-err (build suffix) _ e₁) [
      | inl built ↦ runs suffix built
      | inr ((candidate, true), built, e₂) ↦ cc
      | inr ((candidate, false), built, e₂) ↦
          let (drawn_length, used) = generate_random_suffix-ok len reads drawn in
          try_length-runs k len left (omega arith) e₂
    ]
  ]

  room_left :
      (len : ℕ) (suffix : Text) {c : Text × Bool}
      → length suffix ≡ len
      → build suffix ≡ ok c
      → suc len < max_len
  room_left len suffix same built = elim (Bool-cases (leb max_len (suc len))) [
    | inl too_long ↦ let refused = full suffix (rw same (leb→le max_len (suc len) too_long)) in cc
    | inr room ↦ ground arith
  ]

  -- A length whose attempts all fail leaves room for the next one.
  try_length-left :
      (k len : ℕ) (reads : Reads) {left : Reads}
      → try_length build k len reads ≡ ok (none, left)
      → (usable left + k * len ≡ usable reads) × (1 ≤ k → suc len < max_len)
  unfolding try_length
  try_length-left zero len reads h =
      let same = ap (λ p. usable (p.1)) (sym (ok-injective h)) in
      (omega arith, λ one. absurd (omega arith))
  try_length-left (suc k) len reads h =
      let (suffix, rest, c, drawn, outcome) = attempt-ok build k len reads h in
      let (drawn_length, used) = generate_random_suffix-ok len reads drawn in
      elim outcome [
        | inl (built, same) ↦ absurd cc
        | inr (built, h₁) ↦
            let (others, more) = try_length-left k len rest h₁ in
            (omega arith, λ one. room_left len suffix drawn_length built)
      ]

  pub try_lengths-runs :
      (rounds len : ℕ) (reads : Reads)
      → 1 ≤ rounds
      → max_len ≤ len + rounds
      → reads_needed rounds len ≤ usable reads
      → try_lengths build rounds len reads ≢ err still_running
  unfolding try_lengths reads_needed
  try_lengths-runs zero len reads some_round enough h e = omega arith
  try_lengths-runs (suc rounds) len reads some_round enough h e =
      elim (>>=-err (try_length build 7 len reads) _ e) [
        | inl tried ↦ try_length-runs 7 len reads (omega arith) tried
        | inr ((some candidate, left), tried, e₁) ↦ cc
        | inr ((none, left), tried, e₁) ↦
            let (used, more) = try_length-left 7 len reads tried in
            let room = more (omega arith) in
            try_lengths-runs rounds (suc len) left (omega arith) (omega arith) (omega arith) e₁
      ]

found-ok :
    (found : Option Text) (later : Result SlugError Text) {c : Text}
    → (elim found [ some candidate ↦ ok candidate | none ↦ later ]) ≡ ok c
    → (found ≡ some c) ⊎ (later ≡ ok c)
found-ok (some candidate) later h = inl (ap some (ok-injective h))
found-ok none later h = inr h

module _ (build : Text → Result SlugError (Text × Bool)) where
  try_length-accepted :
      (k len : ℕ) (reads : Reads) {c : Text} {left : Reads}
      → try_length build k len reads ≡ ok (some c, left)
      → (s : Text) × (build s ≡ ok (c, true))
  unfolding try_length
  try_length-accepted zero len reads h = cc
  try_length-accepted (suc k) len reads h =
      let (suffix, rest, c, drawn, outcome) = attempt-ok build k len reads h in
      elim outcome [
        | inl (built, same) ↦ (suffix, built ∙ ap (λ x. ok (x, true)) cc)
        | inr (built, h₁) ↦ try_length-accepted k len rest h₁
      ]

  -- What the loop returns is a candidate that was accepted.
  pub try_lengths-accepted :
      (rounds len : ℕ) (reads : Reads) {c : Text}
      → try_lengths build rounds len reads ≡ ok c
      → (s : Text) × (build s ≡ ok (c, true))
  unfolding try_lengths
  try_lengths-accepted zero len reads h = cc
  try_lengths-accepted (suc rounds) len reads h =
      let ((found, left), tried, h₁) = >>=-ok (try_length build 7 len reads) _ h in
      elim (found-ok found (try_lengths build rounds (suc len) left) h₁) [
        | inl same ↦ try_length-accepted 7 len reads (tried ∙ ap (λ x. ok (x, left)) same)
        | inr later ↦ try_lengths-accepted rounds (suc len) left later
      ]
