-- ===== src/Slugs/Resolved.antt =====
-- internal/shared/slug/resolve.go: resolveWithSuffix and ResolveUpdate.
use be_mycourse.Shared.{
  ℕ, suc, ◌≤◌, ◌<◌, ◌≡◌, ◌≢◌, refl, ap, ◌∙◌, inl, inr, Bool, true, false, Option, none, some,
  length, Text, if◌then◌else◌, ok, err, >>=-ok, >>=-err, or_fail, or_fail-ok, subst, [], ◌∷◌,
  ok-injective, arith,
}
use be_mycourse.Slugs.{
  still_running, no_room, lookup_failed, joined, fits_format, truncate_for_suffix, Reads,
  build_suffixed_candidate, try_suffix, retry_with_suffix, resolve_with_suffix, resolve_update,
}
use be_mycourse.Slugs.Suffixes.{
  usable, length-build_suffixed_candidate, build_suffixed_candidate-no_room,
}
use be_mycourse.Slugs.Attempts.{reads_needed, try_lengths-runs, try_lengths-accepted}

joined-runs : (base suffix : Text) → joined base suffix ≢ err still_running
joined-runs [] suffix h = cc
joined-runs (b ∷ base) suffix h = cc

pub lookup-runs : (free : Option Bool) → or_fail free lookup_failed ≢ err still_running
lookup-runs none h = cc
lookup-runs (some b) h = cc

pub fits_format-length :
    (max_len : ℕ) (s : Text) {c : Text} → fits_format max_len s ≡ some c → length c ≤ max_len
fits_format-length max_len s {c} h = ground arith

module _ (max_len : ℕ) (avail : Text → Option Bool) where
  -- Free, and not longer than the column.
  abbrev pub IsFit : Text → Type 0
  IsFit c = (avail c ≡ some true) × (length c ≤ max_len)

  try_suffix-IsFit :
      (base suffix : Text) {c : Text}
      → try_suffix max_len avail base suffix ≡ ok (c, true)
      → IsFit c
  unfolding try_suffix
  try_suffix-IsFit base suffix h =
      let (x, built, h₁) = >>=-ok (build_suffixed_candidate base suffix max_len) _ h in
      let (free, looked, h₂) = >>=-ok (or_fail (avail x) lookup_failed) _ h₁ in
      let same = ok-injective h₂ in
      let there = or_fail-ok (avail x) lookup_failed looked in
      subst IsFit (ap (λ p. p.0) same) (
        there ∙ ap (λ p. some (p.1)) same,
        length-build_suffixed_candidate base suffix max_len built,
      )

  try_suffix-runs : (base suffix : Text) → try_suffix max_len avail base suffix ≢ err still_running
  unfolding try_suffix build_suffixed_candidate
  try_suffix-runs base suffix h =
      elim (>>=-err (build_suffixed_candidate base suffix max_len) _ h) [
        | inl refused ↦
            joined-runs (truncate_for_suffix base max_len (length suffix)) suffix refused
        | inr (c, built, h₁) ↦ elim (>>=-err (or_fail (avail c) lookup_failed) _ h₁) [
          | inl failed ↦ lookup-runs (avail c) failed
          | inr (free, looked, h₂) ↦ cc
        ]
      ]

  try_suffix-no_room :
      (base suffix : Text)
      → max_len ≤ suc (length suffix)
      → try_suffix max_len avail base suffix ≡ err no_room
  unfolding try_suffix
  try_suffix-no_room base suffix h =
      rw (build_suffixed_candidate-no_room base suffix max_len h) refl

  module _ (rounds : ℕ) (reads : Reads) where
    pub resolve_with_suffix-IsFit :
        (base : Text) {c : Text}
        → resolve_with_suffix max_len avail rounds reads base ≡ ok c
        → IsFit c
    unfolding resolve_with_suffix retry_with_suffix
    resolve_with_suffix-IsFit base h =
        let (s, built) = try_lengths-accepted (try_suffix max_len avail base) rounds 7 reads h in
        try_suffix-IsFit base s built

    pub resolve_with_suffix-runs :
        (base : Text)
        → max_len < rounds
        → reads_needed rounds 7 ≤ usable reads
        → resolve_with_suffix max_len avail rounds reads base ≢ err still_running
    unfolding resolve_with_suffix retry_with_suffix
    resolve_with_suffix-runs base h enough =
        try_lengths-runs (try_suffix max_len avail base) max_len (try_suffix-runs base)
          (try_suffix-no_room base) rounds 7 reads (omega arith) (omega arith) enough

    pub resolve_update-runs :
        (slug : Text)
        → max_len < rounds
        → reads_needed rounds 7 ≤ usable reads
        → resolve_update max_len avail rounds reads slug ≢ err still_running
    unfolding resolve_update
    resolve_update-runs slug h enough e = elim (>>=-err (or_fail (avail slug) lookup_failed) _ e) [
      | inl failed ↦ lookup-runs (avail slug) failed
      | inr (true, looked, e₁) ↦ cc
      | inr (false, looked, e₁) ↦ resolve_with_suffix-runs slug h enough e₁
    ]

    -- Once it returns a slug, ResolveUpdate returns a free one that is not longer than the limit,
    -- given one that is not.
    pub resolve_update-IsFit :
        (slug : Text) {c : Text}
        → length slug ≤ max_len
        → resolve_update max_len avail rounds reads slug ≡ ok c
        → IsFit c
    unfolding resolve_update
    resolve_update-IsFit slug {c} short h =
        let (free, looked, h₁) = >>=-ok (or_fail (avail slug) lookup_failed) _ h in
        let there = or_fail-ok (avail slug) lookup_failed looked in kept_or_suffixed free there h₁
      where
        kept_or_suffixed :
            (free : Bool)
            → avail slug ≡ some free
            → (if free then ok slug else resolve_with_suffix max_len avail rounds reads slug) ≡ ok c
            → IsFit c
        kept_or_suffixed true there same = subst IsFit (ok-injective same) (there, short)
        kept_or_suffixed false there later = resolve_with_suffix-IsFit slug later
