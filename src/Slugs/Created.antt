-- ===== src/Slugs/Created.antt =====
-- internal/shared/slug/resolve.go: ResolveCreate.
use be_mycourse.Shared.{
  ℕ, [], ◌∷◌, ◌≤◌, ◌<◌, ◌≡◌, ◌≢◌, refl, subst, ◌⊎◌, inl, inr, Bool, true, false, Option, none, some,
  length, is_empty, Text, Bool-cases, if◌then◌else◌, ok, err, ◌>>=◌, >>=-ok, >>=-err, or_fail,
  or_fail-ok, ok-injective, trim,
}
use be_mycourse.Slugs.{
  still_running, lookup_failed, Reads, validate_manual_format, truncate_to_len, or_kind,
  generate_auto_slug_base, Resolution, stored, conflict, resolve_with_suffix, resolve_update,
  resolve_manual, resolve_auto, resolve_create,
}
use be_mycourse.Slugs.Suffixes.{usable}
use be_mycourse.Slugs.Attempts.{reads_needed}
use be_mycourse.Slugs.Resolved.{
  IsFit, lookup-runs, fits_format-length, resolve_with_suffix-IsFit, resolve_with_suffix-runs,
  resolve_update-IsFit, resolve_update-runs,
}

or_kind-length :
    (max_len : ℕ) (make : Text → Text) (kind : Text) (o : Option Text)
    → ((c : Text) → o ≡ some c → length c ≤ max_len)
    → (or_kind make kind o).1 ≡ false
    → length ((or_kind make kind o).0) ≤ max_len
or_kind-length max_len make kind none short h = cc
or_kind-length max_len make kind (some c) short h = short c refl

-- A base that needs no suffix is not longer than the limit.
length-generate_auto_slug_base :
    (max_len : ℕ) (make : Text → Text) (name kind : Text)
    → (generate_auto_slug_base make name max_len kind).1 ≡ false
    → length ((generate_auto_slug_base make name max_len kind).0) ≤ max_len
unfolding generate_auto_slug_base validate_manual_format
length-generate_auto_slug_base max_len make name kind =
    or_kind-length max_len make kind
      (validate_manual_format (truncate_to_len (make name) max_len) max_len)
      (λ c h. fits_format-length max_len (trim (truncate_to_len (make name) max_len)) h)

is_empty→nil : (s : Text) → is_empty s ≡ true → s ≡ []
is_empty→nil [] h = refl
is_empty→nil (c ∷ s) h = cc

module _ (max_len : ℕ) (avail : Text → Option Bool) (rounds : ℕ) (reads : Reads)
    (make : Text → Text) (manual name kind : Text) where
  -- A manual slug is stored as it is or taken; what is stored or recommended is free and fits.
  abbrev pub IsAnswer : Resolution → Type 0
  IsAnswer (stored c) = IsFit max_len avail c × ((manual ≡ []) ⊎ (c ≡ manual))
  IsAnswer (conflict c) = IsFit max_len avail c × (avail manual ≡ some false)

  resolve_auto-IsAnswer :
      (base : Text × Bool) {r : Resolution}
      → manual ≡ []
      → (base.1 ≡ false → length (base.0) ≤ max_len)
      → resolve_auto max_len avail rounds reads base ≡ ok r
      → IsAnswer r
  unfolding resolve_auto
  resolve_auto-IsAnswer (base, true) none_given short h =
      let (c, final, same) = >>=-ok (resolve_with_suffix max_len avail rounds reads base) _ h in
      subst IsAnswer (ok-injective same)
        (resolve_with_suffix-IsFit max_len avail rounds reads base final, inl none_given)
  resolve_auto-IsAnswer (base, false) none_given short h =
      let (c, final, same) = >>=-ok (resolve_update max_len avail rounds reads base) _ h in
      subst IsAnswer (ok-injective same)
        (resolve_update-IsFit max_len avail rounds reads base (short refl) final, inl none_given)

  resolve_manual-IsAnswer :
      {r : Resolution}
      → length manual ≤ max_len
      → resolve_manual max_len avail rounds reads manual ≡ ok r
      → IsAnswer r
  unfolding resolve_manual
  resolve_manual-IsAnswer {r} short h =
      let (free, looked, h₁) = >>=-ok (or_fail (avail manual) lookup_failed) _ h in
      stored_or_conflict free (or_fail-ok (avail manual) lookup_failed looked) h₁
    where
      stored_or_conflict :
          (free : Bool)
          → avail manual ≡ some free
          → (if free
              then ok (stored manual)
              else (resolve_with_suffix max_len avail rounds reads manual >>= λ recommended.
                  ok (conflict recommended)))
            ≡ ok r
          → IsAnswer r
      stored_or_conflict true there same =
          subst IsAnswer (ok-injective same) ((there, short), inr refl)
      stored_or_conflict false there later =
          let (c, found, same) =
            >>=-ok (resolve_with_suffix max_len avail rounds reads manual) _ later in
          subst IsAnswer (ok-injective same)
            (resolve_with_suffix-IsFit max_len avail rounds reads manual found, there)

  -- What ResolveCreate stores is free, not longer than the limit, and the manual slug where there
  -- is one; it reports a conflict only for a manual slug that is taken, with such a slug, if the
  -- manual slug is not longer than the limit.
  pub resolve_create-IsAnswer :
      {r : Resolution}
      → length manual ≤ max_len
      → resolve_create max_len avail rounds reads make manual name kind ≡ ok r
      → IsAnswer r
  unfolding resolve_create
  resolve_create-IsAnswer short h = elim (Bool-cases (is_empty manual)) [
    | inl empty ↦
        resolve_auto-IsAnswer (generate_auto_slug_base make name max_len kind)
          (is_empty→nil manual empty) (length-generate_auto_slug_base max_len make name kind)
          (rw empty at h)
    | inr given ↦ resolve_manual-IsAnswer short (rw given at h)
  ]

  resolve_auto-runs :
      (base : Text × Bool)
      → max_len < rounds
      → reads_needed rounds 7 ≤ usable reads
      → resolve_auto max_len avail rounds reads base ≢ err still_running
  unfolding resolve_auto
  resolve_auto-runs (base, true) h enough e =
      elim (>>=-err (resolve_with_suffix max_len avail rounds reads base) _ e) [
        | inl running ↦ resolve_with_suffix-runs max_len avail rounds reads base h enough running
        | inr (c, found, e₁) ↦ cc
      ]
  resolve_auto-runs (base, false) h enough e =
      elim (>>=-err (resolve_update max_len avail rounds reads base) _ e) [
        | inl running ↦ resolve_update-runs max_len avail rounds reads base h enough running
        | inr (c, found, e₁) ↦ cc
      ]

  resolve_manual-runs :
      max_len < rounds
      → reads_needed rounds 7 ≤ usable reads
      → resolve_manual max_len avail rounds reads manual ≢ err still_running
  unfolding resolve_manual
  resolve_manual-runs h enough e = elim (>>=-err (or_fail (avail manual) lookup_failed) _ e) [
    | inl failed ↦ lookup-runs (avail manual) failed
    | inr (true, looked, e₁) ↦ cc
    | inr (false, looked, e₁) ↦
        elim (>>=-err (resolve_with_suffix max_len avail rounds reads manual) _ e₁) [
          | inl running ↦
              resolve_with_suffix-runs max_len avail rounds reads manual h enough running
          | inr (c, found, e₂) ↦ cc
        ]
  ]

  -- ResolveCreate answers: the loop over ever longer suffixes ends, as there is no room for a
  -- suffix that is as long as the column. More rounds than the limit, and as many usable random
  -- bytes as they can draw, are enough.
  pub resolve_create-runs :
      max_len < rounds
      → reads_needed rounds 7 ≤ usable reads
      → resolve_create max_len avail rounds reads make manual name kind ≢ err still_running
  unfolding resolve_create
  resolve_create-runs h enough e = elim (Bool-cases (is_empty manual)) [
    | inl empty ↦
        resolve_auto-runs (generate_auto_slug_base make name max_len kind) h enough (rw empty at e)
    | inr given ↦ resolve_manual-runs h enough (rw given at e)
  ]
