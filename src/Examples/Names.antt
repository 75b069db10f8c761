-- ===== src/Examples/Names.antt =====
-- internal/shared/slug on small inputs.
use be_mycourse.Shared.{
  ℕ, zero, suc, ◌≡◌, ◌≢◌, ◌≤◌, length, refl, Bool, true, false, not, Option, some, [], ◌∷◌, Text,
  codes, text_eq, err, arith,
}
use be_mycourse.Slugs.{
  Reads, SlugError, still_running, Resolution, stored, conflict, resolve_create, parse_update_input,
  truncate_to_len, invalid_format, empty_slug, is_reserved,
}
use be_mycourse.Slugs.Suffixes.{usable}
use be_mycourse.Slugs.Attempts.{reads_needed}
use be_mycourse.Slugs.Created.{resolve_create-IsAnswer, resolve_create-runs}

repeat : ℕ → Option ℕ → Reads
repeat zero r = []
repeat (suc n) r = r ∷ repeat n r

abbrev only_go_taken : Text → Option Bool
only_go_taken c = some (not (text_eq c (codes "go")))

abbrev as_is : Text → Text
as_is name = name

-- The byte 255 is drawn again.
abbrev zeros : Reads
zeros = some 255 ∷ repeat 240 (some 0)

resolve_create-IsAnswer_example :
    ((only_go_taken (codes "go-aaaaaaa") ≡ some true) × (length (codes "go-aaaaaaa") ≤ 12))
    × (only_go_taken (codes "go") ≡ some false)
unfolding text_eq resolve_create be_mycourse.Slugs.resolve_manual
    be_mycourse.Slugs.resolve_with_suffix be_mycourse.Slugs.try_suffix
    be_mycourse.Slugs.retry_with_suffix be_mycourse.Slugs.try_lengths be_mycourse.Slugs.try_length
    be_mycourse.Slugs.generate_random_suffix be_mycourse.Slugs.build_suffixed_candidate
    be_mycourse.Slugs.truncate_for_suffix truncate_to_len repeat
resolve_create-IsAnswer_example =
    resolve_create-IsAnswer 12 only_go_taken 13 zeros as_is (codes "go") (codes "Go")
      (codes "course") {r = conflict (codes "go-aaaaaaa")} (omega arith) refl

resolve_create-runs_example :
    resolve_create 3 only_go_taken 4 zeros as_is [] (codes "go") (codes "course")
    ≢ err still_running
unfolding usable repeat reads_needed
resolve_create-runs_example =
    resolve_create-runs 3 only_go_taken 4 zeros as_is [] (codes "go") (codes "course") (omega arith)
      (omega arith)
