-- ===== src/RateLimit.antt =====
-- internal/shared/ratelimit: the fixed-window counters of window.go, which memory.go keeps behind a
-- mutex, and of file.go, whose file is an argument: `read` is what the file decodes to and `write`
-- says whether the new payload is stored. Seconds and counts are naturals.
pub mod Quota
use be_mycourse.Shared.{
  ℕ, ◌+◌, ◌*◌, ◌-◌, ◌%◌, Bool, true, false, ◌&&◌, ◌||◌, not, Option, none, some, List, [], ◌∷◌,
  Text, text_eq, if◌then◌else◌, leb, ltb, ◌==◌, keep, Result, ok, err, ◌>>=◌, ◌>>◌,
}
use be_mycourse.Shared.Map.{lookup, insert}

pub record Bucket : Type 0 where
  pub window_start : ℕ
  pub window_sec : ℕ
  pub count : ℕ

unfoldable pub window_start : ℕ → ℕ → ℕ
window_start now window_sec = now - now % window_sec

-- Whether the bucket is of another window than the attempt.
abbrev pub is_other_window : ℕ → ℕ → Bool → Bucket → Bool
is_other_window sec start match_window_sec b =
    not (b.window_start == start) || (match_window_sec && not (b.window_sec == sec))

abbrev pub fresh : ℕ → ℕ → Bucket
fresh sec start = record { window_start = start; window_sec = sec; count = 1 }

unfoldable pub allow_bucket : ℕ → ℕ → ℕ → Bool → Option Bucket → Bool × Bucket
allow_bucket sec start attempts match_window_sec none = (true, fresh sec start)
allow_bucket sec start attempts match_window_sec (some b) =
    let count = b.count + 1 in
    if is_other_window sec start match_window_sec b
    then (true, fresh sec start)
    else (leb count attempts, record b { count = count })

unfoldable pub allow_fixed_window :
    List (Text × Bucket) → Text → ℕ → ℕ → ℕ → Bool → Bool × List (Text × Bucket)
unfolding lookup insert allow_bucket
allow_fixed_window buckets key sec start attempts match_window_sec =
    let (answer, b) = allow_bucket sec start attempts match_window_sec (lookup key buckets) in
    (answer, insert key b buckets)

-- `now - start > 2 * sec`, with the start on the other side.
unfoldable pub cleanup_stale_buckets : ℕ → List (Text × Bucket) → List (Text × Bucket)
unfolding keep
cleanup_stale_buckets now buckets =
    keep (λ entry. not (ltb (entry.1.window_start + 2 * entry.1.window_sec) now)) buckets

module _ {E : Type 0} (read : Result E (List (Text × Bucket)))
    (write : List (Text × Bucket) → Result E (List (Text × Bucket))) where
  -- `FileStore.Allow`: the answer and the payload that is stored.
  unfoldable pub allow_file : Text → ℕ → ℕ → ℕ → Result E (Bool × List (Text × Bucket))
  unfolding lookup insert allow_bucket
  allow_file key sec start attempts = do
    entries ← read
    let (answer, b) = allow_bucket sec start attempts true (lookup key entries)
    stored ← write (insert key b entries)
    ok (answer, stored)

-- Attempts on the keys of a list in turn, in one window, and how many on the given key are allowed.
unfoldable pub allowed_for : Text → ℕ → ℕ → ℕ → Bool → List Text → List (Text × Bucket) → ℕ
unfolding allow_fixed_window
allowed_for k sec start attempts m [] buckets = 0
allowed_for k sec start attempts m (j ∷ js) buckets =
    let (answer, next) = allow_fixed_window buckets j sec start attempts m in
    (if text_eq k j && answer then 1 else 0) + allowed_for k sec start attempts m js next
