-- ===== src/Slugs.antt =====
-- internal/shared/slug: format.go, input.go, autobase.go, reserved.go, suffix.go and resolve.go.
-- `make` is gosimple/slug's Make, `avail` the caller's look-up (`none` when it fails), and the
-- reads that crypto/rand answers are a list, in which `none` is a failure. A run that neither the
-- reads nor the rounds given suffice for ends in `still_running`.
pub mod Suffixes
pub mod Attempts
pub mod Resolved
pub mod Created
use be_mycourse.Shared.{
  ℕ, zero, suc, ◌+◌, ◌-◌, ◌%◌, ◌≡◌, refl, Bool, true, false, ◌&&◌, ◌||◌, not, Option, none, some,
  List, [], ◌∷◌, ◌++◌, map, length, take, is_empty, Text, codes, contains, trim, valid_string, ltb,
  leb, ◌==◌, if◌then◌else◌, Result, ok, err, ◌>>=◌, ◌>>◌, guard, or_fail,
}

pub data SlugError : Type 0 where
  invalid_format : SlugError
  empty_slug : SlugError
  rng_failed : SlugError
  no_room : SlugError
  lookup_failed : SlugError
  still_running : SlugError

abbrev is_alnum : ℕ → Bool
is_alnum c = (leb 97 c && leb c 122) || (leb 48 c && leb c 57)

-- What may follow the first byte.
ends_well : Text → Bool
ends_well [] = true
ends_well (c ∷ []) = is_alnum c
ends_well (c ∷ d ∷ s) = (is_alnum c || c == 45) && ends_well (d ∷ s)

-- `^[a-z0-9](?:[a-z0-9-]*[a-z0-9])?$`
unfoldable pub format_matches : Text → Bool
unfolding ends_well
format_matches [] = false
format_matches (c ∷ s) = is_alnum c && ends_well s

abbrev pub fits_format : ℕ → Text → Option Text
fits_format max_len trimmed =
    if is_empty trimmed || ltb max_len (length trimmed) || not (format_matches trimmed)
    then none
    else some trimmed

unfoldable pub validate_manual_format : Text → ℕ → Option Text
validate_manual_format raw max_len = fits_format max_len (trim raw)

unfoldable pub parse_manual : Text → ℕ → Result SlugError Text
unfolding validate_manual_format
parse_manual raw max_len =
    if is_empty (trim raw)
    then ok []
    else or_fail (validate_manual_format raw max_len) invalid_format

-- `set` is false where the request leaves the field out.
unfoldable pub parse_update_input : Bool → Text → ℕ → Result SlugError (Option Text)
unfolding validate_manual_format
parse_update_input false value max_len = ok none
parse_update_input true value max_len = do
  guard (not (is_empty (trim value))) empty_slug
  trimmed ← or_fail (validate_manual_format value max_len) invalid_format
  ok (some trimmed)

abbrev pub reserved_words : List Text
reserved_words =
    codes "admin"
    ∷ codes "administrator"
    ∷ codes "api"
    ∷ codes "auth"
    ∷ codes "catalog"
    ∷ codes "course"
    ∷ codes "courses"
    ∷ codes "edit"
    ∷ codes "help"
    ∷ codes "instructor"
    ∷ codes "instructors"
    ∷ codes "login"
    ∷ codes "logout"
    ∷ codes "me"
    ∷ codes "new"
    ∷ codes "null"
    ∷ codes "register"
    ∷ codes "root"
    ∷ codes "settings"
    ∷ codes "support"
    ∷ codes "system"
    ∷ codes "undefined"
    ∷ codes "user"
    ∷ codes "users"
    ∷ []

unfoldable pub is_reserved : Text → Bool
is_reserved s = contains s reserved_words

-- The letter or digit of a byte that is not rejected.
abbrev random_char : ℕ → ℕ
random_char b = if ltb (b % 36) 26 then 97 + b % 36 else 22 + b % 36

abbrev pub Reads : Type 0
Reads = List (Option ℕ)

-- A byte of 252 or more is drawn again.
abbrev pub is_usable : ℕ → Bool
is_usable b = ltb b 252

abbrev pub prepend : ℕ → Result SlugError (Text × Reads) → Result SlugError (Text × Reads)
prepend b (ok (s, reads)) = ok (if is_usable b then random_char b ∷ s else s, reads)
prepend b (err e) = err e

unfoldable pub generate_random_suffix : ℕ → Reads → Result SlugError (Text × Reads)
generate_random_suffix zero reads = ok ([], reads)
generate_random_suffix (suc n) [] = err still_running
generate_random_suffix (suc n) (none ∷ reads) = err rng_failed
generate_random_suffix (suc n) (some b ∷ reads) =
    prepend b (generate_random_suffix (if is_usable b then n else suc n) reads)

-- The longest valid prefix of at most `n` bytes.
unfoldable pub cut_valid : ℕ → Text → Text
cut_valid zero s = []
cut_valid (suc n) s =
    let shorter = cut_valid n s in if valid_string (take (suc n) s) then take (suc n) s else shorter

-- strings.TrimRight of hyphens.
unfoldable pub trim_hyphens : Text → Text
trim_hyphens [] = []
trim_hyphens (c ∷ s) =
    let rest = trim_hyphens s in if is_empty rest && c == 45 then [] else c ∷ rest

unfoldable pub truncate_to_len : Text → ℕ → Text
unfolding cut_valid trim_hyphens
truncate_to_len s zero = []
truncate_to_len s (suc n) = if leb (length s) (suc n) then s else trim_hyphens (cut_valid (suc n) s)

-- Where Go's difference is negative TruncateToLen gives the empty string, as it does at 0.
unfoldable pub truncate_for_suffix : Text → ℕ → ℕ → Text
unfolding truncate_to_len
truncate_for_suffix base max_total_len suffix_len =
    truncate_to_len base (max_total_len - 1 - suffix_len)

abbrev pub joined : Text → Text → Result SlugError Text
joined base suffix = do guard (not (is_empty base)) no_room; ok (base ++ (45 ∷ suffix))

unfoldable pub build_suffixed_candidate : Text → Text → ℕ → Result SlugError Text
unfolding truncate_for_suffix
build_suffixed_candidate base suffix max_len =
    joined (truncate_for_suffix base max_len (length suffix)) suffix

-- The attempts that are left at one length: the candidate accepted, if any, and the reads left.
unfoldable pub try_length :
    (Text → Result SlugError (Text × Bool)) → ℕ → ℕ → Reads → Result SlugError (Option Text × Reads)
unfolding generate_random_suffix
try_length build zero len reads = ok (none, reads)
try_length build (suc k) len reads = do
  (suffix, left) ← generate_random_suffix len reads
  (candidate, accepted) ← build suffix
  elim accepted [ true ↦ ok (some candidate, left) | false ↦ try_length build k len left ]

-- `for length := len; ; length++`, for as many rounds as are given.
unfoldable pub try_lengths :
    (Text → Result SlugError (Text × Bool)) → ℕ → ℕ → Reads → Result SlugError Text
unfolding try_length
try_lengths build zero len reads = err still_running
try_lengths build (suc rounds) len reads = do
  (found, left) ← try_length build 7 len reads
  elim found [ some candidate ↦ ok candidate | none ↦ try_lengths build rounds (suc len) left ]

unfoldable pub retry_with_suffix :
    (Text → Result SlugError (Text × Bool)) → ℕ → Reads → Result SlugError Text
unfolding try_lengths
retry_with_suffix build rounds reads = try_lengths build rounds 7 reads

module _ (make : Text → Text) where
  abbrev pub or_kind : Text → Option Text → Text × Bool
  or_kind kind (some trimmed) = (trimmed, false)
  or_kind kind none = (kind, true)

  -- The base, and whether it must get a suffix.
  unfoldable pub generate_auto_slug_base : Text → ℕ → Text → Text × Bool
  unfolding truncate_to_len validate_manual_format
  generate_auto_slug_base name max_len kind =
      or_kind kind (validate_manual_format (truncate_to_len (make name) max_len) max_len)

-- ResolveCreate's slug to store, or its ConflictError.
pub data Resolution : Type 0 where
  stored : Text → Resolution
  conflict : Text → Resolution

module _ (max_len : ℕ) (avail : Text → Option Bool) where
  unfoldable pub try_suffix : Text → Text → Result SlugError (Text × Bool)
  unfolding build_suffixed_candidate
  try_suffix base suffix = do
    candidate ← build_suffixed_candidate base suffix max_len
    free ← or_fail (avail candidate) lookup_failed
    ok (candidate, free)

module _ (max_len : ℕ) (avail : Text → Option Bool) (rounds : ℕ) (reads : Reads) where
  unfoldable pub resolve_with_suffix : Text → Result SlugError Text
  unfolding try_suffix retry_with_suffix
  resolve_with_suffix base = retry_with_suffix (try_suffix max_len avail base) rounds reads

  unfoldable pub resolve_update : Text → Result SlugError Text
  unfolding resolve_with_suffix
  resolve_update new_slug = do
    free ← or_fail (avail new_slug) lookup_failed
    if free then ok new_slug else resolve_with_suffix new_slug

  unfoldable pub resolve_manual : Text → Result SlugError Resolution
  unfolding resolve_with_suffix
  resolve_manual manual = do
    free ← or_fail (avail manual) lookup_failed
    if free
        then ok (stored manual)
        else (do recommended ← resolve_with_suffix manual; ok (conflict recommended))

  unfoldable pub resolve_auto : Text × Bool → Result SlugError Resolution
  unfolding resolve_with_suffix resolve_update
  resolve_auto (base, must_suffix) = do
    final ← (if must_suffix then resolve_with_suffix base else resolve_update base)
    ok (stored final)

  unfoldable pub resolve_create : (Text → Text) → Text → Text → Text → Result SlugError Resolution
  unfolding resolve_manual resolve_auto generate_auto_slug_base
  resolve_create make manual name kind =
      if is_empty manual
      then resolve_auto (generate_auto_slug_base make name max_len kind)
      else resolve_manual manual

-- The alphabet of the suffixes.
indices : ℕ → List ℕ
indices zero = []
indices (suc n) = indices n ++ (n ∷ [])

random_char_test : map random_char (indices 36) ≡ codes "abcdefghijklmnopqrstuvwxyz0123456789"
unfolding indices
random_char_test = refl
