-- ===== src/Shared/Runes.antt =====
-- utf8.RuneCountInString on the bytes of a string: a byte that begins no valid sequence counts as
-- one.
use Prim.Native.Nat.{ℕ, zero, suc, ◌+◌}
use mathlib.Core.Bool.{Bool, true, not, ◌&&◌, ◌||◌}
use mathlib.Core.Path.{◌≡◌, refl}
use mathlib.Core.List.{[], ◌∷◌}
use be_mycourse.Shared.Tests.{leb, ◌==◌, if◌then◌else◌}
use be_mycourse.Shared.Texts.{Text}
use be_mycourse.Shared.Trim.{is_space1, is_space2, is_space3, trim}

abbrev within : ℕ → ℕ → ℕ → Bool
within low high b = leb low b && leb b high

-- How many bytes of `s` continue the sequence that `c` begins.
abbrev two_follow : ℕ → ℕ → ℕ → Bool
two_follow c b d =
    ((c == 224 && within 160 191 b)
      || (within 225 236 c && within 128 191 b)
      || (c == 237 && within 128 159 b)
      || (within 238 239 c && within 128 191 b))
    && within 128 191 d

abbrev three_follow : ℕ → ℕ → ℕ → ℕ → Bool
three_follow c b d e =
    ((c == 240 && within 144 191 b)
      || (within 241 243 c && within 128 191 b)
      || (c == 244 && within 128 143 b))
    && within 128 191 d
    && within 128 191 e

continued : ℕ → Text → ℕ
continued c [] = 0
continued c (b ∷ []) = if within 194 223 c && within 128 191 b then 1 else 0
continued c (b ∷ d ∷ []) =
    if within 194 223 c && within 128 191 b then 1 else if two_follow c b d then 2 else 0
continued c (b ∷ d ∷ e ∷ s) =
    if within 194 223 c && within 128 191 b
    then 1
    else if two_follow c b d
    then 2
    else if three_follow c b d e
    then 3
    else 0

runes_after : ℕ → Text → ℕ
unfolding continued
runes_after k [] = 0
runes_after zero (c ∷ s) = 1 + runes_after (continued c s) s
runes_after (suc k) (c ∷ s) = runes_after k s

unfoldable pub rune_count : Text → ℕ
unfolding runes_after
rune_count s = runes_after 0 s

-- The bytes of `é€x` and a stray continuation byte.
rune_count_test : rune_count (195 ∷ 169 ∷ 226 ∷ 130 ∷ 172 ∷ 120 ∷ 128 ∷ []) ≡ 4
unfolding rune_count
rune_count_test = refl

valid_after : ℕ → Text → Bool
unfolding continued
valid_after k [] = true
valid_after zero (c ∷ s) = (leb c 127 || leb 1 (continued c s)) && valid_after (continued c s) s
valid_after (suc k) (c ∷ s) = valid_after k s

-- utf8.ValidString
unfoldable pub valid_string : Text → Bool
unfolding valid_after
valid_string s = valid_after 0 s

-- `é`, and its first byte alone.
valid_string_test : (valid_string (195 ∷ 169 ∷ []) && not (valid_string (195 ∷ []))) ≡ true
unfolding valid_string
valid_string_test = refl

-- Is the rune that `c` begins, and `s` goes on with, a space? Every space has at most three bytes,
-- which no rune of another length starts with.
is_space_at : ℕ → Text → Bool
is_space_at c [] = is_space1 c
is_space_at c (b ∷ []) = is_space1 c || is_space2 c b
is_space_at c (b ∷ d ∷ s) = is_space1 c || is_space2 c b || is_space3 c b d

visible_after : ℕ → Text → ℕ
unfolding continued is_space_at
visible_after k [] = 0
visible_after zero (c ∷ s) =
    let rest = visible_after (continued c s) s in if is_space_at c s then rest else 1 + rest
visible_after (suc k) (c ∷ s) = visible_after k s

-- utils.CountNonWhitespace
unfoldable pub count_non_whitespace : Text → ℕ
unfolding visible_after trim
count_non_whitespace s = visible_after 0 (trim s)

-- ` é b` and an ideographic space between: two visible runes.
count_non_whitespace_test : count_non_whitespace (32 ∷ 195 ∷ 169 ∷ 227 ∷ 128 ∷ 128 ∷ 98 ∷ []) ≡ 2
unfolding count_non_whitespace
count_non_whitespace_test = refl
