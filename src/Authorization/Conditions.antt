-- ===== src/Authorization/Conditions.antt =====
-- internal/authorization/application/conditions.go. Floating point and the parser of RFC 3339
-- times are not code of the repository: they enter as a record of functions.
pub mod Total
pub mod Fits
use be_mycourse.Shared.{
  ℕ, zero, suc, ◌+◌, ◌*◌, ◌-◌, ◌^◌, Bool, true, false, ◌&&◌, ◌||◌, not, Option, none, some, List,
  [], ◌∷◌, Text, codes, text_eq, trim, is_empty, if◌then◌else◌, leb, ltb, ◌==◌, Result, ok, err,
  ◌>>=◌, ◌>>◌, guard, any,
}
use be_mycourse.Shared.Map.{lookup}
use be_mycourse.Shared.Int.{ℤ, pos, negsuc, ltz}
use be_mycourse.Authorization.Domain.{
  Value, str, boolean, integer, float32, float64, time, opaque_value, Condition, ConditionOperator,
  string_equals, bool_equals, numeric_equals, date_before, date_after, unsupported, Error,
  invalid_grant,
}

-- Conversions to float64, `math.Abs(a-e) < 1e-9`, the conversion to int64 and time.Parse.
pub record Runtime : Type 0 where
  pub float_of_int : ℤ → ℕ
  pub widen : ℕ → ℕ
  pub near : ℕ → ℕ → Bool
  pub int_of_float : ℕ → ℤ
  pub parse_rfc3339 : Text → Option ℤ

abbrev pub is_supported : ConditionOperator → Bool
is_supported (unsupported t) = false
is_supported string_equals = true
is_supported bool_equals = true
is_supported numeric_equals = true
is_supported date_before = true
is_supported date_after = true

abbrev pub is_well_shaped : Condition → Bool
is_well_shaped c = not (is_empty (trim c.key)) && not (is_empty c.values)

unfoldable pub validate_conditions : List Condition → Result Error (Unit {0})
validate_conditions [] = ok tt
validate_conditions (c ∷ cs) = do
  guard (is_well_shaped c) invalid_grant
  guard (is_supported c.operator) invalid_grant
  validate_conditions cs

-- strconv.ParseInt(v, 10, 64): an optional sign, then digits, within int64.
digits_value : ℕ → Text → Option ℕ
digits_value n [] = some n
digits_value n (c ∷ s) =
    let rest = digits_value (n * 10 + (c - 48)) s in if leb 48 c && leb c 57 then rest else none

abbrev unsigned_value : Text → Option ℕ
unsigned_value [] = none
unsigned_value (c ∷ s) = digits_value 0 (c ∷ s)

positive : Option ℕ → Option ℤ
positive none = none
positive (some n) = if ltb n (2 ^ 63) then some (pos n) else none

negative : Option ℕ → Option ℤ
negative none = none
negative (some zero) = some (pos 0)
negative (some (suc n)) = if ltb n (2 ^ 63) then some (negsuc n) else none

unfoldable pub parse_int : Text → Option ℤ
unfolding digits_value positive negative
parse_int [] = none
parse_int (c ∷ s) =
    if c == b'-'
    then negative (unsigned_value s)
    else if c == b'+'
    then positive (unsigned_value s)
    else positive (unsigned_value (c ∷ s))

module _ (rt : Runtime) where
  unfoldable pub numeric_value : Value → Option ℕ
  numeric_value (integer n) = some (rt.float_of_int n)
  numeric_value (float32 x) = some (rt.widen x)
  numeric_value (float64 x) = some x
  numeric_value (str s) = none
  numeric_value (boolean b) = none
  numeric_value (time t) = none
  numeric_value opaque_value = none

  unfoldable pub text_time : Text → Option ℤ
  unfolding parse_int
  text_time s = elim (rt.parse_rfc3339 s) [ some t ↦ some t | none ↦ parse_int s ]

  unfoldable pub unix_value : Value → Option ℤ
  unfolding text_time
  unix_value (integer n) = some (rt.int_of_float (rt.float_of_int n))
  unix_value (float32 x) = some (rt.int_of_float (rt.widen x))
  unix_value (float64 x) = some (rt.int_of_float x)
  unix_value (time t) = some t
  unix_value (str s) = text_time s
  unix_value (boolean b) = none
  unix_value opaque_value = none

  abbrev pub same_text : Value → Value → Bool
  same_text (str a) (str e) = text_eq a e
  same_text _ _ = false

  abbrev pub same_boolean : Value → Value → Bool
  same_boolean (boolean true) (boolean e) = e
  same_boolean (boolean false) (boolean e) = not e
  same_boolean _ _ = false

  abbrev pub both {ℓ} : {A : Type ℓ} → (A → A → Bool) → Option A → Option A → Bool
  both test (some a) (some e) = test a e
  both test (some a) none = false
  both test none e = false

  unfoldable pub condition_value_matches : ConditionOperator → Value → Value → Result Error Bool
  unfolding numeric_value unix_value
  condition_value_matches string_equals actual expected = ok (same_text actual expected)
  condition_value_matches bool_equals actual expected = ok (same_boolean actual expected)
  condition_value_matches numeric_equals actual expected =
      ok (both rt.near (numeric_value actual) (numeric_value expected))
  condition_value_matches date_before actual expected =
      ok (both ltz (unix_value actual) (unix_value expected))
  condition_value_matches date_after actual expected =
      ok (both (λ a e. ltz e a) (unix_value actual) (unix_value expected))
  condition_value_matches (unsupported t) actual expected = ok false

  -- The loop over `condition.Values`, which stops at the first match.
  unfoldable pub any_value_matches : ConditionOperator → Value → List Value → Result Error Bool
  unfolding condition_value_matches
  any_value_matches op actual [] = ok false
  any_value_matches op actual (expected ∷ rest) = do
    matched ← condition_value_matches op actual expected
    if matched then ok true else any_value_matches op actual rest

  -- Every condition has to hold; with no condition the answer is true.
  unfoldable pub conditions_match : List Condition → List (Text × Value) → Result Error Bool
  unfolding any_value_matches lookup
  conditions_match [] attributes = ok true
  conditions_match (c ∷ cs) attributes =
      if not (is_well_shaped c)
      then ok false
      else if not (is_supported c.operator)
      then ok false
      else elim (lookup c.key attributes) [
        | none ↦ ok false
        | some actual ↦ any_value_matches c.operator actual c.values >>= λ matched.
            if matched then conditions_match cs attributes else ok false
      ]
