-- ===== src/Authorization/Conditions/Fits.antt =====
-- internal/authorization/application/conditions.go: when a value fits, and when a condition holds,
-- stated without the code's conversions to a number or an instant.
use be_mycourse.Shared.{
  ℕ, ◌≡◌, ◌≢◌, refl, sym, ap, subst, ◌∙◌, ◌↔◌, ◌⊎◌, inl, inr, Bool, true, false, ◌&&◌, Option, none,
  some, List, [], ◌∷◌, Text, trim, is_empty, text_eq→eq, text_eq_refl, ltb→lt, lt→ltb, ok, any, all,
  Bool-cases, Option-cases, ok-injective, arith,
}
use be_mycourse.Shared.Every.{All}
use be_mycourse.Shared.Int.{ℤ, ◌<ℤ◌, ltz}
use be_mycourse.Shared.Map.{lookup}
use be_mycourse.Authorization.Domain.{
  Value, str, boolean, integer, float32, float64, time, opaque_value, Condition, ConditionOperator,
  string_equals, bool_equals, numeric_equals, date_before, date_after, unsupported,
}
use be_mycourse.Authorization.Conditions.{
  Runtime, parse_int, numeric_value, unix_value, condition_value_matches, conditions_match,
  is_well_shaped, is_supported, both, same_text, same_boolean,
}
use be_mycourse.Authorization.Conditions.Total.{holds, condition_holds, conditions_match-all}

some_injective : {A : Type 0} {a b : A} → some a ≡ some b → a ≡ b
some_injective {A} {a} {b} h = cc

module _ (rt : Runtime) where
  -- The number that a value is.
  pub data IsNumber : Value → ℕ → Type 0 where
    from_integer : (n : ℤ) → IsNumber (integer n) (rt.float_of_int n)
    from_float32 : (x : ℕ) → IsNumber (float32 x) (rt.widen x)
    from_float64 : (x : ℕ) → IsNumber (float64 x) x

  -- The second that a value stands for: a text is an RFC 3339 time, or else a decimal int64.
  pub data IsInstant : Value → ℤ → Type 0 where
    of_time : (t : ℤ) → IsInstant (time t) t
    of_integer : (n : ℤ) → IsInstant (integer n) (rt.int_of_float (rt.float_of_int n))
    of_float32 : (x : ℕ) → IsInstant (float32 x) (rt.int_of_float (rt.widen x))
    of_float64 : (x : ℕ) → IsInstant (float64 x) (rt.int_of_float x)
    of_rfc3339 : (s : Text) (t : ℤ) → rt.parse_rfc3339 s ≡ some t → IsInstant (str s) t
    of_digits :
        (s : Text) (t : ℤ) → rt.parse_rfc3339 s ≡ none → parse_int s ≡ some t → IsInstant (str s) t

  -- An actual and an expected value fit under an operator.
  pub data Fits : ConditionOperator → Value → Value → Type 0 where
    equal_texts : (s : Text) → Fits string_equals (str s) (str s)
    equal_booleans : (b : Bool) → Fits bool_equals (boolean b) (boolean b)
    near_numbers :
        {a e : Value} {x y : ℕ}
        → IsNumber a x
        → IsNumber e y
        → rt.near x y ≡ true
        → Fits numeric_equals a e
    earlier :
        {a e : Value} {x y : ℤ} → IsInstant a x → IsInstant e y → x <ℤ y → Fits date_before a e
    later : {a e : Value} {x y : ℤ} → IsInstant a x → IsInstant e y → y <ℤ x → Fits date_after a e

  IsNumber-value : {v : Value} {x : ℕ} → IsNumber v x → numeric_value rt v ≡ some x
  unfolding numeric_value
  IsNumber-value (from_integer n) = refl
  IsNumber-value (from_float32 x) = refl
  IsNumber-value (from_float64 x) = refl

  numeric_value-IsNumber : (v : Value) {x : ℕ} → numeric_value rt v ≡ some x → IsNumber v x
  unfolding numeric_value
  numeric_value-IsNumber (integer n) h =
      subst (IsNumber (integer n)) (some_injective h) (from_integer n)
  numeric_value-IsNumber (float32 x) h =
      subst (IsNumber (float32 x)) (some_injective h) (from_float32 x)
  numeric_value-IsNumber (float64 x) h =
      subst (IsNumber (float64 x)) (some_injective h) (from_float64 x)
  numeric_value-IsNumber (str s) h = absurd cc
  numeric_value-IsNumber (boolean b) h = absurd cc
  numeric_value-IsNumber (time t) h = absurd cc
  numeric_value-IsNumber opaque_value h = absurd cc

  IsInstant-value : {v : Value} {t : ℤ} → IsInstant v t → unix_value rt v ≡ some t
  unfolding unix_value
  IsInstant-value (of_time t) = refl
  IsInstant-value (of_integer n) = refl
  IsInstant-value (of_float32 x) = refl
  IsInstant-value (of_float64 x) = refl
  IsInstant-value (of_rfc3339 s t e) = ground (arith, e)
  IsInstant-value (of_digits s t e d) = ground (arith, e, d)

  unix_value-IsInstant : (v : Value) {t : ℤ} → unix_value rt v ≡ some t → IsInstant v t
  unfolding unix_value
  unix_value-IsInstant (time t) h = subst (IsInstant (time t)) (some_injective h) (of_time t)
  unix_value-IsInstant (integer n) h =
      subst (IsInstant (integer n)) (some_injective h) (of_integer n)
  unix_value-IsInstant (float32 x) h =
      subst (IsInstant (float32 x)) (some_injective h) (of_float32 x)
  unix_value-IsInstant (float64 x) h =
      subst (IsInstant (float64 x)) (some_injective h) (of_float64 x)
  unix_value-IsInstant (str s) {t} h = elim (Option-cases (rt.parse_rfc3339 s)) [
    | inl e ↦ of_digits s t e (ground arith)
    | inr (u, e) ↦ of_rfc3339 s t (ground arith)
  ]
  unix_value-IsInstant (boolean b) h = absurd cc
  unix_value-IsInstant opaque_value h = absurd cc

  both-true :
      {A : Type 0} (test : A → A → Bool) (o p : Option A)
      → both rt test o p ≡ true
      → (x : A) × (y : A) × (o ≡ some x) × (p ≡ some y) × (test x y ≡ true)
  both-true test (some x) (some y) h = (x, y, refl, refl, h)
  both-true test (some x) none h = absurd cc
  both-true test none p h = absurd cc

  Fits-holds :
      {op : ConditionOperator} {a e : Value}
      → Fits op a e
      → holds (condition_value_matches rt op a e) ≡ true
  unfolding condition_value_matches
  Fits-holds (equal_texts s) = text_eq_refl s
  Fits-holds (equal_booleans true) = refl
  Fits-holds (equal_booleans false) = refl
  Fits-holds (near_numbers n m h) = rw (IsNumber-value n, IsNumber-value m) h
  Fits-holds (earlier {x = x} {y = y} n m h) =
      rw (IsInstant-value n, IsInstant-value m) (lt→ltb _ _ h)
  Fits-holds (later {x = x} {y = y} n m h) =
      rw (IsInstant-value n, IsInstant-value m) (lt→ltb _ _ h)

  same_text-Fits : (a e : Value) → same_text rt a e ≡ true → Fits string_equals a e
  same_text-Fits (str s) (str t) h =
      subst (λ x. Fits string_equals (str s) (str x)) (text_eq→eq s t h) (equal_texts s)
  same_text-Fits a e h = absurd cc

  same_boolean-Fits : (a e : Value) → same_boolean rt a e ≡ true → Fits bool_equals a e
  same_boolean-Fits (boolean true) (boolean true) h = equal_booleans true
  same_boolean-Fits (boolean false) (boolean false) h = equal_booleans false
  same_boolean-Fits a e h = absurd cc

  holds-Fits :
      (op : ConditionOperator) (a e : Value)
      → holds (condition_value_matches rt op a e) ≡ true
      → Fits op a e
  unfolding condition_value_matches
  holds-Fits string_equals a e h = same_text-Fits a e h
  holds-Fits bool_equals a e h = same_boolean-Fits a e h
  holds-Fits numeric_equals a e h =
      let (x, y, n, m, k) = both-true rt.near (numeric_value rt a) (numeric_value rt e) h in
      near_numbers (numeric_value-IsNumber a n) (numeric_value-IsNumber e m) k
  holds-Fits date_before a e h =
      let (x, y, n, m, k) = both-true ltz (unix_value rt a) (unix_value rt e) h in
      earlier (unix_value-IsInstant a n) (unix_value-IsInstant e m) (ltb→lt _ _ k)
  holds-Fits date_after a e h =
      let (x, y, n, m, k) = both-true (λ u v. ltz v u) (unix_value rt a) (unix_value rt e) h in
      later (unix_value-IsInstant a n) (unix_value-IsInstant e m) (ltb→lt _ _ k)
  holds-Fits (unsupported t) a e h = absurd cc

  -- Some expected value fits.
  abbrev pub SomeFits : ConditionOperator → Value → List Value → Type 0
  SomeFits op a [] = ⊥
  SomeFits op a (e ∷ es) = Fits op a e ⊎ SomeFits op a es

  any-SomeFits :
      (op : ConditionOperator) (a : Value) (es : List Value)
      → (any (λ e. holds (condition_value_matches rt op a e)) es ≡ true) ↔ SomeFits op a es
  unfolding any
  any-SomeFits op a [] = (λ h. absurd cc, λ h. absurd h)
  any-SomeFits op a (e ∷ es) = elim (Bool-cases (holds (condition_value_matches rt op a e))) [
    | inl t ↦ (λ h. inl (holds-Fits op a e t), λ h. ground arith)
    | inr f ↦ (
      λ h. inr ((any-SomeFits op a es).0 (ground arith)),
      λ s. elim s [
        | inl fit ↦ absurd (ground (arith, Fits-holds fit))
        | inr rest ↦ ground (arith, (any-SomeFits op a es).1 rest)
      ],
    )
  ]

  -- The key of the condition is not blank and has a value, which fits one of the condition's.
  pub record Holds (attributes : List (Text × Value)) (c : Condition) : Type 0 where
    pub keyed : trim c.key ≢ []
    pub actual : Value
    pub listed : lookup c.key attributes ≡ some actual
    pub fits : SomeFits c.operator actual c.values

  Fits-supported : {op : ConditionOperator} {a e : Value} → Fits op a e → is_supported op ≡ true
  Fits-supported (equal_texts s) = refl
  Fits-supported (equal_booleans b) = refl
  Fits-supported (near_numbers n m h) = refl
  Fits-supported (earlier n m h) = refl
  Fits-supported (later n m h) = refl

  SomeFits-supported :
      (op : ConditionOperator) (a : Value) (es : List Value)
      → SomeFits op a es
      → (is_supported op ≡ true) × (is_empty es ≡ false)
  SomeFits-supported op a [] h = absurd h
  SomeFits-supported op a (e ∷ es) (inl fit) = (Fits-supported fit, refl)
  SomeFits-supported op a (e ∷ es) (inr rest) = ((SomeFits-supported op a es rest).0, refl)

  nonempty : (s : Text) → (is_empty s ≡ false) ↔ (s ≢ [])
  nonempty [] = (λ h. absurd cc, λ h. absurd (h refl))
  nonempty (c ∷ s) = (λ h e. cc, λ h. refl)

  fitting : Condition → Option Value → Bool
  fitting c none = false
  fitting c (some actual) =
      any (λ e. holds (condition_value_matches rt c.operator actual e)) c.values

  condition_holds-fitting :
      (attributes : List (Text × Value)) (c : Condition)
      → condition_holds rt attributes c
        ≡ (is_well_shaped c && is_supported c.operator && fitting c (lookup c.key attributes))
  unfolding condition_holds fitting
  condition_holds-fitting attributes c = elim (Option-cases (lookup c.key attributes)) [
    | inl e ↦ rw (e, condition_holds) refl
    | inr (v, e) ↦ rw (e, condition_holds) refl
  ]

  condition_holds_iff :
      (attributes : List (Text × Value)) (c : Condition)
      → (condition_holds rt attributes c ≡ true) ↔ Holds attributes c
  unfolding fitting
  condition_holds_iff attributes c =
      rw (condition_holds-fitting attributes c) (elim (Option-cases (lookup c.key attributes)) [
        | inl e ↦ rw (e) (λ h. absurd (ground arith), λ h. absurd (let l = h.listed in cc))
        | inr (v, e) ↦ rw (e) (
          λ h. record {
            keyed = (nonempty (trim c.key)).0 (ground arith);
            actual = v;
            listed = e;
            fits = (any-SomeFits c.operator v c.values).0 (ground arith);
          },
          λ h.
              let same : v ≡ h.actual = some_injective (sym e ∙ h.listed) in
              let fit = subst (λ x. SomeFits c.operator x c.values) (sym same) h.fits in
              let (supported, filled) = SomeFits-supported c.operator v c.values fit in
              let key = (nonempty (trim c.key)).1 h.keyed in
              let some_fit = (any-SomeFits c.operator v c.values).1 fit in ground arith,
        )
      ])

  all_iff :
      (attributes : List (Text × Value)) (cs : List Condition)
      → (all (condition_holds rt attributes) cs ≡ true) ↔ All (Holds attributes) cs
  unfolding all
  all_iff attributes [] = (λ h. tt, λ h. refl)
  all_iff attributes (c ∷ cs) = (
    λ h. (
      (condition_holds_iff attributes c).0 (ground arith),
      (all_iff attributes cs).0 (ground arith),
    ),
    λ h. ground (arith, (condition_holds_iff attributes c).1 h.0, (all_iff attributes cs).1 h.1),
  )

  -- conditionsMatch never fails, and answers true exactly when every condition has a key that is
  -- not blank, with a value that fits one of the condition's: equal texts, equal booleans, near
  -- numbers, or an instant before or after the expected one.
  pub conditions_match_iff :
      (cs : List Condition) (attributes : List (Text × Value))
      → ((b : Bool) × (conditions_match rt cs attributes ≡ ok b))
        × ((conditions_match rt cs attributes ≡ ok true) ↔ All (Holds attributes) cs)
  conditions_match_iff cs attributes =
      let e = conditions_match-all rt cs attributes in
      (
        (all (condition_holds rt attributes) cs, e),
        (
          λ h. (all_iff attributes cs).0 (ok-injective (sym e ∙ h)),
          λ h. e ∙ ap ok ((all_iff attributes cs).1 h),
        ),
      )
