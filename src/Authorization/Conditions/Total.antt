-- ===== src/Authorization/Conditions/Total.antt =====
-- What the conditions of a grant decide, and that they never fail.
use be_mycourse.Shared.{
  ◌≡◌, refl, Bool, true, false, ◌&&◌, none, some, List, [], ◌∷◌, Text, ok, err, Result, any, all,
  arith, inl, inr, Option-cases,
}
use be_mycourse.Shared.Map.{lookup}
use be_mycourse.Authorization.Domain.{
  Value, Condition, ConditionOperator, string_equals, bool_equals, numeric_equals, date_before,
  date_after, unsupported, Error,
}
use be_mycourse.Authorization.Conditions.{
  Runtime, is_well_shaped, is_supported, condition_value_matches, any_value_matches,
  conditions_match, validate_conditions,
}

-- The answer of a test that does not fail.
abbrev pub holds : Result Error Bool → Bool
holds (ok b) = b
holds (err e) = false

module _ (rt : Runtime) where
  -- One condition on its own: it is well shaped, its key has a value, and some expected value fits.
  unfoldable pub condition_holds : List (Text × Value) → Condition → Bool
  condition_holds attributes c =
      is_well_shaped c && is_supported c.operator && (elim (lookup c.key attributes) [
        | none ↦ false
        | some actual ↦
            any (λ expected. holds (condition_value_matches rt c.operator actual expected)) c.values
      ])

  value_total :
      (op : ConditionOperator) (actual expected : Value)
      → condition_value_matches rt op actual expected
        ≡ ok (holds (condition_value_matches rt op actual expected))
  unfolding condition_value_matches
  value_total string_equals actual expected = refl
  value_total bool_equals actual expected = refl
  value_total numeric_equals actual expected = refl
  value_total date_before actual expected = refl
  value_total date_after actual expected = refl
  value_total (unsupported t) actual expected = refl

  any_value_total :
      (op : ConditionOperator) (actual : Value) (vs : List Value)
      → any_value_matches rt op actual vs
        ≡ ok (any (λ expected. holds (condition_value_matches rt op actual expected)) vs)
  unfolding any_value_matches any
  any_value_total op actual [] = refl
  any_value_total op actual (v ∷ vs) =
      ground (arith, value_total op actual v, any_value_total op actual vs)

  -- `conditionsMatch` never fails, and answers true exactly when each condition holds on its own.
  pub conditions_match-all :
      (cs : List Condition) (attributes : List (Text × Value))
      → conditions_match rt cs attributes ≡ ok (all (condition_holds attributes) cs)
  unfolding conditions_match all condition_holds
  conditions_match-all [] attributes = refl
  conditions_match-all (c ∷ cs) attributes = elim (Option-cases (lookup c.key attributes)) [
    | inl e ↦ ground (arith, conditions_match-all cs attributes)
    | inr (v, e) ↦
        ground (arith, any_value_total c.operator v c.values, conditions_match-all cs attributes)
  ]

-- Conditions that were validated are refused for no reason of shape.
pub validate_conditions-shape :
    (cs : List Condition)
    → validate_conditions cs ≡ ok tt
    → all (λ c. is_well_shaped c && is_supported c.operator) cs ≡ true
unfolding validate_conditions all
validate_conditions-shape [] h = refl
validate_conditions-shape (c ∷ cs) h = ground (arith, validate_conditions-shape cs)
