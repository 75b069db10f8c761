-- ===== src/Authorization/Authorizer/Matching.antt =====
-- What the loop of `matchingGrantIDs` collects, and how a decision follows from it.
use be_mycourse.Shared.{
  ◌≡◌, refl, Bool, true, false, ◌&&◌, not, List, [], ◌∷◌, ◌++◌, map, Text, is_empty, any, all, keep,
  ok, arith,
}
use mathlib.Core.List.{append_assoc, append-nil}
use be_mycourse.Shared.Int.{ℤ}
use be_mycourse.Authorization.Domain.{Effect, Value, Grant, active_at, is_allow}
use be_mycourse.Authorization.Conditions.{Runtime}
use be_mycourse.Authorization.Conditions.Total.{condition_holds, conditions_match-all}
use be_mycourse.Authorization.Authorizer.{matching_from, matching_grant_ids}

abbrev pub is_deny : Effect → Bool
is_deny Effect.deny = true
is_deny Effect.allow = false
is_deny (Effect.other t) = false

module _ (rt : Runtime) (attributes : List (Text × Value)) (now : ℤ) where
  -- A grant counts when it is active and each of its conditions holds.
  pub in_force : Grant → Bool
  in_force g = active_at g now && all (condition_holds rt attributes) g.conditions

  unfoldable pub denies : Grant → Bool
  denies g = in_force g && is_deny g.effect

  unfoldable pub allows : Grant → Bool
  allows g = in_force g && is_allow g.effect

  abbrev pub ids : (Grant → Bool) → List Grant → List Text
  ids p gs = map (λ g. g.id) (keep p gs)

  matching_from_lem :
      (gs : List Grant) (allow_ids deny_ids : List Text)
      → matching_from rt gs attributes now allow_ids deny_ids
        ≡ ok (allow_ids ++ ids allows gs, deny_ids ++ ids denies gs)
  unfolding matching_from denies allows in_force keep
  matching_from_lem [] as' ds = rw (append-nil as', append-nil ds)
  matching_from_lem (g ∷ gs) as' ds = ground (
    arith,
    conditions_match-all rt g.conditions attributes,
    matching_from_lem gs as' ds,
    matching_from_lem gs (as' ++ (g.id ∷ [])) ds,
    matching_from_lem gs as' (ds ++ (g.id ∷ [])),
    append_assoc as' (g.id ∷ []) (ids allows gs),
    append_assoc ds (g.id ∷ []) (ids denies gs),
  )

  pub matching_grant_ids_lem :
      (gs : List Grant)
      → matching_grant_ids rt gs attributes now ≡ ok (ids allows gs, ids denies gs)
  unfolding matching_grant_ids
  matching_grant_ids_lem gs = matching_from_lem gs [] []

  pub is_empty-ids : (p : Grant → Bool) (gs : List Grant) → is_empty (ids p gs) ≡ not (any p gs)
  unfolding keep any
  is_empty-ids p [] = refl
  is_empty-ids p (g ∷ gs) = ground (arith, is_empty-ids p gs)
