-- ===== src/Authorization/Authorizer.antt =====
-- internal/authorization/application/authorizer.go. The repository is the function `list_active`,
-- the clock is the argument `now`; `Authorize` only logs around `authorize`. A Go result
-- `(Decision, error)` is a pair, since both parts count when the decision fails.
pub mod Matching
pub mod Verdict
pub mod Early
pub mod Access
use be_mycourse.Shared.{
  Bool, true, false, ◌&&◌, ◌||◌, not, Option, none, some, List, [], ◌∷◌, ◌++◌, Text, text_eq, trim,
  is_empty, sort, contains, if◌then◌else◌, Result, ok, err, ◌>>=◌,
}
use be_mycourse.Shared.Int.{ℤ}
use be_mycourse.Authorization.Domain.{
  Effect, allow, deny, other, Principal, PrincipalType, user, Resource, AuthorizationRequest,
  Decision, DecisionReason, invalid_principal, unknown_action, resource_type_mismatch,
  missing_global_permission, provider_deny, explicit_deny, provider_allow, grant_allow,
  implicit_deny, evaluation_error, unset, custom, PolicyEffect, PolicyDecision, PolicyProvider,
  ActionDefinition, Value, Grant, GrantQuery, Error, active_at,
}
use be_mycourse.Authorization.Conditions.{Runtime, conditions_match}
use be_mycourse.Authorization.Registry.{Registry, provider, action}

pub record PreparedAuthorization : Type 0 where
  pub request : AuthorizationRequest
  pub provider_decision : PolicyDecision

-- The result of `prepare`: `stop` with an early decision and an error, or the prepared request.
pub data Preparation : Type 0 where
  stopped : Decision → Option Error → Preparation
  prepared : PreparedAuthorization → Preparation

pub data Preflight : Type 0 where
  refused : Decision → Preflight
  cleared : PolicyProvider → Preflight

unfoldable pub deny_for : DecisionReason → Decision
deny_for reason = record { effect = Effect.deny; reason = reason; matched_grant_ids = [] }

unfoldable pub normalize_request : AuthorizationRequest → AuthorizationRequest
normalize_request r = record r {
  principal = record principal { id = trim principal.id };
  action = trim r.action;
  resource = record { kind = trim r.resource.kind; id = trim r.resource.id };
}
  where
    open r use {principal}

abbrev pub is_user : PrincipalType → Bool
is_user user = true
is_user (other t) = false

abbrev or_refuse : Option PolicyProvider → Preflight
or_refuse none =
    refused (record { effect = Effect.deny; reason = unknown_action; matched_grant_ids = [] })
or_refuse (some p) = cleared p

-- The tests of `preflight` once the action is found.
unfoldable pub check_action : Registry → AuthorizationRequest → ActionDefinition → Preflight
unfolding deny_for provider
check_action registry r a =
    if is_empty r.resource.kind
      || is_empty r.resource.id
      || not (text_eq a.resource_type r.resource.kind)
    then refused (deny_for resource_type_mismatch)
    else if not (contains a.boundary_permission r.principal.global_permissions)
    then refused (deny_for missing_global_permission)
    else or_refuse (provider registry r.resource.kind)

unfoldable pub preflight : Registry → AuthorizationRequest → Preflight
unfolding deny_for check_action action
preflight registry r =
    if not (is_user r.principal.kind) || is_empty r.principal.id
    then refused (deny_for invalid_principal)
    else elim (action registry r.action) [
      | none ↦ refused (deny_for unknown_action)
      | some a ↦ check_action registry r a
    ]

abbrev reason_or_provider_deny : DecisionReason → DecisionReason
reason_or_provider_deny unset = provider_deny
reason_or_provider_deny reason = reason

abbrev pub is_policy_deny : PolicyEffect → Bool
is_policy_deny PolicyEffect.deny = true
is_policy_deny PolicyEffect.neutral = false
is_policy_deny PolicyEffect.allow = false
is_policy_deny (PolicyEffect.other t) = false

abbrev pub is_policy_allow : PolicyEffect → Bool
is_policy_allow PolicyEffect.allow = true
is_policy_allow PolicyEffect.neutral = false
is_policy_allow PolicyEffect.deny = false
is_policy_allow (PolicyEffect.other t) = false

-- The rest of `prepare`, on the provider's answer.
unfoldable pub prepare_with : AuthorizationRequest → Result Error PolicyDecision → Preparation
unfolding deny_for
prepare_with r (err e) = stopped (deny_for evaluation_error) (some e)
prepare_with r (ok d) =
    if is_policy_deny d.effect
    then stopped (deny_for (reason_or_provider_deny d.reason)) none
    else prepared (record { request = r; provider_decision = d })

unfoldable pub prepare : Registry → AuthorizationRequest → Preparation
unfolding normalize_request preflight prepare_with
prepare registry request =
    let r = normalize_request request in
    elim (preflight registry r) [
      | refused d ↦ stopped d none
      | cleared p ↦ prepare_with r (p.evaluate r)
    ]

-- `decidePreparedAuthorization` on the matching ids: deny first, then the provider, then allow.
unfoldable pub decide_on :
    PolicyDecision → Result Error (List Text × List Text) → Decision × Option Error
unfolding deny_for sort
decide_on d (err e) = (deny_for evaluation_error, some e)
decide_on d (ok (allow_ids, deny_ids)) =
    if not (is_empty deny_ids)
    then (
      record { effect = Effect.deny; reason = explicit_deny; matched_grant_ids = sort deny_ids },
      none,
    )
    else if is_policy_allow d.effect
    then (record { effect = Effect.allow; reason = provider_allow; matched_grant_ids = [] }, none)
    else if not (is_empty allow_ids)
    then (
      record { effect = Effect.allow; reason = grant_allow; matched_grant_ids = sort allow_ids },
      none,
    )
    else (deny_for implicit_deny, none)

abbrev pub query_of : AuthorizationRequest → GrantQuery
query_of r = record {
  principal_user_ids = r.principal.id ∷ [];
  action_names = r.action ∷ [];
  resource = r.resource;
  effects = Effect.allow ∷ Effect.deny ∷ [];
}

module _ (rt : Runtime) where
  -- The loop of `matchingGrantIDs`, over the two slices that it fills.
  unfoldable pub matching_from :
      List Grant
      → List (Text × Value)
      → ℤ
      → List Text
      → List Text
      → Result Error (List Text × List Text)
  unfolding active_at conditions_match
  matching_from [] attributes now allow_ids deny_ids = ok (allow_ids, deny_ids)
  matching_from (g ∷ gs) attributes now allow_ids deny_ids =
      let skip = matching_from gs attributes now allow_ids deny_ids in
      let with_deny = matching_from gs attributes now allow_ids (deny_ids ++ (g.id ∷ [])) in
      let with_allow = matching_from gs attributes now (allow_ids ++ (g.id ∷ [])) deny_ids in
      if not (active_at g now)
      then skip
      else (conditions_match rt g.conditions attributes >>= λ matched.
          if not matched then skip else elim g.effect [
            | Effect.deny ↦ with_deny
            | Effect.allow ↦ with_allow
            | Effect.other t ↦ skip
          ])

  unfoldable pub matching_grant_ids :
      List Grant → List (Text × Value) → ℤ → Result Error (List Text × List Text)
  unfolding matching_from
  matching_grant_ids gs attributes now = matching_from gs attributes now [] []

  unfoldable pub decide_prepared : PreparedAuthorization → List Grant → ℤ → Decision × Option Error
  unfolding decide_on matching_grant_ids
  decide_prepared p gs now =
      decide_on p.provider_decision (matching_grant_ids gs p.request.context.attributes now)

  -- `decidePreparedAuthorization` behind the query, whose error denies.
  unfoldable pub decide_listed :
      PreparedAuthorization → Result Error (List Grant) → ℤ → Decision × Option Error
  unfolding deny_for decide_prepared
  decide_listed p (err e) now = (deny_for evaluation_error, some e)
  decide_listed p (ok gs) now = decide_prepared p gs now

  unfoldable pub authorize :
      Registry
      → (GrantQuery → ℤ → Result Error (List Grant))
      → ℤ
      → AuthorizationRequest
      → Decision × Option Error
  unfolding prepare decide_listed
  authorize registry list_active now request = elim (prepare registry request) [
    | stopped d e ↦ (d, e)
    | prepared p ↦ decide_listed p (list_active (query_of p.request) now) now
  ]
