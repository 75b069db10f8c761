-- ===== src/Authorization/Authorizer/Early.antt =====
-- `prepare`: what it asks of a request before the grants are read.
use be_mycourse.Shared.{
  ◌≡◌, refl, ap, true, false, Option, none, some, is_empty, contains, text_eq, trim-trim, Result,
  ok, err, arith, Option-cases, inl, inr,
}
use be_mycourse.Authorization.Domain.{
  Effect, Error, Decision, PolicyDecision, PolicyProvider, ActionDefinition, AuthorizationRequest,
}
use be_mycourse.Authorization.Registry.{Registry, provider, action}
use be_mycourse.Authorization.Authorizer.{
  Preflight, refused, cleared, Preparation, stopped, prepared, PreparedAuthorization, is_user,
  is_policy_deny, deny_for, normalize_request, check_action, preflight, prepare_with, prepare,
}

-- What `preflight` asks for.
pub record IsCleared (registry : Registry) (r : AuthorizationRequest) (p : PolicyProvider)
    : Type 0 where
  pub definition : ActionDefinition
  pub is_user : is_user r.principal.kind ≡ true
  pub identified : is_empty r.principal.id ≡ false
  pub found : action registry r.action ≡ some definition
  pub typed : is_empty r.resource.kind ≡ false
  pub instanced : is_empty r.resource.id ≡ false
  pub matched : text_eq definition.resource_type r.resource.kind ≡ true
  pub held : contains definition.boundary_permission r.principal.global_permissions ≡ true
  pub provided : provider registry r.resource.kind ≡ some p

module _ (registry : Registry) (r : AuthorizationRequest) (p : PolicyProvider) where
  preflight-IsCleared : preflight registry r ≡ cleared p → IsCleared registry r p
  unfolding preflight check_action deny_for
  preflight-IsCleared h = elim (Option-cases (action registry r.action)) [
    | inl e ↦ absurd (ground arith)
    | inr (a, e) ↦ record {
      definition = a;
      is_user = ground arith;
      identified = ground arith;
      found = e;
      typed = ground arith;
      instanced = ground arith;
      matched = ground arith;
      held = ground arith;
      provided = ground arith;
    }
  ]

  IsCleared-preflight : IsCleared registry r p → preflight registry r ≡ cleared p
  unfolding preflight check_action deny_for
  IsCleared-preflight c = ground arith

preflight-refused :
    (registry : Registry) (r : AuthorizationRequest) (d : Decision)
    → preflight registry r ≡ refused d
    → d.effect ≡ Effect.deny
unfolding preflight check_action deny_for
preflight-refused registry r d h = ground arith

-- A request that is stopped early is denied.
pub prepare-stopped :
    (registry : Registry) (request : AuthorizationRequest) (d : Decision) (e : Option Error)
    → prepare registry request ≡ stopped d e
    → d.effect ≡ Effect.deny
unfolding prepare prepare_with deny_for
prepare-stopped registry request d e h =
    by_preflight (preflight registry (normalize_request request)) refl
  where
    by_provider :
        (p : PolicyProvider) (a : Result Error PolicyDecision)
        → p.evaluate (normalize_request request) ≡ a
        → prepare_with (normalize_request request) a ≡ stopped d e
        → d.effect ≡ Effect.deny
    by_provider p (err x) q k = ground arith
    by_provider p (ok v) q k = ground arith

    by_preflight :
        (f : Preflight)
        → preflight registry (normalize_request request) ≡ f
        → d.effect ≡ Effect.deny
    by_preflight (refused d') q =
        ground (arith, preflight-refused registry (normalize_request request) d')
    by_preflight (cleared p) q =
        by_provider p (p.evaluate (normalize_request request)) refl (ground arith)

-- Trimming the request's fields a second time changes nothing, so a request and its trimmed form
-- get the same decision.
pub normalize_request_idem :
    (request : AuthorizationRequest)
    → normalize_request (normalize_request request) ≡ normalize_request request
unfolding normalize_request
normalize_request_idem request = simp trim-trim

module _ (registry : Registry) where
  pub IsCleared-prepare :
      (request : AuthorizationRequest) (policy : PolicyProvider) (answer : PolicyDecision)
      → IsCleared registry (normalize_request request) policy
      → policy.evaluate (normalize_request request) ≡ ok answer
      → is_policy_deny answer.effect ≡ false
      → prepare registry request
        ≡ prepared (record { request = normalize_request request; provider_decision = answer })
  unfolding prepare prepare_with
  IsCleared-prepare request policy answer c e n =
      ground (arith, IsCleared-preflight registry (normalize_request request) policy c)

  pub prepared_lem :
      (request : AuthorizationRequest) (p : PreparedAuthorization)
      → prepare registry request ≡ prepared p
      → (policy : PolicyProvider) × (answer : PolicyDecision) × IsCleared registry
          (normalize_request request)
          policy
        × (policy.evaluate (normalize_request request) ≡ ok answer)
        × (is_policy_deny answer.effect ≡ false)
        × (p ≡ record { request = normalize_request request; provider_decision = answer })
  unfolding prepare
  prepared_lem request p h = by_preflight (preflight registry r) refl
    where
      r : AuthorizationRequest
      r = normalize_request request

      Goal : Type 0
      Goal =
          (policy : PolicyProvider) × (answer : PolicyDecision) × IsCleared registry r policy
          × (policy.evaluate r ≡ ok answer)
          × (is_policy_deny answer.effect ≡ false)
          × (p ≡ record { request = r; provider_decision = answer })

      by_provider :
          (policy : PolicyProvider) (a : Result Error PolicyDecision)
          → preflight registry r ≡ cleared policy
          → policy.evaluate r ≡ a
          → prepare_with r a ≡ prepared p
          → Goal
      by_provider policy (err x) c q k = absurd (ground arith)
      by_provider policy (ok v) c q k =
          (policy, v, preflight-IsCleared registry r policy c, q, ground arith, ground arith)

      by_preflight : (f : Preflight) → preflight registry r ≡ f → Goal
      by_preflight (refused d) q = absurd (ground arith)
      by_preflight (cleared policy) q = by_provider policy (policy.evaluate r) q refl (ground arith)

  pub prepare-normalize_request :
      (request : AuthorizationRequest)
      → prepare registry (normalize_request request) ≡ prepare registry request
  unfolding prepare
  prepare-normalize_request request = ap (λ r. prepare_on r) (normalize_request_idem request)
    where
      prepare_on : AuthorizationRequest → Preparation
      prepare_on r = elim (preflight registry r) [
        | refused d ↦ stopped d none
        | cleared p ↦ prepare_with r (p.evaluate r)
      ]
