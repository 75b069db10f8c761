-- ===== src/Authorization/Authorizer/Access.antt =====
-- `Authorize` from the request to the decision: when it allows, and that it fails closed.
use be_mycourse.Shared.{
  ◌≡◌, refl, sym, ap, ◌∙◌, trim, subst, ◌↔◌, true, false, ◌||◌, Option, some, List, any, Result, ok,
  err, arith,
}
use be_mycourse.Shared.Int.{ℤ}
use be_mycourse.Authorization.Domain.{
  Effect, Grant, GrantQuery, Error, Decision, PolicyDecision, PolicyProvider, AuthorizationRequest,
  allowed,
}
use be_mycourse.Authorization.Conditions.{Runtime}
use be_mycourse.Authorization.Registry.{Registry}
use be_mycourse.Authorization.Authorizer.{
  Preparation, stopped, prepared, PreparedAuthorization, is_policy_deny, is_policy_allow, deny_for,
  normalize_request, prepare, decide_listed, query_of, authorize,
}
use be_mycourse.Authorization.Authorizer.Matching.{denies, allows}
use be_mycourse.Authorization.Authorizer.Verdict.{allowed-decide_prepared, decide_prepared-no_error}
use be_mycourse.Authorization.Authorizer.Early.{
  IsCleared, IsCleared-prepare, prepare-stopped, prepared_lem, prepare-normalize_request,
}

-- The requests agree but for blanks around their texts.
pub record IsSameUpToBlanks (r s : AuthorizationRequest) : Type 0 where
  pub same_kind : r.principal.kind ≡ s.principal.kind
  pub same_id : trim r.principal.id ≡ trim s.principal.id
  pub same_permissions : r.principal.global_permissions ≡ s.principal.global_permissions
  pub same_action : trim r.action ≡ trim s.action
  pub same_type : trim r.resource.kind ≡ trim s.resource.kind
  pub same_resource : trim r.resource.id ≡ trim s.resource.id
  pub same_context : r.context ≡ s.context

normalize_request-same :
    (r s : AuthorizationRequest) → IsSameUpToBlanks r s → normalize_request r ≡ normalize_request s
unfolding normalize_request
normalize_request-same r s same = λ i. record {
  principal = record {
    kind = same.same_kind i;
    id = same.same_id i;
    global_permissions = same.same_permissions i;
  };
  action = same.same_action i;
  resource = record { kind = same.same_type i; id = same.same_resource i };
  context = same.same_context i;
}

module _ (rt : Runtime) (registry : Registry)
    (list_active : GrantQuery → ℤ → Result Error (List Grant)) (now : ℤ) where
  -- All that an allowed request rests on: the principal, the action, the resource and the boundary
  -- permission, a provider that does not deny, the listed grants with no denial in force, and the
  -- provider or a grant in force that allows.
  pub record IsGranted (request : AuthorizationRequest) : Type 0 where
    pub policy : PolicyProvider
    pub cleared : IsCleared registry (normalize_request request) policy
    pub answer : PolicyDecision
    pub evaluated : policy.evaluate (normalize_request request) ≡ ok answer
    pub not_denied : is_policy_deny answer.effect ≡ false
    pub grants : List Grant
    pub listed : list_active (query_of (normalize_request request)) now ≡ ok grants
    pub no_denial :
        any (denies rt (normalize_request request).context.attributes now) grants ≡ false
    pub some_allowance :
        (is_policy_allow answer.effect
          || any (allows rt (normalize_request request).context.attributes now) grants)
        ≡ true

  pub authorize-prepared :
      (request : AuthorizationRequest) (p : PreparedAuthorization)
      → prepare registry request ≡ prepared p
      → authorize rt registry list_active now request
        ≡ decide_listed rt p (list_active (query_of p.request) now) now
  unfolding authorize
  authorize-prepared request p h = unfold prepare in ground arith

  pub authorize-stopped :
      (request : AuthorizationRequest) (d : Decision) (e : Option Error)
      → prepare registry request ≡ stopped d e
      → authorize rt registry list_active now request ≡ (d, e)
  unfolding authorize
  authorize-stopped request d e h = ground arith

  IsGranted-allowed :
      (request : AuthorizationRequest)
      → IsGranted request
      → allowed (authorize rt registry list_active now request).0 ≡ true
  unfolding decide_listed
  IsGranted-allowed request g =
      let p : PreparedAuthorization = record {
        request = normalize_request request;
        provider_decision = g.answer;
      } in
      let begun =
        IsCleared-prepare registry request g.policy g.answer g.cleared g.evaluated g.not_denied in
      rw (authorize-prepared request p begun, g.listed)
        (ground (arith, allowed-decide_prepared rt p now g.grants, g.no_denial, g.some_allowance))

  decide_listed-allowed :
      (p : PreparedAuthorization) (l : Result Error (List Grant))
      → allowed (decide_listed rt p l now).0 ≡ true
      → (gs : List Grant) × (l ≡ ok gs)
        × (any (denies rt p.request.context.attributes now) gs ≡ false)
        × ((is_policy_allow p.provider_decision.effect
              || any (allows rt p.request.context.attributes now) gs)
            ≡ true)
  unfolding decide_listed
  decide_listed-allowed p (err e) h = absurd (unfold allowed deny_for in ground arith)
  decide_listed-allowed p (ok gs) h = (
    gs,
    refl,
    ground (arith, allowed-decide_prepared rt p now gs),
    ground (arith, allowed-decide_prepared rt p now gs),
  )

  allowed-IsGranted :
      (request : AuthorizationRequest)
      → allowed (authorize rt registry list_active now request).0 ≡ true
      → IsGranted request
  allowed-IsGranted request h = by_preparation (prepare registry request) refl
    where
      Allowed : Decision × Option Error → Type 0
      Allowed x = allowed x.0 ≡ true

      granted :
          (policy : PolicyProvider) (answer : PolicyDecision)
          → IsCleared registry (normalize_request request) policy
          → policy.evaluate (normalize_request request) ≡ ok answer
          → is_policy_deny answer.effect ≡ false
          → Allowed (
              decide_listed rt
                (record { request = normalize_request request; provider_decision = answer })
                (list_active (query_of (normalize_request request)) now)
                now)
          → IsGranted request
      granted policy answer c e n a =
          let (gs, listed, no_denial, some_allowance) = decide_listed-allowed _ _ a in
          record {
            policy = policy;
            cleared = c;
            answer = answer;
            evaluated = e;
            not_denied = n;
            grants = gs;
            listed = listed;
            no_denial = no_denial;
            some_allowance = some_allowance;
          }

      by_preparation : (x : Preparation) → prepare registry request ≡ x → IsGranted request
      by_preparation (stopped d e) q = absurd (
          unfold allowed in
          ground (arith, prepare-stopped registry request d e, authorize-stopped request d e))
      by_preparation (prepared p) q =
          let (policy, answer, c, e, n, eq) = prepared_lem registry request p q in
          granted policy answer c e n (
            subst (λ x. Allowed (decide_listed rt x (list_active (query_of x.request) now) now)) eq
              (subst Allowed (authorize-prepared request p q) h))

  -- A request is allowed exactly when all of `IsGranted` holds.
  pub authorize_iff :
      (request : AuthorizationRequest)
      → (allowed (authorize rt registry list_active now request).0 ≡ true) ↔ IsGranted request
  authorize_iff request = (allowed-IsGranted request, IsGranted-allowed request)

  decide_listed-closed :
      (p : PreparedAuthorization) (l : Result Error (List Grant)) (e : Error)
      → (decide_listed rt p l now).1 ≡ some e
      → (decide_listed rt p l now).0.effect ≡ Effect.deny
  unfolding decide_listed deny_for
  decide_listed-closed p (err x) e h = refl
  decide_listed-closed p (ok gs) e h = absurd (ground (arith, decide_prepared-no_error rt p now gs))

  -- Whenever an error comes back, the decision that comes with it is a denial.
  pub authorize_fails_closed :
      (request : AuthorizationRequest) (e : Error)
      → (authorize rt registry list_active now request).1 ≡ some e
      → (authorize rt registry list_active now request).0.effect ≡ Effect.deny
  authorize_fails_closed request e h = by_preparation (prepare registry request) refl
    where
      Closed : Decision × Option Error → Type 0
      Closed x = x.1 ≡ some e → x.0.effect ≡ Effect.deny

      by_preparation :
          (x : Preparation)
          → prepare registry request ≡ x
          → (authorize rt registry list_active now request).0.effect ≡ Effect.deny
      by_preparation (stopped d e') q =
          ground (arith, prepare-stopped registry request d e', authorize-stopped request d e')
      by_preparation (prepared p) q =
          subst Closed (sym (authorize-prepared request p q))
            (decide_listed-closed p (list_active (query_of p.request) now) e) h

  -- Requests that differ at most in the blanks around the principal's id, the action, and the
  -- type and the id of the resource get the same decision.
  pub authorize_up_to_blanks :
      (r s : AuthorizationRequest)
      → IsSameUpToBlanks r s
      → authorize rt registry list_active now r ≡ authorize rt registry list_active now s
  unfolding authorize
  authorize_up_to_blanks r s same = ap decided_by (
      sym (prepare-normalize_request registry r)
      ∙ ap (prepare registry) (normalize_request-same r s same)
      ∙ prepare-normalize_request registry s)
    where
      decided_by : Preparation → Decision × Option Error
      decided_by p = elim p [
        | stopped d e ↦ (d, e)
        | prepared p ↦ decide_listed rt p (list_active (query_of p.request) now) now
      ]
