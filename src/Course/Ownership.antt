-- ===== src/Course/Ownership.antt =====
-- What the Course provider makes of the decision engine and of the grant service.
use be_mycourse.Shared.{
  ◌≡◌, refl, subst, Bool-cases, ◌⊎◌, inl, inr, true, false, Option, some, List, Text, any, arith,
  Result, ok,
}
use be_mycourse.Shared.Int.{ℤ}
use be_mycourse.Authorization.Domain.{
  Grant, GrantQuery, Error, Resource, Principal, AuthorizationRequest, EvaluationContext,
  DomainFacts, no_facts, course_facts, other_facts, PolicyDecision, PolicyProvider, allowed,
}
use be_mycourse.Authorization.Conditions.{Runtime}
use be_mycourse.Authorization.Registry.{Registry, provider}
use be_mycourse.Authorization.Authorizer.{authorize, normalize_request, query_of, is_policy_allow}
use be_mycourse.Authorization.Authorizer.Matching.{allows}
use be_mycourse.Authorization.Authorizer.Access.{authorize_iff}
use be_mycourse.Authorization.Grants.{
  GrantRepository, trim_resource, normalize_replace_command, as_replacement,
}
use be_mycourse.Authorization.Grants.Managed.{IsManager}
use be_mycourse.Authorization.Grants.Guarded.{
  Call, grants, replaces, replaces_many, revokes, revokes_principal, step, step-IsGuarded,
  IsGuarded,
}
use be_mycourse.Course.{evaluate_facts, can_manage_facts, course_policy_provider}

-- The query finds a grant in force that allows.
pub record IsGrantedByRow (rt : Runtime) (list_active : GrantQuery → ℤ → Result Error (List Grant))
    (now : ℤ) (request : AuthorizationRequest) : Type 0 where
  pub found : List Grant
  pub listed : list_active (query_of (normalize_request request)) now ≡ ok found
  pub allowing : any (allows rt (normalize_request request).context.attributes now) found ≡ true

evaluate_facts-allow :
    (f : DomainFacts) (d : PolicyDecision)
    → evaluate_facts f ≡ ok d
    → is_policy_allow d.effect ≡ true
    → f ≡ course_facts true
unfolding evaluate_facts
evaluate_facts-allow (course_facts true) d h a = refl
evaluate_facts-allow (course_facts false) d h a = absurd (ground arith)
evaluate_facts-allow no_facts d h a = absurd (ground arith)
evaluate_facts-allow (other_facts t) d h a = absurd (ground arith)

can_manage_facts-owner : (f : DomainFacts) → can_manage_facts f ≡ ok true → f ≡ course_facts true
unfolding can_manage_facts
can_manage_facts-owner (course_facts true) h = refl
can_manage_facts-owner (course_facts false) h = absurd (ground arith)
can_manage_facts-owner no_facts h = absurd (ground arith)
can_manage_facts-owner (other_facts t) h = absurd (ground arith)

some_unique : {o : Option PolicyProvider} {p q : PolicyProvider} → o ≡ some p → o ≡ some q → p ≡ q
some_unique {o} {p} {q} h k = cc

IsManager-owner :
    (registry : Registry) (issuer : Principal) (targets : List Text) (r : Resource)
    (k : EvaluationContext)
    → provider registry r.kind ≡ some course_policy_provider
    → IsManager registry issuer targets r k
    → k.domain_facts ≡ course_facts true
IsManager-owner registry issuer targets r k p m = can_manage_facts-owner k.domain_facts (
    subst
      (λ (policy : PolicyProvider).
        policy.can_manage_grants
          (record { issuer = issuer; target_principal_ids = targets; resource = r; context = k })
        ≡ ok true)
      (some_unique m.provided p) m.approved)

-- A request that is allowed on a course, whose provider is the Course one, is the owner's or has an
-- allowing grant in force.
pub authorize_course :
    (rt : Runtime) (registry : Registry) (list_active : GrantQuery → ℤ → Result Error (List Grant))
    (now : ℤ) (request : AuthorizationRequest)
    → provider registry (normalize_request request).resource.kind ≡ some course_policy_provider
    → allowed (authorize rt registry list_active now request).0 ≡ true
    → (request.context.domain_facts ≡ course_facts true) ⊎ IsGrantedByRow rt list_active now request
unfolding normalize_request
authorize_course rt registry list_active now request p h =
    let g = (authorize_iff rt registry list_active now request).0 h in
    let same = some_unique g.cleared.provided p in
    let evaluated : evaluate_facts request.context.domain_facts ≡ ok g.answer =
      subst (λ (policy : PolicyProvider). policy.evaluate (normalize_request request) ≡ ok g.answer)
        same g.evaluated in
    elim (Bool-cases (is_policy_allow g.answer.effect)) [
      | inl e ↦ inl (evaluate_facts-allow request.context.domain_facts g.answer evaluated e)
      | inr e ↦ inr (record {
        found = g.grants;
        listed = g.listed;
        allowing = ground (arith, g.some_allowance);
      })
    ]

-- The resource and the context of a call of the grant service.
abbrev resource_of : Call → Resource
resource_of (grants c) = c.resource
resource_of (replaces c) = c.resource
resource_of (replaces_many c) = c.resource
resource_of (revokes c) = c.resource
resource_of (revokes_principal p t r k) = r

abbrev context_of : Call → EvaluationContext
context_of (grants c) = c.context
context_of (replaces c) = c.context
context_of (replaces_many c) = c.context
context_of (revokes c) = c.context
context_of (revokes_principal p t r k) = k

IsGuarded-owner :
    (registry : Registry) (c : Call)
    → provider registry (trim_resource (resource_of c)).kind ≡ some course_policy_provider
    → IsGuarded registry c
    → (context_of c).domain_facts ≡ course_facts true
unfolding normalize_replace_command as_replacement trim_resource
IsGuarded-owner registry (grants c) p g = IsManager-owner registry _ _ _ _ p g.1
IsGuarded-owner registry (replaces c) p g = IsManager-owner registry _ _ _ _ p g.1
IsGuarded-owner registry (replaces_many c) p g = IsManager-owner registry _ _ _ _ p g.1
IsGuarded-owner registry (revokes c) p g = IsManager-owner registry _ _ _ _ p g.1
IsGuarded-owner registry (revokes_principal q t r k) p g = IsManager-owner registry _ _ _ _ p g

-- On a course, whose provider is the Course one, a call of the grant service that changes the state
-- carries the fact that its issuer is the owner.
pub step_course :
    {S : Type 0} (repo : GrantRepository S) (registry : Registry) (now : ℤ) (s : S) (c : Call)
    → provider registry (trim_resource (resource_of c)).kind ≡ some course_policy_provider
    → (step repo registry now s c ≡ s) ⊎ ((context_of c).domain_facts ≡ course_facts true)
step_course repo registry now s c p = elim (step-IsGuarded repo registry now s c) [
  | inl unchanged ↦ inl unchanged
  | inr g ↦ inr (IsGuarded-owner registry c p g)
]
