-- ===== src/Authorization/RoleBindings/Mirror.antt =====
-- The role binding service asks of an issuer what the grant service asks, and nothing is written
-- without it.
use be_mycourse.Shared.{
  ◌≡◌, ◌↔◌, refl, ◌⊎◌, inl, inr, false, List, [], ◌∷◌, Text, Result, ok, err, arith, Bool-cases,
  Result-cases, is_empty,
}
use be_mycourse.Shared.Int.{ℤ}
use be_mycourse.Authorization.Domain.{
  Principal, Resource, EvaluationContext, RoleBindingCommand, Error,
}
use be_mycourse.Authorization.Registry.{Registry, grantable_actions}
use be_mycourse.Authorization.Grants.{require_held, require_boundary_permissions, require_manager}
use be_mycourse.Authorization.Grants.Managed.{IsManager, require_manager-IsManager}
use be_mycourse.Authorization.RoleBindings.{
  RoleBindingRepository, normalize_command, require_permissions, require_role_binding_manager,
  assign, revoke,
}

require_permissions-held :
    (registry : Registry) (issuer : Principal) (names : List Text)
    → (require_permissions registry issuer names ≡ ok tt)
      ↔ (require_held registry issuer names ≡ ok tt)
unfolding require_permissions require_held
require_permissions-held registry issuer [] = (λ h. refl, λ h. refl)
require_permissions-held registry issuer (n ∷ ns) =
    let ih = require_permissions-held registry issuer ns in
    (λ h. ground (arith, ih), λ h. ground (arith, ih))

-- The two services accept the same issuers.
pub require_role_binding_manager-require_manager :
    (registry : Registry) (issuer : Principal) (targets : List Text) (resource : Resource)
    (context : EvaluationContext)
    → (require_role_binding_manager registry issuer targets resource context ≡ ok tt)
      ↔ (require_manager registry issuer targets resource context ≡ ok tt)
unfolding require_role_binding_manager require_manager require_boundary_permissions
require_role_binding_manager-require_manager registry issuer targets resource context =
    let names =
      require_permissions-held registry issuer (grantable_actions registry resource.kind) in
    (λ h. ground (arith, names), λ h. ground (arith, names))

module _ {S : Type 0} (repo : RoleBindingRepository S) (registry : Registry) (now : ℤ) where
  abbrev pub after : S → Result Error S → S
  after s (ok s') = s'
  after s (err e) = s

  abbrev pub IsManaged : RoleBindingCommand → Type 0
  IsManaged c = IsManager registry c.issuer c.principal_user_ids c.resource c.context

  manager :
      (c : RoleBindingCommand) (u : Unit {0})
      → require_role_binding_manager registry c.issuer c.principal_user_ids c.resource c.context
        ≡ ok u
      → IsManaged c
  manager c u h =
      require_manager-IsManager registry c.issuer c.principal_user_ids c.resource c.context (
        (require_role_binding_manager-require_manager registry c.issuer c.principal_user_ids
            c.resource c.context).0
          h)

  -- Bindings are assigned and revoked only for a manager of grants on the resource, as the grants
  -- themselves are; and only a command with a role name assigns.
  pub role_bindings_guarded :
      (s : S) (c : RoleBindingCommand)
      → ((after s (assign repo registry now s c) ≡ s)
          ⊎ (IsManaged (normalize_command c) × (is_empty (normalize_command c).role_name ≡ false)))
        × ((after s (revoke repo registry now s c) ≡ s) ⊎ IsManaged (normalize_command c))
  unfolding assign revoke
  role_bindings_guarded s c =
      let n = normalize_command c in
      elim (Result-cases (
        require_role_binding_manager registry n.issuer n.principal_user_ids n.resource n.context)) [
          | inl (u, e) ↦ (
            elim (Bool-cases (is_empty n.role_name)) [
              | inl nameless ↦ inl (ground arith)
              | inr named ↦ inr (manager n u e, named)
            ],
            inr (manager n u e),
          )
          | inr (x, e) ↦ (inl (ground arith), inl (ground arith))
        ]
