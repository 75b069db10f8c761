-- ===== src/Authorization/RoleBindings.antt =====
-- internal/authorization/application/role_binding_service.go, over a repository as in Grants.
pub mod Mirror
use be_mycourse.Shared.{
  Bool, true, false, ◌&&◌, ◌||◌, not, Option, none, some, List, [], ◌∷◌, Text, trim, is_empty,
  contains, Result, ok, err, ◌>>=◌, ◌>>◌, guard,
}
use be_mycourse.Shared.Int.{ℤ}
use be_mycourse.Authorization.Domain.{
  Principal, Resource, EvaluationContext, RoleBindingCommand, RoleBindingQuery, RoleBinding, Error,
  invalid_role_binding, grant_management_forbidden,
}
use be_mycourse.Authorization.Registry.{Registry, provider, action, grantable_actions}
use be_mycourse.Authorization.Authorizer.{is_user}
use be_mycourse.Authorization.Names.{unique_non_empty}
use be_mycourse.Authorization.Grants.{trim_issuer, trim_resource}

pub record RoleBindingRepository (S : Type 0) : Type 0 where
  pub assign_role_bindings : S → List Text → Text → Resource → Text → ℤ → Result Error S
  pub revoke_role_bindings : S → RoleBindingQuery → ℤ → Result Error S
  pub list_role_bindings : S → RoleBindingQuery → Result Error (List RoleBinding)

unfoldable pub normalize_command : RoleBindingCommand → RoleBindingCommand
unfolding trim_issuer trim_resource unique_non_empty
normalize_command c = record c {
  issuer = trim_issuer c.issuer;
  principal_user_ids = unique_non_empty c.principal_user_ids;
  role_name = trim c.role_name;
  resource = trim_resource c.resource;
}

unfoldable pub validate_role_binding_shape :
    Principal → List Text → Resource → Result Error (Unit {0})
validate_role_binding_shape issuer targets resource = do
  guard (is_user issuer.kind && not (is_empty issuer.id)) invalid_role_binding
  guard (not (is_empty targets)) invalid_role_binding
  guard (not (is_empty resource.kind) && not (is_empty resource.id)) invalid_role_binding

unfoldable pub require_permissions : Registry → Principal → List Text → Result Error (Unit {0})
unfolding action
require_permissions registry issuer [] = ok tt
require_permissions registry issuer (name ∷ names) = elim (action registry name) [
  | none ↦ err invalid_role_binding
  | some a ↦
      guard (contains a.boundary_permission issuer.global_permissions) grant_management_forbidden
      >> require_permissions registry issuer names
]

unfoldable pub require_role_binding_manager :
    Registry → Principal → List Text → Resource → EvaluationContext → Result Error (Unit {0})
unfolding require_permissions provider grantable_actions
require_role_binding_manager registry issuer targets resource context =
    elim (provider registry resource.kind) [
      | none ↦ err invalid_role_binding
      | some p ↦
          require_permissions registry issuer (grantable_actions registry resource.kind)
          >> (p.can_manage_grants (record {
            issuer = issuer;
            target_principal_ids = targets;
            resource = resource;
            context = context;
          })
              >>= λ allowed. guard allowed grant_management_forbidden)
    ]

module _ {S : Type 0} (repo : RoleBindingRepository S) (registry : Registry) (now : ℤ) where
  unfoldable pub assign : S → RoleBindingCommand → Result Error S
  unfolding normalize_command validate_role_binding_shape require_role_binding_manager
  assign s command = do
    let c = normalize_command command
    validate_role_binding_shape c.issuer c.principal_user_ids c.resource
    guard (not (is_empty c.role_name)) invalid_role_binding
    require_role_binding_manager registry c.issuer c.principal_user_ids c.resource c.context
    repo.assign_role_bindings s c.principal_user_ids c.role_name c.resource c.issuer.id now

  -- An empty role name stands for every role.
  unfoldable pub revoke : S → RoleBindingCommand → Result Error S
  unfolding normalize_command validate_role_binding_shape require_role_binding_manager
  revoke s command = do
    let c = normalize_command command
    validate_role_binding_shape c.issuer c.principal_user_ids c.resource
    require_role_binding_manager registry c.issuer c.principal_user_ids c.resource c.context
    repo.revoke_role_bindings s
        (record {
          principal_user_ids = c.principal_user_ids;
          role_name = c.role_name;
          resource = c.resource;
        })
        now

  unfoldable pub revoke_resource : S → Resource → Result Error S
  unfolding trim_resource
  revoke_resource s r = do
    let resource = trim_resource r
    guard (not (is_empty resource.kind) && not (is_empty resource.id)) invalid_role_binding
    repo.revoke_role_bindings s
        (record { principal_user_ids = []; role_name = []; resource = resource }) now

  unfoldable pub list : S → RoleBindingQuery → Result Error (List RoleBinding)
  unfolding trim_resource
  list s q =
      repo.list_role_bindings s
        (record q { role_name = trim q.role_name; resource = trim_resource q.resource })
