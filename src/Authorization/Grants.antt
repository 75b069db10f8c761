-- ===== src/Authorization/Grants.antt =====
-- internal/authorization/application/grant_service.go. The repository is a record of functions
-- over a state; a write that fails leaves the state, since each is one statement or one
-- transaction. A call returns the new state, or an error and the old one. Logging is left out.
pub mod Managed
pub mod Guarded
use be_mycourse.Shared.{
  ℕ, Bool, true, false, ◌&&◌, ◌||◌, not, Option, none, some, List, [], ◌∷◌, Text, text_eq, trim,
  is_empty, contains, length, ◌==◌, if◌then◌else◌, Result, ok, err, ◌>>=◌, ◌>>◌, guard,
}
use be_mycourse.Shared.Int.{ℤ, pos, lez}
use be_mycourse.Authorization.Domain.{
  Effect, Principal, Resource, EvaluationContext, Condition, Grant, GrantQuery, GrantReplacement,
  GrantManagementRequest, ActionDefinition, PolicyProvider, Error, invalid_grant,
  grant_management_forbidden,
}
use be_mycourse.Authorization.Conditions.{validate_conditions}
use be_mycourse.Authorization.Registry.{Registry, provider, action, actions, grantable_actions}
use be_mycourse.Authorization.Authorizer.{is_user}
use be_mycourse.Authorization.Names.{unique_non_empty}

pub record GrantRepository (S : Type 0) : Type 0 where
  pub upsert_actions : S → List ActionDefinition → Result Error S
  pub create : S → Grant → Result Error (S × Grant)
  pub revoke : S → GrantQuery → ℤ → Result Error S
  pub replace_many : S → GrantReplacement → ℤ → Result Error S

pub record GrantCommand : Type 0 where
  pub issuer : Principal
  pub target_principal_id : Text
  pub action : Text
  pub resource : Resource
  pub effect : Effect
  pub conditions : List Condition
  pub valid_from : Option ℤ
  pub expires_at : Option ℤ
  pub context : EvaluationContext

pub record ReplaceGrantsCommand : Type 0 where
  pub issuer : Principal
  pub target_principal_ids : List Text
  pub actions : List Text
  pub resource : Resource
  pub effect : Effect
  pub conditions : List Condition
  pub valid_from : Option ℤ
  pub expires_at : Option ℤ
  pub context : EvaluationContext

unfoldable pub trim_issuer : Principal → Principal
trim_issuer p = record p { id = trim p.id }

unfoldable pub trim_resource : Resource → Resource
trim_resource r = record { kind = trim r.kind; id = trim r.id }

unfoldable pub normalize_replace_command : ReplaceGrantsCommand → ReplaceGrantsCommand
unfolding trim_issuer trim_resource unique_non_empty
normalize_replace_command c = record c {
  issuer = trim_issuer c.issuer;
  target_principal_ids = unique_non_empty c.target_principal_ids;
  actions = unique_non_empty c.actions;
  resource = trim_resource c.resource;
}

abbrev is_known_effect : Effect → Bool
is_known_effect Effect.allow = true
is_known_effect Effect.deny = true
is_known_effect (Effect.other t) = false

-- `ValidFrom != nil && ExpiresAt != nil && *ExpiresAt <= *ValidFrom`
abbrev is_empty_window : Option ℤ → Option ℤ → Bool
is_empty_window none e = false
is_empty_window (some f) none = false
is_empty_window (some f) (some e) = lez e f

unfoldable pub validate_grant_command_shape : ReplaceGrantsCommand → Result Error (Unit {0})
validate_grant_command_shape c = do
  guard (is_user c.issuer.kind && not (is_empty (trim c.issuer.id))) invalid_grant
  guard (not (is_empty c.target_principal_ids)) invalid_grant
  guard (not (is_empty (trim c.resource.kind)) && not (is_empty (trim c.resource.id))) invalid_grant
  guard (is_known_effect c.effect) invalid_grant
  guard (not (is_empty_window c.valid_from c.expires_at)) invalid_grant

abbrev is_grantable_for : Text → Option ActionDefinition → Bool
is_grantable_for resource_type none = false
is_grantable_for resource_type (some a) = a.grantable && text_eq a.resource_type resource_type

unfoldable pub validate_grant_actions : Registry → List Text → Text → Result Error (Unit {0})
unfolding action
validate_grant_actions registry [] resource_type = ok tt
validate_grant_actions registry (name ∷ names) resource_type = do
  guard (is_grantable_for resource_type (action registry name)) invalid_grant
  validate_grant_actions registry names resource_type

unfoldable pub validate_management : Registry → ReplaceGrantsCommand → Result Error (Unit {0})
unfolding validate_grant_command_shape validate_grant_actions validate_conditions
validate_management registry c = do
  validate_grant_command_shape c
  validate_conditions c.conditions
  validate_grant_actions registry c.actions c.resource.kind

-- The loop of `requireBoundaryPermissions`.
unfoldable pub require_held : Registry → Principal → List Text → Result Error (Unit {0})
unfolding action
require_held registry issuer [] = ok tt
require_held registry issuer (name ∷ names) = elim (action registry name) [
  | none ↦ err invalid_grant
  | some a ↦
      guard (contains a.boundary_permission issuer.global_permissions) grant_management_forbidden
      >> require_held registry issuer names
]

unfoldable pub require_boundary_permissions : Registry → Principal → Text → Result Error (Unit {0})
unfolding require_held grantable_actions
require_boundary_permissions registry issuer resource_type =
    require_held registry issuer (grantable_actions registry resource_type)

unfoldable pub require_manager :
    Registry → Principal → List Text → Resource → EvaluationContext → Result Error (Unit {0})
unfolding require_boundary_permissions provider
require_manager registry issuer targets resource context = elim (provider registry resource.kind) [
  | none ↦ err invalid_grant
  | some p ↦
      require_boundary_permissions registry issuer resource.kind
      >> (p.can_manage_grants (record {
        issuer = issuer;
        target_principal_ids = targets;
        resource = resource;
        context = context;
      })
          >>= λ allowed. guard allowed grant_management_forbidden)
]

-- The command that `Grant` and `Revoke` normalise and validate.
unfoldable pub as_replacement : GrantCommand → ReplaceGrantsCommand
unfolding normalize_replace_command
as_replacement c = normalize_replace_command (record {
  issuer = c.issuer;
  target_principal_ids = c.target_principal_id ∷ [];
  actions = c.action ∷ [];
  resource = c.resource;
  effect = c.effect;
  conditions = c.conditions;
  valid_from = c.valid_from;
  expires_at = c.expires_at;
  context = c.context;
})

abbrev first_or_empty : List Text → Text
first_or_empty [] = []
first_or_empty (t ∷ ts) = t

module _ {S : Type 0} (repo : GrantRepository S) (registry : Registry) (now : ℤ) where
  unfoldable pub sync_actions : S → Result Error S
  unfolding actions
  sync_actions s = repo.upsert_actions s (actions registry)

  unfoldable pub checked : ReplaceGrantsCommand → Result Error (Unit {0})
  unfolding validate_management require_manager
  checked c =
      validate_management registry c
      >> require_manager registry c.issuer c.target_principal_ids c.resource c.context

  unfoldable pub grant : S → GrantCommand → Result Error (S × Grant)
  unfolding as_replacement checked
  grant s c = do
    let r = as_replacement c
    guard (length r.target_principal_ids == 1 && length r.actions == 1) invalid_grant
    checked r
    repo.create s (record {
      id = [];
      principal_user_id = first_or_empty r.target_principal_ids;
      action_name = first_or_empty r.actions;
      resource_type = r.resource.kind;
      resource_id = r.resource.id;
      effect = c.effect;
      conditions = c.conditions;
      valid_from = c.valid_from;
      expires_at = c.expires_at;
      granted_by_user_id = r.issuer.id;
      created_at = now;
      revoked_at = none;
    })

  -- `ReplaceMany` behind its normalisation.
  unfoldable pub replace_normal : S → ReplaceGrantsCommand → Result Error S
  unfolding checked grantable_actions
  replace_normal s c = do
    checked c
    let managed = grantable_actions registry c.resource.kind
    guard (not (is_empty managed)) invalid_grant
    repo.replace_many s
        (record {
          principal_user_ids = c.target_principal_ids;
          managed_actions = managed;
          actions = c.actions;
          resource = c.resource;
          effect = c.effect;
          conditions = c.conditions;
          valid_from = c.valid_from;
          expires_at = c.expires_at;
          granted_by_user_id = c.issuer.id;
        })
        now

  unfoldable pub replace_many : S → ReplaceGrantsCommand → Result Error S
  unfolding replace_normal
  replace_many s c = replace_normal s (normalize_replace_command c)

  unfoldable pub replace : S → ReplaceGrantsCommand → Result Error S
  unfolding replace_many
  replace s command = do
    let c = normalize_replace_command command
    guard (length c.target_principal_ids == 1) invalid_grant
    replace_many s c

  -- `Revoke` passes no conditions and no window to the validation.
  unfoldable pub revoke : S → GrantCommand → Result Error S
  unfolding as_replacement checked
  revoke s c = do
    let r = as_replacement (record c { conditions = []; valid_from = none; expires_at = none })
    guard (length r.target_principal_ids == 1 && length r.actions == 1) invalid_grant
    checked r
    repo.revoke s
        (record {
          principal_user_ids = r.target_principal_ids;
          action_names = r.actions;
          resource = r.resource;
          effects = r.effect ∷ [];
        })
        now

  unfoldable pub revoke_principal_resource :
      S → Principal → Text → Resource → EvaluationContext → Result Error S
  unfolding trim_issuer trim_resource require_manager
  revoke_principal_resource s p target res context = do
    let issuer = trim_issuer p
    let target_id = trim target
    let resource = trim_resource res
    guard
        (is_user issuer.kind
          && not (is_empty issuer.id)
          && not (is_empty target_id)
          && not (is_empty resource.kind)
          && not (is_empty resource.id))
        invalid_grant
    require_manager registry issuer (target_id ∷ []) resource context
    repo.revoke s
        (record {
          principal_user_ids = target_id ∷ [];
          action_names = [];
          resource = resource;
          effects = [];
        })
        now

  -- No issuer is checked, and the resource is passed on as it came, untrimmed.
  unfoldable pub revoke_resource : S → Resource → Result Error S
  revoke_resource s resource = do
    guard (not (is_empty (trim resource.kind)) && not (is_empty (trim resource.id))) invalid_grant
    repo.revoke s
        (record { principal_user_ids = []; action_names = []; resource = resource; effects = [] })
        now
