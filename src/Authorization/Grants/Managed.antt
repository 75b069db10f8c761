-- ===== src/Authorization/Grants/Managed.antt =====
-- Who can change the grants: what a call of GrantService has passed when it writes.
use be_mycourse.Shared.{
  ◌≡◌, inl, inr, true, false, ◌&&◌, some, List, [], ◌∷◌, Text, is_empty, contains, all, trim-trim,
  ok, arith, Option-cases,
}
use be_mycourse.Shared.Every.{All}
use be_mycourse.Authorization.Domain.{
  Principal, Resource, EvaluationContext, ActionDefinition, PolicyProvider,
}
use be_mycourse.Authorization.Conditions.{is_well_shaped, is_supported}
use be_mycourse.Authorization.Conditions.Total.{validate_conditions-shape}
use be_mycourse.Authorization.Registry.{Registry, provider, action, grantable_actions}
use be_mycourse.Authorization.Authorizer.{is_user}
use be_mycourse.Authorization.Names.Laws.{unique_non_empty_idem}
use be_mycourse.Authorization.Grants.{
  ReplaceGrantsCommand, trim_issuer, trim_resource, normalize_replace_command,
  validate_grant_command_shape, validate_grant_actions, validate_management, is_grantable_for,
  is_known_effect, is_empty_window, require_held, require_boundary_permissions, require_manager,
}

-- The action is registered and the issuer holds its boundary permission.
abbrev pub IsHeld : Registry → Principal → Text → Type 0
IsHeld registry issuer name =
    (a : ActionDefinition) × (action registry name ≡ some a)
    × (contains a.boundary_permission issuer.global_permissions ≡ true)

-- The issuer holds the boundary permission of every grantable action of the resource type, and
-- the type's provider lets them manage grants on this resource for these targets.
pub record IsManager (registry : Registry) (issuer : Principal) (targets : List Text)
    (resource : Resource) (context : EvaluationContext) : Type 0 where
  pub policy : PolicyProvider
  pub provided : provider registry resource.kind ≡ some policy
  pub held : All (IsHeld registry issuer) (grantable_actions registry resource.kind)
  pub approved :
      policy.can_manage_grants (record {
        issuer = issuer;
        target_principal_ids = targets;
        resource = resource;
        context = context;
      })
      ≡ ok true

require_held-All :
    (registry : Registry) (issuer : Principal) (names : List Text)
    → require_held registry issuer names ≡ ok tt
    → All (IsHeld registry issuer) names
unfolding require_held
require_held-All registry issuer [] h = tt
require_held-All registry issuer (n ∷ ns) h = elim (Option-cases (action registry n)) [
  | inl e ↦ absurd (ground arith)
  | inr (a, e) ↦ ((a, e, ground arith), require_held-All registry issuer ns (ground arith))
]

pub require_manager-IsManager :
    (registry : Registry) (issuer : Principal) (targets : List Text) (resource : Resource)
    (context : EvaluationContext)
    → require_manager registry issuer targets resource context ≡ ok tt
    → IsManager registry issuer targets resource context
unfolding require_manager require_boundary_permissions
require_manager-IsManager registry issuer targets resource context h =
    elim (Option-cases (provider registry resource.kind)) [
      | inl e ↦ absurd (ground arith)
      | inr (p, e) ↦ record {
        policy = p;
        provided = e;
        held =
            require_held-All registry issuer (grantable_actions registry resource.kind)
              (ground arith);
        approved = ground arith;
      }
    ]

-- What a validated command says.
pub record IsValidCommand (registry : Registry) (c : ReplaceGrantsCommand) : Type 0 where
  pub by_user : is_user c.issuer.kind ≡ true
  pub targeted : is_empty c.target_principal_ids ≡ false
  pub effect_known : is_known_effect c.effect ≡ true
  pub window : is_empty_window c.valid_from c.expires_at ≡ false
  pub shaped : all (λ k. is_well_shaped k && is_supported k.operator) c.conditions ≡ true
  pub grantable : All (λ n. is_grantable_for c.resource.kind (action registry n) ≡ true) c.actions

validate_grant_actions-All :
    (registry : Registry) (names : List Text) (t : Text)
    → validate_grant_actions registry names t ≡ ok tt
    → All (λ n. is_grantable_for t (action registry n) ≡ true) names
unfolding validate_grant_actions
validate_grant_actions-All registry [] t h = tt
validate_grant_actions-All registry (n ∷ ns) t h =
    (ground arith, validate_grant_actions-All registry ns t (ground arith))

pub validate_management-IsValidCommand :
    (registry : Registry) (c : ReplaceGrantsCommand)
    → validate_management registry c ≡ ok tt
    → IsValidCommand registry c
unfolding validate_management validate_grant_command_shape
validate_management-IsValidCommand registry c h = record {
  by_user = ground arith;
  targeted = ground arith;
  effect_known = ground arith;
  window = ground arith;
  shaped = validate_conditions-shape c.conditions (ground arith);
  grantable = validate_grant_actions-All registry c.actions c.resource.kind (ground arith);
}

-- Normalising a command twice is normalising it once.
pub normalize_replace_command_idem :
    (c : ReplaceGrantsCommand)
    → normalize_replace_command (normalize_replace_command c) ≡ normalize_replace_command c
unfolding normalize_replace_command trim_issuer trim_resource
normalize_replace_command_idem c = simp (trim-trim, unique_non_empty_idem)
