-- ===== src/Authorization/Registry.antt =====
-- internal/authorization/application/registry.go. A nil provider is `none`; a registry that
-- `addProvider` has half filled when it fails is thrown away by its only caller.
pub mod Catalog
use be_mycourse.Shared.{
  Bool, true, false, ◌&&◌, ◌||◌, not, Option, none, some, List, [], ◌∷◌, map, Text, text_eq, trim,
  is_empty, keep, sort, sort_by, Result, ok, err, ◌>>=◌, ◌>>◌, guard,
}
use be_mycourse.Shared.Map.{lookup, insert, is_some}
use be_mycourse.Authorization.Domain.{
  PolicyProvider, ActionDefinition, Error, invalid_provider, duplicate_provider, duplicate_action,
}

pub record Registry : Type 0 where
  pub providers : List (Text × PolicyProvider)
  pub actions : List (Text × ActionDefinition)

unfoldable pub trim_action : ActionDefinition → ActionDefinition
trim_action a = record {
  name = trim a.name;
  resource_type = trim a.resource_type;
  boundary_permission = trim a.boundary_permission;
  description = trim a.description;
  grantable = a.grantable;
}

-- The loop over `provider.Actions()`.
unfoldable pub add_actions :
    Text
    → List ActionDefinition
    → List (Text × ActionDefinition)
    → Result Error (List (Text × ActionDefinition))
unfolding trim_action lookup insert
add_actions resource_type [] known = ok known
add_actions resource_type (a ∷ rest) known = do
  let action = trim_action a
  guard
      (not (is_empty action.name)
        && text_eq action.resource_type resource_type
        && not (is_empty action.boundary_permission))
      invalid_provider
  guard (not (is_some (lookup action.name known))) duplicate_action
  add_actions resource_type rest (insert action.name action known)

unfoldable pub add_provider : Registry → Option PolicyProvider → Result Error Registry
unfolding add_actions
add_provider r none = err invalid_provider
add_provider r (some p) = do
  let resource_type = trim p.resource_type
  guard (not (is_empty resource_type)) invalid_provider
  guard (not (is_some (lookup resource_type r.providers))) duplicate_provider
  guard (not (is_empty p.actions)) invalid_provider
  actions ← add_actions resource_type p.actions r.actions
  ok (record { providers = insert resource_type p r.providers; actions = actions })

add_providers : Registry → List (Option PolicyProvider) → Result Error Registry
unfolding add_provider
add_providers r [] = ok r
add_providers r (p ∷ ps) = add_provider r p >>= λ r'. add_providers r' ps

unfoldable pub new_registry : List (Option PolicyProvider) → Result Error Registry
unfolding add_providers
new_registry ps = add_providers (record { providers = []; actions = [] }) ps

unfoldable pub provider : Registry → Text → Option PolicyProvider
unfolding lookup
provider r resource_type = lookup (trim resource_type) r.providers

unfoldable pub action : Registry → Text → Option ActionDefinition
unfolding lookup
action r name = lookup (trim name) r.actions

abbrev values : List (Text × ActionDefinition) → List ActionDefinition
values = map λ entry. entry.1

unfoldable pub actions : Registry → List ActionDefinition
unfolding sort_by
actions r = sort_by (λ a. a.name) (values r.actions)

unfoldable pub grantable_actions : Registry → Text → List Text
unfolding sort keep
grantable_actions r resource_type = sort (
    map (λ a. a.name)
      (keep (λ a. text_eq a.resource_type resource_type && a.grantable) (values r.actions)))
