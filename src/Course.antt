-- ===== src/Course.antt =====
-- internal/course/application/authorization_policy.go: the Course module's actions, its policy
-- provider and the actions that its collaborator roles cover. The permissions are those of
-- internal/shared/constants/permissions.go.
pub mod Ownership
pub mod Rows
pub mod Environment
pub mod Content
pub mod Access
pub mod Drafts
pub mod Submit
pub mod Lifecycle
pub mod Learner
pub mod Leases
pub mod Removal
use be_mycourse.Shared.{
  ◌≡◌, refl, Bool, true, false, Option, none, some, List, [], ◌∷◌, ◌++◌, map, Text, codes, Result,
  ok, err,
}
use be_mycourse.Authorization.Domain.{
  ActionDefinition, AuthorizationRequest, DomainFacts, no_facts, course_facts, other_facts,
  PolicyEffect, PolicyDecision, PolicyProvider, GrantManagementRequest, provider_allow, unset,
  Error, invalid_policy_context, RoleActionDefinition,
}

abbrev pub resource_type_course : Text
resource_type_course = codes "course"

-- A row of the literal in `Actions()`; every Course action is grantable.
abbrev pub course_action : Text → Text → Text → ActionDefinition
course_action name permission description = record {
  name = name;
  resource_type = resource_type_course;
  boundary_permission = permission;
  description = description;
  grantable = true;
}

abbrev pub course_read : Text
course_read = codes "course:read"

abbrev pub course_update : Text
course_update = codes "course:update"

abbrev pub course_delete : Text
course_delete = codes "course:delete"

abbrev pub course_actions : List ActionDefinition
course_actions =
    course_action (codes "course_detail:view") course_read (codes "View full course detail")
    ∷ course_action (codes "course_draft:edit") course_update
        (codes "Edit the course draft (basic info, outline)")
    ∷ course_action (codes "course_lease:manage") course_update
        (codes "Acquire an outline edit lease")
    ∷ course_action (codes "course_collaborators:view") course_read
        (codes "List course collaborators")
    ∷ course_action (codes "course_review:view") course_read (codes "View course review history")
    ∷ course_action (codes "course_draft:prepare") course_update
        (codes "Prepare a new draft version")
    ∷ course_action (codes "course_lifecycle:delete") course_delete
        (codes "Delete or trash the course")
    ∷ course_action (codes "course_collaborators:manage") course_update
        (codes "Add/remove course collaborators")
    ∷ course_action (codes "course_review:manage") course_update
        (codes "Submit/reopen the course draft for review")
    ∷ []

-- `Evaluate` on the facts of the request.
unfoldable pub evaluate_facts : DomainFacts → Result Error PolicyDecision
evaluate_facts (course_facts true) =
    ok (record { effect = PolicyEffect.allow; reason = provider_allow })
evaluate_facts (course_facts false) = ok (record { effect = PolicyEffect.neutral; reason = unset })
evaluate_facts no_facts = err invalid_policy_context
evaluate_facts (other_facts t) = err invalid_policy_context

-- `CanManageGrants` on the facts of the request.
unfoldable pub can_manage_facts : DomainFacts → Result Error Bool
can_manage_facts (course_facts is_owner) = ok is_owner
can_manage_facts no_facts = err invalid_policy_context
can_manage_facts (other_facts t) = err invalid_policy_context

abbrev pub course_policy_provider : PolicyProvider
course_policy_provider = record {
  resource_type = resource_type_course;
  actions = course_actions;
  evaluate = λ request. evaluate_facts request.context.domain_facts;
  can_manage_grants = λ request. can_manage_facts request.context.domain_facts;
}

abbrev owner_role : Text
owner_role = codes "OWNER"

abbrev editor_role : Text
editor_role = codes "EDITOR"

abbrev role_action : Text → Text → RoleActionDefinition
role_action role name = record {
  role_name = role;
  resource_type = resource_type_course;
  action_name = name;
}

-- The two loops of `RoleActions`.
abbrev for_any_collaborator : List Text → List RoleActionDefinition
for_any_collaborator [] = []
for_any_collaborator (a ∷ as') =
    role_action owner_role a ∷ role_action editor_role a ∷ for_any_collaborator as'

abbrev for_owner_only : List Text → List RoleActionDefinition
for_owner_only [] = []
for_owner_only (a ∷ as') = role_action owner_role a ∷ for_owner_only as'

abbrev pub role_actions : List RoleActionDefinition
role_actions =
    for_any_collaborator (
      codes "course_detail:view"
      ∷ codes "course_draft:edit"
      ∷ codes "course_lease:manage"
      ∷ codes "course_collaborators:view"
      ∷ codes "course_review:view"
      ∷ [])
    ++ for_owner_only (
        codes "course_draft:prepare"
        ∷ codes "course_lifecycle:delete"
        ∷ codes "course_collaborators:manage"
        ∷ codes "course_review:manage"
        ∷ [])
