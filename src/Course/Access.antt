-- ===== src/Course/Access.antt =====
-- internal/course/infra/repo_access.go: loading a course or a version, and who may do what to a
-- course. A role binding's name is what the answer shows; the decision is the Authorizer's.
use be_mycourse.Shared.{
  Bool, ◌&&◌, ◌||◌, not, Option, none, some, [], Text, codes, text_eq, if◌then◌else◌, Result, ok,
  err, ◌>>=◌, ◌>>◌, guard, or_fail,
}
use be_mycourse.Authorization.Domain.{
  Principal, PrincipalType, Resource, AuthorizationRequest, Decision, course_facts, allowed, is_nil,
  wildcard_resource_id, Error,
}
use be_mycourse.Authorization.Authorizer.{authorize}
use be_mycourse.Authorization.Store.{RoleBindingRow, list_active}
use be_mycourse.Course.{resource_type_course}
use be_mycourse.Course.Rows.{
  CourseRow, CourseVersionRow, Tables, CourseError, course_not_found, course_version_not_found,
  course_draft_required, course_not_trashed, course_collaborator_access, course_owner_only,
  authorization_error, course_by_id, version_by_id, first_row,
}
use be_mycourse.Course.Environment.{Environment}

abbrev pub is_untrashed : CourseRow → Bool
is_untrashed c = is_nil c.deleted_at && is_nil c.trashed_at

-- The row with the id, when it passes the rest of the WHERE clause.
abbrev found : {A : Type 0} → Option A → (A → Bool) → CourseError → Result CourseError A
found none p e = err e
found (some a) p e = if p a then ok a else err e

unfoldable pub load_course : Tables → Text → Result CourseError CourseRow
unfolding course_by_id
load_course t id = found (course_by_id id t.courses) is_untrashed course_not_found

unfoldable pub load_trashed_course : Tables → Text → Result CourseError CourseRow
unfolding course_by_id
load_trashed_course t id =
    found (course_by_id id t.courses) (λ c. is_nil c.deleted_at && not (is_nil c.trashed_at))
      course_not_trashed

unfoldable pub load_course_for_admin : Tables → Text → Result CourseError CourseRow
unfolding course_by_id
load_course_for_admin t id =
    found (course_by_id id t.courses) (λ c. is_nil c.deleted_at) course_not_found

unfoldable pub load_version_row : Tables → Text → Result CourseError CourseVersionRow
unfolding version_by_id
load_version_row t id =
    found (version_by_id id t.versions) (λ v. is_nil v.deleted_at) course_version_not_found

unfoldable pub require_draft_version :
    Tables → Text → Result CourseError (CourseRow × CourseVersionRow)
unfolding load_course load_version_row
require_draft_version t id = do
  course ← load_course t id
  draft ← or_fail course.current_draft_version_id course_draft_required
  version ← load_version_row t draft
  ok (course, version)

-- A principal with no permissions where the context has none for the user.
unfoldable pub course_authorization_principal : Environment → Text → Principal
course_authorization_principal env user_id = elim env.context_principal [
  | some p ↦
      if text_eq p.id user_id
      then p
      else record { kind = PrincipalType.user; id = user_id; global_permissions = [] }
  | none ↦ record { kind = PrincipalType.user; id = user_id; global_permissions = [] }
]

abbrev pub course_resource : Text → Resource
course_resource id = record { kind = resource_type_course; id = id }

abbrev pub access_request : Environment → CourseRow → Text → Text → Text → AuthorizationRequest
access_request env course course_id user_id action = record {
  principal = course_authorization_principal env user_id;
  action = action;
  resource = course_resource course_id;
  context = record {
    attributes = [];
    domain_facts = course_facts (text_eq course.owner_user_id user_id);
  };
}

abbrev pub decide : Environment → Tables → AuthorizationRequest → Decision × Option Error
decide env t request =
    authorize env.runtime env.registry (list_active t.authorization) env.now request

-- activeCollaboratorRoleBindingRow
abbrev binds : Text → Text → RoleBindingRow → Bool
binds course_id user_id b =
    text_eq b.resource_type resource_type_course
    && (text_eq b.resource_id course_id || text_eq b.resource_id wildcard_resource_id)
    && text_eq b.principal_user_id user_id
    && is_nil b.revoked_at

pub record CourseAccess : Type 0 where
  pub course : CourseRow
  pub role : Text

abbrev pub decided : Decision × Option Error → CourseError → Result CourseError (Unit {0})
decided (d, some e) denied = err (authorization_error e)
decided (d, none) denied = guard (allowed d) denied

unfoldable pub access_role : Tables → CourseRow → Text → Text → Result CourseError Text
unfolding first_row
access_role t course course_id user_id =
    if text_eq course.owner_user_id user_id
    then ok (codes "OWNER")
    else (elim (first_row (binds course_id user_id) t.authorization.role_bindings) [
      | none ↦ err course_collaborator_access
      | some b ↦ ok b.role_name
    ])

unfoldable pub require_course_action :
    Environment → Tables → Text → Text → Text → CourseError → Result CourseError CourseAccess
unfolding load_course course_authorization_principal access_role
require_course_action env t course_id user_id action denied = do
  course ← load_course t course_id
  decided (decide env t (access_request env course course_id user_id action)) denied
  role ← access_role t course course_id user_id
  ok (record { course = course; role = role })

unfoldable pub require_course_access :
    Environment → Tables → Text → Text → Result CourseError CourseAccess
unfolding require_course_action
require_course_access env t course_id user_id =
    require_course_action env t course_id user_id (codes "course_detail:view")
      course_collaborator_access

unfoldable pub require_editor_access :
    Environment → Tables → Text → Text → Text → Result CourseError CourseAccess
unfolding require_course_action
require_editor_access env t course_id user_id action =
    require_course_action env t course_id user_id action course_collaborator_access

unfoldable pub require_owner_access :
    Environment → Tables → Text → Text → Text → Result CourseError CourseAccess
unfolding require_course_action
require_owner_access env t course_id user_id action =
    require_course_action env t course_id user_id action course_owner_only
