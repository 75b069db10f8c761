-- ===== src/Course/Removal.antt =====
-- internal/course/infra/repo_admin.go and the end of repo_instructor.go: the trash, the deletion of
-- a course with all that hangs on it, and the removal of a collaborator.
pub mod Leftovers
use be_mycourse.Shared.{
  Bool, true, false, ◌&&◌, not, Option, none, some, List, [], ◌∷◌, Text, text_eq, contains, map,
  keep, codes, if◌then◌else◌, Result, ok, err, ◌>>=◌, ◌>>◌, guard,
}
use be_mycourse.Shared.Int.{ℤ}
use be_mycourse.Authorization.Domain
use be_mycourse.Authorization.Domain.{is_nil, course_facts}
use be_mycourse.Authorization.RoleBindings.{RoleBindingRepository, revoke, revoke_resource}
use be_mycourse.Authorization.Store
use be_mycourse.Authorization.Store.{
  assign_role_bindings, revoke_role_bindings, lists_binding, RoleBindingRow,
}
use be_mycourse.Course.Rows.{
  VersionStatus, CourseRow, CourseVersionRow, EnrollmentRow, ProgressRow, Tables, CourseError,
  course_trashed, course_trash_not_eligible, course_owner_cannot_be_removed, authorization_error,
  update_where,
}
use be_mycourse.Course.Environment.{Environment}
use be_mycourse.Course.Access.{
  load_course_for_admin, load_trashed_course, load_version_row, require_owner_access,
  course_resource, course_authorization_principal,
}

-- `UPDATE courses … WHERE id = ? AND deleted_at IS NULL`
abbrev set_course : Text → (CourseRow → CourseRow) → Tables → Tables
set_course id f t = record t {
  courses = update_where (λ c. text_eq c.id id && is_nil c.deleted_at) f t.courses;
}

abbrev load_optional : Tables → Option Text → Result CourseError (Option CourseVersionRow)
load_optional t none = ok none
load_optional t (some id) = load_version_row t id >>= (λ v. ok (some v))

abbrev is_status : VersionStatus → VersionStatus → Bool
is_status VersionStatus.draft VersionStatus.draft = true
is_status VersionStatus.in_review VersionStatus.in_review = true
is_status VersionStatus.approved VersionStatus.approved = true
is_status VersionStatus.rejected VersionStatus.rejected = true
is_status _ _ = false

unfoldable pub course_eligible_for_trash : Option CourseVersionRow → Option CourseVersionRow → Bool
course_eligible_for_trash none draft = false
course_eligible_for_trash (some p) none = is_status p.status VersionStatus.approved
course_eligible_for_trash (some p) (some d) =
    is_status p.status VersionStatus.approved && not (is_status d.status VersionStatus.rejected)

unfoldable pub eligible : Tables → CourseRow → Result CourseError Bool
unfolding load_version_row course_eligible_for_trash
eligible t course = do
  published ← load_optional t course.current_published_version_id
  draft ← load_optional t course.current_draft_version_id
  ok (course_eligible_for_trash published draft)

abbrev pub moved_to_trash : Environment → Text → Tables → Tables
moved_to_trash env id t =
    set_course id (λ c. record c { trashed_at = some env.now; updated_at = env.now }) t

unfoldable pub trash_course : Environment → Tables → Text → Result CourseError Tables
unfolding load_course_for_admin eligible update_where
trash_course env t course_id = do
  course ← load_course_for_admin t course_id
  guard (is_nil course.trashed_at) course_trashed
  may ← eligible t course
  guard may course_trash_not_eligible
  ok (moved_to_trash env course.id t)

unfoldable pub restore_course : Environment → Tables → Text → Result CourseError Tables
unfolding load_trashed_course update_where
restore_course env t course_id = do
  course ← load_trashed_course t course_id
  ok (record t {
    courses =
        update_where (λ c. text_eq c.id course.id)
          (λ c. record c { trashed_at = none; updated_at = env.now }) t.courses;
  })

-- The four updates in the order of the source: when the last one runs, the enrollments that it
-- looks for are those that the third one has left.
unfoldable pub soft_delete_course_tree : Environment → Text → Tables → Tables
unfolding update_where keep
soft_delete_course_tree env id t =
    let courses =
      update_where (λ c. text_eq c.id id && is_nil c.deleted_at)
        (λ c. record c { deleted_at = some env.now; updated_at = env.now }) t.courses in
    let versions =
      update_where (λ v. text_eq v.course_id id && is_nil v.deleted_at)
        (λ v. record v { deleted_at = some env.now; updated_at = env.now }) t.versions in
    let enrollments =
      update_where (λ e. text_eq e.course_id id && is_nil e.deleted_at)
        (λ e. record e { deleted_at = some env.now; updated_at = env.now }) t.enrollments in
    let active =
      map (λ e. e.id) (keep (λ e. text_eq e.course_id id && is_nil e.deleted_at) enrollments) in
    let progress =
      update_where (λ p. is_nil p.deleted_at && contains p.enrollment_id active)
        (λ p. record p { deleted_at = some env.now; updated_at = env.now }) t.progress in
    record t {
      courses = courses;
      versions = versions;
      enrollments = enrollments;
      progress = progress;
    }

abbrev to_binding : RoleBindingRow → Domain.RoleBinding
to_binding b = record {
  id = b.id;
  principal_user_id = b.principal_user_id;
  role_name = b.role_name;
  resource = record { kind = b.resource_type; id = b.resource_id };
  granted_by_user_id = b.granted_by_user_id;
  created_at = b.created_at;
}

-- The repository of the role binding service. The order of the list is left out.
abbrev pub binding_repository : Environment → RoleBindingRepository Store.Store
binding_repository env = record {
  assign_role_bindings =
      λ s ps role resource by now. ok (assign_role_bindings s env.copy_id ps role resource by now);
  revoke_role_bindings = λ s q now. ok (revoke_role_bindings s q now);
  list_role_bindings = λ s q. ok (map to_binding (keep (lists_binding q) s.role_bindings));
}

abbrev pub with_authorization : Tables → Result Domain.Error Store.Store → Result CourseError Tables
with_authorization t (ok s) = ok (record t { authorization = s })
with_authorization t (err e) = err (authorization_error e)

unfoldable pub revoke_course : Environment → Tables → Text → Result CourseError Tables
unfolding revoke_resource assign_role_bindings revoke_role_bindings lists_binding keep
revoke_course env t id = with_authorization t (
    revoke_resource (binding_repository env) env.registry env.now t.authorization
      (course_resource id))

unfoldable pub permanent_delete_course : Environment → Tables → Text → Result CourseError Tables
unfolding load_trashed_course soft_delete_course_tree revoke_course
permanent_delete_course env t course_id = do
  course ← load_trashed_course t course_id
  revoke_course env (soft_delete_course_tree env course.id t) course.id

abbrev pub trashed_or_deleted : Environment → Tables → Text → Bool → Result CourseError Tables
trashed_or_deleted env t id true = ok (moved_to_trash env id t)
trashed_or_deleted env t id false = revoke_course env (soft_delete_course_tree env id t) id

unfoldable pub delete_course : Environment → Tables → Text → Text → Result CourseError Tables
unfolding require_owner_access eligible update_where soft_delete_course_tree revoke_course
delete_course env t course_id actor = do
  access ← require_owner_access env t course_id actor (codes "course_lifecycle:delete")
  may ← eligible t access.course
  trashed_or_deleted env t access.course.id may

unfoldable pub remove_collaborator :
    Environment → Tables → Text → Text → Text → Result CourseError Tables
unfolding require_owner_access revoke assign_role_bindings revoke_role_bindings lists_binding keep
    course_authorization_principal
remove_collaborator env t course_id actor user = do
  access ← require_owner_access env t course_id actor (codes "course_collaborators:manage")
  guard (not (text_eq access.course.owner_user_id user)) course_owner_cannot_be_removed
  with_authorization t (
      revoke (binding_repository env) env.registry env.now t.authorization (record {
        issuer = course_authorization_principal env actor;
        principal_user_ids = user ∷ [];
        role_name = [];
        resource = course_resource access.course.id;
        context = record { attributes = []; domain_facts = course_facts true };
      }))
