-- ===== src/Course/Submit/Staffed.antt =====
-- internal/course/infra/repo_submit_validation.go: validateDraftCollaborators, with the collaborators
-- stated by the rows that make them.
use be_mycourse.Shared.{
  ◌≡◌, ◌≢◌, ◌⊎◌, inl, inr, true, ◌&&◌, not, List, [], ◌∷◌, map, Text, is_empty, keep, Option-cases,
  ok, guard-ok, arith,
}
use be_mycourse.Shared.Every.{All, All-mono}
use be_mycourse.Authorization.Domain.{RoleBindingQuery}
use be_mycourse.Authorization.Store.{RoleBindingRow, lists_binding}
use be_mycourse.Course.Access.{course_resource}
use be_mycourse.Course.Rows.{
  CourseRow, Tables, course_collaborator_inactive, course_submit_collaborator_required,
}
use be_mycourse.Course.Environment.{Environment}
use be_mycourse.Course.Submit.{
  is_accessible, has_profile, load_collaborators, check_collaborators, validate_draft_collaborators,
}
use be_mycourse.Shared.Some.{
  Some, kept-All, Some-mono, Some-All, is_empty-keep-Some, keep-Some, map-Some, map-All,
}
use be_mycourse.Course.Submit.Teachers.{
  IsActive, IsEditorOf, IsTeacher, IsActive-has_profile, IsEditorOf-lists_binding,
  lists_binding-IsEditorOf, as-IsTeacher,
}

-- The owner, if active, and the active user of every such binding are instructors, and there is one.
pub record IsStaffed (env : Environment) (t : Tables) (c : CourseRow) : Type 0 where
  pub someone :
      IsTeacher env c.owner_user_id
      ⊎ Some
          (λ (b : RoleBindingRow). IsEditorOf c b × IsTeacher env b.principal_user_id)
          t.authorization.role_bindings
  pub owner_teaches : IsActive env c.owner_user_id → env.is_instructor c.owner_user_id ≡ true
  pub editors_teach :
      All
        (λ (b : RoleBindingRow).
          IsEditorOf c b
          → IsActive env b.principal_user_id
          → env.is_instructor b.principal_user_id ≡ true)
        t.authorization.role_bindings

check_collaborators-teach :
    (env : Environment) (users : List Text)
    → check_collaborators env users ≡ ok tt
    → All (λ u. env.is_instructor u ≡ true) users
unfolding check_collaborators
check_collaborators-teach env [] h = tt
check_collaborators-teach env (user ∷ users) h = elim (Option-cases (env.users user)) [
  | inl e ↦ let r = rw (e, check_collaborators) at h in absurd cc
  | inr (u, e) ↦
      let (passed, rest) =
        guard-ok (is_accessible u env.now && env.is_instructor user) course_collaborator_inactive
          (check_collaborators env users) (rw (e, check_collaborators) at h) in
      (ground (arith, passed), check_collaborators-teach env users rest)
]

has-IsTeacher :
    (env : Environment) (t : Tables) (c : CourseRow)
    → c.id ≢ []
    → Some
        (λ user. (has_profile env user ≡ true) × (env.is_instructor user ≡ true))
        (c.owner_user_id
          ∷ map
              (λ (b : RoleBindingRow). b.principal_user_id)
              (keep
                (lists_binding (record {
                  principal_user_ids = [];
                  role_name = [];
                  resource = course_resource c.id;
                }))
                t.authorization.role_bindings))
    → IsTeacher env c.owner_user_id
      ⊎ Some
          (λ (b : RoleBindingRow). IsEditorOf c b × IsTeacher env b.principal_user_id)
          t.authorization.role_bindings
has-IsTeacher env t c named (inl k) = inl (as-IsTeacher env c.owner_user_id k)
has-IsTeacher env t c named (inr k) = inr (
    Some-mono _ _
      (λ b p. (lists_binding-IsEditorOf c b named p.0, as-IsTeacher env b.principal_user_id p.1))
      t.authorization.role_bindings
      (keep-Some _ _ t.authorization.role_bindings (
        map-Some (λ user. (has_profile env user ≡ true) × (env.is_instructor user ≡ true))
          (λ (b : RoleBindingRow). b.principal_user_id)
          (keep
            (lists_binding
              (record { principal_user_ids = []; role_name = []; resource = course_resource c.id }))
            t.authorization.role_bindings)
          k)))

pub validate_draft_collaborators-IsStaffed :
    (env : Environment) (t : Tables) (c : CourseRow)
    → c.id ≢ []
    → validate_draft_collaborators env t c ≡ ok tt
    → IsStaffed env t c
unfolding validate_draft_collaborators load_collaborators
validate_draft_collaborators-IsStaffed env t c named h =
    let (some_one, checked) =
      guard-ok (not (is_empty (load_collaborators env t c))) course_submit_collaborator_required
        (check_collaborators env (load_collaborators env t c)) h in
    let q : RoleBindingQuery = record {
      principal_user_ids = [];
      role_name = [];
      resource = course_resource c.id;
    } in
    let editors = keep (lists_binding q) t.authorization.role_bindings in
    let candidates = c.owner_user_id ∷ map (λ (b : RoleBindingRow). b.principal_user_id) editors in
    let all_teach =
      kept-All (λ u. env.is_instructor u ≡ true) (has_profile env) candidates
        (check_collaborators-teach env (load_collaborators env t c) checked) in
    record {
      someone = has-IsTeacher env t c named (
          Some-All _ _ candidates (is_empty-keep-Some (has_profile env) candidates some_one)
            all_teach);
      owner_teaches = λ a. all_teach.0 (IsActive-has_profile env c.owner_user_id a);
      editors_teach =
          All-mono _ _
            (λ b f e a.
              f (IsEditorOf-lists_binding c b e) (IsActive-has_profile env b.principal_user_id a))
            t.authorization.role_bindings
            (kept-All
              (λ (b : RoleBindingRow).
                has_profile env b.principal_user_id ≡ true
                → env.is_instructor b.principal_user_id ≡ true)
              (lists_binding q) t.authorization.role_bindings
              (map-All (λ u. has_profile env u ≡ true → env.is_instructor u ≡ true)
                (λ (b : RoleBindingRow). b.principal_user_id) editors all_teach.1));
    }
