-- ===== src/Course/Submit/Teachers.antt =====
-- internal/course/infra/repo_submit_validation.go: what makes a user a collaborator, stated by the
-- rows of the user and of the binding.
use be_mycourse.Shared.{
  ◌≡◌, ◌≢◌, refl, subst, text_eq, text_eq→eq, ◌⊎◌, inl, inr, true, false, Option, none, some, [],
  ◌∷◌, Text, codes, eq→text_eq, is_empty, Bool-cases, Option-cases, arith,
}
use be_mycourse.Shared.Int.{ℤ, ◌≤ℤ◌}
use be_mycourse.Authorization.Domain.{is_nil→none}
use be_mycourse.Authorization.Store.{RoleBindingRow, lists_binding}
use be_mycourse.Course.Access.{course_resource}
use be_mycourse.Course.Rows.{CourseRow}
use be_mycourse.Course.Environment.{Environment, UserSnapshot}
use be_mycourse.Course.Submit.{nil_or_by, has_profile}

-- The user is there, not deleted, not disabled, and no ban of theirs lasts.
pub record IsActive (env : Environment) (user : Text) : Type 0 where
  pub row : UserSnapshot
  pub listed : env.users user ≡ some row
  pub not_deleted : row.deleted_at ≡ none
  pub enabled : row.is_disabled ≡ false
  pub not_banned : (until : ℤ) → row.banned_until ≡ some until → until ≤ℤ env.now

-- The binding is in force and gives a role on the course, or on every course.
pub record IsEditorOf (c : CourseRow) (b : RoleBindingRow) : Type 0 where
  pub in_force : b.revoked_at ≡ none
  pub on_courses : b.resource_type ≡ codes "course"
  pub on_course : (b.resource_id ≡ c.id) ⊎ (b.resource_id ≡ codes "*")

pub record IsTeacher (env : Environment) (user : Text) : Type 0 where
  pub active : IsActive env user
  pub instructs : env.is_instructor user ≡ true

not_empty : (s : Text) → s ≢ [] → is_empty s ≡ false
not_empty [] h = absurd (h refl)
not_empty (x ∷ s) h = refl

nil_or_by-unbanned :
    (o : Option ℤ) (now : ℤ)
    → ((until : ℤ) → o ≡ some until → until ≤ℤ now)
    → nil_or_by o now ≡ true
nil_or_by-unbanned none now h = refl
nil_or_by-unbanned (some until) now h = let by_now = h until refl in ground arith

pub IsActive-has_profile :
    (env : Environment) (user : Text) → IsActive env user → has_profile env user ≡ true
IsActive-has_profile env user a =
    rw (a.listed, has_profile)
      (ground (
        arith,
        a.not_deleted,
        a.enabled,
        nil_or_by-unbanned a.row.banned_until env.now a.not_banned,
      ))

pub IsEditorOf-lists_binding :
    (c : CourseRow) (b : RoleBindingRow)
    → IsEditorOf c b
    → lists_binding
        (record { principal_user_ids = []; role_name = []; resource = course_resource c.id })
        b
      ≡ true
unfolding lists_binding
IsEditorOf-lists_binding c b e =
    let kind = eq→text_eq b.resource_type (codes "course") e.on_courses in
    elim (e.on_course) [
      | inl here ↦
          let hit = eq→text_eq b.resource_id c.id here in ground (arith, e.in_force, kind, hit)
      | inr everywhere ↦
          let hit = eq→text_eq b.resource_id (codes "*") everywhere in
          ground (arith, e.in_force, kind, hit)
    ]

has_profile-IsActive :
    (env : Environment) (user : Text) → has_profile env user ≡ true → IsActive env user
has_profile-IsActive env user h = elim (Option-cases (env.users user)) [
  | inl e ↦ let r = rw (e, has_profile) at h in absurd cc
  | inr (u, e) ↦
      let r = rw (e, has_profile) at h in
      record {
        row = u;
        listed = e;
        not_deleted = is_nil→none u.deleted_at (ground (arith, r));
        enabled = ground (arith, r);
        not_banned = λ until banned.
            let over : nil_or_by (some until) env.now ≡ true =
              subst (λ o. nil_or_by o env.now ≡ true) banned (ground (arith, r)) in
            ground arith;
      }
]

pub lists_binding-IsEditorOf :
    (c : CourseRow) (b : RoleBindingRow)
    → c.id ≢ []
    → lists_binding
        (record { principal_user_ids = []; role_name = []; resource = course_resource c.id })
        b
      ≡ true
    → IsEditorOf c b
unfolding lists_binding
lists_binding-IsEditorOf c b named h = record {
  in_force = is_nil→none b.revoked_at (ground (arith, h));
  on_courses = text_eq→eq b.resource_type (codes "course") (ground (arith, h));
  on_course = elim (Bool-cases (text_eq b.resource_id c.id)) [
    | inl here ↦ inl (text_eq→eq b.resource_id c.id here)
    | inr elsewhere ↦
        let full : is_empty c.id ≡ false = not_empty c.id named in
        inr (text_eq→eq b.resource_id (codes "*") (ground (arith, h, full, elsewhere)))
  ];
}

pub as-IsTeacher :
    (env : Environment) (user : Text)
    → (has_profile env user ≡ true) × (env.is_instructor user ≡ true)
    → IsTeacher env user
as-IsTeacher env user (profile, teaches) = record {
  active = has_profile-IsActive env user profile;
  instructs = teaches;
}
