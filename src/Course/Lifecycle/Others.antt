-- ===== src/Course/Lifecycle/Others.antt =====
-- The trash, deletion, collaborators and learners.
use be_mycourse.Shared.{
  ◌≡◌, refl, subst, inl, Bool, true, false, ◌&&◌, not, Option, none, some, [], ◌∷◌, Text, text_eq,
  codes, Result, ok, err, or_fail, >>=-ok, guard-ok, or_fail-ok, ok-injective, arith,
}
use be_mycourse.Shared.Every.{All-append}
use be_mycourse.Authorization.Domain
use be_mycourse.Authorization.Domain.{is_nil}
use be_mycourse.Authorization.Store
use be_mycourse.Course.Rows.{
  value_refused, CourseVersionRow, EnrollmentRow, ProgressRow, Tables, course_trashed,
  course_trash_not_eligible, course_owner_cannot_be_removed, course_published_required,
  course_by_id, first_row, create,
}
use be_mycourse.Course.Rows.Lookup.{first_row-All, create-ok}
use be_mycourse.Course.Environment.{Environment}
use be_mycourse.Course.Access.{
  load_course, load_course_for_admin, load_trashed_course, require_owner_access,
}
use be_mycourse.Course.Removal.{
  eligible, moved_to_trash, trash_course, restore_course, soft_delete_course_tree,
  with_authorization, revoke_course, permanent_delete_course, trashed_or_deleted, delete_course,
  remove_collaborator,
}
use be_mycourse.Course.Learner.{
  enrolls, new_enrollment, enroll, require_enrollment, SaveProgressInput, StoredInput, stored_input,
  new_progress, progress_saved, save_progress, enrolled,
}
use be_mycourse.Course.Lifecycle.States.{IsLater}
use be_mycourse.Course.Lifecycle.WellFormed.{
  Names, IsApproved, CourseIsSound, EnrollmentIsSound, IsWellFormed, IsSoundStep,
}
use be_mycourse.Course.Lifecycle.Kept.{Grows-refl}
use be_mycourse.Course.Lifecycle.Inversion.{load_course-ok}
use be_mycourse.Course.Lifecycle.Drafting.{listed_id}
use be_mycourse.Course.Lifecycle.Frames.{
  touch_courses, touch_enrollments, moved-Grows, move_versions,
}

module _ (env : Environment) (t : Tables) (h : IsWellFormed t) where
  trashed_sound : (id : Text) → IsSoundStep t (moved_to_trash env id t)
  trashed_sound id = record {
    well_formed =
        touch_courses (λ c. text_eq c.id id && is_nil c.deleted_at)
          (λ c. record c { trashed_at = some env.now; updated_at = env.now }) t.courses (λ c. refl)
          (λ c. refl) (λ c. refl) h;
    grows = Grows-refl t.versions;
  }

  pub trash_course-IsSoundStep :
      (id : Text) {t' : Tables} → trash_course env t id ≡ ok t' → IsSoundStep t t'
  unfolding trash_course
  trash_course-IsSoundStep id {t'} e =
      let (c, loaded, h₁) = >>=-ok (load_course_for_admin t id) _ e in
      let (active, h₂) = guard-ok (is_nil c.trashed_at) course_trashed _ h₁ in
      let (may, asked, h₃) = >>=-ok (eligible t c) _ h₂ in
      let (fits, h₄) = guard-ok may course_trash_not_eligible _ h₃ in
      subst (IsSoundStep t) (ok-injective h₄) (trashed_sound c.id)

  pub restore_course-IsSoundStep :
      (id : Text) {t' : Tables} → restore_course env t id ≡ ok t' → IsSoundStep t t'
  unfolding restore_course
  restore_course-IsSoundStep id {t'} e =
      let (c, loaded, h₁) = >>=-ok (load_trashed_course t id) _ e in
      subst (IsSoundStep t) (ok-injective h₁) (record {
        well_formed =
            touch_courses (λ x. text_eq x.id c.id)
              (λ x. record x { trashed_at = none; updated_at = env.now }) t.courses (λ x. refl)
              (λ x. refl) (λ x. refl) h;
        grows = Grows-refl t.versions;
      })

  abbrev deletes : Text → CourseVersionRow → Bool
  deletes id v = text_eq v.course_id id && is_nil v.deleted_at

  abbrev deleted : CourseVersionRow → CourseVersionRow
  deleted v = record v { deleted_at = some env.now; updated_at = env.now }

  deleted-IsLater : (v : CourseVersionRow) → IsLater v (deleted v)
  deleted-IsLater v = record {
    same_course = refl;
    same_number = refl;
    moves = inl refl;
    keeps = λ decided. refl;
  }

  soft_delete_course_tree-IsSoundStep :
      (id : Text) → IsSoundStep t (soft_delete_course_tree env id t)
  unfolding soft_delete_course_tree
  soft_delete_course_tree-IsSoundStep id = record {
    well_formed =
        touch_enrollments (λ e. text_eq e.course_id id && is_nil e.deleted_at)
          (λ e. record e { deleted_at = some env.now; updated_at = env.now }) t.enrollments
          (λ e. refl) (λ e. refl)
          (touch_courses (λ c. text_eq c.id id && is_nil c.deleted_at)
            (λ c. record c { deleted_at = some env.now; updated_at = env.now }) t.courses
            (λ c. refl) (λ c. refl) (λ c. refl)
            (move_versions (deletes id) deleted t.versions (λ v. refl) (λ v. refl) (λ v. refl)
              (λ k v found hit. deleted-IsLater v) (λ k v found hit o. o) h));
    grows =
        moved-Grows (deletes id) deleted t.versions (λ v. refl) (λ v. refl) (λ v. refl)
          (λ k v found hit. deleted-IsLater v);
  }

  enrolled_sound :
      (row : EnrollmentRow) (old : Option EnrollmentRow) {d : Tables × EnrollmentRow}
      → EnrollmentIsSound t.versions row
      → enrolled env t row old ≡ ok d
      → IsSoundStep t d.0
  unfolding enrolled
  enrolled_sound row (some old) {d} n e =
      subst (λ (x : Tables × EnrollmentRow). IsSoundStep t x.0) (ok-injective e)
        (record { well_formed = h; grows = Grows-refl t.versions })
  enrolled_sound row none {d} n e =
      let (rows, made, last) = >>=-ok (create (λ e. e.id) row t.enrollments) _ e in
      let (fresh, are) = create-ok (λ (x : EnrollmentRow). x.id) row t.enrollments made in
      subst (λ (x : Tables × EnrollmentRow). IsSoundStep t x.0) (ok-injective last)
        (record {
          well_formed = record {
            courses_sound = h.courses_sound;
            enrollments_sound = rw (are) (
                All-append (EnrollmentIsSound t.versions) t.enrollments (row ∷ [])
                  h.enrollments_sound (n, tt));
            numbered = h.numbered;
            owned = h.owned;
          };
          grows = Grows-refl t.versions;
        })

  pub enroll-IsSoundStep :
      (id user : Text) {d : Tables × EnrollmentRow}
      → enroll env t id user ≡ ok d
      → IsSoundStep t d.0
  unfolding enroll course_by_id
  enroll-IsSoundStep id user {d} e =
      let (c, loaded, h₁) = >>=-ok (load_course t id) _ e in
      let (p, published, h₂) =
        >>=-ok (or_fail c.current_published_version_id course_published_required) _ h₁ in
      let pointer = or_fail-ok c.current_published_version_id course_published_required published in
      let listed = load_course-ok t id loaded in
      let n =
        (first_row-All (CourseIsSound t.versions) (λ x. text_eq x.id id) t.courses h.courses_sound
            listed).publishes
          p pointer in
      enrolled_sound (new_enrollment env id user p) (first_row (enrolls id user) t.enrollments)
        (subst (λ a. Names t.versions p a IsApproved) (listed_id id t.courses listed).0 n) h₂

  progress_saved_sound :
      (stored : StoredInput) (content : Text) (row : EnrollmentRow) (old : Option ProgressRow)
      {t' : Tables}
      → progress_saved env t stored content row old ≡ ok t'
      → IsSoundStep t t'
  unfolding progress_saved
  progress_saved_sound stored content row (some old) e =
      subst (IsSoundStep t) (ok-injective e)
        (record { well_formed = h; grows = Grows-refl t.versions })
  progress_saved_sound stored content row none e =
      let (rows, made, last) =
        >>=-ok (create (λ p. p.id) (new_progress env stored content row.id) t.progress) _ e in
      subst (IsSoundStep t) (ok-injective last)
        (record { well_formed = h; grows = Grows-refl t.versions })

  pub save_progress-IsSoundStep :
      (id user : Text) (input : SaveProgressInput) {t' : Tables}
      → save_progress env t id user input ≡ ok t'
      → IsSoundStep t t'
  unfolding save_progress
  save_progress-IsSoundStep id user input e =
      let (row, found, h₁) = >>=-ok (require_enrollment t id user) _ e in
      let (content, known, h₂) =
        >>=-ok (or_fail (env.to_uuid input.stable_content_id) value_refused) _ h₁ in
      let (stored, fits, h₃) = >>=-ok (stored_input env input) _ h₂ in
      progress_saved_sound stored content row _ h₃

-- A service on the authorization tables leaves the course tables.
with_authorization-IsSoundStep :
    (base t : Tables) (r : Result Domain.Error Store.Store) {t' : Tables}
    → with_authorization t r ≡ ok t'
    → IsSoundStep base t
    → IsSoundStep base t'
with_authorization-IsSoundStep base t (ok s) e h =
    subst (IsSoundStep base) (ok-injective e)
      (record { well_formed = h.well_formed; grows = h.grows })
with_authorization-IsSoundStep base t (err x) e h = absurd (ground arith)

module _ (env : Environment) (t : Tables) (h : IsWellFormed t) where
  revoked_tree_sound :
      (id : Text) {t' : Tables}
      → revoke_course env (soft_delete_course_tree env id t) id ≡ ok t'
      → IsSoundStep t t'
  unfolding revoke_course
  revoked_tree_sound id e =
      with_authorization-IsSoundStep t (soft_delete_course_tree env id t) _ e
        (soft_delete_course_tree-IsSoundStep env t h id)

  pub permanent_delete_course-IsSoundStep :
      (id : Text) {t' : Tables} → permanent_delete_course env t id ≡ ok t' → IsSoundStep t t'
  unfolding permanent_delete_course
  permanent_delete_course-IsSoundStep id e =
      let (c, loaded, h₁) = >>=-ok (load_trashed_course t id) _ e in revoked_tree_sound c.id h₁

  removed_sound :
      (id : Text) (may : Bool) {t' : Tables}
      → trashed_or_deleted env t id may ≡ ok t'
      → IsSoundStep t t'
  removed_sound id true e = subst (IsSoundStep t) (ok-injective e) (trashed_sound env t h id)
  removed_sound id false e = revoked_tree_sound id e

  pub delete_course-IsSoundStep :
      (id actor : Text) {t' : Tables} → delete_course env t id actor ≡ ok t' → IsSoundStep t t'
  unfolding delete_course
  delete_course-IsSoundStep id actor e =
      let (a, allowance, h₁) =
        >>=-ok (require_owner_access env t id actor (codes "course_lifecycle:delete")) _ e in
      let (may, asked, h₂) = >>=-ok (eligible t a.course) _ h₁ in removed_sound a.course.id may h₂

  pub remove_collaborator-IsSoundStep :
      (id actor user : Text) {t' : Tables}
      → remove_collaborator env t id actor user ≡ ok t'
      → IsSoundStep t t'
  unfolding remove_collaborator
  remove_collaborator-IsSoundStep id actor user e =
      let (a, allowance, h₁) =
        >>=-ok (require_owner_access env t id actor (codes "course_collaborators:manage")) _ e in
      let (other, h₂) =
        guard-ok (not (text_eq a.course.owner_user_id user)) course_owner_cannot_be_removed _ h₁ in
      with_authorization-IsSoundStep t t _ h₂
        (record { well_formed = h; grows = Grows-refl t.versions })
