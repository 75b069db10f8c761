-- ===== src/Course/Lifecycle/Outcomes.antt =====
-- internal/course/infra/repo_review.go: the tables after an approval and after a rejection.
use be_mycourse.Shared.{
  ℕ, ◌≡◌, refl, sym, ap, subst, ◌∙◌, inl, inr, true, ◌&&◌, some, none, trim, text_eq→eq, arith,
  List, [], ◌∷◌, Text, text_eq, text_eq_refl, Bool-cases, ok, >>=-ok, ok-injective,
}
use be_mycourse.Shared.Int.{ℤ}
use be_mycourse.Authorization.Domain.{is_nil→none, is_nil}
use be_mycourse.Course.Rows.{
  VersionStatus, CourseRow, CourseVersionRow, EnrollmentRow, Tables, course_invalid_review_state,
  version_by_id, course_by_id, update_where,
}
use be_mycourse.Course.Rows.Lookup.{first_row-update_where}
use be_mycourse.Course.Environment.{Environment}
use be_mycourse.Course.Access.{require_draft_version}
use be_mycourse.Course.Drafts.{new_version, based_on, point_to_draft}
use be_mycourse.Course.Lifecycle.{in_status, mark_approved, publish, move_enrollment, approve_draft}
use be_mycourse.Course.Lifecycle.WellFormed.{IsWellFormed}
use be_mycourse.Course.Lifecycle.Kept.{version_by_id-hit}
use be_mycourse.Course.Lifecycle.Edge.{DraftOf, draft_of, in_status-ok}

-- The course with the id, after an update of the courses with an id.
course_updated :
    (id k : Text) (f : CourseRow → CourseRow) (cs : List CourseRow) {c : CourseRow}
    → ((x : CourseRow) → (f x).id ≡ x.id)
    → course_by_id id cs ≡ some c
    → text_eq c.id k ≡ true
    → course_by_id id (update_where (λ x. text_eq x.id k) f cs) ≡ some (f c)
unfolding course_by_id
course_updated id k f cs {c} same listed hit =
    first_row-update_where (λ x. text_eq x.id id) (λ x. text_eq x.id k) f
      (λ x. elim (Bool-cases (text_eq x.id k)) [
        | inl t ↦ rw (t) (ap (λ a. text_eq a id) (same x))
        | inr t ↦ rw (t) refl
      ])
      cs
    ∙ rw (listed, hit) refl

-- The enrollments before and after, row by row: those that are active in the course move to the
-- version, and the others stay.
pub data Moved (course version : Text) (now : ℤ)
    : List EnrollmentRow → List EnrollmentRow → Type 0 where
  none_left : Moved course version now [] []
  moves :
      {e : EnrollmentRow} {es es' : List EnrollmentRow}
      → e.course_id ≡ course
      → e.deleted_at ≡ none
      → Moved course version now es es'
      → Moved course version now
          (e ∷ es)
          (record e { current_version_id = version; updated_at = now } ∷ es')
  stays :
      {e : EnrollmentRow} {es es' : List EnrollmentRow}
      → ((e.course_id ≡ course) → (e.deleted_at ≡ none) → ⊥)
      → Moved course version now es es'
      → Moved course version now (e ∷ es) (e ∷ es')

-- The draft of the course, and the rows after its approval, column by column.
pub record Published (t t' : Tables) (id actor note : Text) (env : Environment) : Type 0 where
  pub course : CourseRow
  pub version : CourseVersionRow
  pub course_was : course_by_id id t.courses ≡ some course
  pub draft_was : course.current_draft_version_id ≡ some version.id
  pub version_was : version_by_id version.id t.versions ≡ some version
  pub was_in_review : version.status ≡ VersionStatus.in_review
  pub course_now :
      course_by_id id t'.courses
      ≡ some (record course {
        current_published_version_id = some version.id;
        current_draft_version_id = none;
        updated_at = env.now;
      })
  pub version_now :
      version_by_id version.id t'.versions
      ≡ some (record version {
        status = VersionStatus.approved;
        approved_by_user_id = some actor;
        approved_at = some env.now;
        approval_note = trim note;
        updated_at = env.now;
      })
  pub learners_now : Moved id version.id env.now t.enrollments t'.enrollments

learners-Moved :
    (env : Environment) (id k version : Text)
    → k ≡ id
    → (es : List EnrollmentRow)
    → Moved id version env.now es (
        update_where
          (λ x. text_eq x.course_id k && is_nil x.deleted_at)
          (move_enrollment env version)
          es)
unfolding update_where
learners-Moved env id k version same [] = none_left
learners-Moved env id k version same (e ∷ es) = elim (Bool-cases (text_eq e.course_id k)) [
  | inl here ↦ elim (Bool-cases (is_nil e.deleted_at)) [
    | inl active ↦
        rw (here, active)
          (moves (text_eq→eq e.course_id k here ∙ same) (is_nil→none e.deleted_at active)
            (learners-Moved env id k version same es))
    | inr gone ↦
        rw (here, gone)
          (stays (λ a b. absurd (ground (arith, b))) (learners-Moved env id k version same es))
  ]
  | inr elsewhere ↦ rw (elsewhere) (
      stays
        (λ a b.
          let other : e.course_id ≡ k = a ∙ sym same in
          let hit : text_eq e.course_id k ≡ true = rw (other) (text_eq_refl k) in cc)
        (learners-Moved env id k version same es))
]

-- When ApproveDraft succeeds on well-formed tables, the course's draft was in review; it is now
-- approved with the actor, the instant and the trimmed note, the course publishes it and has no
-- draft, and of the enrollments exactly the active ones of the course move to it.
pub approve_draft-Published :
    (env : Environment) (t : Tables) (id actor note : Text) (t' : Tables)
    → IsWellFormed t
    → approve_draft env t id actor note ≡ ok t'
    → Published t t' id actor note env
unfolding approve_draft
approve_draft-Published env t id actor note t' h e =
    let ((c, v), loaded, h₁) = >>=-ok (require_draft_version t id) _ e in
    let (u, fits, h₂) =
      >>=-ok (in_status VersionStatus.in_review v.status course_invalid_review_state) _ h₁ in
    subst (λ x. Published t x id actor note env) (ok-injective h₂)
      (outcome c v loaded
        (in_status-ok VersionStatus.in_review v.status course_invalid_review_state fits)
        (draft_of t id h loaded))
  where
    outcome :
        (c : CourseRow) (v : CourseVersionRow)
        → require_draft_version t id ≡ ok (c, v)
        → v.status ≡ VersionStatus.in_review
        → DraftOf t id c v
        → Published t
            (record t {
              versions =
                  update_where (λ x. text_eq x.id v.id) (mark_approved env actor note) t.versions;
              courses = update_where (λ x. text_eq x.id c.id) (publish env v.id) t.courses;
              enrollments =
                  update_where
                    (λ x. text_eq x.course_id c.id && is_nil x.deleted_at)
                    (move_enrollment env v.id)
                    t.enrollments;
            })
            id
            actor
            note
            env
    outcome c v loaded was d = record {
      course = c;
      version = v;
      course_was = d.course_listed;
      draft_was = d.pointed;
      version_was = d.listed;
      was_in_review = was;
      course_now =
          course_updated id c.id (publish env v.id) t.courses (λ x. refl) d.course_listed
            (text_eq_refl c.id);
      version_now =
          version_by_id-hit (λ x. text_eq x.id v.id) (mark_approved env actor note) (λ x. refl) v.id
            t.versions v d.listed (text_eq_refl v.id);
      learners_now = learners-Moved env id c.id v.id d.named t.enrollments;
    }

-- A draft that is started from a version copies it, and the course points to it.
record Copied (env : Environment) (t t' : Tables) (c : CourseRow) (from : CourseVersionRow)
    : Type 0 where
  number : ℕ
  drafts : version_by_id env.new_id t'.versions ≡ some (based_on from (new_version env c.id number))
  keeps :
      (k : Text) {v : CourseVersionRow}
      → version_by_id k t.versions ≡ some v
      → version_by_id k t'.versions ≡ some v
  points : t'.courses ≡ (point_to_draft env c.id t).courses

-- The draft of the course, and the rows after its rejection, column by column.
pub record Returned (t t' : Tables) (id actor reason : Text) (env : Environment) : Type 0 where
  pub course : CourseRow
  pub version : CourseVersionRow
  pub number : ℕ
  pub course_was : course_by_id id t.courses ≡ some course
  pub draft_was : course.current_draft_version_id ≡ some version.id
  pub version_was : version_by_id version.id t.versions ≡ some version
  pub was_in_review : version.status ≡ VersionStatus.in_review
  pub version_now :
      version_by_id version.id t'.versions
      ≡ some (record version {
        status = VersionStatus.rejected;
        rejected_by_user_id = some actor;
        rejected_at = some env.now;
        rejection_reason = trim reason;
        updated_at = env.now;
      })
  pub draft_now :
      version_by_id env.new_id t'.versions
      ≡ some (record {
        id = env.new_id;
        course_id = id;
        version_no = number;
        status = VersionStatus.draft;
        based_on_version_id = some version.id;
        title = version.title;
        short_description = version.short_description;
        about_course = version.about_course;
        thumbnail_file_id = version.thumbnail_file_id;
        preview_video_file_id = version.preview_video_file_id;
        course_level_id = version.course_level_id;
        course_topic_id = version.course_topic_id;
        row_version = 1;
        submitted_by_user_id = none;
        submitted_at = none;
        approved_by_user_id = none;
        approved_at = none;
        rejected_by_user_id = none;
        rejected_at = none;
        rejection_reason = [];
        approval_note = [];
        created_at = env.now;
        updated_at = env.now;
        deleted_at = none;
      })
  pub course_now :
      course_by_id id t'.courses
      ≡ some (record course { current_draft_version_id = some env.new_id; updated_at = env.now })
