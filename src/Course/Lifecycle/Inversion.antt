-- ===== src/Course/Lifecycle/Inversion.antt =====
-- What a load, or the creation of a draft, that succeeds has found or done.
use be_mycourse.Shared.{
  ◌+◌, ◌≡◌, refl, sym, ap, ◌∙◌, inl, inr, false, Option, none, some, [], ◌∷◌, ◌++◌, Text, contains,
  map, Option-cases, ok, or_fail, ok-injective, >>=-ok, or_fail-ok, arith,
}
use be_mycourse.Course.Rows.{
  VersionStatus, CourseRow, CourseVersionRow, Tables, course_by_id, course_draft_required,
  version_by_id, create,
}
use be_mycourse.Course.Rows.Lookup.{create-ok}
use be_mycourse.Course.Environment.{Environment}
use be_mycourse.Course.Access.{load_course, load_version_row, require_draft_version}
use be_mycourse.Course.Drafts.{
  max_version, new_version, based_on, clone_section_rows, clone_lesson_rows, clone_sub_lesson_rows,
  clone_outline, create_next_draft_version,
}

-- The loads give the row with the id.
pub load_version_row-ok :
    (t : Tables) (id : Text) {v : CourseVersionRow}
    → load_version_row t id ≡ ok v
    → version_by_id id t.versions ≡ some v
unfolding load_version_row
load_version_row-ok t id {v} h = elim (Option-cases (version_by_id id t.versions)) [
  | inl e ↦ absurd (ground arith)
  | inr (w, e) ↦ ground arith
]

pub load_course-ok :
    (t : Tables) (id : Text) {c : CourseRow}
    → load_course t id ≡ ok c
    → course_by_id id t.courses ≡ some c
unfolding load_course
load_course-ok t id {c} h = elim (Option-cases (course_by_id id t.courses)) [
  | inl e ↦ absurd (ground arith)
  | inr (w, e) ↦ ground arith
]

pub require_draft_version-ok :
    (t : Tables) (id : Text) {c : CourseRow} {v : CourseVersionRow}
    → require_draft_version t id ≡ ok (c, v)
    → (course_by_id id t.courses ≡ some c)
      × ((d : Text) × (c.current_draft_version_id ≡ some d) × (version_by_id d t.versions ≡ some v))
unfolding require_draft_version
require_draft_version-ok t id {c} {v} h =
    let (c', loaded, h₁) = >>=-ok (load_course t id) _ h in
    let (d, drafted, h₂) =
      >>=-ok (or_fail c'.current_draft_version_id course_draft_required) _ h₁ in
    let (v', found, h₃) = >>=-ok (load_version_row t d) _ h₂ in
    let same = ok-injective h₃ in
    let same_course : c' ≡ c = ap (λ x. x.0) same in
    let same_version : v' ≡ v = ap (λ x. x.1) same in
    (
      rw (← same_course) (load_course-ok t id loaded),
      (
        d,
        rw (← same_course) (or_fail-ok c'.current_draft_version_id course_draft_required drafted),
        rw (← same_version) (load_version_row-ok t d found),
      ),
    )

-- What a new draft adds to the tables.
pub record Drafted (env : Environment) (t : Tables) (course_id : Text) (t' : Tables) : Type 0 where
  pub row : CourseVersionRow
  pub appended : t'.versions ≡ t.versions ++ row ∷ []
  pub fresh : contains row.id (map (λ v. v.id) t.versions) ≡ false
  pub named : row.id ≡ env.new_id
  pub of_course : row.course_id ≡ course_id
  pub numbered : row.version_no ≡ max_version course_id t.versions + 1
  pub is_draft_row : row.status ≡ VersionStatus.draft
  pub same_courses : t'.courses ≡ t.courses
  pub same_enrollments : t'.enrollments ≡ t.enrollments

pub clone_outline-ok :
    (env : Environment) (from to : Text) (t : Tables) {t' : Tables}
    → clone_outline env from to t ≡ ok t'
    → (t'.versions ≡ t.versions) × (t'.courses ≡ t.courses) × (t'.enrollments ≡ t.enrollments)
unfolding clone_outline
clone_outline-ok env from to t {t'} h =
    let (a, e₁, h₁) = >>=-ok (clone_section_rows env from to t) _ h in
    let (b, e₂, h₂) = >>=-ok (clone_lesson_rows env from to t) _ h₁ in
    let (c, e₃, h₃) = >>=-ok (clone_sub_lesson_rows env from to t) _ h₂ in
    let same = ok-injective h₃ in
    (
      ap (λ (x : Tables). x.versions) (sym same),
      ap (λ (x : Tables). x.courses) (sym same),
      ap (λ (x : Tables). x.enrollments) (sym same),
    )

pub create_next_draft_version-ok :
    (env : Environment) (t : Tables) (course_id : Text) (from : Option Text) {t' : Tables}
    → create_next_draft_version env t course_id from ≡ ok t'
    → Drafted env t course_id t'
unfolding create_next_draft_version
create_next_draft_version-ok env t course_id none {t'} h =
    let draft = new_version env course_id (max_version course_id t.versions + 1) in
    let (rows, made, h₁) = >>=-ok (create (λ v. v.id) draft t.versions) _ h in
    let same = ok-injective h₁ in
    let (fresh, appended) = create-ok (λ v. v.id) draft t.versions made in
    record {
      row = draft;
      appended = ap (λ (x : Tables). x.versions) (sym same) ∙ appended;
      fresh = fresh;
      named = refl;
      of_course = refl;
      numbered = refl;
      is_draft_row = refl;
      same_courses = ap (λ (x : Tables). x.courses) (sym same);
      same_enrollments = ap (λ (x : Tables). x.enrollments) (sym same);
    }
create_next_draft_version-ok env t course_id (some from) {t'} h =
    let (source, loaded, h₁) = >>=-ok (load_version_row t from) _ h in
    let draft =
      based_on source (new_version env course_id (max_version course_id t.versions + 1)) in
    let (rows, made, h₂) = >>=-ok (create (λ v. v.id) draft t.versions) _ h₁ in
    let (fresh, appended) = create-ok (λ v. v.id) draft t.versions made in
    let (versions, courses, enrollments) = clone_outline-ok env from env.new_id _ h₂ in
    record {
      row = draft;
      appended = versions ∙ appended;
      fresh = fresh;
      named = refl;
      of_course = refl;
      numbered = refl;
      is_draft_row = refl;
      same_courses = courses;
      same_enrollments = enrollments;
    }
