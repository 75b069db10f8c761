-- ===== src/Course/Learner.antt =====
-- internal/course/infra/repo_learner.go: enrolling and keeping progress. The score stays its bits.
pub mod Saved
use be_mycourse.Shared.{
  ℕ, Bool, ◌&&◌, Option, none, some, Text, codes, text_eq, trim, Result, ok, err, ◌>>=◌, or_fail,
  ◌>>◌, guard, leb, rune_count,
}
use be_mycourse.Authorization.Domain.{is_nil}
use be_mycourse.Course.Rows.{
  EnrollmentRow, ProgressRow, Tables, CourseError, course_published_required,
  course_enrollment_not_found, value_refused, first_row, update_where, create,
}
use be_mycourse.Course.Environment.{Environment}
use be_mycourse.Course.Content.{normalize_json}
use be_mycourse.Course.Access.{load_course}

-- `course_id = ? AND user_id = ? AND deleted_at IS NULL`
abbrev pub enrolls : Text → Text → EnrollmentRow → Bool
enrolls course_id user_id e =
    text_eq e.course_id course_id && text_eq e.user_id user_id && is_nil e.deleted_at

abbrev pub new_enrollment : Environment → Text → Text → Text → EnrollmentRow
new_enrollment env course_id user_id version = record {
  id = env.new_id;
  course_id = course_id;
  user_id = user_id;
  current_version_id = version;
  created_at = env.now;
  updated_at = env.now;
  deleted_at = none;
}

-- The enrollment that is there, or a new one.
unfoldable pub enrolled :
    Environment
    → Tables
    → EnrollmentRow
    → Option EnrollmentRow
    → Result CourseError (Tables × EnrollmentRow)
unfolding create
enrolled env t row (some old) = ok (t, old)
enrolled env t row none = do
  rows ← create (λ e. e.id) row t.enrollments
  ok (record t { enrollments = rows }, row)

-- The tables and the enrollment, a new one with the published version.
unfoldable pub enroll :
    Environment → Tables → Text → Text → Result CourseError (Tables × EnrollmentRow)
unfolding load_course first_row enrolled
enroll env t course_id user_id = do
  course ← load_course t course_id
  published ← or_fail course.current_published_version_id course_published_required
  enrolled env t (new_enrollment env course_id user_id published)
      (first_row (enrolls course_id user_id) t.enrollments)

unfoldable pub require_enrollment : Tables → Text → Text → Result CourseError EnrollmentRow
unfolding first_row
require_enrollment t course_id user_id =
    or_fail (first_row (enrolls course_id user_id) t.enrollments) course_enrollment_not_found

pub record SaveProgressInput : Type 0 where
  pub stable_content_id : Text
  pub content_type : Text
  pub status : Text
  pub score : ℕ
  pub quiz_attempt : Text

abbrev pub tracks : Text → Text → ProgressRow → Bool
tracks enrollment content p =
    text_eq p.enrollment_id enrollment && text_eq p.stable_content_id content && is_nil p.deleted_at

-- What the columns of course_progress_items store of the input.
pub record StoredInput : Type 0 where
  pub content_type : Text
  pub status : Text
  pub score : ℕ
  pub quiz_attempt : Text

-- `VARCHAR(24)`
abbrev pub fits_varchar : Text → Bool
fits_varchar s = leb (rune_count s) 24

unfoldable pub stored_input : Environment → SaveProgressInput → Result CourseError StoredInput
unfolding rune_count
stored_input env input = do
  guard (fits_varchar (trim input.content_type)) value_refused
  guard (fits_varchar (trim input.status)) value_refused
  score ← or_fail (env.to_numeric input.score) value_refused
  attempt ← or_fail (env.to_jsonb (normalize_json input.quiz_attempt (codes "{}"))) value_refused
  ok (record {
    content_type = trim input.content_type;
    status = trim input.status;
    score = score;
    quiz_attempt = attempt;
  })

abbrev pub recorded : Environment → StoredInput → ProgressRow → ProgressRow
recorded env stored p = record p {
  content_type = stored.content_type;
  status = stored.status;
  score = stored.score;
  quiz_attempt = stored.quiz_attempt;
  last_interacted_at = some env.now;
  updated_at = env.now;
}

abbrev pub new_progress : Environment → StoredInput → Text → Text → ProgressRow
new_progress env stored content enrollment = record {
  id = env.new_id;
  enrollment_id = enrollment;
  stable_content_id = content;
  content_type = stored.content_type;
  status = stored.status;
  score = stored.score;
  quiz_attempt = stored.quiz_attempt;
  last_interacted_at = some env.now;
  created_at = env.now;
  updated_at = env.now;
  deleted_at = none;
}

unfoldable pub progress_saved :
    Environment
    → Tables
    → StoredInput
    → Text
    → EnrollmentRow
    → Option ProgressRow
    → Result CourseError Tables
unfolding update_where create
progress_saved env t stored content enrollment (some p) =
    ok (record t {
      progress = update_where (λ q. text_eq q.id p.id) (recorded env stored) t.progress;
    })
progress_saved env t stored content enrollment none = do
  rows ← create (λ p. p.id) (new_progress env stored content enrollment.id) t.progress
  ok (record t { progress = rows })

-- The `WHERE` compares with the input as a uuid.
unfoldable pub save_progress :
    Environment → Tables → Text → Text → SaveProgressInput → Result CourseError Tables
unfolding require_enrollment stored_input first_row progress_saved
save_progress env t course_id user_id input = do
  enrollment ← require_enrollment t course_id user_id
  content ← or_fail (env.to_uuid input.stable_content_id) value_refused
  stored ← stored_input env input
  progress_saved env t stored content enrollment
      (first_row (tracks enrollment.id content) t.progress)

-- loadProgress reads these rows, ordered by id.
unfoldable pub load_progress_item : Tables → Text → Text → Text → Option ProgressRow
unfolding require_enrollment first_row
load_progress_item t course_id user_id content = elim (require_enrollment t course_id user_id) [
  | err e ↦ none
  | ok enrollment ↦ first_row (tracks enrollment.id content) t.progress
]
