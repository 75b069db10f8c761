-- ===== src/Course/Content.antt =====
-- internal/course/infra/repo_versioning.go and duration.go: what a sub-lesson may hold, and how
-- long it takes. CountDeltaNonWhitespace and UniqueString are internal/shared/utils/text_rules.go
-- and normalize.go.
pub mod Quiz
use be_mycourse.Shared.{
  ℕ, zero, suc, ◌+◌, Bool, true, false, ◌&&◌, ◌||◌, not, Option, none, some, List, [], ◌∷◌, Text,
  codes, text_eq, trim, is_empty, contains, all, length, count_non_whitespace, if◌then◌else◌, leb,
  ltb, ◌==◌, Result, ok, err, ◌>>=◌, ◌>>◌, guard, or_fail,
}
use be_mycourse.Shared.Int.{ℤ, pos, ltz}
use be_mycourse.Course.Rows.{
  QuizOption, QuizContent, CourseError, course_invalid_sub_lesson_kind,
  course_preview_not_allowed_for_quiz, course_quiz_single_choice_multiple_correct, not_found,
  invalid_profile_media_file, invalid_json,
}
use be_mycourse.Course.Environment.{Environment, MediaInfo}

abbrev pub kind_video : Text
kind_video = codes "VIDEO"

abbrev pub kind_text : Text
kind_text = codes "TEXT"

abbrev pub kind_quiz : Text
kind_quiz = codes "QUIZ"

-- strings.TrimSpace(s) == ""
abbrev pub is_blank : Text → Bool
is_blank s = is_empty (trim s)

abbrev add_visible : Option Text → ℕ → ℕ
add_visible none n = n
add_visible (some t) n = count_non_whitespace t + n

visible_inserts : List (Option Text) → ℕ
visible_inserts [] = 0
visible_inserts (insert ∷ ops) = add_visible insert (visible_inserts ops)

unfoldable pub count_delta_non_whitespace : Environment → Text → ℕ
unfolding visible_inserts
count_delta_non_whitespace env raw =
    if is_blank raw then 0 else (elim (env.decode_delta (trim raw)) [
      | none ↦ count_non_whitespace (trim raw)
      | some ops ↦ visible_inserts ops
    ])

abbrev pub starts_with : Text → Text → Bool
starts_with [] s = true
starts_with (x ∷ p) [] = false
starts_with (x ∷ p) (y ∷ s) = (x == y) && starts_with p s

-- The kinds of file that validateMediaFile asks for.
pub data ExpectedKind : Type 0 where
  image video : ExpectedKind

unfoldable pub is_expected : Environment → ExpectedKind → MediaInfo → Bool
is_expected env image row =
    not (text_eq row.kind (codes "VIDEO"))
    && starts_with (codes "image/") (env.to_lower row.mime_type)
is_expected env video row = text_eq row.kind (codes "VIDEO")

unfoldable pub check_media_file : Environment → Text → ExpectedKind → Result CourseError (Unit {0})
unfolding is_expected
check_media_file env id expected = do
  row ← or_fail (env.media_files id) not_found
  guard (text_eq row.status (codes "READY") && is_expected env expected row)
      invalid_profile_media_file

unfoldable pub validate_media_file :
    Environment → Option Text → ExpectedKind → Result CourseError (Unit {0})
unfolding check_media_file
validate_media_file env none expected = ok tt
validate_media_file env (some file) expected =
    if is_blank file then ok tt else check_media_file env (trim file) expected

-- `table` has the ids of the rows that are not deleted.
unfoldable pub validate_lookup_id : (Text → Bool) → Option Text → Result CourseError (Unit {0})
validate_lookup_id table none = ok tt
validate_lookup_id table (some id) = if is_blank id then ok tt else guard (table id) not_found

-- The number of rows with one of the ids is that of the distinct ids exactly when each has a row.
unfoldable pub validate_lookup_ids : (Text → Bool) → List Text → Result CourseError (Unit {0})
validate_lookup_ids table ids = guard (all table ids) not_found

unfoldable pub validate_video_sub_lesson : Environment → Option Text → Result CourseError (Unit {0})
unfolding validate_media_file
validate_video_sub_lesson env none = err course_invalid_sub_lesson_kind
validate_video_sub_lesson env (some file) = do
  guard (not (is_blank file)) course_invalid_sub_lesson_kind
  validate_media_file env (some (trim file)) video

abbrev pub normalize_json : Text → Text → Text
normalize_json v fallback = if is_blank v then fallback else v

unfoldable pub validate_text_sub_lesson : Environment → Option Text → Result CourseError (Unit {0})
unfolding count_delta_non_whitespace
validate_text_sub_lesson env none = err course_invalid_sub_lesson_kind
validate_text_sub_lesson env (some delta) = do
  let content = normalize_json delta (codes "[]")
  guard (env.is_json content) invalid_json
  guard (leb 1 (count_delta_non_whitespace env content)) course_invalid_sub_lesson_kind

-- The loop over the options: the correct ones so far are counted.
count_options : ℕ → List QuizOption → Result CourseError ℕ
count_options correct [] = ok correct
count_options correct (option ∷ options) =
    guard (not (is_blank option.body)) course_invalid_sub_lesson_kind
    >> count_options (if option.is_correct then suc correct else correct) options

unfoldable pub validate_quiz_sub_lesson : Option QuizContent → Result CourseError (Unit {0})
unfolding count_options
validate_quiz_sub_lesson none = err course_invalid_sub_lesson_kind
validate_quiz_sub_lesson (some quiz) = do
  guard (not (is_blank quiz.prompt)) course_invalid_sub_lesson_kind
  guard (not (is_empty quiz.options)) course_invalid_sub_lesson_kind
  correct ← count_options 0 quiz.options
  guard (not (correct == 0)) course_invalid_sub_lesson_kind
  guard (quiz.allow_multiple || leb correct 1) course_quiz_single_choice_multiple_correct

pub record SubLessonInput : Type 0 where
  pub kind : Text
  pub is_preview : Bool
  pub video : Option Text
  pub text : Option Text
  pub quiz : Option QuizContent

-- The switch on the kind.
unfoldable pub validate_by_kind :
    Environment → Text → SubLessonInput → Result CourseError (Unit {0})
unfolding validate_video_sub_lesson validate_text_sub_lesson validate_quiz_sub_lesson
validate_by_kind env kind input =
    if text_eq kind kind_video
    then validate_video_sub_lesson env input.video
    else if text_eq kind kind_text
    then validate_text_sub_lesson env input.text
    else if text_eq kind kind_quiz
    then validate_quiz_sub_lesson input.quiz
    else err course_invalid_sub_lesson_kind

unfoldable pub validate_sub_lesson_content :
    Environment → SubLessonInput → Result CourseError (Unit {0})
unfolding validate_by_kind
validate_sub_lesson_content env input = do
  let kind = env.to_upper (trim input.kind)
  guard (not (text_eq kind kind_quiz && input.is_preview)) course_preview_not_allowed_for_quiz
  validate_by_kind env kind input

abbrev pub max_estimated_duration_ms : ℤ
max_estimated_duration_ms = pos 3596400000

unfoldable pub normalize_sub_lesson_estimated_duration_ms :
    Environment → Text → ℤ → Result CourseError ℤ
normalize_sub_lesson_estimated_duration_ms env kind ms =
    if text_eq (env.to_upper (trim kind)) kind_video
    then ok (pos 0)
    else if ltz ms (pos 0) || ltz max_estimated_duration_ms ms
    then err course_invalid_sub_lesson_kind
    else ok ms
