-- ===== src/Course/Rows.antt =====
-- internal/course/infra/repos.go and internal/course/domain/{course,errors}.go: the rows of the
-- course tables, the tables, and the errors of the module. The detail rows of a sub-lesson (video,
-- text, quiz and its options) stand in its own row.
pub mod Lookup
use be_mycourse.Shared.{
  ℕ, Bool, true, false, Option, none, some, List, [], ◌∷◌, ◌++◌, Text, text_eq, contains, map,
  if◌then◌else◌, Result, ok, err,
}
use be_mycourse.Shared.Int.{ℤ}
use be_mycourse.Authorization.Store.{Store}
use be_mycourse.Authorization.Domain

pub data VersionStatus : Type 0 where
  draft in_review approved rejected : VersionStatus

pub record CourseRow : Type 0 where
  pub id : Text
  pub owner_user_id : Text
  pub slug : Text
  pub current_published_version_id : Option Text
  pub current_draft_version_id : Option Text
  pub created_at : ℤ
  pub updated_at : ℤ
  pub deleted_at : Option ℤ
  pub trashed_at : Option ℤ

pub record CourseVersionRow : Type 0 where
  pub id : Text
  pub course_id : Text
  pub version_no : ℕ
  pub status : VersionStatus
  pub based_on_version_id : Option Text
  pub title : Text
  pub short_description : Text
  pub about_course : Text
  pub thumbnail_file_id : Option Text
  pub preview_video_file_id : Option Text
  pub course_level_id : Option Text
  pub course_topic_id : Option Text
  pub row_version : ℕ
  pub submitted_by_user_id : Option Text
  pub submitted_at : Option ℤ
  pub approved_by_user_id : Option Text
  pub approved_at : Option ℤ
  pub rejected_by_user_id : Option Text
  pub rejected_at : Option ℤ
  pub rejection_reason : Text
  pub approval_note : Text
  pub created_at : ℤ
  pub updated_at : ℤ
  pub deleted_at : Option ℤ

-- A row of the tags, the skills or the outcomes of a version.
pub record VersionRefRow : Type 0 where
  pub course_version_id : Text
  pub ref_id : Text

pub record SectionRow : Type 0 where
  pub id : Text
  pub stable_id : Text
  pub course_version_id : Text
  pub title : Text
  pub description : Text
  pub order_index : ℤ
  pub row_version : ℕ
  pub created_at : ℤ
  pub updated_at : ℤ
  pub deleted_at : Option ℤ

pub record LessonRow : Type 0 where
  pub id : Text
  pub stable_id : Text
  pub course_version_id : Text
  pub section_id : Text
  pub title : Text
  pub summary : Text
  pub order_index : ℤ
  pub row_version : ℕ
  pub created_at : ℤ
  pub updated_at : ℤ
  pub deleted_at : Option ℤ

pub record QuizOption : Type 0 where
  pub id : Text
  pub option_key : Text
  pub body : Text
  pub is_correct : Bool
  pub order_index : ℤ

pub record QuizContent : Type 0 where
  pub prompt : Text
  pub allow_multiple : Bool
  pub options : List QuizOption

pub record SubLessonRow : Type 0 where
  pub id : Text
  pub stable_id : Text
  pub course_version_id : Text
  pub lesson_id : Text
  pub title : Text
  pub kind : Text
  pub is_preview : Bool
  pub order_index : ℤ
  pub estimated_duration_ms : ℤ
  pub row_version : ℕ
  pub created_at : ℤ
  pub updated_at : ℤ
  pub deleted_at : Option ℤ
  pub video : Option Text  -- the id of the media file
  pub text : Option Text  -- the content delta
  pub quiz : Option QuizContent

pub record EnrollmentRow : Type 0 where
  pub id : Text
  pub course_id : Text
  pub user_id : Text
  pub current_version_id : Text
  pub created_at : ℤ
  pub updated_at : ℤ
  pub deleted_at : Option ℤ

-- The score is the bits of its float64.
pub record ProgressRow : Type 0 where
  pub id : Text
  pub enrollment_id : Text
  pub stable_content_id : Text
  pub content_type : Text
  pub status : Text
  pub score : ℕ
  pub quiz_attempt : Text
  pub last_interacted_at : Option ℤ
  pub created_at : ℤ
  pub updated_at : ℤ
  pub deleted_at : Option ℤ

pub record Tables : Type 0 where
  pub courses : List CourseRow
  pub versions : List CourseVersionRow
  pub version_tags : List VersionRefRow
  pub version_skills : List VersionRefRow
  pub version_outcomes : List VersionRefRow
  pub sections : List SectionRow
  pub lessons : List LessonRow
  pub sub_lessons : List SubLessonRow
  pub enrollments : List EnrollmentRow
  pub progress : List ProgressRow
  pub authorization : Store

-- `duplicate_key` is the database's answer to a second row with the same primary key, and
-- `value_refused` that to a value that a column does not take.
pub data CourseError : Type 0 where
  course_not_found course_version_not_found course_draft_required : CourseError
  course_draft_in_review course_draft_rejected_only course_published_required : CourseError
  course_owner_only course_collaborator_access course_optimistic_lock : CourseError
  course_lease_held_by_other_user course_lease_token_invalid : CourseError
  course_invalid_sub_lesson_kind course_invalid_review_state course_invalid_ordering : CourseError
  course_owner_cannot_be_removed course_enrollment_not_found : CourseError
  course_preview_not_allowed_for_quiz : CourseError
  course_quiz_single_choice_multiple_correct course_submit_basic_info_incomplete : CourseError
  course_submit_outline_incomplete course_submit_invalid_sub_lesson : CourseError
  course_submit_collaborator_required course_collaborator_inactive : CourseError
  course_trashed course_not_trashed course_trash_not_eligible : CourseError
  not_found invalid_profile_media_file invalid_json duplicate_key value_refused : CourseError
  authorization_error : Domain.Error → CourseError

-- `WHERE … LIMIT 1`
unfoldable pub first_row : {A : Type 0} → (A → Bool) → List A → Option A
first_row p [] = none
first_row p (x ∷ xs) = if p x then some x else first_row p xs

-- `UPDATE … SET f WHERE p`
unfoldable pub update_where : {A : Type 0} → (A → Bool) → (A → A) → List A → List A
update_where p f [] = []
update_where p f (x ∷ xs) = (if p x then f x else x) ∷ update_where p f xs

-- `Create`: an INSERT, which the primary key refuses when the id is there.
unfoldable pub create : {A : Type 0} → (A → Text) → A → List A → Result CourseError (List A)
create id a rows = if contains (id a) (map id rows) then err duplicate_key else ok (rows ++ a ∷ [])

unfoldable pub create_all :
    {A : Type 0} → (A → Text) → List A → List A → Result CourseError (List A)
unfolding create
create_all id [] rows = ok rows
create_all id (a ∷ as') rows = elim (create id a rows) [
  | ok more ↦ create_all id as' more
  | err e ↦ err e
]

-- The row with the id, which is the primary key of its table.
unfoldable pub course_by_id : Text → List CourseRow → Option CourseRow
unfolding first_row
course_by_id id rows = first_row (λ c. text_eq c.id id) rows

unfoldable pub version_by_id : Text → List CourseVersionRow → Option CourseVersionRow
unfolding first_row
version_by_id id rows = first_row (λ v. text_eq v.id id) rows
