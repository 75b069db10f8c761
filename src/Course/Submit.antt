-- ===== src/Course/Submit.antt =====
-- internal/course/infra/repo_submit_validation.go: what a draft needs before it goes into review,
-- with the outline and the collaborators as repo_access.go and repo_collaborators.go load them.
pub mod Outline
pub mod Accepted
pub mod Staffed
pub mod Teachers
pub mod Filled
pub mod Items
use be_mycourse.Shared.{
  ℕ, Bool, true, false, ◌&&◌, ◌||◌, not, Option, none, some, List, [], ◌∷◌, ◌++◌, Text, codes,
  text_eq, trim, is_empty, contains, map, keep, length, count_non_whitespace, leb, ◌==◌,
  if◌then◌else◌, Result, ok, err, ◌>>=◌, ◌>>◌, guard,
}
use be_mycourse.Shared.Int.{ℤ, ltz, lez}
use be_mycourse.Authorization.Domain.{Resource, RoleBindingQuery, is_nil, nil_or_after}
use be_mycourse.Authorization.Store.{RoleBindingRow, lists_binding}
use be_mycourse.Course.{resource_type_course}
use be_mycourse.Course.Rows.{
  CourseRow, CourseVersionRow, VersionRefRow, SectionRow, LessonRow, SubLessonRow, Tables,
  CourseError, course_submit_basic_info_incomplete, course_submit_outline_incomplete,
  course_submit_invalid_sub_lesson, course_submit_collaborator_required,
  course_collaborator_inactive, not_found, invalid_profile_media_file, first_row, course_by_id,
}
use be_mycourse.Course.Environment.{Environment, UserSnapshot}
use be_mycourse.Course.Content.{
  is_blank, count_delta_non_whitespace, ExpectedKind, image, video, validate_media_file,
  validate_lookup_id, validate_lookup_ids, SubLessonInput, validate_sub_lesson_content, kind_video,
  kind_text, kind_quiz,
}
use be_mycourse.Course.Access.{course_resource}
use be_mycourse.Course.Drafts.{is_section_of, is_lesson_of, is_sub_lesson_of}

abbrev pub is_set : Option Text → Bool
is_set none = false
is_set (some id) = not (is_blank id)

unfoldable pub has_draft_basic_info_required_fields : Environment → CourseVersionRow → Bool
unfolding count_non_whitespace count_delta_non_whitespace
has_draft_basic_info_required_fields env v =
    leb 5 (count_non_whitespace v.title)
    && leb 20 (count_non_whitespace v.short_description)
    && leb 30 (count_delta_non_whitespace env v.about_course)
    && is_set v.thumbnail_file_id
    && is_set v.course_level_id
    && is_set v.course_topic_id

-- loadVersionRefIDs
unfoldable pub load_version_ref_ids : Text → List VersionRefRow → List Text
unfolding keep
load_version_ref_ids version rows =
    map (λ r. r.ref_id) (keep (λ r. text_eq r.course_version_id version) rows)

unfoldable pub validate_version_refs :
    Environment
    → CourseVersionRow
    → List Text
    → List Text
    → List Text
    → Result CourseError (Unit {0})
unfolding validate_media_file validate_lookup_id validate_lookup_ids
validate_version_refs env v tags skills outcomes = do
  validate_media_file env v.thumbnail_file_id image
  validate_media_file env v.preview_video_file_id video
  validate_lookup_id env.course_levels v.course_level_id
  validate_lookup_id env.course_topics v.course_topic_id
  validate_lookup_ids env.tags tags
  validate_lookup_ids env.course_skills skills
  validate_lookup_ids env.course_outcomes outcomes

-- `errors.Is` of the two sentinel errors.
abbrev pub as_incomplete : Result CourseError (Unit {0}) → Result CourseError (Unit {0})
as_incomplete (ok u) = ok u
as_incomplete (err CourseError.not_found) = err course_submit_basic_info_incomplete
as_incomplete (err CourseError.invalid_profile_media_file) = err course_submit_basic_info_incomplete
as_incomplete (err e) = err e

unfoldable pub validate_draft_basic_info :
    Environment → Tables → CourseVersionRow → Result CourseError (Unit {0})
unfolding has_draft_basic_info_required_fields load_version_ref_ids validate_version_refs
validate_draft_basic_info env t v = do
  guard (has_draft_basic_info_required_fields env v) course_submit_basic_info_incomplete
  let tags = load_version_ref_ids v.id t.version_tags
  let skills = load_version_ref_ids v.id t.version_skills
  let outcomes = load_version_ref_ids v.id t.version_outcomes
  guard (not (is_empty tags) && not (is_empty skills) && length outcomes == 1)
      course_submit_basic_info_incomplete
  as_incomplete (validate_version_refs env v tags skills outcomes)

pub record Lesson : Type 0 where
  pub row : LessonRow
  pub sub_lessons : List SubLessonRow

pub record Section : Type 0 where
  pub row : SectionRow
  pub lessons : List Lesson

-- assembleOutlineSections: the rows of the version under their parents. The order_index only
-- orders siblings, which the checks do not show.
unfoldable pub load_outline : Tables → Text → List Section
unfolding keep
load_outline t version = map section (keep (is_section_of version) t.sections)
  where
    lesson : LessonRow → Lesson
    lesson l = record {
      row = l;
      sub_lessons =
          keep (λ s. text_eq s.lesson_id l.id) (keep (is_sub_lesson_of version) t.sub_lessons);
    }

    section : SectionRow → Section
    section s = record {
      row = s;
      lessons =
          map lesson
            (keep (λ l. text_eq l.section_id s.id) (keep (is_lesson_of version) t.lessons));
    }

-- batchHydrateSubLessons: of the detail rows only those of the kind are read.
abbrev pub hydrate : SubLessonRow → SubLessonInput
hydrate s = record {
  kind = s.kind;
  is_preview = s.is_preview;
  video = if text_eq s.kind kind_video then s.video else none;
  text = if text_eq s.kind kind_text then s.text else none;
  quiz = if text_eq s.kind kind_quiz then s.quiz else none;
}

module _ (validate_sub_lesson : SubLessonRow → Result CourseError (Unit {0})) where
  unfoldable pub check_sub_lessons : List SubLessonRow → Result CourseError (Unit {0})
  check_sub_lessons [] = ok tt
  check_sub_lessons (s ∷ ss) = elim (validate_sub_lesson s) [
    | ok u ↦ check_sub_lessons ss
    | err e ↦ err course_submit_invalid_sub_lesson
  ]

  unfoldable pub check_lessons : List Lesson → Result CourseError (Unit {0})
  unfolding check_sub_lessons
  check_lessons [] = ok tt
  check_lessons (l ∷ ls) =
      guard (not (is_empty l.sub_lessons)) course_submit_outline_incomplete
      >> (check_sub_lessons l.sub_lessons >> check_lessons ls)

  unfoldable pub check_sections : List Section → Result CourseError (Unit {0})
  unfolding check_lessons
  check_sections [] = ok tt
  check_sections (s ∷ ss) =
      guard (not (is_empty s.lessons)) course_submit_outline_incomplete
      >> (check_lessons s.lessons >> check_sections ss)

  unfoldable pub validate_outline_for_submit : List Section → Result CourseError (Unit {0})
  unfolding check_sections
  validate_outline_for_submit outline =
      guard (not (is_empty outline)) course_submit_outline_incomplete >> check_sections outline

unfoldable pub validate_draft_outline : Environment → Tables → Text → Result CourseError (Unit {0})
unfolding load_outline validate_outline_for_submit validate_sub_lesson_content
validate_draft_outline env t version =
    validate_outline_for_submit (λ s. validate_sub_lesson_content env (hydrate s))
      (load_outline t version)

-- useraccess.CheckAccessible
unfoldable pub is_accessible : UserSnapshot → ℤ → Bool
is_accessible u now = is_nil u.deleted_at && not u.is_disabled && not_banned u.banned_until
  where
    not_banned : Option ℤ → Bool
    not_banned none = true
    not_banned (some until) = not (ltz now until)

-- The SQL of loadCollaboratorProfiles keeps the users that are not deleted, disabled or banned.
abbrev pub nil_or_by : Option ℤ → ℤ → Bool
nil_or_by none now = true
nil_or_by (some until) now = lez until now

abbrev pub has_profile : Environment → Text → Bool
has_profile env user = elim (env.users user) [
  | none ↦ false
  | some u ↦ is_nil u.deleted_at && not u.is_disabled && nil_or_by u.banned_until env.now
]

-- The owner, and the principals of the active bindings; the sort is left out, since no check shows
-- the order.
unfoldable pub load_collaborators : Environment → Tables → CourseRow → List Text
unfolding lists_binding keep
load_collaborators env t course = keep (has_profile env) (
    course.owner_user_id
    ∷ map (λ b. b.principal_user_id)
        (keep
          (lists_binding (record {
            principal_user_ids = [];
            role_name = [];
            resource = course_resource course.id;
          }))
          t.authorization.role_bindings))

unfoldable pub check_collaborators : Environment → List Text → Result CourseError (Unit {0})
unfolding is_accessible
check_collaborators env [] = ok tt
check_collaborators env (user ∷ users) = elim (env.users user) [
  | none ↦ err course_collaborator_inactive
  | some u ↦
      guard (is_accessible u env.now && env.is_instructor user) course_collaborator_inactive
      >> check_collaborators env users
]

unfoldable pub validate_draft_collaborators :
    Environment → Tables → CourseRow → Result CourseError (Unit {0})
unfolding load_collaborators check_collaborators
validate_draft_collaborators env t course = do
  let users = load_collaborators env t course
  guard (not (is_empty users)) course_submit_collaborator_required
  check_collaborators env users

unfoldable pub validate_draft_for_review :
    Environment → Tables → CourseRow → CourseVersionRow → Result CourseError (Unit {0})
unfolding validate_draft_basic_info validate_draft_outline validate_draft_collaborators
validate_draft_for_review env t course version = do
  validate_draft_basic_info env t version
  validate_draft_outline env t version.id
  validate_draft_collaborators env t course
