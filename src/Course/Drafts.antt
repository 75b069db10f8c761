-- ===== src/Course/Drafts.antt =====
-- internal/course/infra/repo_versioning.go and repo_access.go: how a draft version comes into being,
-- with the copies of the references and of the outline that it starts from.
use be_mycourse.Shared.{
  ℕ, ◌+◌, Bool, ◌&&◌, Option, none, some, List, [], ◌∷◌, ◌++◌, Text, codes, text_eq, map, keep, leb,
  if◌then◌else◌, Result, ok, err, ◌>>=◌, ◌>>◌,
}
use be_mycourse.Shared.Map.{lookup}
use be_mycourse.Authorization.Domain.{is_nil}
use be_mycourse.Course.Rows.{
  VersionStatus, CourseRow, CourseVersionRow, VersionRefRow, SectionRow, LessonRow, SubLessonRow,
  QuizOption, QuizContent, Tables, CourseError, course_draft_in_review, course_draft_rejected_only,
  create, create_all, update_where,
}
use be_mycourse.Course.Environment.{Environment}
use be_mycourse.Course.Access.{CourseAccess, load_version_row, require_editor_access}

abbrev pub max : ℕ → ℕ → ℕ
max a b = if leb a b then b else a

-- COALESCE(MAX(version_no), 0) over all the versions of the course, deleted ones too.
unfoldable pub max_version : Text → List CourseVersionRow → ℕ
max_version course_id [] = 0
max_version course_id (v ∷ vs) =
    let rest = max_version course_id vs in
    if text_eq v.course_id course_id then max v.version_no rest else rest

unfoldable pub clone_refs : Text → Text → List VersionRefRow → List VersionRefRow
unfolding keep
clone_refs from to rows =
    rows
    ++ map (λ (r : VersionRefRow). record r { course_version_id = to })
        (keep (λ r. text_eq r.course_version_id from) rows)

-- `m[k]` of a map of strings: the empty string for a missing key.
abbrev mapped : List (Text × Text) → Text → Text
mapped m k = elim (lookup k m) [ none ↦ [] | some v ↦ v ]

abbrev pub is_section_of : Text → SectionRow → Bool
is_section_of version s = text_eq s.course_version_id version && is_nil s.deleted_at

abbrev pub is_lesson_of : Text → LessonRow → Bool
is_lesson_of version l = text_eq l.course_version_id version && is_nil l.deleted_at

abbrev pub is_sub_lesson_of : Text → SubLessonRow → Bool
is_sub_lesson_of version s = text_eq s.course_version_id version && is_nil s.deleted_at

module _ (env : Environment) (to : Text) where
  clone_section : SectionRow → SectionRow
  clone_section s = record s {
    id = env.copy_id s.id;
    course_version_id = to;
    row_version = 1;
    created_at = env.now;
    updated_at = env.now;
  }

  clone_lesson : List (Text × Text) → LessonRow → LessonRow
  unfolding lookup
  clone_lesson section_map l = record l {
    id = env.copy_id l.id;
    course_version_id = to;
    section_id = mapped section_map l.section_id;
    row_version = 1;
    created_at = env.now;
    updated_at = env.now;
  }

  abbrev clone_option : QuizOption → QuizOption
  clone_option o = record o { id = env.copy_id o.id }

  abbrev clone_quiz : Option QuizContent → Option QuizContent
  clone_quiz none = none
  clone_quiz (some q) = some (record q { options = map clone_option q.options })

  clone_sub_lesson : List (Text × Text) → SubLessonRow → SubLessonRow
  unfolding lookup
  clone_sub_lesson lesson_map s = record s {
    id = env.copy_id s.id;
    course_version_id = to;
    lesson_id = mapped lesson_map s.lesson_id;
    row_version = 1;
    created_at = env.now;
    updated_at = env.now;
    quiz = clone_quiz s.quiz;
  }

-- sectionMap and lessonMap: from the copied rows to their copies.
abbrev section_map : Environment → Text → Tables → List (Text × Text)
section_map env from t =
    map (λ (s : SectionRow). (s.id, env.copy_id s.id)) (keep (is_section_of from) t.sections)

abbrev lesson_map : Environment → Text → Tables → List (Text × Text)
lesson_map env from t =
    map (λ (l : LessonRow). (l.id, env.copy_id l.id)) (keep (is_lesson_of from) t.lessons)

-- The order in which the copies are inserted does not show: every reader sorts by order_index.
unfoldable pub clone_section_rows :
    Environment → Text → Text → Tables → Result CourseError (List SectionRow)
unfolding clone_section create_all keep
clone_section_rows env from to t =
    create_all (λ s. s.id) (map (clone_section env to) (keep (is_section_of from) t.sections))
      t.sections

unfoldable pub clone_lesson_rows :
    Environment → Text → Text → Tables → Result CourseError (List LessonRow)
unfolding clone_lesson create_all keep
clone_lesson_rows env from to t =
    create_all (λ l. l.id)
      (map (clone_lesson env to (section_map env from t)) (keep (is_lesson_of from) t.lessons))
      t.lessons

unfoldable pub clone_sub_lesson_rows :
    Environment → Text → Text → Tables → Result CourseError (List SubLessonRow)
unfolding clone_sub_lesson create_all keep
clone_sub_lesson_rows env from to t =
    create_all (λ s. s.id)
      (map (clone_sub_lesson env to (lesson_map env from t))
        (keep (is_sub_lesson_of from) t.sub_lessons))
      t.sub_lessons

unfoldable pub clone_outline : Environment → Text → Text → Tables → Result CourseError Tables
unfolding clone_section_rows clone_lesson_rows clone_sub_lesson_rows
clone_outline env from to t = do
  sections ← clone_section_rows env from to t
  lessons ← clone_lesson_rows env from to t
  sub_lessons ← clone_sub_lesson_rows env from to t
  ok (record t { sections = sections; lessons = lessons; sub_lessons = sub_lessons })

-- An empty draft with the next number.
abbrev pub new_version : Environment → Text → ℕ → CourseVersionRow
new_version env course_id version_no = record {
  id = env.new_id;
  course_id = course_id;
  version_no = version_no;
  status = VersionStatus.draft;
  based_on_version_id = none;
  title = [];
  short_description = [];
  about_course = [];
  thumbnail_file_id = none;
  preview_video_file_id = none;
  course_level_id = none;
  course_topic_id = none;
  row_version = 1;
  submitted_by_user_id = none;
  submitted_at = none;
  approved_by_user_id = none;
  approved_at = none;
  rejected_by_user_id = none;
  rejected_at = none;
  rejection_reason = [];
  approval_note = [];
  created_at = env.now;
  updated_at = env.now;
  deleted_at = none;
}

abbrev pub based_on : CourseVersionRow → CourseVersionRow → CourseVersionRow
based_on source draft = record draft {
  based_on_version_id = some source.id;
  title = source.title;
  short_description = source.short_description;
  about_course = source.about_course;
  thumbnail_file_id = source.thumbnail_file_id;
  preview_video_file_id = source.preview_video_file_id;
  course_level_id = source.course_level_id;
  course_topic_id = source.course_topic_id;
}

abbrev clone_version_refs : Text → Text → Tables → Tables
clone_version_refs from to t = record t {
  version_tags = clone_refs from to t.version_tags;
  version_skills = clone_refs from to t.version_skills;
  version_outcomes = clone_refs from to t.version_outcomes;
}

-- The id of the new draft is `env.new_id`.
unfoldable pub create_next_draft_version :
    Environment → Tables → Text → Option Text → Result CourseError Tables
unfolding max_version create
create_next_draft_version env t course_id none = do
  let draft = new_version env course_id (max_version course_id t.versions + 1)
  versions ← create (λ v. v.id) draft t.versions
  ok (record t { versions = versions })
create_next_draft_version env t course_id (some from) = do
  source ← load_version_row t from
  let draft = based_on source (new_version env course_id (max_version course_id t.versions + 1))
  versions ← create (λ v. v.id) draft t.versions
  clone_outline env from env.new_id
      (clone_version_refs from env.new_id (record t { versions = versions }))

abbrev pub point_to_draft : Environment → Text → Tables → Tables
point_to_draft env course_id t = record t {
  courses =
      update_where (λ c. text_eq c.id course_id)
        (λ c. record c { current_draft_version_id = some env.new_id; updated_at = env.now })
        t.courses;
}

-- What createDraftVersion and the write of the pointer after it leave.
unfoldable pub start_draft :
    Environment → Tables → CourseRow → Option Text → Result CourseError Tables
unfolding create_next_draft_version update_where
start_draft env t course from = do
  created ← create_next_draft_version env t course.id from
  ok (point_to_draft env course.id created)

abbrev pub editable : VersionStatus → Result CourseError (Unit {0})
editable VersionStatus.in_review = err course_draft_in_review
editable VersionStatus.rejected = err course_draft_rejected_only
editable VersionStatus.draft = ok tt
editable VersionStatus.approved = ok tt

-- The draft of the course, made from the published version where there is none.
unfoldable pub with_draft :
    Environment → Tables → CourseRow → Option Text → Result CourseError (Tables × Text)
unfolding start_draft
with_draft env t course (some draft) = ok (t, draft)
with_draft env t course none = do
  created ← start_draft env t course course.current_published_version_id
  ok (created, env.new_id)

-- The tables with the draft, the access and the draft's row.
unfoldable pub ensure_editable_draft :
    Environment
    → Tables
    → Text
    → Text
    → Result CourseError (Tables × CourseAccess × CourseVersionRow)
unfolding with_draft
ensure_editable_draft env t course_id user_id = do
  access ← require_editor_access env t course_id user_id (codes "course_draft:edit")
  (drafted, draft) ← with_draft env t access.course access.course.current_draft_version_id
  version ← load_version_row drafted draft
  editable version.status
  ok (drafted, access, version)
