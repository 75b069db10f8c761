-- ===== src/Course/Lifecycle.antt =====
-- internal/course/infra/repo_instructor.go and repo_review.go: a course from its creation over the
-- drafts, reviews and publications to the trash, as operations on the tables. An operation is one
-- transaction: an error leaves the tables as they were. The detail that is read after it is left
-- out, and a slug comes in resolved.
pub mod Requests
pub mod States
pub mod Kept
pub mod WellFormed
pub mod Inversion
pub mod Drafting
pub mod Frames
pub mod Edge
pub mod Reviews
pub mod Editing
pub mod Creating
pub mod Others
pub mod Steps
pub mod History
pub mod Outcomes
use be_mycourse.Shared.{
  ℕ, zero, suc, ◌+◌, Bool, true, false, ◌&&◌, not, Option, none, some, List, [], ◌∷◌, ◌++◌, Text,
  codes, text_eq, trim, is_empty, map, keep, any, ◌==◌, if◌then◌else◌, Result, ok, err, ◌>>=◌, ◌>>◌,
  guard,
}
use be_mycourse.Authorization.Domain.{is_nil}
use be_mycourse.Course.Rows.{
  VersionStatus, CourseRow, CourseVersionRow, VersionRefRow, EnrollmentRow, Tables, CourseError,
  course_optimistic_lock, course_draft_rejected_only, course_invalid_review_state, duplicate_key,
  create, update_where,
}
use be_mycourse.Course.Environment.{Environment}
use be_mycourse.Course.Content.{is_blank}
use be_mycourse.Course.Access.{require_owner_access, require_draft_version}
use be_mycourse.Course.Drafts.{
  new_version, create_next_draft_version, start_draft, with_draft, point_to_draft,
  ensure_editable_draft,
}
use be_mycourse.Course.Submit.{validate_version_refs, validate_draft_for_review}
use be_mycourse.Course.Removal.{
  delete_course, trash_course, restore_course, permanent_delete_course, remove_collaborator,
}
use be_mycourse.Course.Learner.{enroll, SaveProgressInput, save_progress}

abbrev pub new_course : Environment → Text → Text → Text → CourseRow
new_course env id owner slug = record {
  id = id;
  owner_user_id = owner;
  slug = slug;
  current_published_version_id = none;
  current_draft_version_id = none;
  created_at = env.now;
  updated_at = env.now;
  deleted_at = none;
  trashed_at = none;
}

-- The unique index on the slugs of the courses that are not deleted.
abbrev pub slug_taken : Text → List CourseRow → Bool
slug_taken slug courses = any (λ c. is_nil c.deleted_at && text_eq c.slug slug) courses

-- One attempt of CreateCourse with a resolved slug; `id` is the new course's.
unfoldable pub create_course :
    Environment → Tables → Text → Text → Text → Text → Result CourseError Tables
unfolding any create update_where trim
create_course env t id actor slug title = do
  guard (not (slug_taken slug t.courses)) duplicate_key
  courses ← create (λ c. c.id) (new_course env id actor slug) t.courses
  versions ← create (λ v. v.id) (record (new_version env id 1) { title = trim title }) t.versions
  ok (point_to_draft env id (record t { courses = courses; versions = versions }))

unfoldable pub prepare_draft : Environment → Tables → Text → Text → Result CourseError Tables
unfolding require_owner_access with_draft
prepare_draft env t course_id actor = do
  access ← require_owner_access env t course_id actor (codes "course_draft:prepare")
  (drafted, draft) ← with_draft env t access.course access.course.current_draft_version_id
  ok drafted

-- `none` is a field that the request leaves out; `slug` is the resolved one, `none` when it stays.
pub record UpdateBasicInfoInput : Type 0 where
  pub expected_row_version : ℕ
  pub title : Option Text
  pub short_description : Option Text
  pub about_course : Option Text
  pub thumbnail_file_id : Option Text
  pub preview_video_file_id : Option Text
  pub course_level_id : Option Text
  pub course_topic_id : Option Text
  pub tag_ids : List Text
  pub skill_ids : List Text
  pub outcome_ids : List Text
  pub slug : Option Text

abbrev trimmed_or : Option Text → Text → Text
trimmed_or none old = old
trimmed_or (some t) old = trim t

-- utils.NilIfBlank of a field that is given.
abbrev nil_if_blank_or : Option Text → Option Text → Option Text
nil_if_blank_or none old = old
nil_if_blank_or (some t) old = if is_blank t then none else some (trim t)

unfoldable pub build_basic_info_updates :
    Environment → UpdateBasicInfoInput → CourseVersionRow → CourseVersionRow
build_basic_info_updates env input v = record v {
  title = trimmed_or input.title v.title;
  short_description = trimmed_or input.short_description v.short_description;
  about_course = trimmed_or input.about_course v.about_course;
  thumbnail_file_id = nil_if_blank_or input.thumbnail_file_id v.thumbnail_file_id;
  preview_video_file_id = nil_if_blank_or input.preview_video_file_id v.preview_video_file_id;
  course_level_id = nil_if_blank_or input.course_level_id v.course_level_id;
  course_topic_id = nil_if_blank_or input.course_topic_id v.course_topic_id;
  row_version = v.row_version + 1;
  updated_at = env.now;
}

-- replaceVersionRefs, for one of the three tables.
unfoldable pub replace_refs : Text → List Text → List VersionRefRow → List VersionRefRow
unfolding keep
replace_refs version ids rows =
    keep (λ r. not (text_eq r.course_version_id version)) rows
    ++ map (λ id. record { course_version_id = version; ref_id = id }) ids

abbrev pub set_slug : Environment → Text → Option Text → List CourseRow → List CourseRow
set_slug env id none courses = courses
set_slug env id (some slug) courses =
    update_where (λ c. text_eq c.id id && is_nil c.deleted_at)
      (λ c. record c { slug = slug; updated_at = env.now }) courses

-- The fields of the input, where validateVersionRefs looks for them.
abbrev pub given : UpdateBasicInfoInput → CourseVersionRow → CourseVersionRow
given input v = record v {
  thumbnail_file_id = input.thumbnail_file_id;
  preview_video_file_id = input.preview_video_file_id;
  course_level_id = input.course_level_id;
  course_topic_id = input.course_topic_id;
}

abbrev pub with_basic_info :
    Environment → UpdateBasicInfoInput → Text → CourseVersionRow → Tables → Tables
with_basic_info env input course_id v t = record t {
  versions =
      update_where
        (λ w.
          text_eq w.id v.id && w.row_version == input.expected_row_version && is_nil w.deleted_at)
        (build_basic_info_updates env input) t.versions;
  version_tags = replace_refs v.id input.tag_ids t.version_tags;
  version_skills = replace_refs v.id input.skill_ids t.version_skills;
  version_outcomes = replace_refs v.id input.outcome_ids t.version_outcomes;
  courses = set_slug env course_id input.slug t.courses;
}

unfoldable pub update_basic_info :
    Environment → Tables → Text → Text → UpdateBasicInfoInput → Result CourseError Tables
unfolding ensure_editable_draft validate_version_refs build_basic_info_updates replace_refs
    update_where
update_basic_info env t course_id actor input = do
  (drafted, access, version) ← ensure_editable_draft env t course_id actor
  guard (version.row_version == input.expected_row_version) course_optimistic_lock
  validate_version_refs env (given input version) input.tag_ids input.skill_ids input.outcome_ids
  ok (with_basic_info env input access.course.id version drafted)

-- `UPDATE course_versions … WHERE id = ?`
abbrev pub set_version : Text → (CourseVersionRow → CourseVersionRow) → Tables → Tables
set_version id f t = record t { versions = update_where (λ v. text_eq v.id id) f t.versions }

abbrev pub in_status : VersionStatus → VersionStatus → CourseError → Result CourseError (Unit {0})
in_status VersionStatus.draft VersionStatus.draft e = ok tt
in_status VersionStatus.in_review VersionStatus.in_review e = ok tt
in_status VersionStatus.approved VersionStatus.approved e = ok tt
in_status VersionStatus.rejected VersionStatus.rejected e = ok tt
in_status _ _ e = err e

abbrev pub mark_submitted : Environment → Text → CourseVersionRow → CourseVersionRow
mark_submitted env actor v = record v {
  status = VersionStatus.in_review;
  rejection_reason = [];
  submitted_by_user_id = some actor;
  submitted_at = some env.now;
  updated_at = env.now;
}

-- updateDraftStatus from DRAFT to IN_REVIEW.
unfoldable pub submit_for_review : Environment → Tables → Text → Text → Result CourseError Tables
unfolding require_owner_access require_draft_version validate_draft_for_review update_where
submit_for_review env t course_id actor = do
  _ ← require_owner_access env t course_id actor (codes "course_review:manage")
  (course, version) ← require_draft_version t course_id
  in_status VersionStatus.draft version.status course_invalid_review_state
  validate_draft_for_review env t course version
  ok (set_version version.id (mark_submitted env actor) t)

unfoldable pub reopen_draft : Environment → Tables → Text → Text → Result CourseError Tables
unfolding require_owner_access require_draft_version start_draft
reopen_draft env t course_id actor = do
  _ ← require_owner_access env t course_id actor (codes "course_review:manage")
  (course, version) ← require_draft_version t course_id
  in_status VersionStatus.rejected version.status course_draft_rejected_only
  start_draft env t course (some version.id)

abbrev pub mark_approved : Environment → Text → Text → CourseVersionRow → CourseVersionRow
mark_approved env actor note v = record v {
  status = VersionStatus.approved;
  approved_by_user_id = some actor;
  approved_at = some env.now;
  approval_note = trim note;
  updated_at = env.now;
}

abbrev pub publish : Environment → Text → CourseRow → CourseRow
publish env version c = record c {
  current_published_version_id = some version;
  current_draft_version_id = none;
  updated_at = env.now;
}

abbrev pub move_enrollment : Environment → Text → EnrollmentRow → EnrollmentRow
move_enrollment env version e = record e { current_version_id = version; updated_at = env.now }

unfoldable pub approve_draft : Environment → Tables → Text → Text → Text → Result CourseError Tables
unfolding require_draft_version update_where
approve_draft env t course_id actor note = do
  (course, version) ← require_draft_version t course_id
  in_status VersionStatus.in_review version.status course_invalid_review_state
  ok (record t {
    versions =
        update_where (λ v. text_eq v.id version.id) (mark_approved env actor note) t.versions;
    courses = update_where (λ c. text_eq c.id course.id) (publish env version.id) t.courses;
    enrollments =
        update_where (λ e. text_eq e.course_id course.id && is_nil e.deleted_at)
          (move_enrollment env version.id) t.enrollments;
  })

abbrev pub mark_rejected : Environment → Text → Text → CourseVersionRow → CourseVersionRow
mark_rejected env actor reason v = record v {
  status = VersionStatus.rejected;
  rejected_by_user_id = some actor;
  rejected_at = some env.now;
  rejection_reason = trim reason;
  updated_at = env.now;
}

unfoldable pub reject_draft : Environment → Tables → Text → Text → Text → Result CourseError Tables
unfolding require_draft_version update_where start_draft
reject_draft env t course_id actor reason = do
  (course, version) ← require_draft_version t course_id
  in_status VersionStatus.in_review version.status course_invalid_review_state
  start_draft env (set_version version.id (mark_rejected env actor reason) t) course
      (some version.id)
