-- ===== src/Course/Lifecycle/Steps.antt =====
-- internal/course/infra: one request on well-formed tables, and the tables that requests reach.
use be_mycourse.Shared.{List, [], ◌≡◌, subst, inl, inr, [], ok, >>=-ok, ok-injective, Result-cases}
use be_mycourse.Authorization.Store.{Store}
use be_mycourse.Course.Rows.{SectionRow, LessonRow, SubLessonRow, Tables}
use be_mycourse.Course.Environment.{Environment}
use be_mycourse.Course.Drafts.{ensure_editable_draft}
use be_mycourse.Course.Learner.{enroll}
use be_mycourse.Course.Lifecycle.Requests.{
  Request, creates, prepares, updates, submits, reopens, approves, rejects, deletes, trashes,
  restores, deletes_for_good, removes_collaborator, enrolls, saves_progress, edits_outline, run,
  commit,
}
use be_mycourse.Course.Lifecycle.WellFormed.{IsWellFormed, IsSoundStep}
use be_mycourse.Course.Lifecycle.Kept.{Grows-refl}
use be_mycourse.Course.Lifecycle.Editing.{
  ensure_editable_draft-IsSoundStep, prepare_draft-IsSoundStep, update_basic_info-IsSoundStep,
}
use be_mycourse.Course.Lifecycle.Creating.{create_course-IsSoundStep}
use be_mycourse.Course.Lifecycle.Reviews.{
  submit_for_review-IsSoundStep, reopen_draft-fails, approve_draft-IsSoundStep,
  reject_draft-IsSoundStep,
}
use be_mycourse.Course.Lifecycle.Others.{
  trash_course-IsSoundStep, restore_course-IsSoundStep, permanent_delete_course-IsSoundStep,
  delete_course-IsSoundStep, remove_collaborator-IsSoundStep, enroll-IsSoundStep,
  save_progress-IsSoundStep,
}

pub run-IsSoundStep :
    (env : Environment) (t : Tables) (r : Request) {t' : Tables}
    → IsWellFormed t
    → run env t r ≡ ok t'
    → IsSoundStep t t'
unfolding run
run-IsSoundStep env t (creates id actor slug title) h e =
    create_course-IsSoundStep env t id actor slug title h e
run-IsSoundStep env t (prepares id actor) h e = prepare_draft-IsSoundStep env t id actor h e
run-IsSoundStep env t (updates id actor input) h e =
    update_basic_info-IsSoundStep env t id actor input h e
run-IsSoundStep env t (submits id actor) h e = submit_for_review-IsSoundStep env t id actor h e
run-IsSoundStep env t (reopens id actor) {t'} h e =
    absurd (reopen_draft-fails env t id actor h t' e)
run-IsSoundStep env t (approves id actor note) h e =
    approve_draft-IsSoundStep env t id actor h note e
run-IsSoundStep env t (rejects id actor reason) h e =
    reject_draft-IsSoundStep env t id actor h reason e
run-IsSoundStep env t (deletes id actor) h e = delete_course-IsSoundStep env t h id actor e
run-IsSoundStep env t (trashes id) h e = trash_course-IsSoundStep env t h id e
run-IsSoundStep env t (restores id) h e = restore_course-IsSoundStep env t h id e
run-IsSoundStep env t (deletes_for_good id) h e = permanent_delete_course-IsSoundStep env t h id e
run-IsSoundStep env t (removes_collaborator id actor user) h e =
    remove_collaborator-IsSoundStep env t h id actor user e
run-IsSoundStep env t (enrolls id user) h e =
    let (d, made, last) = >>=-ok (enroll env t id user) _ e in
    subst (IsSoundStep t) (ok-injective last) (enroll-IsSoundStep env t h id user made)
run-IsSoundStep env t (edits_outline id user) h e =
    let (d, made, last) = >>=-ok (ensure_editable_draft env t id user) _ e in
    subst (IsSoundStep t) (ok-injective last)
      (ensure_editable_draft-IsSoundStep env t id user h made)
run-IsSoundStep env t (saves_progress id user input) h e =
    save_progress-IsSoundStep env t h id user input e

pub commit-IsSoundStep :
    (env : Environment) (t : Tables) (r : Request)
    → IsWellFormed t
    → IsSoundStep t (commit t (run env t r))
unfolding commit
commit-IsSoundStep env t r h = elim (Result-cases (run env t r)) [
  | inl (t', e) ↦ rw (e) (run-IsSoundStep env t r h e)
  | inr (x, e) ↦ rw (e) (record { well_formed = h; grows = Grows-refl t.versions })
]

-- No rows, with whatever the authorization tables hold.
abbrev pub empty_tables : Store → Tables
empty_tables s = record {
  courses = [];
  versions = [];
  version_tags = [];
  version_skills = [];
  version_outcomes = [];
  sections = [];
  lessons = [];
  sub_lessons = [];
  enrollments = [];
  progress = [];
  authorization = s;
}

-- Other tables than those of courses, versions and enrollments.
abbrev pub beside : Store → List SectionRow → List LessonRow → List SubLessonRow → Tables → Tables
beside s sections lessons sub_lessons t = record t {
  authorization = s;
  sections = sections;
  lessons = lessons;
  sub_lessons = sub_lessons;
}

-- What requests, each in its own environment, reach. Between two requests the authorization tables
-- and the outlines may change in any way.
pub data IsReachable : Tables → Type 0 where
  start : (s : Store) → IsReachable (empty_tables s)
  request :
      (env : Environment) (r : Request) {t : Tables}
      → IsReachable t
      → IsReachable (commit t (run env t r))
  elsewhere :
      (s : Store) (sections : List SectionRow) (lessons : List LessonRow)
      (sub_lessons : List SubLessonRow) {t : Tables}
      → IsReachable t
      → IsReachable (beside s sections lessons sub_lessons t)

-- In reachable tables every draft is a version of its course under way, every published version an
-- approved one of its course, a learner has an approved version of the course, no two versions
-- of a course have the same number, and each version is that of a course that is there.
pub IsReachable-IsWellFormed : (t : Tables) → IsReachable t → IsWellFormed t
IsReachable-IsWellFormed t r = reached r
  where
    reached : {t : Tables} → IsReachable t → IsWellFormed t
    reached (start s) = record {
      courses_sound = tt;
      enrollments_sound = tt;
      numbered = tt;
      owned = tt;
    }
    reached (request env r before) = (commit-IsSoundStep env _ r (reached before)).well_formed
    reached (elsewhere s sections lessons sub_lessons before) =
        let h = reached before in
        record {
          courses_sound = h.courses_sound;
          enrollments_sound = h.enrollments_sound;
          numbered = h.numbered;
          owned = h.owned;
        }
