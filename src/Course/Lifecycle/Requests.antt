-- ===== src/Course/Lifecycle/Requests.antt =====
-- internal/course/infra: the repository as a machine that takes one request after the other.
use be_mycourse.Shared.{Text, Result, ok, err, ◌>>=◌}
use be_mycourse.Course.Rows.{Tables, CourseError}
use be_mycourse.Course.Environment.{Environment}
use be_mycourse.Course.Drafts.{ensure_editable_draft}
use be_mycourse.Course.Learner.{enroll, SaveProgressInput, save_progress}
use be_mycourse.Course.Removal.{
  delete_course, trash_course, restore_course, permanent_delete_course, remove_collaborator,
}
use be_mycourse.Course.Lifecycle.{
  UpdateBasicInfoInput, create_course, prepare_draft, update_basic_info, submit_for_review,
  reopen_draft, approve_draft, reject_draft,
}

-- A request to the repository. An edit of the outline stands here for what it does before the
-- outline changes: it makes sure that there is a draft to edit.
pub data Request : Type 0 where
  creates : (id actor slug title : Text) → Request
  prepares : (course actor : Text) → Request
  updates : (course actor : Text) → UpdateBasicInfoInput → Request
  submits : (course actor : Text) → Request
  reopens : (course actor : Text) → Request
  approves : (course actor note : Text) → Request
  rejects : (course actor reason : Text) → Request
  deletes : (course actor : Text) → Request
  trashes : (course : Text) → Request
  restores : (course : Text) → Request
  deletes_for_good : (course : Text) → Request
  removes_collaborator : (course actor user : Text) → Request
  enrolls : (course user : Text) → Request
  saves_progress : (course user : Text) → SaveProgressInput → Request
  edits_outline : (course user : Text) → Request

unfoldable pub run : Environment → Tables → Request → Result CourseError Tables
unfolding ensure_editable_draft create_course prepare_draft update_basic_info submit_for_review
    reopen_draft approve_draft reject_draft delete_course trash_course restore_course
    permanent_delete_course remove_collaborator enroll save_progress
run env t (creates id actor slug title) = create_course env t id actor slug title
run env t (prepares course actor) = prepare_draft env t course actor
run env t (updates course actor input) = update_basic_info env t course actor input
run env t (submits course actor) = submit_for_review env t course actor
run env t (reopens course actor) = reopen_draft env t course actor
run env t (approves course actor note) = approve_draft env t course actor note
run env t (rejects course actor reason) = reject_draft env t course actor reason
run env t (deletes course actor) = delete_course env t course actor
run env t (trashes course) = trash_course env t course
run env t (restores course) = restore_course env t course
run env t (deletes_for_good course) = permanent_delete_course env t course
run env t (removes_collaborator course actor user) = remove_collaborator env t course actor user
run env t (enrolls course user) = enroll env t course user >>= (λ done. ok done.0)
run env t (edits_outline course user) =
    ensure_editable_draft env t course user >>= (λ done. ok done.0)
run env t (saves_progress course user input) = save_progress env t course user input

-- A transaction that fails is rolled back.
unfoldable pub commit : Tables → Result CourseError Tables → Tables
commit t (ok t') = t'
commit t (err e) = t
