-- ===== src/Course/Lifecycle/History.antt =====
-- What becomes of a version over many requests.
use be_mycourse.Shared.{
  List, ◌≡◌, refl, sym, subst, ◌∙◌, ◌⊎◌, inl, inr, some, Text, Result, ok, err,
}
use be_mycourse.Authorization.Store.{Store}
use be_mycourse.Course.Rows.{
  SectionRow, LessonRow, SubLessonRow, VersionStatus, CourseVersionRow, CourseError, Tables,
  version_by_id,
}
use be_mycourse.Course.Environment.{Environment}
use be_mycourse.Course.Lifecycle.Requests.{Request, run, commit}
use be_mycourse.Course.Lifecycle.{reopen_draft}
use be_mycourse.Course.Lifecycle.States.{
  ◌⟶◌, submit, approve, reject, IsDecided, was_approved, was_rejected, lasting, IsLater,
}
use be_mycourse.Course.Lifecycle.Steps.{
  IsReachable, request, elsewhere, beside, commit-IsSoundStep, IsReachable-IsWellFormed,
}
use be_mycourse.Course.Lifecycle.Reviews.{reopen_draft-fails}

-- `w` is what a request made of the version `v`.
pub record Follows (v w : CourseVersionRow) : Type 0 where
  pub same_course : w.course_id ≡ v.course_id
  pub same_number : w.version_no ≡ v.version_no
  pub moves : (w.status ≡ v.status) ⊎ (v.status ⟶ w.status)

-- In reachable tables, a request keeps every version, under its id, course and number, and its
-- state stays or goes from DRAFT to IN_REVIEW, or from there to APPROVED or REJECTED.
pub request-Follows :
    (env : Environment) (r : Request) (t : Tables) (id : Text) (v : CourseVersionRow)
    → IsReachable t
    → version_by_id id t.versions ≡ some v
    → (w : CourseVersionRow) × (version_by_id id (commit t (run env t r)).versions ≡ some w)
      × Follows v w
request-Follows env r t id v reachable found =
    let (w, there, later) =
      (commit-IsSoundStep env t r (IsReachable-IsWellFormed t reachable)).grows id v found in
    (
      w,
      there,
      record {
        same_course = later.same_course;
        same_number = later.same_number;
        moves = later.moves;
      },
    )

-- Requests, and changes of the authorization tables and of outlines, lead from the one tables to the other.
infix 40 ◌⟶*◌
pub data ◌⟶*◌ : Tables → Tables → Type 0 where
  here : {t : Tables} → t ⟶* t
  request_after :
      (env : Environment) (r : Request) {t u : Tables} → t ⟶* u → t ⟶* commit u (run env u r)
  elsewhere_after :
      (s : Store) (sections : List SectionRow) (lessons : List LessonRow)
      (sub_lessons : List SubLessonRow) {t u : Tables}
      → t ⟶* u
      → t ⟶* beside s sections lessons sub_lessons u

pub IsReachable-⟶* : {t u : Tables} → IsReachable t → t ⟶* u → IsReachable u
IsReachable-⟶* r here = r
IsReachable-⟶* r (request_after env q steps) = request env q (IsReachable-⟶* r steps)
IsReachable-⟶* r (elsewhere_after s sections lessons sub_lessons steps) =
    elsewhere s sections lessons sub_lessons (IsReachable-⟶* r steps)

-- A decided version is never decided again.
from_decided : {s u : VersionStatus} → IsDecided s → s ⟶ u → ⊥
from_decided {s} d e = no d e refl
  where
    no : {a b c : VersionStatus} → IsDecided a → b ⟶ c → a ≡ b → ⊥
    no was_approved submit h = cc
    no was_approved approve h = cc
    no was_approved reject h = cc
    no was_rejected submit h = cc
    no was_rejected approve h = cc
    no was_rejected reject h = cc

still-IsDecided : {v w : CourseVersionRow} → IsLater v w → IsDecided v.status → IsDecided w.status
still-IsDecided l d = elim l.moves [
  | inl same ↦ subst IsDecided (sym same) d
  | inr edge ↦ absurd (from_decided d edge)
]

IsDecided-kept :
    {t u : Tables} (id : Text) (v : CourseVersionRow)
    → IsReachable t
    → version_by_id id t.versions ≡ some v
    → IsDecided v.status
    → t ⟶* u
    → (w : CourseVersionRow) × (version_by_id id u.versions ≡ some w)
      × (lasting w ≡ lasting v)
      × IsDecided w.status
IsDecided-kept id v r found d here = (v, found, refl, d)
IsDecided-kept id v r found d (request_after env q {u = u} steps) =
    let (w, there, same, decided) = IsDecided-kept id v r found d steps in
    let reachable = IsReachable-⟶* r steps in
    let (x, then, later) =
      (commit-IsSoundStep env u q (IsReachable-IsWellFormed u reachable)).grows id w there in
    (x, then, later.keeps decided ∙ same, still-IsDecided later decided)
IsDecided-kept id v r found d (elsewhere_after s sections lessons sub_lessons steps) =
    IsDecided-kept id v r found d steps

-- A version that has been approved or rejected in reachable tables is, after any requests, still
-- there with all its columns but the times of update and of deletion.
pub decided_version_kept :
    (t u : Tables) (id : Text) (v : CourseVersionRow)
    → IsReachable t
    → version_by_id id t.versions ≡ some v
    → IsDecided v.status
    → t ⟶* u
    → (w : CourseVersionRow) × (version_by_id id u.versions ≡ some w) × (lasting w ≡ lasting v)
decided_version_kept t u id v r found d steps =
    let (w, there, same, decided) = IsDecided-kept id v r found d steps in (w, there, same)

-- In reachable tables ReopenDraft never succeeds: no current draft is a rejected one.
pub reopen_draft-unreachable :
    (env : Environment) (t : Tables) (id actor : Text)
    → IsReachable t
    → (e : CourseError) × (reopen_draft env t id actor ≡ err e)
reopen_draft-unreachable env t id actor r = answer (reopen_draft env t id actor) refl
  where
    answer :
        (res : Result CourseError Tables)
        → reopen_draft env t id actor ≡ res
        → (e : CourseError) × (reopen_draft env t id actor ≡ err e)
    answer (err e) h = (e, h)
    answer (ok t') h =
        absurd (reopen_draft-fails env t id actor (IsReachable-IsWellFormed t r) t' h)
