-- ===== src/Course/Submit/Accepted.antt =====
-- internal/course/infra/repo_versioning.go and repo_submit_validation.go: SubmitForReview.
use be_mycourse.Shared.{
  ◌≡◌, ◌≢◌, subst, List, [], is_empty, text_eq→eq, ◌⊎◌, inl, inr, Bool, true, false, Option, some,
  none, Text, codes, text_eq, trim, ok, >>=-ok, sym, ap, ◌∙◌, or_fail, or_fail-ok, ok-injective,
  arith,
}
use be_mycourse.Authorization.Domain.{course_facts, Decision, Error, allowed}
use be_mycourse.Authorization.Authorizer.{normalize_request}
use be_mycourse.Authorization.Authorizer.Access.{authorize_iff}
use be_mycourse.Course.Rows.Lookup.{first_row-passes}
use be_mycourse.Authorization.Registry.{provider}
use be_mycourse.Authorization.Store.{list_active}
use be_mycourse.Course.{course_policy_provider}
use be_mycourse.Course.Ownership.{authorize_course, IsGrantedByRow}
use be_mycourse.Course.Rows.{
  VersionStatus, CourseRow, CourseVersionRow, Tables, CourseError, course_invalid_review_state,
  course_owner_only, course_draft_required, course_by_id, version_by_id,
}
use be_mycourse.Course.Environment.{Environment}
use be_mycourse.Course.Content.{validate_sub_lesson_content}
use be_mycourse.Course.Access.{
  CourseAccess, access_request, decide, decided, load_course, load_version_row,
  require_course_action, require_owner_access, require_draft_version,
}
use be_mycourse.Course.Submit.{
  hydrate, load_outline, validate_draft_basic_info, validate_draft_outline,
  validate_draft_for_review,
}
use be_mycourse.Course.Submit.Outline.{validate_outline_for_submit_iff}
use be_mycourse.Course.Submit.Filled.{IsFilled, validate_draft_basic_info-IsFilled}
use be_mycourse.Course.Submit.Items.{IsSoundOutline, IsValidOutline-IsSoundOutline}
use be_mycourse.Course.Submit.Staffed.{IsStaffed, validate_draft_collaborators-IsStaffed}
use be_mycourse.Course.Lifecycle.{in_status, submit_for_review}
use be_mycourse.Course.Lifecycle.Edge.{in_status-ok}
use be_mycourse.Course.Lifecycle.Inversion.{load_course-ok, load_version_row-ok}

decided-allowed :
    (d : Decision × Option Error) (denied : CourseError)
    → decided d denied ≡ ok tt
    → allowed d.0 ≡ true
decided-allowed (d, some e) denied h = cc
decided-allowed (d, none) denied h = ground arith

-- The user owns the course, or an allowing grant in force was found.
pub record MayAct (env : Environment) (t : Tables) (id user action : Text) : Type 0 where
  pub course : CourseRow
  pub listed : course_by_id id t.courses ≡ some course
  pub ground_for :
      (text_eq course.owner_user_id user ≡ true)
      ⊎ IsGrantedByRow env.runtime
          (list_active t.authorization)
          env.now
          (access_request env course id user action)

-- Whoever gets access to an action on a course, when the Course provider stands for courses, owns
-- the course or has an allowing grant in force.
pub require_course_action-MayAct :
    (env : Environment) (t : Tables) (id user action : Text) (denied : CourseError)
    (a : CourseAccess)
    → provider env.registry (codes "course") ≡ some course_policy_provider
    → require_course_action env t id user action denied ≡ ok a
    → MayAct env t id user action
unfolding require_course_action normalize_request trim
require_course_action-MayAct env t id user action denied a p h =
    let (c, loaded, h₁) = >>=-ok (load_course t id) _ h in
    let request = access_request env c id user action in
    let (u, allowance, h₂) = >>=-ok (decided (decide env t request) denied) _ h₁ in
    record {
      course = c;
      listed = load_course-ok t id loaded;
      ground_for =
          elim (authorize_course env.runtime env.registry (list_active t.authorization) env.now
            request p (decided-allowed (decide env t request) denied allowance)) [
              | inl owner ↦ inl (facts_owner (text_eq c.owner_user_id user) owner)
              | inr granted ↦ inr granted
            ];
    }
  where
    facts_owner : (b : Bool) → course_facts b ≡ course_facts true → b ≡ true
    facts_owner b e = cc

-- A loaded draft is that of the listed course, and is listed itself.
require_draft_version-listed :
    (t : Tables) (id : Text) {c : CourseRow} {v : CourseVersionRow}
    → require_draft_version t id ≡ ok (c, v)
    → (course_by_id id t.courses ≡ some c)
      × ((k : Text) × (c.current_draft_version_id ≡ some k) × (version_by_id k t.versions ≡ some v))
unfolding require_draft_version
require_draft_version-listed t id {c} {v} h =
    let (course, loaded, h₁) = >>=-ok (load_course t id) _ h in
    let (k, pointed, h₂) =
      >>=-ok (or_fail course.current_draft_version_id course_draft_required) _ h₁ in
    let (version, there, h₃) = >>=-ok (load_version_row t k) _ h₂ in
    let same = ok-injective h₃ in
    (
      load_course-ok t id loaded ∙ ap (λ p. some (p.0)) same,
      (
        k,
        ap (λ p. p.0.current_draft_version_id) (sym same)
            ∙ or_fail-ok course.current_draft_version_id course_draft_required pointed,
        load_version_row-ok t k there ∙ ap (λ p. some (p.1)) same,
      ),
    )

-- Access to a course is refused where its id is blank.
require_course_action-named :
    (env : Environment) (t : Tables) (id user action : Text) (denied : CourseError)
    (a : CourseAccess)
    → require_course_action env t id user action denied ≡ ok a
    → id ≢ []
unfolding require_course_action normalize_request trim
require_course_action-named env t id user action denied a h =
    let (c, loaded, h₁) = >>=-ok (load_course t id) _ h in
    let request = access_request env c id user action in
    let (u, allowance, h₂) = >>=-ok (decided (decide env t request) denied) _ h₁ in
    let g =
      (authorize_iff env.runtime env.registry (list_active t.authorization) env.now request).0
        (decided-allowed (decide env t request) denied allowance) in
    λ blank. absurd (not_blank (subst (λ s. is_empty (trim s) ≡ false) blank g.cleared.instanced))
  where
    not_blank : is_empty (trim []) ≡ false → ⊥
    not_blank e = cc

course_by_id-id :
    (id : Text) (rows : List CourseRow) {c : CourseRow} → course_by_id id rows ≡ some c → c.id ≡ id
unfolding course_by_id
course_by_id-id id rows {c} h =
    text_eq→eq c.id id (first_row-passes (λ (x : CourseRow). text_eq x.id id) rows h)

pub record Accepted (env : Environment) (t : Tables) (id actor : Text) : Type 0 where
  pub course : CourseRow
  pub version : CourseVersionRow
  pub draft_id : Text
  pub course_was : course_by_id id t.courses ≡ some course
  pub draft_was : course.current_draft_version_id ≡ some draft_id
  pub version_was : version_by_id draft_id t.versions ≡ some version
  pub was_draft : version.status ≡ VersionStatus.draft
  pub filled : IsFilled env t version
  pub outlined : IsSoundOutline env (load_outline t version.id)
  pub staffed : IsStaffed env t course
  pub actor_may : MayAct env t id actor (codes "course_review:manage")

-- When SubmitForReview succeeds, with the Course provider for courses, the course's draft was a
-- DRAFT with its basic info filled in and known, and an outline with at least one section, a lesson
-- in each and an item in each of these, all sound; the owner and the users of editor bindings are
-- instructors, as far as they are active, and at least one of them is active; and the actor owns
-- the course or has an allowing grant in force for managing reviews.
pub submit_for_review-Accepted :
    (env : Environment) (t : Tables) (id actor : Text) (t' : Tables)
    → provider env.registry (codes "course") ≡ some course_policy_provider
    → submit_for_review env t id actor ≡ ok t'
    → Accepted env t id actor
unfolding submit_for_review require_owner_access validate_draft_for_review validate_draft_outline
submit_for_review-Accepted env t id actor t' p h =
    let (a, allowance, h₁) =
      >>=-ok (require_owner_access env t id actor (codes "course_review:manage")) _ h in
    let ((c, v), loaded, h₂) = >>=-ok (require_draft_version t id) _ h₁ in
    let (u, fits, h₃) =
      >>=-ok (in_status VersionStatus.draft v.status course_invalid_review_state) _ h₂ in
    let (w, valid, h₄) = >>=-ok (validate_draft_for_review env t c v) _ h₃ in
    let (x, basic, h₅) = >>=-ok (validate_draft_basic_info env t v) _ valid in
    let (y, outline, staffed) = >>=-ok (validate_draft_outline env t v.id) _ h₅ in
    let (listed, (k, pointed, there)) = require_draft_version-listed t id loaded in
    let named =
      require_course_action-named env t id actor (codes "course_review:manage") course_owner_only a
        allowance in
    let same = course_by_id-id id t.courses listed in
    record {
      course = c;
      version = v;
      draft_id = k;
      course_was = listed;
      draft_was = pointed;
      version_was = there;
      was_draft = in_status-ok VersionStatus.draft v.status course_invalid_review_state fits;
      filled = validate_draft_basic_info-IsFilled env t v basic;
      outlined = IsValidOutline-IsSoundOutline env (load_outline t v.id) (
          (validate_outline_for_submit_iff (λ s. validate_sub_lesson_content env (hydrate s))
              (load_outline t v.id)).0
            outline);
      staffed =
          validate_draft_collaborators-IsStaffed env t c (λ blank. named (sym same ∙ blank))
            staffed;
      actor_may =
          require_course_action-MayAct env t id actor (codes "course_review:manage")
            course_owner_only a p allowance;
    }
