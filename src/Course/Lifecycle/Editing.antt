-- ===== src/Course/Lifecycle/Editing.antt =====
-- internal/course/infra/repo_instructor.go: preparing a draft and editing its basic info.
use be_mycourse.Shared.{
  ◌≡◌, refl, sym, ap, subst, ◌∙◌, inl, Bool, true, ◌&&◌, Option, none, some, List, [], ◌∷◌, ◌++◌,
  Text, text_eq, codes, ◌==◌, ok, >>=-ok, guard-ok, ok-injective, arith,
}
use mathlib.Core.List.{append-nil}
use be_mycourse.Authorization.Domain.{is_nil}
use be_mycourse.Course.Rows.{
  VersionStatus, CourseRow, CourseVersionRow, Tables, CourseError, course_optimistic_lock,
  version_by_id, course_by_id, update_where,
}
use be_mycourse.Course.Rows.Lookup.{first_row-All}
use be_mycourse.Course.Environment.{Environment}
use be_mycourse.Course.Access.{
  CourseAccess, access_request, decide, decided, access_role, load_course, load_version_row,
  require_course_action, require_owner_access, require_editor_access,
}
use be_mycourse.Course.Drafts.{start_draft, with_draft, editable, ensure_editable_draft}
use be_mycourse.Course.Submit.{validate_version_refs}
use be_mycourse.Course.Lifecycle.{
  prepare_draft, UpdateBasicInfoInput, build_basic_info_updates, set_slug, given, with_basic_info,
  update_basic_info,
}
use be_mycourse.Course.Lifecycle.States.{IsOpen, is_draft, IsDecided, IsLater, open_undecided}
use be_mycourse.Course.Lifecycle.WellFormed.{
  CourseIsSound, AreSound, IsWellFormed, Grows, IsSoundStep,
}
use be_mycourse.Course.Lifecycle.Kept.{
  version_by_id-id, version_by_id-append, Grows-refl, Grows-append,
}
use be_mycourse.Course.Lifecycle.Inversion.{load_course-ok, load_version_row-ok}
use be_mycourse.Course.Lifecycle.Drafting.{
  listed_id, well_formed_but, start_draft-IsSoundStep, start_draft-appends,
}
use be_mycourse.Course.Lifecycle.Edge.{one_row, some_injective}
use be_mycourse.Course.Lifecycle.Frames.{touch_courses, moved-Grows, move_versions}

-- Access is to the course with the id.
pub require_course_action-ok :
    (env : Environment) (t : Tables) (id user action : Text) (denied : CourseError)
    {a : CourseAccess}
    → require_course_action env t id user action denied ≡ ok a
    → course_by_id id t.courses ≡ some a.course
unfolding require_course_action
require_course_action-ok env t id user action denied {a} h =
    let (c, loaded, h₁) = >>=-ok (load_course t id) _ h in
    let (u, allowance, h₂) =
      >>=-ok (decided (decide env t (access_request env c id user action)) denied) _ h₁ in
    let (role, shown, h₃) = >>=-ok (access_role t c id user) _ h₂ in
    load_course-ok t id loaded ∙ ap some (ap (λ (x : CourseAccess). x.course) (ok-injective h₃))

-- The draft to edit: the one there is, or a new one.
pub record HasDraft (env : Environment) (t drafted : Tables) (draft : Text) : Type 0 where
  pub well_formed : IsWellFormed drafted
  pub added : List CourseVersionRow
  pub appended : drafted.versions ≡ t.versions ++ added
  pub under_way :
      (v : CourseVersionRow) → version_by_id draft drafted.versions ≡ some v → IsOpen v.status

pub with_draft-HasDraft :
    (env : Environment) (t : Tables) (id : Text) (c : CourseRow) (o : Option Text)
    {drafted : Tables} {draft : Text}
    → IsWellFormed t
    → course_by_id id t.courses ≡ some c
    → c.current_draft_version_id ≡ o
    → with_draft env t c o ≡ ok (drafted, draft)
    → HasDraft env t drafted draft
unfolding with_draft course_by_id
with_draft-HasDraft env t id c (some d) {drafted} {draft} h listed pointer e =
    let n =
      (first_row-All (CourseIsSound t.versions) (λ x. text_eq x.id id) t.courses h.courses_sound
          listed).drafts
        d pointer in
    subst (λ (x : Tables × Text). HasDraft env t x.0 x.1) (ok-injective e)
      (record {
        well_formed = h;
        added = [];
        appended = sym (append-nil t.versions);
        under_way = λ v found.
            subst (λ (w : CourseVersionRow). IsOpen w.status)
              (some_injective (sym n.listed ∙ found)) n.state;
      })
with_draft-HasDraft env t id c none {drafted} {draft} h listed pointer e =
    let (created, made, last) = >>=-ok (start_draft env t c c.current_published_version_id) _ e in
    let there = listed_id id t.courses listed in
    let but = well_formed_but c.id t h (rw (there.0) there.1) in
    let (row, appended, found, state) =
      start_draft-appends env t c c.current_published_version_id made in
    subst (λ (x : Tables × Text). HasDraft env t x.0 x.1) (ok-injective last)
      (record {
        well_formed =
            (start_draft-IsSoundStep env t c c.current_published_version_id but made).well_formed;
        added = row ∷ [];
        appended = appended;
        under_way = λ v other.
            let same : row ≡ v = some_injective (sym found ∙ other) in
            let status : v.status ≡ VersionStatus.draft =
              ap (λ (w : CourseVersionRow). w.status) (sym same) ∙ state in
            rw (status) is_draft;
      })

drafted-Grows :
    (env : Environment) (t drafted : Tables) (draft : Text)
    → HasDraft env t drafted draft
    → Grows t.versions drafted.versions
drafted-Grows env t drafted draft d =
    rw (d.appended) (Grows-append t.versions t.versions d.added (Grows-refl t.versions))

pub prepare_draft-IsSoundStep :
    (env : Environment) (t : Tables) (id actor : Text) {t' : Tables}
    → IsWellFormed t
    → prepare_draft env t id actor ≡ ok t'
    → IsSoundStep t t'
unfolding prepare_draft require_owner_access
prepare_draft-IsSoundStep env t id actor {t'} h e =
    let (a, allowance, h₁) =
      >>=-ok (require_owner_access env t id actor (codes "course_draft:prepare")) _ e in
    let ((drafted, draft), made, h₂) =
      >>=-ok (with_draft env t a.course a.course.current_draft_version_id) _ h₁ in
    let listed = require_course_action-ok env t id actor _ _ allowance in
    let d =
      with_draft-HasDraft env t id a.course a.course.current_draft_version_id h listed refl made in
    subst (IsSoundStep t) (ok-injective h₂)
      (record { well_formed = d.well_formed; grows = drafted-Grows env t drafted draft d })

-- What is edited is under way.
pub record IsEditable (env : Environment) (t drafted : Tables) (v : CourseVersionRow) : Type 0 where
  pub draft : Text
  pub there : HasDraft env t drafted draft
  pub listed : version_by_id v.id drafted.versions ≡ some v
  pub under_way : IsOpen v.status

pub ensure_editable_draft-IsEditable :
    (env : Environment) (t : Tables) (id user : Text) {drafted : Tables} {a : CourseAccess}
    {v : CourseVersionRow}
    → IsWellFormed t
    → ensure_editable_draft env t id user ≡ ok (drafted, a, v)
    → IsEditable env t drafted v
unfolding ensure_editable_draft require_editor_access
ensure_editable_draft-IsEditable env t id user {drafted} {a} {v} h e =
    let (a', allowance, h₁) =
      >>=-ok (require_editor_access env t id user (codes "course_draft:edit")) _ e in
    let ((drafted', draft), made, h₂) =
      >>=-ok (with_draft env t a'.course a'.course.current_draft_version_id) _ h₁ in
    let (v', loaded, h₃) = >>=-ok (load_version_row drafted' draft) _ h₂ in
    let (u, may, h₄) = >>=-ok (editable v'.status) _ h₃ in
    let listed = require_course_action-ok env t id user _ _ allowance in
    let d =
      with_draft-HasDraft env t id a'.course a'.course.current_draft_version_id h listed refl
        made in
    let found = load_version_row-ok drafted' draft loaded in
    subst (λ (x : Tables × CourseAccess × CourseVersionRow). IsEditable env t x.0 x.2)
      (ok-injective h₄)
      (record {
        draft = draft;
        there = d;
        listed =
            subst (λ k. version_by_id k drafted'.versions ≡ some v')
              (sym (version_by_id-id draft drafted'.versions found)) found;
        under_way = d.under_way v' found;
      })

abbrev edits : UpdateBasicInfoInput → CourseVersionRow → CourseVersionRow → Bool
edits input v w =
    text_eq w.id v.id && w.row_version == input.expected_row_version && is_nil w.deleted_at

module _ (env : Environment) (t : Tables) (v : CourseVersionRow) (input : UpdateBasicInfoInput)
    (h : IsWellFormed t) (listed : version_by_id v.id t.versions ≡ some v)
    (under_way : IsOpen v.status) where
  edited_is :
      (k : Text) (w : CourseVersionRow)
      → version_by_id k t.versions ≡ some w
      → edits input v w ≡ true
      → w ≡ v
  edited_is k w found hit = one_row t k v w listed found (ground arith)

  edited-IsLater :
      (k : Text) (w : CourseVersionRow)
      → version_by_id k t.versions ≡ some w
      → edits input v w ≡ true
      → IsLater w (build_basic_info_updates env input w)
  unfolding build_basic_info_updates
  edited-IsLater k w found hit = record {
    same_course = refl;
    same_number = refl;
    moves = inl refl;
    keeps = λ decided. absurd (
        open_undecided under_way
          (subst (λ (x : CourseVersionRow). IsDecided x.status) (edited_is k w found hit) decided));
  }

  edited_Grows :
      Grows t.versions
        (update_where (edits input v) (build_basic_info_updates env input) t.versions)
  unfolding build_basic_info_updates
  edited_Grows =
      moved-Grows (edits input v) (build_basic_info_updates env input) t.versions (λ x. refl)
        (λ x. refl) (λ x. refl) edited-IsLater

  edited_sound :
      AreSound t.courses
        (update_where (edits input v) (build_basic_info_updates env input) t.versions)
        t.enrollments
  unfolding build_basic_info_updates
  edited_sound =
      move_versions (edits input v) (build_basic_info_updates env input) t.versions (λ x. refl)
        (λ x. refl) (λ x. refl) edited-IsLater (λ k w found hit o. o) h

  edited-IsWellFormed : (id : Text) → IsWellFormed (with_basic_info env input id v t)
  edited-IsWellFormed id = slugged input.slug
    where
      slugged :
          (slug : Option Text)
          → AreSound
              (set_slug env id slug t.courses)
              (update_where (edits input v) (build_basic_info_updates env input) t.versions)
              t.enrollments
      slugged none = edited_sound
      slugged (some slug) =
          touch_courses (λ c. text_eq c.id id && is_nil c.deleted_at)
            (λ c. record c { slug = slug; updated_at = env.now }) t.courses (λ c. refl) (λ c. refl)
            (λ c. refl) edited_sound

-- A version that was there before an append is found in what grows out of it.
Grows-prefix : (vs ds us ws : List CourseVersionRow) → us ≡ vs ++ ds → Grows us ws → Grows vs ws
Grows-prefix vs ds us ws e g id v found = g id v (rw (e) (version_by_id-append id vs ds found))

pub update_basic_info-IsSoundStep :
    (env : Environment) (t : Tables) (id actor : Text) (input : UpdateBasicInfoInput) {t' : Tables}
    → IsWellFormed t
    → update_basic_info env t id actor input ≡ ok t'
    → IsSoundStep t t'
unfolding update_basic_info
update_basic_info-IsSoundStep env t id actor input {t'} h e =
    let ((drafted, a, v), made, h₁) = >>=-ok (ensure_editable_draft env t id actor) _ e in
    let (fresh, h₂) =
      guard-ok (v.row_version == input.expected_row_version) course_optimistic_lock _ h₁ in
    let (u, valid, h₃) =
      >>=-ok
        (validate_version_refs env (given input v) input.tag_ids input.skill_ids input.outcome_ids)
        _ h₂ in
    let d = ensure_editable_draft-IsEditable env t id actor h made in
    subst (IsSoundStep t) (ok-injective h₃) (record {
      well_formed =
          edited-IsWellFormed env drafted v input d.there.well_formed d.listed d.under_way
            a.course.id;
      grows =
          Grows-prefix t.versions d.there.added drafted.versions _ d.there.appended
            (edited_Grows env drafted v input d.there.well_formed d.listed d.under_way);
    })

pub ensure_editable_draft-IsSoundStep :
    (env : Environment) (t : Tables) (id user : Text) {d : Tables × CourseAccess × CourseVersionRow}
    → IsWellFormed t
    → ensure_editable_draft env t id user ≡ ok d
    → IsSoundStep t d.0
ensure_editable_draft-IsSoundStep env t id user {d} h e =
    let i = ensure_editable_draft-IsEditable env t id user {a = d.1} {v = d.2} h e in
    record { well_formed = i.there.well_formed; grows = drafted-Grows env t d.0 i.draft i.there }
