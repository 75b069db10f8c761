-- ===== src/Course/Lifecycle/Reviews.antt =====
-- internal/course/infra/repo_review.go: submitting, approving, rejecting and reopening a draft.
use be_mycourse.Shared.{◌≡◌, refl, sym, subst, some, [], ◌∷◌, Text, codes, ok, >>=-ok, ok-injective}
use be_mycourse.Course.Rows.{
  VersionStatus, CourseVersionRow, Tables, course_invalid_review_state, course_draft_rejected_only,
}
use be_mycourse.Course.Environment.{Environment}
use be_mycourse.Course.Access.{require_owner_access, require_draft_version}
use be_mycourse.Course.Submit.{validate_draft_for_review}
use be_mycourse.Course.Lifecycle.{
  in_status, mark_submitted, mark_approved, mark_rejected, set_version, submit_for_review,
  reopen_draft, approve_draft, reject_draft,
}
use be_mycourse.Course.Lifecycle.States.{
  is_in_review, IsDecided, was_rejected, submit, approve, reject, open_undecided, ◌⟶◌,
}
use be_mycourse.Course.Lifecycle.WellFormed.{IsWellFormed, IsSoundStep}
use be_mycourse.Course.Lifecycle.Kept.{Grows-append}
use be_mycourse.Course.Lifecycle.Drafting.{start_draft-IsSoundStep, start_draft-appends}
use be_mycourse.Course.Lifecycle.Edge.{
  draft_of, in_status-ok, edge-Grows, edge_sound, edge_sound_but, publish_sound,
}

module _ (env : Environment) (t : Tables) (id actor : Text) (h : IsWellFormed t) where
  pub submit_for_review-IsSoundStep :
      {t' : Tables} → submit_for_review env t id actor ≡ ok t' → IsSoundStep t t'
  unfolding submit_for_review
  submit_for_review-IsSoundStep {t'} e =
      let (a, checked, h₁) =
        >>=-ok (require_owner_access env t id actor (codes "course_review:manage")) _ e in
      let ((c, v), loaded, h₂) = >>=-ok (require_draft_version t id) _ h₁ in
      let (u, fits, h₃) =
        >>=-ok (in_status VersionStatus.draft v.status course_invalid_review_state) _ h₂ in
      let (w, valid, h₄) = >>=-ok (validate_draft_for_review env t c v) _ h₃ in
      let d = draft_of t id h loaded in
      let edge : v.status ⟶ VersionStatus.in_review =
        subst (λ s. s ⟶ VersionStatus.in_review)
          (sym (in_status-ok VersionStatus.draft v.status course_invalid_review_state fits))
          submit in
      subst (IsSoundStep t) (ok-injective h₄) (record {
        well_formed =
            edge_sound t id c v h d (mark_submitted env actor) (λ x. refl) (λ x. refl) (λ x. refl)
              edge is_in_review;
        grows =
            edge-Grows t id c v h d (mark_submitted env actor) (λ x. refl) (λ x. refl) (λ x. refl)
              edge;
      })

  -- No current draft of a well-formed table has been rejected, so nothing can be reopened.
  pub reopen_draft-fails : (t' : Tables) → reopen_draft env t id actor ≡ ok t' → ⊥
  unfolding reopen_draft
  reopen_draft-fails t' e =
      let (a, checked, h₁) =
        >>=-ok (require_owner_access env t id actor (codes "course_review:manage")) _ e in
      let ((c, v), loaded, h₂) = >>=-ok (require_draft_version t id) _ h₁ in
      let (u, fits, h₃) =
        >>=-ok (in_status VersionStatus.rejected v.status course_draft_rejected_only) _ h₂ in
      let was = in_status-ok VersionStatus.rejected v.status course_draft_rejected_only fits in
      open_undecided (draft_of t id h loaded).under_way (subst IsDecided (sym was) was_rejected)

  module _ (words : Text) where
    edge_from_review :
        (v : CourseVersionRow) (s : VersionStatus)
        → VersionStatus.in_review ⟶ s
        → in_status VersionStatus.in_review v.status course_invalid_review_state ≡ ok tt
        → v.status ⟶ s
    edge_from_review v s edge fits =
        subst (λ x. x ⟶ s)
          (sym (in_status-ok VersionStatus.in_review v.status course_invalid_review_state fits))
          edge

    pub approve_draft-IsSoundStep :
        {t' : Tables} → approve_draft env t id actor words ≡ ok t' → IsSoundStep t t'
    unfolding approve_draft
    approve_draft-IsSoundStep {t'} e =
        let ((c, v), loaded, h₁) = >>=-ok (require_draft_version t id) _ e in
        let (u, fits, h₂) =
          >>=-ok (in_status VersionStatus.in_review v.status course_invalid_review_state) _ h₁ in
        let d = draft_of t id h loaded in
        let edge = edge_from_review v VersionStatus.approved approve fits in
        subst (IsSoundStep t) (ok-injective h₂) (record {
          well_formed =
              publish_sound t id c v h d (mark_approved env actor words) (λ x. refl) (λ x. refl)
                (λ x. refl) edge env refl;
          grows =
              edge-Grows t id c v h d (mark_approved env actor words) (λ x. refl) (λ x. refl)
                (λ x. refl) edge;
        })

    pub reject_draft-IsSoundStep :
        {t' : Tables} → reject_draft env t id actor words ≡ ok t' → IsSoundStep t t'
    unfolding reject_draft
    reject_draft-IsSoundStep {t'} e =
        let ((c, v), loaded, h₁) = >>=-ok (require_draft_version t id) _ e in
        let (u, fits, h₂) =
          >>=-ok (in_status VersionStatus.in_review v.status course_invalid_review_state) _ h₁ in
        let d = draft_of t id h loaded in
        let edge = edge_from_review v VersionStatus.rejected reject fits in
        let f = mark_rejected env actor words in
        let but = edge_sound_but t id c v h d f (λ x. refl) (λ x. refl) (λ x. refl) edge in
        let (row, appended, listed, state) =
          start_draft-appends env (set_version v.id f t) c (some v.id) h₂ in
        record {
          well_formed =
              (start_draft-IsSoundStep env (set_version v.id f t) c (some v.id) but h₂).well_formed;
          grows = rw (appended) (
              Grows-append t.versions (set_version v.id f t).versions (row ∷ [])
                (edge-Grows t id c v h d f (λ x. refl) (λ x. refl) (λ x. refl) edge));
        }
