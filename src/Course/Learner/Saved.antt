-- ===== src/Course/Learner/Saved.antt =====
-- internal/course/infra/repo_learner.go: SaveProgress and the loading of progress.
use be_mycourse.Shared.{
  ◌≡◌, refl, ap, sym, subst, ◌∙◌, is_empty, if◌then◌else◌, guard, inl, inr, true, Option, none,
  some, Text, codes, text_eq, text_eq_refl, trim, ok, >>=-ok, ok-injective, or_fail, or_fail-ok,
  Bool-cases, text_eq→eq, arith,
}
use be_mycourse.Course.Rows.{
  EnrollmentRow, ProgressRow, Tables, course_enrollment_not_found, value_refused, first_row,
  update_where, create,
}
use be_mycourse.Course.Rows.Lookup.{
  updated, map_option, first_row-passes, first_row-update_where, first_row-last, create-ok,
}
use be_mycourse.Course.Environment.{Environment}
use be_mycourse.Course.Content.{normalize_json}
use be_mycourse.Course.Learner.{
  SaveProgressInput, StoredInput, fits_varchar, stored_input, enrolls, tracks, recorded,
  new_progress, progress_saved, save_progress, require_enrollment, load_progress_item,
}

some_injective : {A : Type 0} {a b : A} → some a ≡ some b → a ≡ b
some_injective {A} {a} {b} h = cc

-- The row holds what its columns store of the input, as of now.
pub record IsRecorded (env : Environment) (input : SaveProgressInput) (p : ProgressRow)
    : Type 0 where
  pub same_content : env.to_uuid input.stable_content_id ≡ some p.stable_content_id
  pub same_type : p.content_type ≡ trim input.content_type
  pub same_status : p.status ≡ trim input.status
  pub same_score : env.to_numeric input.score ≡ some p.score
  pub same_attempt :
      env.to_jsonb (if is_empty (trim input.quiz_attempt) then codes "{}" else input.quiz_attempt)
      ≡ some p.quiz_attempt
  pub just_now : p.last_interacted_at ≡ some env.now

-- The same of the input's columns.
record IsStored (env : Environment) (input : SaveProgressInput) (s : StoredInput) : Type 0 where
  stored_type : s.content_type ≡ trim input.content_type
  stored_status : s.status ≡ trim input.status
  stored_score : env.to_numeric input.score ≡ some s.score
  stored_attempt :
      env.to_jsonb (normalize_json input.quiz_attempt (codes "{}")) ≡ some s.quiz_attempt

stored_input-IsStored :
    (env : Environment) (input : SaveProgressInput) {s : StoredInput}
    → stored_input env input ≡ ok s
    → IsStored env input s
unfolding stored_input
stored_input-IsStored env input e =
    let (u, type_fits, h₁) =
      >>=-ok (guard (fits_varchar (trim input.content_type)) value_refused) _ e in
    let (v, status_fits, h₂) =
      >>=-ok (guard (fits_varchar (trim input.status)) value_refused) _ h₁ in
    let (score, numeric, h₃) = >>=-ok (or_fail (env.to_numeric input.score) value_refused) _ h₂ in
    let (attempt, json, h₄) =
      >>=-ok (or_fail (env.to_jsonb (normalize_json input.quiz_attempt (codes "{}"))) value_refused)
        _ h₃ in
    subst (IsStored env input) (ok-injective h₄) (record {
      stored_type = refl;
      stored_status = refl;
      stored_score = or_fail-ok (env.to_numeric input.score) value_refused numeric;
      stored_attempt =
          or_fail-ok (env.to_jsonb (normalize_json input.quiz_attempt (codes "{}"))) value_refused
            json;
    })

require_enrollment-ext :
    (t u : Tables) (course_id user_id : Text)
    → u.enrollments ≡ t.enrollments
    → require_enrollment u course_id user_id ≡ require_enrollment t course_id user_id
unfolding require_enrollment
require_enrollment-ext t u course_id user_id h =
    ap (λ es. or_fail (first_row (enrolls course_id user_id) es) course_enrollment_not_found) h

load_progress_item-first :
    (u : Tables) (course_id user_id content : Text) (e : EnrollmentRow) {p : ProgressRow}
    → require_enrollment u course_id user_id ≡ ok e
    → first_row (tracks e.id content) u.progress ≡ some p
    → load_progress_item u course_id user_id content ≡ some p
unfolding load_progress_item
load_progress_item-first u course_id user_id content e there found =
    rw (there, load_progress_item) found

module _ (env : Environment) (t : Tables) (input : SaveProgressInput) (content : Text)
    (stored : StoredInput) (known : env.to_uuid input.stable_content_id ≡ some content)
    (fits : IsStored env input stored) where
  -- The first row of that content holds the input, and the enrollments are as they were.
  Keeps : EnrollmentRow → Tables → Type 0
  Keeps enrollment u =
      (u.enrollments ≡ t.enrollments)
      × ((p : ProgressRow) × (first_row (tracks enrollment.id content) u.progress ≡ some p)
          × IsRecorded env input p)

  updated_row :
      (enrollment : EnrollmentRow) (p : ProgressRow)
      → first_row (tracks enrollment.id content) t.progress ≡ some p
      → first_row
          (tracks enrollment.id content)
          (update_where (λ q. text_eq q.id p.id) (recorded env stored) t.progress)
        ≡ some (recorded env stored p)
  updated_row enrollment p found =
      first_row-update_where (tracks enrollment.id content) (λ q. text_eq q.id p.id)
        (recorded env stored) still_tracks t.progress
      ∙ ap (map_option (updated (λ q. text_eq q.id p.id) (recorded env stored))) found
      ∙ ap some (rw (text_eq_refl p.id) refl)
    where
      still_tracks :
          (x : ProgressRow)
          → tracks enrollment.id content (updated (λ q. text_eq q.id p.id) (recorded env stored) x)
            ≡ tracks enrollment.id content x
      still_tracks x = elim (Bool-cases (text_eq x.id p.id)) [
        | inl e ↦ rw e refl
        | inr e ↦ rw e refl
      ]

  tracks-content :
      (enrollment : EnrollmentRow) (p : ProgressRow)
      → tracks enrollment.id content p ≡ true
      → p.stable_content_id ≡ content
  tracks-content enrollment p h = text_eq→eq p.stable_content_id content (ground arith)

  progress_saved-Keeps :
      (enrollment : EnrollmentRow) (o : Option ProgressRow) {u : Tables}
      → first_row (tracks enrollment.id content) t.progress ≡ o
      → progress_saved env t stored content enrollment o ≡ ok u
      → Keeps enrollment u
  unfolding progress_saved Keeps
  progress_saved-Keeps enrollment none found h =
      let new = new_progress env stored content enrollment.id in
      let (rows, made, same) = >>=-ok (create (λ p. p.id) new t.progress) _ h in
      let (fresh, appended) = create-ok (λ p. p.id) new t.progress made in
      subst (Keeps enrollment) (ok-injective same) (
        refl,
        (
          new,
          rw appended (
              first_row-last (tracks enrollment.id content) t.progress new found
                (ground (arith, text_eq_refl enrollment.id, text_eq_refl content))),
          record {
            same_content = known;
            same_type = fits.stored_type;
            same_status = fits.stored_status;
            same_score = fits.stored_score;
            same_attempt = fits.stored_attempt;
            just_now = refl;
          },
        ),
      )
  progress_saved-Keeps enrollment (some p) found h = subst (Keeps enrollment) (ok-injective h) (
    refl,
    (
      recorded env stored p,
      updated_row enrollment p found,
      record {
        same_content =
            known
            ∙ ap some (
                sym (
                  tracks-content enrollment p
                    (first_row-passes (tracks enrollment.id content) t.progress found)));
        same_type = fits.stored_type;
        same_status = fits.stored_status;
        same_score = fits.stored_score;
        same_attempt = fits.stored_attempt;
        just_now = refl;
      },
    ),
  )

-- What SaveProgress has saved, loading the learner's progress on that content gives back: the
-- trimmed type and status, and the score, the quiz attempt and the content as the columns store
-- them.
pub save_progress-loaded :
    (env : Environment) (t : Tables) (input : SaveProgressInput) (course_id user_id content : Text)
    (u : Tables)
    → env.to_uuid input.stable_content_id ≡ some content
    → save_progress env t course_id user_id input ≡ ok u
    → (p : ProgressRow) × (load_progress_item u course_id user_id content ≡ some p)
      × IsRecorded env input p
unfolding save_progress Keeps
save_progress-loaded env t input course_id user_id content u known h =
    let (enrollment, there, h₁) = >>=-ok (require_enrollment t course_id user_id) _ h in
    let (id, read, h₂) =
      >>=-ok (or_fail (env.to_uuid input.stable_content_id) value_refused) _ h₁ in
    let same : id ≡ content =
      some_injective
        (sym (or_fail-ok (env.to_uuid input.stable_content_id) value_refused read) ∙ known) in
    let (stored, fits, h₃) = >>=-ok (stored_input env input) _ h₂ in
    let (kept, (p, found, held)) =
      progress_saved-Keeps env t input id stored
        (or_fail-ok (env.to_uuid input.stable_content_id) value_refused read)
        (stored_input-IsStored env input fits) enrollment
        (first_row (tracks enrollment.id id) t.progress) refl h₃ in
    (
      p,
      load_progress_item-first u course_id user_id content enrollment
          (require_enrollment-ext t u course_id user_id kept ∙ there)
          (subst (λ k. first_row (tracks enrollment.id k) u.progress ≡ some p) same found),
      held,
    )
