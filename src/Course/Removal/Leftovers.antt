-- ===== src/Course/Removal/Leftovers.antt =====
-- internal/course/infra/repo_admin.go: softDeleteCourseTree.
use be_mycourse.Shared.{
  ◌≡◌, refl, inl, inr, Bool, false, ◌&&◌, some, List, [], ◌∷◌, Text, text_eq, contains, keep,
  Bool-cases, arith,
}
use be_mycourse.Shared.Int.{ℤ}
use be_mycourse.Authorization.Domain.{is_nil}
use be_mycourse.Course.Rows.{EnrollmentRow, ProgressRow, Tables, update_where}
use be_mycourse.Course.Environment.{Environment}
use be_mycourse.Course.Removal.{soft_delete_course_tree}

module _ (now : ℤ) (id : Text) where
  abbrev pub ends : EnrollmentRow → Bool
  ends e = text_eq e.course_id id && is_nil e.deleted_at

  abbrev ended : EnrollmentRow → EnrollmentRow
  ended e = record e { deleted_at = some now; updated_at = now }

  none_active : (es : List EnrollmentRow) → keep ends (update_where ends ended es) ≡ []
  unfolding keep update_where
  none_active [] = refl
  none_active (e ∷ es) = elim (Bool-cases (ends e)) [
    | inl hit ↦ ground (arith, none_active es)
    | inr miss ↦ ground (arith, none_active es)
  ]

no_update :
    {A : Type 0} (p : A → Bool) (f : A → A)
    → ((x : A) → p x ≡ false)
    → (xs : List A) → update_where p f xs ≡ xs
unfolding update_where
no_update p f h [] = refl
no_update p f h (x ∷ xs) = rw (h x, no_update p f h xs) refl

-- softDeleteCourseTree leaves the table of progress items as it was, and no enrollment of the
-- course active.
pub soft_delete_course_tree-progress :
    (env : Environment) (id : Text) (t : Tables)
    → ((soft_delete_course_tree env id t).progress ≡ t.progress)
      × (keep (ends env.now id) (soft_delete_course_tree env id t).enrollments ≡ [])
unfolding soft_delete_course_tree contains
soft_delete_course_tree-progress env id t = (
  rw (none_active env.now id t.enrollments) (
      no_update (λ (p : ProgressRow). is_nil p.deleted_at && contains p.enrollment_id [])
        (λ p. record p { deleted_at = some env.now; updated_at = env.now }) (λ p. ground arith)
        t.progress),
  none_active env.now id t.enrollments,
)
