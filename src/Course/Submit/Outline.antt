-- ===== src/Course/Submit/Outline.antt =====
-- internal/course/infra/repo_submit_validation.go: validateOutlineForSubmit.
use be_mycourse.Shared.{
  ◌≡◌, refl, ◌↔◌, inl, inr, false, List, [], ◌∷◌, is_empty, Bool-cases, Result-cases, Result, ok,
  arith,
}
use be_mycourse.Shared.Every.{All}
use be_mycourse.Course.Rows.{SubLessonRow, CourseError}
use be_mycourse.Course.Submit.{
  Lesson, Section, check_sub_lessons, check_lessons, check_sections, validate_outline_for_submit,
}

module _ (validate : SubLessonRow → Result CourseError (Unit {0})) where
  abbrev pub IsValidLesson : Lesson → Type 0
  IsValidLesson l = (is_empty l.sub_lessons ≡ false) × All (λ s. validate s ≡ ok tt) l.sub_lessons

  abbrev pub IsValidSection : Section → Type 0
  IsValidSection s = (is_empty s.lessons ≡ false) × All IsValidLesson s.lessons

  -- At least one section, in each at least one lesson, in each at least one item, and all valid.
  abbrev pub IsValidOutline : List Section → Type 0
  IsValidOutline outline = (is_empty outline ≡ false) × All IsValidSection outline

  sub_lessons_iff :
      (ss : List SubLessonRow)
      → (check_sub_lessons validate ss ≡ ok tt) ↔ All (λ s. validate s ≡ ok tt) ss
  unfolding check_sub_lessons
  sub_lessons_iff [] = (λ h. tt, λ h. refl)
  sub_lessons_iff (s ∷ ss) = elim (Result-cases (validate s)) [
    | inl (tt, e) ↦ (
      λ h. (e, (sub_lessons_iff ss).0 (ground arith)),
      λ h. ground (arith, (sub_lessons_iff ss).1 h.1),
    )
    | inr (x, e) ↦ (λ h. absurd (ground arith), λ h. absurd (ground (arith, h.0)))
  ]

  lessons_iff : (ls : List Lesson) → (check_lessons validate ls ≡ ok tt) ↔ All IsValidLesson ls
  unfolding check_lessons
  lessons_iff [] = (λ h. tt, λ h. refl)
  lessons_iff (l ∷ ls) = elim (Bool-cases (is_empty l.sub_lessons)) [
    | inl none_there ↦ (λ h. absurd (ground arith), λ h. absurd (ground (arith, h.0.0)))
    | inr filled ↦ elim (Result-cases (check_sub_lessons validate l.sub_lessons)) [
      | inl (tt, e) ↦ (
        λ h. ((filled, (sub_lessons_iff l.sub_lessons).0 e), (lessons_iff ls).0 (ground arith)),
        λ h. ground (arith, (lessons_iff ls).1 h.1),
      )
      | inr (x, e) ↦ (
        λ h. absurd (ground arith),
        λ h. absurd (ground (arith, (sub_lessons_iff l.sub_lessons).1 h.0.1)),
      )
    ]
  ]

  sections_iff : (ss : List Section) → (check_sections validate ss ≡ ok tt) ↔ All IsValidSection ss
  unfolding check_sections
  sections_iff [] = (λ h. tt, λ h. refl)
  sections_iff (s ∷ ss) = elim (Bool-cases (is_empty s.lessons)) [
    | inl none_there ↦ (λ h. absurd (ground arith), λ h. absurd (ground (arith, h.0.0)))
    | inr filled ↦ elim (Result-cases (check_lessons validate s.lessons)) [
      | inl (tt, e) ↦ (
        λ h. ((filled, (lessons_iff s.lessons).0 e), (sections_iff ss).0 (ground arith)),
        λ h. ground (arith, (sections_iff ss).1 h.1),
      )
      | inr (x, e) ↦ (
        λ h. absurd (ground arith),
        λ h. absurd (ground (arith, (lessons_iff s.lessons).1 h.0.1)),
      )
    ]
  ]

  -- validateOutlineForSubmit returns no error exactly for an outline with at least one section,
  -- in each at least one lesson, in each at least one item, whose items all pass the check given.
  pub validate_outline_for_submit_iff :
      (outline : List Section)
      → (validate_outline_for_submit validate outline ≡ ok tt) ↔ IsValidOutline outline
  unfolding validate_outline_for_submit
  validate_outline_for_submit_iff outline = elim (Bool-cases (is_empty outline)) [
    | inl none_there ↦ (λ h. absurd (ground arith), λ h. absurd (ground (arith, h.0)))
    | inr filled ↦ (
      λ h. (filled, (sections_iff outline).0 (ground arith)),
      λ h. ground (arith, (sections_iff outline).1 h.1),
    )
  ]
