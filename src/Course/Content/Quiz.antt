-- ===== src/Course/Content/Quiz.antt =====
-- internal/course/infra/repo_versioning.go: validateQuizSubLesson.
use be_mycourse.Shared.{
  ℕ, suc, ◌+◌, ◌≡◌, refl, ◌↔◌, Bool-cases, inl, inr, false, some, List, [], ◌∷◌, ◌<◌, ◌≤◌, length,
  keep, is_empty, ok, arith, Result-cases,
}
use be_mycourse.Shared.Every.{All}
use be_mycourse.Course.Rows.{QuizOption, QuizContent}
use be_mycourse.Course.Content.{is_blank, count_options, validate_quiz_sub_lesson}

abbrev pub correct_options : List QuizOption → ℕ
correct_options options = length (keep (λ o. o.is_correct) options)

abbrev pub HasBodies : List QuizOption → Type 0
HasBodies options = All (λ (o : QuizOption). is_blank o.body ≡ false) options

-- A prompt, options that all have a body, and a correct one, the only one unless several may be.
pub record IsSound (quiz : QuizContent) : Type 0 where
  pub prompted : is_blank quiz.prompt ≡ false
  pub bodies : HasBodies quiz.options
  pub answerable : 0 < correct_options quiz.options
  pub single : quiz.allow_multiple ≡ false → correct_options quiz.options ≤ 1

count_options-ok :
    (n : ℕ) (options : List QuizOption) (m : ℕ)
    → count_options n options ≡ ok m
    → HasBodies options × (m ≡ n + correct_options options)
unfolding count_options keep
count_options-ok n [] m h = (tt, ground arith)
count_options-ok n (o ∷ options) m h = elim (Bool-cases (is_blank o.body)) [
  | inl blank ↦ absurd (ground arith)
  | inr body ↦ elim (Bool-cases o.is_correct) [
    | inl correct ↦
        let rest = count_options-ok (suc n) options m (ground arith) in
        ((body, rest.0), ground (arith, rest.1))
    | inr wrong ↦
        let rest = count_options-ok n options m (ground arith) in
        ((body, rest.0), ground (arith, rest.1))
  ]
]

count_options-all :
    (n : ℕ) (options : List QuizOption)
    → HasBodies options
    → count_options n options ≡ ok (n + correct_options options)
unfolding count_options keep
count_options-all n [] h = ground arith
count_options-all n (o ∷ options) h = elim (Bool-cases o.is_correct) [
  | inl correct ↦ ground (arith, h.0, count_options-all (suc n) options h.1)
  | inr wrong ↦ ground (arith, h.0, count_options-all n options h.1)
]

answerable_options :
    (options : List QuizOption) → 0 < correct_options options → is_empty options ≡ false
unfolding keep
answerable_options [] h = absurd (omega arith)
answerable_options (o ∷ options) h = refl

sound : (quiz : QuizContent) → validate_quiz_sub_lesson (some quiz) ≡ ok tt → IsSound quiz
unfolding validate_quiz_sub_lesson
sound quiz h = elim (Result-cases (count_options 0 quiz.options)) [
  | inl (m, e) ↦
      let found : HasBodies quiz.options × (m ≡ 0 + correct_options quiz.options) =
        count_options-ok 0 quiz.options m e in
      record {
        prompted = ground arith;
        bodies = found.0;
        answerable = ground (arith, found.1);
        single = λ one. ground (arith, found.1);
      }
  | inr (x, e) ↦ absurd (ground arith)
]

-- A quiz passes exactly when it is sound.
pub validate_quiz_sub_lesson_iff :
    (quiz : QuizContent) → (validate_quiz_sub_lesson (some quiz) ≡ ok tt) ↔ IsSound quiz
unfolding validate_quiz_sub_lesson
validate_quiz_sub_lesson_iff quiz = (
  sound quiz,
  λ s. ground (
    arith,
    s.prompted,
    s.answerable,
    s.single,
    count_options-all 0 quiz.options s.bodies,
    answerable_options quiz.options s.answerable,
  ),
)
