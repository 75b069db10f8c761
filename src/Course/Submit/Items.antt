-- ===== src/Course/Submit/Items.antt =====
-- internal/course/infra/repo_versioning.go: validateSubLessonContent on the items of an outline.
use be_mycourse.Shared.{
  ◌≡◌, ◌≢◌, ◌≤◌, refl, sym, ◌∙◌, ◌⊎◌, inl, inr, Bool, true, false, ◌&&◌, not, Option, none, some,
  List, [], Text, codes, text_eq, text_eq→eq, trim, trim-trim, is_empty, leb, leb→le, if◌then◌else◌,
  Bool-cases, ok, guard, guard-ok, arith,
}
use be_mycourse.Shared.Every.{All, All-mono}
use be_mycourse.Course.Rows.{
  SubLessonRow, QuizContent, CourseError, course_preview_not_allowed_for_quiz,
  course_invalid_sub_lesson_kind, invalid_json,
}
use be_mycourse.Course.Environment.{Environment}
use be_mycourse.Course.Content.{
  is_blank, normalize_json, count_delta_non_whitespace, video, kind_video, kind_text, kind_quiz,
  validate_media_file, validate_video_sub_lesson, validate_text_sub_lesson,
  validate_quiz_sub_lesson, validate_by_kind, validate_sub_lesson_content,
}
use be_mycourse.Course.Content.Quiz.{IsSound, validate_quiz_sub_lesson_iff}
use be_mycourse.Course.Submit.{Lesson, Section, hydrate}
use be_mycourse.Course.Submit.Outline.{IsValidLesson, IsValidSection, IsValidOutline}
use be_mycourse.Course.Submit.Filled.{IsReady, blank→nil, validate_media_file-IsReady}

-- A video that names a file, which is a ready video.
pub record IsSoundVideo (env : Environment) (s : SubLessonRow) : Type 0 where
  pub is_video : s.kind ≡ codes "VIDEO"
  pub file : Text
  pub given : s.video ≡ some file
  pub named : trim file ≢ []
  pub ready : IsReady env video (trim file)

-- A text that is JSON and shows something.
pub record IsSoundText (env : Environment) (s : SubLessonRow) : Type 0 where
  pub is_text : s.kind ≡ codes "TEXT"
  pub delta : Text
  pub given : s.text ≡ some delta
  pub json : env.is_json (if is_empty (trim delta) then codes "[]" else delta) ≡ true
  pub visible :
      1 ≤ count_delta_non_whitespace env (if is_empty (trim delta) then codes "[]" else delta)

-- A sound quiz that is no preview.
pub record IsSoundQuiz (s : SubLessonRow) : Type 0 where
  pub is_quiz : s.kind ≡ codes "QUIZ"
  pub quiz : QuizContent
  pub given : s.quiz ≡ some quiz
  pub sound : IsSound quiz
  pub no_preview : s.is_preview ≡ false

abbrev pub IsSoundItem : Environment → SubLessonRow → Type 0
IsSoundItem env s = IsSoundVideo env s ⊎ (IsSoundText env s ⊎ IsSoundQuiz s)

abbrev pub IsSoundLesson : Environment → Lesson → Type 0
IsSoundLesson env l = (is_empty l.sub_lessons ≡ false) × All (IsSoundItem env) l.sub_lessons

abbrev pub IsSoundSection : Environment → Section → Type 0
IsSoundSection env s = (is_empty s.lessons ≡ false) × All (IsSoundLesson env) s.lessons

-- At least one section, in each at least one lesson, in each at least one item, and all sound.
abbrev pub IsSoundOutline : Environment → List Section → Type 0
IsSoundOutline env outline = (is_empty outline ≡ false) × All (IsSoundSection env) outline

guard-true : (b : Bool) (e : CourseError) → guard b e ≡ ok tt → b ≡ true
guard-true true e h = refl
guard-true false e h = absurd cc

-- The detail that `hydrate` reads only for one kind.
read_for :
    {A : Type 0} (kind wanted : Text) (o : Option A) {a : A}
    → (if text_eq kind wanted then o else none) ≡ some a
    → (kind ≡ wanted) × (o ≡ some a)
read_for kind wanted o h = elim (Bool-cases (text_eq kind wanted)) [
  | inl e ↦ (text_eq→eq kind wanted e, rw e at h)
  | inr e ↦ let none_read = rw e at h in absurd cc
]

video_sound :
    (env : Environment) (s : SubLessonRow) (o : Option Text)
    → (if text_eq s.kind kind_video then s.video else none) ≡ o
    → validate_video_sub_lesson env o ≡ ok tt
    → IsSoundVideo env s
unfolding validate_video_sub_lesson
video_sound env s none r h = absurd cc
video_sound env s (some file) r h =
    let (kind, given) = read_for s.kind kind_video s.video r in
    let (named, fits) =
      guard-ok (not (is_blank file)) course_invalid_sub_lesson_kind
        (validate_media_file env (some (trim file)) video) h in
    let filled = blank→nil (trim file) (ground arith) in
    record {
      is_video = kind;
      file = file;
      given = given;
      named = filled;
      ready =
          validate_media_file-IsReady env (some (trim file)) video (trim file) fits refl
            (λ e. filled (sym (trim-trim file) ∙ e));
    }

text_sound :
    (env : Environment) (s : SubLessonRow) (o : Option Text)
    → (if text_eq s.kind kind_text then s.text else none) ≡ o
    → validate_text_sub_lesson env o ≡ ok tt
    → IsSoundText env s
unfolding validate_text_sub_lesson
text_sound env s none r h = absurd cc
text_sound env s (some delta) r h =
    let (kind, given) = read_for s.kind kind_text s.text r in
    let content = normalize_json delta (codes "[]") in
    let (json, rest) = guard-ok (env.is_json content) invalid_json _ h in
    record {
      is_text = kind;
      delta = delta;
      given = given;
      json = json;
      visible = leb→le 1 (count_delta_non_whitespace env content) (
          guard-true (leb 1 (count_delta_non_whitespace env content)) course_invalid_sub_lesson_kind
            rest);
    }

quiz_sound :
    (s : SubLessonRow) (o : Option QuizContent)
    → (if text_eq s.kind kind_quiz then s.quiz else none) ≡ o
    → s.is_preview ≡ false
    → validate_quiz_sub_lesson o ≡ ok tt
    → IsSoundQuiz s
quiz_sound s none r p h = absurd (unfold validate_quiz_sub_lesson in cc)
quiz_sound s (some quiz) r p h =
    let (kind, given) = read_for s.kind kind_quiz s.quiz r in
    record {
      is_quiz = kind;
      quiz = quiz;
      given = given;
      sound = (validate_quiz_sub_lesson_iff quiz).0 h;
      no_preview = p;
    }

item_sound :
    (env : Environment) (s : SubLessonRow)
    → validate_sub_lesson_content env (hydrate s) ≡ ok tt
    → IsSoundItem env s
unfolding validate_sub_lesson_content validate_by_kind
item_sound env s h =
    let kind = env.to_upper (trim s.kind) in
    let (free, h₁) =
      guard-ok (not (text_eq kind kind_quiz && s.is_preview)) course_preview_not_allowed_for_quiz
        (validate_by_kind env kind (hydrate s)) h in
    elim (Bool-cases (text_eq kind kind_video)) [
      | inl v ↦ inl (video_sound env s _ refl (rw (v, validate_by_kind) at h₁))
      | inr v ↦ elim (Bool-cases (text_eq kind kind_text)) [
        | inl t ↦ inr (inl (text_sound env s _ refl (rw (v, t, validate_by_kind) at h₁)))
        | inr t ↦ elim (Bool-cases (text_eq kind kind_quiz)) [
          | inl q ↦ inr (
              inr (
                quiz_sound s _ refl (no_preview_of (text_eq kind kind_quiz) s.is_preview q free)
                  (rw (v, t, q, validate_by_kind) at h₁)))
          | inr q ↦ let r = rw (v, t, q, validate_by_kind) at h₁ in absurd cc
        ]
      ]
    ]
  where
    no_preview_of : (a b : Bool) → a ≡ true → not (a && b) ≡ true → b ≡ false
    no_preview_of a b h k = ground arith

pub IsValidOutline-IsSoundOutline :
    (env : Environment) (outline : List Section)
    → IsValidOutline (λ s. validate_sub_lesson_content env (hydrate s)) outline
    → IsSoundOutline env outline
IsValidOutline-IsSoundOutline env outline (filled, sections) = (
  filled,
  All-mono (IsValidSection (λ s. validate_sub_lesson_content env (hydrate s))) (IsSoundSection env)
      (λ s v. (
        v.0,
        All-mono (IsValidLesson (λ s. validate_sub_lesson_content env (hydrate s)))
            (IsSoundLesson env)
            (λ l w.
              (w.0, All-mono _ (IsSoundItem env) (λ i k. item_sound env i k) l.sub_lessons w.1))
            s.lessons v.1,
      ))
      outline sections,
)
