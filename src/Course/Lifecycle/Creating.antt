-- ===== src/Course/Lifecycle/Creating.antt =====
-- internal/course/infra/repo_instructor.go: creating a course.
use be_mycourse.Shared.{
  ◌+◌, ◌≡◌, refl, sym, ap, ap₂, subst, ◌∙◌, inl, inr, true, false, List, [], ◌∷◌, ◌++◌, Text,
  text_eq, text_eq→eq, text_eq_refl, contains, contains-append, not, trim, Bool-cases, ok, >>=-ok,
  guard-ok, ok-injective, arith,
}
use mathlib.Core.List.{map-append}
use be_mycourse.Shared.Every.{All, All-append, All-mono}
use be_mycourse.Course.Rows.{CourseRow, CourseVersionRow, Tables, duplicate_key, create}
use be_mycourse.Course.Rows.Lookup.{create-ok}
use be_mycourse.Course.Environment.{Environment}
use be_mycourse.Course.Drafts.{max_version, new_version, point_to_draft}
use be_mycourse.Course.Lifecycle.{slug_taken, new_course, create_course}
use be_mycourse.Course.Lifecycle.WellFormed.{
  CourseIsSound, IsWellFormed, IsSoundStep, IsOwned, course_ids,
}
use be_mycourse.Course.Lifecycle.Inversion.{Drafted}
use be_mycourse.Course.Lifecycle.Drafting.{
  IsSoundBut, IsWellFormedBut, pointed-IsWellFormed, pointed-Grows,
}

-- No version stands under an id that is new.
max_version-none :
    (id : Text) (cs : List CourseRow) (vs : List CourseVersionRow)
    → contains id (course_ids cs) ≡ false
    → All (IsOwned cs) vs
    → max_version id vs ≡ 0
unfolding max_version
max_version-none id cs [] fresh h = refl
max_version-none id cs (v ∷ vs) fresh h = elim (Bool-cases (text_eq v.course_id id)) [
  | inl hit ↦
      let key : v.course_id ≡ id = text_eq→eq v.course_id id hit in
      let here : contains id (course_ids cs) ≡ true =
        subst (λ a. contains a (course_ids cs) ≡ true) key h.0 in
      absurd (ground arith)
  | inr miss ↦ ground (arith, max_version-none id cs vs fresh h.1)
]

module _ (env : Environment) (t : Tables) (id actor slug title : Text) (h : IsWellFormed t) where
  abbrev first_version : CourseVersionRow
  first_version = record (new_version env id 1) { title = trim title }

  abbrev listed_courses : List CourseRow
  listed_courses = t.courses ++ new_course env id actor slug ∷ []

  known :
      (a : Text)
      → contains a (course_ids t.courses) ≡ true
      → contains a (course_ids listed_courses) ≡ true
  known a k =
      rw
        (
          map-append (λ (c : CourseRow). c.id) t.courses (new_course env id actor slug ∷ []),
          contains-append a (course_ids t.courses) (id ∷ []),
          k,
        )
        refl

  created_but : IsWellFormedBut id (record t { courses = listed_courses })
  unfolding contains
  created_but = record {
    courses_sound =
        All-append (IsSoundBut id t.versions) t.courses (new_course env id actor slug ∷ [])
          (All-mono (CourseIsSound t.versions) (IsSoundBut id t.versions)
            (λ c s. record { drafts = λ other. s.drafts; publishes = s.publishes }) t.courses
            h.courses_sound)
          (record { drafts = λ other d e. cc; publishes = λ p e. cc }, tt);
    enrollments_sound = h.enrollments_sound;
    numbered = h.numbered;
    owned =
        All-mono (IsOwned t.courses) (IsOwned listed_courses) (λ v k. known v.course_id k)
          t.versions h.owned;
    there =
        rw
          (
            map-append (λ (c : CourseRow). c.id) t.courses (new_course env id actor slug ∷ []),
            contains-append id (course_ids t.courses) (id ∷ []),
          )
          (ground (arith, text_eq_refl id));
  }

  pub create_course-IsSoundStep :
      {t' : Tables} → create_course env t id actor slug title ≡ ok t' → IsSoundStep t t'
  unfolding create_course
  create_course-IsSoundStep {t'} e =
      let (free, h₁) = guard-ok (not (slug_taken slug t.courses)) duplicate_key _ e in
      let (courses, added, h₂) =
        >>=-ok (create (λ c. c.id) (new_course env id actor slug) t.courses) _ h₁ in
      let (versions, made, h₃) = >>=-ok (create (λ v. v.id) first_version t.versions) _ h₂ in
      let (new_id, courses_are) =
        create-ok (λ (c : CourseRow). c.id) (new_course env id actor slug) t.courses added in
      let (fresh, versions_are) =
        create-ok (λ (v : CourseVersionRow). v.id) first_version t.versions made in
      let created : Tables = record t {
        courses = listed_courses;
        versions = t.versions ++ first_version ∷ [];
      } in
      let d : Drafted env (record t { courses = listed_courses }) id created = record {
        row = first_version;
        appended = refl;
        fresh = fresh;
        named = refl;
        of_course = refl;
        numbered = ap (λ n. n + 1) (sym (max_version-none id t.courses t.versions new_id h.owned));
        is_draft_row = refl;
        same_courses = refl;
        same_enrollments = refl;
      } in
      let same : point_to_draft env id created ≡ t' =
        ap₂ (λ cs vs. point_to_draft env id (record t { courses = cs; versions = vs }))
          (sym courses_are) (sym versions_are)
        ∙ ok-injective h₃ in
      subst (IsSoundStep t) same (record {
        well_formed =
            pointed-IsWellFormed env (record t { courses = listed_courses }) created id d
              created_but;
        grows = pointed-Grows env (record t { courses = listed_courses }) created id d created_but;
      })
