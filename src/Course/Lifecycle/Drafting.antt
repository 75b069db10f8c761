-- ===== src/Course/Lifecycle/Drafting.antt =====
-- internal/course/infra/repo_versioning.go: a new draft, and the tables that it is added to.
use be_mycourse.Shared.{
  ◌≡◌, refl, sym, ap, subst, ◌∙◌, inl, inr, true, false, Option, some, List, [], ◌∷◌, ◌++◌, Text,
  text_eq, text_eq→eq, text_eq_refl, contains, Bool-cases, ok, >>=-ok, ok-injective, arith,
}
use be_mycourse.Shared.Every.{All, All-append, All-mono}
use be_mycourse.Course.Rows.{
  VersionStatus, CourseRow, CourseVersionRow, Tables, version_by_id, course_by_id, first_row,
  update_where,
}
use be_mycourse.Course.Rows.Lookup.{All-update_where, map-update_where}
use be_mycourse.Course.Environment.{Environment}
use be_mycourse.Course.Drafts.{create_next_draft_version, start_draft, point_to_draft}
use be_mycourse.Course.Lifecycle.States.{IsOpen, is_draft}
use be_mycourse.Course.Lifecycle.WellFormed.{
  Names, IsApproved, CourseIsSound, EnrollmentIsSound, IsSoundStep, HasDistinctNumbers,
  IsWellFormed, Grows, IsOwned, course_ids, enrollments-grow, Names-same, IsOwned-mono,
}
use be_mycourse.Course.Lifecycle.Kept.{
  Grows-append, Grows-refl, version_by_id-fresh, version_by_id-append, next-HasDistinctNumbers,
}
use be_mycourse.Course.Lifecycle.Inversion.{Drafted, create_next_draft_version-ok}

-- Sound, but for the draft of the course `id`.
pub record IsSoundBut (id : Text) (vs : List CourseVersionRow) (c : CourseRow) : Type 0 where
  pub drafts :
      text_eq c.id id ≡ false
      → (d : Text) → c.current_draft_version_id ≡ some d
      → Names vs d c.id IsOpen
  pub publishes : (p : Text) → c.current_published_version_id ≡ some p → Names vs p c.id IsApproved

pub record IsWellFormedBut (id : Text) (t : Tables) : Type 0 where
  pub courses_sound : All (IsSoundBut id t.versions) t.courses
  pub enrollments_sound : All (EnrollmentIsSound t.versions) t.enrollments
  pub numbered : HasDistinctNumbers t.versions
  pub owned : All (IsOwned t.courses) t.versions
  pub there : contains id (course_ids t.courses) ≡ true

Names-append :
    (P : VersionStatus → Type 0) (vs ds : List CourseVersionRow) (v c : Text)
    → Names vs v c P
    → Names (vs ++ ds) v c P
Names-append P vs ds v c n =
    Names-same P vs (vs ++ ds) v c n (version_by_id-append v vs ds n.listed)

IsOpen-of_draft : {s : VersionStatus} → s ≡ VersionStatus.draft → IsOpen s
IsOpen-of_draft e = rw e is_draft

module _ (env : Environment) (t created : Tables) (id : Text) (d : Drafted env t id created)
    (h : IsWellFormedBut id t) where
  named_draft : (c : Text) → c ≡ id → Names created.versions env.new_id c IsOpen
  named_draft c e = record {
    row = d.row;
    listed = rw (d.appended, ← d.named) (version_by_id-fresh t.versions d.row d.fresh);
    of_course = d.of_course ∙ sym e;
    state = IsOpen-of_draft d.is_draft_row;
  }

  later_names :
      (P : VersionStatus → Type 0) (v c : Text)
      → Names t.versions v c P
      → Names created.versions v c P
  later_names P v c n = rw (d.appended) (Names-append P t.versions (d.row ∷ []) v c n)

  pub pointed-Grows : Grows t.versions (point_to_draft env id created).versions
  pointed-Grows =
      rw (d.appended) (Grows-append t.versions t.versions (d.row ∷ []) (Grows-refl t.versions))

  pub pointed-IsWellFormed : IsWellFormed (point_to_draft env id created)
  pointed-IsWellFormed = record {
    courses_sound = rw (d.same_courses) (
        All-update_where (IsSoundBut id t.versions) (CourseIsSound created.versions)
          (λ c. text_eq c.id id)
          (λ c. record c { current_draft_version_id = some env.new_id; updated_at = env.now })
          (λ c hit s. record {
            drafts = λ v e.
                let same : env.new_id ≡ v = ground arith in
                rw (← same) (named_draft c.id (text_eq→eq c.id id hit));
            publishes = λ p e. later_names IsApproved p c.id (s.publishes p e);
          })
          (λ c miss s. record {
            drafts = λ v e. later_names IsOpen v c.id (s.drafts miss v e);
            publishes = λ p e. later_names IsApproved p c.id (s.publishes p e);
          })
          t.courses h.courses_sound);
    enrollments_sound = rw (d.same_enrollments) (
        enrollments-grow t.versions created.versions pointed-Grows t.enrollments
          h.enrollments_sound);
    numbered =
        rw (d.appended)
          (next-HasDistinctNumbers t.versions d.row (rw (d.of_course) d.numbered) h.numbered);
    owned =
        rw (d.same_courses, d.appended)
          (IsOwned-mono t.courses
            (update_where (λ c. text_eq c.id id)
              (λ c. record c { current_draft_version_id = some env.new_id; updated_at = env.now })
              t.courses)
            (t.versions ++ d.row ∷ [])
            (map-update_where (λ (c : CourseRow). c.id) (λ c. text_eq c.id id)
              (λ c. record c { current_draft_version_id = some env.new_id; updated_at = env.now })
              (λ c. refl) t.courses)
            (All-append (IsOwned t.courses) t.versions (d.row ∷ []) h.owned
              (rw (d.of_course) h.there, tt)));
  }

-- A course that is listed has its id there.
pub listed_id :
    (id : Text) (cs : List CourseRow) {c : CourseRow}
    → course_by_id id cs ≡ some c
    → (c.id ≡ id) × (contains id (course_ids cs) ≡ true)
unfolding course_by_id first_row contains
listed_id id [] h = cc
listed_id id (x ∷ cs) {c} h = elim (Bool-cases (text_eq x.id id)) [
  | inl hit ↦
      let same : x ≡ c = ground arith in
      (rw (← same) (text_eq→eq x.id id hit), ground (arith, text_eq→eq x.id id, text_eq_refl id))
  | inr miss ↦ let (a, b) = listed_id id cs {c = c} (ground arith) in (a, ground arith)
]

-- Tables that are well formed are so but for one course.
pub well_formed_but :
    (id : Text) (t : Tables)
    → IsWellFormed t
    → contains id (course_ids t.courses) ≡ true
    → IsWellFormedBut id t
well_formed_but id t h there = record {
  courses_sound =
      All-mono (CourseIsSound t.versions) (IsSoundBut id t.versions)
        (λ c s. record { drafts = λ other. s.drafts; publishes = s.publishes }) t.courses
        h.courses_sound;
  enrollments_sound = h.enrollments_sound;
  numbered = h.numbered;
  owned = h.owned;
  there = there;
}

-- What a draft that is started has done.
pub start_draft-ok :
    (env : Environment) (t : Tables) (course : CourseRow) (from : Option Text) {t' : Tables}
    → start_draft env t course from ≡ ok t'
    → (created : Tables) × Drafted env t course.id created
      × (point_to_draft env course.id created ≡ t')
unfolding start_draft
start_draft-ok env t course from {t'} e =
    let (created, made, last) = >>=-ok (create_next_draft_version env t course.id from) _ e in
    (created, create_next_draft_version-ok env t course.id from made, ok-injective last)

-- A draft that is started from tables that are well formed but for the course.
pub start_draft-IsSoundStep :
    (env : Environment) (t : Tables) (course : CourseRow) (from : Option Text) {t' : Tables}
    → IsWellFormedBut course.id t
    → start_draft env t course from ≡ ok t'
    → IsSoundStep t t'
start_draft-IsSoundStep env t course from {t'} h e =
    let (created, d, same) = start_draft-ok env t course from e in
    subst (IsSoundStep t) same (record {
      well_formed = pointed-IsWellFormed env t created course.id d h;
      grows = pointed-Grows env t created course.id d h;
    })

-- The versions after it: those that were there, and the draft, which is found by the new id.
pub start_draft-appends :
    (env : Environment) (t : Tables) (course : CourseRow) (from : Option Text) {t' : Tables}
    → start_draft env t course from ≡ ok t'
    → (d : CourseVersionRow) × (t'.versions ≡ t.versions ++ d ∷ [])
      × (version_by_id env.new_id t'.versions ≡ some d)
      × (d.status ≡ VersionStatus.draft)
start_draft-appends env t course from {t'} e =
    let (created, d, same) = start_draft-ok env t course from e in
    let appended : t'.versions ≡ t.versions ++ d.row ∷ [] =
      ap (λ (x : Tables). x.versions) (sym same) ∙ d.appended in
    (
      d.row,
      appended,
      rw (appended, ← d.named) (version_by_id-fresh t.versions d.row d.fresh),
      d.is_draft_row,
    )
