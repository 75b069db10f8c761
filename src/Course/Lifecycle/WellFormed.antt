-- ===== src/Course/Lifecycle/WellFormed.antt =====
-- What holds of the tables between two operations.
use be_mycourse.Shared.{◌≡◌, ap, ◌∙◌, ◌≢◌, some, List, [], ◌∷◌, Text, contains, map, true}
use be_mycourse.Shared.Every.{All, All-mono}
use be_mycourse.Course.Rows.{
  VersionStatus, CourseRow, CourseVersionRow, EnrollmentRow, Tables, version_by_id,
}
use be_mycourse.Course.Lifecycle.States.{IsOpen, IsLater, IsLater-approved}

-- The row of a version that stands for the course in a state.
pub record Names (vs : List CourseVersionRow) (version course : Text) (P : VersionStatus → Type 0)
    : Type 0 where
  pub row : CourseVersionRow
  pub listed : version_by_id version vs ≡ some row
  pub of_course : row.course_id ≡ course
  pub state : P row.status

abbrev pub IsApproved : VersionStatus → Type 0
IsApproved s = s ≡ VersionStatus.approved

-- The draft of a course is one of its versions under way, the published version an approved one.
pub record CourseIsSound (vs : List CourseVersionRow) (c : CourseRow) : Type 0 where
  pub drafts : (d : Text) → c.current_draft_version_id ≡ some d → Names vs d c.id IsOpen
  pub publishes : (p : Text) → c.current_published_version_id ≡ some p → Names vs p c.id IsApproved

-- A learner has an approved version of the course.
abbrev pub EnrollmentIsSound : List CourseVersionRow → EnrollmentRow → Type 0
EnrollmentIsSound vs e = Names vs e.current_version_id e.course_id IsApproved

abbrev pub OtherNumber : CourseVersionRow → CourseVersionRow → Type 0
OtherNumber v w = v.course_id ≡ w.course_id → v.version_no ≢ w.version_no

-- No two versions of a course have the same number.
abbrev pub HasDistinctNumbers : List CourseVersionRow → Type 0
HasDistinctNumbers [] = Unit {0}
HasDistinctNumbers (v ∷ vs) = All (OtherNumber v) vs × HasDistinctNumbers vs

abbrev pub course_ids : List CourseRow → List Text
course_ids cs = map (λ c. c.id) cs

abbrev pub IsOwned : List CourseRow → CourseVersionRow → Type 0
IsOwned cs v = contains v.course_id (course_ids cs) ≡ true

pub record AreSound (cs : List CourseRow) (vs : List CourseVersionRow) (es : List EnrollmentRow)
    : Type 0 where
  pub courses_sound : All (CourseIsSound vs) cs
  pub enrollments_sound : All (EnrollmentIsSound vs) es
  pub numbered : HasDistinctNumbers vs
  pub owned : All (IsOwned cs) vs

abbrev pub IsWellFormed : Tables → Type 0
IsWellFormed t = AreSound t.courses t.versions t.enrollments

-- What becomes of the versions in one operation: each is there, and is later.
abbrev pub Grows : List CourseVersionRow → List CourseVersionRow → Type 0
Grows vs ws =
    (id : Text) (v : CourseVersionRow)
    → version_by_id id vs ≡ some v
    → (w : CourseVersionRow) × (version_by_id id ws ≡ some w) × IsLater v w

module _ (vs ws : List CourseVersionRow) (g : Grows vs ws) where
  pub Names-IsApproved : (v c : Text) → Names vs v c IsApproved → Names ws v c IsApproved
  Names-IsApproved v c n =
      let (w, found, later) = g v n.row n.listed in
      record {
        row = w;
        listed = found;
        of_course = later.same_course ∙ n.of_course;
        state = IsLater-approved later n.state;
      }

  pub enrollments-grow :
      (es : List EnrollmentRow) → All (EnrollmentIsSound vs) es → All (EnrollmentIsSound ws) es
  enrollments-grow es h =
      All-mono (EnrollmentIsSound vs) (EnrollmentIsSound ws)
        (λ e n. Names-IsApproved e.current_version_id e.course_id n) es h

-- A version that is as it was keeps its name.
pub Names-same :
    (P : VersionStatus → Type 0) (vs ws : List CourseVersionRow) (v c : Text) (n : Names vs v c P)
    → version_by_id v ws ≡ some n.row
    → Names ws v c P
Names-same P vs ws v c n e = record {
  row = n.row;
  listed = e;
  of_course = n.of_course;
  state = n.state;
}

-- The versions stay those of known courses when the ids of the courses stay.
pub IsOwned-mono :
    (cs ds : List CourseRow) (vs : List CourseVersionRow)
    → course_ids ds ≡ course_ids cs
    → All (IsOwned cs) vs
    → All (IsOwned ds) vs
IsOwned-mono cs ds vs e h =
    All-mono (IsOwned cs) (IsOwned ds) (λ v k. ap (contains v.course_id) e ∙ k) vs h

-- What an operation from well-formed tables gives.
pub record IsSoundStep (t t' : Tables) : Type 0 where
  pub well_formed : IsWellFormed t'
  pub grows : Grows t.versions t'.versions
