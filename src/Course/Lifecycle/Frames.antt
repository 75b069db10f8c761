-- ===== src/Course/Lifecycle/Frames.antt =====
-- Updates that leave what a well-formed table is about.
use be_mycourse.Shared.{◌≡◌, sym, ◌∙◌, inl, inr, Bool, true, some, List, Text, Bool-cases}
use be_mycourse.Shared.Every.{All, All-mono}
use be_mycourse.Course.Rows.{
  CourseRow, CourseVersionRow, EnrollmentRow, version_by_id, update_where,
}
use be_mycourse.Course.Rows.Lookup.{All-update_where, map-update_where}
use be_mycourse.Course.Lifecycle.States.{IsOpen, IsLater}
use be_mycourse.Course.Lifecycle.WellFormed.{
  Names, CourseIsSound, EnrollmentIsSound, HasDistinctNumbers, AreSound, Grows, IsOwned,
  Names-IsApproved, enrollments-grow, IsOwned-mono,
}
use be_mycourse.Course.Lifecycle.Kept.{
  update_where-Grows, version_by_id-hit, version_by_id-missed, update_where-HasDistinctNumbers,
}

-- An update of courses that keeps the ids and the pointers.
pub touch_courses :
    {vs : List CourseVersionRow} {es : List EnrollmentRow} (p : CourseRow → Bool)
    (f : CourseRow → CourseRow) (cs : List CourseRow)
    → ((c : CourseRow) → (f c).id ≡ c.id)
    → ((c : CourseRow) → (f c).current_draft_version_id ≡ c.current_draft_version_id)
    → ((c : CourseRow) → (f c).current_published_version_id ≡ c.current_published_version_id)
    → AreSound cs vs es
    → AreSound (update_where p f cs) vs es
touch_courses {vs} {es} p f cs same_id same_draft same_published h = record {
  courses_sound =
      All-update_where (CourseIsSound vs) (CourseIsSound vs) p f
        (λ c hit s. record {
          drafts = λ d e. rw (same_id c) (s.drafts d (sym (same_draft c) ∙ e));
          publishes = λ v e. rw (same_id c) (s.publishes v (sym (same_published c) ∙ e));
        })
        (λ c miss s. s) cs h.courses_sound;
  enrollments_sound = h.enrollments_sound;
  numbered = h.numbered;
  owned =
      IsOwned-mono cs (update_where p f cs) vs
        (map-update_where (λ (c : CourseRow). c.id) p f same_id cs) h.owned;
}

-- An update of enrollments that keeps the course and the version.
pub touch_enrollments :
    {cs : List CourseRow} {vs : List CourseVersionRow} (p : EnrollmentRow → Bool)
    (f : EnrollmentRow → EnrollmentRow) (es : List EnrollmentRow)
    → ((e : EnrollmentRow) → (f e).course_id ≡ e.course_id)
    → ((e : EnrollmentRow) → (f e).current_version_id ≡ e.current_version_id)
    → AreSound cs vs es
    → AreSound cs vs (update_where p f es)
touch_enrollments {cs} {vs} p f es same_course same_version h = record {
  courses_sound = h.courses_sound;
  enrollments_sound =
      All-update_where (EnrollmentIsSound vs) (EnrollmentIsSound vs) p f
        (λ e hit s. rw (same_course e, same_version e) s) (λ e miss s. s) es h.enrollments_sound;
  numbered = h.numbered;
  owned = h.owned;
}

-- An update of versions that keeps the ids, the courses and the numbers, moves each row that it
-- finds on as it may, and leaves open what is open.
module _ (p : CourseVersionRow → Bool) (f : CourseVersionRow → CourseVersionRow)
    (vs : List CourseVersionRow) (same_id : (v : CourseVersionRow) → (f v).id ≡ v.id)
    (same_course : (v : CourseVersionRow) → (f v).course_id ≡ v.course_id)
    (same_number : (v : CourseVersionRow) → (f v).version_no ≡ v.version_no)
    (later : (id : Text) (v : CourseVersionRow)
      → version_by_id id vs ≡ some v
      → p v ≡ true
      → IsLater v (f v)) where
  pub moved-Grows : Grows vs (update_where p f vs)
  moved-Grows = update_where-Grows p f same_id vs later

  moved_draft :
      (stays : (id : Text) (v : CourseVersionRow)
        → version_by_id id vs ≡ some v
        → p v ≡ true
        → IsOpen v.status
        → IsOpen (f v).status)
      (v c : Text)
      → Names vs v c IsOpen
      → Names (update_where p f vs) v c IsOpen
  moved_draft stays v c n = elim (Bool-cases (p n.row)) [
    | inl hit ↦ record {
      row = f n.row;
      listed = version_by_id-hit p f same_id v vs n.row n.listed hit;
      of_course = same_course n.row ∙ n.of_course;
      state = stays v n.row n.listed hit n.state;
    }
    | inr miss ↦ record {
      row = n.row;
      listed = version_by_id-missed p f same_id v vs n.row n.listed miss;
      of_course = n.of_course;
      state = n.state;
    }
  ]

  pub moved-IsOwned :
      (cs : List CourseRow) → All (IsOwned cs) vs → All (IsOwned cs) (update_where p f vs)
  moved-IsOwned cs h =
      All-update_where (IsOwned cs) (IsOwned cs) p f (λ v hit k. rw (same_course v) k)
        (λ v miss k. k) vs h

  pub moved-numbered : HasDistinctNumbers vs → HasDistinctNumbers (update_where p f vs)
  moved-numbered h = update_where-HasDistinctNumbers p f same_id same_course same_number vs h

  pub move_versions :
      {cs : List CourseRow} {es : List EnrollmentRow}
      → ((id : Text) (v : CourseVersionRow)
          → version_by_id id vs ≡ some v
          → p v ≡ true
          → IsOpen v.status
          → IsOpen (f v).status)
      → AreSound cs vs es
      → AreSound cs (update_where p f vs) es
  move_versions {cs} {es} stays h = record {
    courses_sound =
        All-mono (CourseIsSound vs) (CourseIsSound (update_where p f vs))
          (λ c s. record {
            drafts = λ d e. moved_draft stays d c.id (s.drafts d e);
            publishes = λ v e.
                Names-IsApproved vs (update_where p f vs) moved-Grows v c.id (s.publishes v e);
          })
          cs h.courses_sound;
    enrollments_sound =
        enrollments-grow vs (update_where p f vs) moved-Grows es h.enrollments_sound;
    numbered = moved-numbered h.numbered;
    owned = moved-IsOwned cs h.owned;
  }
