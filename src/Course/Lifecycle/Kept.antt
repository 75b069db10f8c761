-- ===== src/Course/Lifecycle/Kept.antt =====
-- What an update of the versions and a new version leave of a well-formed table.
use be_mycourse.Shared.{
  ◌≤◌, ◌+◌, ◌≡◌, refl, sym, ◌∙◌, inl, inr, Bool, true, false, some, List, [], ◌∷◌, ◌++◌, Text,
  text_eq, text_eq→eq, eq→text_eq, contains, map, Bool-cases, arith,
}
use be_mycourse.Shared.Every.{All, All-append, All-mono}
use be_mycourse.Course.Rows.{CourseVersionRow, version_by_id, update_where}
use be_mycourse.Course.Rows.Lookup.{
  updated, map_option, first_row-passes, first_row-update_where, first_row-append, first_row-fresh,
}
use be_mycourse.Course.Drafts.{max_version}
use be_mycourse.Course.Lifecycle.States.{IsLater, unchanged}
use be_mycourse.Course.Lifecycle.WellFormed.{OtherNumber, HasDistinctNumbers, Grows}

-- The row that is found by an id has it.
pub version_by_id-id :
    (id : Text) (vs : List CourseVersionRow) {v : CourseVersionRow}
    → version_by_id id vs ≡ some v
    → v.id ≡ id
unfolding version_by_id
version_by_id-id id vs {v} h = text_eq→eq v.id id (first_row-passes (λ w. text_eq w.id id) vs h)

module _ (p : CourseVersionRow → Bool) (f : CourseVersionRow → CourseVersionRow)
    (same_id : (v : CourseVersionRow) → (f v).id ≡ v.id) where
  pub version_by_id-update_where :
      (id : Text) (vs : List CourseVersionRow)
      → version_by_id id (update_where p f vs) ≡ map_option (updated p f) (version_by_id id vs)
  unfolding version_by_id
  version_by_id-update_where id vs =
      first_row-update_where (λ v. text_eq v.id id) p f
        (λ v. elim (Bool-cases (p v)) [ inl t ↦ rw (t, same_id v) refl | inr t ↦ rw (t) refl ]) vs

  pub update_where-Grows :
      (vs : List CourseVersionRow)
      → ((id : Text) (v : CourseVersionRow)
          → version_by_id id vs ≡ some v
          → p v ≡ true
          → IsLater v (f v))
      → Grows vs (update_where p f vs)
  update_where-Grows vs h id v found = elim (Bool-cases (p v)) [
    | inl t ↦ (f v, rw (version_by_id-update_where id vs, found) (rw t refl), h id v found t)
    | inr t ↦ (v, rw (version_by_id-update_where id vs, found) (rw t refl), unchanged v)
  ]

  -- A row that the test leaves out stays.
  pub version_by_id-missed :
      (id : Text) (vs : List CourseVersionRow) (v : CourseVersionRow)
      → version_by_id id vs ≡ some v
      → p v ≡ false
      → version_by_id id (update_where p f vs) ≡ some v
  version_by_id-missed id vs v found t = rw (version_by_id-update_where id vs, found) (rw t refl)

  pub version_by_id-hit :
      (id : Text) (vs : List CourseVersionRow) (v : CourseVersionRow)
      → version_by_id id vs ≡ some v
      → p v ≡ true
      → version_by_id id (update_where p f vs) ≡ some (f v)
  version_by_id-hit id vs v found t = rw (version_by_id-update_where id vs, found) (rw t refl)

  module _ (same_course : (v : CourseVersionRow) → (f v).course_id ≡ v.course_id)
      (same_number : (v : CourseVersionRow) → (f v).version_no ≡ v.version_no) where
    number_updated : (v w : CourseVersionRow) → OtherNumber v w → OtherNumber v (updated p f w)
    number_updated v w h = elim (Bool-cases (p w)) [
      | inl t ↦ rw (t) (λ e n. h (e ∙ same_course w) (n ∙ same_number w))
      | inr t ↦ rw (t) h
    ]

    number_updated_first :
        (v w : CourseVersionRow) → OtherNumber v w → OtherNumber (updated p f v) w
    number_updated_first v w h = elim (Bool-cases (p v)) [
      | inl t ↦ rw (t) (λ e n. h (sym (same_course v) ∙ e) (sym (same_number v) ∙ n))
      | inr t ↦ rw (t) h
    ]

    others_updated :
        (v : CourseVersionRow) (vs : List CourseVersionRow)
        → All (OtherNumber v) vs
        → All (OtherNumber (updated p f v)) (update_where p f vs)
    unfolding update_where
    others_updated v [] h = tt
    others_updated v (w ∷ vs) h =
        (number_updated_first v (updated p f w) (number_updated v w h.0), others_updated v vs h.1)

    pub update_where-HasDistinctNumbers :
        (vs : List CourseVersionRow)
        → HasDistinctNumbers vs
        → HasDistinctNumbers (update_where p f vs)
    unfolding update_where
    update_where-HasDistinctNumbers [] h = tt
    update_where-HasDistinctNumbers (v ∷ vs) h =
        (others_updated v vs h.0, update_where-HasDistinctNumbers vs h.1)

pub Grows-append : (vs ws ds : List CourseVersionRow) → Grows vs ws → Grows vs (ws ++ ds)
unfolding version_by_id
Grows-append vs ws ds g id v found =
    let (w, there, later) = g id v found in
    (w, first_row-append (λ x. text_eq x.id id) ws ds there, later)

pub Grows-refl : (vs : List CourseVersionRow) → Grows vs vs
Grows-refl vs id v found = (v, found, unchanged v)

pub version_by_id-fresh :
    (vs : List CourseVersionRow) (d : CourseVersionRow)
    → contains d.id (map (λ v. v.id) vs) ≡ false
    → version_by_id d.id (vs ++ d ∷ []) ≡ some d
unfolding version_by_id
version_by_id-fresh vs d h = first_row-fresh (λ v. v.id) vs d h

pub version_by_id-append :
    (id : Text) (vs ds : List CourseVersionRow) {v : CourseVersionRow}
    → version_by_id id vs ≡ some v
    → version_by_id id (vs ++ ds) ≡ some v
unfolding version_by_id
version_by_id-append id vs ds h = first_row-append (λ x. text_eq x.id id) vs ds h

-- Every number of the course is at most the greatest.
max_version-le :
    (c : Text) (vs : List CourseVersionRow)
    → All (λ (v : CourseVersionRow). v.course_id ≡ c → v.version_no ≤ max_version c vs) vs
unfolding max_version
max_version-le c [] = tt
max_version-le c (v ∷ vs) = (
  λ e. ground (arith, eq→text_eq v.course_id c e),
  All-mono (λ (w : CourseVersionRow). w.course_id ≡ c → w.version_no ≤ max_version c vs)
      (λ (w : CourseVersionRow). w.course_id ≡ c → w.version_no ≤ max_version c (v ∷ vs))
      (λ w h e. ground (arith, h e)) vs (max_version-le c vs),
)

append-HasDistinctNumbers :
    (vs : List CourseVersionRow) (d : CourseVersionRow)
    → HasDistinctNumbers vs
    → All (λ v. OtherNumber v d) vs
    → HasDistinctNumbers (vs ++ d ∷ [])
append-HasDistinctNumbers [] d h k = (tt, tt)
append-HasDistinctNumbers (v ∷ vs) d h k =
    (All-append (OtherNumber v) vs (d ∷ []) h.0 (k.0, tt), append-HasDistinctNumbers vs d h.1 k.1)

-- A number above the greatest is a new one.
pub next-HasDistinctNumbers :
    (vs : List CourseVersionRow) (d : CourseVersionRow)
    → d.version_no ≡ max_version d.course_id vs + 1
    → HasDistinctNumbers vs
    → HasDistinctNumbers (vs ++ d ∷ [])
next-HasDistinctNumbers vs d e h = append-HasDistinctNumbers vs d h (
    All-mono
      (λ (v : CourseVersionRow).
        v.course_id ≡ d.course_id → v.version_no ≤ max_version d.course_id vs)
      (λ v. OtherNumber v d) (λ v le same n. omega (arith, le same, n, e)) vs
      (max_version-le d.course_id vs))
