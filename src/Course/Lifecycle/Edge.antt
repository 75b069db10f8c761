-- ===== src/Course/Lifecycle/Edge.antt =====
-- A draft that moves along an edge, and what that leaves of the tables.
use be_mycourse.Shared.{
  ◌≡◌, refl, sym, ap, subst, ◌∙◌, inl, inr, Bool, true, false, ◌&&◌, some, Text, text_eq,
  text_eq→eq, text_eq_refl, contains, Bool-cases, ok, arith,
}
use be_mycourse.Shared.Every.{All-mono}
use be_mycourse.Authorization.Domain.{is_nil}
use be_mycourse.Course.Rows.{
  VersionStatus, CourseRow, CourseVersionRow, Tables, CourseError, version_by_id, course_by_id,
  update_where,
}
use be_mycourse.Course.Rows.Lookup.{first_row-All, All-update_where, map-update_where}
use be_mycourse.Course.Environment.{Environment}
use be_mycourse.Course.Access.{require_draft_version}
use be_mycourse.Course.Lifecycle.{in_status, publish, move_enrollment, set_version}
use be_mycourse.Course.Lifecycle.States.{IsOpen, IsLater, open_undecided, ◌⟶◌}
use be_mycourse.Course.Lifecycle.WellFormed.{
  Names, IsApproved, CourseIsSound, EnrollmentIsSound, AreSound, IsWellFormed, Grows, course_ids,
  Names-IsApproved, enrollments-grow, IsOwned-mono,
}
use be_mycourse.Course.Lifecycle.Kept.{version_by_id-id, version_by_id-hit, version_by_id-missed}
use be_mycourse.Course.Lifecycle.Inversion.{require_draft_version-ok}
use be_mycourse.Course.Lifecycle.Drafting.{IsSoundBut, IsWellFormedBut, listed_id}
use be_mycourse.Course.Lifecycle.Frames.{moved-Grows, moved-IsOwned, moved-numbered, move_versions}

-- The draft that a review acts on.
pub record DraftOf (t : Tables) (id : Text) (c : CourseRow) (v : CourseVersionRow) : Type 0 where
  pub course_listed : course_by_id id t.courses ≡ some c
  pub named : c.id ≡ id
  pub there : contains c.id (course_ids t.courses) ≡ true
  pub pointed : c.current_draft_version_id ≡ some v.id
  pub listed : version_by_id v.id t.versions ≡ some v
  pub of_course : v.course_id ≡ c.id
  pub under_way : IsOpen v.status

pub some_injective : {A : Type 0} {a b : A} → some a ≡ some b → a ≡ b
some_injective {A} {a} {b} h = cc

pub draft_of :
    (t : Tables) (id : Text) {c : CourseRow} {v : CourseVersionRow}
    → IsWellFormed t
    → require_draft_version t id ≡ ok (c, v)
    → DraftOf t id c v
unfolding course_by_id
draft_of t id {c} {v} h e =
    let (course_listed, (d, pointed, listed)) = require_draft_version-ok t id e in
    let (named, there) = listed_id id t.courses course_listed in
    let n =
      (first_row-All (CourseIsSound t.versions) (λ x. text_eq x.id id) t.courses h.courses_sound
          course_listed).drafts
        d pointed in
    let same : n.row ≡ v = some_injective (sym n.listed ∙ listed) in
    let key : v.id ≡ d = version_by_id-id d t.versions listed in
    record {
      course_listed = course_listed;
      named = named;
      there = rw (named) there;
      pointed = rw (key) pointed;
      listed = subst (λ k. version_by_id k t.versions ≡ some v) (sym key) listed;
      of_course = ap (λ (w : CourseVersionRow). w.course_id) (sym same) ∙ n.of_course;
      under_way = subst (λ (w : CourseVersionRow). IsOpen w.status) same n.state;
    }

pub in_status-ok : (a s : VersionStatus) (e : CourseError) → in_status a s e ≡ ok tt → s ≡ a
in_status-ok a s e h = ground arith

-- An id finds one row.
pub one_row :
    (t : Tables) (id : Text) (v w : CourseVersionRow)
    → version_by_id v.id t.versions ≡ some v
    → version_by_id id t.versions ≡ some w
    → text_eq w.id v.id ≡ true
    → w ≡ v
one_row t id v w found also hit =
    let key : w.id ≡ id = version_by_id-id id t.versions also in
    let same : id ≡ v.id = sym key ∙ text_eq→eq w.id v.id hit in
    some_injective (sym also ∙ ap (λ k. version_by_id k t.versions) same ∙ found)

-- The draft's row moves along an edge, by an update that the other versions do not see.
module _ (t : Tables) (id : Text) (c : CourseRow) (v : CourseVersionRow) (h : IsWellFormed t)
    (d : DraftOf t id c v) (f : CourseVersionRow → CourseVersionRow)
    (same_id : (w : CourseVersionRow) → (f w).id ≡ w.id)
    (same_course : (w : CourseVersionRow) → (f w).course_id ≡ w.course_id)
    (same_number : (w : CourseVersionRow) → (f w).version_no ≡ w.version_no)
    (edge : v.status ⟶ (f v).status) where
  abbrev is_draft_row : CourseVersionRow → Bool
  is_draft_row w = text_eq w.id v.id

  edge-IsLater :
      (k : Text) (w : CourseVersionRow)
      → version_by_id k t.versions ≡ some w
      → is_draft_row w ≡ true
      → IsLater w (f w)
  edge-IsLater k w listed hit =
      subst (λ x. IsLater x (f x)) (sym (one_row t k v w d.listed listed hit))
        (record {
          same_course = same_course v;
          same_number = same_number v;
          moves = inr edge;
          keeps = λ decided. absurd (open_undecided d.under_way decided);
        })

  pub edge-Grows : Grows t.versions (update_where is_draft_row f t.versions)
  edge-Grows = moved-Grows is_draft_row f t.versions same_id same_course same_number edge-IsLater

  pub edge_sound :
      IsOpen (f v).status
      → AreSound t.courses (update_where is_draft_row f t.versions) t.enrollments
  edge_sound still =
      move_versions is_draft_row f t.versions same_id same_course same_number edge-IsLater
        (λ k w listed hit o.
          subst (λ x. IsOpen (f x).status) (sym (one_row t k v w d.listed listed hit)) still)
        h

  -- The drafts of the other courses stay.
  other_draft :
      (x : CourseRow) (k : Text)
      → text_eq x.id c.id ≡ false
      → Names t.versions k x.id IsOpen
      → Names (update_where is_draft_row f t.versions) k x.id IsOpen
  other_draft x k other n = record {
    row = n.row;
    listed =
        version_by_id-missed is_draft_row f same_id k t.versions n.row n.listed
          (elim (Bool-cases (is_draft_row n.row)) [
            | inr miss ↦ miss
            | inl hit ↦
                let same : n.row ≡ v = one_row t k v n.row d.listed n.listed hit in
                let course : x.id ≡ c.id =
                  sym n.of_course ∙ ap (λ (w : CourseVersionRow). w.course_id) same ∙ d.of_course in
                cc (other, subst (λ a. text_eq a c.id ≡ true) (sym course) (text_eq_refl c.id))
          ]);
    of_course = n.of_course;
    state = n.state;
  }

  pub edge_sound_but : IsWellFormedBut c.id (set_version v.id f t)
  edge_sound_but = record {
    courses_sound =
        All-mono (CourseIsSound t.versions)
          (IsSoundBut c.id (update_where is_draft_row f t.versions))
          (λ x s. record {
            drafts = λ other k e. other_draft x k other (s.drafts k e);
            publishes = λ k e.
                Names-IsApproved t.versions (update_where is_draft_row f t.versions) edge-Grows k
                  x.id (s.publishes k e);
          })
          t.courses h.courses_sound;
    enrollments_sound =
        enrollments-grow t.versions (update_where is_draft_row f t.versions) edge-Grows
          t.enrollments h.enrollments_sound;
    numbered =
        moved-numbered is_draft_row f t.versions same_id same_course same_number edge-IsLater
          h.numbered;
    owned =
        moved-IsOwned is_draft_row f t.versions same_id same_course same_number edge-IsLater
          t.courses h.owned;
    there = d.there;
  }

  -- What the draft's row stands for after the update.
  draft_named :
      (P : VersionStatus → Type 0) (a : Text)
      → a ≡ c.id
      → P (f v).status
      → Names (update_where is_draft_row f t.versions) v.id a P
  draft_named P a e state = record {
    row = f v;
    listed =
        version_by_id-hit is_draft_row f same_id v.id t.versions v d.listed (text_eq_refl v.id);
    of_course = same_course v ∙ d.of_course ∙ sym e;
    state = state;
  }

  pub publish_sound :
      (env : Environment)
      → (f v).status ≡ VersionStatus.approved
      → AreSound
          (update_where (λ x. text_eq x.id c.id) (publish env v.id) t.courses)
          (update_where is_draft_row f t.versions)
          (update_where
            (λ e. text_eq e.course_id c.id && is_nil e.deleted_at)
            (move_enrollment env v.id)
            t.enrollments)
  publish_sound env done = record {
    courses_sound =
        All-update_where (CourseIsSound t.versions)
          (CourseIsSound (update_where is_draft_row f t.versions)) (λ x. text_eq x.id c.id)
          (publish env v.id)
          (λ x hit s. record {
            drafts = λ k e. cc;
            publishes = λ k e.
                let same : v.id ≡ k = some_injective e in
                rw (← same) (draft_named IsApproved x.id (text_eq→eq x.id c.id hit) done);
          })
          (λ x miss s. record {
            drafts = λ k e. other_draft x k miss (s.drafts k e);
            publishes = λ k e.
                Names-IsApproved t.versions (update_where is_draft_row f t.versions) edge-Grows k
                  x.id (s.publishes k e);
          })
          t.courses h.courses_sound;
    enrollments_sound =
        All-update_where (EnrollmentIsSound t.versions)
          (EnrollmentIsSound (update_where is_draft_row f t.versions))
          (λ e. text_eq e.course_id c.id && is_nil e.deleted_at) (move_enrollment env v.id)
          (λ e hit s.
            draft_named IsApproved e.course_id (text_eq→eq e.course_id c.id (ground arith)) done)
          (λ e miss s.
            Names-IsApproved t.versions (update_where is_draft_row f t.versions) edge-Grows
              e.current_version_id e.course_id s)
          t.enrollments h.enrollments_sound;
    numbered = edge_sound_but.numbered;
    owned =
        IsOwned-mono t.courses (update_where (λ x. text_eq x.id c.id) (publish env v.id) t.courses)
          (update_where is_draft_row f t.versions)
          (map-update_where (λ (x : CourseRow). x.id) (λ x. text_eq x.id c.id) (publish env v.id)
            (λ x. refl) t.courses)
          edge_sound_but.owned;
  }
