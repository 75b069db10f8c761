-- ===== src/Course/Lifecycle/States.antt =====
-- The states of a version, and what stays of a row while it goes through them.
use be_mycourse.Shared.{◌≡◌, refl, ◌∙◌, ◌⊎◌, inl, inr, none}
use be_mycourse.Shared.Int.{pos}
use be_mycourse.Course.Rows.{VersionStatus, draft, in_review, approved, rejected, CourseVersionRow}

infix 40 ◌⟶◌
pub data ◌⟶◌ : VersionStatus → VersionStatus → Type 0 where
  submit : draft ⟶ in_review
  approve : in_review ⟶ approved
  reject : in_review ⟶ rejected

-- A row without its times of update and of deletion.
abbrev pub lasting : CourseVersionRow → CourseVersionRow
lasting v = record v { updated_at = pos 0; deleted_at = none }

-- The review is over.
pub data IsDecided : VersionStatus → Type 0 where
  was_approved : IsDecided approved
  was_rejected : IsDecided rejected

-- Still under way.
pub data IsOpen : VersionStatus → Type 0 where
  is_draft : IsOpen draft
  is_in_review : IsOpen in_review

-- `w` is what became of `v` in one operation.
pub record IsLater (v w : CourseVersionRow) : Type 0 where
  pub same_course : w.course_id ≡ v.course_id
  pub same_number : w.version_no ≡ v.version_no
  pub moves : (w.status ≡ v.status) ⊎ (v.status ⟶ w.status)
  pub keeps : IsDecided v.status → lasting w ≡ lasting v

pub unchanged : (v : CourseVersionRow) → IsLater v v
unchanged v = record { same_course = refl; same_number = refl; moves = inl refl; keeps = λ d. refl }

from_approved : {s t : VersionStatus} → s ⟶ t → s ≡ approved → ⊥
from_approved submit e = cc
from_approved approve e = cc
from_approved reject e = cc

-- No edge leaves `approved`.
pub IsLater-approved :
    {v w : CourseVersionRow} → IsLater v w → v.status ≡ approved → w.status ≡ approved
IsLater-approved l e = elim l.moves [
  | inl same ↦ same ∙ e
  | inr edge ↦ absurd (from_approved edge e)
]

pub open_undecided : {s : VersionStatus} → IsOpen s → IsDecided s → ⊥
open_undecided {s} o d = no o d refl
  where
    no : {a b : VersionStatus} → IsOpen a → IsDecided b → a ≡ b → ⊥
    no is_draft was_approved e = cc
    no is_draft was_rejected e = cc
    no is_in_review was_approved e = cc
    no is_in_review was_rejected e = cc
