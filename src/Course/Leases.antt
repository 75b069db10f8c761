-- ===== src/Course/Leases.antt =====
-- internal/course/infra/repo_outline.go: the leases under which a part of an outline is edited, as
-- operations on the lease table. Instants are Unix seconds. A deletion and an update touch every row
-- that their WHERE clause selects; the token and the id of a new row come from uuid.
pub mod Held
pub mod Exclusive
use be_mycourse.Shared.{
  ℕ, ◌+◌, Bool, true, false, ◌&&◌, ◌||◌, not, Option, none, some, List, [], ◌∷◌, Text, codes,
  text_eq, keep, ltb, if◌then◌else◌, Result, ok, err, ◌>>=◌, ◌>>◌, guard, or_fail,
}
use be_mycourse.Course.Rows.{
  Tables, CourseError, course_lease_held_by_other_user, course_lease_token_invalid, first_row,
  update_where, create,
}
use be_mycourse.Course.Environment.{Environment}
use be_mycourse.Course.Access.{require_editor_access}

pub record LeaseRow : Type 0 where
  pub id : Text
  pub course_id : Text
  pub course_version_id : Text
  pub resource_type : Text
  pub resource_stable_id : Text
  pub holder_user_id : Text
  pub lease_token : Text
  pub expires_at : ℕ
  pub created_at : ℕ
  pub updated_at : ℕ

pub record AcquireLeaseInput : Type 0 where
  pub course_version_id : Text
  pub resource_type : Text
  pub resource_stable_id : Text

-- What the unique index of the table covers.
abbrev pub is_on : AcquireLeaseInput → LeaseRow → Bool
is_on r l =
    text_eq l.course_version_id r.course_version_id
    && text_eq l.resource_type r.resource_type
    && text_eq l.resource_stable_id r.resource_stable_id

-- The id and the token that uuid gives.
pub record Fresh : Type 0 where
  pub id : Text
  pub token : Text

abbrev pub new_lease : AcquireLeaseInput → Text → Text → Fresh → ℕ → LeaseRow
new_lease input course_id actor fresh now = record {
  id = fresh.id;
  course_id = course_id;
  course_version_id = input.course_version_id;
  resource_type = input.resource_type;
  resource_stable_id = input.resource_stable_id;
  holder_user_id = actor;
  lease_token = fresh.token;
  expires_at = now + 300;
  created_at = now;
  updated_at = now;
}

abbrev pub taken_over : Text → Fresh → ℕ → LeaseRow → LeaseRow
taken_over actor fresh now l = record l {
  holder_user_id = actor;
  lease_token = fresh.token;
  expires_at = now + 300;
  updated_at = now;
}

abbrev pub held_by_other : Text → ℕ → LeaseRow → Bool
held_by_other actor now l = ltb now l.expires_at && not (text_eq l.holder_user_id actor)

unfoldable pub lease_from :
    AcquireLeaseInput
    → Text
    → Text
    → Fresh
    → ℕ
    → List LeaseRow
    → Option LeaseRow
    → Result CourseError (List LeaseRow × LeaseRow)
unfolding create update_where
lease_from input course_id actor fresh now ls none = do
  rows ← create (λ l. l.id) (new_lease input course_id actor fresh now) ls
  ok (rows, new_lease input course_id actor fresh now)
lease_from input course_id actor fresh now ls (some l) = do
  guard (not (held_by_other actor now l)) course_lease_held_by_other_user
  ok (
    update_where (λ x. text_eq x.id l.id) (taken_over actor fresh now) ls,
    taken_over actor fresh now l,
  )

-- The part of AcquireLease after the check of access.
unfoldable pub acquire :
    AcquireLeaseInput
    → Text
    → Text
    → Fresh
    → ℕ
    → List LeaseRow
    → Result CourseError (List LeaseRow × LeaseRow)
unfolding lease_from first_row
acquire input course_id actor fresh now ls =
    lease_from input course_id actor fresh now ls (first_row (is_on input) ls)

unfoldable pub acquire_lease :
    Environment
    → Tables
    → AcquireLeaseInput
    → Text
    → Text
    → Fresh
    → ℕ
    → List LeaseRow
    → Result CourseError (List LeaseRow × LeaseRow)
unfolding require_editor_access acquire
acquire_lease env t input course_id actor fresh now ls = do
  access ← require_editor_access env t course_id actor (codes "course_lease:manage")
  acquire input course_id actor fresh now ls

-- `course_id = ? AND holder_user_id = ? AND lease_token = ?`
abbrev pub has_token : Text → Text → Text → LeaseRow → Bool
has_token course_id actor token l =
    text_eq l.course_id course_id && text_eq l.holder_user_id actor && text_eq l.lease_token token

abbrev pub prolonged : ℕ → LeaseRow → LeaseRow
prolonged now l = record l { expires_at = now + 300; updated_at = now }

unfoldable pub heartbeat_lease :
    Text → Text → Text → ℕ → List LeaseRow → Result CourseError (List LeaseRow × LeaseRow)
unfolding first_row update_where
heartbeat_lease course_id actor token now ls = do
  row ← or_fail (first_row (has_token course_id actor token) ls) course_lease_token_invalid
  ok (update_where (λ x. text_eq x.id row.id) (prolonged now) ls, prolonged now row)

unfoldable pub release_lease : Text → Text → Text → List LeaseRow → List LeaseRow
unfolding keep
release_lease course_id actor token ls = keep (λ l. not (has_token course_id actor token l)) ls

-- A call on the lease table, and what it leaves there.
pub data LeaseCall : Type 0 where
  acquires : (input : AcquireLeaseInput) (course actor : Text) (fresh : Fresh) → LeaseCall
  beats : (course actor token : Text) → LeaseCall
  releases : (course actor token : Text) → LeaseCall

abbrev pub rows_after :
    List LeaseRow → Result CourseError (List LeaseRow × LeaseRow) → List LeaseRow
rows_after ls (ok d) = d.0
rows_after ls (err e) = ls

unfoldable pub after_call : LeaseCall → ℕ → List LeaseRow → List LeaseRow
unfolding acquire heartbeat_lease release_lease
after_call (acquires input course actor fresh) now ls =
    rows_after ls (acquire input course actor fresh now ls)
after_call (beats course actor token) now ls =
    rows_after ls (heartbeat_lease course actor token now ls)
after_call (releases course actor token) now ls = release_lease course actor token ls
