-- ===== src/Examples/Courses.antt =====
-- The life of a course `c1` of `u1`: created, filled in, submitted, published or rejected, deleted.
use be_mycourse.Shared.{
  ℕ, ◌≡◌, refl, subst, ◌⊎◌, inl, inr, ◌++◌, Bool, true, false, Option, none, some, List, [], ◌∷◌,
  Text, codes, trim, text_eq, text_ltb, contains, Result, ok, err,
}
use be_mycourse.Shared.Int.{pos}
use be_mycourse.Authorization.Registry.{provider}
use be_mycourse.Course.{course_policy_provider}
use be_mycourse.Course.Rows.{
  VersionStatus, CourseRow, CourseVersionRow, SectionRow, LessonRow, SubLessonRow, Tables,
  CourseError, version_by_id,
}
use be_mycourse.Course.Environment.{Environment}
use be_mycourse.Course.Drafts.{new_version}
use be_mycourse.Course.Lifecycle.{submit_for_review, approve_draft, reopen_draft}
use be_mycourse.Course.Lifecycle.Requests.{
  Request, creates, updates, submits, approves, rejects, deletes, run, commit,
}
use be_mycourse.Course.Lifecycle.States.{IsOpen, is_in_review, was_approved, lasting}
use be_mycourse.Course.Lifecycle.WellFormed.{Names, IsWellFormed}
use be_mycourse.Course.Lifecycle.Edge.{some_injective}
use be_mycourse.Course.Lifecycle.Steps.{
  IsReachable, start, request, elsewhere, empty_tables, beside, IsReachable-IsWellFormed,
}
use be_mycourse.Course.Lifecycle.History.{
  Follows, request-Follows, here, request_after, decided_version_kept, reopen_draft-unreachable,
}
use be_mycourse.Course.Lifecycle.Outcomes.{Published, approve_draft-Published}
use be_mycourse.Course.Submit.Accepted.{Accepted, submit_for_review-Accepted}
use be_mycourse.Examples.Data.{runtime, registry, user, store}

abbrev c1 : Text
c1 = codes "c1"

abbrev u1 : Text
u1 = codes "u1"

-- New ids are `id`, and every table of another module has every row.
abbrev env : Text → Environment
env id = record {
  runtime = runtime;
  registry = registry;
  context_principal = some (user u1);
  now = pos 500;
  new_id = id;
  copy_id = λ t. id ++ t;
  to_upper = λ t. t;
  to_lower = λ t. t;
  is_json = λ t. true;
  decode_delta = λ t. none;
  media_files = λ t.
      some (record { kind = codes "IMAGE"; status = codes "READY"; mime_type = codes "image/png" });
  course_levels = λ t. true;
  course_topics = λ t. true;
  tags = λ t. true;
  course_skills = λ t. true;
  course_outcomes = λ t. true;
  users = λ t. some (record { is_disabled = false; deleted_at = none; banned_until = none });
  is_instructor = λ t. true;
  to_uuid = λ t. some t;
  to_numeric = λ t. some t;
  to_jsonb = λ t. some t;
}

abbrev created : Tables
created =
    commit (empty_tables store) (
      run (env (codes "v1")) (empty_tables store) (creates c1 u1 (codes "go") (codes "Go at work")))

created-IsReachable : IsReachable created
created-IsReachable =
    request (env (codes "v1")) (creates c1 u1 (codes "go") (codes "Go at work")) (start store)

abbrev filling : Request
filling = updates c1 u1 (record {
  expected_row_version = 1;
  title = none;
  short_description = some (codes "A first course on the Go language");
  about_course = some (codes "Goroutines, channels, interfaces and modules, with exercises");
  thumbnail_file_id = some (codes "f1");
  preview_video_file_id = none;
  course_level_id = some (codes "level");
  course_topic_id = some (codes "topic");
  tag_ids = codes "tag" ∷ [];
  skill_ids = codes "skill" ∷ [];
  outcome_ids = codes "outcome" ∷ [];
  slug = none;
})

abbrev filled : Tables
filled = commit created (run (env (codes "v2")) created filling)

abbrev section : SectionRow
section = record {
  id = codes "s1";
  stable_id = codes "s";
  course_version_id = codes "v1";
  title = codes "Start";
  description = [];
  order_index = pos 0;
  row_version = 1;
  created_at = pos 500;
  updated_at = pos 500;
  deleted_at = none;
}

abbrev lesson : LessonRow
lesson = record {
  id = codes "l1";
  stable_id = codes "l";
  course_version_id = codes "v1";
  section_id = codes "s1";
  title = codes "Hello";
  summary = [];
  order_index = pos 0;
  row_version = 1;
  created_at = pos 500;
  updated_at = pos 500;
  deleted_at = none;
}

abbrev item : SubLessonRow
item = record {
  id = codes "i1";
  stable_id = codes "i";
  course_version_id = codes "v1";
  lesson_id = codes "l1";
  title = codes "Read";
  kind = codes "TEXT";
  is_preview = true;
  order_index = pos 0;
  estimated_duration_ms = pos 1000;
  row_version = 1;
  created_at = pos 500;
  updated_at = pos 500;
  deleted_at = none;
  video = none;
  text = some (codes "Hello, world");
  quiz = none;
}

abbrev outlined : Tables
outlined = beside store (section ∷ []) (lesson ∷ []) (item ∷ []) filled

outlined-IsReachable : IsReachable outlined
outlined-IsReachable =
    elsewhere store (section ∷ []) (lesson ∷ []) (item ∷ [])
      (request (env (codes "v2")) filling created-IsReachable)

abbrev submitted : Tables
submitted = commit outlined (run (env (codes "v3")) outlined (submits c1 u1))

submitted-IsReachable : IsReachable submitted
submitted-IsReachable = request (env (codes "v3")) (submits c1 u1) outlined-IsReachable

abbrev published : Tables
published = commit submitted (run (env (codes "v4")) submitted (approves c1 u1 (codes " fine ")))

published-IsReachable : IsReachable published
published-IsReachable =
    request (env (codes "v4")) (approves c1 u1 (codes " fine ")) submitted-IsReachable

abbrev version_or : Option CourseVersionRow → CourseVersionRow
version_or none = new_version (env []) [] 0
version_or (some v) = v

abbrev v1_in : Tables → CourseVersionRow
v1_in t = version_or (version_by_id (codes "v1") t.versions)

v1_published :
    (version_by_id (codes "v1") published.versions ≡ some (v1_in published))
    × ((v1_in published).status ≡ VersionStatus.approved)
unfolding run commit version_by_id be_mycourse.Course.Access.require_editor_access contains text_eq
    trim be_mycourse.Authorization.Authorizer.authorize be_mycourse.Course.evaluate_facts
    be_mycourse.Authorization.Store.list_active be_mycourse.Authorization.Domain.allowed
    be_mycourse.Shared.all be_mycourse.Shared.keep
v1_published = (refl, refl)

IsReachable-IsWellFormed_example : IsWellFormed published
IsReachable-IsWellFormed_example = IsReachable-IsWellFormed published published-IsReachable

request-Follows_example :
    (w : CourseVersionRow) × (version_by_id
        (codes "v1")
        (commit published (run (env (codes "v5")) published (deletes c1 u1))).versions
      ≡ some w)
    × Follows (v1_in published) w
request-Follows_example =
    request-Follows (env (codes "v5")) (deletes c1 u1) published (codes "v1") (v1_in published)
      published-IsReachable v1_published.0

decided_version_kept_example :
    (w : CourseVersionRow) × (version_by_id
        (codes "v1")
        (commit published (run (env (codes "v5")) published (deletes c1 u1))).versions
      ≡ some w)
    × (lasting w ≡ lasting (v1_in published))
unfolding run commit version_by_id be_mycourse.Course.Access.require_editor_access contains text_eq
    trim be_mycourse.Authorization.Authorizer.authorize be_mycourse.Course.evaluate_facts
    be_mycourse.Authorization.Store.list_active be_mycourse.Authorization.Domain.allowed
    be_mycourse.Shared.all be_mycourse.Shared.keep
decided_version_kept_example =
    decided_version_kept published
      (commit published (run (env (codes "v5")) published (deletes c1 u1))) (codes "v1")
      (v1_in published) published-IsReachable v1_published.0 was_approved
      (request_after (env (codes "v5")) (deletes c1 u1) here)

reopen_draft-unreachable_example :
    (e : CourseError) × (reopen_draft (env (codes "v5")) outlined c1 u1 ≡ err e)
reopen_draft-unreachable_example =
    reopen_draft-unreachable (env (codes "v5")) outlined c1 u1 outlined-IsReachable

submits_v1 : submit_for_review (env (codes "v3")) outlined c1 u1 ≡ ok submitted
unfolding run commit be_mycourse.Course.Access.require_editor_access contains text_eq trim
    be_mycourse.Authorization.Authorizer.authorize be_mycourse.Course.evaluate_facts
    be_mycourse.Authorization.Store.list_active be_mycourse.Authorization.Domain.allowed
    be_mycourse.Shared.all be_mycourse.Shared.keep
submits_v1 = refl

submit_for_review-Accepted_example : Accepted (env (codes "v3")) outlined c1 u1
unfolding provider be_mycourse.Course.Access.require_editor_access contains text_eq trim
    be_mycourse.Authorization.Authorizer.authorize be_mycourse.Course.evaluate_facts
    be_mycourse.Authorization.Store.list_active be_mycourse.Authorization.Domain.allowed
    be_mycourse.Shared.all be_mycourse.Shared.keep
submit_for_review-Accepted_example =
    submit_for_review-Accepted (env (codes "v3")) outlined c1 u1 submitted refl submits_v1

-- A course whose only version waits for its review.
abbrev waiting_version : CourseVersionRow
waiting_version = record (new_version (env (codes "v1")) c1 1) { status = VersionStatus.in_review }

abbrev waiting_course : CourseRow
waiting_course = record {
  id = c1;
  owner_user_id = u1;
  slug = codes "go";
  current_published_version_id = none;
  current_draft_version_id = some (codes "v1");
  created_at = pos 500;
  updated_at = pos 500;
  deleted_at = none;
  trashed_at = none;
}

abbrev waiting : Tables
waiting = record (empty_tables store) {
  courses = waiting_course ∷ [];
  versions = waiting_version ∷ [];
}

waiting-IsWellFormed : IsWellFormed waiting
unfolding version_by_id contains text_eq
waiting-IsWellFormed = record {
  courses_sound = (
    record {
      drafts = λ d e.
          subst (λ k. Names (waiting_version ∷ []) k c1 IsOpen) (some_injective e)
            (record {
              row = waiting_version;
              listed = refl;
              of_course = refl;
              state = is_in_review;
            });
      publishes = λ p e. cc;
    },
    tt,
  );
  enrollments_sound = tt;
  numbered = (tt, tt);
  owned = (refl, tt);
}

abbrev accepted : Tables
accepted = commit waiting (run (env (codes "v4")) waiting (approves c1 u1 (codes " ok ")))

approves_v1 : approve_draft (env (codes "v4")) waiting c1 u1 (codes " ok ") ≡ ok accepted
unfolding run commit contains text_eq trim be_mycourse.Shared.keep
    be_mycourse.Course.Drafts.clone_outline
approves_v1 = refl

approve_draft-Published_example : Published waiting accepted c1 u1 (codes " ok ") (env (codes "v4"))
approve_draft-Published_example =
    approve_draft-Published (env (codes "v4")) waiting c1 u1 (codes " ok ") accepted
      waiting-IsWellFormed approves_v1

abbrev returned : Tables
returned = commit waiting (run (env (codes "v4")) waiting (rejects c1 u1 (codes "thin")))
