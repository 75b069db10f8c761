-- ===== src/Examples/Editors.antt =====
-- A quiz, the leases of a section, and the rows that outlive a course.
use be_mycourse.Shared.{
  keep, none, ℕ, ◌≡◌, refl, ◌↔◌, ◌⊎◌, true, false, some, List, [], ◌∷◌, ◌++◌, codes, text_eq,
  contains, ok, err, arith, trim, rune_count,
}
use be_mycourse.Shared.Int.{pos}
use be_mycourse.Course.Rows.{
  Tables, ProgressRow, QuizContent, course_lease_held_by_other_user, first_row,
}
use be_mycourse.Course.Content.{validate_quiz_sub_lesson}
use be_mycourse.Course.Content.Quiz.{IsSound, validate_quiz_sub_lesson_iff}
use be_mycourse.Course.Environment.{Environment}
use be_mycourse.Course.Removal.{soft_delete_course_tree}
use be_mycourse.Course.Removal.Leftovers.{ends, soft_delete_course_tree-progress}
use be_mycourse.Course.Learner.{
  SaveProgressInput, StoredInput, new_progress, save_progress, require_enrollment,
  load_progress_item,
}
use be_mycourse.Course.Learner.Saved.{IsRecorded, save_progress-loaded}
use be_mycourse.Course.Lifecycle.Steps.{empty_tables}
use be_mycourse.Examples.Data.{runtime, registry, store}
use be_mycourse.Course.Leases.{
  LeaseRow, AcquireLeaseInput, is_on, Fresh, acquire, LeaseCall, acquires, beats, releases,
}
use be_mycourse.Course.Leases.Exclusive.{
  after_calls, IsBlocked, IsAcquired, lease_exclusive, acquire-or_IsBlocked,
}

abbrev quiz : QuizContent
quiz = record {
  prompt = codes "1 + 1?";
  allow_multiple = false;
  options =
      record { id = []; option_key = []; body = codes "2"; is_correct = true; order_index = pos 0 }
      ∷ record {
        id = [];
        option_key = [];
        body = codes "3";
        is_correct = false;
        order_index = pos 1;
      }
      ∷ [];
}

validate_quiz_sub_lesson_iff_example : (validate_quiz_sub_lesson (some quiz) ≡ ok tt) ↔ IsSound quiz
validate_quiz_sub_lesson_iff_example = validate_quiz_sub_lesson_iff quiz

abbrev on_section : AcquireLeaseInput
on_section = record {
  course_version_id = codes "v1";
  resource_type = codes "SECTION";
  resource_stable_id = codes "s";
}

abbrev lease : LeaseRow
lease = record {
  id = codes "e1";
  course_id = codes "c1";
  course_version_id = codes "v1";
  resource_type = codes "SECTION";
  resource_stable_id = codes "s";
  holder_user_id = codes "u1";
  lease_token = codes "t1";
  expires_at = 400;
  created_at = 100;
  updated_at = 100;
}

abbrev intruder : Fresh
intruder = record { id = codes "e2"; token = codes "t2" }

abbrev calls : List (ℕ × LeaseCall)
calls =
    (150, acquires on_section (codes "c1") (codes "u2") intruder)
    ∷ (200, releases (codes "c1") (codes "u2") (codes "t1"))
    ∷ (250, beats (codes "c1") (codes "u3") (codes "t1"))
    ∷ []

lease_exclusive_example :
    (first_row (is_on on_section) (after_calls calls (lease ∷ [])) ≡ some lease)
    × (acquire on_section (codes "c1") (codes "u2") intruder 399 (after_calls calls (lease ∷ []))
        ≡ err course_lease_held_by_other_user)
unfolding first_row text_eq contains
lease_exclusive_example =
    lease_exclusive on_section lease calls (lease ∷ []) (codes "c1") (codes "u2") intruder 399
      (refl, tt) refl ((omega arith, refl), ((omega arith, refl), ((omega arith, refl), tt)))
      (omega arith) refl

acquire-or_IsBlocked_example :
    ((l : LeaseRow) × (ls' : List LeaseRow) × (acquire on_section
          (codes "c1")
          (codes "u2")
          intruder
          400
          (lease ∷ [])
        ≡ ok (ls', l))
      × IsAcquired on_section (codes "u2") (codes "t2") 400 ls' l)
    ⊎ (IsBlocked on_section (codes "u2") 400 (lease ∷ [])
        × (acquire on_section (codes "c1") (codes "u2") intruder 400 (lease ∷ [])
            ≡ err course_lease_held_by_other_user))
unfolding contains text_eq
acquire-or_IsBlocked_example =
    acquire-or_IsBlocked on_section (codes "c1") (codes "u2") intruder 400 (lease ∷ []) refl

abbrev env : Environment
env = record {
  runtime = runtime;
  registry = registry;
  context_principal = none;
  now = pos 500;
  new_id = codes "n";
  copy_id = λ t. t;
  to_upper = λ t. t;
  to_lower = λ t. t;
  is_json = λ t. true;
  decode_delta = λ t. none;
  media_files = λ t. none;
  course_levels = λ t. true;
  course_topics = λ t. true;
  tags = λ t. true;
  course_skills = λ t. true;
  course_outcomes = λ t. true;
  users = λ t. none;
  is_instructor = λ t. true;
  to_uuid = λ t. some t;
  to_numeric = λ t. some t;
  to_jsonb = λ t. some t;
}

-- A learner of `c1` who has started.
abbrev learned : Tables
learned = record (empty_tables store) {
  enrollments =
      record {
        id = codes "n1";
        course_id = codes "c1";
        user_id = codes "u5";
        current_version_id = codes "v1";
        created_at = pos 1;
        updated_at = pos 1;
        deleted_at = none;
      }
      ∷ [];
  progress =
      record {
        id = codes "p1";
        enrollment_id = codes "n1";
        stable_content_id = codes "i";
        content_type = codes "TEXT";
        status = codes "COMPLETED";
        score = 0;
        quiz_attempt = codes "{}";
        last_interacted_at = none;
        created_at = pos 1;
        updated_at = pos 1;
        deleted_at = none;
      }
      ∷ [];
}

soft_delete_course_tree-progress_example :
    ((soft_delete_course_tree env (codes "c1") learned).progress ≡ learned.progress)
    × (keep
          (ends env.now (codes "c1"))
          (soft_delete_course_tree env (codes "c1") learned).enrollments
        ≡ [])
soft_delete_course_tree-progress_example = soft_delete_course_tree-progress env (codes "c1") learned

abbrev quiz_done : SaveProgressInput
quiz_done = record {
  stable_content_id = codes "q";
  content_type = codes "QUIZ ";
  status = codes " DONE";
  score = 9;
  quiz_attempt = codes "";
}

abbrev stored_quiz : StoredInput
stored_quiz = record {
  content_type = codes "QUIZ";
  status = codes "DONE";
  score = 9;
  quiz_attempt = codes "{}";
}

abbrev after_quiz : Tables
after_quiz = record learned {
  progress = learned.progress ++ (new_progress env stored_quiz (codes "q") (codes "n1") ∷ []);
}

save_progress-loaded_example :
    (p : ProgressRow) × (load_progress_item after_quiz (codes "c1") (codes "u5") (codes "q")
      ≡ some p)
    × IsRecorded env quiz_done p
unfolding save_progress require_enrollment first_row text_eq trim rune_count
    be_mycourse.Course.Learner.stored_input be_mycourse.Course.Learner.progress_saved
    be_mycourse.Course.Rows.create contains
save_progress-loaded_example =
    save_progress-loaded env learned quiz_done (codes "c1") (codes "u5") (codes "q") after_quiz refl
      refl
