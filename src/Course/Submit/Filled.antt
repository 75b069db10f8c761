-- ===== src/Course/Submit/Filled.antt =====
-- internal/course/infra/repo_submit_validation.go: validateDraftBasicInfo, field by field.
use be_mycourse.Shared.{
  ◌≡◌, ◌≢◌, ◌≤◌, refl, subst, Bool, true, false, ◌&&◌, not, Option, none, some, List, [], ◌∷◌, Text,
  codes, text_eq, text_eq→eq, eq→text_eq, trim, is_empty, length, all, count_non_whitespace, leb,
  leb→le, ◌==◌, ==_iff, Result, ok, err, >>=-ok, or_fail, or_fail-ok, guard, guard-ok, arith,
}
use be_mycourse.Shared.Every.{All}
use be_mycourse.Course.Rows.{
  CourseVersionRow, Tables, CourseError, not_found, course_submit_basic_info_incomplete,
}
use be_mycourse.Course.Environment.{Environment, MediaInfo}
use be_mycourse.Course.Content.{
  is_blank, starts_with, count_delta_non_whitespace, ExpectedKind, image, video, is_expected,
  check_media_file, validate_media_file, validate_lookup_id, validate_lookup_ids,
}
use be_mycourse.Course.Submit.{
  is_set, has_draft_basic_info_required_fields, load_version_ref_ids, validate_version_refs,
  as_incomplete, validate_draft_basic_info,
}

-- A file is an image, by its MIME type, or a video.
abbrev pub IsKind : Environment → ExpectedKind → MediaInfo → Type 0
IsKind env image m =
    (m.kind ≢ codes "VIDEO") × (starts_with (codes "image/") (env.to_lower m.mime_type) ≡ true)
IsKind env video m = m.kind ≡ codes "VIDEO"

-- The file is there, ready, and of the kind.
pub record IsReady (env : Environment) (kind : ExpectedKind) (file : Text) : Type 0 where
  pub media : MediaInfo
  pub listed : env.media_files (trim file) ≡ some media
  pub ready : media.status ≡ codes "READY"
  pub of_kind : IsKind env kind media

-- The id is given, and the table has its row.
pub record IsKnown (table : Text → Bool) (o : Option Text) : Type 0 where
  pub id : Text
  pub given : o ≡ some id
  pub not_blank : trim id ≢ []
  pub listed : table id ≡ true

-- The title, the descriptions, the thumbnail, the level, the topic, at least one tag and one
-- skill, and one outcome, all of them known.
pub record IsFilled (env : Environment) (t : Tables) (v : CourseVersionRow) : Type 0 where
  pub titled : 5 ≤ count_non_whitespace v.title
  pub described : 20 ≤ count_non_whitespace v.short_description
  pub explained : 30 ≤ count_delta_non_whitespace env v.about_course
  pub thumbnail : Text
  pub thumbnail_given : v.thumbnail_file_id ≡ some thumbnail
  pub thumbnail_ready : IsReady env image thumbnail
  pub preview_ready :
      (file : Text) → v.preview_video_file_id ≡ some file → trim file ≢ [] → IsReady env video file
  pub levelled : IsKnown env.course_levels v.course_level_id
  pub on_topic : IsKnown env.course_topics v.course_topic_id
  pub tagged : 1 ≤ length (load_version_ref_ids v.id t.version_tags)
  pub skilled : 1 ≤ length (load_version_ref_ids v.id t.version_skills)
  pub one_outcome : length (load_version_ref_ids v.id t.version_outcomes) ≡ 1
  pub tags_known : All (λ k. env.tags k ≡ true) (load_version_ref_ids v.id t.version_tags)
  pub skills_known :
      All (λ k. env.course_skills k ≡ true) (load_version_ref_ids v.id t.version_skills)
  pub outcome_known :
      All (λ k. env.course_outcomes k ≡ true) (load_version_ref_ids v.id t.version_outcomes)

some_injective : {A : Type 0} {a b : A} → some a ≡ some b → a ≡ b
some_injective {A} {a} {b} h = cc

guard-true : (b : Bool) (e : CourseError) → guard b e ≡ ok tt → b ≡ true
guard-true true e h = refl
guard-true false e h = absurd cc

pub blank→nil : (s : Text) → is_empty s ≡ false → s ≢ []
blank→nil [] h e = cc
blank→nil (c ∷ s) h e = cc

nil→blank : (s : Text) → s ≢ [] → is_empty s ≡ false
nil→blank [] h = absurd (h refl)
nil→blank (c ∷ s) h = refl

nonempty-length : {A : Type 0} (xs : List A) → is_empty xs ≡ false → 1 ≤ length xs
nonempty-length [] h = absurd cc
nonempty-length (x ∷ xs) h = omega arith

all-All : (p : Text → Bool) (xs : List Text) → all p xs ≡ true → All (λ x. p x ≡ true) xs
unfolding all
all-All p [] h = tt
all-All p (x ∷ xs) h = (ground arith, all-All p xs (ground arith))

is_expected-IsKind :
    (env : Environment) (kind : ExpectedKind) (m : MediaInfo)
    → is_expected env kind m ≡ true
    → IsKind env kind m
unfolding is_expected
is_expected-IsKind env image m h =
    (λ e. let hit = eq→text_eq m.kind (codes "VIDEO") e in absurd (ground arith), ground arith)
is_expected-IsKind env video m h = text_eq→eq m.kind (codes "VIDEO") h

pub validate_media_file-IsReady :
    (env : Environment) (o : Option Text) (kind : ExpectedKind) (file : Text)
    → validate_media_file env o kind ≡ ok tt
    → o ≡ some file
    → trim file ≢ []
    → IsReady env kind file
unfolding validate_media_file check_media_file
validate_media_file-IsReady env none kind file h e n = absurd cc
validate_media_file-IsReady env (some f) kind file h e n =
    let same : f ≡ file = some_injective e in
    let filled : is_blank f ≡ false = rw (same) (nil→blank (trim file) n) in
    let (m, listed, fits) =
      >>=-ok (or_fail (env.media_files (trim f)) not_found) _ (rw filled at h) in
    let passed = guard-true (text_eq m.status (codes "READY") && is_expected env kind m) _ fits in
    record {
      media = m;
      listed =
          subst (λ x. env.media_files (trim x) ≡ some m) same
            (or_fail-ok (env.media_files (trim f)) not_found listed);
      ready = text_eq→eq m.status (codes "READY") (ground arith);
      of_kind = is_expected-IsKind env kind m (ground arith);
    }

lookup-IsKnown :
    (table : Text → Bool) (o : Option Text) (id : Text)
    → validate_lookup_id table o ≡ ok tt
    → o ≡ some id
    → trim id ≢ []
    → IsKnown table o
unfolding validate_lookup_id
lookup-IsKnown table none id h e n = absurd cc
lookup-IsKnown table (some k) id h e n =
    let same : k ≡ id = some_injective e in
    let filled : is_blank k ≡ false = rw (same) (nil→blank (trim id) n) in
    record {
      id = id;
      given = e;
      not_blank = n;
      listed = subst (λ x. table x ≡ true) same (guard-true (table k) not_found (rw filled at h));
    }

as_incomplete-ok : (m : Result CourseError (Unit {0})) → as_incomplete m ≡ ok tt → m ≡ ok tt
as_incomplete-ok (ok tt) h = refl
as_incomplete-ok (err CourseError.not_found) h = absurd cc
as_incomplete-ok (err CourseError.invalid_profile_media_file) h = absurd cc
as_incomplete-ok (err e) h = absurd cc

set_given : (o : Option Text) → is_set o ≡ true → (id : Text) × (o ≡ some id) × (trim id ≢ [])
set_given none h = absurd cc
set_given (some id) h = (id, refl, blank→nil (trim id) (ground arith))

and_three : (a b c : Bool) → (a && b && c) ≡ true → (a ≡ true) × (b ≡ true) × (c ≡ true)
and_three a b c h = ground arith

and_six :
    (a b c d e f : Bool)
    → (a && b && c && d && e && f) ≡ true
    → (a ≡ true) × (b ≡ true) × (c ≡ true) × (d ≡ true) × (e ≡ true) × (f ≡ true)
and_six a b c d e f h = ground arith

not-true : (b : Bool) → not b ≡ true → b ≡ false
not-true b h = ground arith

-- The fields of the row itself.
record HasFields (env : Environment) (v : CourseVersionRow) : Type 0 where
  title : leb 5 (count_non_whitespace v.title) ≡ true
  short : leb 20 (count_non_whitespace v.short_description) ≡ true
  about : leb 30 (count_delta_non_whitespace env v.about_course) ≡ true
  thumbnail : is_set v.thumbnail_file_id ≡ true
  level : is_set v.course_level_id ≡ true
  topic : is_set v.course_topic_id ≡ true

fields_set :
    (env : Environment) (v : CourseVersionRow)
    → has_draft_basic_info_required_fields env v ≡ true
    → HasFields env v
unfolding has_draft_basic_info_required_fields
fields_set env v h =
    let (title, short, about, thumbnail, level, topic) =
      and_six (leb 5 (count_non_whitespace v.title))
        (leb 20 (count_non_whitespace v.short_description))
        (leb 30 (count_delta_non_whitespace env v.about_course)) (is_set v.thumbnail_file_id)
        (is_set v.course_level_id) (is_set v.course_topic_id) h in
    record {
      title = title;
      short = short;
      about = about;
      thumbnail = thumbnail;
      level = level;
      topic = topic;
    }

-- The rows that the version points to.
record HasRefs (env : Environment) (v : CourseVersionRow) (tags skills outcomes : List Text)
    : Type 0 where
  thumb : validate_media_file env v.thumbnail_file_id image ≡ ok tt
  preview : validate_media_file env v.preview_video_file_id video ≡ ok tt
  level : validate_lookup_id env.course_levels v.course_level_id ≡ ok tt
  topic : validate_lookup_id env.course_topics v.course_topic_id ≡ ok tt
  tags_there : all env.tags tags ≡ true
  skills_there : all env.course_skills skills ≡ true
  outcomes_there : all env.course_outcomes outcomes ≡ true

refs_there :
    (env : Environment) (v : CourseVersionRow) (tags skills outcomes : List Text)
    → validate_version_refs env v tags skills outcomes ≡ ok tt
    → HasRefs env v tags skills outcomes
unfolding validate_version_refs validate_lookup_ids
refs_there env v tags skills outcomes refs =
    let (u₁, thumb, r₁) = >>=-ok (validate_media_file env v.thumbnail_file_id image) _ refs in
    let (u₂, preview, r₂) = >>=-ok (validate_media_file env v.preview_video_file_id video) _ r₁ in
    let (u₃, level, r₃) = >>=-ok (validate_lookup_id env.course_levels v.course_level_id) _ r₂ in
    let (u₄, topic, r₄) = >>=-ok (validate_lookup_id env.course_topics v.course_topic_id) _ r₃ in
    let (tags_ok, r₅) = guard-ok (all env.tags tags) not_found _ r₄ in
    let (skills_ok, r₆) = guard-ok (all env.course_skills skills) not_found _ r₅ in
    record {
      thumb = thumb;
      preview = preview;
      level = level;
      topic = topic;
      tags_there = tags_ok;
      skills_there = skills_ok;
      outcomes_there = guard-true (all env.course_outcomes outcomes) not_found r₆;
    }

filled :
    (env : Environment) (t : Tables) (v : CourseVersionRow)
    → HasFields env v
    → HasRefs env v
        (load_version_ref_ids v.id t.version_tags)
        (load_version_ref_ids v.id t.version_skills)
        (load_version_ref_ids v.id t.version_outcomes)
    → 1 ≤ length (load_version_ref_ids v.id t.version_tags)
    → 1 ≤ length (load_version_ref_ids v.id t.version_skills)
    → length (load_version_ref_ids v.id t.version_outcomes) ≡ 1
    → IsFilled env t v
filled env t v f r tags skills outcomes =
    let (file, given, named) = set_given v.thumbnail_file_id f.thumbnail in
    let (level_id, level_given, level_named) = set_given v.course_level_id f.level in
    let (topic_id, topic_given, topic_named) = set_given v.course_topic_id f.topic in
    record {
      titled = leb→le 5 (count_non_whitespace v.title) f.title;
      described = leb→le 20 (count_non_whitespace v.short_description) f.short;
      explained = leb→le 30 (count_delta_non_whitespace env v.about_course) f.about;
      thumbnail = file;
      thumbnail_given = given;
      thumbnail_ready =
          validate_media_file-IsReady env v.thumbnail_file_id image file r.thumb given named;
      preview_ready =
          λ k e n. validate_media_file-IsReady env v.preview_video_file_id video k r.preview e n;
      levelled =
          lookup-IsKnown env.course_levels v.course_level_id level_id r.level level_given
            level_named;
      on_topic =
          lookup-IsKnown env.course_topics v.course_topic_id topic_id r.topic topic_given
            topic_named;
      tagged = tags;
      skilled = skills;
      one_outcome = outcomes;
      tags_known = all-All env.tags (load_version_ref_ids v.id t.version_tags) r.tags_there;
      skills_known =
          all-All env.course_skills (load_version_ref_ids v.id t.version_skills) r.skills_there;
      outcome_known =
          all-All env.course_outcomes (load_version_ref_ids v.id t.version_outcomes)
            r.outcomes_there;
    }

pub validate_draft_basic_info-IsFilled :
    (env : Environment) (t : Tables) (v : CourseVersionRow)
    → validate_draft_basic_info env t v ≡ ok tt
    → IsFilled env t v
unfolding validate_draft_basic_info
validate_draft_basic_info-IsFilled env t v h =
    let tags = load_version_ref_ids v.id t.version_tags in
    let skills = load_version_ref_ids v.id t.version_skills in
    let outcomes = load_version_ref_ids v.id t.version_outcomes in
    let (fields, h₁) =
      guard-ok (has_draft_basic_info_required_fields env v) course_submit_basic_info_incomplete _
        h in
    let (counts, h₂) =
      guard-ok (not (is_empty tags) && not (is_empty skills) && length outcomes == 1)
        course_submit_basic_info_incomplete _ h₁ in
    let (tagged, skilled, one) =
      and_three (not (is_empty tags)) (not (is_empty skills)) (length outcomes == 1) counts in
    filled env t v (fields_set env v fields)
      (refs_there env v tags skills outcomes
        (as_incomplete-ok (validate_version_refs env v tags skills outcomes) h₂))
      (nonempty-length tags (not-true (is_empty tags) tagged))
      (nonempty-length skills (not-true (is_empty skills) skilled))
      ((==_iff (length outcomes) 1).0 one)
