-- ===== src/Course/Environment.antt =====
-- What the course repository reads outside its own tables: the caller's principal, the clock, new
-- ids, the libraries for JSON and letter case, and the tables of the other modules.
use be_mycourse.Shared.{ℕ, Bool, Option, List, Text}
use be_mycourse.Shared.Int.{ℤ}
use be_mycourse.Authorization.Domain.{Principal}
use be_mycourse.Authorization.Conditions.{Runtime}
use be_mycourse.Authorization.Registry.{Registry}

-- mediaInfoRow; the URL only shows in answers.
pub record MediaInfo : Type 0 where
  pub kind : Text
  pub status : Text
  pub mime_type : Text

-- A row of `users` as useraccess.Snapshot and the SQL of loadCollaboratorProfiles read it.
pub record UserSnapshot : Type 0 where
  pub is_disabled : Bool
  pub deleted_at : Option ℤ
  pub banned_until : Option ℤ

-- `new_id` is the id that uuid gives to the one new row of an operation, `copy_id` the ids that it
-- gives to the copies of rows. `decode_delta` is json.Unmarshal into a Quill Delta: no value for
-- text that does not decode or has no `ops`, and for each op its insert when that is a string.
-- `to_uuid`, `to_numeric` and `to_jsonb` give what the columns of course_progress_items of type
-- UUID, NUMERIC(5,2) and JSONB store of a value (the score as its bits), `none` for a value that the
-- database refuses. Each table function finds the row that is not deleted.
pub record Environment : Type 0 where
  pub runtime : Runtime
  pub registry : Registry
  pub context_principal : Option Principal
  pub now : ℤ
  pub new_id : Text
  pub copy_id : Text → Text
  pub to_upper : Text → Text
  pub to_lower : Text → Text
  pub is_json : Text → Bool
  pub decode_delta : Text → Option (List (Option Text))
  pub media_files : Text → Option MediaInfo
  pub course_levels : Text → Bool
  pub course_topics : Text → Bool
  pub tags : Text → Bool
  pub course_skills : Text → Bool
  pub course_outcomes : Text → Bool
  pub users : Text → Option UserSnapshot
  pub is_instructor : Text → Bool
  pub to_uuid : Text → Option Text
  pub to_numeric : ℕ → Option ℕ
  pub to_jsonb : Text → Option Text
