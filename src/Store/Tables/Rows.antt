-- ===== src/Store/Tables/Rows.antt =====
-- The tables of 0001_initial.up.sql, a record of its columns for each row.
use satunera.Prelude.{List, [], Option, Text}
use satunera.Prelude.Int.{ℤ}

pub record UserRecord : Type 0 where
  pub id : Text
  pub handle : Text
  pub email : Text
  pub password_hash : Text
  pub role : Text
  pub created_at : Text

pub record ProblemRecord : Type 0 where
  pub id : Text
  pub commit_sha : Text
  pub title : Text
  pub category : Text
  pub difficulty : Text
  pub manifest : Text
  pub updated_at : Text

pub record SubmissionRecord : Type 0 where
  pub id : Text
  pub user_id : Text
  pub problem_id : Text
  pub language : Text
  pub source_hash : Text
  pub source_uri : Text
  pub status : Text
  pub verdict : Option Text
  pub created_at : Text
  pub started_at : Option Text
  pub finished_at : Option Text

pub record RunRecord : Type 0 where
  pub id : Text
  pub submission_id : Text
  pub attempt : ℤ
  pub runner_id : Text
  pub fixture : Text
  pub exit_code : Option ℤ
  pub verdict : Option Text
  pub output : Option Text
  pub log_uri : Option Text
  pub boot_ms : Option ℤ
  pub build_ms : Option ℤ
  pub run_ms : Option ℤ
  pub created_at : Text

pub record ProgressRecord : Type 0 where
  pub user_id : Text
  pub problem_id : Text
  pub solved_at : Option Text
  pub attempts : ℤ

-- Rows stand in the order of insertion.
pub record Db : Type 0 where
  pub users : List UserRecord
  pub problems : List ProblemRecord
  pub submissions : List SubmissionRecord
  pub runs : List RunRecord
  pub user_progress : List ProgressRecord

-- The database that the migrations make.
abbrev pub migrated : Db
migrated = record { users = []; problems = []; submissions = []; runs = []; user_progress = [] }
