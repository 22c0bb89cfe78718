-- ===== src/Store/Model.antt =====
-- crates/satunera-store/src/model.rs: the rows as Rust sees them. `Ulid` and `Time` are the types of
-- identifiers and instants; a `u32` is a natural number, an `i32` an integer.
use satunera.Prelude.{ℕ, Option, Text}
use satunera.Prelude.Int.{ℤ}
use satunera.Contracts.Language.{Language}
use satunera.Contracts.Verdict.{Verdict}
use satunera.Store.Role.{Role}
use satunera.Store.Status.{SubmissionStatus}

pub record User (Ulid Time : Type 0) : Type 0 where
  pub id : Ulid
  pub handle : Text
  pub email : Text
  pub password_hash : Text
  pub role : Role
  pub created_at : Time

pub record NewUser : Type 0 where
  pub handle : Text
  pub email : Text
  pub password_hash : Text
  pub role : Role

pub record ProblemRow (Time : Type 0) : Type 0 where
  pub id : Text
  pub commit_sha : Text
  pub title : Text
  pub category : Text
  pub difficulty : Text
  pub manifest : Text
  pub updated_at : Time

pub record Submission (Ulid Time : Type 0) : Type 0 where
  pub id : Ulid
  pub user_id : Ulid
  pub problem_id : Text
  pub language : Language
  pub source_hash : Text
  pub source_uri : Text
  pub status : SubmissionStatus
  pub verdict : Option Verdict
  pub created_at : Time
  pub started_at : Option Time
  pub finished_at : Option Time

pub record NewSubmission (Ulid : Type 0) : Type 0 where
  pub user_id : Ulid
  pub problem_id : Text
  pub language : Language
  pub source_hash : Text
  pub source_uri : Text

pub record Run (Ulid Time : Type 0) : Type 0 where
  pub id : Ulid
  pub submission_id : Ulid
  pub attempt : ℕ
  pub runner_id : Text
  pub fixture : Text
  pub exit_code : Option ℤ
  pub verdict : Option Verdict
  pub output : Option Text
  pub log_uri : Option Text
  pub boot_ms : Option ℕ
  pub build_ms : Option ℕ
  pub run_ms : Option ℕ
  pub created_at : Time

pub record NewRun (Ulid : Type 0) : Type 0 where
  pub submission_id : Ulid
  pub attempt : ℕ
  pub runner_id : Text
  pub fixture : Text
  pub exit_code : Option ℤ
  pub verdict : Option Verdict
  pub output : Option Text
  pub log_uri : Option Text
  pub boot_ms : Option ℕ
  pub build_ms : Option ℕ
  pub run_ms : Option ℕ

pub record UserProgress (Ulid Time : Type 0) : Type 0 where
  pub user_id : Ulid
  pub problem_id : Text
  pub solved_at : Option Time
  pub attempts : ℕ
