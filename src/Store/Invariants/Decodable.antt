-- ===== src/Store/Invariants/Decodable.antt =====
-- The rows that crates/satunera-store/src/sqlite.rs writes are rows that it can read: no history of
-- calls makes one that is corrupt.
pub mod Rows
pub mod Writes
use satunera.Prelude.{
  ℕ, Bool, not, ◌≡◌, refl, sym, ap, ◌∙◌, inl, inr, List, [], ◌∷◌, ◌++◌, map, Option, none, some,
  Text, codes, text_eq, find?, filter, any, All, All-append, find?-All, Bool-cases, arith,
  if◌then◌else◌, ◌<◌,
}
use satunera.Prelude.Int.{ℤ, pos, to_u32, to_i32, to_u32-pos, two_pow_32}
use satunera.Contracts.Language
use satunera.Contracts.Verdict
use satunera.Contracts.Verdict.{Verdict}
use satunera.Store.Role
use satunera.Store.Status
use satunera.Store.Codec.{Codec}
use satunera.Store.Error.{ok}
use satunera.Store.Model.{NewUser, ProblemRow, NewSubmission, NewRun}
use satunera.Store.Status.{SubmissionStatus}
use satunera.Store.Tables.{
  UserRecord, ProblemRecord, SubmissionRecord, RunRecord, ProgressRecord, Db, migrated,
}
use satunera.Store.Tables.Statements
use satunera.Store.Tables.Statements.{
  stored, update_problem, set_status, set_verdict, select_submission,
}
use satunera.Store.Sqlite.Actions.{now, formatted}
use satunera.Store.Sqlite.Problems.{encode_problem}
use satunera.Store.Sqlite.Submissions.{queued_row, started_or_now}
use satunera.Store.Sqlite.Runs.{run_row, mapped}
use satunera.Store.Spec.Operations.{Op, run}
use satunera.Store.Spec.Statements.{Keeps, IsStamp, IsStampIfAny}
use satunera.Store.Spec.Keeping.{HasFit, run-Keeps, formatted-eq-ok}

abbrev pub Has : {A : Type 0} → Option A → Type 0
Has {A} o = (a : A) × (o ≡ some a)

-- What is there reads.
abbrev pub Each : {A : Type 0} → (A → Type 0) → Option A → Type 0
Each P none = Unit
Each P (some a) = P a

-- The numbers of a run are those of its type in Rust.
pub record InRange {Ulid : Type 0} (new : NewRun Ulid) : Type 0 where
  pub attempt : new.attempt < two_pow_32
  pub exit_code : Each (λ n. to_i32 n ≡ some n) new.exit_code
  pub boot_ms : Each (λ n. n < two_pow_32) new.boot_ms
  pub build_ms : Each (λ n. n < two_pow_32) new.build_ms
  pub run_ms : Each (λ n. n < two_pow_32) new.run_ms

queued_reads : Status.parse (codes "QUEUED") ≡ some Status.queued
unfolding Status.as_str
queued_reads = Status.parse-as_str Status.queued

pub done_reads : Status.parse (codes "DONE") ≡ some Status.done
unfolding Status.as_str
done_reads = Status.parse-as_str Status.done

module _ {Ulid Time : Type 0} (c : Codec Ulid Time) where
  pub record UserReads (row : UserRecord) : Type 0 where
    pub id : Has (c.parse_ulid row.id)
    pub role : Has (Role.parse row.role)
    pub created_at : Has (c.parse_time row.created_at)

  pub record SubmissionReads (row : SubmissionRecord) : Type 0 where
    pub id : Has (c.parse_ulid row.id)
    pub user_id : Has (c.parse_ulid row.user_id)
    pub language : Has (Language.parse row.language)
    pub status : Has (Status.parse row.status)
    pub verdict : Each (λ v. Has (Verdict.parse v)) row.verdict
    pub created_at : Has (c.parse_time row.created_at)
    pub started_at : Each (λ at. Has (c.parse_time at)) row.started_at
    pub finished_at : Each (λ at. Has (c.parse_time at)) row.finished_at

  pub record RunReads (row : RunRecord) : Type 0 where
    pub id : Has (c.parse_ulid row.id)
    pub attempt : Has (to_u32 row.attempt)
    pub exit_code : Each (λ n. Has (to_i32 n)) row.exit_code
    pub verdict : Each (λ v. Has (Verdict.parse v)) row.verdict
    pub boot_ms : Each (λ n. Has (to_u32 n)) row.boot_ms
    pub build_ms : Each (λ n. Has (to_u32 n)) row.build_ms
    pub run_ms : Each (λ n. Has (to_u32 n)) row.run_ms
    pub created_at : Has (c.parse_time row.created_at)

  abbrev pub ProblemReads : ProblemRecord → Type 0
  ProblemReads row = Has (c.parse_time row.updated_at)

  abbrev pub ProgressReads : ProgressRecord → Type 0
  ProgressReads row = Each (λ at. Has (c.parse_time at)) row.solved_at

  pub record IsDecodable (db : Db) : Type 0 where
    pub users : All UserReads db.users
    pub problems : All ProblemReads db.problems
    pub submissions : All SubmissionReads db.submissions
    pub runs : All RunReads db.runs
    pub progress : All ProgressReads db.user_progress

  pub stamp_reads : (at : Text) → IsStamp c InRange at → Has (c.parse_time at)
  stamp_reads at (t, f) = (t, c.time_printed t at f)

  pub stamp_reads_if_any :
      (o : Option Text) → IsStampIfAny c InRange o → Each (λ at. Has (c.parse_time at)) o
  stamp_reads_if_any none h = tt
  stamp_reads_if_any (some at) h = stamp_reads at h

  pub id_reads : (id : Ulid) → Has (c.parse_ulid (c.ulid_text id))
  id_reads id = (id, c.ulid_printed id)

  pub queued_row-SubmissionReads :
      (id : Ulid) (new : NewSubmission Ulid) (at : Text)
      → IsStamp c InRange at
      → SubmissionReads (queued_row c id at new)
  unfolding queued_row
  queued_row-SubmissionReads id new at s = record {
    id = id_reads id;
    user_id = id_reads new.user_id;
    language = (new.language, Language.parse-as_str new.language);
    status = (Status.queued, queued_reads);
    verdict = tt;
    created_at = stamp_reads at s;
    started_at = tt;
    finished_at = tt;
  }

  mapped_reads :
      (o : Option ℕ) → Each (λ n. n < two_pow_32) o → Each (λ n. Has (to_u32 n)) (mapped pos o)
  mapped_reads none h = tt
  mapped_reads (some n) h = (n, to_u32-pos n h)

  mapped-verdict :
      (o : Option Verdict) → Each (λ v. Has (Verdict.parse v)) (mapped Verdict.as_str o)
  mapped-verdict none = tt
  mapped-verdict (some v) = (v, Verdict.parse-as_str v)

  Each-Has : (o : Option ℤ) → Each (λ n. to_i32 n ≡ some n) o → Each (λ n. Has (to_i32 n)) o
  Each-Has none h = tt
  Each-Has (some n) h = (n, h)

  pub run_row-RunReads :
      (id : Ulid) (new : NewRun Ulid) (at : Text)
      → IsStamp c InRange at
      → InRange new
      → RunReads (run_row c id at new)
  unfolding run_row
  run_row-RunReads id new at s r = record {
    id = id_reads id;
    attempt = (new.attempt, to_u32-pos new.attempt r.attempt);
    exit_code = Each-Has new.exit_code r.exit_code;
    verdict = mapped-verdict new.verdict;
    boot_ms = mapped_reads new.boot_ms r.boot_ms;
    build_ms = mapped_reads new.build_ms r.build_ms;
    run_ms = mapped_reads new.run_ms r.run_ms;
    created_at = stamp_reads at s;
  }
