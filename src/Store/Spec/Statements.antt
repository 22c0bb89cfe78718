-- ===== src/Store/Spec/Statements.antt =====
-- The statements that write, as data: what every one of them keeps, every history of calls keeps.
use satunera.Prelude.{◌≡◌, Option, none, some, Text}
use satunera.Contracts.Verdict
use satunera.Contracts.Verdict.{Verdict, is_accepted, counts_against_user}
use satunera.Store.Status
use satunera.Store.Status.{SubmissionStatus, done}
use satunera.Store.Codec.{Codec}
use satunera.Store.Error.{ok}
use satunera.Store.Model.{NewUser, ProblemRow, NewSubmission, NewRun}
use satunera.Store.Role
use satunera.Store.Tables.{
  UserRecord, ProblemRecord, SubmissionRecord, RunRecord, ProgressRecord, Db,
}
use satunera.Store.Tables.Statements
use satunera.Store.Tables.Statements.{Written, stored, select_submission}
use satunera.Store.Sqlite.Problems
use satunera.Store.Sqlite.Submissions
use satunera.Store.Sqlite.Runs

pub data Statement : Type 0 where
  insert_user : UserRecord → Statement
  upsert_problem : ProblemRecord → Statement
  delete_problem : Text → Statement
  insert_submission : SubmissionRecord → Statement
  update_status : (id status started : Text) → Statement
  update_verdict : (id verdict finished : Text) → Statement
  update_progress : (user problem : Text) → Option Text → Statement
  insert_progress : ProgressRecord → Statement
  insert_run : RunRecord → Statement

abbrev pub perform : Statement → Db → Written
perform (insert_user row) = Statements.insert_user row
perform (upsert_problem row) = Statements.upsert_problem row
perform (delete_problem id) = Statements.delete_problem id
perform (insert_submission row) = Statements.insert_submission row
perform (update_status id status started) = Statements.update_status id status started
perform (update_verdict id verdict finished) = Statements.update_verdict id verdict finished
perform (update_progress user problem solved) = Statements.update_progress user problem solved
perform (insert_progress row) = Statements.insert_progress row
perform (insert_run row) = Statements.insert_run row

abbrev pub Kept : (Db → Type 0) → Type 0
Kept P = (s : Statement) (db after : Db) → perform s db ≡ stored after → P db → P after

-- The statements as the code issues them: the rows that it encodes, with instants that it has
-- formatted. `Fit` is what is known of the runs that are recorded.
module _ {Ulid Time : Type 0} (c : Codec Ulid Time) (Fit : NewRun Ulid → Type 0) where
  abbrev pub IsStamp : Text → Type 0
  IsStamp at = (t : Time) × (c.format t ≡ some at)

  abbrev pub IsStampIfAny : Option Text → Type 0
  IsStampIfAny none = Unit
  IsStampIfAny (some at) = IsStamp at

  pub record Keeps (P : Db → Type 0) : Type 0 where
    pub user :
        (id : Ulid) (new : NewUser) (at : Text) (db after : Db)
        → IsStamp at
        → Statements.insert_user
            (record {
              id = c.ulid_text id;
              handle = new.handle;
              email = new.email;
              password_hash = new.password_hash;
              role = Role.as_str new.role;
              created_at = at;
            })
            db
          ≡ stored after
        → P db
        → P after
    pub upserted :
        (row : ProblemRow Time) (at : Text) (db after : Db)
        → IsStamp at
        → Statements.upsert_problem (Problems.encode_problem c row at) db ≡ stored after
        → P db
        → P after
    pub deleted :
        (id : Text) (db after : Db)
        → Statements.delete_problem id db ≡ stored after
        → P db
        → P after
    pub submission :
        (id : Ulid) (new : NewSubmission Ulid) (at : Text) (db after : Db)
        → IsStamp at
        → Statements.insert_submission (Submissions.queued_row c id at new) db ≡ stored after
        → P db
        → P after
    pub status :
        (clock : Time) (id : Ulid) (status : SubmissionStatus) (row : SubmissionRecord) (at : Text)
        (db after : Db)
        → select_submission (c.ulid_text id) db ≡ some row
        → Submissions.started_or_now c row.started_at clock ≡ ok at
        → Statements.update_status (c.ulid_text id) (Status.as_str status) at db ≡ stored after
        → P db
        → P after
    pub verdict :
        (id : Ulid) (v : Verdict) (at : Text) (db after : Db)
        → IsStamp at
        → Statements.update_verdict (c.ulid_text id) (Verdict.as_str v) at db ≡ stored after
        → P db
        → P after
    pub counted :
        (user problem : Text) (solved : Option Text) (db after : Db)
        → IsStampIfAny solved
        → Statements.update_progress user problem solved db ≡ stored after
        → P db
        → P after
    pub first_counted :
        (row : ProgressRecord) (db after : Db)
        → IsStampIfAny row.solved_at
        → Statements.insert_progress row db ≡ stored after
        → P db
        → P after
    pub recorded :
        (id : Ulid) (new : NewRun Ulid) (at : Text) (db after : Db)
        → IsStamp at
        → Fit new
        → Statements.insert_run (Runs.run_row c id at new) db ≡ stored after
        → P db
        → P after

  pub Kept-Keeps : (P : Db → Type 0) → Kept P → Keeps P
  Kept-Keeps P k = record {
    user = λ id new at db after s e p. k (insert_user _) db after e p;
    upserted = λ row at db after s e p. k (upsert_problem _) db after e p;
    deleted = λ id db after e p. k (delete_problem id) db after e p;
    submission = λ id new at db after s e p. k (insert_submission _) db after e p;
    status = λ clock id status row at db after f s e p. k (update_status _ _ at) db after e p;
    verdict = λ id v at db after s e p. k (update_verdict _ _ at) db after e p;
    counted =
        λ user problem solved db after s e p. k (update_progress user problem solved) db after e p;
    first_counted = λ row db after s e p. k (insert_progress row) db after e p;
    recorded = λ id new at db after s f e p. k (insert_run _) db after e p;
  }
