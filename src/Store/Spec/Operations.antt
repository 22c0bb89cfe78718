-- ===== src/Store/Spec/Operations.antt =====
-- Histories of the store: sequences of the operations of crates/satunera-store/src/store.rs that write,
-- from the empty database that the migrations make.
use satunera.Prelude.{List, [], ◌∷◌}
use satunera.Contracts.Verdict.{Verdict}
use satunera.Store.Status.{SubmissionStatus}
use satunera.Store.Codec.{Codec}
use satunera.Store.Model.{NewUser, ProblemRow, NewSubmission, NewRun}
use satunera.Store.Tables.{Db}
use satunera.Store.Sqlite.Users
use satunera.Store.Sqlite.Problems
use satunera.Store.Sqlite.Submissions
use satunera.Store.Sqlite.Runs
use satunera.Store.Spec.Effect.{Effect}
use satunera.Store.Spec.Steps.{create_user-Effect, record_run-Effect, create_submission-Effect}
use satunera.Store.Spec.Transactions.{
  set_submission_status-Effect, finish_submission-Effect, replace_problems-Effect,
}

-- A call that writes, with the identifier that it mints and the instant that it reads.
pub data Op (Ulid Time : Type 0) : Type 0 where
  create_user : (id : Ulid) (clock : Time) → NewUser → Op Ulid Time
  replace_problems : List (ProblemRow Time) → Op Ulid Time
  create_submission : (id : Ulid) (clock : Time) → NewSubmission Ulid → Op Ulid Time
  set_submission_status : (clock : Time) (id : Ulid) → SubmissionStatus → Op Ulid Time
  finish_submission : (clock : Time) (id : Ulid) → Verdict → Op Ulid Time
  record_run : (id : Ulid) (clock : Time) → NewRun Ulid → Op Ulid Time

module _ {Ulid Time : Type 0} (c : Codec Ulid Time) where
  -- The database after a call, whether it returned or failed.
  unfoldable pub step : Op Ulid Time → Db → Db
  step (create_user id clock new) db = (Users.create_user c id clock new db).1
  step (replace_problems rows) db = (Problems.replace_problems c rows db).1
  step (create_submission id clock new) db = (Submissions.create_submission c id clock new db).1
  step (set_submission_status clock id status) db =
      (Submissions.set_submission_status c clock id status db).1
  step (finish_submission clock id v) db = (Submissions.finish_submission c clock id v db).1
  step (record_run id clock run) db = (Runs.record_run c id clock run db).1

  -- The database after a history of calls.
  unfoldable pub run : List (Op Ulid Time) → Db → Db
  unfolding step
  run [] db = db
  run (op ∷ ops) db = run ops (step op db)

  -- Whatever the call, and whether it returns or fails, the submissions and the progress change by one
  -- of the effects of the specification.
  pub step-Effect : (op : Op Ulid Time) (db : Db) → Effect db (step op db)
  unfolding step
  step-Effect (create_user id clock new) db = create_user-Effect c id clock new db
  step-Effect (replace_problems rows) db = replace_problems-Effect c rows db
  step-Effect (create_submission id clock new) db = create_submission-Effect c id clock new db
  step-Effect (set_submission_status clock id status) db =
      set_submission_status-Effect c clock id status db
  step-Effect (finish_submission clock id v) db = finish_submission-Effect c clock id v db
  step-Effect (record_run id clock run) db = record_run-Effect c id clock run db

  -- What every effect keeps holds after every history.
  pub run_induction :
      (P : Db → Type 0)
      → ((db after : Db) → P db → Effect db after → P after)
      → (ops : List (Op Ulid Time)) (db : Db) → P db
      → P (run ops db)
  unfolding run
  run_induction P keep [] db p = p
  run_induction P keep (op ∷ ops) db p =
      run_induction P keep ops (step op db) (keep db (step op db) p (step-Effect op db))
