-- ===== src/Store/Spec/Effect.antt =====
-- The specification of the operations that write: how one of them may change the submissions and the
-- progress of the learners. An operation that is none of these leaves both tables alone.
use satunera.Prelude.{
  true, false, ◌≡◌, ◌||◌, List, [], ◌∷◌, ◌++◌, map, Option, none, some, Text, codes, any,
  if◌then◌else◌,
}
use satunera.Prelude.Int.{pos}
use satunera.Contracts.Verdict
use satunera.Contracts.Verdict.{Verdict, is_accepted, counts_against_user}
use satunera.Store.Status
use satunera.Store.Status.{SubmissionStatus, done, can_transition_to}
use satunera.Store.Tables.{SubmissionRecord, ProgressRecord, Db, has_submission, is_progress}
use satunera.Store.Tables.Statements.{set_status, set_verdict, count_attempt, select_submission}

abbrev pub solved_stamp : Verdict → Text → Option Text
solved_stamp v stamp = if is_accepted v then some stamp else none

-- The table of progress after a verdict on the problem for the user.
abbrev pub next_progress : Text → Text → Verdict → Text → List ProgressRecord → List ProgressRecord
next_progress user problem v stamp rows =
    let counted = map (count_attempt user problem (solved_stamp v stamp)) rows in
    let first : ProgressRecord = record {
      user_id = user;
      problem_id = problem;
      solved_at = solved_stamp v stamp;
      attempts = pos 1;
    } in
    if counts_against_user v || is_accepted v
    then (if any (is_progress user problem) rows then counted else counted ++ first ∷ [])
    else rows

-- A row as `create_submission` makes it.
pub record IsFresh (row : SubmissionRecord) : Type 0 where
  pub status : row.status ≡ codes "QUEUED"
  pub verdict : row.verdict ≡ none
  pub started_at : row.started_at ≡ none
  pub finished_at : row.finished_at ≡ none

-- The row that an operation found, and the move from its status that it may make.
pub record MayMove (id : Text) (row : SubmissionRecord) (next : SubmissionStatus) (db : Db)
    : Type 0 where
  pub found : select_submission id db ≡ some row
  pub current : SubmissionStatus
  pub parsed : Status.parse row.status ≡ some current
  pub legal : can_transition_to current next ≡ true

pub data Effect (db after : Db) : Type 0 where
  unchanged :
      after.submissions ≡ db.submissions → after.user_progress ≡ db.user_progress → Effect db after
  created :
      (row : SubmissionRecord)
      → IsFresh row
      → has_submission row.id db ≡ false
      → after.submissions ≡ db.submissions ++ row ∷ []
      → after.user_progress ≡ db.user_progress
      → Effect db after
  advanced :
      (id : Text) (row : SubmissionRecord) (next : SubmissionStatus) (stamp : Text)
      → MayMove id row next db
      → ((stored : Text) → row.started_at ≡ some stored → stamp ≡ stored)
      → after.submissions ≡ map (set_status id (Status.as_str next) stamp) db.submissions
      → after.user_progress ≡ db.user_progress
      → Effect db after
  finished :
      (id : Text) (row : SubmissionRecord) (v : Verdict) (stamp : Text)
      → MayMove id row done db
      → after.submissions ≡ map (set_verdict id (Verdict.as_str v) stamp) db.submissions
      → after.user_progress ≡ next_progress row.user_id row.problem_id v stamp db.user_progress
      → Effect db after
