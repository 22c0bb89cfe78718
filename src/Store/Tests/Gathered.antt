-- ===== src/Store/Tests/Gathered.antt =====
-- The definitions that a run of the store unfolds.
use satunera.Prelude.{find?, text_eq, any, filter}
use satunera.Contracts.Language
use satunera.Contracts.Verdict
use satunera.Contracts.Verdict.{is_accepted, counts_against_user}
use satunera.Store.Role
use satunera.Store.Status
use satunera.Store.Status.{can_transition_to, preparing}
use satunera.Store.Tables.{
  role_check, difficulty_check, language_check, status_check, verdict_check, has_user, has_problem,
  has_submission, user_taken, is_progress,
}
use satunera.Store.Tables.Statements
use satunera.Store.Tables.Statements.{select_submission}
use satunera.Store.Sqlite.Users
use satunera.Store.Sqlite.Problems
use satunera.Store.Sqlite.Submissions
use satunera.Store.Spec.Operations.{run}

statements : Unit {0}
unfolding find? text_eq any filter role_check difficulty_check language_check status_check
    verdict_check has_user has_problem has_submission user_taken is_progress Statements.insert_user
    Statements.upsert_problem Statements.update_problem Statements.insert_submission
    Statements.set_status Statements.update_status Statements.set_verdict Statements.update_verdict
    Statements.count_attempt Statements.update_progress Statements.insert_progress select_submission
statements = tt

unfoldable pub operations : Unit {0}
unfolding statements Users.create_user Problems.replace_problems Problems.replace_body
    Problems.delete_stale Problems.upsert_all Problems.upsert_one Problems.encode_problem
    Problems.keeps Submissions.create_submission Submissions.queued_row
    Submissions.set_submission_status Submissions.status_body Submissions.checked_transition
    Submissions.started_or_now Submissions.finish_submission Submissions.finish_body
    Submissions.record_progress run Language.as_str Verdict.as_str Status.parse Status.as_str
    Role.as_str can_transition_to is_accepted counts_against_user
operations = tt
