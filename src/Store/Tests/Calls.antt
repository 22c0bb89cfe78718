-- ===== src/Store/Tests/Calls.antt =====
-- The calls of the store at a small database.
use satunera.Prelude.{ℕ, false, ◌≡◌, refl, List, [], ◌∷◌, map, none, some, codes, if◌then◌else◌}
use satunera.Contracts.Language.{rust}
use satunera.Contracts.Verdict
use satunera.Contracts.Verdict.{wa, ac}
use satunera.Store.Role.{learner}
use satunera.Store.Status
use satunera.Store.Status.{can_transition_to, queued, preparing, running, building, done}
use satunera.Store.Error.{ok, err, illegal_transition}
use satunera.Store.Model.{User, Submission}
use satunera.Store.Tables.{SubmissionRecord, Db, migrated}
use satunera.Store.Tables.Statements.{set_status, set_verdict, select_submission}
use satunera.Store.Sqlite.Actions.{now, parse_ts}
use satunera.Store.Sqlite.Users
use satunera.Store.Sqlite.Problems
use satunera.Store.Sqlite.Submissions
use satunera.Store.Spec.Effect.{next_progress}
use satunera.Store.Spec.Operations.{
  Op, run, step, create_user, replace_problems, create_submission, set_submission_status,
}
use satunera.Store.Invariants.Links.{IsLinked}
use satunera.Store.Invariants.Links.Tables.{run-IsLinked}
use satunera.Store.Behaviour.Atomicity.{succeeds, failed_step}
use satunera.Store.Behaviour.Transitions.{
  set_submission_status_cases, finish_submission_cases, kept_or,
}
use satunera.Store.Behaviour.Roundtrips.{user-create_user, submission-create_submission}
use satunera.Store.Behaviour.Catalog.{problem-replace_problems, answer, last_from}
use satunera.Prelude.{true}
use satunera.Store.Spec.Operations
use satunera.Store.Invariants.Lifecycle.{run-IsSound}
use satunera.Store.Behaviour.Stranded.{set_submission_status-strands}
use satunera.Store.Tests.Sample.{numbers, ann, week_1, attempt}
use satunera.Store.Tests.Gathered.{operations}

-- A user, a problem and a submission that has left the queue.
abbrev opening : List (Op ℕ ℕ)
opening =
    create_user 1 10 ann
    ∷ replace_problems (week_1 ∷ [])
    ∷ create_submission 2 11 (attempt (codes "aa"))
    ∷ set_submission_status 12 2 preparing
    ∷ []

abbrev opened : Db
opened = run numbers opening migrated

abbrev prepared_row : SubmissionRecord
prepared_row = record {
  id = 2 ∷ [];
  user_id = 1 ∷ [];
  problem_id = codes "week-1";
  language = codes "rust";
  source_hash = codes "aa";
  source_uri = codes "file:///blobs/x";
  status = codes "PREPARING";
  verdict = none;
  created_at = 11 ∷ [];
  started_at = some (12 ∷ []);
  finished_at = none;
}

prepared : select_submission (2 ∷ []) opened ≡ some prepared_row
unfolding operations
prepared = refl

prepared_parsed : Status.parse prepared_row.status ≡ some preparing
unfolding operations
prepared_parsed = refl

run-IsLinked_example : IsLinked (run numbers opening migrated)
run-IsLinked_example = run-IsLinked numbers opening

set_submission_status_cases_example :
    Submissions.set_submission_status numbers 20 2 running opened ≡ (
      if can_transition_to preparing running
      then (
        ok tt,
        record opened {
          submissions =
              map
                (set_status
                  (2 ∷ [])
                  (Status.as_str running)
                  (kept_or prepared_row.started_at (20 ∷ [])))
                opened.submissions;
        },
      )
      else (err (illegal_transition 2 (Status.as_str preparing) (Status.as_str running)), opened))
set_submission_status_cases_example =
    set_submission_status_cases numbers 20 (20 ∷ []) 2 running opened prepared_row preparing refl
      prepared prepared_parsed

finish_submission_cases_example : Submissions.finish_submission numbers 20 2 wa opened ≡ (
    if can_transition_to preparing done
    then (
      ok tt,
      record opened {
        submissions = map (set_verdict (2 ∷ []) (Verdict.as_str wa) (20 ∷ [])) opened.submissions;
        user_progress =
            next_progress prepared_row.user_id prepared_row.problem_id wa
              (20 ∷ [])
              opened.user_progress;
      },
    )
    else (err (illegal_transition 2 (Status.as_str preparing) (Status.as_str done)), opened))
finish_submission_cases_example =
    finish_submission_cases numbers 20 (20 ∷ []) 2 wa opened prepared_row preparing refl
      (run-IsLinked numbers opening) prepared prepared_parsed

absent : select_submission (7 ∷ []) opened ≡ none
unfolding operations
absent = refl

-- The handle is taken.
taken : succeeds numbers (create_user 9 30 ann) opened ≡ false
unfolding operations succeeds
taken = refl

failed_step_example : step numbers (create_user 9 30 ann) opened ≡ opened
failed_step_example = failed_step numbers (create_user 9 30 ann) opened taken

abbrev ann_stored : User ℕ ℕ
ann_stored = record {
  id = 1;
  handle = codes "ann";
  email = codes "ann@example.org";
  password_hash = codes "#";
  role = learner;
  created_at = 10;
}

abbrev with_ann : Db
with_ann = (Users.create_user numbers 1 10 ann migrated).1

ann_created : Users.create_user numbers 1 10 ann migrated ≡ (ok ann_stored, with_ann)
unfolding operations now parse_ts
ann_created = refl

user-create_user_example :
    (Users.user numbers 1 with_ann ≡ (ok ann_stored, with_ann))
    × (Users.user_by_handle numbers (codes "ann") with_ann ≡ (ok ann_stored, with_ann))
user-create_user_example =
    user-create_user numbers 1 10 ann migrated ann_stored with_ann ann_created

abbrev resubmitted : Submission ℕ ℕ
resubmitted = record {
  id = 5;
  user_id = 1;
  problem_id = codes "week-1";
  language = rust;
  source_hash = codes "bb";
  source_uri = codes "file:///blobs/x";
  status = queued;
  verdict = none;
  created_at = 40;
  started_at = none;
  finished_at = none;
}

abbrev with_second : Db
with_second = (Submissions.create_submission numbers 5 40 (attempt (codes "bb")) opened).1

second_created :
    Submissions.create_submission numbers 5 40 (attempt (codes "bb")) opened
    ≡ (ok resubmitted, with_second)
unfolding operations now parse_ts
second_created = refl

submission-create_submission_example :
    (Submissions.submission numbers 5 with_second ≡ (ok resubmitted, with_second))
    × (resubmitted ≡ record resubmitted {
      status = queued;
      verdict = none;
      started_at = none;
      finished_at = none;
    })
submission-create_submission_example =
    submission-create_submission numbers 5 40 (attempt (codes "bb")) opened resubmitted with_second
      second_created

abbrev catalogued : Db
catalogued = (Problems.replace_problems numbers (week_1 ∷ []) migrated).1

replaced : Problems.replace_problems numbers (week_1 ∷ []) migrated ≡ (ok tt, catalogued)
unfolding operations
replaced = refl

problem-replace_problems_example :
    Problems.problem numbers (codes "week-1") catalogued
    ≡ (answer (codes "week-1") (last_from (codes "week-1") none (week_1 ∷ [])), catalogued)
problem-replace_problems_example =
    problem-replace_problems numbers (codes "week-1") (week_1 ∷ []) migrated catalogued replaced

may_end : can_transition_to preparing done ≡ true
unfolding operations
may_end = refl

-- The attempt to finish it afterwards is refused.
set_submission_status-strands_example :
    select_submission (2 ∷ []) (
      run numbers
        (Operations.finish_submission 31 2 ac ∷ [])
        (Submissions.set_submission_status numbers 30 2 done opened).1)
    ≡ some (record prepared_row {
      status = codes "DONE";
      started_at = some (kept_or prepared_row.started_at (30 ∷ []));
      verdict = none;
      finished_at = none;
    })
set_submission_status-strands_example =
    set_submission_status-strands numbers 30 (30 ∷ []) 2 opened prepared_row preparing
      (Operations.finish_submission 31 2 ac ∷ []) refl (run-IsSound numbers opening) prepared
      prepared_parsed may_end
