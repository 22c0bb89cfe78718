-- ===== src/Store/Tests/Listings.antt =====
-- The reads of the store at a history, and a run that is recorded after it.
use satunera.Prelude.{All, ℕ, ◌≡◌, ◌↔◌, refl, List, [], ◌∷◌, none, some, codes, arith, false}
use mathlib.Core.List.{Permᴰ}
use satunera.Prelude.Int.{pos}
use satunera.Prelude.Members.{Occurs}
use satunera.Prelude.Sorting.{sort_by, insert_by}
use satunera.Contracts.Language.{rust}
use satunera.Contracts.Language
use satunera.Contracts.Verdict
use satunera.Contracts.Verdict.{wa, ac}
use satunera.Store.Status.{queued, is_terminal}
use satunera.Store.Error.{ok}
use satunera.Store.Model.{Submission, Run, NewRun}
use satunera.Store.Tables.{SubmissionRecord, Db, migrated, run_taken}
use satunera.Store.Tables.Statements.{insert_run}
use satunera.Store.Sqlite.Actions.{now, parse_ts, parse_opt_ts}
use satunera.Store.Sqlite.Submissions.{in_flight_submissions, into_submission}
use satunera.Store.Sqlite.Runs.{decode_run, record_run, runs_for_submission, run_row}
use satunera.Store.Spec.Operations.{Op, run}
use satunera.Store.Spec.Operations
use satunera.Store.Spec.Keeping.{HasFit}
use satunera.Store.Invariants.Decodable.{InRange}
use satunera.Store.Behaviour.Reads.{Answers, run-Answers}
use satunera.Store.Behaviour.Listings.{in_flight_iff}
use satunera.Store.Behaviour.Standing.{Tells, run-Tells}
use satunera.Store.Behaviour.Attempts.{runs_for_submission-record_run}
use satunera.Store.Tests.Gathered.{operations}
use satunera.Store.Tests.Sample.{numbers, ann, week_1, attempt, history}

abbrev first_run : NewRun ℕ
first_run = record {
  submission_id = 2;
  attempt = 1;
  runner_id = codes "runner";
  fixture = codes "regtest";
  exit_code = some (pos 1);
  verdict = some wa;
  output = none;
  log_uri = none;
  boot_ms = some 40;
  build_ms = none;
  run_ms = some 7;
}

first_run-InRange : InRange first_run
first_run-InRange = record {
  attempt = omega arith;
  exit_code = refl;
  boot_ms = omega arith;
  build_ms = tt;
  run_ms = omega arith;
}

-- A submission that waits.
abbrev waiting : List (Op ℕ ℕ)
waiting =
    Operations.create_user 1 10 ann
    ∷ Operations.replace_problems (week_1 ∷ [])
    ∷ Operations.create_submission 2 11 (attempt (codes "aa"))
    ∷ Operations.record_run 5 12 first_run
    ∷ []

run-Answers_example :
    Answers numbers (run numbers waiting migrated) 2 (codes "bob") (codes "week-1") (codes "aa") 3
run-Answers_example =
    run-Answers numbers waiting 2 (codes "bob") (codes "week-1") (codes "aa") 3
      (tt, (tt, (tt, (first_run-InRange, tt))))

abbrev queued_submission : Submission ℕ ℕ
queued_submission = record {
  id = 2;
  user_id = 1;
  problem_id = codes "week-1";
  language = rust;
  source_hash = codes "aa";
  source_uri = codes "file:///blobs/x";
  status = queued;
  verdict = none;
  created_at = 11;
  started_at = none;
  finished_at = none;
}

abbrev before : Db
before =
    run numbers
      (Operations.create_user 1 10 ann
        ∷ Operations.replace_problems (week_1 ∷ [])
        ∷ Operations.create_submission 2 11 (attempt (codes "aa"))
        ∷ [])
      migrated

flying : (in_flight_submissions numbers before).0 ≡ ok (queued_submission ∷ [])
unfolding operations in_flight_submissions into_submission Language.parse sort_by now parse_ts
    parse_opt_ts
flying = refl

in_flight_iff_example : Occurs queued_submission (queued_submission ∷ []) ↔ (
    (row : SubmissionRecord) × Occurs row before.submissions
    × (into_submission numbers row ≡ ok queued_submission)
    × (is_terminal queued ≡ false))
in_flight_iff_example =
    in_flight_iff numbers before (queued_submission ∷ []) queued_submission flying

-- The submission with one run, which is read before another is recorded.
abbrev run_once : Db
run_once = run numbers waiting migrated

abbrev run_before : Run ℕ ℕ
run_before = record {
  id = 5;
  submission_id = 2;
  attempt = 1;
  runner_id = codes "runner";
  fixture = codes "regtest";
  exit_code = some (pos 1);
  verdict = some wa;
  output = none;
  log_uri = none;
  boot_ms = some 40;
  build_ms = none;
  run_ms = some 7;
  created_at = 12;
}

one_run : (runs_for_submission numbers 2 run_once).0 ≡ ok (run_before ∷ [])
unfolding operations runs_for_submission sort_by insert_by decode_run record_run run_row insert_run
    run_taken now parse_ts Verdict.parse
one_run = refl

abbrev second_run : NewRun ℕ
second_run = record first_run { attempt = 2; verdict = some ac; log_uri = some (codes "file:///l") }

second_run-InRange : InRange second_run
second_run-InRange = record {
  attempt = omega arith;
  exit_code = refl;
  boot_ms = omega arith;
  build_ms = tt;
  run_ms = omega arith;
}

abbrev recorded_run : Run ℕ ℕ
recorded_run = record run_before {
  id = 6;
  attempt = 2;
  verdict = some ac;
  log_uri = some (codes "file:///l");
  created_at = 13;
}

abbrev run_twice : Db
run_twice = (record_run numbers 6 13 second_run run_once).1

recorded : record_run numbers 6 13 second_run run_once ≡ (ok recorded_run, run_twice)
unfolding operations record_run run_row insert_run run_taken now parse_ts
recorded = refl

runs_for_submission-record_run_example :
    (rs : List (Run ℕ ℕ)) × ((runs_for_submission numbers 2 run_twice).0 ≡ ok rs)
    × Permᴰ (recorded_run ∷ run_before ∷ []) rs
runs_for_submission-record_run_example =
    runs_for_submission-record_run numbers 6 13 second_run run_once (run_before ∷ [])
      second_run-InRange one_run recorded_run run_twice recorded

history_fits : All (HasFit InRange) history
history_fits = (tt, (tt, (tt, (tt, (tt, (tt, (tt, (tt, (tt, (tt, (tt, (tt, tt))))))))))))

run-Tells_example : Tells numbers 1 (codes "week-1") (run numbers history migrated)
run-Tells_example = run-Tells numbers history 1 (codes "week-1") (omega arith) history_fits
