-- ===== src/Store/Tests/Histories.antt =====
-- The invariants of the store at a history.
use satunera.Prelude.{◌≡◌, refl, [], ◌∷◌, some, codes}
use satunera.Prelude.Int.{pos}
use satunera.Store.Status.{preparing}
use satunera.Store.Tables.{SubmissionRecord, migrated}
use satunera.Store.Tables.Statements.{select_submission}
use satunera.Store.Spec.Operations.{run, set_submission_status}
use satunera.Store.Invariants.Lifecycle.{IsSound, run-IsSound}
use satunera.Store.Invariants.Tally.{attempts_in, solved_in}
use satunera.Store.Invariants.Progress.{IsTallied}
use satunera.Store.Invariants.Totals.{run-IsTallied}
use satunera.Store.Invariants.History.{Later, run-Later}
use satunera.Store.Tests.Gathered.{operations}
use satunera.Store.Invariants.Keys.{IsKeyed, run-IsKeyed}
use satunera.Store.Tests.Sample.{numbers, history}

-- One attempt failed and one succeeded; the error of the judge is not counted.
two_attempts :
    (attempts_in (1 ∷ []) (codes "week-1") (run numbers history migrated).user_progress ≡ pos 2)
    × (solved_in (1 ∷ []) (codes "week-1") (run numbers history migrated).user_progress
        ≡ some (20 ∷ []))
unfolding operations
two_attempts = (refl, refl)

abbrev judged_row : SubmissionRecord
judged_row = record {
  id = 2 ∷ [];
  user_id = 1 ∷ [];
  problem_id = codes "week-1";
  language = codes "rust";
  source_hash = codes "aa";
  source_uri = codes "file:///blobs/x";
  status = codes "DONE";
  verdict = some (codes "WA");
  created_at = 11 ∷ [];
  started_at = some (12 ∷ []);
  finished_at = some (14 ∷ []);
}

judged : select_submission (2 ∷ []) (run numbers history migrated) ≡ some judged_row
unfolding operations
judged = refl

run-IsSound_example : IsSound (run numbers history migrated)
run-IsSound_example = run-IsSound numbers history

run-IsTallied_example : IsTallied (1 ∷ []) (codes "week-1") (run numbers history migrated)
run-IsTallied_example = run-IsTallied numbers history (1 ∷ []) (codes "week-1")

run-Later_example :
    (row : SubmissionRecord) × (select_submission
        (2 ∷ [])
        (run numbers (set_submission_status 30 2 preparing ∷ []) (run numbers history migrated))
      ≡ some row)
    × Later judged_row row
run-Later_example =
    run-Later numbers (set_submission_status 30 2 preparing ∷ []) (run numbers history migrated)
      (2 ∷ []) judged_row judged

run-IsKeyed_example : IsKeyed (run numbers history migrated)
run-IsKeyed_example = run-IsKeyed numbers history
