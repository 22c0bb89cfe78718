-- ===== src/Store/Invariants/Decodable/Writes.antt =====
-- Every statement that crates/satunera-store/src/sqlite.rs issues leaves rows that read.
use satunera.Prelude.{
  not, ◌≡◌, inl, inr, List, [], ◌∷◌, ◌++◌, map, Text, text_eq, filter, All, All-append, All-map,
  All-filter, find?-All, Bool-cases, arith,
}
use satunera.Contracts.Verdict
use satunera.Contracts.Verdict.{Verdict}
use satunera.Store.Role
use satunera.Store.Status
use satunera.Store.Codec.{Codec}
use satunera.Store.Status.{SubmissionStatus}
use satunera.Store.Tables.{
  UserRecord, ProblemRecord, SubmissionRecord, RunRecord, Db, migrated, has_problem,
}
use satunera.Store.Tables.Statements
use satunera.Store.Tables.Statements.{
  stored, update_problem, set_status, set_verdict, count_attempt, select_submission,
}
use satunera.Store.Spec.Operations.{Op, run}
use satunera.Store.Spec.Statements.{Keeps}
use satunera.Store.Spec.Keeping.{HasFit, run-Keeps}
use satunera.Store.Invariants.Decodable.{
  InRange, UserReads, SubmissionReads, RunReads, ProblemReads, ProgressReads, IsDecodable,
  stamp_reads_if_any, stamp_reads, id_reads, queued_row-SubmissionReads, run_row-RunReads,
}
use satunera.Store.Invariants.Decodable.Rows.{
  update_problem-Reads, upserted_reads, set_status-Reads, set_verdict-Reads, started_reads,
  count_attempt-Reads,
}

module _ {Ulid Time : Type 0} (c : Codec Ulid Time) where
  user_written :
      (row : UserRecord) (db after : Db)
      → UserReads c row
      → Statements.insert_user row db ≡ stored after
      → IsDecodable c db
      → IsDecodable c after
  unfolding Statements.insert_user
  user_written row db after r e d =
      let made : record db { users = db.users ++ row ∷ [] } ≡ after = ground arith in
      rw (← made) (record {
        users = All-append (UserReads c) db.users (row ∷ []) d.users (r, tt);
        problems = d.problems;
        submissions = d.submissions;
        runs = d.runs;
        progress = d.progress;
      })

  run_written :
      (row : RunRecord) (db after : Db)
      → RunReads c row
      → Statements.insert_run row db ≡ stored after
      → IsDecodable c db
      → IsDecodable c after
  unfolding Statements.insert_run
  run_written row db after r e d =
      let made : record db { runs = db.runs ++ row ∷ [] } ≡ after = ground arith in
      rw (← made) (record {
        users = d.users;
        problems = d.problems;
        submissions = d.submissions;
        runs = All-append (RunReads c) db.runs (row ∷ []) d.runs (r, tt);
        progress = d.progress;
      })

  submission_written :
      (row : SubmissionRecord) (db after : Db)
      → SubmissionReads c row
      → Statements.insert_submission row db ≡ stored after
      → IsDecodable c db
      → IsDecodable c after
  unfolding Statements.insert_submission
  submission_written row db after r e d =
      let made : record db { submissions = db.submissions ++ row ∷ [] } ≡ after = ground arith in
      rw (← made) (record {
        users = d.users;
        problems = d.problems;
        submissions =
            All-append (SubmissionReads c) db.submissions (row ∷ []) d.submissions (r, tt);
        runs = d.runs;
        progress = d.progress;
      })

  problem_written :
      (row : ProblemRecord) (db after : Db)
      → ProblemReads c row
      → Statements.upsert_problem row db ≡ stored after
      → IsDecodable c db
      → IsDecodable c after
  unfolding Statements.upsert_problem
  problem_written row db after r e d = elim (Bool-cases (has_problem row.id db)) [
    | inl old ↦
        let made : record db { problems = map (update_problem row) db.problems } ≡ after =
          ground arith in
        rw (← made) (record {
          users = d.users;
          problems =
              All-map (ProblemReads c) (update_problem row) db.problems
                (λ p q. update_problem-Reads c row p r q) d.problems;
          submissions = d.submissions;
          runs = d.runs;
          progress = d.progress;
        })
    | inr fresh ↦
        let made : record db { problems = db.problems ++ row ∷ [] } ≡ after = ground arith in
        rw (← made) (record {
          users = d.users;
          problems = All-append (ProblemReads c) db.problems (row ∷ []) d.problems (r, tt);
          submissions = d.submissions;
          runs = d.runs;
          progress = d.progress;
        })
  ]

  problem_deleted :
      (id : Text) (db after : Db)
      → Statements.delete_problem id db ≡ stored after
      → IsDecodable c db
      → IsDecodable c after
  unfolding Statements.delete_problem
  problem_deleted id db after e d =
      let made : record db { problems = filter (λ p. not (text_eq p.id id)) db.problems } ≡ after =
        ground arith in
      rw (← made) (record {
        users = d.users;
        problems = All-filter (ProblemReads c) (λ p. not (text_eq p.id id)) db.problems d.problems;
        submissions = d.submissions;
        runs = d.runs;
        progress = d.progress;
      })

  -- A change of the submissions that keeps each of them readable.
  submissions_changed :
      (f : SubmissionRecord → SubmissionRecord) (db after : Db)
      → ((s : SubmissionRecord) → SubmissionReads c s → SubmissionReads c (f s))
      → record db { submissions = map f db.submissions } ≡ after
      → IsDecodable c db
      → IsDecodable c after
  submissions_changed f db after k made d = rw (← made) (record {
    users = d.users;
    problems = d.problems;
    submissions = All-map (SubmissionReads c) f db.submissions k d.submissions;
    runs = d.runs;
    progress = d.progress;
  })

  untouched :
      (db after : Db)
      → after.users ≡ db.users
      → after.problems ≡ db.problems
      → after.submissions ≡ db.submissions
      → after.runs ≡ db.runs
      → All (ProgressReads c) after.user_progress
      → IsDecodable c db
      → IsDecodable c after
  untouched db after u p s r progress d = record {
    users = rw u d.users;
    problems = rw p d.problems;
    submissions = rw s d.submissions;
    runs = rw r d.runs;
    progress = progress;
  }

  IsDecodable-Keeps : Keeps c InRange (IsDecodable c)
  unfolding Statements.update_status Statements.update_verdict Statements.update_progress
      Statements.insert_progress select_submission
  IsDecodable-Keeps = record {
    user = λ id new at db after s e d.
        user_written _ db after
          (record {
            id = id_reads c id;
            role = (new.role, Role.parse-as_str new.role);
            created_at = stamp_reads c at s;
          })
          e d;
    upserted = λ row at db after s e d. problem_written _ db after (upserted_reads c row at s) e d;
    deleted = problem_deleted;
    submission = λ id new at db after s e d.
        submission_written _ db after (queued_row-SubmissionReads c id new at s) e d;
    status = λ clock id status row at db after there f e d.
        let reads = find?-All (SubmissionReads c) _ db.submissions row d.submissions there in
        submissions_changed (set_status (c.ulid_text id) (Status.as_str status) at) db after
          (λ s.
            set_status-Reads c (c.ulid_text id) status at s
              (started_reads c clock row.started_at at (reads.started_at) f))
          (ground arith) d;
    verdict = λ id v at db after s e d.
        submissions_changed (set_verdict (c.ulid_text id) (Verdict.as_str v) at) db after
          (λ r. set_verdict-Reads c (c.ulid_text id) v at r (stamp_reads c at s)) (ground arith) d;
    counted = λ user problem solved db after s e d.
        let made : record db {
          user_progress = map (count_attempt user problem solved) db.user_progress;
        }
            ≡ after =
          cc in
        untouched db after (ground arith) (ground arith) (ground arith) (ground arith)
          (rw (← made) (
            All-map (ProgressReads c) (count_attempt user problem solved) db.user_progress
              (count_attempt-Reads c user problem solved (stamp_reads_if_any c solved s))
              d.progress))
          d;
    first_counted = λ row db after s e d.
        let made : record db { user_progress = db.user_progress ++ row ∷ [] } ≡ after =
          ground arith in
        untouched db after (ground arith) (ground arith) (ground arith) (ground arith)
          (rw (← made) (
            All-append (ProgressReads c) db.user_progress (row ∷ []) d.progress
              (stamp_reads_if_any c row.solved_at s, tt)))
          d;
    recorded =
        λ id new at db after s f e d. run_written _ db after (run_row-RunReads c id new at s f) e d;
  }

  -- After any history of calls, whose runs have numbers in the range of their types, every row reads.
  pub run-IsDecodable :
      (ops : List (Op Ulid Time)) → All (HasFit InRange) ops → IsDecodable c (run c ops migrated)
  run-IsDecodable ops fits =
      run-Keeps c InRange (IsDecodable c) IsDecodable-Keeps ops migrated fits
        (record { users = tt; problems = tt; submissions = tt; runs = tt; progress = tt })
