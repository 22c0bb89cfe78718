-- ===== src/Store/Invariants/Links/Tables.antt =====
-- The statements on the submissions, the runs and the progress keep the references.
use satunera.Prelude.{
  true, false, not, ◌≡◌, refl, sym, ap, ◌∙◌, inl, inr, List, [], ◌∷◌, ◌++◌, map, Option, Text,
  text_eq, text_eq_iff, filter, any, All-append, Bool-cases, arith,
}
use satunera.Prelude.Keyed.{any-append, any-map, All-map}
use satunera.Store.Codec.{Codec}
use satunera.Store.Tables.{
  ProblemRecord, SubmissionRecord, RunRecord, ProgressRecord, Db, migrated, has_user, has_problem,
  has_submission, problem_used,
}
use satunera.Store.Tables.Statements.{stored, set_status, set_verdict, count_attempt}
use satunera.Store.Tables.Statements
use satunera.Store.Invariants.Links.{
  IsLinked, Linked, SubmissionLinked, ProgressLinked, RunLinked, weaken, weaken_without,
  insert_user-IsLinked, upsert_problem-IsLinked,
}
use satunera.Store.Spec.Operations.{Op, run}
use satunera.Store.Spec.Statements.{
  insert_user, upsert_problem, delete_problem, insert_submission, update_status, update_verdict,
  update_progress, insert_progress, insert_run, Kept,
}
use satunera.Store.Spec.Keeping.{run-Kept}

-- Another problem than the one deleted is found as before.
any-filter_other :
    (id p : Text) (rows : List ProblemRecord)
    → text_eq p id ≡ false
    → any (λ r. text_eq r.id p) (filter (λ r. not (text_eq r.id id)) rows)
      ≡ any (λ r. text_eq r.id p) rows
unfolding any filter
any-filter_other id p [] h = refl
any-filter_other id p (r ∷ rows) h = elim (Bool-cases (text_eq r.id p)) [
  | inl here ↦
      let kept : text_eq r.id id ≡ false = rw (sym ((text_eq_iff r.id p).0 here)) at h in
      rw (kept, here) refl
  | inr away ↦ ground (arith, any-filter_other id p rows h)
]

-- A problem that is there is not one that is missing.
missing_other :
    (id p : Text) (rows : List ProblemRecord)
    → any (λ r. text_eq r.id id) rows ≡ false
    → any (λ r. text_eq r.id p) rows ≡ true
    → text_eq p id ≡ false
missing_other id p rows h k = elim (Bool-cases (text_eq p id)) [
  | inl same ↦
      let there : any (λ r. text_eq r.id id) rows ≡ true = rw ((text_eq_iff p id).0 same) at k in
      cc (h, there)
  | inr other ↦ other
]

abbrev without_problem : Text → Db → Db
without_problem id db = record db { problems = filter (λ p. not (text_eq p.id id)) db.problems }

without_problem-Linked :
    (id u p : Text) (db : Db)
    → Linked db u p
    → text_eq p id ≡ false
    → Linked (without_problem id db) u p
unfolding has_user has_problem
without_problem-Linked id u p db (hu, hp) h = (hu, any-filter_other id p db.problems h ∙ hp)

delete_problem-IsLinked :
    (id : Text) (db after : Db)
    → Statements.delete_problem id db ≡ stored after
    → IsLinked db
    → IsLinked after
unfolding Statements.delete_problem has_problem problem_used has_user has_submission
delete_problem-IsLinked id db after e l = elim (Bool-cases (has_problem id db)) [
  | inl there ↦
      let made : without_problem id db ≡ after = ground arith in
      rw (← made) (record {
        submissions =
            weaken_without (λ s. text_eq s.problem_id id)
              (λ s. without_problem-Linked id s.user_id s.problem_id db) db.submissions
              (ground arith) l.submissions;
        progress =
            weaken_without (λ s. text_eq s.problem_id id)
              (λ s. without_problem-Linked id s.user_id s.problem_id db) db.user_progress
              (ground arith) l.progress;
        runs = l.runs;
      })
  | inr missing ↦
      let made : without_problem id db ≡ after = ground arith in
      rw (← made) (record {
        submissions =
            weaken
              (λ s h.
                without_problem-Linked id s.user_id s.problem_id db h
                  (missing_other id s.problem_id db.problems missing h.1))
              db.submissions l.submissions;
        progress =
            weaken
              (λ s h.
                without_problem-Linked id s.user_id s.problem_id db h
                  (missing_other id s.problem_id db.problems missing h.1))
              db.user_progress l.progress;
        runs = l.runs;
      })
]

insert_submission-IsLinked :
    (row : SubmissionRecord) (db after : Db)
    → Statements.insert_submission row db ≡ stored after
    → IsLinked db
    → IsLinked after
unfolding Statements.insert_submission has_user has_problem has_submission
insert_submission-IsLinked row db after e l =
    let made : record db { submissions = db.submissions ++ row ∷ [] } ≡ after = ground arith in
    let linked : Linked db row.user_id row.problem_id = (ground arith, ground arith) in
    rw (← made) (record {
      submissions =
          All-append (SubmissionLinked db) db.submissions (row ∷ []) l.submissions (linked, tt);
      progress = l.progress;
      runs =
          weaken
            (λ r h.
              rw (any-append (λ s. text_eq s.id r.submission_id) db.submissions (row ∷ []), h) refl)
            db.runs l.runs;
    })

-- An update of the submissions that keeps their keys and references.
module _ (f : SubmissionRecord → SubmissionRecord) (id : (s : SubmissionRecord) → (f s).id ≡ s.id)
    (user : (s : SubmissionRecord) → (f s).user_id ≡ s.user_id)
    (problem : (s : SubmissionRecord) → (f s).problem_id ≡ s.problem_id) where
  updated-IsLinked :
      (db : Db) → IsLinked db → IsLinked (record db { submissions = map f db.submissions })
  unfolding has_user has_problem has_submission
  updated-IsLinked db l = record {
    submissions =
        All-map (SubmissionLinked db) f (λ s h. rw (user s, problem s) h) db.submissions
          l.submissions;
    progress = l.progress;
    runs =
        weaken
          (λ r h.
            any-map (λ s. text_eq s.id r.submission_id) f
              (λ s. ap (λ i. text_eq i r.submission_id) (id s)) db.submissions
            ∙ h)
          db.runs l.runs;
  }

update_status-IsLinked :
    (id status started : Text) (db after : Db)
    → Statements.update_status id status started db ≡ stored after
    → IsLinked db
    → IsLinked after
unfolding Statements.update_status set_status
update_status-IsLinked id status started db after e l =
    let made : record db { submissions = map (set_status id status started) db.submissions }
        ≡ after =
      ground arith in
    rw (← made) (
      updated-IsLinked (set_status id status started) (λ s. ground arith) (λ s. ground arith)
        (λ s. ground arith) db l)

update_verdict-IsLinked :
    (id verdict finished : Text) (db after : Db)
    → Statements.update_verdict id verdict finished db ≡ stored after
    → IsLinked db
    → IsLinked after
unfolding Statements.update_verdict set_verdict
update_verdict-IsLinked id verdict finished db after e l =
    let made : record db { submissions = map (set_verdict id verdict finished) db.submissions }
        ≡ after =
      ground arith in
    rw (← made) (
      updated-IsLinked (set_verdict id verdict finished) (λ s. ground arith) (λ s. ground arith)
        (λ s. ground arith) db l)

count_attempt-Linked :
    (user problem : Text) (solved : Option Text) (db : Db) (p : ProgressRecord)
    → ProgressLinked db p
    → ProgressLinked db (count_attempt user problem solved p)
unfolding count_attempt
count_attempt-Linked user problem solved db p h = ground arith

insert_progress-IsLinked :
    (row : ProgressRecord) (db after : Db)
    → Statements.insert_progress row db ≡ stored after
    → IsLinked db
    → IsLinked after
unfolding Statements.insert_progress has_user has_problem has_submission
insert_progress-IsLinked row db after e l =
    let made : record db { user_progress = db.user_progress ++ row ∷ [] } ≡ after = ground arith in
    let linked : Linked db row.user_id row.problem_id = (ground arith, ground arith) in
    rw (← made) (record {
      submissions = l.submissions;
      progress = All-append (ProgressLinked db) db.user_progress (row ∷ []) l.progress (linked, tt);
      runs = l.runs;
    })

insert_run-IsLinked :
    (row : RunRecord) (db after : Db)
    → Statements.insert_run row db ≡ stored after
    → IsLinked db
    → IsLinked after
unfolding Statements.insert_run has_user has_problem has_submission
insert_run-IsLinked row db after e l =
    let made : record db { runs = db.runs ++ row ∷ [] } ≡ after = ground arith in
    let linked : has_submission row.submission_id db ≡ true = ground arith in
    rw (← made) (record {
      submissions = l.submissions;
      progress = l.progress;
      runs = All-append (RunLinked db) db.runs (row ∷ []) l.runs (linked, tt);
    })

update_progress-IsLinked :
    (user problem : Text) (solved : Option Text) (db after : Db)
    → Statements.update_progress user problem solved db ≡ stored after
    → IsLinked db
    → IsLinked after
unfolding Statements.update_progress has_user has_problem has_submission
update_progress-IsLinked user problem solved db after e l =
    let made : record db {
      user_progress = map (count_attempt user problem solved) db.user_progress;
    }
        ≡ after =
      cc in
    rw (← made) (record {
      submissions = l.submissions;
      progress =
          All-map (ProgressLinked db) (count_attempt user problem solved)
            (count_attempt-Linked user problem solved db) db.user_progress l.progress;
      runs = l.runs;
    })

IsLinked-Kept : Kept IsLinked
IsLinked-Kept (insert_user row) = insert_user-IsLinked row
IsLinked-Kept (upsert_problem row) = upsert_problem-IsLinked row
IsLinked-Kept (delete_problem id) = delete_problem-IsLinked id
IsLinked-Kept (insert_submission row) = insert_submission-IsLinked row
IsLinked-Kept (update_status id status started) = update_status-IsLinked id status started
IsLinked-Kept (update_verdict id verdict finished) = update_verdict-IsLinked id verdict finished
IsLinked-Kept (update_progress user problem solved) = update_progress-IsLinked user problem solved
IsLinked-Kept (insert_progress row) = insert_progress-IsLinked row
IsLinked-Kept (insert_run row) = insert_run-IsLinked row

module _ {Ulid Time : Type 0} (c : Codec Ulid Time) where
  -- After any history of calls from the migrated database, whether they returned or failed, the user and
  -- the problem of every submission and of every row of progress are there, and the submission of every run.
  pub run-IsLinked : (ops : List (Op Ulid Time)) → IsLinked (run c ops migrated)
  run-IsLinked ops =
      run-Kept c IsLinked IsLinked-Kept ops migrated
        (record { submissions = tt; progress = tt; runs = tt })
