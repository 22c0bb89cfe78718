-- ===== src/Store/Spec/Keeping.antt =====
-- What the statements keep, as the code issues them, every history of calls keeps.
use satunera.Prelude.{
  Bool, true, false, All, ◌≡◌, ◌||◌, List, [], ◌∷◌, Option, none, some, Text, codes, Bool-cases,
  inl, inr, if◌then◌else◌,
}
use satunera.Contracts.Verdict
use satunera.Contracts.Verdict.{Verdict, is_accepted, counts_against_user}
use satunera.Store.Status
use satunera.Store.Status.{SubmissionStatus, done}
use satunera.Store.Codec.{Codec}
use satunera.Store.Error.{not_found, corrupt_row, unformattable_timestamp, database, ok, StoreError}
use satunera.Store.Model.{ProblemRow, NewRun}
use satunera.Store.Tables.{SubmissionRecord, ProgressRecord, Db}
use satunera.Store.Tables.Statements
use satunera.Store.Tables.Statements.{Written, stored, select_submission}
use satunera.Store.Sqlite.Actions.{ok_or, now, parse_ts, pure, execute_or, formatted}
use satunera.Store.Sqlite.Rules.{
  Ensures, Ensures-bind, Ensures-pure, Ensures-execute, ensures-lift, ensures-execute, ends-lift,
  ends-execute, ends-transaction,
}
use satunera.Store.Sqlite.Users
use satunera.Store.Sqlite.Problems
use satunera.Store.Sqlite.Submissions
use satunera.Store.Sqlite.Runs
use satunera.Store.Spec.Operations
use satunera.Store.Spec.Operations.{Op, step, run}
use satunera.Store.Spec.Statements.{Kept, Keeps, IsStamp, IsStampIfAny, Kept-Keeps}

pub formatted-eq-ok :
    {Ulid : Type 0} (o : Option Text) (at : Text) → formatted {Ulid = Ulid} o ≡ ok at → o ≡ some at
formatted-eq-ok none at h = cc
formatted-eq-ok (some s) at h = cc

ok_or-eq-ok :
    {Ulid A : Type 0} (e : StoreError Ulid) (o : Option A) (a : A) → ok_or e o ≡ ok a → o ≡ some a
ok_or-eq-ok e none a h = cc
ok_or-eq-ok e (some b) a h = cc

-- A call that writes, with a run that fits.
abbrev pub HasFit : {Ulid Time : Type 0} → (NewRun Ulid → Type 0) → Op Ulid Time → Type 0
HasFit Fit (Operations.record_run id clock new) = Fit new
HasFit Fit _ = Unit

module _ {Ulid Time : Type 0} (c : Codec Ulid Time) (Fit : NewRun Ulid → Type 0) (P : Db → Type 0)
    (k : Keeps c Fit P) where
  now-IsStamp : (clock : Time) (at : Text) → now c clock ≡ ok at → IsStamp c Fit at
  unfolding now
  now-IsStamp clock at h = (clock, formatted-eq-ok (c.format clock) at h)

  delete_stale-Keeps :
      (keep existing : List Text) (db : Db)
      → P db
      → Ensures {Ulid = Ulid} (Problems.delete_stale keep existing) db (λ _. P)
  unfolding Problems.delete_stale
  delete_stale-Keeps keep [] db p = Ensures-pure tt db (λ _. P) p
  delete_stale-Keeps keep (id ∷ existing) db p = elim (Bool-cases (Problems.keeps keep id)) [
    | inl kept ↦ rw kept (delete_stale-Keeps keep existing db p)
    | inr stale ↦ rw stale (
        ensures-execute database (Statements.delete_problem id)
          (λ _. Problems.delete_stale keep existing) db (λ _. P)
          λ middle e. delete_stale-Keeps keep existing middle (k.deleted id db middle e p))
  ]

  insert_first-Keeps :
      (updated : Bool) (row : ProgressRecord) (db : Db)
      → IsStampIfAny c Fit row.solved_at
      → P db
      → Ensures {Ulid = Ulid}
          (if updated then pure tt else execute_or database (Statements.insert_progress row))
          db
          (λ _. P)
  insert_first-Keeps true row db s p = Ensures-pure tt db (λ _. P) p
  insert_first-Keeps false row db s p =
      Ensures-execute database (Statements.insert_progress row) db (λ _. P)
        λ after e. k.first_counted row db after s e p

  solved_stamped :
      (v : Verdict) (stamp : Text)
      → IsStamp c Fit stamp
      → IsStampIfAny c Fit (if is_accepted v then some stamp else none)
  solved_stamped v stamp s = elim (Bool-cases (is_accepted v)) [
    | inl accepted ↦ rw accepted s
    | inr other ↦ rw other tt
  ]

  record_progress-Keeps :
      (row : SubmissionRecord) (v : Verdict) (stamp : Text) (db : Db)
      → IsStamp c Fit stamp
      → P db
      → Ensures {Ulid = Ulid} (Submissions.record_progress row v stamp) db (λ _. P)
  unfolding Submissions.record_progress
  record_progress-Keeps row v stamp db s p =
      elim (Bool-cases (counts_against_user v || is_accepted v)) [
        | inl counted ↦ rw counted (
            ensures-execute database (Statements.update_progress row.user_id row.problem_id _) _ db
              (λ _. P)
              λ middle e.
                insert_first-Keeps _ _ middle (solved_stamped v stamp s)
                  (k.counted _ _ _ db middle (solved_stamped v stamp s) e p))
        | inr free ↦ rw free (Ensures-pure tt db (λ _. P) p)
      ]

  upsert_all-Keeps :
      (problems : List (ProblemRow Time)) (db : Db)
      → P db
      → Ensures (Problems.upsert_all c problems) db (λ _. P)
  unfolding Problems.upsert_all Problems.upsert_one
  upsert_all-Keeps [] db p = Ensures-pure tt db (λ _. P) p
  upsert_all-Keeps (problem ∷ problems) db p =
      Ensures-bind (Problems.upsert_one c problem) (λ _. Problems.upsert_all c problems) db (λ _. P)
        λ _ middle e. upsert_all-Keeps problems middle (
          ensures-lift
            (ok_or (corrupt_row (codes "problems") unformattable_timestamp)
              (c.format problem.updated_at))
            _ db (λ _. P)
            (λ at f.
              Ensures-execute database
                (Statements.upsert_problem (Problems.encode_problem c problem at)) db (λ _. P)
                λ after g.
                  k.upserted problem at db after (problem.updated_at, ok_or-eq-ok _ _ at f) g p)
            tt middle e)

  replace_body-Keeps :
      (problems : List (ProblemRow Time)) (db : Db)
      → P db
      → Ensures (Problems.replace_body c problems) db (λ _. P)
  unfolding Problems.replace_body
  replace_body-Keeps problems db p =
      Ensures-bind (Problems.upsert_all c problems) _ db (λ _. P)
        λ _ middle e. delete_stale-Keeps _ _ middle (upsert_all-Keeps problems db p tt middle e)

  status_body-Keeps :
      (clock : Time) (id : Ulid) (status : SubmissionStatus) (db : Db)
      → P db
      → Ensures (Submissions.status_body c clock id status) db (λ _. P)
  unfolding Submissions.status_body
  status_body-Keeps clock id status db p =
      ensures-lift
        (ok_or (not_found (codes "submissions") (c.ulid_text id))
          (select_submission (c.ulid_text id) db))
        _ db (λ _. P)
        λ row there.
          ensures-lift (Submissions.checked_transition c id row status) _ db (λ _. P)
            λ _ _.
              ensures-lift (Submissions.started_or_now c row.started_at clock) _ db (λ _. P)
                λ stamp started.
                  Ensures-execute database
                    (Statements.update_status (c.ulid_text id) (Status.as_str status) stamp) db
                    (λ _. P)
                    λ after e.
                      k.status clock id status row stamp db after (ok_or-eq-ok _ _ row there)
                        started e p

  finish_body-Keeps :
      (clock : Time) (id : Ulid) (v : Verdict) (db : Db)
      → P db
      → Ensures (Submissions.finish_body c clock id v) db (λ _. P)
  unfolding Submissions.finish_body
  finish_body-Keeps clock id v db p =
      ensures-lift
        (ok_or (not_found (codes "submissions") (c.ulid_text id))
          (select_submission (c.ulid_text id) db))
        _ db (λ _. P)
        λ row _.
          ensures-lift (Submissions.checked_transition c id row done) _ db (λ _. P)
            λ _ _.
              ensures-lift (now c clock) _ db (λ _. P)
                λ stamp formed.
                  ensures-execute database
                    (Statements.update_verdict (c.ulid_text id) (Verdict.as_str v) stamp) _ db
                    (λ _. P)
                    λ middle e.
                      record_progress-Keeps row v stamp middle (now-IsStamp clock stamp formed)
                        (k.verdict id v stamp db middle (now-IsStamp clock stamp formed) e p)

  step-Keeps : (op : Op Ulid Time) (db : Db) → HasFit Fit op → P db → P (step c op db)
  unfolding step Users.create_user Problems.replace_problems Submissions.create_submission
      Submissions.set_submission_status Submissions.finish_submission Runs.record_run
  step-Keeps (Operations.create_user id clock new) db fit p =
      ends-lift (now c clock) _ db P p λ at f.
        ends-execute _ (Statements.insert_user _) _ db P p λ after e.
          let q = k.user id new at db after (now-IsStamp clock at f) e p in
          ends-lift (parse_ts c (codes "users") at) _ after P q λ _ _. q
  step-Keeps (Operations.replace_problems rows) db fit p =
      ends-transaction (Problems.replace_body c rows) db P p (replace_body-Keeps rows db p)
  step-Keeps (Operations.create_submission id clock new) db fit p =
      ends-lift (now c clock) _ db P p λ at f.
        ends-execute _ (Statements.insert_submission _) _ db P p λ after e.
          let q = k.submission id new at db after (now-IsStamp clock at f) e p in
          ends-lift (parse_ts c (codes "submissions") at) _ after P q λ _ _. q
  step-Keeps (Operations.set_submission_status clock id status) db fit p =
      ends-transaction (Submissions.status_body c clock id status) db P p
        (status_body-Keeps clock id status db p)
  step-Keeps (Operations.finish_submission clock id v) db fit p =
      ends-transaction (Submissions.finish_body c clock id v) db P p
        (finish_body-Keeps clock id v db p)
  step-Keeps (Operations.record_run id clock new) db fit p =
      ends-lift (now c clock) _ db P p λ at f.
        ends-execute _ (Statements.insert_run _) _ db P p λ after e.
          let q = k.recorded id new at db after (now-IsStamp clock at f) fit e p in
          ends-lift (parse_ts c (codes "runs") at) _ after P q λ _ _. q

  -- What the statements keep, as the code issues them, holds after every history of calls whose runs
  -- fit.
  pub run-Keeps :
      (ops : List (Op Ulid Time)) (db : Db) → All (HasFit Fit) ops → P db → P (run c ops db)
  unfolding run
  run-Keeps [] db fits p = p
  run-Keeps (op ∷ ops) db (fit, fits) p = run-Keeps ops (step c op db) fits (step-Keeps op db fit p)

module _ {Ulid Time : Type 0} (c : Codec Ulid Time) (P : Db → Type 0) (k : Kept P) where
  all-HasFit : (ops : List (Op Ulid Time)) → All (HasFit (λ _. Unit)) ops
  all-HasFit [] = tt
  all-HasFit (Operations.create_user id clock new ∷ ops) = (tt, all-HasFit ops)
  all-HasFit (Operations.replace_problems rows ∷ ops) = (tt, all-HasFit ops)
  all-HasFit (Operations.create_submission id clock new ∷ ops) = (tt, all-HasFit ops)
  all-HasFit (Operations.set_submission_status clock id status ∷ ops) = (tt, all-HasFit ops)
  all-HasFit (Operations.finish_submission clock id v ∷ ops) = (tt, all-HasFit ops)
  all-HasFit (Operations.record_run id clock new ∷ ops) = (tt, all-HasFit ops)

  -- What every statement keeps holds after every history.
  pub run-Kept : (ops : List (Op Ulid Time)) (db : Db) → P db → P (run c ops db)
  run-Kept ops db p =
      run-Keeps c (λ _. Unit) P (Kept-Keeps c (λ _. Unit) P k) ops db (all-HasFit ops) p
