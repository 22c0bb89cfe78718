-- ===== src/Store/Spec/Transactions.antt =====
-- The operations that are transactions have the effects of the specification.
use satunera.Prelude.{
  ◌≡◌, refl, List, [], ◌∷◌, map, Option, none, some, Text, codes, arith, ◌∙◌, Bool-cases, inl, inr,
}
use satunera.Contracts.Verdict
use satunera.Contracts.Verdict.{Verdict, is_accepted, counts_against_user}
use satunera.Store.Status
use satunera.Store.Status.{SubmissionStatus, done, can_transition_to}
use satunera.Store.Codec.{Codec}
use satunera.Store.Error.{
  StoreError, ok, database, not_found, corrupt_row, unformattable_timestamp, bind-eq-ok,
}
use satunera.Store.Model.{ProblemRow}
use satunera.Store.Tables.{ProblemRecord, SubmissionRecord, Db}
use satunera.Store.Tables.Statements.{
  stored, upsert_problem, delete_problem, update_status, update_verdict, update_progress,
  insert_progress, select_submission, set_status, set_verdict,
}
use satunera.Store.Sqlite.Actions.{ok_or, now}
use satunera.Store.Sqlite.Rules.{
  Ensures, Ensures-bind, Ensures-pure, Ensures-execute, ensures-lift, ensures-execute,
  ends-transaction,
}
use satunera.Store.Sqlite.Problems
use satunera.Store.Sqlite.Submissions
use satunera.Store.Spec.Steps.{SameCore}
use satunera.Store.Spec.Effect.{Effect, unchanged, advanced, finished, MayMove, next_progress}

ok_or-some :
    {Ulid A : Type 0} (e : StoreError Ulid) (o : Option A) {a : A} → ok_or e o ≡ ok a → o ≡ some a
ok_or-some e none h = cc
ok_or-some e (some b) h = cc

upsert_problem-SameCore :
    (row : ProblemRecord) (db after : Db) → upsert_problem row db ≡ stored after → SameCore db after
unfolding upsert_problem
upsert_problem-SameCore row db after e = ground arith

delete_problem-SameCore :
    (id : Text) (db after : Db) → delete_problem id db ≡ stored after → SameCore db after
unfolding delete_problem
delete_problem-SameCore id db after e = ground arith

module _ {Ulid Time : Type 0} (c : Codec Ulid Time) where
  abbrev missing : Ulid → StoreError Ulid
  missing id = not_found (codes "submissions") (c.ulid_text id)

  abbrev unformattable : StoreError Ulid
  unformattable = corrupt_row (codes "problems") unformattable_timestamp

  -- What the guard of both transitions has checked.
  checked_transition-MayMove :
      (id : Ulid) (row : SubmissionRecord) (next : SubmissionStatus) (db : Db)
      → select_submission (c.ulid_text id) db ≡ some row
      → Submissions.checked_transition c id row next ≡ ok tt
      → MayMove (c.ulid_text id) row next db
  unfolding Submissions.checked_transition
  checked_transition-MayMove id row next db found e =
      let (current, parsed, later) = bind-eq-ok (ok_or _ (Status.parse row.status)) _ e in
      record { found = found; current = current; parsed = ground arith; legal = ground arith }

  started_or_now-keeps :
      (row : SubmissionRecord) (clock : Time) (stamp : Text)
      → Submissions.started_or_now c row.started_at clock ≡ ok stamp
      → (earlier : Text) → row.started_at ≡ some earlier
      → stamp ≡ earlier
  unfolding Submissions.started_or_now
  started_or_now-keeps row clock stamp e earlier h = ground arith

  update_status-stored :
      (id status stamp : Text) (db after : Db)
      → update_status id status stamp db ≡ stored after
      → (after.submissions ≡ map (set_status id status stamp) db.submissions)
        × (after.user_progress ≡ db.user_progress)
  unfolding update_status
  update_status-stored id status stamp db after e = ground arith

  status_body-Effect :
      (clock : Time) (id : Ulid) (status : SubmissionStatus) (db : Db)
      → Ensures (Submissions.status_body c clock id status) db (λ _. Effect db)
  unfolding Submissions.status_body
  status_body-Effect clock id status db =
      ensures-lift (ok_or (missing id) (select_submission (c.ulid_text id) db)) _ db
        (λ _. Effect db)
        λ row found.
          ensures-lift (Submissions.checked_transition c id row status) _ db (λ _. Effect db)
            λ _ legal.
              ensures-lift (Submissions.started_or_now c row.started_at clock) _ db (λ _. Effect db)
                λ stamp at.
                  Ensures-execute database
                    (update_status (c.ulid_text id) (Status.as_str status) stamp) db
                    (λ _. Effect db)
                    λ after e.
                      let (s, p) =
                        update_status-stored (c.ulid_text id) (Status.as_str status) stamp db after
                          e in
                      advanced (c.ulid_text id) row status stamp
                        (checked_transition-MayMove id row status db (ok_or-some _ _ found) legal)
                        (started_or_now-keeps row clock stamp at) s p

  pub set_submission_status-Effect :
      (clock : Time) (id : Ulid) (status : SubmissionStatus) (db : Db)
      → Effect db (Submissions.set_submission_status c clock id status db).1
  unfolding Submissions.set_submission_status
  set_submission_status-Effect clock id status db =
      ends-transaction (Submissions.status_body c clock id status) db (Effect db)
        (unchanged refl refl) (status_body-Effect clock id status db)

record_progress-next :
    {Ulid : Type 0} (row : SubmissionRecord) (v : Verdict) (stamp : Text) (db : Db)
    → Ensures {Ulid = Ulid} (Submissions.record_progress row v stamp) db (λ _ after.
      (after.submissions ≡ db.submissions)
      × (after.user_progress ≡ next_progress row.user_id row.problem_id v stamp db.user_progress))
unfolding Submissions.record_progress update_progress insert_progress
record_progress-next row v stamp db a after e = ground arith

update_verdict-stored :
    (id verdict stamp : Text) (db after : Db)
    → update_verdict id verdict stamp db ≡ stored after
    → (after.submissions ≡ map (set_verdict id verdict stamp) db.submissions)
      × (after.user_progress ≡ db.user_progress)
unfolding update_verdict
update_verdict-stored id verdict stamp db after e = ground arith

delete_stale-SameCore :
    {Ulid : Type 0} (keep existing : List Text) (db : Db)
    → Ensures {Ulid = Ulid} (Problems.delete_stale keep existing) db (λ _. SameCore db)
unfolding Problems.delete_stale
delete_stale-SameCore keep [] db = Ensures-pure tt db (λ _. SameCore db) (refl, refl)
delete_stale-SameCore keep (id ∷ existing) db = elim (Bool-cases (Problems.keeps keep id)) [
  | inl kept ↦ rw kept (delete_stale-SameCore keep existing db)
  | inr stale ↦ rw stale (
      ensures-execute database (delete_problem id) (λ _. Problems.delete_stale keep existing) db
        (λ _. SameCore db)
        λ middle e. λ a after f.
          let (s, p) = delete_problem-SameCore id db middle e in
          let (s', p') = delete_stale-SameCore keep existing middle a after f in (s' ∙ s, p' ∙ p))
]

module _ {Ulid Time : Type 0} (c : Codec Ulid Time) where
  finish_body-Effect :
      (clock : Time) (id : Ulid) (v : Verdict) (db : Db)
      → Ensures (Submissions.finish_body c clock id v) db (λ _. Effect db)
  unfolding Submissions.finish_body
  finish_body-Effect clock id v db =
      ensures-lift (ok_or (missing c id) (select_submission (c.ulid_text id) db)) _ db
        (λ _. Effect db)
        λ row found.
          ensures-lift (Submissions.checked_transition c id row done) _ db (λ _. Effect db)
            λ _ legal.
              ensures-lift (now c clock) _ db (λ _. Effect db)
                λ stamp _.
                  ensures-execute database
                    (update_verdict (c.ulid_text id) (Verdict.as_str v) stamp) _ db (λ _. Effect db)
                    λ middle e. λ a after r.
                      let (s, p) =
                        update_verdict-stored (c.ulid_text id) (Verdict.as_str v) stamp db middle
                          e in
                      let (s', p') = record_progress-next row v stamp middle a after r in
                      finished (c.ulid_text id) row v stamp
                        (checked_transition-MayMove c id row done db (ok_or-some _ _ found) legal)
                        (s' ∙ s) (rw (← p) p')

  pub finish_submission-Effect :
      (clock : Time) (id : Ulid) (v : Verdict) (db : Db)
      → Effect db (Submissions.finish_submission c clock id v db).1
  unfolding Submissions.finish_submission
  finish_submission-Effect clock id v db =
      ends-transaction (Submissions.finish_body c clock id v) db (Effect db) (unchanged refl refl)
        (finish_body-Effect clock id v db)

  upsert_one-SameCore :
      (problem : ProblemRow Time) (db : Db)
      → Ensures (Problems.upsert_one c problem) db (λ _. SameCore db)
  unfolding Problems.upsert_one
  upsert_one-SameCore problem db =
      ensures-lift (ok_or (unformattable c) (c.format problem.updated_at)) _ db (λ _. SameCore db)
        λ at _.
          Ensures-execute database (upsert_problem (Problems.encode_problem c problem at)) db
            (λ _. SameCore db) (upsert_problem-SameCore (Problems.encode_problem c problem at) db)

  upsert_all-SameCore :
      (problems : List (ProblemRow Time)) (db : Db)
      → Ensures (Problems.upsert_all c problems) db (λ _. SameCore db)
  unfolding Problems.upsert_all
  upsert_all-SameCore [] db = Ensures-pure tt db (λ _. SameCore db) (refl, refl)
  upsert_all-SameCore (problem ∷ problems) db =
      Ensures-bind (Problems.upsert_one c problem) (λ _. Problems.upsert_all c problems) db
        (λ _. SameCore db)
        λ _ middle e. λ a after f.
          let (s, p) = upsert_one-SameCore problem db tt middle e in
          let (s', p') = upsert_all-SameCore problems middle a after f in (s' ∙ s, p' ∙ p)

  pub replace_body-SameCore :
      (problems : List (ProblemRow Time)) (db : Db)
      → Ensures (Problems.replace_body c problems) db (λ _. SameCore db)
  unfolding Problems.replace_body
  replace_body-SameCore problems db =
      Ensures-bind (Problems.upsert_all c problems) _ db (λ _. SameCore db)
        λ _ middle e. λ a after f.
          let (s, p) = upsert_all-SameCore problems db tt middle e in
          let (s', p') =
            delete_stale-SameCore (map (λ r. r.id) problems) (map (λ r. r.id) middle.problems)
              middle a after f in
          (s' ∙ s, p' ∙ p)

  pub replace_problems-Effect :
      (problems : List (ProblemRow Time)) (db : Db)
      → Effect db (Problems.replace_problems c problems db).1
  unfolding Problems.replace_problems
  replace_problems-Effect problems db =
      ends-transaction (Problems.replace_body c problems) db (Effect db) (unchanged refl refl)
        λ a after e. let (s, p) = replace_body-SameCore problems db a after e in unchanged s p
