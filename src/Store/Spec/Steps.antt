-- ===== src/Store/Spec/Steps.antt =====
-- The operations of a single statement have the effects of the specification.
use satunera.Prelude.{false, ◌≡◌, refl, [], ◌∷◌, ◌++◌, codes, arith}
use satunera.Store.Codec.{Codec}
use satunera.Store.Model.{NewUser, NewSubmission, NewRun}
use satunera.Store.Tables.{UserRecord, SubmissionRecord, RunRecord, Db, has_submission}
use satunera.Store.Tables.Statements.{stored, insert_user, insert_submission, insert_run}
use satunera.Store.Sqlite.Actions.{now, parse_ts}
use satunera.Store.Sqlite.Rules.{ends-lift, ends-execute}
use satunera.Store.Sqlite.Users
use satunera.Store.Sqlite.Submissions
use satunera.Store.Sqlite.Runs
use satunera.Store.Spec.Effect.{Effect, unchanged, created}

-- What the statements on the other tables leave alone.
abbrev pub SameCore : Db → Db → Type 0
SameCore db after = (after.submissions ≡ db.submissions) × (after.user_progress ≡ db.user_progress)

insert_user-SameCore :
    (row : UserRecord) (db after : Db) → insert_user row db ≡ stored after → SameCore db after
unfolding insert_user
insert_user-SameCore row db after e = ground arith

insert_run-SameCore :
    (row : RunRecord) (db after : Db) → insert_run row db ≡ stored after → SameCore db after
unfolding insert_run
insert_run-SameCore row db after e = ground arith

insert_submission-stored :
    (row : SubmissionRecord) (db after : Db)
    → insert_submission row db ≡ stored after
    → (has_submission row.id db ≡ false)
      × (after.submissions ≡ db.submissions ++ row ∷ [])
      × (after.user_progress ≡ db.user_progress)
unfolding insert_submission
insert_submission-stored row db after e = ground arith

module _ {Ulid Time : Type 0} (c : Codec Ulid Time) where
  pub create_user-Effect :
      (id : Ulid) (clock : Time) (new : NewUser) (db : Db)
      → Effect db (Users.create_user c id clock new db).1
  unfolding Users.create_user
  create_user-Effect id clock new db =
      ends-lift (now c clock) _ db (Effect db) (unchanged refl refl) λ at _.
        ends-execute _ (insert_user _) _ db (Effect db) (unchanged refl refl) λ after e.
          let (s, p) = insert_user-SameCore _ db after e in
          ends-lift (parse_ts c (codes "users") at) _ after (Effect db) (unchanged s p)
            λ _ _. unchanged s p

  pub record_run-Effect :
      (id : Ulid) (clock : Time) (run : NewRun Ulid) (db : Db)
      → Effect db (Runs.record_run c id clock run db).1
  unfolding Runs.record_run
  record_run-Effect id clock run db =
      ends-lift (now c clock) _ db (Effect db) (unchanged refl refl) λ at _.
        ends-execute _ (insert_run _) _ db (Effect db) (unchanged refl refl) λ after e.
          let (s, p) = insert_run-SameCore _ db after e in
          ends-lift (parse_ts c (codes "runs") at) _ after (Effect db) (unchanged s p)
            λ _ _. unchanged s p

  pub create_submission-Effect :
      (id : Ulid) (clock : Time) (new : NewSubmission Ulid) (db : Db)
      → Effect db (Submissions.create_submission c id clock new db).1
  unfolding Submissions.create_submission Submissions.queued_row
  create_submission-Effect id clock new db =
      ends-lift (now c clock) _ db (Effect db) (unchanged refl refl) λ at _.
        ends-execute _ (insert_submission _) _ db (Effect db) (unchanged refl refl) λ after e.
          let (fresh, s, p) = insert_submission-stored _ db after e in
          let done_it : Effect db after =
            created _
              (record { status = refl; verdict = refl; started_at = refl; finished_at = refl })
              fresh s p in
          ends-lift (parse_ts c (codes "submissions") at) _ after (Effect db) done_it λ _ _. done_it
