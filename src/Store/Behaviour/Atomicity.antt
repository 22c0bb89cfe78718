-- ===== src/Store/Behaviour/Atomicity.antt =====
-- A call that fails leaves the database as it was.
use satunera.Prelude.{Bool, true, false, ◌≡◌, refl, Option, none, some, Text, codes, arith}
use satunera.Store.Codec.{Codec}
use satunera.Store.Error.{DbError, StoreError, Result, ok, err, panicked}
use satunera.Store.Model.{NewUser, NewSubmission, NewRun}
use satunera.Store.Tables.{Db}
use satunera.Store.Tables.Statements.{
  Written, stored, refused, insert_user, insert_submission, insert_run,
}
use satunera.Store.Sqlite.Actions.{
  Tx, ◌>>=◌, continue, lift, written, transaction, commit_or_rollback, now, formatted, parse_ts,
}
use satunera.Store.Sqlite.Users
use satunera.Store.Sqlite.Problems
use satunera.Store.Sqlite.Submissions
use satunera.Store.Sqlite.Runs
use satunera.Store.Spec.Operations.{
  Op, create_user, replace_problems, create_submission, set_submission_status, finish_submission,
  record_run, step,
}

abbrev pub returned : {Ulid A : Type 0} → Result Ulid A → Bool
returned (ok a) = true
returned (err e) = false
returned panicked = false

abbrev pub Atomic : {Ulid A : Type 0} → Db → Result Ulid A × Db → Type 0
Atomic db (r, after) = returned r ≡ false → after ≡ db

module _ {Ulid A B : Type 0} where
  Atomic-lift :
      (r : Result Ulid A) (f : A → Tx Ulid B) (db : Db)
      → ((a : A) → r ≡ ok a → Atomic db (f a db))
      → Atomic db ((lift r >>= f) db)
  Atomic-lift (ok a) f db h = h a refl
  Atomic-lift (err e) f db h = λ _. refl
  Atomic-lift panicked f db h = λ _. refl

module _ {Ulid B : Type 0} where
  -- After a statement that is stored, the rest returns.
  Atomic-written :
      (e : DbError → StoreError Ulid) (w : Written) (k : Unit {0} → Tx Ulid B) (db : Db)
      → ((after : Db) → returned (k tt after).0 ≡ true)
      → (let (r, after) = written e db w in Atomic db (continue r k after))
  Atomic-written e (stored after) k db h = λ f. absurd (cc (h after, f))
  Atomic-written e (refused x) k db h = λ f. refl

module _ {Ulid A : Type 0} where
  Atomic-commit :
      (db : Db) (r : Result Ulid A) (after : Db) → Atomic db (commit_or_rollback db (r, after))
  Atomic-commit db (ok a) after h = cc
  Atomic-commit db (err e) after h = refl
  Atomic-commit db panicked after h = refl

  Atomic-transaction : (m : Tx Ulid A) (db : Db) → Atomic db (transaction m db)
  Atomic-transaction m db = Atomic-commit db (m db).0 (m db).1

module _ {Ulid Time : Type 0} (c : Codec Ulid Time) where
  -- A time that was just printed is read back.
  formatted_back :
      (entity : Text) (clock : Time) (o : Option Text) (at : Text)
      → c.format clock ≡ o
      → formatted {Ulid = Ulid} o ≡ ok at
      → parse_ts c entity at ≡ ok clock
  unfolding parse_ts
  formatted_back entity clock none at e h = cc
  formatted_back entity clock (some s) at e h =
      let printed : c.format clock ≡ some at = ground arith in
      rw (c.time_printed clock at printed) refl

  pub parse_ts_of_now :
      (entity : Text) (clock : Time) (at : Text)
      → now c clock ≡ ok at
      → parse_ts c entity at ≡ ok clock
  unfolding now
  parse_ts_of_now entity clock at h = formatted_back entity clock (c.format clock) at refl h

  create_user-Atomic :
      (id : Ulid) (clock : Time) (new : NewUser) (db : Db)
      → Atomic db (Users.create_user c id clock new db)
  unfolding Users.create_user
  create_user-Atomic id clock new db = Atomic-lift (now c clock) _ db λ at e.
      Atomic-written _ (insert_user _ db) _ db
        λ after. rw (parse_ts_of_now (codes "users") clock at e) refl

  create_submission-Atomic :
      (id : Ulid) (clock : Time) (new : NewSubmission Ulid) (db : Db)
      → Atomic db (Submissions.create_submission c id clock new db)
  unfolding Submissions.create_submission
  create_submission-Atomic id clock new db = Atomic-lift (now c clock) _ db λ at e.
      Atomic-written _ (insert_submission _ db) _ db
        λ after. rw (parse_ts_of_now (codes "submissions") clock at e) refl

  record_run-Atomic :
      (id : Ulid) (clock : Time) (run : NewRun Ulid) (db : Db)
      → Atomic db (Runs.record_run c id clock run db)
  unfolding Runs.record_run
  record_run-Atomic id clock run db = Atomic-lift (now c clock) _ db λ at e.
      Atomic-written _ (insert_run _ db) _ db
        λ after. rw (parse_ts_of_now (codes "runs") clock at e) refl

  -- Whether a call of an operation returned without an error.
  unfoldable pub succeeds : Op Ulid Time → Db → Bool
  succeeds (create_user id clock new) db = returned (Users.create_user c id clock new db).0
  succeeds (replace_problems rows) db = returned (Problems.replace_problems c rows db).0
  succeeds (create_submission id clock new) db =
      returned (Submissions.create_submission c id clock new db).0
  succeeds (set_submission_status clock id status) db =
      returned (Submissions.set_submission_status c clock id status db).0
  succeeds (finish_submission clock id v) db =
      returned (Submissions.finish_submission c clock id v db).0
  succeeds (record_run id clock run) db = returned (Runs.record_run c id clock run db).0

  -- A call of any of the six operations that write, when it does not return a value but an error or a
  -- panic, leaves the database as it was.
  pub failed_step : (op : Op Ulid Time) (db : Db) → succeeds op db ≡ false → step c op db ≡ db
  unfolding succeeds step Problems.replace_problems Submissions.set_submission_status
      Submissions.finish_submission
  failed_step (create_user id clock new) db h = create_user-Atomic id clock new db h
  failed_step (replace_problems rows) db h = Atomic-transaction (Problems.replace_body c rows) db h
  failed_step (create_submission id clock new) db h = create_submission-Atomic id clock new db h
  failed_step (set_submission_status clock id status) db h =
      Atomic-transaction (Submissions.status_body c clock id status) db h
  failed_step (finish_submission clock id v) db h =
      Atomic-transaction (Submissions.finish_body c clock id v) db h
  failed_step (record_run id clock run) db h = record_run-Atomic id clock run db h
