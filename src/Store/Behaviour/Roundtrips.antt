-- ===== src/Store/Behaviour/Roundtrips.antt =====
-- What is created is read back: `create_user` with `user` and `user_by_handle`, `create_submission` with
-- `submission`, of crates/satunera-store/src/sqlite.rs.
use satunera.Prelude.{
  Bool, true, false, ◌≡◌, ◌||◌, refl, ◌∙◌, List, [], ◌∷◌, ◌++◌, none, some, codes, text_eq,
  text_eq_refl, any, find?, arith,
}
use satunera.Prelude.Keyed.{find?-append_of_none, find?-none_of_any}
use satunera.Contracts.Language
use satunera.Store.Role
use satunera.Store.Status
use satunera.Store.Status.{queued}
use satunera.Store.Codec.{Codec}
use satunera.Store.Error.{ok}
use satunera.Store.Model.{User, NewUser, Submission, NewSubmission}
use satunera.Store.Tables.{UserRecord, SubmissionRecord, Db, user_taken, has_submission}
use satunera.Store.Tables.Statements.{stored, insert_user, insert_submission, select_submission}
use satunera.Store.Sqlite.Actions.{now, parse_ts, parse_opt_ts}
use satunera.Store.Sqlite.Rules.{Ensures-pure, ensures-lift, ensures-execute}
use satunera.Store.Sqlite.Users
use satunera.Store.Sqlite.Submissions
use satunera.Store.Behaviour.Atomicity.{parse_ts_of_now}

-- A row that no test saw before is found at the end.
find?-added :
    {A : Type 0} (p : A → Bool) (rows : List A) (row : A)
    → any p rows ≡ false
    → p row ≡ true
    → find? p (rows ++ row ∷ []) ≡ some row
unfolding find?
find?-added p rows row h k =
    find?-append_of_none p rows (row ∷ []) (find?-none_of_any p rows h) ∙ rw k refl

untaken :
    (row : UserRecord) (users : List UserRecord)
    → any
        (λ u. text_eq u.id row.id || (text_eq u.handle row.handle || text_eq u.email row.email))
        users
      ≡ false
    → (any (λ u. text_eq u.id row.id) users ≡ false)
      × (any (λ u. text_eq u.handle row.handle) users ≡ false)
unfolding any
untaken row [] h = (refl, refl)
untaken row (u ∷ users) h = ground (arith, untaken row users)

insert_user-found :
    (row : UserRecord) (db after : Db)
    → insert_user row db ≡ stored after
    → (find? (λ u. text_eq u.id row.id) after.users ≡ some row)
      × (find? (λ u. text_eq u.handle row.handle) after.users ≡ some row)
unfolding insert_user user_taken
insert_user-found row db after e =
    let made : record db { users = db.users ++ row ∷ [] } ≡ after = ground arith in
    let (id, handle) = untaken row db.users (ground arith) in
    rw (← made) (
      find?-added (λ u. text_eq u.id row.id) db.users row id (text_eq_refl row.id),
      find?-added (λ u. text_eq u.handle row.handle) db.users row handle (text_eq_refl row.handle),
    )

insert_submission-found :
    (row : SubmissionRecord) (db after : Db)
    → insert_submission row db ≡ stored after
    → select_submission row.id after ≡ some row
unfolding insert_submission has_submission select_submission
insert_submission-found row db after e =
    let made : record db { submissions = db.submissions ++ row ∷ [] } ≡ after = ground arith in
    let fresh : any (λ s. text_eq s.id row.id) db.submissions ≡ false = ground arith in
    rw (← made)
      (find?-added (λ s. text_eq s.id row.id) db.submissions row fresh (text_eq_refl row.id))

queued_parsed : Status.parse (codes "QUEUED") ≡ some queued
unfolding Status.parse Status.as_str text_eq
queued_parsed = refl

module _ {Ulid Time : Type 0} (c : Codec Ulid Time) where
  -- A user that `create_user` returned is what `user` and `user_by_handle` then read.
  pub user-create_user :
      (id : Ulid) (clock : Time) (new : NewUser) (db : Db) (u : User Ulid Time) (after : Db)
      → Users.create_user c id clock new db ≡ (ok u, after)
      → (Users.user c id after ≡ (ok u, after))
        × (Users.user_by_handle c new.handle after ≡ (ok u, after))
  unfolding Users.create_user Users.user Users.user_by_handle Users.decode_user
  user-create_user id clock new db = ensures-lift (now c clock) _ db _ λ at e.
      ensures-execute _ (insert_user _) _ db _ λ middle w.
        let (by_id, by_handle) = insert_user-found _ db middle w in
        let back = parse_ts_of_now c (codes "users") clock at e in
        ensures-lift (parse_ts c (codes "users") at) _ middle _ λ t f.
          Ensures-pure _ middle _
            (rw (by_id, by_handle, c.ulid_printed id, Role.parse-as_str new.role, f) (refl, refl))

  -- A submission that `create_submission` returned is what `submission` then reads, and it is the one
  -- that was asked for, under the identifier that was minted: queued, with no verdict, neither started
  -- nor finished.
  pub submission-create_submission :
      (id : Ulid) (clock : Time) (new : NewSubmission Ulid) (db : Db) (s : Submission Ulid Time)
      (after : Db)
      → Submissions.create_submission c id clock new db ≡ (ok s, after)
      → (Submissions.submission c id after ≡ (ok s, after))
        × (s ≡ record {
          id = id;
          user_id = new.user_id;
          problem_id = new.problem_id;
          language = new.language;
          source_hash = new.source_hash;
          source_uri = new.source_uri;
          status = queued;
          verdict = none;
          created_at = s.created_at;
          started_at = none;
          finished_at = none;
        })
  unfolding Submissions.create_submission Submissions.queued_row Submissions.submission
      Submissions.into_submission parse_opt_ts
  submission-create_submission id clock new db = ensures-lift (now c clock) _ db _ λ at e.
      ensures-execute _ (insert_submission _) _ db _ λ middle w.
        let found = insert_submission-found _ db middle w in
        ensures-lift (parse_ts c (codes "submissions") at) _ middle _ λ t f.
          Ensures-pure _ middle _ (
            rw
              (
                found,
                c.ulid_printed id,
                c.ulid_printed new.user_id,
                Language.parse-as_str new.language,
                queued_parsed,
                f,
              )
              (refl, refl))
