-- ===== src/Store/Invariants/Keys.antt =====
-- The keys of the tables hold after every history: PRIMARY KEY and UNIQUE of 0001_initial.up.sql, as the
-- statements of crates/satunera-store/src/sqlite.rs keep them.
use satunera.Prelude.{
  Bool, false, not, ◌≡◌, ◌&&◌, ◌||◌, refl, inl, inr, List, [], ◌∷◌, ◌++◌, map, Option, Text,
  text_eq, text_eq_iff, filter, any, All, Bool-cases, arith,
}
use satunera.Store.Codec.{Codec}
use satunera.Store.Tables.{
  UserRecord, ProblemRecord, RunRecord, ProgressRecord, Db, migrated, user_taken, run_taken,
  has_problem, is_progress, int_eq,
}
use satunera.Store.Tables.Statements.{stored, count_attempt, update_problem}
use satunera.Store.Tables.Statements
use satunera.Store.Spec.Operations.{Op, run}
use satunera.Store.Spec.Statements.{
  insert_user, upsert_problem, delete_problem, insert_submission, update_status, update_verdict,
  update_progress, insert_progress, insert_run, Kept,
}
use satunera.Store.Spec.Keeping.{run-Kept}

-- No row clashes with one that stands before it.
abbrev pub Apart : {A : Type 0} → (A → A → Bool) → List A → Type 0
Apart clash [] = Unit
Apart clash (x ∷ xs) = All (λ y. clash x y ≡ false) xs × Apart clash xs

abbrev pub same_user : UserRecord → UserRecord → Bool
same_user u row = text_eq u.id row.id || (text_eq u.handle row.handle || text_eq u.email row.email)

abbrev pub same_problem : ProblemRecord → ProblemRecord → Bool
same_problem p row = text_eq p.id row.id

abbrev pub same_run : RunRecord → RunRecord → Bool
same_run r row =
    text_eq r.id row.id
    || (text_eq r.submission_id row.submission_id && int_eq r.attempt row.attempt)

abbrev pub same_progress : ProgressRecord → ProgressRecord → Bool
same_progress p row = text_eq p.user_id row.user_id && text_eq p.problem_id row.problem_id

-- No two users share an id, a handle or an email, no two problems an id, no two runs an id or an attempt
-- at one submission, and no two rows of progress a user and a problem.
pub record IsKeyed (db : Db) : Type 0 where
  pub users : Apart same_user db.users
  pub problems : Apart same_problem db.problems
  pub runs : Apart same_run db.runs
  pub progress : Apart same_progress db.user_progress

module _ {A : Type 0} (clash : A → A → Bool) where
  All-added :
      (x row : A) (xs : List A)
      → All (λ y. clash x y ≡ false) xs
      → clash x row ≡ false
      → All (λ y. clash x y ≡ false) (xs ++ row ∷ [])
  All-added x row [] h k = (k, tt)
  All-added x row (y ∷ xs) (p, h) k = (p, All-added x row xs h k)

  Apart-added :
      (row : A) (xs : List A)
      → any (λ x. clash x row) xs ≡ false
      → Apart clash xs
      → Apart clash (xs ++ row ∷ [])
  unfolding any
  Apart-added row [] h k = (tt, tt)
  Apart-added row (x ∷ xs) h (p, k) =
      (All-added x row xs p (ground arith), Apart-added row xs (ground arith) k)

  All-filtered : (P : A → Type 0) (t : A → Bool) (xs : List A) → All P xs → All P (filter t xs)
  unfolding filter
  All-filtered P t [] h = tt
  All-filtered P t (x ∷ xs) (p, h) = ground (arith, All-filtered P t xs h)

  Apart-filtered : (t : A → Bool) (xs : List A) → Apart clash xs → Apart clash (filter t xs)
  unfolding filter
  Apart-filtered t [] h = tt
  Apart-filtered t (x ∷ xs) (p, h) = elim (Bool-cases (t x)) [
    | inl stays ↦ rw stays (All-filtered (λ y. clash x y ≡ false) t xs p, Apart-filtered t xs h)
    | inr goes ↦ rw goes (Apart-filtered t xs h)
  ]

  -- A rewriting that the clashes do not see.
  module _ (f : A → A) (unseen : (x y : A) → clash (f x) (f y) ≡ clash x y) where
    All-mapped :
        (x : A) (xs : List A)
        → All (λ y. clash x y ≡ false) xs
        → All (λ y. clash (f x) y ≡ false) (map f xs)
    All-mapped x [] h = tt
    All-mapped x (y ∷ xs) (p, h) = (rw (unseen x y) p, All-mapped x xs h)

    Apart-mapped : (xs : List A) → Apart clash xs → Apart clash (map f xs)
    Apart-mapped [] h = tt
    Apart-mapped (x ∷ xs) (p, h) = (All-mapped x xs p, Apart-mapped xs h)

id-updated : (row p : ProblemRecord) → (update_problem row p).id ≡ p.id
unfolding update_problem
id-updated row p = ground (arith, text_eq_iff p.id row.id)

same_progress-counted :
    (user problem : Text) (solved : Option Text) (p q : ProgressRecord)
    → same_progress (count_attempt user problem solved p) (count_attempt user problem solved q)
      ≡ same_progress p q
unfolding count_attempt
same_progress-counted user problem solved p q = ground arith

insert_user-IsKeyed :
    (row : UserRecord) (db after : Db)
    → Statements.insert_user row db ≡ stored after
    → IsKeyed db
    → IsKeyed after
unfolding Statements.insert_user user_taken
insert_user-IsKeyed row db after e k =
    let made : record db { users = db.users ++ row ∷ [] } ≡ after = ground arith in
    rw (← made) (record {
      users = Apart-added same_user row db.users (ground arith) k.users;
      problems = k.problems;
      runs = k.runs;
      progress = k.progress;
    })

insert_run-IsKeyed :
    (row : RunRecord) (db after : Db)
    → Statements.insert_run row db ≡ stored after
    → IsKeyed db
    → IsKeyed after
unfolding Statements.insert_run run_taken
insert_run-IsKeyed row db after e k =
    let made : record db { runs = db.runs ++ row ∷ [] } ≡ after = ground arith in
    rw (← made) (record {
      users = k.users;
      problems = k.problems;
      runs = Apart-added same_run row db.runs (ground arith) k.runs;
      progress = k.progress;
    })

insert_progress-IsKeyed :
    (row : ProgressRecord) (db after : Db)
    → Statements.insert_progress row db ≡ stored after
    → IsKeyed db
    → IsKeyed after
unfolding Statements.insert_progress is_progress
insert_progress-IsKeyed row db after e k =
    let made : record db { user_progress = db.user_progress ++ row ∷ [] } ≡ after = ground arith in
    rw (← made) (record {
      users = k.users;
      problems = k.problems;
      runs = k.runs;
      progress = Apart-added same_progress row db.user_progress (ground arith) k.progress;
    })

upsert_problem-IsKeyed :
    (row : ProblemRecord) (db after : Db)
    → Statements.upsert_problem row db ≡ stored after
    → IsKeyed db
    → IsKeyed after
unfolding Statements.upsert_problem has_problem
upsert_problem-IsKeyed row db after e k =
    elim (Bool-cases (any (λ p. text_eq p.id row.id) db.problems)) [
      | inl old ↦
          let made : record db { problems = map (update_problem row) db.problems } ≡ after =
            ground arith in
          rw (← made) (record {
            users = k.users;
            problems =
                Apart-mapped same_problem (update_problem row)
                  (λ p q. rw (id-updated row p, id-updated row q) refl) db.problems k.problems;
            runs = k.runs;
            progress = k.progress;
          })
      | inr fresh ↦
          let made : record db { problems = db.problems ++ row ∷ [] } ≡ after = ground arith in
          rw (← made) (record {
            users = k.users;
            problems = Apart-added same_problem row db.problems fresh k.problems;
            runs = k.runs;
            progress = k.progress;
          })
    ]

-- What leaves the four tables alone keeps their keys.
untouched-IsKeyed :
    (db after : Db)
    → after.users ≡ db.users
    → after.problems ≡ db.problems
    → after.runs ≡ db.runs
    → after.user_progress ≡ db.user_progress
    → IsKeyed db
    → IsKeyed after
untouched-IsKeyed db after u p r g k = record {
  users = rw u k.users;
  problems = rw p k.problems;
  runs = rw r k.runs;
  progress = rw g k.progress;
}

IsKeyed-Kept : Kept IsKeyed
unfolding Statements.delete_problem Statements.insert_submission Statements.update_status
    Statements.update_verdict Statements.update_progress
IsKeyed-Kept (insert_user row) db after e k = insert_user-IsKeyed row db after e k
IsKeyed-Kept (upsert_problem row) db after e k = upsert_problem-IsKeyed row db after e k
IsKeyed-Kept (delete_problem id) db after e k =
    let made : record db { problems = filter (λ p. not (text_eq p.id id)) db.problems } ≡ after =
      ground arith in
    rw (← made) (record {
      users = k.users;
      problems = Apart-filtered same_problem (λ p. not (text_eq p.id id)) db.problems k.problems;
      runs = k.runs;
      progress = k.progress;
    })
IsKeyed-Kept (insert_submission row) db after e k =
    untouched-IsKeyed db after (ground arith) (ground arith) (ground arith) (ground arith) k
IsKeyed-Kept (update_status id status started) db after e k =
    untouched-IsKeyed db after (ground arith) (ground arith) (ground arith) (ground arith) k
IsKeyed-Kept (update_verdict id verdict finished) db after e k =
    untouched-IsKeyed db after (ground arith) (ground arith) (ground arith) (ground arith) k
IsKeyed-Kept (update_progress user problem solved) db after e k =
    let made : record db {
      user_progress = map (count_attempt user problem solved) db.user_progress;
    }
        ≡ after =
      cc in
    rw (← made) (record {
      users = k.users;
      problems = k.problems;
      runs = k.runs;
      progress =
          Apart-mapped same_progress (count_attempt user problem solved)
            (same_progress-counted user problem solved) db.user_progress k.progress;
    })
IsKeyed-Kept (insert_progress row) db after e k = insert_progress-IsKeyed row db after e k
IsKeyed-Kept (insert_run row) db after e k = insert_run-IsKeyed row db after e k

module _ {Ulid Time : Type 0} (c : Codec Ulid Time) where
  -- After any history of calls from the migrated database, whether they returned or failed, no two users
  -- share an id, a handle or an email, no two problems an id, no two runs an id or an attempt at one
  -- submission, and no two rows of progress a user and a problem.
  pub run-IsKeyed : (ops : List (Op Ulid Time)) → IsKeyed (run c ops migrated)
  run-IsKeyed ops =
      run-Kept c IsKeyed IsKeyed-Kept ops migrated
        (record { users = tt; problems = tt; runs = tt; progress = tt })
