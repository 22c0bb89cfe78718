-- ===== src/Store/Invariants/Links.antt =====
-- The references between the tables hold after every history: the FOREIGN KEY clauses of
-- 0001_initial.up.sql, as the statements of crates/satunera-store/src/sqlite.rs keep them.
pub mod Tables
use satunera.Prelude.{
  Bool, true, false, not, ◌≡◌, ◌&&◌, ◌||◌, refl, sym, ap, ◌∙◌, inl, inr, List, [], ◌∷◌, ◌++◌, map,
  Option, Text, codes, text_eq, text_eq_iff, filter, any, All, All-append, Bool-cases, arith,
}
use satunera.Prelude.Keyed.{any-append, any-map, All-map}
use satunera.Store.Codec.{Codec}
use satunera.Store.Tables.{
  UserRecord, ProblemRecord, SubmissionRecord, RunRecord, ProgressRecord, Db, migrated, has_user,
  has_problem, has_submission, problem_used,
}
use satunera.Store.Tables.Statements.{stored, set_status, set_verdict, count_attempt}
use satunera.Store.Tables.Statements
use satunera.Store.Invariants.Rows.{id-set_status, id-set_verdict}
use satunera.Store.Spec.Operations.{Op, run}
use satunera.Store.Spec.Statements.{
  Statement, insert_user, upsert_problem, delete_problem, insert_submission, update_status,
  update_verdict, update_progress, insert_progress, insert_run, Kept,
}
use satunera.Store.Spec.Keeping.{run-Kept}

-- The user and the problem are there.
abbrev pub Linked : Db → Text → Text → Type 0
Linked db user problem = (has_user user db ≡ true) × (has_problem problem db ≡ true)

abbrev pub SubmissionLinked : Db → SubmissionRecord → Type 0
SubmissionLinked db s = Linked db s.user_id s.problem_id

abbrev pub ProgressLinked : Db → ProgressRecord → Type 0
ProgressLinked db p = Linked db p.user_id p.problem_id

abbrev pub RunLinked : Db → RunRecord → Type 0
RunLinked db r = has_submission r.submission_id db ≡ true

-- Every submission and every row of progress has its user and its problem, every run its submission.
pub record IsLinked (db : Db) : Type 0 where
  pub submissions : All (SubmissionLinked db) db.submissions
  pub progress : All (ProgressLinked db) db.user_progress
  pub runs : All (RunLinked db) db.runs

pub weaken :
    {A : Type 0} {P Q : A → Type 0} → ((x : A) → P x → Q x) → (xs : List A) → All P xs → All Q xs
weaken f [] h = tt
weaken f (x ∷ xs) (p, h) = (f x p, weaken f xs h)

pub weaken_without :
    {A : Type 0} {P Q : A → Type 0} (t : A → Bool)
    → ((x : A) → P x → t x ≡ false → Q x)
    → (xs : List A) → any t xs ≡ false
    → All P xs
    → All Q xs
unfolding any
weaken_without t f [] n h = tt
weaken_without t f (x ∷ xs) n (p, h) =
    (f x p (ground arith), weaken_without t f xs (ground arith) h)

-- What grows keeps the references.
module _ (db after : Db) (users : (u : Text) → has_user u db ≡ true → has_user u after ≡ true)
    (problems : (p : Text) → has_problem p db ≡ true → has_problem p after ≡ true) where
  relinked : (u p : Text) → Linked db u p → Linked after u p
  relinked u p (hu, hp) = (users u hu, problems p hp)

  grown-IsLinked :
      after.submissions ≡ db.submissions
      → after.user_progress ≡ db.user_progress
      → after.runs ≡ db.runs
      → IsLinked db
      → IsLinked after
  unfolding has_submission has_user has_problem
  grown-IsLinked s p r l = record {
    submissions = rw s (weaken (λ x. relinked x.user_id x.problem_id) db.submissions l.submissions);
    progress = rw p (weaken (λ x. relinked x.user_id x.problem_id) db.user_progress l.progress);
    runs = rw r (weaken (λ x h. rw s h) db.runs l.runs);
  }

pub insert_user-IsLinked :
    (row : UserRecord) (db after : Db)
    → Statements.insert_user row db ≡ stored after
    → IsLinked db
    → IsLinked after
unfolding Statements.insert_user has_user has_problem
insert_user-IsLinked row db after e l =
    let made : record db { users = db.users ++ row ∷ [] } ≡ after = ground arith in
    rw (← made) (
      grown-IsLinked db (record db { users = db.users ++ row ∷ [] })
        (λ u h. rw (any-append (λ x. text_eq x.id u) db.users (row ∷ []), h) refl) (λ p h. h) refl
        refl refl l)

id-update_problem : (row p : ProblemRecord) → (Statements.update_problem row p).id ≡ p.id
unfolding Statements.update_problem
id-update_problem row p = ground (arith, text_eq_iff p.id row.id)

pub upsert_problem-IsLinked :
    (row : ProblemRecord) (db after : Db)
    → Statements.upsert_problem row db ≡ stored after
    → IsLinked db
    → IsLinked after
unfolding Statements.upsert_problem has_user has_problem
upsert_problem-IsLinked row db after e l =
    elim (Bool-cases (any (λ p. text_eq p.id row.id) db.problems)) [
      | inl old ↦
          let new = record db { problems = map (Statements.update_problem row) db.problems } in
          let made : new ≡ after = ground arith in
          rw (← made) (
            grown-IsLinked db new (λ u h. h)
              (λ p h.
                any-map (λ x. text_eq x.id p) (Statements.update_problem row)
                  (λ x. ap (λ i. text_eq i p) (id-update_problem row x)) db.problems
                ∙ h)
              refl refl refl l)
      | inr fresh ↦
          let new = record db { problems = db.problems ++ row ∷ [] } in
          let made : new ≡ after = ground arith in
          rw (← made) (
            grown-IsLinked db new (λ u h. h)
              (λ p h. rw (any-append (λ x. text_eq x.id p) db.problems (row ∷ []), h) refl) refl
              refl refl l)
    ]
