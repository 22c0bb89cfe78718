-- ===== src/Store/Tables/Constraints.antt =====
-- The constraints of 0001_initial.up.sql: CHECK lists, keys, UNIQUE and REFERENCES.
use satunera.Prelude.{
  Bool, true, List, [], ◌∷◌, ◌&&◌, ◌||◌, Option, none, some, Text, codes, text_eq, any,
}
use satunera.Prelude.Int.{ℤ, pos, negsuc}
use satunera.Prelude.{◌==◌, false}
use satunera.Store.Tables.Rows.{UserRecord, RunRecord, ProgressRecord, Db}

abbrev pub is_in : Text → List Text → Bool
is_in t ts = any (λ s. text_eq s t) ts

-- CHECK (role IN …)
unfoldable pub role_check : Text → Bool
unfolding any
role_check t = is_in t (codes "learner" ∷ codes "author" ∷ codes "admin" ∷ [])

-- CHECK (difficulty IN …)
unfoldable pub difficulty_check : Text → Bool
unfolding any
difficulty_check t = is_in t (codes "easy" ∷ codes "medium" ∷ codes "hard" ∷ [])

-- CHECK (language IN …)
unfoldable pub language_check : Text → Bool
unfolding any
language_check t = is_in t (codes "rust" ∷ codes "py" ∷ codes "cpp" ∷ [])

-- CHECK (status IN …)
unfoldable pub status_check : Text → Bool
unfolding any
status_check t = is_in t (
    codes "QUEUED"
    ∷ codes "PREPARING"
    ∷ codes "BUILDING"
    ∷ codes "BOOTING"
    ∷ codes "RUNNING"
    ∷ codes "DONE"
    ∷ [])

abbrev verdict_texts : List Text
verdict_texts =
    codes "AC"
    ∷ codes "WA"
    ∷ codes "TLE"
    ∷ codes "MLE"
    ∷ codes "RE"
    ∷ codes "CE"
    ∷ codes "SE"
    ∷ codes "IE"
    ∷ []

-- CHECK (verdict IN …): NULL passes.
unfoldable pub verdict_check : Option Text → Bool
unfolding any
verdict_check none = true
verdict_check (some t) = is_in t verdict_texts

-- Whether a row with the key is there: PRIMARY KEY, and the target of REFERENCES.
unfoldable pub has_user : Text → Db → Bool
has_user id db = any (λ u. text_eq u.id id) db.users

unfoldable pub has_problem : Text → Db → Bool
has_problem id db = any (λ p. text_eq p.id id) db.problems

unfoldable pub has_submission : Text → Db → Bool
has_submission id db = any (λ s. text_eq s.id id) db.submissions

-- PRIMARY KEY (id), UNIQUE (handle), UNIQUE (email)
unfoldable pub user_taken : UserRecord → Db → Bool
user_taken row db =
    any (λ u. text_eq u.id row.id || (text_eq u.handle row.handle || text_eq u.email row.email))
      db.users

abbrev pub int_eq : ℤ → ℤ → Bool
int_eq (pos m) (pos n) = m == n
int_eq (negsuc m) (negsuc n) = m == n
int_eq _ _ = false

-- PRIMARY KEY (id), UNIQUE (submission_id, attempt)
unfoldable pub run_taken : RunRecord → Db → Bool
run_taken row db =
    any
      (λ r.
        text_eq r.id row.id
        || (text_eq r.submission_id row.submission_id && int_eq r.attempt row.attempt))
      db.runs

-- The row of `user_progress` for a user and a problem.
unfoldable pub is_progress : Text → Text → ProgressRecord → Bool
is_progress user problem p = text_eq p.user_id user && text_eq p.problem_id problem

-- A row of another table that refers to the problem.
unfoldable pub problem_used : Text → Db → Bool
problem_used id db =
    any (λ s. text_eq s.problem_id id) db.submissions
    || any (λ p. text_eq p.problem_id id) db.user_progress
