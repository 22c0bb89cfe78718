-- ===== src/Store/Tables/Statements.antt =====
-- The statements of crates/satunera-store/src/sqlite.rs, on the tables.
use satunera.Prelude.{
  not, ◌&&◌, [], ◌∷◌, ◌++◌, map, Option, some, Text, codes, text_eq, find?, filter, any, or_option,
  if◌then◌else◌,
}
use satunera.Prelude.Int.{add_one}
use satunera.Store.Error.{DbError, check_violation, unique_violation, foreign_key_violation}
use satunera.Store.Tables.Rows.{
  UserRecord, ProblemRecord, SubmissionRecord, RunRecord, ProgressRecord, Db,
}
use satunera.Store.Tables.Constraints.{
  role_check, difficulty_check, language_check, status_check, verdict_check, has_user, has_problem,
  has_submission, user_taken, run_taken, is_progress, problem_used,
}

-- What executing a statement gives.
pub data Written : Type 0 where
  stored : Db → Written
  refused : DbError → Written

-- INSERT INTO users (…) VALUES (…)
unfoldable pub insert_user : UserRecord → Db → Written
insert_user row db =
    if not (role_check row.role)
    then refused check_violation
    else if user_taken row db
    then refused unique_violation
    else stored (record db { users = db.users ++ row ∷ [] })

unfoldable pub update_problem : ProblemRecord → ProblemRecord → ProblemRecord
update_problem row p = if text_eq p.id row.id then row else p

-- INSERT INTO problems (…) VALUES (…) ON CONFLICT (id) DO UPDATE SET …
unfoldable pub upsert_problem : ProblemRecord → Db → Written
upsert_problem row db =
    if not (difficulty_check row.difficulty)
    then refused check_violation
    else if has_problem row.id db
    then stored (record db { problems = map (update_problem row) db.problems })
    else stored (record db { problems = db.problems ++ row ∷ [] })

-- DELETE FROM problems WHERE id = ?
unfoldable pub delete_problem : Text → Db → Written
delete_problem id db =
    if has_problem id db && problem_used id db
    then refused foreign_key_violation
    else stored (record db { problems = filter (λ p. not (text_eq p.id id)) db.problems })

-- INSERT INTO submissions (…) VALUES (?, ?, ?, ?, ?, ?, 'QUEUED', ?)
unfoldable pub insert_submission : SubmissionRecord → Db → Written
insert_submission row db =
    if not (language_check row.language && (status_check row.status && verdict_check row.verdict))
    then refused check_violation
    else if has_submission row.id db
    then refused unique_violation
    else if has_user row.user_id db && has_problem row.problem_id db
    then stored (record db { submissions = db.submissions ++ row ∷ [] })
    else refused foreign_key_violation

unfoldable pub set_status : Text → Text → Text → SubmissionRecord → SubmissionRecord
set_status id status started s =
    if text_eq s.id id then record s { status = status; started_at = some started } else s

-- UPDATE submissions SET status = ?, started_at = ? WHERE id = ?
-- The CHECK is on the value that is set: the row is there, by the SELECT before.
unfoldable pub update_status : Text → Text → Text → Db → Written
update_status id status started db =
    if status_check status
    then stored (record db { submissions = map (set_status id status started) db.submissions })
    else refused check_violation

unfoldable pub set_verdict : Text → Text → Text → SubmissionRecord → SubmissionRecord
set_verdict id verdict finished s =
    if text_eq s.id id
    then record s { status = codes "DONE"; verdict = some verdict; finished_at = some finished }
    else s

-- UPDATE submissions SET status = 'DONE', verdict = ?, finished_at = ? WHERE id = ?
unfoldable pub update_verdict : Text → Text → Text → Db → Written
update_verdict id verdict finished db =
    if verdict_check (some verdict)
    then stored (record db { submissions = map (set_verdict id verdict finished) db.submissions })
    else refused check_violation

unfoldable pub count_attempt : Text → Text → Option Text → ProgressRecord → ProgressRecord
count_attempt user problem solved p =
    if is_progress user problem p
    then record p { attempts = add_one p.attempts; solved_at = or_option p.solved_at solved }
    else p

-- UPDATE user_progress SET attempts = attempts + 1, solved_at = CASE … WHERE user_id = ? AND …
unfoldable pub update_progress : Text → Text → Option Text → Db → Written
update_progress user problem solved db =
    stored (record db { user_progress = map (count_attempt user problem solved) db.user_progress })

-- INSERT INTO user_progress (…) VALUES (?, ?, ?, 1)
unfoldable pub insert_progress : ProgressRecord → Db → Written
insert_progress row db =
    if any (is_progress row.user_id row.problem_id) db.user_progress
    then refused unique_violation
    else if has_user row.user_id db && has_problem row.problem_id db
    then stored (record db { user_progress = db.user_progress ++ row ∷ [] })
    else refused foreign_key_violation

-- INSERT INTO runs (…) VALUES (…)
unfoldable pub insert_run : RunRecord → Db → Written
insert_run row db =
    if not (verdict_check row.verdict)
    then refused check_violation
    else if run_taken row db
    then refused unique_violation
    else if has_submission row.submission_id db
    then stored (record db { runs = db.runs ++ row ∷ [] })
    else refused foreign_key_violation

-- SELECT … FROM submissions WHERE id = ?
unfoldable pub select_submission : Text → Db → Option SubmissionRecord
select_submission id db = find? (λ s. text_eq s.id id) db.submissions
