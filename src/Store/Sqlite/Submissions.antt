-- ===== src/Store/Sqlite/Submissions.antt =====
-- The submission operations and `progress` of crates/satunera-store/src/sqlite.rs.
use satunera.Prelude.{
  ℕ, true, not, ◌&&◌, ◌||◌, List, take, Option, none, some, Text, codes, text_eq, text_le, find?,
  filter, any, is_some, if◌then◌else◌,
}
use satunera.Prelude.Int.{pos, to_u32}
use satunera.Prelude.Sorting.{sort_by}
use satunera.Contracts.Language
use satunera.Contracts.Verdict
use satunera.Contracts.Verdict.{Verdict, is_accepted, counts_against_user}
use satunera.Store.Status
use satunera.Store.Status.{SubmissionStatus, queued, done, can_transition_to}
use satunera.Store.Codec.{Codec}
use satunera.Store.Error.{
  bad_id, bad_user_id, bad_language, bad_status, bad_verdict, bad_attempts, not_found,
  illegal_transition, corrupt_row, Result, ok, err, ◌>>=◌ as bind,
}
use satunera.Store.Model.{Submission, NewSubmission, UserProgress}
use satunera.Store.Tables.{SubmissionRecord, ProgressRecord, is_progress}
use satunera.Store.Tables.Statements.{
  insert_submission, update_status, update_verdict, update_progress, insert_progress,
  select_submission,
}
use satunera.Store.Sqlite.Actions.{
  Tx, ◌>>=◌, ◌>>◌, lift, pure, select, execute, transaction, ok_or, transposed, collected, now,
  parse_ts, parse_opt_ts,
}

abbrev submissions_entity : Text
submissions_entity = codes "submissions"

parse_verdict : {Ulid : Type 0} → Text → Result Ulid Verdict
parse_verdict v = ok_or (corrupt_row submissions_entity (bad_verdict v)) (Verdict.parse v)

-- What `finish_submission` does once the verdict is written: the bookkeeping of `user_progress`.
unfoldable pub record_progress :
    {Ulid : Type 0} → SubmissionRecord → Verdict → Text → Tx Ulid (Unit {0})
record_progress row verdict finished_at =
    let solved_at : Option Text = if is_accepted verdict then some finished_at else none in
    if counts_against_user verdict || is_accepted verdict
    then (do
      updated ← select (λ db. any (is_progress row.user_id row.problem_id) db.user_progress)
      execute (update_progress row.user_id row.problem_id solved_at)
      if updated
          then pure tt
          else execute (
              insert_progress (record {
                user_id = row.user_id;
                problem_id = row.problem_id;
                solved_at = solved_at;
                attempts = pos 1;
              })))
    else pure tt

module _ {Ulid Time : Type 0} (c : Codec Ulid Time) where
  -- `SubmissionRecord::into_submission`
  unfoldable pub into_submission : SubmissionRecord → Result Ulid (Submission Ulid Time)
  unfolding parse_verdict
  into_submission row =
      bind (ok_or (corrupt_row submissions_entity (bad_id row.id)) (c.parse_ulid row.id)) λ id.
        bind
          (ok_or (corrupt_row submissions_entity (bad_user_id row.user_id))
            (c.parse_ulid row.user_id))
          λ user_id.
            bind
              (ok_or (corrupt_row submissions_entity (bad_language row.language))
                (Language.parse row.language))
              λ language.
                bind
                  (ok_or (corrupt_row submissions_entity (bad_status row.status))
                    (Status.parse row.status))
                  λ status. bind (transposed parse_verdict row.verdict) λ verdict.
                    bind (parse_ts c submissions_entity row.created_at) λ created_at.
                      bind (parse_opt_ts c submissions_entity row.started_at) λ started_at.
                        bind (parse_opt_ts c submissions_entity row.finished_at) λ finished_at.
                          ok (record {
                            id = id;
                            user_id = user_id;
                            problem_id = row.problem_id;
                            language = language;
                            source_hash = row.source_hash;
                            source_uri = row.source_uri;
                            status = status;
                            verdict = verdict;
                            created_at = created_at;
                            started_at = started_at;
                            finished_at = finished_at;
                          })

  -- The row that `create_submission` inserts.
  unfoldable pub queued_row : Ulid → Text → NewSubmission Ulid → SubmissionRecord
  queued_row id created_at new = record {
    id = c.ulid_text id;
    user_id = c.ulid_text new.user_id;
    problem_id = new.problem_id;
    language = Language.as_str new.language;
    source_hash = new.source_hash;
    source_uri = new.source_uri;
    status = codes "QUEUED";
    verdict = none;
    created_at = created_at;
    started_at = none;
    finished_at = none;
  }

  unfoldable pub create_submission :
      (id : Ulid) (clock : Time) → NewSubmission Ulid → Tx Ulid (Submission Ulid Time)
  create_submission id clock new = do
    created_at ← lift (now c clock)
    execute (insert_submission (queued_row id created_at new))
    created ← lift (parse_ts c submissions_entity created_at)
    pure (record {
      id = id;
      user_id = new.user_id;
      problem_id = new.problem_id;
      language = new.language;
      source_hash = new.source_hash;
      source_uri = new.source_uri;
      status = queued;
      verdict = none;
      created_at = created;
      started_at = none;
      finished_at = none;
    })

  unfoldable pub submission : Ulid → Tx Ulid (Submission Ulid Time)
  submission id = do
    found ← select (select_submission (c.ulid_text id))
    row ← lift (ok_or (not_found submissions_entity (c.ulid_text id)) found)
    lift (into_submission row)

  -- `started_at` as it is stored, or the current time.
  unfoldable pub started_or_now : Option Text → Time → Result Ulid Text
  started_or_now (some existing) clock = ok existing
  started_or_now none clock = now c clock

  -- `SubmissionStatus::parse(&row.status)…?` and the guard on the transition.
  unfoldable pub checked_transition :
      Ulid → SubmissionRecord → SubmissionStatus → Result Ulid (Unit {0})
  checked_transition id row next =
      bind
        (ok_or (corrupt_row submissions_entity (bad_status row.status)) (Status.parse row.status))
        λ current.
          if can_transition_to current next
          then ok tt
          else err (illegal_transition id (Status.as_str current) (Status.as_str next))

  -- `set_submission_status` between `begin_immediate` and `commit`.
  unfoldable pub status_body : (clock : Time) → Ulid → SubmissionStatus → Tx Ulid (Unit {0})
  status_body clock id status = do
    found ← select (select_submission (c.ulid_text id))
    row ← lift (ok_or (not_found submissions_entity (c.ulid_text id)) found)
    lift (checked_transition id row status)
    started_at ← lift (started_or_now row.started_at clock)
    execute (update_status (c.ulid_text id) (Status.as_str status) started_at)

  unfoldable pub set_submission_status :
      (clock : Time) → Ulid → SubmissionStatus → Tx Ulid (Unit {0})
  set_submission_status clock id status = transaction (status_body clock id status)

  -- `finish_submission` between `begin_immediate` and `commit`.
  unfoldable pub finish_body : (clock : Time) → Ulid → Verdict → Tx Ulid (Unit {0})
  finish_body clock id verdict = do
    found ← select (select_submission (c.ulid_text id))
    row ← lift (ok_or (not_found submissions_entity (c.ulid_text id)) found)
    lift (checked_transition id row done)
    finished_at ← lift (now c clock)
    execute (update_verdict (c.ulid_text id) (Verdict.as_str verdict) finished_at)
    record_progress row verdict finished_at

  unfoldable pub finish_submission : (clock : Time) → Ulid → Verdict → Tx Ulid (Unit {0})
  finish_submission clock id verdict = transaction (finish_body clock id verdict)

  -- ORDER BY id DESC LIMIT 1
  unfoldable pub latest_verdict_for_hash : Ulid → Text → Tx Ulid (Option (Submission Ulid Time))
  latest_verdict_for_hash user_id source_hash = do
    rows ← select (λ db. take 1 (
        sort_by (λ s t. text_le t.id s.id)
          (filter
            (λ s.
              text_eq s.user_id (c.ulid_text user_id)
              && (text_eq s.source_hash source_hash && is_some s.verdict))
            db.submissions)))
    subs ← lift (collected into_submission rows)
    pure (find? (λ _. true) subs)

  -- ORDER BY id DESC LIMIT ?
  unfoldable pub submissions_for_user : Ulid → ℕ → Tx Ulid (List (Submission Ulid Time))
  submissions_for_user user_id limit = do
    rows ← select (λ db. take limit (
        sort_by (λ s t. text_le t.id s.id)
          (filter (λ s. text_eq s.user_id (c.ulid_text user_id)) db.submissions)))
    lift (collected into_submission rows)

  -- WHERE status <> 'DONE' ORDER BY id
  unfoldable pub in_flight_submissions : Tx Ulid (List (Submission Ulid Time))
  in_flight_submissions = do
    rows ← select (λ db.
        sort_by (λ s t. text_le s.id t.id)
          (filter (λ s. not (text_eq s.status (codes "DONE"))) db.submissions))
    lift (collected into_submission rows)

  unfoldable pub decode_progress :
      Ulid → Text → ProgressRecord → Result Ulid (UserProgress Ulid Time)
  decode_progress user_id problem_id row =
      bind (parse_opt_ts c (codes "user_progress") row.solved_at) λ solved_at.
        bind
          (ok_or (corrupt_row (codes "user_progress") (bad_attempts row.attempts))
            (to_u32 row.attempts))
          λ attempts. ok (record {
            user_id = user_id;
            problem_id = problem_id;
            solved_at = solved_at;
            attempts = attempts;
          })

  unfoldable pub progress : Ulid → Text → Tx Ulid (Option (UserProgress Ulid Time))
  progress user_id problem_id = do
    row ← select (λ db. find? (is_progress (c.ulid_text user_id) problem_id) db.user_progress)
    lift (transposed (decode_progress user_id problem_id) row)
