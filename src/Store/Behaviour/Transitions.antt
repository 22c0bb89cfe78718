-- ===== src/Store/Behaviour/Transitions.antt =====
-- `set_submission_status` and `finish_submission` of crates/satunera-store/src/sqlite.rs on every branch.
use satunera.Prelude.{
  true, false, ◌≡◌, ◌||◌, refl, ap, ◌∙◌, inl, inr, map, Option, none, some, Text, codes, text_eq,
  any, is_some, Bool-cases, if◌then◌else◌, find?-All,
}
use satunera.Prelude.Keyed.{any-map}
use satunera.Contracts.Verdict
use satunera.Contracts.Verdict.{Verdict, is_accepted, counts_against_user}
use satunera.Store.Status
use satunera.Store.Status.{SubmissionStatus, done, can_transition_to}
use satunera.Store.Codec.{Codec}
use satunera.Store.Error.{not_found, illegal_transition, ok, err}
use satunera.Store.Tables.{
  SubmissionRecord, Db, status_check, verdict_check, has_user, has_problem, is_progress,
}
use satunera.Store.Tables.Statements.{
  stored, set_status, set_verdict, count_attempt, update_status, update_verdict, update_progress,
  insert_progress, select_submission,
}
use satunera.Store.Sqlite.Actions.{now}
use satunera.Store.Sqlite.Submissions
use satunera.Store.Spec.Effect.{next_progress, solved_stamp}
use satunera.Store.Invariants.Links.{IsLinked, Linked, SubmissionLinked}
use satunera.Store.Invariants.Tally.{is_progress-count_attempt}
use satunera.Store.Behaviour.Checks.{checks_agree}

status_check-as_str : (s : SubmissionStatus) → status_check (Status.as_str s) ≡ true
status_check-as_str s = (checks_agree (Status.as_str s)).1 ∙ ap is_some (Status.parse-as_str s)

verdict_check-as_str : (v : Verdict) → verdict_check (some (Verdict.as_str v)) ≡ true
verdict_check-as_str v = (checks_agree (Verdict.as_str v)).2 ∙ ap is_some (Verdict.parse-as_str v)

update_status-stores :
    (id started : Text) (s : SubmissionStatus) (db : Db)
    → update_status id (Status.as_str s) started db
      ≡ stored
          (record db { submissions = map (set_status id (Status.as_str s) started) db.submissions })
unfolding update_status
update_status-stores id started s db = rw (status_check-as_str s) refl

update_verdict-stores :
    (id finished : Text) (v : Verdict) (db : Db)
    → update_verdict id (Verdict.as_str v) finished db
      ≡ stored (record db {
        submissions = map (set_verdict id (Verdict.as_str v) finished) db.submissions;
      })
unfolding update_verdict
update_verdict-stores id finished v db = rw (verdict_check-as_str v) refl

-- The bookkeeping goes through when the user and the problem are there.
record_progress-returns :
    {Ulid : Type 0} (row : SubmissionRecord) (v : Verdict) (stamp : Text) (db : Db)
    → Linked db row.user_id row.problem_id
    → Submissions.record_progress {Ulid = Ulid} row v stamp db ≡ (
      ok tt,
      record db {
        user_progress = next_progress row.user_id row.problem_id v stamp db.user_progress;
      },
    )
unfolding Submissions.record_progress update_progress insert_progress has_user has_problem
record_progress-returns row v stamp db (hu, hp) =
    elim (Bool-cases (counts_against_user v || is_accepted v)) [
      | inl counted ↦
          elim (Bool-cases (any (is_progress row.user_id row.problem_id) db.user_progress)) [
            | inl old ↦ rw (counted, old) refl
            | inr first ↦
                let count = count_attempt row.user_id row.problem_id (solved_stamp v stamp) in
                let none_yet : any (is_progress row.user_id row.problem_id)
                      (map count db.user_progress)
                    ≡ false =
                  any-map (is_progress row.user_id row.problem_id) count
                    (is_progress-count_attempt row.user_id row.problem_id row.user_id row.problem_id
                      (solved_stamp v stamp))
                    db.user_progress
                  ∙ first in
                rw (counted, first, none_yet, hu, hp) refl
          ]
      | inr free ↦ rw free refl
    ]

-- `started_at` as it is stored, or the current time.
abbrev pub kept_or : Option Text → Text → Text
kept_or none at = at
kept_or (some earlier) at = earlier

module _ {Ulid Time : Type 0} (c : Codec Ulid Time) where
  now-ok : (clock : Time) (at : Text) → c.format clock ≡ some at → now c clock ≡ ok at
  unfolding now
  now-ok clock at h = rw h refl

  started-ok :
      (clock : Time) (at : Text) (started : Option Text)
      → c.format clock ≡ some at
      → Submissions.started_or_now c started clock ≡ ok (kept_or started at)
  unfolding Submissions.started_or_now
  started-ok clock at none h = now-ok clock at h
  started-ok clock at (some earlier) h = refl

  legal-ok :
      (id : Ulid) (row : SubmissionRecord) (current next : SubmissionStatus)
      → Status.parse row.status ≡ some current
      → can_transition_to current next ≡ true
      → Submissions.checked_transition c id row next ≡ ok tt
  unfolding Submissions.checked_transition
  legal-ok id row current next p h = rw (p, h) refl

  illegal-err :
      (id : Ulid) (row : SubmissionRecord) (current next : SubmissionStatus)
      → Status.parse row.status ≡ some current
      → can_transition_to current next ≡ false
      → Submissions.checked_transition c id row next
        ≡ err (illegal_transition id (Status.as_str current) (Status.as_str next))
  unfolding Submissions.checked_transition
  illegal-err id row current next p h = rw (p, h) refl

  -- A call of `set_submission_status` on a submission that is there, at a clock that can be formatted: a
  -- move that is allowed returns, with the status set, `started_at` set unless it was, and nothing else
  -- changed; one that is not fails as illegal with the names of both states, and changes nothing.
  pub set_submission_status_cases :
      (clock : Time) (at : Text) (id : Ulid) (next : SubmissionStatus) (db : Db)
      (row : SubmissionRecord) (current : SubmissionStatus)
      → c.format clock ≡ some at
      → select_submission (c.ulid_text id) db ≡ some row
      → Status.parse row.status ≡ some current
      → Submissions.set_submission_status c clock id next db ≡ (
          if can_transition_to current next
          then (
            ok tt,
            record db {
              submissions =
                  map
                    (set_status (c.ulid_text id) (Status.as_str next) (kept_or row.started_at at))
                    db.submissions;
            },
          )
          else (err (illegal_transition id (Status.as_str current) (Status.as_str next)), db))
  unfolding Submissions.set_submission_status Submissions.status_body
  set_submission_status_cases clock at id next db row current format found parsed =
      elim (Bool-cases (can_transition_to current next)) [
        | inl legal ↦
            rw
              (
                legal,
                found,
                legal-ok id row current next parsed legal,
                started-ok clock at row.started_at format,
                update_status-stores (c.ulid_text id) (kept_or row.started_at at) next db,
              )
              refl
        | inr illegal ↦ rw (illegal, found, illegal-err id row current next parsed illegal) refl
      ]

  -- A call of `finish_submission` on a submission that is there, at a clock that can be formatted, in a
  -- database whose references hold: from a state that may become done it returns, with the verdict, the
  -- state and `finished_at` set, the progress of the learner brought up to date, and nothing else changed;
  -- from another it fails as illegal, and changes nothing.
  pub finish_submission_cases :
      (clock : Time) (at : Text) (id : Ulid) (v : Verdict) (db : Db) (row : SubmissionRecord)
      (current : SubmissionStatus)
      → c.format clock ≡ some at
      → IsLinked db
      → select_submission (c.ulid_text id) db ≡ some row
      → Status.parse row.status ≡ some current
      → Submissions.finish_submission c clock id v db ≡ (
          if can_transition_to current done
          then (
            ok tt,
            record db {
              submissions = map (set_verdict (c.ulid_text id) (Verdict.as_str v) at) db.submissions;
              user_progress = next_progress row.user_id row.problem_id v at db.user_progress;
            },
          )
          else (err (illegal_transition id (Status.as_str current) (Status.as_str done)), db))
  unfolding Submissions.finish_submission Submissions.finish_body select_submission has_user
      has_problem
  finish_submission_cases clock at id v db row current format links found parsed =
      elim (Bool-cases (can_transition_to current done)) [
        | inl legal ↦
            let linked : Linked db row.user_id row.problem_id =
              find?-All (SubmissionLinked db) (λ s. text_eq s.id (c.ulid_text id)) db.submissions
                row links.submissions found in
            rw
              (
                legal,
                found,
                legal-ok id row current done parsed legal,
                now-ok clock at format,
                update_verdict-stores (c.ulid_text id) at v db,
                record_progress-returns {Ulid = Ulid} row v at
                    (record db {
                      submissions =
                          map (set_verdict (c.ulid_text id) (Verdict.as_str v) at) db.submissions;
                    })
                    linked,
              )
              refl
        | inr illegal ↦ rw (illegal, found, illegal-err id row current done parsed illegal) refl
      ]

  -- Without the submission, the read and both transitions fail as not found and change nothing.
  pub missing_submission :
      (clock : Time) (id : Ulid) (next : SubmissionStatus) (v : Verdict) (db : Db)
      → select_submission (c.ulid_text id) db ≡ none
      → (Submissions.submission c id db
          ≡ (err (not_found (codes "submissions") (c.ulid_text id)), db))
        × (Submissions.set_submission_status c clock id next db
            ≡ (err (not_found (codes "submissions") (c.ulid_text id)), db))
        × (Submissions.finish_submission c clock id v db
            ≡ (err (not_found (codes "submissions") (c.ulid_text id)), db))
  unfolding Submissions.submission Submissions.set_submission_status Submissions.status_body
      Submissions.finish_submission Submissions.finish_body
  missing_submission clock id next v db missing = rw missing (refl, refl, refl)
