-- ===== src/Store/Invariants/Decodable/Rows.antt =====
-- The rows that the statements of crates/satunera-store/src/sqlite.rs write are rows that read.
use satunera.Prelude.{◌≡◌, inl, inr, Option, none, some, Text, text_eq, or_option, Bool-cases}
use satunera.Contracts.Verdict
use satunera.Contracts.Verdict.{Verdict}
use satunera.Store.Status
use satunera.Store.Codec.{Codec}
use satunera.Store.Error.{ok}
use satunera.Store.Model.{ProblemRow}
use satunera.Store.Status.{SubmissionStatus}
use satunera.Store.Tables.{ProblemRecord, SubmissionRecord, ProgressRecord, is_progress}
use satunera.Store.Tables.Statements.{update_problem, set_status, set_verdict, count_attempt}
use satunera.Store.Sqlite.Actions.{now}
use satunera.Store.Sqlite.Problems.{encode_problem}
use satunera.Store.Sqlite.Submissions.{started_or_now}
use satunera.Store.Spec.Statements.{IsStamp}
use satunera.Store.Spec.Keeping.{formatted-eq-ok}
use satunera.Store.Invariants.Decodable.{
  Has, Each, InRange, SubmissionReads, ProblemReads, ProgressReads, done_reads, stamp_reads,
}

module _ {Ulid Time : Type 0} (c : Codec Ulid Time) where
  pub update_problem-Reads :
      (row p : ProblemRecord)
      → ProblemReads c row
      → ProblemReads c p
      → ProblemReads c (update_problem row p)
  unfolding update_problem
  update_problem-Reads row p r q = elim (Bool-cases (text_eq p.id row.id)) [
    | inl here ↦ rw here r
    | inr away ↦ rw away q
  ]

  pub upserted_reads :
      (row : ProblemRow Time) (at : Text)
      → IsStamp c InRange at
      → ProblemReads c (encode_problem c row at)
  unfolding encode_problem
  upserted_reads row at s = stamp_reads c at s

  pub set_status-Reads :
      (id : Text) (status : SubmissionStatus) (at : Text) (s : SubmissionRecord)
      → Has (c.parse_time at)
      → SubmissionReads c s
      → SubmissionReads c (set_status id (Status.as_str status) at s)
  unfolding set_status
  set_status-Reads id status at s t r = elim (Bool-cases (text_eq s.id id)) [
    | inl here ↦ rw here (record {
      id = r.id;
      user_id = r.user_id;
      language = r.language;
      status = (status, Status.parse-as_str status);
      verdict = r.verdict;
      created_at = r.created_at;
      started_at = t;
      finished_at = r.finished_at;
    })
    | inr away ↦ rw away r
  ]

  pub set_verdict-Reads :
      (id : Text) (v : Verdict) (at : Text) (s : SubmissionRecord)
      → Has (c.parse_time at)
      → SubmissionReads c s
      → SubmissionReads c (set_verdict id (Verdict.as_str v) at s)
  unfolding set_verdict
  set_verdict-Reads id v at s t r = elim (Bool-cases (text_eq s.id id)) [
    | inl here ↦ rw here (record {
      id = r.id;
      user_id = r.user_id;
      language = r.language;
      status = (Status.done, done_reads);
      verdict = (v, Verdict.parse-as_str v);
      created_at = r.created_at;
      started_at = r.started_at;
      finished_at = t;
    })
    | inr away ↦ rw away r
  ]

  pub started_reads :
      (clock : Time) (o : Option Text) (at : Text)
      → Each (λ t. Has (c.parse_time t)) o
      → started_or_now c o clock ≡ ok at
      → Has (c.parse_time at)
  unfolding started_or_now now
  started_reads clock none at h e = stamp_reads c at (clock, formatted-eq-ok (c.format clock) at e)
  started_reads clock (some existing) at h e = let same : existing ≡ at = cc in rw (← same) h

  or_option-Reads :
      (o solved : Option Text)
      → Each (λ at. Has (c.parse_time at)) o
      → Each (λ at. Has (c.parse_time at)) solved
      → Each (λ at. Has (c.parse_time at)) (or_option o solved)
  or_option-Reads none solved h k = k
  or_option-Reads (some at) solved h k = h

  pub count_attempt-Reads :
      (user problem : Text) (solved : Option Text)
      → Each (λ at. Has (c.parse_time at)) solved
      → (row : ProgressRecord) → ProgressReads c row
      → ProgressReads c (count_attempt user problem solved row)
  unfolding count_attempt
  count_attempt-Reads user problem solved k row h =
      elim (Bool-cases (is_progress user problem row)) [
        | inl mine ↦ rw mine (or_option-Reads row.solved_at solved h k)
        | inr other ↦ rw other h
      ]
