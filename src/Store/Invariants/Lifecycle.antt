-- ===== src/Store/Invariants/Lifecycle.antt =====
-- The life of a submission: crates/satunera-store/src/model.rs and the guards of sqlite.rs.
use satunera.Prelude.{
  true, ◌≡◌, ◌≢◌, refl, List, [], ◌∷◌, none, some, Text, codes, text_eq, All, All-append, is_some,
  find?-All, find?-holds, some-inj, sym, ◌∙◌,
}
use satunera.Prelude.Keyed.{All-update}
use satunera.Store.Invariants.Rows.{
  HasDistinctIds, Effect-HasDistinctIds, row_id, set_status_miss, set_verdict_miss,
}
use satunera.Contracts.Verdict
use satunera.Store.Status
use satunera.Store.Status.{SubmissionStatus, queued, done, can_transition_to}
use satunera.Store.Codec.{Codec}
use satunera.Store.Tables.{SubmissionRecord, Db, migrated}
use satunera.Store.Tables.Statements.{set_status, set_verdict, select_submission}
use satunera.Store.Spec.Effect.{Effect, unchanged, created, advanced, finished, IsFresh, MayMove}
use satunera.Store.Spec.Operations.{Op, run, run_induction}

-- The columns of a row agree: it is in one of the six states, it has a verdict and a time of finishing
-- only when it is done, the one exactly when the other, and a time of starting once it has left the queue.
pub record IsConsistent (s : SubmissionRecord) : Type 0 where
  pub status : SubmissionStatus
  pub parsed : Status.parse s.status ≡ some status
  pub open_without_verdict : status ≢ done → s.verdict ≡ none
  pub finished_with_verdict : is_some s.finished_at ≡ is_some s.verdict
  pub queued_not_started : status ≡ queued → s.started_at ≡ none
  pub started : status ≢ queued → is_some s.started_at ≡ true

IsFresh-IsConsistent : (row : SubmissionRecord) → IsFresh row → IsConsistent row
unfolding Status.parse Status.as_str text_eq
IsFresh-IsConsistent row f = record {
  status = queued;
  parsed = rw f.status refl;
  open_without_verdict = λ _. f.verdict;
  finished_with_verdict = rw (f.finished_at, f.verdict) refl;
  queued_not_started = λ _. f.started_at;
  started = λ h. absurd (h refl);
}

pub moved_from-ne-done :
    (current next : SubmissionStatus) → can_transition_to current next ≡ true → current ≢ done
unfolding can_transition_to
moved_from-ne-done done next h e = cc
moved_from-ne-done _ next h e = cc

moved_to-ne-queued :
    (current next : SubmissionStatus) → can_transition_to current next ≡ true → next ≢ queued
unfolding can_transition_to
moved_to-ne-queued done queued h e = cc
moved_to-ne-queued current queued h e = cc
moved_to-ne-queued current _ h e = cc

moved_to_done-ne-queued :
    (current : SubmissionStatus) → can_transition_to current done ≡ true → current ≢ queued
unfolding can_transition_to
moved_to_done-ne-queued queued h e = cc
moved_to_done-ne-queued _ h e = cc

pub done_parsed : Status.parse (codes "DONE") ≡ some done
unfolding Status.parse Status.as_str text_eq
done_parsed = refl

module _ {id : Text} {row : SubmissionRecord} {db : Db} (r : IsConsistent row) where
  advanced-IsConsistent :
      (next : SubmissionStatus) (stamp : Text)
      → MayMove id row next db
      → IsConsistent (set_status id (Status.as_str next) stamp row)
  unfolding set_status select_submission
  advanced-IsConsistent next stamp m =
      let here : text_eq row.id id ≡ true =
        find?-holds (λ s. text_eq s.id id) db.submissions row m.found in
      let same : r.status ≡ m.current = some-inj (sym r.parsed ∙ m.parsed) in
      let unfinished : r.status ≢ done = rw same (moved_from-ne-done m.current next m.legal) in
      rw here (record {
        status = next;
        parsed = Status.parse-as_str next;
        open_without_verdict = λ _. r.open_without_verdict unfinished;
        finished_with_verdict = r.finished_with_verdict;
        queued_not_started = λ e. absurd (moved_to-ne-queued m.current next m.legal e);
        started = λ _. refl;
      })

  finished-IsConsistent :
      (verdict stamp : Text)
      → MayMove id row done db
      → IsConsistent (set_verdict id verdict stamp row)
  unfolding set_verdict select_submission
  finished-IsConsistent verdict stamp m =
      let here : text_eq row.id id ≡ true =
        find?-holds (λ s. text_eq s.id id) db.submissions row m.found in
      let same : r.status ≡ m.current = some-inj (sym r.parsed ∙ m.parsed) in
      rw here (record {
        status = done;
        parsed = done_parsed;
        open_without_verdict = λ h. absurd (h refl);
        finished_with_verdict = refl;
        queued_not_started = λ e. cc;
        started = λ _. r.started (rw same (moved_to_done-ne-queued m.current m.legal));
      })

-- The ids are distinct, and every submission is consistent.
pub record IsSound (db : Db) : Type 0 where
  pub distinct : HasDistinctIds db
  pub consistent : All IsConsistent db.submissions

Effect-IsConsistent :
    {db after : Db} → IsSound db → Effect db after → All IsConsistent after.submissions
unfolding select_submission
Effect-IsConsistent w (unchanged s p) = rw s w.consistent
Effect-IsConsistent {db} w (created row f h s p) = rw s (
    All-append IsConsistent db.submissions (row ∷ []) w.consistent (IsFresh-IsConsistent row f, tt))
Effect-IsConsistent {db} w (advanced id row next stamp m k s p) =
    let r = find?-All IsConsistent _ db.submissions row w.consistent m.found in
    rw s (
      All-update row_id (set_status id (Status.as_str next) stamp) id
        (set_status_miss id (Status.as_str next) stamp) IsConsistent db.submissions row w.distinct
        m.found w.consistent (advanced-IsConsistent r next stamp m))
Effect-IsConsistent {db} w (finished id row v stamp m s p) =
    let r = find?-All IsConsistent _ db.submissions row w.consistent m.found in
    rw s (
      All-update row_id (set_verdict id (Verdict.as_str v) stamp) id
        (set_verdict_miss id (Verdict.as_str v) stamp) IsConsistent db.submissions row w.distinct
        m.found w.consistent (finished-IsConsistent r (Verdict.as_str v) stamp m))

pub Effect-IsSound : (db after : Db) → IsSound db → Effect db after → IsSound after
Effect-IsSound db after w e = record {
  distinct = Effect-HasDistinctIds w.distinct e;
  consistent = Effect-IsConsistent w e;
}

pub migrated-IsSound : IsSound migrated
migrated-IsSound = record { distinct = tt; consistent = tt }

module _ {Ulid Time : Type 0} (c : Codec Ulid Time) where
  -- After any history of calls from the migrated database, whether they returned or failed, no two
  -- submissions share an id, and every submission is in one of the six states, has a verdict only when
  -- it is done, a time of finishing exactly when it has a verdict, and a time of starting exactly when
  -- it has left the queue.
  pub run-IsSound : (ops : List (Op Ulid Time)) → IsSound (run c ops migrated)
  run-IsSound ops = run_induction c IsSound Effect-IsSound ops migrated migrated-IsSound
