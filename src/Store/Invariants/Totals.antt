-- ===== src/Store/Invariants/Totals.antt =====
-- The progress of every learner stays the tally of the submissions, through every effect.
use satunera.Prelude.{
  ℕ, ◌+◌, Bool, true, false, ◌&&◌, ◌≡◌, refl, sym, ap, ◌∙◌, List, [], ◌∷◌, ◌++◌, map, none, Text,
  text_eq, arith, any, count, find?, find?-holds, if◌then◌else◌, find?-All, some-inj,
}
use satunera.Prelude.Int.{ℤ, pos, add_one}
use satunera.Prelude.Keyed.{any-append, count-append, any-map, count-map, count-update, any-update}
use satunera.Contracts.Verdict
use satunera.Contracts.Verdict.{Verdict, is_accepted, counts_against_user}
use satunera.Store.Status
use satunera.Store.Status.{SubmissionStatus, done}
use satunera.Store.Codec.{Codec}
use satunera.Store.Tables.{SubmissionRecord, Db, migrated}
use satunera.Store.Tables.Statements.{set_status, set_verdict, select_submission}
use satunera.Store.Spec.Effect.{
  Effect, unchanged, created, advanced, finished, IsFresh, MayMove, next_progress,
}
use satunera.Store.Spec.Operations.{Op, run, run_induction}
use satunera.Store.Invariants.Rows.{row_id, set_verdict_miss}
use satunera.Store.Invariants.Lifecycle.{
  IsConsistent, IsSound, Effect-IsSound, migrated-IsSound, moved_from-ne-done,
}
use satunera.Store.Invariants.Tally.{same_pair}
use satunera.Store.Invariants.Progress.{counted, solves, IsTallied, next_is}

module _ (u p : Text) where
  counted-set_status :
      (id status stamp : Text) (s : SubmissionRecord)
      → counted u p (set_status id status stamp s) ≡ counted u p s
  unfolding set_status
  counted-set_status id status stamp s = ground arith

  solves-set_status :
      (id status stamp : Text) (s : SubmissionRecord)
      → solves u p (set_status id status stamp s) ≡ solves u p s
  unfolding set_status
  solves-set_status id status stamp s = ground arith

  -- A row without a verdict is no attempt.
  uncounted :
      (s : SubmissionRecord) → s.verdict ≡ none → (counted u p s ≡ false) × (solves u p s ≡ false)
  uncounted s h = rw h (ground arith)

  -- The row with its verdict.
  judged :
      (row : SubmissionRecord) (v : Verdict) (id stamp : Text)
      → text_eq row.id id ≡ true
      → (counted u p (set_verdict id (Verdict.as_str v) stamp row)
          ≡ (same_pair u p row.user_id row.problem_id && counts_against_user v))
        × (solves u p (set_verdict id (Verdict.as_str v) stamp row)
            ≡ (same_pair u p row.user_id row.problem_id && is_accepted v))
  unfolding set_verdict
  judged row v id stamp here = rw (here, Verdict.parse-as_str v) (refl, refl)

pos-step :
    (n m : ℕ) (b : Bool) (z : ℤ)
    → z ≡ pos n
    → m + 0 ≡ n + (if b then 1 else 0)
    → (if b then add_one z else z) ≡ pos m
pos-step n m true z e h = rw e (ap pos (omega arith))
pos-step n m false z e h = rw e (ap pos (omega arith))

module _ {u p : Text} {db after : Db} (w : IsSound db) (t : IsTallied u p db) where
  finished-IsTallied :
      (id : Text) (row : SubmissionRecord) (v : Verdict) (stamp : Text)
      → MayMove id row done db
      → after.submissions ≡ map (set_verdict id (Verdict.as_str v) stamp) db.submissions
      → after.user_progress ≡ next_progress row.user_id row.problem_id v stamp db.user_progress
      → IsTallied u p after
  unfolding select_submission
  finished-IsTallied id row v stamp m s q =
      let r = find?-All IsConsistent _ db.submissions row w.consistent m.found in
      let same : r.status ≡ m.current = some-inj (sym r.parsed ∙ m.parsed) in
      let undecided =
        r.open_without_verdict (rw same (moved_from-ne-done m.current done m.legal)) in
      let (no_attempt, no_solution) = uncounted u p row undecided in
      let (attempt, solution) =
        judged u p row v id stamp (find?-holds (λ x. text_eq x.id id) db.submissions row m.found) in
      let (next_attempts, next_solved) =
        next_is u p v stamp db.user_progress row.user_id row.problem_id in
      let more =
        count-update row_id (set_verdict id (Verdict.as_str v) stamp) id
          (set_verdict_miss id (Verdict.as_str v) stamp) (counted u p) db.submissions row w.distinct
          m.found in
      let seen =
        any-update row_id (set_verdict id (Verdict.as_str v) stamp) id
          (set_verdict_miss id (Verdict.as_str v) stamp) (solves u p) db.submissions row w.distinct
          m.found no_solution in
      record {
        attempts =
            rw (s, q, next_attempts)
              (pos-step _ _ _ _ t.attempts (rw (no_attempt, attempt) at more));
        solved = rw (s, q, next_solved, seen, solution, t.solved) refl;
      }

  created-IsTallied :
      (row : SubmissionRecord)
      → IsFresh row
      → after.submissions ≡ db.submissions ++ row ∷ []
      → after.user_progress ≡ db.user_progress
      → IsTallied u p after
  unfolding count any
  created-IsTallied row f s q =
      let (no_attempt, no_solution) = uncounted u p row f.verdict in
      record {
        attempts =
            rw (s, q, count-append (counted u p) db.submissions (row ∷ []), no_attempt)
              (t.attempts ∙ ap pos (omega arith));
        solved =
            rw (s, q, any-append (solves u p) db.submissions (row ∷ []), no_solution, t.solved)
              (ground arith);
      }

  advanced-IsTallied :
      (id status stamp : Text)
      → after.submissions ≡ map (set_status id status stamp) db.submissions
      → after.user_progress ≡ db.user_progress
      → IsTallied u p after
  advanced-IsTallied id status stamp s q = record {
    attempts =
        rw
          (
            s,
            q,
            count-map (counted u p) (set_status id status stamp)
                (counted-set_status u p id status stamp) db.submissions,
          )
          t.attempts;
    solved =
        rw
          (
            s,
            q,
            any-map (solves u p) (set_status id status stamp)
                (solves-set_status u p id status stamp) db.submissions,
          )
          t.solved;
  }

  Effect-IsTallied : Effect db after → IsTallied u p after
  Effect-IsTallied (unchanged s q) = record {
    attempts = rw (s, q) t.attempts;
    solved = rw (s, q) t.solved;
  }
  Effect-IsTallied (created row f h s q) = created-IsTallied row f s q
  Effect-IsTallied (advanced id row next stamp m k s q) =
      advanced-IsTallied id (Status.as_str next) stamp s q
  Effect-IsTallied (finished id row v stamp m s q) = finished-IsTallied id row v stamp m s q

-- Both invariants at once.
record IsKept (u p : Text) (db : Db) : Type 0 where
  sound : IsSound db
  tallied : IsTallied u p db

Effect-IsKept : (u p : Text) (db after : Db) → IsKept u p db → Effect db after → IsKept u p after
Effect-IsKept u p db after k e = record {
  sound = Effect-IsSound db after k.sound e;
  tallied = Effect-IsTallied k.sound k.tallied e;
}

migrated-IsTallied : (u p : Text) → IsTallied u p migrated
unfolding find? any count
migrated-IsTallied u p = record { attempts = refl; solved = refl }

module _ {Ulid Time : Type 0} (c : Codec Ulid Time) where
  -- After any history of calls from the migrated database, whether they returned or failed, the
  -- attempts stored for a user and a problem are the number of that user's submissions for it with a
  -- verdict that counts, and a time of solving is stored exactly when one of them is accepted.
  pub run-IsTallied : (ops : List (Op Ulid Time)) (u p : Text) → IsTallied u p (run c ops migrated)
  run-IsTallied ops u p =
      (run_induction c (IsKept u p) (Effect-IsKept u p) ops migrated
        (record { sound = migrated-IsSound; tallied = migrated-IsTallied u p })).tallied
