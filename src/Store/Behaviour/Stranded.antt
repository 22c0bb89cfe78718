-- ===== src/Store/Behaviour/Stranded.antt =====
-- What becomes of a submission that `set_submission_status`, not `finish_submission`, of
-- crates/satunera-store/src/sqlite.rs moves to the last state.
use satunera.Prelude.{
  true, false, is_some, ◌≡◌, refl, sym, ap, ◌∙◌, List, map, Option, none, some, Text, codes,
  text_eq, find?-All, find?-holds, some-inj,
}
use satunera.Prelude.Keyed.{find?-map_of_some}
use satunera.Store.Status
use satunera.Store.Status.{SubmissionStatus, done, can_transition_to}
use satunera.Store.Codec.{Codec}
use satunera.Store.Tables.{SubmissionRecord, Db}
use satunera.Store.Tables.Statements.{set_status, select_submission}
use satunera.Store.Sqlite.Submissions
use satunera.Store.Spec.Operations.{Op, run}
use satunera.Store.Invariants.Rows.{id-set_status}
use satunera.Store.Invariants.Lifecycle.{IsConsistent, IsSound, moved_from-ne-done, done_parsed}
use satunera.Store.Invariants.History.{run-Later}
use satunera.Store.Behaviour.Transitions.{set_submission_status_cases, kept_or}

set_here :
    (id status stamp : Text) (row : SubmissionRecord)
    → text_eq row.id id ≡ true
    → set_status id status stamp row ≡ record row { status = status; started_at = some stamp }
unfolding set_status
set_here id status stamp row h = rw h refl

select_submission-IsConsistent :
    (id : Text) (db : Db) (row : SubmissionRecord)
    → IsSound db
    → select_submission id db ≡ some row
    → IsConsistent row
unfolding select_submission
select_submission-IsConsistent id db row sound found =
    find?-All IsConsistent (λ s. text_eq s.id id) db.submissions row sound.consistent found

unfinished_row : (o : Option Text) → is_some o ≡ false → o ≡ none
unfinished_row none h = refl
unfinished_row (some t) h = cc

cleared :
    (row : SubmissionRecord) (status stamp : Text)
    → row.verdict ≡ none
    → row.finished_at ≡ none
    → record row { status = status; started_at = some stamp }
      ≡ record row { status = status; started_at = some stamp; verdict = none; finished_at = none }
cleared row status stamp v f = rw (v, f) refl

-- The row after the status is set.
moved_row :
    (id status stamp : Text) (db : Db) (row : SubmissionRecord)
    → select_submission id db ≡ some row
    → select_submission id
        (record db { submissions = map (set_status id status stamp) db.submissions })
      ≡ some (record row { status = status; started_at = some stamp })
unfolding select_submission
moved_row id status stamp db row found =
    let here : text_eq row.id id ≡ true =
      find?-holds (λ s. text_eq s.id id) db.submissions row found in
    find?-map_of_some (λ s. text_eq s.id id) (set_status id status stamp)
      (λ s. ap (λ t. text_eq t id) (id-set_status id status stamp s)) db.submissions row found
    ∙ ap some (set_here id status stamp row here)

module _ {Ulid Time : Type 0} (c : Codec Ulid Time) where
  -- `set_submission_status` accepts the last state from every state that may become it, and the submission
  -- is then done with no verdict and no time of finishing, after whatever calls follow.
  pub set_submission_status-strands :
      (clock : Time) (at : Text) (id : Ulid) (db : Db) (row : SubmissionRecord)
      (current : SubmissionStatus) (ops : List (Op Ulid Time))
      → c.format clock ≡ some at
      → IsSound db
      → select_submission (c.ulid_text id) db ≡ some row
      → Status.parse row.status ≡ some current
      → can_transition_to current done ≡ true
      → select_submission
          (c.ulid_text id)
          (run c ops (Submissions.set_submission_status c clock id done db).1)
        ≡ some (record row {
          status = codes "DONE";
          started_at = some (kept_or row.started_at at);
          verdict = none;
          finished_at = none;
        })
  unfolding Status.as_str
  set_submission_status-strands clock at id db row current ops format sound found parsed legal =
      let moved =
        set_submission_status_cases c clock at id done db row current format found parsed in
      let r : IsConsistent row =
        select_submission-IsConsistent (c.ulid_text id) db row sound found in
      let same : r.status ≡ current = some-inj (sym r.parsed ∙ parsed) in
      let unjudged : row.verdict ≡ none =
        r.open_without_verdict (rw same (moved_from-ne-done current done legal)) in
      let unfinished : row.finished_at ≡ none =
        unfinished_row row.finished_at (r.finished_with_verdict ∙ ap is_some unjudged) in
      let there =
        moved_row (c.ulid_text id) (codes "DONE") (kept_or row.started_at at) db row found in
      let (last, g, later) = run-Later c ops _ (c.ulid_text id) _ there in
      rw (moved, legal)
        (g
          ∙ ap some (
              later.final done_parsed
              ∙ cleared row (codes "DONE") (kept_or row.started_at at) unjudged unfinished))
