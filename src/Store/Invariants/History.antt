-- ===== src/Store/Invariants/History.antt =====
-- What becomes of one submission through the calls of crates/satunera-store/src/sqlite.rs.
use satunera.Prelude.{
  true, ◌≡◌, ◌≢◌, refl, sym, ap, ◌∙◌, inl, inr, List, [], ◌∷◌, some, Text, text_eq, text_eq_iff,
  find?-holds, Bool-cases, some-inj,
}
use satunera.Prelude.Keyed.{find?-map_of_some, find?-append_of_some}
use satunera.Contracts.Verdict
use satunera.Store.Status
use satunera.Store.Status.{SubmissionStatus, done}
use satunera.Store.Codec.{Codec}
use satunera.Store.Tables.{SubmissionRecord, Db}
use satunera.Store.Tables.Statements.{set_status, set_verdict, select_submission}
use satunera.Store.Spec.Effect.{Effect, unchanged, created, advanced, finished, MayMove}
use satunera.Store.Spec.Operations.{Op, run, step, step-Effect}
use satunera.Store.Invariants.Rows.{
  id-set_status, set_status_miss, id-set_verdict, set_verdict_miss,
}
use satunera.Store.Invariants.Lifecycle.{moved_from-ne-done}

-- A row and what it is later: what the learner submitted is as it was, a time of starting stays, and a
-- row that is done is never written again.
pub record Later (row row' : SubmissionRecord) : Type 0 where
  pub id : row'.id ≡ row.id
  pub user_id : row'.user_id ≡ row.user_id
  pub problem_id : row'.problem_id ≡ row.problem_id
  pub language : row'.language ≡ row.language
  pub source_hash : row'.source_hash ≡ row.source_hash
  pub source_uri : row'.source_uri ≡ row.source_uri
  pub created_at : row'.created_at ≡ row.created_at
  pub started_at : (t : Text) → row.started_at ≡ some t → row'.started_at ≡ some t
  pub final : Status.parse row.status ≡ some done → row' ≡ row

Later-refl : (row : SubmissionRecord) → Later row row
Later-refl row = record {
  id = refl;
  user_id = refl;
  problem_id = refl;
  language = refl;
  source_hash = refl;
  source_uri = refl;
  created_at = refl;
  started_at = λ t h. h;
  final = λ _. refl;
}

Later-trans : {a b c : SubmissionRecord} → Later a b → Later b c → Later a c
Later-trans f g = record {
  id = g.id ∙ f.id;
  user_id = g.user_id ∙ f.user_id;
  problem_id = g.problem_id ∙ f.problem_id;
  language = g.language ∙ f.language;
  source_hash = g.source_hash ∙ f.source_hash;
  source_uri = g.source_uri ∙ f.source_uri;
  created_at = g.created_at ∙ f.created_at;
  started_at = λ t h. g.started_at t (f.started_at t h);
  final = λ d. g.final (ap (λ r. Status.parse r.status) (f.final d) ∙ d) ∙ f.final d;
}

module _ {db : Db} {id : Text} {row : SubmissionRecord} (next : SubmissionStatus)
    (m : MayMove id row next db) where
  unfinished : Status.parse row.status ≢ some done
  unfinished d = moved_from-ne-done m.current next m.legal (some-inj (sym m.parsed ∙ d))

  Later-set_status :
      (status stamp : Text)
      → ((earlier : Text) → row.started_at ≡ some earlier → stamp ≡ earlier)
      → Later row (set_status id status stamp row)
  unfolding set_status select_submission
  Later-set_status status stamp keeps =
      rw (find?-holds (λ s. text_eq s.id id) db.submissions row m.found) (record {
        id = refl;
        user_id = refl;
        problem_id = refl;
        language = refl;
        source_hash = refl;
        source_uri = refl;
        created_at = refl;
        started_at = λ t h. ap some (keeps t h);
        final = λ d. absurd (unfinished d);
      })

  Later-set_verdict : (verdict stamp : Text) → Later row (set_verdict id verdict stamp row)
  unfolding set_verdict select_submission
  Later-set_verdict verdict stamp =
      rw (find?-holds (λ s. text_eq s.id id) db.submissions row m.found) (record {
        id = refl;
        user_id = refl;
        problem_id = refl;
        language = refl;
        source_hash = refl;
        source_uri = refl;
        created_at = refl;
        started_at = λ t h. h;
        final = λ d. absurd (unfinished d);
      })

-- Two rows found by ids that are the same are the same row.
same_row :
    (db : Db) (id id' : Text) (row row' : SubmissionRecord)
    → select_submission id db ≡ some row
    → select_submission id' db ≡ some row'
    → text_eq row.id id' ≡ true
    → row' ≡ row
unfolding select_submission
same_row db id id' row row' h h' e =
    let own : row.id ≡ id =
      (text_eq_iff row.id id).0 (find?-holds (λ s. text_eq s.id id) db.submissions row h) in
    let same : id ≡ id' = sym own ∙ (text_eq_iff row.id id').0 e in
    some-inj (sym h' ∙ ap (λ k. select_submission k db) (sym same) ∙ h)

-- The row of an id after an effect.
abbrev Kept : Text → SubmissionRecord → Db → Type 0
Kept id row after =
    (row' : SubmissionRecord) × (select_submission id after ≡ some row') × Later row row'

Effect-Kept :
    {db after : Db} (id : Text) (row : SubmissionRecord)
    → select_submission id db ≡ some row
    → Effect db after
    → Kept id row after
unfolding select_submission
Effect-Kept id row h (unchanged s q) = (row, rw s h, Later-refl row)
Effect-Kept {db} id row h (created new f fresh s q) =
    (row, rw s (find?-append_of_some _ db.submissions (new ∷ []) row h), Later-refl row)
Effect-Kept {db} id row h (advanced id' row' next stamp m k s q) = (
  set_status id' (Status.as_str next) stamp row,
  rw s (
      find?-map_of_some _ (set_status id' (Status.as_str next) stamp)
        (λ x. ap (λ t. text_eq t id) (id-set_status id' (Status.as_str next) stamp x))
        db.submissions row h),
  elim (Bool-cases (text_eq row.id id')) [
    | inl hit ↦
        rw (← same_row db id id' row row' h m.found hit)
          (Later-set_status next m (Status.as_str next) stamp k)
    | inr miss ↦ rw (set_status_miss id' (Status.as_str next) stamp row miss) (Later-refl row)
  ],
)
Effect-Kept {db} id row h (finished id' row' v stamp m s q) = (
  set_verdict id' (Verdict.as_str v) stamp row,
  rw s (
      find?-map_of_some _ (set_verdict id' (Verdict.as_str v) stamp)
        (λ x. ap (λ t. text_eq t id) (id-set_verdict id' (Verdict.as_str v) stamp x)) db.submissions
        row h),
  elim (Bool-cases (text_eq row.id id')) [
    | inl hit ↦
        rw (← same_row db id id' row row' h m.found hit)
          (Later-set_verdict done m (Verdict.as_str v) stamp)
    | inr miss ↦ rw (set_verdict_miss id' (Verdict.as_str v) stamp row miss) (Later-refl row)
  ],
)

module _ {Ulid Time : Type 0} (c : Codec Ulid Time) where
  -- Through any history of calls a submission stays in the table; what was submitted, by whom, for
  -- which problem and when is as it was, a time of starting is never written again, and nothing at all
  -- of the row changes once it is done, its verdict included.
  pub run-Later :
      (ops : List (Op Ulid Time)) (db : Db) (id : Text) (row : SubmissionRecord)
      → select_submission id db ≡ some row
      → (row' : SubmissionRecord) × (select_submission id (run c ops db) ≡ some row')
        × Later row row'
  unfolding run
  run-Later [] db id row h = (row, h, Later-refl row)
  run-Later (op ∷ ops) db id row h =
      let (row', h', later) = Effect-Kept id row h (step-Effect c op db) in
      let (last, g, after) = run-Later ops (step c op db) id row' h' in
      (last, g, Later-trans later after)
