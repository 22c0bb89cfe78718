-- ===== src/Store/Invariants/Rows.antt =====
-- The updates of crates/satunera-store/src/sqlite.rs keep the keys of the rows, and the ids of the
-- submissions stay distinct.
use satunera.Prelude.{false, ◌≡◌, Text, text_eq, arith}
use satunera.Prelude.Keyed.{Distinct, Distinct-append, Distinct-map}
use satunera.Store.Tables.{SubmissionRecord, Db, has_submission}
use satunera.Store.Tables.Statements.{set_status, set_verdict}
use satunera.Store.Spec.Effect.{Effect, unchanged, created, advanced, finished}

abbrev pub row_id : SubmissionRecord → Text
row_id s = s.id

module _ (id status stamp : Text) where
  pub id-set_status : (s : SubmissionRecord) → (set_status id status stamp s).id ≡ s.id
  unfolding set_status
  id-set_status s = ground arith

  pub set_status_miss :
      (s : SubmissionRecord) → text_eq s.id id ≡ false → set_status id status stamp s ≡ s
  unfolding set_status
  set_status_miss s h = ground arith

module _ (id verdict stamp : Text) where
  pub id-set_verdict : (s : SubmissionRecord) → (set_verdict id verdict stamp s).id ≡ s.id
  unfolding set_verdict
  id-set_verdict s = ground arith

  pub set_verdict_miss :
      (s : SubmissionRecord) → text_eq s.id id ≡ false → set_verdict id verdict stamp s ≡ s
  unfolding set_verdict
  set_verdict_miss s h = ground arith

abbrev pub HasDistinctIds : Db → Type 0
HasDistinctIds db = Distinct row_id db.submissions

pub Effect-HasDistinctIds :
    {db after : Db} → HasDistinctIds db → Effect db after → HasDistinctIds after
unfolding has_submission
Effect-HasDistinctIds d (unchanged s p) = rw s d
Effect-HasDistinctIds {db} d (created row f h s p) =
    rw s (Distinct-append row_id db.submissions row h d)
Effect-HasDistinctIds {db} d (advanced id row next stamp m k s p) =
    rw s (Distinct-map row_id (set_status id _ stamp) (id-set_status id _ stamp) db.submissions d)
Effect-HasDistinctIds {db} d (finished id row v stamp m s p) =
    rw s (Distinct-map row_id (set_verdict id _ stamp) (id-set_verdict id _ stamp) db.submissions d)
