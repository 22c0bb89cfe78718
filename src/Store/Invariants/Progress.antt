-- ===== src/Store/Invariants/Progress.antt =====
-- `user_progress` against the submissions: what the bookkeeping of `finish_submission`, in
-- crates/satunera-store/src/sqlite.rs, adds up to.
use satunera.Prelude.{
  Bool, true, false, ◌&&◌, ◌||◌, ◌≡◌, refl, sym, ◌∙◌, inl, inr, List, Option, none, some, Text,
  text_eq_iff, text_eq_refl, arith, any, count, find?, is_some, or_option, if◌then◌else◌,
  Option-cases, Bool-cases, and-true,
}
use satunera.Prelude.Int.{pos, add_one}
use satunera.Contracts.Verdict
use satunera.Contracts.Verdict.{Verdict, ac, is_accepted, counts_against_user}
use satunera.Store.Tables.{SubmissionRecord, ProgressRecord, Db, is_progress}
use satunera.Store.Spec.Effect.{solved_stamp, next_progress}
use satunera.Store.Invariants.Tally.{
  attempts_in, solved_in, same_pair, first_progress, later_progress, other_progress,
}

-- A verdict that is an attempt of the learner's; no verdict is none.
abbrev pub is_attempt : Option Verdict → Bool
is_attempt none = false
is_attempt (some v) = counts_against_user v

abbrev pub is_solution : Option Verdict → Bool
is_solution none = false
is_solution (some v) = is_accepted v

abbrev pub verdict_of : Option Text → Option Verdict
verdict_of none = none
verdict_of (some t) = Verdict.parse t

-- A submission of the user for the problem that has been judged, and counts.
abbrev pub counted : Text → Text → SubmissionRecord → Bool
counted u p s = same_pair u p s.user_id s.problem_id && is_attempt (verdict_of s.verdict)

-- A submission of the user for the problem that has been accepted.
abbrev pub solves : Text → Text → SubmissionRecord → Bool
solves u p s = same_pair u p s.user_id s.problem_id && is_solution (verdict_of s.verdict)

-- The number of attempts is the number of judged submissions whose verdict counts, and the problem is
-- marked as solved exactly when one of them was accepted.
pub record IsTallied (u p : Text) (db : Db) : Type 0 where
  pub attempts : attempts_in u p db.user_progress ≡ pos (count (counted u p) db.submissions)
  pub solved : is_some (solved_in u p db.user_progress) ≡ any (solves u p) db.submissions

accepted_counts : (v : Verdict) → (counts_against_user v || is_accepted v) ≡ counts_against_user v
unfolding counts_against_user is_accepted
accepted_counts ac = refl
accepted_counts _ = refl

is_some-or :
    (o : Option Text) (v : Verdict) (stamp : Text)
    → is_some (or_option o (solved_stamp v stamp)) ≡ (is_some o || is_accepted v)
is_some-or o v stamp = ground arith

-- `next_progress` at a pair, for the pair of the verdict and for any other.
abbrev pub NextIs : (u p ru rp : Text) → Verdict → Text → List ProgressRecord → Type 0
NextIs u p ru rp v stamp rows =
    (attempts_in u p (next_progress ru rp v stamp rows) ≡ (
      if same_pair u p ru rp && counts_against_user v
      then add_one (attempts_in u p rows)
      else attempts_in u p rows))
    × (is_some (solved_in u p (next_progress ru rp v stamp rows))
        ≡ (is_some (solved_in u p rows) || (same_pair u p ru rp && is_accepted v)))

module _ (u p : Text) (v : Verdict) (stamp : Text) (rows : List ProgressRecord) where
  next_free : (counts_against_user v || is_accepted v) ≡ false → NextIs u p u p v stamp rows
  next_free free = rw free (ground arith)

  next_counted : (counts_against_user v || is_accepted v) ≡ true → NextIs u p u p v stamp rows
  next_counted counts = elim (Option-cases (find? (is_progress u p) rows)) [
    | inl absent ↦
        let (a, s) = first_progress u p v stamp rows counts absent in
        rw (a, s, absent, text_eq_refl u, text_eq_refl p, sym (accepted_counts v) ∙ counts)
          (refl, is_some-or none v stamp)
    | inr (r, found) ↦
        let (a, s) = later_progress u p v stamp rows counts r found in
        rw (a, s, found, text_eq_refl u, text_eq_refl p, sym (accepted_counts v) ∙ counts)
          (refl, is_some-or r.solved_at v stamp)
  ]

  next_self : NextIs u p u p v stamp rows
  next_self = elim (Bool-cases (counts_against_user v || is_accepted v)) [
    | inl counts ↦ next_counted counts
    | inr free ↦ next_free free
  ]

  pub next_is : (ru rp : Text) → NextIs u p ru rp v stamp rows
  next_is ru rp = elim (Bool-cases (same_pair u p ru rp)) [
    | inl same ↦
        let (e, f) = and-true _ _ same in
        rw ((text_eq_iff ru u).0 e, (text_eq_iff rp p).0 f) next_self
    | inr other ↦ rw (other_progress u p ru rp v stamp rows other, other) (refl, ground arith)
  ]
