-- ===== src/Store/Invariants/Tally.antt =====
-- The progress of a learner is a tally of the submissions: `finish_submission` and `progress` of
-- crates/satunera-store/src/sqlite.rs.
use satunera.Prelude.{
  Bool, true, false, ◌&&◌, ◌||◌, ◌≡◌, refl, sym, ap, ◌∙◌, inl, inr, List, [], ◌∷◌, ◌++◌, map,
  Option, none, some, Text, text_eq, text_eq_iff, text_eq_refl, arith, any, find?, find?-holds,
  or_option, Option-cases, Bool-cases,
}
use satunera.Prelude.Int.{ℤ, pos, add_one}
use satunera.Prelude.Keyed.{
  find?-map_of_none, find?-map_of_some, find?-append_of_none, find?-append_of_some, any_of_find?,
  any-false_of_find?,
}
use satunera.Contracts.Verdict.{Verdict, is_accepted, counts_against_user}
use satunera.Store.Tables.{ProgressRecord, is_progress}
use satunera.Store.Tables.Statements.{count_attempt}
use satunera.Store.Spec.Effect.{solved_stamp, next_progress}

abbrev pub attempts_of : Option ProgressRecord → ℤ
attempts_of none = pos 0
attempts_of (some r) = r.attempts

abbrev pub solved_of : Option ProgressRecord → Option Text
solved_of none = none
solved_of (some r) = r.solved_at

-- What `user_progress` says of a user and a problem: no row is no attempt.
abbrev pub attempts_in : Text → Text → List ProgressRecord → ℤ
attempts_in user problem rows = attempts_of (find? (is_progress user problem) rows)

abbrev pub solved_in : Text → Text → List ProgressRecord → Option Text
solved_in user problem rows = solved_of (find? (is_progress user problem) rows)

pub is_progress-count_attempt :
    (u p ru rp : Text) (s : Option Text) (r : ProgressRecord)
    → is_progress u p (count_attempt ru rp s r) ≡ is_progress u p r
unfolding is_progress count_attempt
is_progress-count_attempt u p ru rp s r = ground arith

find?-own :
    (row : ProgressRecord) → find? (is_progress row.user_id row.problem_id) (row ∷ []) ≡ some row
unfolding find? is_progress
find?-own row = rw (text_eq_refl row.user_id, text_eq_refl row.problem_id)

-- The row of the user and the problem, before and after.
module _ (u p : Text) (v : Verdict) (stamp : Text) (rows : List ProgressRecord)
    (counts : (counts_against_user v || is_accepted v) ≡ true) where
  pub first_progress :
      find? (is_progress u p) rows ≡ none
      → (attempts_in u p (next_progress u p v stamp rows) ≡ pos 1)
        × (solved_in u p (next_progress u p v stamp rows) ≡ solved_stamp v stamp)
  first_progress absent =
      let fresh : any (is_progress u p) rows ≡ false =
        any-false_of_find? (is_progress u p) rows absent in
      let still : find? (is_progress u p) (map (count_attempt u p (solved_stamp v stamp)) rows)
          ≡ none =
        find?-map_of_none (is_progress u p) _
          (is_progress-count_attempt u p u p (solved_stamp v stamp)) rows absent in
      rw (counts, fresh, find?-append_of_none (is_progress u p) _ _ still, find?-own) (refl, refl)

  pub later_progress :
      (r : ProgressRecord)
      → find? (is_progress u p) rows ≡ some r
      → (attempts_in u p (next_progress u p v stamp rows) ≡ add_one r.attempts)
        × (solved_in u p (next_progress u p v stamp rows)
            ≡ or_option r.solved_at (solved_stamp v stamp))
  unfolding count_attempt
  later_progress r found =
      let known : any (is_progress u p) rows ≡ true = any_of_find? (is_progress u p) rows r found in
      let mine : is_progress u p r ≡ true = find?-holds (is_progress u p) rows r found in
      let moved : find? (is_progress u p) (map (count_attempt u p (solved_stamp v stamp)) rows)
          ≡ some (count_attempt u p (solved_stamp v stamp) r) =
        find?-map_of_some (is_progress u p) _
          (is_progress-count_attempt u p u p (solved_stamp v stamp)) rows r found in
      rw (counts, known, moved, mine) (refl, refl)

abbrev pub same_pair : (u p ru rp : Text) → Bool
same_pair u p ru rp = text_eq ru u && text_eq rp p

-- The row of another user or problem.
module _ (u p ru rp : Text) (v : Verdict) (stamp : Text) (rows : List ProgressRecord)
    (other : same_pair u p ru rp ≡ false) where
  count_attempt_other :
      (s : Option Text) (r : ProgressRecord)
      → is_progress u p r ≡ true
      → count_attempt ru rp s r ≡ r
  unfolding is_progress count_attempt
  count_attempt_other s r h = ground (
    arith,
    text_eq_iff r.user_id u,
    text_eq_iff r.problem_id p,
    text_eq_iff r.user_id ru,
    text_eq_iff r.problem_id rp,
    text_eq_iff ru u,
    text_eq_iff rp p,
  )

  find?-other :
      (r : ProgressRecord)
      → r.user_id ≡ ru
      → r.problem_id ≡ rp
      → find? (is_progress u p) (r ∷ []) ≡ none
  unfolding find? is_progress
  find?-other r e f = rw (e, f, other)

  find?-counted :
      (s : Option Text)
      → find? (is_progress u p) (map (count_attempt ru rp s) rows) ≡ find? (is_progress u p) rows
  find?-counted s = elim (Option-cases (find? (is_progress u p) rows)) [
    | inl absent ↦
        find?-map_of_none (is_progress u p) _ (is_progress-count_attempt u p ru rp s) rows absent
        ∙ sym absent
    | inr (r, found) ↦
        find?-map_of_some (is_progress u p) _ (is_progress-count_attempt u p ru rp s) rows r found
        ∙ ap some (count_attempt_other s r (find?-holds (is_progress u p) rows r found))
        ∙ sym found
  ]

  find?-appended :
      (xs : List ProgressRecord) (r : ProgressRecord)
      → r.user_id ≡ ru
      → r.problem_id ≡ rp
      → find? (is_progress u p) (xs ++ r ∷ []) ≡ find? (is_progress u p) xs
  find?-appended xs r e f = elim (Option-cases (find? (is_progress u p) xs)) [
    | inl absent ↦
        find?-append_of_none (is_progress u p) xs (r ∷ []) absent ∙ find?-other r e f ∙ sym absent
    | inr (x, found) ↦ find?-append_of_some (is_progress u p) xs (r ∷ []) x found ∙ sym found
  ]

  pub other_progress :
      find? (is_progress u p) (next_progress ru rp v stamp rows) ≡ find? (is_progress u p) rows
  other_progress = elim (Bool-cases (counts_against_user v || is_accepted v)) [
    | inl counts ↦ elim (Bool-cases (any (is_progress ru rp) rows)) [
      | inl known ↦ rw (counts, known) (find?-counted _)
      | inr fresh ↦ rw (counts, fresh) (find?-appended _ _ refl refl ∙ find?-counted _)
    ]
    | inr free ↦ rw free refl
  ]
