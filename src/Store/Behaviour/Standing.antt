-- ===== src/Store/Behaviour/Standing.antt =====
-- What `progress` of crates/satunera-store/src/sqlite.rs tells a learner.
use satunera.Prelude.{
  ℕ, suc, ◌+◌, ◌≤◌, ◌<◌, Bool, false, ◌≡◌, refl, sym, ap, ◌∙◌, List, [], ◌∷◌, map, Option, none,
  some, Text, codes, count, any, find?, find?-All, length, length-append, is_some, All, arith,
}
use satunera.Prelude.Int.{pos, to_u32, to_u32-pos, two_pow_32}
use satunera.Store.Codec.{Codec}
use satunera.Store.Error.{ok}
use satunera.Store.Model.{UserProgress}
use satunera.Store.Tables.{ProgressRecord, Db, migrated, is_progress}
use satunera.Store.Sqlite.Actions.{parse_opt_ts, parse_ts}
use satunera.Store.Sqlite.Submissions.{progress, decode_progress}
use satunera.Store.Spec.Effect.{Effect, unchanged, created, advanced, finished}
use satunera.Store.Spec.Operations.{Op, step, run, step-Effect}
use satunera.Store.Spec.Keeping.{HasFit}
use satunera.Store.Invariants.Tally.{attempts_of, solved_of}
use satunera.Store.Invariants.Progress.{IsTallied, counted, solves}
use satunera.Store.Invariants.Totals.{run-IsTallied}
use satunera.Store.Invariants.Decodable.{Has, Each, InRange, ProgressReads}
use satunera.Store.Invariants.Decodable.Writes.{run-IsDecodable}

length-map : {A B : Type 0} (f : A → B) (xs : List A) → length (map f xs) ≡ length xs
length-map f [] = refl
length-map f (x ∷ xs) = ap suc (length-map f xs)

count-le-length : {A : Type 0} (p : A → Bool) (xs : List A) → count p xs ≤ length xs
unfolding count
count-le-length p [] = omega arith
count-le-length p (x ∷ xs) = ground (arith, count-le-length p xs)

pos_inj : {m n : ℕ} → pos m ≡ pos n → m ≡ n
pos_inj h = cc

length-Effect :
    (db after : Db) → Effect db after → length after.submissions ≤ suc (length db.submissions)
length-Effect db after (unchanged s p) = rw s (omega arith)
length-Effect db after (created row fresh new s p) =
    rw (s, length-append db.submissions (row ∷ [])) (omega arith)
length-Effect db after (advanced id row next stamp move at s p) =
    rw (s, length-map _ db.submissions) (omega arith)
length-Effect db after (finished id row v stamp move s p) =
    rw (s, length-map _ db.submissions) (omega arith)

-- What is told: no row is no attempt, and nothing solved.
abbrev pub attempts_told : {Ulid Time : Type 0} → Option (UserProgress Ulid Time) → ℕ
attempts_told none = 0
attempts_told (some p) = p.attempts

abbrev pub solved_told : {Ulid Time : Type 0} → Option (UserProgress Ulid Time) → Bool
solved_told none = false
solved_told (some p) = is_some p.solved_at

module _ {Ulid Time : Type 0} (c : Codec Ulid Time) where
  length-run :
      (ops : List (Op Ulid Time)) (db : Db)
      → length (run c ops db).submissions ≤ length ops + length db.submissions
  unfolding run
  length-run [] db = omega arith
  length-run (op ∷ ops) db =
      omega (
        arith,
        length-run ops (step c op db),
        length-Effect db (step c op db) (step-Effect c op db),
      )

  parsed_alike :
      (entity : Text) (o : Option Text)
      → Each (λ at. Has (c.parse_time at)) o
      → (t : Option Time) × (parse_opt_ts {Ulid = Ulid} c entity o ≡ ok t) × (is_some t ≡ is_some o)
  unfolding parse_opt_ts parse_ts
  parsed_alike entity none h = (none, refl, refl)
  parsed_alike entity (some at) (t, e) = (some t, rw e refl, refl)

  -- What `progress` makes of the row that it finds.
  pub Tells : (user : Ulid) (problem : Text) (db : Db) → Type 0
  Tells user problem db =
      (p : Option (UserProgress Ulid Time)) × ((progress c user problem db).0 ≡ ok p)
      × (attempts_told p ≡ count (counted (c.ulid_text user) problem) db.submissions)
      × (solved_told p ≡ any (solves (c.ulid_text user) problem) db.submissions)

  tells :
      (user : Ulid) (problem : Text) (db : Db)
      → IsTallied (c.ulid_text user) problem db
      → All (ProgressReads c) db.user_progress
      → length db.submissions < two_pow_32
      → (o : Option ProgressRecord)
      → find? (is_progress (c.ulid_text user) problem) db.user_progress ≡ o
      → Tells user problem db
  unfolding Tells progress decode_progress
  tells user problem db t d bound none e =
      (none, rw e refl, pos_inj (sym (rw (e) refl) ∙ t.attempts), sym (rw (e) refl) ∙ t.solved)
  tells user problem db t d bound (some row) e =
      let n = count (counted (c.ulid_text user) problem) db.submissions in
      let told : row.attempts ≡ pos n = sym (ap attempts_of e) ∙ t.attempts in
      let small : n < two_pow_32 =
        omega (arith, bound, count-le-length (counted (c.ulid_text user) problem) db.submissions) in
      let fits : to_u32 row.attempts ≡ some n = ap to_u32 told ∙ to_u32-pos n small in
      let reads = find?-All (ProgressReads c) _ db.user_progress row d e in
      let (time, parsed, alike) = parsed_alike (codes "user_progress") row.solved_at reads in
      (
        some (record { user_id = user; problem_id = problem; solved_at = time; attempts = n }),
        rw (e, parsed, fits) refl,
        refl,
        alike ∙ sym (ap (λ o. is_some (solved_of o)) e) ∙ t.solved,
      )

  -- After any history of fewer than 2^32 calls, whose recorded runs have numbers in the range of their
  -- types, `progress` returns for every user and problem. What it returns has as many attempts as there
  -- are judged submissions whose verdict counts, and is solved exactly when one of them was accepted;
  -- where it returns no row, there are none.
  pub run-Tells :
      (ops : List (Op Ulid Time)) (user : Ulid) (problem : Text)
      → length ops < two_pow_32
      → All (HasFit InRange) ops
      → Tells user problem (run c ops migrated)
  run-Tells ops user problem few fits =
      let bound : length (run c ops migrated).submissions < two_pow_32 =
        omega (arith, few, length-run ops migrated) in
      tells user problem (run c ops migrated) (run-IsTallied c ops (c.ulid_text user) problem)
        (run-IsDecodable c ops fits).progress bound _ refl
