-- ===== src/Store/Behaviour/Attempts.antt =====
-- `runs_for_submission` after `record_run`, of crates/satunera-store/src/sqlite.rs.
use satunera.Prelude.{
  ℕ, ◌<◌, Bool, true, ◌≡◌, refl, sym, ap, ◌∙◌, List, [], ◌∷◌, ◌++◌, Option, none, some, Text,
  String, codes, text_eq, text_eq_refl, filter, arith,
}
use satunera.Prelude.Int.{ℤ, pos, to_u32, to_i32, to_u32-pos, two_pow_32}
use mathlib.Core.List.{Permᴰ}
use mathlib.Core.List.Permᴰ
use satunera.Prelude.Members.{sort_by-Permᴰ, last-Permᴰ, filter-last}
use satunera.Prelude.Sorting.{sort_by}
use satunera.Contracts.Verdict
use satunera.Contracts.Verdict.{Verdict}
use satunera.Store.Codec.{Codec}
use satunera.Store.Error.{bad_verdict, out_of_range, corrupt_row, Result, ok, StoreError}
use satunera.Store.Model.{Run, NewRun}
use satunera.Store.Tables.{RunRecord, Db}
use satunera.Store.Tables.Statements.{stored, insert_run}
use satunera.Store.Sqlite.Actions.{collected, transposed, ok_or, now, parse_ts}
use satunera.Store.Sqlite.Rules.{Ensures-pure, ensures-lift, ensures-execute}
use satunera.Store.Sqlite.Runs.{
  record_run, runs_for_submission, decode_run, run_row, run_refusal, mapped,
}
use satunera.Store.Invariants.Decodable.{Each, InRange}
use satunera.Store.Behaviour.Listings.{collected-cons}

insert_run-stored :
    (row : RunRecord) (db after : Db)
    → insert_run row db ≡ stored after
    → record db { runs = db.runs ++ row ∷ [] } ≡ after
unfolding insert_run
insert_run-stored row db after e = ground arith

module _ {Ulid : Type 0} where
  -- The columns of a run, written and read back.
  transposed-pos :
      (e : ℤ → StoreError Ulid) (o : Option ℕ)
      → Each (λ n. n < two_pow_32) o
      → transposed (λ n. ok_or (e n) (to_u32 n)) (mapped pos o) ≡ ok o
  transposed-pos e none h = refl
  transposed-pos e (some n) h = rw (to_u32-pos n h) refl

  transposed-exit :
      (e : ℤ → StoreError Ulid) (o : Option ℤ)
      → Each (λ n. to_i32 n ≡ some n) o
      → transposed (λ n. ok_or (e n) (to_i32 n)) o ≡ ok o
  transposed-exit e none h = refl
  transposed-exit e (some n) h = rw h refl

  transposed-verdict :
      (e : Text → StoreError Ulid) (o : Option Verdict)
      → transposed (λ v. ok_or (e v) (Verdict.parse v)) (mapped Verdict.as_str o) ≡ ok o
  transposed-verdict e none = refl
  transposed-verdict e (some v) = rw (Verdict.parse-as_str v) refl

  cons-collected :
      {A B : Type 0} (f : A → Result Ulid B) (x : A) (xs : List A) (y : B) (ys : List B)
      → f x ≡ ok y
      → collected f xs ≡ ok ys
      → collected f (x ∷ xs) ≡ ok (y ∷ ys)
  cons-collected f x xs y ys first later = rw (first, later) refl

  -- What is collected of a rearranged list is what is collected of the list, rearranged.
  collected-Permᴰ :
      {A B : Type 0} (f : A → Result Ulid B) (xs others : List A) (ys : List B)
      → Permᴰ xs others
      → collected f xs ≡ ok ys
      → (zs : List B) × (collected f others ≡ ok zs) × Permᴰ ys zs
  collected-Permᴰ f _ _ ys Permᴰ.nil h = (ys, h, Permᴰ.refl ys)
  collected-Permᴰ f _ _ ys (Permᴰ.cons {a = x} {b = x'} {l₁ = xs} {l₂ = others} e d) h =
      let (b, bs, first, later, made) = collected-cons f x xs ys h in
      let (cs, there, p) = collected-Permᴰ f xs others bs d later in
      (
        b ∷ cs,
        cons-collected f x' others b cs (sym (ap f e) ∙ first) there,
        rw (← made) (Permᴰ.cons refl p),
      )
  collected-Permᴰ f _ _ ys (Permᴰ.swap {a = x} {b = y} {a' = y'} {b' = x'} {l = l} e d) h =
      let (b, bs, first, later, made) = collected-cons f x (y ∷ l) ys h in
      let (c, cs, second, last, rest) = collected-cons f y l bs later in
      (
        c ∷ b ∷ cs,
        cons-collected f y' (x' ∷ l) c (b ∷ cs) (sym (ap f d) ∙ second)
            (cons-collected f x' l b cs (sym (ap f e) ∙ first) last),
        rw (← made, ← rest) (Permᴰ.swap refl refl),
      )
  collected-Permᴰ f _ _ ys (Permᴰ.trans {l₁ = xs} {l₂ = middle} {l₃ = others} d e) h =
      let (zs, there, p) = collected-Permᴰ f xs middle ys d h in
      let (ws, last, q) = collected-Permᴰ f middle others zs e there in (ws, last, Permᴰ.trans p q)

  -- One more row, and the list of what they decode to.
  collected-added :
      {A B : Type 0} (f : A → Result Ulid B) (le : A → A → Bool) (xs : List A) (row : A) (r : B)
      (olds : List B)
      → collected f (sort_by le xs) ≡ ok olds
      → f row ≡ ok r
      → (rs : List B) × (collected f (sort_by le (xs ++ row ∷ [])) ≡ ok rs) × Permᴰ (r ∷ olds) rs
  collected-added f le xs row r olds h e =
      collected-Permᴰ f (row ∷ sort_by le xs) (sort_by le (xs ++ row ∷ [])) (r ∷ olds)
        (Permᴰ.trans (Permᴰ.cons refl (sort_by-Permᴰ le xs))
          (Permᴰ.trans (last-Permᴰ row xs) (Permᴰ.symm (sort_by-Permᴰ le (xs ++ row ∷ [])))))
        (cons-collected f row (sort_by le xs) r olds e h)

module _ {Ulid Time : Type 0} (c : Codec Ulid Time) where
  -- What `record_run` returns.
  abbrev run_of : Ulid → Time → NewRun Ulid → Run Ulid Time
  run_of id created new = record {
    id = id;
    submission_id = new.submission_id;
    attempt = new.attempt;
    runner_id = new.runner_id;
    fixture = new.fixture;
    exit_code = new.exit_code;
    verdict = new.verdict;
    output = new.output;
    log_uri = new.log_uri;
    boot_ms = new.boot_ms;
    build_ms = new.build_ms;
    run_ms = new.run_ms;
    created_at = created;
  }

  abbrev beyond : String → ℤ → StoreError Ulid
  beyond message n = corrupt_row (codes "runs") (out_of_range (codes message))

  decode_run-run_row :
      (id : Ulid) (at : Text) (new : NewRun Ulid) (created : Time)
      → InRange new
      → parse_ts {Ulid = Ulid} c (codes "runs") at ≡ ok created
      → decode_run c new.submission_id (run_row c id at new) ≡ ok (run_of id created new)
  unfolding decode_run run_row
  decode_run-run_row id at new created r e =
      rw
        (
          c.ulid_printed id,
          to_u32-pos new.attempt (r.attempt),
          transposed-exit (beyond "exit_code out of i32 range") new.exit_code (r.exit_code),
          transposed-verdict (λ v. corrupt_row (codes "runs") (bad_verdict v)) new.verdict,
          transposed-pos (beyond "boot_ms out of range") new.boot_ms (r.boot_ms),
          transposed-pos (beyond "build_ms out of range") new.build_ms (r.build_ms),
          transposed-pos (beyond "run_ms out of range") new.run_ms (r.run_ms),
          e,
        )
        refl

  abbrev mine : Text → RunRecord → Bool
  mine sid r = text_eq r.submission_id sid

  mine-run_row :
      (id : Ulid) (at : Text) (new : NewRun Ulid)
      → mine (c.ulid_text new.submission_id) (run_row c id at new) ≡ true
  unfolding run_row
  mine-run_row id at new = text_eq_refl (c.ulid_text new.submission_id)

  -- When the runs of a submission read and one more, whose numbers are in the ranges of their types, is
  -- recorded, `runs_for_submission` then returns the run that `record_run` returned and the runs that it
  -- returned before, each unchanged and as often as it stood there, and nothing else, in some order.
  pub runs_for_submission-record_run :
      (id : Ulid) (clock : Time) (new : NewRun Ulid) (db : Db) (olds : List (Run Ulid Time))
      → InRange new
      → (runs_for_submission c new.submission_id db).0 ≡ ok olds
      → (r : Run Ulid Time) (after : Db) → record_run c id clock new db ≡ (ok r, after)
      → (rs : List (Run Ulid Time)) × ((runs_for_submission c new.submission_id after).0 ≡ ok rs)
        × Permᴰ (r ∷ olds) rs
  unfolding record_run runs_for_submission
  runs_for_submission-record_run id clock new db olds range before =
      ensures-lift (now c clock) _ db _ λ at _.
        ensures-execute (run_refusal c new) (insert_run (run_row c id at new)) _ db _ λ middle w.
          ensures-lift (parse_ts c (codes "runs") at) _ middle _ λ created e.
            Ensures-pure (run_of id created new) middle _ (
              let sid = c.ulid_text new.submission_id in
              rw
                (
                  ← insert_run-stored (run_row c id at new) db middle w,
                  filter-last (mine sid) (run_row c id at new) db.runs (mine-run_row id at new),
                )
                (collected-added (decode_run c new.submission_id) _ (filter (mine sid) db.runs)
                  (run_row c id at new) (run_of id created new) olds before
                  (decode_run-run_row id at new created range e)))
