-- ===== src/Store/Behaviour/Catalog.antt =====
-- `replace_problems` of crates/satunera-store/src/sqlite.rs: the catalog that it leaves, as `problem` reads it.
pub mod Lookup
use satunera.Prelude.{
  Bool, true, false, not, ◌≡◌, ◌&&◌, ◌||◌, refl, sym, ap, ◌∙◌, inl, inr, List, [], ◌∷◌, ◌++◌, map,
  Option, none, some, Text, codes, text_eq, text_eq_iff, text_eq_refl, any, find?, filter, is_some,
  if◌then◌else◌, Bool-cases, Option-cases, arith,
}
use satunera.Store.Codec.{Codec}
use satunera.Store.Error.{
  StoreError, Result, ok, err, not_found, corrupt_row, unformattable_timestamp, database,
}
use satunera.Store.Model.{ProblemRow}
use satunera.Store.Tables.{ProblemRecord, Db}
use satunera.Store.Tables.Statements.{stored, upsert_problem, delete_problem}
use satunera.Store.Sqlite.Actions.{Tx, ok_or, parse_ts, transaction, commit_or_rollback}
use satunera.Store.Sqlite.Rules.{
  Ensures, Ensures-bind, Ensures-pure, Ensures-execute, ensures-lift, ensures-execute, committed,
}
use satunera.Store.Sqlite.Problems
use satunera.Store.Behaviour.Catalog.Lookup.{lookup, upsert_problem-lookup, delete_problem-lookup}

-- The last row with the id, or else what was seen before.
abbrev pub last_from :
    {Time : Type 0}
    → Text
    → Option (ProblemRow Time)
    → List (ProblemRow Time)
    → Option (ProblemRow Time)
last_from q seen [] = seen
last_from q seen (row ∷ rows) = last_from q (if text_eq row.id q then some row else seen) rows

-- What `problem` answers where the catalog has such a row.
abbrev pub answer :
    {Ulid Time : Type 0} → Text → Option (ProblemRow Time) → Result Ulid (ProblemRow Time)
answer q none = err (not_found (codes "problems") q)
answer q (some row) = ok row

-- The ids are deleted that stand in the list and are not kept.
module _ {Ulid : Type 0} (q : Text) (keep : List Text) where
  delete_stale-lookup :
      (existing : List Text) (db : Db)
      → Ensures {Ulid = Ulid} (Problems.delete_stale keep existing) db (λ _ after.
        lookup q after.problems ≡ (
          if any (λ id. text_eq id q) existing && not (Problems.keeps keep q)
          then none
          else lookup q db.problems))
  unfolding Problems.delete_stale any
  delete_stale-lookup [] db = Ensures-pure tt db _ refl
  delete_stale-lookup (id ∷ existing) db = elim (Bool-cases (Problems.keeps keep id)) [
    | inl kept ↦ rw kept λ a after e.
        let later = delete_stale-lookup existing db a after e in
        elim (Bool-cases (text_eq id q)) [
          | inl same ↦
              let kept' : Problems.keeps keep q ≡ true = rw ((text_eq_iff id q).0 same) at kept in
              ground arith
          | inr other ↦ rw other later
        ]
    | inr stale ↦ rw stale (
        ensures-execute database (delete_problem id) (λ _. Problems.delete_stale keep existing) db _
          λ middle e. λ a after f.
            let now_gone = delete_problem-lookup id q db middle e in
            let later = delete_stale-lookup existing middle a after f in
            elim (Bool-cases (text_eq id q)) [
              | inl same ↦
                  let stale' : Problems.keeps keep q ≡ false =
                    rw ((text_eq_iff id q).0 same) at stale in
                  ground arith
              | inr other ↦ ground arith
            ])
  ]

keeps-latest :
    {Time : Type 0} (q : Text) (seen : Option (ProblemRow Time)) (rows : List (ProblemRow Time))
    → is_some (last_from q seen rows) ≡ (is_some seen || Problems.keeps (map (λ p. p.id) rows) q)
unfolding Problems.keeps any
keeps-latest q seen [] = ground arith
keeps-latest q seen (row ∷ rows) = elim (Bool-cases (text_eq row.id q)) [
  | inl same ↦ rw (same, keeps-latest q (some row) rows) (ground arith)
  | inr other ↦ rw (other, keeps-latest q seen rows) refl
]

is_some-lookup :
    (q : Text) (rows : List ProblemRecord)
    → any (λ id. text_eq id q) (map (λ p. p.id) rows) ≡ is_some (lookup q rows)
unfolding any find?
is_some-lookup q [] = refl
is_some-lookup q (p ∷ rows) = ground (arith, is_some-lookup q rows)

module _ {Ulid Time : Type 0} (c : Codec Ulid Time) (q : Text) where
  -- The row of the catalog with the id is the one given, and without one it is as it was.
  abbrev Shows : Option ProblemRecord → Option (ProblemRow Time) → Db → Type 0
  Shows before none db = lookup q db.problems ≡ before
  Shows before (some row) db =
      (at : Text) × (c.format row.updated_at ≡ some at)
      × (lookup q db.problems ≡ some (Problems.encode_problem c row at))

  Shows-same :
      (before : Option ProblemRecord) (seen : Option (ProblemRow Time)) (db after : Db)
      → lookup q after.problems ≡ lookup q db.problems
      → Shows before seen db
      → Shows before seen after
  Shows-same before none db after e h = e ∙ h
  Shows-same before (some row) db after e (at, f, h) = (at, f, e ∙ h)

  ok_or-some : (e : StoreError Ulid) (o : Option Text) {a : Text} → ok_or e o ≡ ok a → o ≡ some a
  ok_or-some e none h = cc
  ok_or-some e (some b) h = cc

  upsert_one-Shows :
      (before : Option ProblemRecord) (seen : Option (ProblemRow Time)) (row : ProblemRow Time)
      (db : Db)
      → Shows before seen db
      → Ensures
          (Problems.upsert_one c row)
          db
          (λ _ after. Shows before (if text_eq row.id q then some row else seen) after)
  unfolding Problems.upsert_one Problems.encode_problem
  upsert_one-Shows before seen row db h =
      ensures-lift
        (ok_or (corrupt_row (codes "problems") unformattable_timestamp) (c.format row.updated_at)) _
        db _
        λ at f.
          Ensures-execute database (upsert_problem (Problems.encode_problem c row at)) db _
            λ after e.
              let found = upsert_problem-lookup q (Problems.encode_problem c row at) db after e in
              elim (Bool-cases (text_eq row.id q)) [
                | inl same ↦ rw same (at, ok_or-some _ _ f, rw same at found)
                | inr other ↦ rw other (Shows-same before seen db after (rw other at found) h)
              ]

  upsert_all-Shows :
      (before : Option ProblemRecord) (rows : List (ProblemRow Time))
      (seen : Option (ProblemRow Time)) (db : Db)
      → Shows before seen db
      → Ensures
          (Problems.upsert_all c rows)
          db
          (λ _ after. Shows before (last_from q seen rows) after)
  unfolding Problems.upsert_all
  upsert_all-Shows before [] seen db h = Ensures-pure tt db _ h
  upsert_all-Shows before (row ∷ rows) seen db h =
      Ensures-bind (Problems.upsert_one c row) (λ _. Problems.upsert_all c rows) db _
        λ _ middle e.
          upsert_all-Shows before rows (if text_eq row.id q then some row else seen) middle
            (upsert_one-Shows before seen row db h tt middle e)

  -- What is shown reads as the row that was given.
  shown_problem :
      (latest : Option (ProblemRow Time)) (db : Db)
      → Shows none latest db
      → Problems.problem c q db ≡ (answer q latest, db)
  unfolding Problems.problem Problems.decode_problem Problems.encode_problem parse_ts
  shown_problem none db h = rw h refl
  shown_problem (some row) db (at, f, h) = rw (h, c.time_printed row.updated_at at f) refl

  swept_Shows :
      (before : Option ProblemRecord) (latest : Option (ProblemRow Time)) (middle after : Db)
      → lookup q after.problems ≡ (
          if is_some (lookup q middle.problems) && not (is_some latest)
          then none
          else lookup q middle.problems)
      → Shows before latest middle
      → Shows none latest after
  swept_Shows before none middle after e h = elim (Option-cases (lookup q middle.problems)) [
    | inl gone ↦ rw gone at e
    | inr (p, there) ↦ rw there at e
  ]
  swept_Shows before (some row) middle after e (at, f, h) = (at, f, rw h at e)

  -- After `replace_problems` has returned, `problem` answers for every id with the last of the given rows
  -- that has it, and as not found when none has it: the catalog is what was given and nothing else.
  pub problem-replace_problems :
      (rows : List (ProblemRow Time)) (db after : Db)
      → Problems.replace_problems c rows db ≡ (ok tt, after)
      → Problems.problem c q after ≡ (answer q (last_from q none rows), after)
  unfolding Problems.replace_problems Problems.replace_body
  problem-replace_problems rows db after e = shown_problem (last_from q none rows) after (
      committed (Problems.replace_body c rows) db
        (λ _ final. Shows none (last_from q none rows) final)
        (Ensures-bind (Problems.upsert_all c rows) _ db _ λ _ middle u. λ a final f.
          let shown = upsert_all-Shows (lookup q db.problems) rows none db refl tt middle u in
          let swept =
            delete_stale-lookup q (map (λ p. p.id) rows) (map (λ p. p.id) middle.problems) middle a
              final f in
          swept_Shows (lookup q db.problems) (last_from q none rows) middle final
            (rw (is_some-lookup q middle.problems, ← keeps-latest q none rows) at swept) shown)
        tt after e)
