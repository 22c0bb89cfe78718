-- ===== src/Store/Sqlite/Problems.antt =====
-- `replace_problems`, `problem` and `problems` of crates/satunera-store/src/sqlite.rs.
use satunera.Prelude.{
  Bool, List, [], ◌∷◌, map, Text, codes, text_eq, text_le, find?, any, if◌then◌else◌,
}
use satunera.Prelude.Sorting.{sort_by}
use satunera.Store.Codec.{Codec}
use satunera.Store.Error.{
  unformattable_timestamp, not_found, corrupt_row, Result, ok, ◌>>=◌ as bind,
}
use satunera.Store.Model.{ProblemRow}
use satunera.Store.Tables.{ProblemRecord}
use satunera.Store.Tables.Statements.{upsert_problem, delete_problem}
use satunera.Store.Sqlite.Actions.{
  Tx, ◌>>=◌, ◌>>◌, lift, pure, select, execute, transaction, ok_or, collected, parse_ts,
}

-- `keep.contains(row.id)`
unfoldable pub keeps : List Text → Text → Bool
keeps keep id = any (λ k. text_eq k id) keep

-- The loop that deletes the rows whose id is not kept.
unfoldable pub delete_stale : {Ulid : Type 0} → List Text → List Text → Tx Ulid (Unit {0})
delete_stale keep [] = pure tt
delete_stale keep (id ∷ existing) =
    let rest = delete_stale keep existing in
    if keeps keep id then rest else (execute (delete_problem id) >> rest)

module _ {Ulid Time : Type 0} (c : Codec Ulid Time) where
  unfoldable pub encode_problem : ProblemRow Time → Text → ProblemRecord
  encode_problem problem updated_at = record {
    id = problem.id;
    commit_sha = problem.commit_sha;
    title = problem.title;
    category = problem.category;
    difficulty = problem.difficulty;
    manifest = problem.manifest;
    updated_at = updated_at;
  }

  -- One round of the loop that upserts.
  unfoldable pub upsert_one : ProblemRow Time → Tx Ulid (Unit {0})
  upsert_one problem = do
    updated_at ← lift (
        ok_or (corrupt_row (codes "problems") unformattable_timestamp)
          (c.format problem.updated_at))
    execute (upsert_problem (encode_problem problem updated_at))

  unfoldable pub upsert_all : List (ProblemRow Time) → Tx Ulid (Unit {0})
  upsert_all [] = pure tt
  upsert_all (problem ∷ problems) = upsert_one problem >> upsert_all problems

  -- `replace_problems` between `begin_immediate` and `commit`.
  unfoldable pub replace_body : List (ProblemRow Time) → Tx Ulid (Unit {0})
  replace_body problems = do
    upsert_all problems
    existing ← select (λ db. map (λ p. p.id) db.problems)
    delete_stale (map (λ p. p.id) problems) existing

  unfoldable pub replace_problems : List (ProblemRow Time) → Tx Ulid (Unit {0})
  replace_problems problems = transaction (replace_body problems)

  unfoldable pub decode_problem : ProblemRecord → Result Ulid (ProblemRow Time)
  decode_problem row = bind (parse_ts c (codes "problems") row.updated_at) λ updated. ok (record {
    id = row.id;
    commit_sha = row.commit_sha;
    title = row.title;
    category = row.category;
    difficulty = row.difficulty;
    manifest = row.manifest;
    updated_at = updated;
  })

  unfoldable pub problem : Text → Tx Ulid (ProblemRow Time)
  problem id = do
    found ← select (λ db. find? (λ p. text_eq p.id id) db.problems)
    row ← lift (ok_or (not_found (codes "problems") id) found)
    lift (decode_problem row)

  -- ORDER BY id
  unfoldable pub problems : Tx Ulid (List (ProblemRow Time))
  problems = do
    rows ← select (λ db. sort_by (λ p q. text_le p.id q.id) db.problems)
    lift (collected decode_problem rows)
