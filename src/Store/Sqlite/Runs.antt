-- ===== src/Store/Sqlite/Runs.antt =====
-- `record_run` and `runs_for_submission` of crates/satunera-store/src/sqlite.rs.
use satunera.Prelude.{
  Bool, true, false, List, Option, none, some, Text, codes, text_eq, filter, if◌then◌else◌,
}
use satunera.Prelude.Int.{ℤ, pos, negsuc, to_u32, to_i32}
use satunera.Prelude.{leb}
use satunera.Prelude.Sorting.{sort_by}
use satunera.Contracts.Verdict
use satunera.Contracts.Verdict.{Verdict}
use satunera.Store.Codec.{Codec}
use satunera.Store.Error.{
  DbError, bad_id, bad_attempt, bad_verdict, out_of_range, already_recorded, StoreError, conflict,
  corrupt_row, database, Result, ok, ◌>>=◌ as bind,
}
use satunera.Store.Model.{Run, NewRun}
use satunera.Store.Tables.{RunRecord}
use satunera.Store.Tables.Statements.{insert_run}
use satunera.Store.Sqlite.Actions.{
  Tx, ◌>>=◌, ◌>>◌, lift, pure, select, execute_or, ok_or, transposed, collected,
  is_unique_violation, now, parse_ts,
}

abbrev runs_entity : Text
runs_entity = codes "runs"

abbrev pub mapped {ℓ κ} : {A : Type ℓ} {B : Type κ} → (A → B) → Option A → Option B
mapped f none = none
mapped f (some a) = some (f a)

-- The order of an INTEGER column.
abbrev int_le : ℤ → ℤ → Bool
int_le (pos m) (pos n) = leb m n
int_le (pos m) (negsuc n) = false
int_le (negsuc m) (pos n) = true
int_le (negsuc m) (negsuc n) = leb n m

-- `map(u32::try_from).transpose().map_err(…)?`
abbrev ranged : {Ulid A : Type 0} → Text → (ℤ → Option A) → Option ℤ → Result Ulid (Option A)
ranged message f = transposed λ n. ok_or (corrupt_row runs_entity (out_of_range message)) (f n)

parse_verdict : {Ulid : Type 0} → Text → Result Ulid Verdict
parse_verdict v = ok_or (corrupt_row runs_entity (bad_verdict v)) (Verdict.parse v)

module _ {Ulid Time : Type 0} (c : Codec Ulid Time) where
  unfoldable pub run_row : Ulid → Text → NewRun Ulid → RunRecord
  run_row id created_at run = record {
    id = c.ulid_text id;
    submission_id = c.ulid_text run.submission_id;
    attempt = pos run.attempt;
    runner_id = run.runner_id;
    fixture = run.fixture;
    exit_code = run.exit_code;
    verdict = mapped Verdict.as_str run.verdict;
    output = run.output;
    log_uri = run.log_uri;
    boot_ms = mapped pos run.boot_ms;
    build_ms = mapped pos run.build_ms;
    run_ms = mapped pos run.run_ms;
    created_at = created_at;
  }

  unfoldable pub run_refusal : NewRun Ulid → DbError → StoreError Ulid
  unfolding is_unique_violation
  run_refusal run e =
      if is_unique_violation e
      then conflict runs_entity (already_recorded run.attempt run.submission_id)
      else database e

  unfoldable pub record_run : (id : Ulid) (clock : Time) → NewRun Ulid → Tx Ulid (Run Ulid Time)
  record_run id clock run = do
    created_at ← lift (now c clock)
    execute_or (run_refusal run) (insert_run (run_row id created_at run))
    created ← lift (parse_ts c runs_entity created_at)
    pure (record {
      id = id;
      submission_id = run.submission_id;
      attempt = run.attempt;
      runner_id = run.runner_id;
      fixture = run.fixture;
      exit_code = run.exit_code;
      verdict = run.verdict;
      output = run.output;
      log_uri = run.log_uri;
      boot_ms = run.boot_ms;
      build_ms = run.build_ms;
      run_ms = run.run_ms;
      created_at = created;
    })

  unfoldable pub decode_run : Ulid → RunRecord → Result Ulid (Run Ulid Time)
  unfolding parse_verdict
  decode_run submission_id row =
      bind (ok_or (corrupt_row runs_entity (bad_id row.id)) (c.parse_ulid row.id)) λ id.
        bind (ok_or (corrupt_row runs_entity (bad_attempt row.attempt)) (to_u32 row.attempt))
          λ attempt.
            bind (ranged (codes "exit_code out of i32 range") to_i32 row.exit_code) λ exit_code.
              bind (transposed parse_verdict row.verdict) λ verdict.
                bind (ranged (codes "boot_ms out of range") to_u32 row.boot_ms) λ boot_ms.
                  bind (ranged (codes "build_ms out of range") to_u32 row.build_ms) λ build_ms.
                    bind (ranged (codes "run_ms out of range") to_u32 row.run_ms) λ run_ms.
                      bind (parse_ts c runs_entity row.created_at) λ created_at. ok (record {
                        id = id;
                        submission_id = submission_id;
                        attempt = attempt;
                        runner_id = row.runner_id;
                        fixture = row.fixture;
                        exit_code = exit_code;
                        verdict = verdict;
                        output = row.output;
                        log_uri = row.log_uri;
                        boot_ms = boot_ms;
                        build_ms = build_ms;
                        run_ms = run_ms;
                        created_at = created_at;
                      })

  -- ORDER BY attempt
  unfoldable pub runs_for_submission : Ulid → Tx Ulid (List (Run Ulid Time))
  runs_for_submission id = do
    rows ← select (λ db.
        sort_by (λ r s. int_le r.attempt s.attempt)
          (filter (λ r. text_eq r.submission_id (c.ulid_text id)) db.runs))
    lift (collected (decode_run id) rows)
