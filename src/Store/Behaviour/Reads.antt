-- ===== src/Store/Behaviour/Reads.antt =====
-- The reads of crates/satunera-store/src/sqlite.rs never meet a corrupt row.
use satunera.Prelude.{
  ℕ, Bool, ◌≡◌, refl, ◌⊎◌, inl, inr, List, [], ◌∷◌, Option, none, some, Text, codes, find?, All,
  All-filter, All-take, Bool-cases,
}
use satunera.Prelude.Sorting.Members.{All-sort_by}
use satunera.Store.Codec.{Codec}
use satunera.Store.Error.{StoreError, not_found, Result, ok, err, ◌>>=◌ as bind}
use satunera.Store.Tables.{UserRecord, ProblemRecord, SubmissionRecord, RunRecord, Db, migrated}
use satunera.Store.Tables.Statements.{select_submission}
use satunera.Store.Sqlite.Actions.{
  Tx, continue, ok_or, transposed, collected, parse_ts, parse_opt_ts,
}
use satunera.Store.Sqlite.Users.{user, user_by_handle, decode_user}
use satunera.Store.Sqlite.Problems.{problem, problems, decode_problem}
use satunera.Store.Sqlite.Submissions.{
  submission, submissions_for_user, in_flight_submissions, latest_verdict_for_hash, into_submission,
}
use satunera.Store.Sqlite.Runs.{runs_for_submission, decode_run}
use satunera.Store.Spec.Operations.{Op, run}
use satunera.Store.Spec.Keeping.{HasFit}
use satunera.Store.Invariants.Decodable.{
  Has, Each, InRange, UserReads, SubmissionReads, RunReads, ProblemReads, IsDecodable,
}
use satunera.Store.Invariants.Decodable.Writes.{run-IsDecodable}

Each-weaken :
    {A : Type 0} (P Q : A → Type 0) (o : Option A) → ((a : A) → P a → Q a) → Each P o → Each Q o
Each-weaken P Q none k h = tt
Each-weaken P Q (some a) k h = k a h

module _ {Ulid : Type 0} where
  -- A value is returned.
  abbrev pub Returns : {A : Type 0} → Result Ulid A → Type 0
  Returns {A} r = (a : A) × (r ≡ ok a)

  -- A value is returned, or there is no such row.
  abbrev pub Finds : {A : Type 0} → Text → Text → Result Ulid A → Type 0
  Finds entity id r = Returns r ⊎ (r ≡ err (not_found entity id))

  Returns-bind :
      {A B : Type 0} (m : Result Ulid A) (f : A → Result Ulid B)
      → Returns m
      → ((a : A) → Returns (f a))
      → Returns (bind m f)
  Returns-bind m f (a, h) k = let (b, g) = k a in (b, rw h g)

  Returns-ok_or : {A : Type 0} (e : StoreError Ulid) (o : Option A) → Has o → Returns (ok_or e o)
  Returns-ok_or e o (a, h) = (a, rw h refl)

  Returns-transposed :
      {A B : Type 0} (f : A → Result Ulid B) (o : Option A)
      → Each (λ a. Returns (f a)) o
      → Returns (transposed f o)
  Returns-transposed f none h = (none, refl)
  Returns-transposed f (some a) (b, h) = (some b, rw h refl)

  pub Returns-collected :
      {A B : Type 0} (P : A → Type 0) (f : A → Result Ulid B) (xs : List A)
      → ((a : A) → P a → Returns (f a))
      → All P xs
      → Returns (collected f xs)
  Returns-collected P f [] k h = ([], refl)
  Returns-collected P f (x ∷ xs) k (p, h) =
      let (b, first) = k x p in
      let (bs, rest) = Returns-collected P f xs k h in (b ∷ bs, rw (first, rest) refl)

  Returns-transposed_parsed :
      {A B : Type 0} (f : A → Option B) (e : A → StoreError Ulid) (o : Option A)
      → Each (λ a. Has (f a)) o
      → Returns (transposed (λ a. ok_or (e a) (f a)) o)
  Returns-transposed_parsed f e o h =
      Returns-transposed _ o (Each-weaken _ _ o (λ a. Returns-ok_or _ (f a)) h)

  -- What is found among rows that read is returned.
  Finds-row :
      {A B : Type 0} (P : A → Type 0) (f : A → Tx Ulid B) (entity id : Text) (o : Option A)
      (db : Db)
      → ((a : A) → P a → Returns (f a db).0)
      → Each P o
      → Finds entity id (continue (ok_or (not_found entity id) o) f db).0
  Finds-row P f entity id none db k h = inr refl
  Finds-row P f entity id (some a) db k h = inl (k a h)

  Returns-then :
      {A B : Type 0} (r : Result Ulid A) (f : A → Tx Ulid B) (db : Db)
      → Returns r
      → ((a : A) → Returns (f a db).0)
      → Returns (continue r f db).0
  Returns-then r f db (a, h) k = let (b, g) = k a in (b, rw h g)

Each-find? :
    {A : Type 0} (P : A → Type 0) (t : A → Bool) (xs : List A) → All P xs → Each P (find? t xs)
unfolding find?
Each-find? P t [] h = tt
Each-find? P t (x ∷ xs) (p, h) = elim (Bool-cases (t x)) [
  | inl here ↦ rw here p
  | inr away ↦ rw away (Each-find? P t xs h)
]

module _ {Ulid Time : Type 0} (c : Codec Ulid Time) where
  parse_ts-Returns : (entity at : Text) → Has (c.parse_time at) → Returns (parse_ts c entity at)
  unfolding parse_ts
  parse_ts-Returns entity at h = Returns-ok_or _ (c.parse_time at) h

  parse_opt_ts-Returns :
      (entity : Text) (o : Option Text)
      → Each (λ at. Has (c.parse_time at)) o
      → Returns (parse_opt_ts c entity o)
  unfolding parse_opt_ts parse_ts
  parse_opt_ts-Returns entity o h = Returns-transposed_parsed c.parse_time _ o h

  decode_user-Returns :
      (id : Ulid) (row : UserRecord) → UserReads c row → Returns (decode_user c id row)
  unfolding decode_user
  decode_user-Returns id row r =
      Returns-bind _ _ (Returns-ok_or _ _ (r.role))
        λ role. Returns-bind _ _ (parse_ts-Returns _ _ (r.created_at)) λ created. (_, refl)

  into_submission-Returns :
      (row : SubmissionRecord) → SubmissionReads c row → Returns (into_submission c row)
  unfolding into_submission
  into_submission-Returns row r = Returns-bind _ _ (Returns-ok_or _ _ (r.id)) λ id.
      Returns-bind _ _ (Returns-ok_or _ _ (r.user_id)) λ user_id.
        Returns-bind _ _ (Returns-ok_or _ _ (r.language)) λ language.
          Returns-bind _ _ (Returns-ok_or _ _ (r.status)) λ status.
            Returns-bind _ _ (Returns-transposed_parsed _ _ _ (r.verdict)) λ verdict.
              Returns-bind _ _ (parse_ts-Returns _ _ (r.created_at)) λ created.
                Returns-bind _ _ (parse_opt_ts-Returns _ _ (r.started_at)) λ started.
                  Returns-bind _ _ (parse_opt_ts-Returns _ _ (r.finished_at)) λ finished. (_, refl)

  decode_run-Returns :
      (id : Ulid) (row : RunRecord) → RunReads c row → Returns (decode_run c id row)
  unfolding decode_run
  decode_run-Returns id row r = Returns-bind _ _ (Returns-ok_or _ _ (r.id)) λ run_id.
      Returns-bind _ _ (Returns-ok_or _ _ (r.attempt)) λ attempt.
        Returns-bind _ _ (Returns-transposed_parsed _ _ _ (r.exit_code)) λ exit_code.
          Returns-bind _ _ (Returns-transposed_parsed _ _ _ (r.verdict)) λ verdict.
            Returns-bind _ _ (Returns-transposed_parsed _ _ _ (r.boot_ms)) λ boot_ms.
              Returns-bind _ _ (Returns-transposed_parsed _ _ _ (r.build_ms)) λ build_ms.
                Returns-bind _ _ (Returns-transposed_parsed _ _ _ (r.run_ms)) λ run_ms.
                  Returns-bind _ _ (parse_ts-Returns _ _ (r.created_at)) λ created. (_, refl)

  decode_problem-Returns :
      (row : ProblemRecord) → ProblemReads c row → Returns {Ulid = Ulid} (decode_problem c row)
  unfolding decode_problem
  decode_problem-Returns row r = Returns-bind _ _ (parse_ts-Returns _ _ r) λ updated. (_, refl)

  -- Every read returns, but for a row that is not there: `id` of a user or a submission, `handle` and
  -- `problem_id` of what is looked for, and `hash` of a source.
  pub record Answers (db : Db) (id : Ulid) (handle problem_id hash : Text) (limit : ℕ)
      : Type 0 where
    pub user_found : Finds (codes "users") (c.ulid_text id) (user c id db).0
    pub handle_found : Finds (codes "users") handle (user_by_handle c handle db).0
    pub problem_found : Finds (codes "problems") problem_id (problem c problem_id db).0
    pub problems_returned : Returns (problems c db).0
    pub submission_found : Finds (codes "submissions") (c.ulid_text id) (submission c id db).0
    pub of_user_returned : Returns (submissions_for_user c id limit db).0
    pub in_flight_returned : Returns (in_flight_submissions c db).0
    pub latest_returned : Returns (latest_verdict_for_hash c id hash db).0
    pub runs_returned : Returns (runs_for_submission c id db).0

  IsDecodable-Answers :
      (db : Db) (id : Ulid) (handle problem_id hash : Text) (limit : ℕ)
      → IsDecodable c db
      → Answers db id handle problem_id hash limit
  unfolding user user_by_handle problem problems submission submissions_for_user
      in_flight_submissions latest_verdict_for_hash runs_for_submission select_submission
  IsDecodable-Answers db id handle problem_id hash limit d = record {
    user_found =
        Finds-row (UserReads c) _ _ _ _ db (decode_user-Returns id)
          (Each-find? (UserReads c) _ db.users d.users);
    handle_found =
        Finds-row (UserReads c) _ _ _ _ db
          (λ row r.
            Returns-then _ _ db (Returns-ok_or _ _ (r.id))
              (λ found. decode_user-Returns found row r))
          (Each-find? (UserReads c) _ db.users d.users);
    problem_found =
        Finds-row (ProblemReads c) _ _ _ _ db decode_problem-Returns
          (Each-find? (ProblemReads c) _ db.problems d.problems);
    problems_returned =
        Returns-collected (ProblemReads c) _ _ decode_problem-Returns
          (All-sort_by (ProblemReads c) _ db.problems d.problems);
    submission_found =
        Finds-row (SubmissionReads c) _ _ _ _ db into_submission-Returns
          (Each-find? (SubmissionReads c) _ db.submissions d.submissions);
    of_user_returned = Returns-collected (SubmissionReads c) _ _ into_submission-Returns (
        All-take (SubmissionReads c) limit _ (
          All-sort_by (SubmissionReads c) _ _
            (All-filter (SubmissionReads c) _ db.submissions d.submissions)));
    in_flight_returned = Returns-collected (SubmissionReads c) _ _ into_submission-Returns (
        All-sort_by (SubmissionReads c) _ _
          (All-filter (SubmissionReads c) _ db.submissions d.submissions));
    latest_returned =
        Returns-then _ _ db
          (Returns-collected (SubmissionReads c) _ _ into_submission-Returns (
            All-take (SubmissionReads c) 1 _ (
              All-sort_by (SubmissionReads c) _ _
                (All-filter (SubmissionReads c) _ db.submissions d.submissions))))
          (λ subs. (_, refl));
    runs_returned =
        Returns-collected (RunReads c) _ _ (decode_run-Returns id)
          (All-sort_by (RunReads c) _ _ (All-filter (RunReads c) _ db.runs d.runs));
  }

  -- After any history of calls, whether they returned or failed, whose recorded runs have numbers in the
  -- range of their types, every read but that of the progress returns: a value, or that there is no such
  -- row. None of them finds a corrupt row.
  pub run-Answers :
      (ops : List (Op Ulid Time)) (id : Ulid) (handle problem_id hash : Text) (limit : ℕ)
      → All (HasFit InRange) ops
      → Answers (run c ops migrated) id handle problem_id hash limit
  run-Answers ops id handle problem_id hash limit fits =
      IsDecodable-Answers (run c ops migrated) id handle problem_id hash limit
        (run-IsDecodable c ops fits)
