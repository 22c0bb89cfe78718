-- ===== src/Store/Tests/Sample.antt =====
-- Numbers for identifiers and instants, and a history of a learner who fails once and then solves.
use satunera.Prelude.{ℕ, ◌≡◌, refl, List, [], ◌∷◌, Option, none, some, Text, codes}
use satunera.Contracts.Language.{rust}
use satunera.Contracts.Verdict.{wa, ac, se}
use satunera.Store.Role.{learner}
use satunera.Store.Status.{preparing, running}
use satunera.Store.Codec.{Codec}
use satunera.Store.Model.{NewUser, ProblemRow, NewSubmission}
use satunera.Store.Spec.Operations.{
  Op, create_user, replace_problems, create_submission, set_submission_status, finish_submission,
}

abbrev pub read_number : Text → Option ℕ
read_number (n ∷ []) = some n
read_number _ = none

pub read_printed :
    (t : ℕ) (s : Text) → ◌≡◌ {A = Option Text} (some (t ∷ [])) (some s) → read_number s ≡ some t
read_printed t [] e = cc
read_printed t (n ∷ []) e = cc
read_printed t (n ∷ m ∷ s) e = cc

abbrev pub numbers : Codec ℕ ℕ
numbers = record {
  ulid_text = λ n. n ∷ [];
  parse_ulid = read_number;
  ulid_printed = λ n. refl;
  format = λ t. some (t ∷ []);
  parse_time = read_number;
  time_printed = read_printed;
}

abbrev pub ann : NewUser
ann = record {
  handle = codes "ann";
  email = codes "ann@example.org";
  password_hash = codes "#";
  role = learner;
}

abbrev pub week_1 : ProblemRow ℕ
week_1 = record {
  id = codes "week-1";
  commit_sha = codes "c0ffee";
  title = codes "Spend an output";
  category = codes "transactions";
  difficulty = codes "easy";
  manifest = codes "{}";
  updated_at = 5;
}

abbrev pub attempt : Text → NewSubmission ℕ
attempt hash = record {
  user_id = 1;
  problem_id = codes "week-1";
  language = rust;
  source_hash = hash;
  source_uri = codes "file:///blobs/x";
}

-- The second submission ends in an error of the judge, the third is accepted.
abbrev pub history : List (Op ℕ ℕ)
history =
    create_user 1 10 ann
    ∷ replace_problems (week_1 ∷ [])
    ∷ create_submission 2 11 (attempt (codes "aa"))
    ∷ set_submission_status 12 2 preparing
    ∷ set_submission_status 13 2 running
    ∷ finish_submission 14 2 wa
    ∷ create_submission 3 15 (attempt (codes "bb"))
    ∷ set_submission_status 16 3 preparing
    ∷ finish_submission 17 3 se
    ∷ create_submission 4 18 (attempt (codes "cc"))
    ∷ set_submission_status 19 4 preparing
    ∷ finish_submission 20 4 ac
    ∷ []
