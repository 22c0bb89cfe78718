-- ===== src/Contracts/Verdict/Cases.antt =====
-- crates/satunera-contracts/src/verdict.rs: the judge's answer for one submission.
use satunera.Prelude.{
  ◌≡◌, refl, sym, ◌↔◌, Bool, true, false, not, ◌&&◌, arith, Option, some, List, [], ◌∷◌, Text,
  codes, text_eq, find?, find?-text_eq,
}

pub data Verdict : Type 0 where
  ac wa tle mle re ce se ie : Verdict

-- `Verdict::ALL`
abbrev pub all_cases : List Verdict
all_cases = ac ∷ wa ∷ tle ∷ mle ∷ re ∷ ce ∷ se ∷ ie ∷ []

unfoldable pub as_str : Verdict → Text
as_str ac = codes "AC"
as_str wa = codes "WA"
as_str tle = codes "TLE"
as_str mle = codes "MLE"
as_str re = codes "RE"
as_str ce = codes "CE"
as_str se = codes "SE"
as_str ie = codes "IE"

unfoldable pub parse : Text → Option Verdict
unfolding find?
parse value = find? (λ v. text_eq (as_str v) value) all_cases

pub parse-as_str : (v : Verdict) → parse (as_str v) ≡ some v
unfolding parse as_str text_eq
parse-as_str ac = refl
parse-as_str wa = refl
parse-as_str tle = refl
parse-as_str mle = refl
parse-as_str re = refl
parse-as_str ce = refl
parse-as_str se = refl
parse-as_str ie = refl

-- `parse` accepts exactly the text that `as_str` prints, and gives back the value printed.
pub parse_iff : (value : Text) (v : Verdict) → (parse value ≡ some v) ↔ (value ≡ as_str v)
unfolding parse
parse_iff value v =
    (λ h. sym (find?-text_eq as_str all_cases value v h), λ e. rw e (parse-as_str v))

unfoldable pub is_accepted : Verdict → Bool
is_accepted ac = true
is_accepted _ = false

unfoldable pub is_infrastructure : Verdict → Bool
is_infrastructure se = true
is_infrastructure ie = true
is_infrastructure _ = false

unfoldable pub counts_against_user : Verdict → Bool
unfolding is_infrastructure
counts_against_user v = not (is_infrastructure v)

unfoldable pub is_retryable : Verdict → Bool
unfolding is_infrastructure
is_retryable v = is_infrastructure v

-- A verdict is retried exactly when it does not count against the learner, and an accepted
-- verdict is never retried.
pub retry_policy :
    (v : Verdict)
    → (is_retryable v ≡ not (counts_against_user v)) × ((is_accepted v && is_retryable v) ≡ false)
unfolding is_retryable counts_against_user is_accepted
retry_policy ac = ground arith
retry_policy _ = ground arith
