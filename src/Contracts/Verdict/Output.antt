-- ===== src/Contracts/Verdict/Output.antt =====
-- crates/satunera-contracts/src/verdict.rs: `ValidationOutput`, the JSON object on the last line of the
-- output of `validation.sh`, and its errors. A `u32` is a natural number, an `i32` an integer.
use satunera.Prelude.{
  ℕ, leb, Bool, true, false, not, ◌&&◌, ◌||◌, ◌==◌, Option, none, some, List, [], ◌∷◌, ◌++◌, map,
  Text, codes, text_eq, find?, filter, take, get_elem?, if◌then◌else◌,
}
use mathlib.Core.List.{reverse}
use satunera.Prelude.Int.{ℤ, pos, negsuc, two_pow_32}
use satunera.Prelude.Split.{lines, trim}
use satunera.Contracts.Json.{Json}
use satunera.Contracts.Verdict.Cases.{Verdict, ac, wa}

-- `MAX_MESSAGE_CHARS`
abbrev pub max_message_chars : ℕ
max_message_chars = 500

pub record ValidationOutput : Type 0 where
  pub ok : Bool
  pub message : Option Text
  pub testcase : Option ℕ
  pub unknown_keys : List Text

pub data VerdictError : Type 0 where
  no_output missing_ok missing_message : VerdictError
  not_json not_an_object : (excerpt : Text) → VerdictError
  wrong_type : (field expected : Text) → VerdictError
  exit_code_mismatch : (ok : Bool) (exit_code : ℤ) → VerdictError

pub data Outcome (A : Type 0) : Type 0 where
  good : A → Outcome A
  bad : VerdictError → Outcome A

infixl 5 ◌>>=◌
abbrev pub ◌>>=◌ : {A B : Type 0} → Outcome A → (A → Outcome B) → Outcome B
good a >>= f = f a
bad e >>= f = bad e

abbrev pub ok_or : {A : Type 0} → VerdictError → Option A → Outcome A
ok_or e none = bad e
ok_or e (some a) = good a

-- `char_indices().nth(n)` finds the character from which the text is cut.
abbrev pub cut : ℕ → Option ℕ → Text → Text
cut n none s = s
cut n (some c) s = take n s ++ 0x2026 ∷ []

unfoldable pub truncate : Text → Text
truncate message = cut max_message_chars (get_elem? message max_message_chars) message

unfoldable pub excerpt : Text → Text
excerpt line = let line' = trim line in cut 120 (get_elem? line' 120) line'

unfoldable pub accepted : ValidationOutput
accepted = record { ok = true; message = none; testcase = none; unknown_keys = [] }

unfoldable pub rejected : Text → ValidationOutput
rejected message = record { ok = false; message = some message; testcase = none; unknown_keys = [] }

abbrev pub positive_integer : VerdictError
positive_integer = wrong_type (codes "testcase") (codes "a positive integer")

-- `u32::MAX as u64` is 2^32 - 1.
unfoldable pub in_range : ℕ → Outcome (Option ℕ)
in_range n = if n == 0 || leb two_pow_32 n then bad positive_integer else good (some n)

abbrev pub is_blank : Text → Bool
is_blank [] = true
is_blank (c ∷ s) = false

-- `message.is_none_or(|m| m.trim().is_empty())`
unfoldable pub lacks_message : Option Text → Bool
lacks_message none = true
lacks_message (some m) = is_blank (trim m)

unfoldable pub is_known_key : Text → Bool
is_known_key k =
    text_eq k (codes "ok") || (text_eq k (codes "message") || text_eq k (codes "testcase"))

-- The last test of `from_line`, and its result.
unfoldable pub assembled : Bool → Option Text → Option ℕ → List Text → Outcome ValidationOutput
assembled ok message testcase keys =
    if not ok && lacks_message message
    then bad missing_message
    else good (record {
      ok = ok;
      message = message;
      testcase = testcase;
      unknown_keys = filter (λ k. not (is_known_key k)) keys;
    })

module _ {Value Object : Type 0} (json : Json Value Object) where
  abbrev pub ok_value : Option Value → Outcome Bool
  ok_value none = bad missing_ok
  ok_value (some v) = ok_or (wrong_type (codes "ok") (codes "true or false")) (json.as_bool v)

  abbrev pub message_value : Option Value → Outcome (Option Text)
  message_value none = good none
  message_value (some v) = if json.is_null v then good none else (do
    s ← ok_or (wrong_type (codes "message") (codes "a string")) (json.as_str v)
    good (some (truncate s)))

  abbrev pub testcase_value : Option Value → Outcome (Option ℕ)
  testcase_value none = good none
  testcase_value (some v) =
      if json.is_null v
      then good none
      else (do n ← ok_or positive_integer (json.as_u64 v); in_range n)

  unfoldable pub from_line : Text → Outcome ValidationOutput
  unfolding in_range assembled
  from_line line = do
    value ← ok_or (not_json (excerpt line)) (json.from_str (trim line))
    object ← ok_or (not_an_object (excerpt line)) (json.as_object value)
    ok ← ok_value (json.get object (codes "ok"))
    message ← message_value (json.get object (codes "message"))
    testcase ← testcase_value (json.get object (codes "testcase"))
    assembled ok message testcase (json.keys object)

  unfoldable pub from_stdout : Text → Outcome ValidationOutput
  from_stdout stdout = do
    line ← ok_or no_output (find? (λ l. not (is_blank l)) (map trim (reverse (lines stdout))))
    from_line line

abbrev pub is_zero : ℤ → Bool
is_zero (pos n) = n == 0
is_zero (negsuc n) = false

abbrev pub bool_eq : Bool → Bool → Bool
bool_eq true b = b
bool_eq false b = not b

unfoldable pub reconcile : ValidationOutput → ℤ → Outcome (Unit {0})
reconcile o exit_code =
    if bool_eq o.ok (is_zero exit_code) then good tt else bad (exit_code_mismatch o.ok exit_code)

unfoldable pub verdict : ValidationOutput → Verdict
verdict o = if o.ok then ac else wa
