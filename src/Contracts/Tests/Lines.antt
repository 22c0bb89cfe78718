-- ===== src/Contracts/Tests/Lines.antt =====
-- The verdict parser at a line, with a reader of JSON that knows this one line.
use satunera.Prelude.{
  any, All, ℕ, ◌≡◌, refl, true, false, Option, none, some, List, [], ◌∷◌, ◌++◌, map, find?, take,
  filter, Text, codes, text_eq, if◌then◌else◌, Bool, ◌↔◌, ◌≢◌, leb, length,
}
use satunera.Prelude.Int.{pos, negsuc}
use satunera.Prelude.Split.{trim, lines}
use satunera.Prelude.Split.{join_with}
use satunera.Prelude.Split.Laws.{Avoids, Avoids-any}
use satunera.Contracts.Verdict.Stdout.{from_stdout-join_with}
use satunera.Contracts.Json.{Json}
use satunera.Contracts.Verdict.{ac, wa}
use satunera.Contracts.Verdict.Output
use satunera.Contracts.Verdict.Output.{
  ValidationOutput, Outcome, good, bad, from_line, from_stdout, truncate, reconcile, verdict,
  lacks_message, is_known_key, max_message_chars, missing_message,
}
use satunera.Contracts.Verdict.Laws.{IsValid, from_line-IsValid, reconciled_verdict, truncate_cases}

data Scalar : Type 0 where
  nil : Scalar
  flag : Bool → Scalar
  number : ℕ → Scalar
  text : Text → Scalar

data Value : Type 0 where
  plain : Scalar → Value
  table : List (Text × Scalar) → Value

abbrev at : List (Text × Scalar) → Text → Option Value
at [] k = none
at ((j, v) ∷ rest) k = let later = at rest k in if text_eq j k then some (plain v) else later

abbrev failed_line : Text
failed_line = codes "{\"ok\":false,\"message\":\"no\",\"testcase\":3,\"score\":0}"

abbrev failed_object : List (Text × Scalar)
failed_object =
    (codes "ok", flag false)
    ∷ (codes "message", text (codes "no"))
    ∷ (codes "testcase", number 3)
    ∷ (codes "score", number 0)
    ∷ []

abbrev is_nil : Value → Bool
is_nil (plain nil) = true
is_nil _ = false

abbrev a_table : Value → Option (List (Text × Scalar))
a_table (table o) = some o
a_table (plain v) = none

abbrev a_flag : Value → Option Bool
a_flag (plain (flag b)) = some b
a_flag _ = none

abbrev a_text : Value → Option Text
a_text (plain (text s)) = some s
a_text _ = none

abbrev a_number : Value → Option ℕ
a_number (plain (number n)) = some n
a_number _ = none

abbrev read_failed : Text → Option Value
read_failed s = if text_eq s failed_line then some (table failed_object) else none

abbrev json : Json Value (List (Text × Scalar))
json = record {
  from_str = read_failed;
  is_null = is_nil;
  as_object = a_table;
  as_bool = a_flag;
  as_str = a_text;
  as_u64 = a_number;
  get = at;
  keys = map (λ p. p.0);
}

abbrev failed_output : ValidationOutput
failed_output = record {
  ok = false;
  message = some (codes "no");
  testcase = some 3;
  unknown_keys = codes "score" ∷ [];
}

functions : Unit {0}
unfolding from_line from_stdout truncate lacks_message is_known_key Output.in_range Output.assembled
    reconcile verdict trim lines text_eq find? filter
functions = tt

failed : from_line json failed_line ≡ good failed_output
unfolding functions
failed = refl

logged : from_stdout json (codes "starting\n" ++ failed_line ++ codes "\n\n") ≡ good failed_output
unfolding functions
logged = refl

from_line-IsValid_example : IsValid failed_output
from_line-IsValid_example = from_line-IsValid json failed_line failed_output failed

disagreeing : reconcile failed_output (pos 0) ≡ bad (Output.exit_code_mismatch false (pos 0))
unfolding functions
disagreeing = refl

agreeing : reconcile failed_output (negsuc 8) ≡ good tt
unfolding functions
agreeing = refl

reconciled_verdict_example :
    ((verdict failed_output ≡ ac) ↔ (negsuc 8 ≡ pos 0))
    × ((verdict failed_output ≡ wa) ↔ (negsuc 8 ≢ pos 0))
reconciled_verdict_example = reconciled_verdict failed_output (negsuc 8) agreeing

truncate_cases_example :
    (truncate (codes "no") ≡ (
      if leb (length (codes "no")) max_message_chars
      then codes "no"
      else take max_message_chars (codes "no") ++ 0x2026 ∷ []))
    × (length (truncate (codes "no"))
        ≡ (if leb (length (codes "no")) max_message_chars then length (codes "no") else 501))
truncate_cases_example = truncate_cases (codes "no")

abbrev log : Text
log = codes "starting"

unbroken : All (Avoids 0xa) (log ∷ failed_line ∷ [] ∷ [])
unfolding any
unbroken = (Avoids-any 0xa log refl, (Avoids-any 0xa failed_line refl, (tt, tt)))

speaking : Output.is_blank (trim failed_line) ≡ false
unfolding functions
speaking = refl

silence : Output.is_blank (trim []) ≡ true
unfolding functions
silence = refl

from_stdout-join_with_example :
    from_stdout json (join_with 0xa (log ∷ failed_line ∷ [] ∷ []))
    ≡ from_line json (trim failed_line)
from_stdout-join_with_example =
    from_stdout-join_with json (log ∷ []) ([] ∷ []) failed_line unbroken speaking (silence, tt)
