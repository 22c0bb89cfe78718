-- ===== src/Contracts/Verdict/Laws.antt =====
-- What the parser of crates/satunera-contracts/src/verdict.rs guarantees of an output that it accepts.
use satunera.Prelude.{
  codes, ℕ, leb, if◌then◌else◌, ◌<◌, ◌≤◌, Bool, true, false, not, ◌&&◌, ◌≡◌, ◌≢◌, ◌↔◌, refl, Option,
  none, some, List, [], ◌∷◌, ◌++◌, Text, arith, length, take, length-append, length-take-le,
  get_elem?, Option-cases, inl, inr, zero, suc, All, filter, Bool-cases,
}
use satunera.Prelude.Split.{trim}
use satunera.Prelude.Int.{ℤ, pos, negsuc, two_pow_32}
use satunera.Contracts.Json.{Json}
use satunera.Contracts.Verdict.Cases.{ac, wa}
use satunera.Contracts.Verdict.Output.{
  ValidationOutput, Outcome, good, bad, ◌>>=◌, ok_or, truncate, in_range, lacks_message, assembled,
  ok_value, message_value, testcase_value, from_line, reconcile, verdict, max_message_chars,
  is_known_key, positive_integer,
}

get_elem?-none : (n : ℕ) (s : Text) → get_elem? s n ≡ none → length s ≤ n
get_elem?-none n [] e = omega arith
get_elem?-none zero (c ∷ s) e = cc
get_elem?-none (suc n) (c ∷ s) e = omega (arith, get_elem?-none n s e)

get_elem?-some : (n : ℕ) (s : Text) (c : ℕ) → get_elem? s n ≡ some c → n < length s
get_elem?-some n [] c e = cc
get_elem?-some zero (d ∷ s) c e = omega arith
get_elem?-some (suc n) (d ∷ s) c e = omega (arith, get_elem?-some n s c e)

length-take-eq : (n : ℕ) (s : Text) → n ≤ length s → length (take n s) ≡ n
length-take-eq zero s h = omega arith
length-take-eq (suc n) [] h = omega arith
length-take-eq (suc n) (c ∷ s) h = omega (arith, length-take-eq n s (omega arith))

leb_of_le : (a b : ℕ) → a ≤ b → leb a b ≡ true
leb_of_le a b h = ground arith

leb_of_lt : (a b : ℕ) → b < a → leb a b ≡ false
leb_of_lt a b h = ground arith

-- A message of at most 500 characters is kept, and a longer one becomes its first 500 and `…`, which
-- makes 501.
pub truncate_cases :
    (m : Text)
    → (truncate m
        ≡ (if leb (length m) max_message_chars then m else take max_message_chars m ++ 0x2026 ∷ []))
      × (length (truncate m) ≡ (if leb (length m) max_message_chars then length m else 501))
unfolding truncate
truncate_cases m = elim (Option-cases (get_elem? m max_message_chars)) [
  | inl short ↦
      let fits : leb (length m) max_message_chars ≡ true =
        leb_of_le (length m) max_message_chars (get_elem?-none max_message_chars m short) in
      rw (short, fits) (refl, refl)
  | inr (c, long) ↦
      let over : leb (length m) max_message_chars ≡ false =
        leb_of_lt (length m) max_message_chars (get_elem?-some max_message_chars m c long) in
      rw (long, over)
        (
          refl,
          omega (
            arith,
            length-append {0} (take max_message_chars m) (0x2026 ∷ []),
            length-take-eq max_message_chars m,
            get_elem?-some max_message_chars m c long,
          ),
        )
]

length-truncate-le : (m : Text) → length (truncate m) ≤ 501
unfolding truncate
length-truncate-le m = elim (Option-cases (get_elem? m max_message_chars)) [
  | inl short ↦ rw short (omega (arith, get_elem?-none max_message_chars m short))
  | inr (c, long) ↦ rw long (
      omega (
        arith,
        length-append {0} (take max_message_chars m) (0x2026 ∷ []),
        length-take-le {0} max_message_chars m,
      ))
]

-- A rejection explains itself, a message has at most 501 characters, a test case is a positive `u32`,
-- and the unknown keys are none of the three known ones.
pub record IsValid (o : ValidationOutput) : Type 0 where
  pub explained : o.ok ≡ false → lacks_message o.message ≡ false
  pub short : (m : Text) → o.message ≡ some m → length m ≤ 501
  pub testcase : (n : ℕ) → o.testcase ≡ some n → (0 < n) × (n < two_pow_32)
  pub unknown : All (λ k. is_known_key k ≡ false) o.unknown_keys

All-filter_unknown :
    (ks : List Text) → All (λ k. is_known_key k ≡ false) (filter (λ k. not (is_known_key k)) ks)
unfolding filter
All-filter_unknown [] = tt
All-filter_unknown (k ∷ ks) = ground (arith, All-filter_unknown ks)

in_range_bounds :
    (n : ℕ) (t : Option ℕ) → in_range n ≡ good t → (m : ℕ) → t ≡ some m → (0 < m) × (m < two_pow_32)
unfolding in_range
in_range_bounds n t e m h = ground arith

bind-eq-good :
    {A B : Type 0} (m : Outcome A) (f : A → Outcome B) {b : B}
    → (m >>= f) ≡ good b
    → (a : A) × (m ≡ good a) × (f a ≡ good b)
bind-eq-good (good a) f h = (a, refl, h)
bind-eq-good (bad e) f h = cc

good_inj : {A : Type 0} {a b : A} → good a ≡ good b → a ≡ b
good_inj h = cc

module _ {Value Object : Type 0} (json : Json Value Object) where
  message_value-le :
      (v : Option Value) (m : Option Text)
      → message_value json v ≡ good m
      → (s : Text) → m ≡ some s
      → length s ≤ 501
  message_value-le none m e s h = cc
  message_value-le (some v) m e s h = elim (Bool-cases (json.is_null v)) [
    | inl null ↦ cc (rw null at e)
    | inr given ↦
        let (t, read, kept) = bind-eq-good (ok_or _ (json.as_str v)) _ (rw given at e) in
        let same : truncate t ≡ s = ground arith in rw (← same) (length-truncate-le t)
  ]

  testcase_value_bounds :
      (v : Option Value) (t : Option ℕ)
      → testcase_value json v ≡ good t
      → (n : ℕ) → t ≡ some n
      → (0 < n) × (n < two_pow_32)
  testcase_value_bounds none t e n h = cc
  testcase_value_bounds (some v) t e n h = elim (Bool-cases (json.is_null v)) [
    | inl null ↦ cc (rw null at e)
    | inr given ↦
        let (u, read, ranged) =
          bind-eq-good (ok_or positive_integer (json.as_u64 v)) in_range (rw given at e) in
        in_range_bounds u t ranged n h
  ]

  assembled-IsValid :
      (ok : Bool) (m : Option Text) (t : Option ℕ) (ks : List Text) (o : ValidationOutput)
      → ((s : Text) → m ≡ some s → length s ≤ 501)
      → ((n : ℕ) → t ≡ some n → (0 < n) × (n < two_pow_32))
      → assembled ok m t ks ≡ good o
      → IsValid o
  unfolding assembled
  assembled-IsValid ok m t ks o short range e = elim (Bool-cases (not ok && lacks_message m)) [
    | inl lacking ↦ cc (rw lacking at e)
    | inr enough ↦
        let made = rw enough at e in
        let same = good_inj made in
        rw (← same) (record {
          explained = λ h. ground arith;
          short = short;
          testcase = range;
          unknown = All-filter_unknown ks;
        })
  ]

  -- Whatever the line and whatever `serde_json` makes of it, an output that the parser accepts explains
  -- a rejection by a message that is not blank, has a message of at most 501 characters, a test case
  -- from 1 to 2^32 - 1, and lists no known key as unknown.
  pub from_line-IsValid :
      (line : Text) (o : ValidationOutput) → from_line json line ≡ good o → IsValid o
  unfolding from_line
  from_line-IsValid line o e =
      let (value, _, e₁) = bind-eq-good (ok_or _ (json.from_str (trim line))) _ e in
      let (object, _, e₂) = bind-eq-good (ok_or _ (json.as_object value)) _ e₁ in
      let (ok, _, e₃) = bind-eq-good (ok_value json (json.get object (codes "ok"))) _ e₂ in
      let (m, read, e₄) =
        bind-eq-good (message_value json (json.get object (codes "message"))) _ e₃ in
      let (t, ranged, e₅) =
        bind-eq-good (testcase_value json (json.get object (codes "testcase"))) _ e₄ in
      assembled-IsValid ok m t (json.keys object) o
        (message_value-le (json.get object (codes "message")) m read)
        (testcase_value_bounds (json.get object (codes "testcase")) t ranged) e₅

-- An output that agrees with the exit code gets AC exactly when the script exited with 0 and WA exactly
-- when it did not.
pub reconciled_verdict :
    (o : ValidationOutput) (exit_code : ℤ)
    → reconcile o exit_code ≡ good tt
    → ((verdict o ≡ ac) ↔ (exit_code ≡ pos 0)) × ((verdict o ≡ wa) ↔ (exit_code ≢ pos 0))
unfolding reconcile verdict
reconciled_verdict o (pos zero) h = ground arith
reconciled_verdict o (pos (suc n)) h = ground arith
reconciled_verdict o (negsuc n) h = ground arith
