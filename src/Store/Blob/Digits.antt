-- ===== src/Store/Blob/Digits.antt =====
-- The keys of the logs of one submission tell the attempts apart.
use satunera.Prelude.{
  ℕ, zero, suc, ◌+◌, ◌-◌, ◌*◌, ◌/◌, ◌%◌, ◌≤◌, ltb, ◌≡◌, refl, sym, ap, ◌∙◌, inl, inr, [], ◌∷◌, ◌++◌,
  Text, codes, Bool-cases, arith,
}
use satunera.Store.Codec.{Codec}
use satunera.Store.Blob.{log, digits, blob_key}

-- The number that a text of digits stands for.
abbrev pub number_from : ℕ → Text → ℕ
number_from acc [] = acc
number_from acc (d ∷ s) = number_from (acc * 10 + (d - b'0')) s

number_from-append :
    (acc : ℕ) (s : Text) (d : ℕ)
    → number_from acc (s ++ d ∷ []) ≡ number_from acc s * 10 + (d - b'0')
number_from-append acc [] d = refl
number_from-append acc (e ∷ s) d = number_from-append (acc * 10 + (e - b'0')) s d

-- The digits of a number, on fuel that is at least the number, stand for it.
pub number_from-digits : (fuel n : ℕ) → n ≤ fuel → number_from 0 (digits fuel n) ≡ n
unfolding digits
number_from-digits zero n h = omega arith
number_from-digits (suc fuel) n h = elim (Bool-cases (ltb n 10)) [
  | inl small ↦ rw small (ground arith)
  | inr large ↦
      let ten : 10 ≤ n = ground arith in
      let below : n / 10 ≤ fuel = omega arith in
      rw
        (
          large,
          number_from-append 0 (digits fuel (n / 10)) (b'0' + n % 10),
          number_from-digits fuel (n / 10) below,
        )
        (omega arith)
]

digits-inj : (m n : ℕ) → digits m m ≡ digits n n → m ≡ n
digits-inj m n e =
    sym (number_from-digits m m (omega arith))
    ∙ ap (number_from 0) e
    ∙ number_from-digits n n (omega arith)

append-cancel : (s t u : Text) → s ++ t ≡ s ++ u → t ≡ u
append-cancel [] t u e = e
append-cancel (c ∷ s) t u e = append-cancel s t u cc

module _ {Ulid Time : Type 0} (c : Codec Ulid Time) where
  -- Two attempts at one submission whose logs have the same key are the same attempt.
  pub blob_key-log-inj :
      (submission : Ulid) (first second : ℕ)
      → blob_key c (log submission first) ≡ blob_key c (log submission second)
      → first ≡ second
  unfolding blob_key
  blob_key-log-inj submission first second e = digits-inj first second (
      append-cancel (codes "logs/" ++ c.ulid_text submission ++ codes "/") (digits first first)
        (digits second second) e)
