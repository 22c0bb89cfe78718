-- ===== src/Prelude/Coded.antt =====
-- A finite type printed by a function and parsed by searching its cases for the one so printed.
use mathlib.Core.Path.{◌≡◌, sym, ◌∙◌}
use mathlib.Core.Logic.{inl, inr}
use mathlib.Core.Bool.{true, false}
use mathlib.Core.List.{List}
use mathlib.Core.Option.{some}
use satunera.Prelude.Tests.{Bool-cases}
use satunera.Prelude.Lists.{find?, find?-holds}
use satunera.Prelude.Strings.{Text, text_eq, text_eq_iff}

pub find?-text_eq {ℓ} :
    {A : Type ℓ} (print : A → Text) (cases : List A) (value : Text) (v : A)
    → find? (λ x. text_eq (print x) value) cases ≡ some v
    → print v ≡ value
find?-text_eq print cases value v h =
    (text_eq_iff (print v) value).0 (find?-holds (λ x. text_eq (print x) value) cases v h)

-- A text that equals another one differs from what that other differs from.
pub apart : (a b q : Text) → text_eq a b ≡ false → text_eq a q ≡ true → text_eq b q ≡ false
apart a b q h k = elim (Bool-cases (text_eq b q)) [
  | inl e ↦ cc ((text_eq_iff a b).1 ((text_eq_iff a q).0 k ∙ sym ((text_eq_iff b q).0 e)), h)
  | inr f ↦ f
]
