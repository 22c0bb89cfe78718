-- ===== src/Prelude/Sorting/Unrepeated.antt =====
-- Sorting a list without repetitions, and the order on text.
use mathlib.Core.Path.{◌≡◌, refl, ◌∙◌}
use mathlib.Core.Logic.{inl, inr}
use mathlib.Core.Bool.{Bool, true, false}
use mathlib.Core.List.{List, [], ◌∷◌}
use native.Mathlib.Omega.{arith}
use satunera.Prelude.Tests.{Bool-cases}
use satunera.Prelude.Lists.{All, any}
use satunera.Prelude.Strings.{
  text_eq, text_eq_iff, text_le, text_le_total, text_le_trans, text_le_antisym,
}
use satunera.Prelude.Sorting.{insert_by, sort_by}
use satunera.Prelude.Sorting.Laws.{
  IsLinear, Rises, Below, Climbs, sort_by-Rises, any-insert_by, any-sort_by,
}

pub text_le-IsLinear : IsLinear text_le text_eq
text_le-IsLinear = record {
  same = text_eq_iff;
  total = text_le_total;
  trans = text_le_trans;
  antisym = text_le_antisym;
}

module _ {ℓ} {A : Type ℓ} where
  -- No element comes again.
  abbrev pub IsUnrepeated : (A → A → Bool) → List A → Type 0
  IsUnrepeated eq [] = Unit
  IsUnrepeated eq (x ∷ xs) = (any (eq x) xs ≡ false) × IsUnrepeated eq xs

module _ {ℓ} {A : Type ℓ} {le eq : A → A → Bool} (o : IsLinear le eq) where
  insert_by-IsUnrepeated :
      (a : A) (xs : List A)
      → any (eq a) xs ≡ false
      → IsUnrepeated eq xs
      → IsUnrepeated eq (insert_by le a xs)
  unfolding insert_by any
  insert_by-IsUnrepeated a [] fresh h = (refl, tt)
  insert_by-IsUnrepeated a (x ∷ xs) fresh (p, h) = elim (Bool-cases (le a x)) [
    | inl first ↦ rw first (fresh, (p, h))
    | inr later ↦ rw later (
      any-insert_by o (eq x) a xs ∙ ground (arith, o.same a x, o.same x a),
      insert_by-IsUnrepeated a xs (ground arith) h,
    )
  ]

  sort_by-IsUnrepeated : (xs : List A) → IsUnrepeated eq xs → IsUnrepeated eq (sort_by le xs)
  unfolding sort_by
  sort_by-IsUnrepeated [] h = tt
  sort_by-IsUnrepeated (x ∷ xs) (fresh, h) =
      insert_by-IsUnrepeated x (sort_by le xs) (any-sort_by o (eq x) xs ∙ fresh)
        (sort_by-IsUnrepeated xs h)

  All-Below :
      (x : A) (xs : List A)
      → All (λ y. le x y ≡ true) xs
      → any (eq x) xs ≡ false
      → All (Below le eq x) xs
  unfolding any
  All-Below x [] h fresh = tt
  All-Below x (y ∷ xs) (p, h) fresh = ((p, ground arith), All-Below x xs h (ground arith))

  Rises-Climbs : (xs : List A) → Rises le eq xs → IsUnrepeated eq xs → Climbs le eq xs
  Rises-Climbs [] h u = tt
  Rises-Climbs (x ∷ xs) (p, h) (fresh, u) = (All-Below x xs p fresh, Rises-Climbs xs h u)

  pub sort_by-Climbs : (xs : List A) → IsUnrepeated eq xs → Climbs le eq (sort_by le xs)
  sort_by-Climbs xs u =
      Rises-Climbs (sort_by le xs) (sort_by-Rises o xs) (sort_by-IsUnrepeated xs u)
