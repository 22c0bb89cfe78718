-- ===== src/Prelude/Sorting.antt =====
-- `sort_by` and `ORDER BY`: insertion into a sorted list, stable as the library's sort is.
pub mod Laws
pub mod Unrepeated
pub mod Members
use mathlib.Core.Bool.{Bool}
use mathlib.Core.List.{List, [], ◌∷◌}
use satunera.Prelude.Tests.{if◌then◌else◌}

module _ {ℓ} {A : Type ℓ} where
  -- Before the first element that it does not exceed.
  unfoldable pub insert_by : (A → A → Bool) → A → List A → List A
  insert_by le a [] = a ∷ []
  insert_by le a (x ∷ xs) =
      let later = insert_by le a xs in if le a x then a ∷ x ∷ xs else x ∷ later

  unfoldable pub sort_by : (A → A → Bool) → List A → List A
  unfolding insert_by
  sort_by le [] = []
  sort_by le (x ∷ xs) = insert_by le x (sort_by le xs)

  -- `Vec::dedup`: an element equal to the last that was kept is dropped.
  unfoldable pub dedup_from : (A → A → Bool) → A → List A → List A
  dedup_from eq x [] = x ∷ []
  dedup_from eq x (y ∷ ys) =
      let drop = dedup_from eq x ys in
      let keep = x ∷ dedup_from eq y ys in if eq x y then drop else keep

  unfoldable pub dedup : (A → A → Bool) → List A → List A
  unfolding dedup_from
  dedup eq [] = []
  dedup eq (x ∷ xs) = dedup_from eq x xs
