-- ===== src/Prelude/Sorting/Members.antt =====
-- What holds of the elements of a list holds of those of the sorted list.
use mathlib.Core.Bool.{Bool}
use mathlib.Core.List.{List, [], ◌∷◌}
use native.Mathlib.Omega.{arith}
use satunera.Prelude.Lists.{All}
use satunera.Prelude.Sorting.{insert_by, sort_by}

module _ {ℓ κ} {A : Type ℓ} (P : A → Type κ) (le : A → A → Bool) where
  All-insert_by : (a : A) (xs : List A) → P a → All P xs → All P (insert_by le a xs)
  unfolding insert_by
  All-insert_by a [] p h = (p, tt)
  All-insert_by a (x ∷ xs) p (q, h) = ground (arith, All-insert_by a xs p h)

  pub All-sort_by : (xs : List A) → All P xs → All P (sort_by le xs)
  unfolding sort_by
  All-sort_by [] h = h
  All-sort_by (x ∷ xs) (p, h) = All-insert_by x (sort_by le xs) p (All-sort_by xs h)
