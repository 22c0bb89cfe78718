-- ===== src/Contracts/Source/Dir/Chosen.antt =====
-- Choosing from the sorted listing of crates/satunera-contracts/src/source.rs: the listing under a prefix
-- is the part of the whole that is under it.
use satunera.Prelude.{
  Bool, false, ◌&&◌, ◌≡◌, refl, sym, ◌∙◌, inl, inr, List, [], ◌∷◌, Text, text_eq, text_le, filter,
  any, arith, All-filter, Bool-cases,
}
use satunera.Prelude.Sorting.{sort_by}
use satunera.Prelude.Sorting.Laws.{Climbs, Below, Climbs-unique, any-sort_by}
use satunera.Prelude.Sorting.Unrepeated.{IsUnrepeated, sort_by-Climbs, text_le-IsLinear}
use satunera.Contracts.Source.Laws.{any-filter}

Climbs-filter :
    (u : Text → Bool) (xs : List Text)
    → Climbs text_le text_eq xs
    → Climbs text_le text_eq (filter u xs)
unfolding filter
Climbs-filter u [] h = tt
Climbs-filter u (x ∷ xs) (p, h) = elim (Bool-cases (u x)) [
  | inl stays ↦ rw stays (All-filter (Below text_le text_eq x) u xs p, Climbs-filter u xs h)
  | inr goes ↦ rw goes (Climbs-filter u xs h)
]

any-filtered : (p u : Text → Bool) (xs : List Text) → any p xs ≡ false → any p (filter u xs) ≡ false
unfolding any filter
any-filtered p u [] h = refl
any-filtered p u (x ∷ xs) h = ground (arith, any-filtered p u xs)

IsUnrepeated-filter :
    (u : Text → Bool) (xs : List Text)
    → IsUnrepeated text_eq xs
    → IsUnrepeated text_eq (filter u xs)
unfolding filter
IsUnrepeated-filter u [] h = tt
IsUnrepeated-filter u (x ∷ xs) (p, h) = elim (Bool-cases (u x)) [
  | inl stays ↦ rw stays (any-filtered (text_eq x) u xs p, IsUnrepeated-filter u xs h)
  | inr goes ↦ rw goes (IsUnrepeated-filter u xs h)
]

-- Sorting and choosing commute.
pub filter-sort_by :
    (u : Text → Bool) (xs : List Text)
    → IsUnrepeated text_eq xs
    → Climbs text_le text_eq (sort_by text_le xs)
    → filter u (sort_by text_le xs) ≡ sort_by text_le (filter u xs)
filter-sort_by u xs h k =
    Climbs-unique text_le-IsLinear _ _ (Climbs-filter u (sort_by text_le xs) k)
      (sort_by-Climbs text_le-IsLinear _ (IsUnrepeated-filter u xs h))
      (λ v.
        any-filter (text_eq v) u (sort_by text_le xs)
        ∙ any-sort_by text_le-IsLinear (λ x. text_eq v x && u x) xs
        ∙ sym (any-filter (text_eq v) u xs)
        ∙ sym (any-sort_by text_le-IsLinear (text_eq v) (filter u xs)))
