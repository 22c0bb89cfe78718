-- ===== src/Prelude/Members.antt =====
-- The elements of a list, through the operations that rearrange it.
use mathlib.Core.Path.{◌≡◌, refl}
use mathlib.Core.Logic.{◌⊎◌, inl, inr}
use mathlib.Core.Bool.{Bool, true}
use mathlib.Core.List.{List, [], ◌∷◌, ◌++◌, Permᴰ}
use mathlib.Core.List.Permᴰ
use native.Mathlib.Omega.{arith}
use satunera.Prelude.Tests.{Bool-cases}
use satunera.Prelude.Lists.{filter}
use satunera.Prelude.Sorting.{insert_by, sort_by}

module _ {A : Type 0} where
  abbrev pub Occurs : A → List A → Type 0
  Occurs a [] = ⊥
  Occurs a (x ∷ xs) = (a ≡ x) ⊎ Occurs a xs

  pub Occurs-filter :
      (p : A → Bool) (a : A) (xs : List A) → p a ≡ true → Occurs a xs → Occurs a (filter p xs)
  unfolding filter
  Occurs-filter p a [] h i = i
  Occurs-filter p a (x ∷ xs) h (inl e) = rw (← e, h) (inl refl)
  Occurs-filter p a (x ∷ xs) h (inr i) = elim (Bool-cases (p x)) [
    | inl stays ↦ rw stays (inr (Occurs-filter p a xs h i))
    | inr goes ↦ rw goes (Occurs-filter p a xs h i)
  ]

  pub filter-Occurs :
      (p : A → Bool) (a : A) (xs : List A) → Occurs a (filter p xs) → (p a ≡ true) × Occurs a xs
  unfolding filter
  filter-Occurs p a [] i = absurd i
  filter-Occurs p a (x ∷ xs) i = elim (Bool-cases (p x)) [
    | inl stays ↦
        let j : (a ≡ x) ⊎ Occurs a (filter p xs) = rw stays at i in
        elim j [
          | inl e ↦ (rw e stays, inl e)
          | inr k ↦ let (h, l) = filter-Occurs p a xs k in (h, inr l)
        ]
    | inr goes ↦ let (h, j) = filter-Occurs p a xs (rw goes at i) in (h, inr j)
  ]

  Occurs-insert_by : (le : A → A → Bool) (a : A) (xs : List A) → Occurs a (insert_by le a xs)
  unfolding insert_by
  Occurs-insert_by le a [] = inl refl
  Occurs-insert_by le a (x ∷ xs) = elim (Bool-cases (le a x)) [
    | inl first ↦ rw first (inl refl)
    | inr later ↦ rw later (inr (Occurs-insert_by le a xs))
  ]

  Occurs-insert_by_other :
      (le : A → A → Bool) (a b : A) (xs : List A) → Occurs a xs → Occurs a (insert_by le b xs)
  unfolding insert_by
  Occurs-insert_by_other le a b [] i = absurd i
  Occurs-insert_by_other le a b (x ∷ xs) i = elim (Bool-cases (le b x)) [
    | inl first ↦ rw first (inr i)
    | inr later ↦
        let j : (a ≡ x) ⊎ Occurs a (insert_by le b xs) = elim i [
          | inl e ↦ inl e
          | inr k ↦ inr (Occurs-insert_by_other le a b xs k)
        ] in
        rw later j
  ]

  pub Occurs-sort_by :
      (le : A → A → Bool) (a : A) (xs : List A) → Occurs a xs → Occurs a (sort_by le xs)
  unfolding sort_by
  Occurs-sort_by le a [] i = i
  Occurs-sort_by le a (x ∷ xs) (inl e) = rw e (Occurs-insert_by le x (sort_by le xs))
  Occurs-sort_by le a (x ∷ xs) (inr i) =
      Occurs-insert_by_other le a x (sort_by le xs) (Occurs-sort_by le a xs i)

  insert_by-Occurs :
      (le : A → A → Bool) (a b : A) (xs : List A)
      → Occurs a (insert_by le b xs)
      → (a ≡ b) ⊎ Occurs a xs
  unfolding insert_by
  insert_by-Occurs le a b [] i = i
  insert_by-Occurs le a b (x ∷ xs) i = elim (Bool-cases (le b x)) [
    | inl first ↦ (rw first at i)
    | inr later ↦
        let j : (a ≡ x) ⊎ Occurs a (insert_by le b xs) = rw later at i in
        elim j [
          | inl e ↦ inr (inl e)
          | inr k ↦ elim (insert_by-Occurs le a b xs k) [ inl e ↦ inl e | inr l ↦ inr (inr l) ]
        ]
  ]

  pub sort_by-Occurs :
      (le : A → A → Bool) (a : A) (xs : List A) → Occurs a (sort_by le xs) → Occurs a xs
  unfolding sort_by
  sort_by-Occurs le a [] i = i
  sort_by-Occurs le a (x ∷ xs) i = elim (insert_by-Occurs le a x (sort_by le xs) i) [
    | inl e ↦ inl e
    | inr j ↦ inr (sort_by-Occurs le a xs j)
  ]

  insert_by-Permᴰ : (le : A → A → Bool) (a : A) (xs : List A) → Permᴰ (insert_by le a xs) (a ∷ xs)
  unfolding insert_by
  insert_by-Permᴰ le a [] = Permᴰ.refl (a ∷ [])
  insert_by-Permᴰ le a (x ∷ xs) = elim (Bool-cases (le a x)) [
    | inl first ↦ rw first (Permᴰ.refl (a ∷ x ∷ xs))
    | inr later ↦
        rw later (Permᴰ.trans (Permᴰ.cons refl (insert_by-Permᴰ le a xs)) (Permᴰ.swap refl refl))
  ]

  -- Sorting rearranges.
  pub sort_by-Permᴰ : (le : A → A → Bool) (xs : List A) → Permᴰ (sort_by le xs) xs
  unfolding sort_by
  sort_by-Permᴰ le [] = Permᴰ.nil
  sort_by-Permᴰ le (x ∷ xs) =
      Permᴰ.trans (insert_by-Permᴰ le x (sort_by le xs)) (Permᴰ.cons refl (sort_by-Permᴰ le xs))

  pub last-Permᴰ : (a : A) (xs : List A) → Permᴰ (a ∷ xs) (xs ++ a ∷ [])
  last-Permᴰ a [] = Permᴰ.refl (a ∷ [])
  last-Permᴰ a (x ∷ xs) = Permᴰ.trans (Permᴰ.swap refl refl) (Permᴰ.cons refl (last-Permᴰ a xs))

  pub filter-last :
      (p : A → Bool) (a : A) (xs : List A)
      → p a ≡ true
      → filter p (xs ++ a ∷ []) ≡ filter p xs ++ a ∷ []
  unfolding filter
  filter-last p a [] h = rw h refl
  filter-last p a (x ∷ xs) h = ground (arith, filter-last p a xs h)
