-- ===== src/Prelude/Sorting/Laws.antt =====
-- Sorting by a linear order: the result rises, keeps the members, and is fixed by the members alone
-- once repetitions are dropped.
use mathlib.Core.Path.{◌≡◌, refl, sym, ap, ◌∙◌, ap₂}
use mathlib.Core.Logic.{◌↔◌, inl, inr}
use mathlib.Core.Bool.{Bool, true, false, ◌||◌}
use mathlib.Core.List.{List, [], ◌∷◌}
use native.Mathlib.Omega.{arith}
use satunera.Prelude.Tests.{Bool-cases}
use satunera.Prelude.Lists.{All, any}
use satunera.Prelude.Sorting.{insert_by, sort_by, dedup, dedup_from}

pub record IsLinear {ℓ} {A : Type ℓ} (le eq : A → A → Bool) : Type ℓ where
  pub same : (a b : A) → (eq a b ≡ true) ↔ (a ≡ b)
  pub total : (a b : A) → le a b ≡ false → le b a ≡ true
  pub trans : (a b c : A) → le a b ≡ true → le b c ≡ true → le a c ≡ true
  pub antisym : (a b : A) → le a b ≡ true → le b a ≡ true → a ≡ b

module _ {ℓ} {A : Type ℓ} (le eq : A → A → Bool) where
  -- Each element is at most all that follow it.
  abbrev pub Rises : List A → Type 0
  Rises [] = Unit
  Rises (x ∷ xs) = All (λ y. le x y ≡ true) xs × Rises xs

  abbrev pub Below : A → A → Type 0
  Below x y = (le x y ≡ true) × (eq x y ≡ false)

  -- Each element is below all that follow it.
  abbrev pub Climbs : List A → Type 0
  Climbs [] = Unit
  Climbs (x ∷ xs) = All (Below x) xs × Climbs xs

module _ {ℓ} {A : Type ℓ} {le eq : A → A → Bool} (o : IsLinear le eq) where
  All-above :
      (a x : A) (xs : List A)
      → le a x ≡ true
      → All (λ y. le x y ≡ true) xs
      → All (λ y. le a y ≡ true) xs
  All-above a x [] h k = tt
  All-above a x (y ∷ xs) h (p, k) = (o.trans a x y h p, All-above a x xs h k)

  All-insert_by :
      (P : A → Type 0) (a : A) (xs : List A) → P a → All P xs → All P (insert_by le a xs)
  unfolding insert_by
  All-insert_by P a [] p h = (p, tt)
  All-insert_by P a (x ∷ xs) p (q, h) = ground (arith, All-insert_by P a xs p h)

  insert_by-Rises : (a : A) (xs : List A) → Rises le eq xs → Rises le eq (insert_by le a xs)
  unfolding insert_by
  insert_by-Rises a [] h = (tt, tt)
  insert_by-Rises a (x ∷ xs) (p, h) = elim (Bool-cases (le a x)) [
    | inl first ↦ rw first ((first, All-above a x xs first p), (p, h))
    | inr later ↦
        rw later
          (All-insert_by (λ y. le x y ≡ true) a xs (o.total a x later) p, insert_by-Rises a xs h)
  ]

  pub sort_by-Rises : (xs : List A) → Rises le eq (sort_by le xs)
  unfolding sort_by
  sort_by-Rises [] = tt
  sort_by-Rises (x ∷ xs) = insert_by-Rises x (sort_by le xs) (sort_by-Rises xs)

  pub any-insert_by :
      (p : A → Bool) (a : A) (xs : List A) → any p (insert_by le a xs) ≡ (p a || any p xs)
  unfolding insert_by any
  any-insert_by p a [] = refl
  any-insert_by p a (x ∷ xs) = ground (arith, any-insert_by p a xs)

  pub any-sort_by : (p : A → Bool) (xs : List A) → any p (sort_by le xs) ≡ any p xs
  unfolding sort_by any
  any-sort_by p [] = refl
  any-sort_by p (x ∷ xs) = any-insert_by p x (sort_by le xs) ∙ ap (λ b. p x || b) (any-sort_by p xs)

  any-dedup_from :
      (p : A → Bool) (x : A) (xs : List A) → any p (dedup_from eq x xs) ≡ (p x || any p xs)
  unfolding dedup_from any
  any-dedup_from p x [] = refl
  any-dedup_from p x (y ∷ ys) = elim (Bool-cases (eq x y)) [
    | inl same ↦ rw (same, any-dedup_from p x ys, ← (o.same x y).0 same) (ground arith)
    | inr other ↦ rw (other, any-dedup_from p y ys) refl
  ]

  pub any-dedup : (p : A → Bool) (xs : List A) → any p (dedup eq xs) ≡ any p xs
  unfolding dedup any
  any-dedup p [] = refl
  any-dedup p (x ∷ xs) = any-dedup_from p x xs

  All-dedup_from :
      (P : A → Type 0) (x : A) (xs : List A) → P x → All P xs → All P (dedup_from eq x xs)
  unfolding dedup_from
  All-dedup_from P x [] p h = (p, tt)
  All-dedup_from P x (y ∷ ys) p (q, h) =
      ground (arith, All-dedup_from P x ys p h, All-dedup_from P y ys q h)

  Below-trans : (x y z : A) → Below le eq x y → le y z ≡ true → Below le eq x z
  Below-trans x y z (h, ne) k = (
    o.trans x y z h k,
    elim (Bool-cases (eq x z)) [
      | inl same ↦
          let back : le y x ≡ true = rw ((o.same x z).0 same) k in
          cc ((o.same x y).1 (o.antisym x y h back), ne)
      | inr other ↦ other
    ],
  )

  All-Below :
      (x y : A) (zs : List A)
      → Below le eq x y
      → All (λ z. le y z ≡ true) zs
      → All (Below le eq x) zs
  All-Below x y [] b h = tt
  All-Below x y (z ∷ zs) b (p, h) = (Below-trans x y z b p, All-Below x y zs b h)

  dedup_from-Climbs :
      (x : A) (xs : List A)
      → All (λ y. le x y ≡ true) xs
      → Rises le eq xs
      → Climbs le eq (dedup_from eq x xs)
  unfolding dedup_from
  dedup_from-Climbs x [] p h = (tt, tt)
  dedup_from-Climbs x (y ∷ ys) (q, p) (above, h) = elim (Bool-cases (eq x y)) [
    | inl same ↦ rw same (dedup_from-Climbs x ys p h)
    | inr other ↦ rw other (
      All-dedup_from (Below le eq x) y ys (q, other) (All-Below x y ys (q, other) above),
      dedup_from-Climbs y ys above h,
    )
  ]

  pub dedup-Climbs : (xs : List A) → Rises le eq xs → Climbs le eq (dedup eq xs)
  unfolding dedup
  dedup-Climbs [] h = tt
  dedup-Climbs (x ∷ xs) (p, h) = dedup_from-Climbs x xs p h

  -- What is below all of a list is not in it.
  absent : (x : A) (xs : List A) → All (Below le eq x) xs → any (eq x) xs ≡ false
  unfolding any
  absent x [] h = refl
  absent x (y ∷ ys) (b, h) = rw (b.1, absent x ys h)

  -- A member of a list is at least what is below all of it.
  le_of_member :
      (x y : A) (xs : List A) → All (Below le eq x) xs → any (eq y) xs ≡ true → le x y ≡ true
  unfolding any
  le_of_member x y [] h m = cc
  le_of_member x y (z ∷ zs) (b, h) m = elim (Bool-cases (eq y z)) [
    | inl here ↦ rw ((o.same y z).0 here) b.0
    | inr away ↦ le_of_member x y zs h (rw away at m)
  ]

  heads :
      (x y : A) (xs ys : List A)
      → All (Below le eq x) xs
      → All (Below le eq y) ys
      → any (eq x) (y ∷ ys) ≡ true
      → any (eq y) (x ∷ xs) ≡ true
      → x ≡ y
  unfolding any
  heads x y xs ys hx hy mx my = elim (Bool-cases (eq x y)) [
    | inl same ↦ (o.same x y).0 same
    | inr other ↦
        let turned : eq y x ≡ false = elim (Bool-cases (eq y x)) [
          | inl e ↦ cc ((o.same x y).1 (sym ((o.same y x).0 e)), other)
          | inr f ↦ f
        ] in
        o.antisym x y (le_of_member x y xs hx (rw turned at my))
          (le_of_member y x ys hy (rw other at mx))
  ]

  own : (x : A) (xs : List A) → any (eq x) (x ∷ xs) ≡ true
  unfolding any
  own x xs = rw ((o.same x x).1 refl)

  tails :
      (x : A) (xs ys : List A)
      → All (Below le eq x) xs
      → All (Below le eq x) ys
      → ((v : A) → any (eq v) (x ∷ xs) ≡ any (eq v) (x ∷ ys))
      → (v : A) → any (eq v) xs ≡ any (eq v) ys
  unfolding any
  tails x xs ys hx hy h v = elim (Bool-cases (eq v x)) [
    | inl same ↦ rw ((o.same v x).0 same) (absent x xs hx ∙ sym (absent x ys hy))
    | inr other ↦ rw other at (h v)
  ]

  -- An empty list has not the members of one that is not.
  empty_members : (x : A) (xs : List A) → any (eq x) [] ≡ any (eq x) (x ∷ xs) → false ≡ true
  unfolding any
  empty_members x xs h = h ∙ own x xs

  -- Two lists that climb and have the same members are the same list.
  pub Climbs-unique :
      (xs ys : List A)
      → Climbs le eq xs
      → Climbs le eq ys
      → ((v : A) → any (eq v) xs ≡ any (eq v) ys)
      → xs ≡ ys
  Climbs-unique [] [] hx hy h = refl
  Climbs-unique [] (y ∷ ys) hx hy h = cc (empty_members y ys (h y))
  Climbs-unique (x ∷ xs) [] hx hy h = cc (empty_members x xs (sym (h x)))
  Climbs-unique (x ∷ xs) (y ∷ ys) (bx, hx) (by_y, hy) h =
      let e : x ≡ y = heads x y xs ys bx by_y (sym (h x) ∙ own x xs) (h y ∙ own y ys) in
      let by_x : All (Below le eq x) ys = rw e by_y in
      let h' : (v : A) → any (eq v) (x ∷ xs) ≡ any (eq v) (x ∷ ys) =
        λ v. h v ∙ ap (λ t. any (eq v) (t ∷ ys)) (sym e) in
      ap₂ ◌∷◌ e (Climbs-unique xs ys hx hy (tails x xs ys bx by_x h'))
