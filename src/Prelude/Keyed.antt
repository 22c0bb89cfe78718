-- ===== src/Prelude/Keyed.antt =====
-- Rows with a text for a key: searching, counting and rewriting the rows of a table.
use Prim.Native.Nat.{◌+◌}
use mathlib.Core.Path.{◌≡◌, refl, ap}
use mathlib.Core.Bool.{Bool, true, false, not, ◌&&◌, ◌||◌}
use mathlib.Core.List.{List, [], ◌∷◌, ◌++◌, map}
use mathlib.Core.Option.{none, some}
use native.Mathlib.Omega.{arith}
use mathlib.Core.Logic.{inl, inr}
use satunera.Prelude.Options.{some-inj}
use satunera.Prelude.Tests.{if◌then◌else◌, Bool-cases}
use satunera.Prelude.Lists.{find?, any, count, All}
use satunera.Prelude.Strings.{Text, text_eq, text_eq_iff}

module _ {ℓ} {A : Type ℓ} (p : A → Bool) where
  pub any-append : (xs ys : List A) → any p (xs ++ ys) ≡ (any p xs || any p ys)
  unfolding any
  any-append [] ys = refl
  any-append (x ∷ xs) ys = ground (arith, any-append xs ys)

  pub count-append : (xs ys : List A) → count p (xs ++ ys) ≡ count p xs + count p ys
  unfolding count
  count-append [] ys = omega arith
  count-append (x ∷ xs) ys = omega (arith, count-append xs ys)

  pub find?-append_of_none : (xs ys : List A) → find? p xs ≡ none → find? p (xs ++ ys) ≡ find? p ys
  unfolding find?
  find?-append_of_none [] ys h = refl
  find?-append_of_none (x ∷ xs) ys h = ground (arith, find?-append_of_none xs ys)

  pub find?-append_of_some :
      (xs ys : List A) (a : A) → find? p xs ≡ some a → find? p (xs ++ ys) ≡ some a
  unfolding find?
  find?-append_of_some [] ys a h = cc
  find?-append_of_some (x ∷ xs) ys a h = ground (arith, find?-append_of_some xs ys a)

  pub any_of_find? : (xs : List A) (a : A) → find? p xs ≡ some a → any p xs ≡ true
  unfolding find? any
  any_of_find? [] a h = cc
  any_of_find? (x ∷ xs) a h = ground (arith, any_of_find? xs a)

  pub find?-none_of_any : (xs : List A) → any p xs ≡ false → find? p xs ≡ none
  unfolding find? any
  find?-none_of_any [] h = refl
  find?-none_of_any (x ∷ xs) h = ground (arith, find?-none_of_any xs)

  pub any-false_of_find? : (xs : List A) → find? p xs ≡ none → any p xs ≡ false
  unfolding find? any
  any-false_of_find? [] h = refl
  any-false_of_find? (x ∷ xs) h = ground (arith, any-false_of_find? xs)

  pub count-zero_of_any : (xs : List A) → any p xs ≡ false → count p xs ≡ 0
  unfolding count any
  count-zero_of_any [] h = refl
  count-zero_of_any (x ∷ xs) h = ground (arith, count-zero_of_any xs)

-- A rewriting of the rows that the test does not see.
module _ {ℓ} {A : Type ℓ} (p : A → Bool) (f : A → A) (same : (x : A) → p (f x) ≡ p x) where
  pub any-map : (xs : List A) → any p (map f xs) ≡ any p xs
  unfolding any
  any-map [] = refl
  any-map (x ∷ xs) = rw (same x, any-map xs)

  pub count-map : (xs : List A) → count p (map f xs) ≡ count p xs
  unfolding count
  count-map [] = refl
  count-map (x ∷ xs) = rw (same x, count-map xs)

  pub find?-map_of_none : (xs : List A) → find? p xs ≡ none → find? p (map f xs) ≡ none
  unfolding find?
  find?-map_of_none [] h = refl
  find?-map_of_none (x ∷ xs) h = ground (arith, same x, find?-map_of_none xs)

  pub find?-map_of_some :
      (xs : List A) (a : A) → find? p xs ≡ some a → find? p (map f xs) ≡ some (f a)
  unfolding find?
  find?-map_of_some [] a h = cc
  find?-map_of_some (x ∷ xs) a h = ground (arith, same x, find?-map_of_some xs a)

module _ {ℓ κ} {A : Type ℓ} (P : A → Type κ) (f : A → A) where
  pub All-map : ((x : A) → P x → P (f x)) → (xs : List A) → All P xs → All P (map f xs)
  All-map g [] h = tt
  All-map g (x ∷ xs) (p, h) = (g x p, All-map g xs h)

-- Rows that differ in their keys.
module _ {ℓ} {A : Type ℓ} (key : A → Text) where
  abbrev pub has_key : Text → A → Bool
  has_key k x = text_eq (key x) k

  abbrev pub Distinct : List A → Type 0
  Distinct [] = Unit
  Distinct (x ∷ xs) = (any (has_key (key x)) xs ≡ false) × Distinct xs

  abbrev pub are_distinct : List A → Bool
  are_distinct [] = true
  are_distinct (x ∷ xs) = not (any (has_key (key x)) xs) && are_distinct xs

  -- The rows with the key rewritten.
  unfoldable pub update : Text → (A → A) → A → A
  update k f x = if text_eq (key x) k then f x else x

module _ {ℓ} {A : Type ℓ} (key : A → Text) where
  pub Distinct-are_distinct : (xs : List A) → are_distinct key xs ≡ true → Distinct key xs
  Distinct-are_distinct [] h = tt
  Distinct-are_distinct (x ∷ xs) h = (ground arith, Distinct-are_distinct xs (ground arith))

  pub Distinct-append :
      (xs : List A) (x : A)
      → any (has_key key (key x)) xs ≡ false
      → Distinct key xs
      → Distinct key (xs ++ x ∷ [])
  unfolding any
  Distinct-append [] x h d = (refl, tt)
  Distinct-append (y ∷ xs) x h (fresh, d) = (
    rw (any-append (has_key key (key y)) xs (x ∷ []))
        (ground (arith, text_eq_iff (key y) (key x), text_eq_iff (key x) (key y))),
    Distinct-append xs x (ground arith) d,
  )

-- A rewriting that keeps the keys, and leaves the rows with other keys than `k` alone.
module _ {ℓ} {A : Type ℓ} (key : A → Text) (f : A → A) (keeps : (x : A) → key (f x) ≡ key x) where
  pub Distinct-map : (xs : List A) → Distinct key xs → Distinct key (map f xs)
  Distinct-map [] d = tt
  Distinct-map (x ∷ xs) (fresh, d) = (
    rw
        (
          any-map (has_key key (key (f x))) f (λ y. ap (λ t. text_eq t (key (f x))) (keeps y)) xs,
          keeps x,
        )
        fresh,
    Distinct-map xs d,
  )

module _ {ℓ} {A : Type ℓ} (key : A → Text) (f : A → A) (k : Text)
    (misses : (x : A) → text_eq (key x) k ≡ false → f x ≡ x) where
  pub map_absent : (xs : List A) → any (has_key key k) xs ≡ false → map f xs ≡ xs
  unfolding any
  map_absent [] h = refl
  map_absent (x ∷ xs) h = ground (arith, misses x, map_absent xs)

  -- After one row is rewritten, a count changes by that row.
  pub count-update :
      (p : A → Bool) (xs : List A) (a : A)
      → Distinct key xs
      → find? (has_key key k) xs ≡ some a
      → count p (map f xs) + (if p a then 1 else 0) ≡ count p xs + (if p (f a) then 1 else 0)
  unfolding count find?
  count-update p [] a d h = cc
  count-update p (x ∷ xs) a (fresh, d) h = elim (Bool-cases (text_eq (key x) k)) [
    | inl here ↦
        let same : key x ≡ k = (text_eq_iff (key x) k).0 here in
        let absent : any (has_key key k) xs ≡ false = rw same at fresh in
        let found : x ≡ a = some-inj (rw here at h) in
        rw (map_absent xs absent, found) (omega arith)
    | inr away ↦
        let later : find? (has_key key k) xs ≡ some a = rw away at h in
        rw (misses x away) (omega (arith, count-update p xs a d later))
  ]

  -- A row that comes to pass a test makes the table pass it.
  pub any-update :
      (p : A → Bool) (xs : List A) (a : A)
      → Distinct key xs
      → find? (has_key key k) xs ≡ some a
      → p a ≡ false
      → any p (map f xs) ≡ (any p xs || p (f a))
  unfolding any find?
  any-update p [] a d h e = cc
  any-update p (x ∷ xs) a (fresh, d) h e = elim (Bool-cases (text_eq (key x) k)) [
    | inl here ↦
        let same : key x ≡ k = (text_eq_iff (key x) k).0 here in
        let absent : any (has_key key k) xs ≡ false = rw same at fresh in
        let found : x ≡ a = some-inj (rw here at h) in
        rw (map_absent xs absent, found, e) (ground arith)
    | inr away ↦
        let later : find? (has_key key k) xs ≡ some a = rw away at h in
        rw (misses x away, any-update p xs a d later e) (ground arith)
  ]

  -- A property of every row, after one row is rewritten.
  pub All-update {κ} :
      (P : A → Type κ) (xs : List A) (a : A)
      → Distinct key xs
      → find? (has_key key k) xs ≡ some a
      → All P xs
      → P (f a)
      → All P (map f xs)
  unfolding find?
  All-update P [] a d h all q = tt
  All-update P (x ∷ xs) a (fresh, d) h (p, all) q = elim (Bool-cases (text_eq (key x) k)) [
    | inl here ↦
        let same : key x ≡ k = (text_eq_iff (key x) k).0 here in
        let absent : any (has_key key k) xs ≡ false = rw same at fresh in
        let found : x ≡ a = some-inj (rw here at h) in (rw found q, rw (map_absent xs absent) all)
    | inr away ↦
        let later : find? (has_key key k) xs ≡ some a = rw away at h in
        (rw (misses x away) p, All-update P xs a d later all q)
  ]
