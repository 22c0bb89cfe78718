-- ===== src/Prelude/Split/Trims.antt =====
-- `trim` at a text with whitespace after it, and the lines of a text that are not blank.
use Prim.Native.Nat.{ℕ}
use mathlib.Core.Path.{◌≡◌, refl, sym, ap, ◌∙◌}
use mathlib.Core.Logic.{◌⊎◌, inl, inr}
use mathlib.Core.Bool.{Bool, true, false}
use mathlib.Core.List.{List, [], ◌∷◌, ◌++◌, map, reverse, reverse-cons, reverse-append}
use mathlib.Core.Option.{Option, none, some}
use native.Mathlib.Omega.{arith}
use satunera.Prelude.Tests.{◌==◌, ==_iff, if◌then◌else◌, Bool-cases}
use satunera.Prelude.Lists.{find?, All}
use satunera.Prelude.Options.{or_option}
use satunera.Prelude.Strings.{Text}
use satunera.Prelude.Split.{is_whitespace, trim_start, trim, strip_return, ended}

module _ (c : ℕ) (blank : is_whitespace c ≡ true) where
  -- At the end of a text it goes with the rest, or it stays at the end.
  trim_start-append :
      (s : Text)
      → ((trim_start (s ++ c ∷ []) ≡ []) × (trim_start s ≡ []))
        ⊎ (trim_start (s ++ c ∷ []) ≡ trim_start s ++ c ∷ [])
  unfolding trim_start
  trim_start-append [] = inl (rw blank refl, refl)
  trim_start-append (d ∷ s) = elim (Bool-cases (is_whitespace d)) [
    | inl white ↦ rw white (trim_start-append s)
    | inr black ↦ rw black (inr refl)
  ]

  trim_start-cons : (s : Text) → trim_start (c ∷ s) ≡ trim_start s
  unfolding trim_start
  trim_start-cons s = rw blank refl

  trim-append : (s : Text) → trim (s ++ c ∷ []) ≡ trim s
  unfolding trim
  trim-append s = elim (trim_start-append s) [
    | inl (gone, nothing) ↦ rw (gone, nothing) refl
    | inr kept ↦
        rw (kept, reverse-append (trim_start s) (c ∷ []))
          (ap reverse (trim_start-cons (reverse (trim_start s))))
  ]

return_blank : (c : ℕ) → (c == 0xd) ≡ true → is_whitespace c ≡ true
unfolding is_whitespace
return_blank c h = rw ((==_iff c 0xd).0 h) refl

-- The return at the end of a line makes no difference once it is trimmed.
strip_return_cases :
    (w : Text)
    → (strip_return w ≡ w)
      ⊎ ((u : Text) × (c : ℕ) × (w ≡ u ++ c ∷ []) × ((c == 0xd) ≡ true) × (strip_return w ≡ u))
strip_return_cases [] = inl refl
strip_return_cases (c ∷ []) = elim (Bool-cases (c == 0xd)) [
  | inl same ↦ inr ([], c, refl, same, rw same refl)
  | inr other ↦ inl (rw other refl)
]
strip_return_cases (c ∷ d ∷ s) = elim (strip_return_cases (d ∷ s)) [
  | inl same ↦ inl (ap (◌∷◌ c) same)
  | inr (u, r, e, is_return, stripped) ↦
      inr (c ∷ u, r, ap (◌∷◌ c) e, is_return, ap (◌∷◌ c) stripped)
]

trim-strip_return : (w : Text) → trim (strip_return w) ≡ trim w
trim-strip_return w = elim (strip_return_cases w) [
  | inl same ↦ ap trim same
  | inr (u, c, e, is_return, stripped) ↦
      ap trim stripped ∙ sym (trim-append c (return_blank c is_return) u) ∙ sym (ap trim e)
]

-- The last of some pieces that passes a test once it is trimmed.
module _ (test : Text → Bool) where
  abbrev pub kept : Text → Option Text
  kept w = if test (trim w) then some (trim w) else none

  abbrev pub last_kept : List Text → Option Text
  last_kept [] = none
  last_kept (w ∷ ws) = or_option (last_kept ws) (kept w)

  find?-append_or :
      (xs ys : List Text) → find? test (xs ++ ys) ≡ or_option (find? test xs) (find? test ys)
  unfolding find?
  find?-append_or [] ys = refl
  find?-append_or (x ∷ xs) ys = ground (arith, find?-append_or xs ys)

  map-append : (xs ys : List Text) → map trim (xs ++ ys) ≡ map trim xs ++ map trim ys
  map-append [] ys = refl
  map-append (x ∷ xs) ys = ap (◌∷◌ (trim x)) (map-append xs ys)

  -- A search from the back finds it.
  pub find?-reverse : (ws : List Text) → find? test (map trim (reverse ws)) ≡ last_kept ws
  unfolding find?
  find?-reverse [] = refl
  find?-reverse (w ∷ ws) =
      rw
        (
          reverse-cons w ws,
          map-append (reverse ws) (w ∷ []),
          find?-append_or (map trim (reverse ws)) (trim w ∷ []),
          find?-reverse ws,
        )
        refl

  kept-strip_return : (w : Text) → kept (strip_return w) ≡ kept w
  kept-strip_return w = ap (λ t. if test t then some t else none) (trim-strip_return w)

  -- The lines of a text keep what its pieces keep, when the empty text does not pass.
  pub last_kept-ended :
      test (trim []) ≡ false → (ws : List Text) → last_kept (ended ws) ≡ last_kept ws
  last_kept-ended h [] = refl
  last_kept-ended h ([] ∷ []) = rw h refl
  last_kept-ended h ((c ∷ s) ∷ []) = refl
  last_kept-ended h (w ∷ v ∷ ws) = rw (last_kept-ended h (v ∷ ws), kept-strip_return w) refl

  last_kept-none : (ws : List Text) → All (λ w. test (trim w) ≡ false) ws → last_kept ws ≡ none
  last_kept-none [] h = refl
  last_kept-none (w ∷ ws) (here, h) = rw (last_kept-none ws h, here) refl

  -- What stands before the last that passes does not matter.
  pub last_kept-append :
      (earlier later : List Text) (line : Text)
      → test (trim line) ≡ true
      → All (λ w. test (trim w) ≡ false) later
      → last_kept (earlier ++ line ∷ later) ≡ some (trim line)
  last_kept-append [] later line h blank = rw (last_kept-none later blank, h) refl
  last_kept-append (w ∷ earlier) later line h blank =
      rw (last_kept-append earlier later line h blank) refl
