-- ===== src/Prelude/Split/Laws.antt =====
-- Splitting a text at a character and joining the pieces again.
use Prim.Native.Nat.{ℕ}
use mathlib.Core.Path.{◌≡◌, refl, ap, ◌∙◌}
use mathlib.Core.Logic.{inl, inr}
use mathlib.Core.Bool.{false}
use mathlib.Core.List.{List, [], ◌∷◌, ◌++◌}
use satunera.Prelude.Tests.{◌==◌, Bool-cases, ==_iff}
use native.Mathlib.Omega.{arith}
use satunera.Prelude.Lists.{All, All-append, any}
use satunera.Prelude.Strings.{Text}
use satunera.Prelude.Split.{push_first, split_on, join_with}

-- A text without the separator.
abbrev pub Avoids : ℕ → Text → Type 0
Avoids sep s = All (λ c. (c == sep) ≡ false) s

pub Avoids-any : (sep : ℕ) (s : Text) → any (λ c. c == sep) s ≡ false → Avoids sep s
unfolding any
Avoids-any sep [] h = tt
Avoids-any sep (c ∷ s) h = (ground arith, Avoids-any sep s (ground arith))

module _ (sep : ℕ) (R Q : ℕ → Type 0) (weaken : (c : ℕ) → R c → (c == sep) ≡ false → Q c) where
  All-push_first : (c : ℕ) (ws : List Text) → Q c → All (All Q) ws → All (All Q) (push_first c ws)
  All-push_first c [] q h = ((q, tt), tt)
  All-push_first c (w ∷ ws) q (here, later) = ((q, here), later)

  -- What holds of the characters holds of those of the pieces, which are not the separator.
  pub All-split_on : (s : Text) → All R s → All (All Q) (split_on sep s)
  unfolding split_on
  All-split_on [] h = (tt, tt)
  All-split_on (c ∷ s) (r, h) = elim (Bool-cases (c == sep)) [
    | inl at ↦ rw at (tt, All-split_on s h)
    | inr other ↦ rw other (All-push_first c (split_on sep s) (weaken c r other) (All-split_on s h))
  ]

module _ (sep : ℕ) where
  split_on_last : (w : Text) → Avoids sep w → split_on sep w ≡ w ∷ []
  unfolding split_on
  split_on_last [] h = refl
  split_on_last (c ∷ w) (here, h) = rw (here, split_on_last w h)

  split_on_first : (w s : Text) → Avoids sep w → split_on sep (w ++ sep ∷ s) ≡ w ∷ split_on sep s
  unfolding split_on
  split_on_first [] s h = rw ((==_iff sep sep).1 refl)
  split_on_first (c ∷ w) s (here, h) = rw (here, split_on_first w s h)

  -- The pieces come back from their join.
  pub split_on-join_with :
      (w : Text) (ws : List Text)
      → All (Avoids sep) (w ∷ ws)
      → split_on sep (join_with sep (w ∷ ws)) ≡ w ∷ ws
  unfolding join_with
  split_on-join_with w [] (h, _) = split_on_last w h
  split_on-join_with w (v ∷ ws) (h, hs) =
      split_on_first w (join_with sep (v ∷ ws)) h ∙ ap (◌∷◌ w) (split_on-join_with v ws hs)

  pub All-join_with :
      (Q : ℕ → Type 0) → Q sep → (ws : List Text) → All (All Q) ws → All Q (join_with sep ws)
  unfolding join_with
  All-join_with Q q [] h = tt
  All-join_with Q q (w ∷ []) (h, _) = h
  All-join_with Q q (w ∷ v ∷ ws) (h, hs) =
      All-append Q w (sep ∷ join_with sep (v ∷ ws)) h (q, All-join_with Q q (v ∷ ws) hs)
