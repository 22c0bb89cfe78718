-- ===== src/Contracts/Source/Dir/Prefixes.antt =====
-- What stands under a prefix: the test that `list` of `TarSource` of
-- crates/satunera-contracts/src/source.rs makes on paths, and the part of a directory that `DirSource`
-- walks.
use satunera.Prelude.{
  Bool, true, false, ◌&&◌, ◌||◌, ◌≡◌, refl, [], ◌∷◌, ◌++◌, Text, text_eq, starts_with, arith,
}
use mathlib.Core.List.{append_assoc}
use satunera.Prelude.Split.{join_with}
use satunera.Prelude.Split.Laws.{Avoids}
use satunera.Contracts.Source.Stable.{Avoids-segment}
use satunera.Contracts.Source.Tar.{under}
use satunera.Contracts.Source.Disk.{Place}
use satunera.Contracts.Source.Dir.Collected.{IsInside}

-- The place is the prefix or below it.
unfoldable pub is_prefix : Place → Place → Bool
is_prefix [] q = true
is_prefix (a ∷ p) [] = false
is_prefix (a ∷ p) (b ∷ q) = text_eq b a && is_prefix p q

starts_with-slash :
    (a b s t : Text)
    → Avoids b'/' a
    → Avoids b'/' b
    → starts_with (a ++ b'/' ∷ s) (b ++ b'/' ∷ t) ≡ (text_eq a b && starts_with s t)
unfolding starts_with text_eq
starts_with-slash [] [] s t h k = ground arith
starts_with-slash [] (d ∷ b) s t h (p, k) = ground arith
starts_with-slash (c ∷ a) [] s t (p, h) k = ground arith
starts_with-slash (c ∷ a) (d ∷ b) s t (p, h) (q, k) = ground (arith, starts_with-slash a b s t h k)

starts_with-last : (a b t : Text) → Avoids b'/' a → starts_with a (b ++ b'/' ∷ t) ≡ false
unfolding starts_with
starts_with-last [] [] t h = refl
starts_with-last [] (d ∷ b) t h = refl
starts_with-last (c ∷ a) [] t (p, h) = ground arith
starts_with-last (c ∷ a) (d ∷ b) t (p, h) = ground (arith, starts_with-last a b t h)

text_eq-slash :
    (a b s t : Text)
    → Avoids b'/' a
    → Avoids b'/' b
    → text_eq (a ++ b'/' ∷ s) (b ++ b'/' ∷ t) ≡ (text_eq a b && text_eq s t)
unfolding text_eq
text_eq-slash [] [] s t h k = ground arith
text_eq-slash [] (d ∷ b) s t h (p, k) = ground arith
text_eq-slash (c ∷ a) [] s t (p, h) k = ground arith
text_eq-slash (c ∷ a) (d ∷ b) s t (p, h) (q, k) = ground (arith, text_eq-slash a b s t h k)

text_eq-last : (a b t : Text) → Avoids b'/' a → text_eq a (b ++ b'/' ∷ t) ≡ false
unfolding text_eq
text_eq-last [] [] t h = refl
text_eq-last [] (d ∷ b) t h = refl
text_eq-last (c ∷ a) [] t (p, h) = ground arith
text_eq-last (c ∷ a) (d ∷ b) t (p, h) = ground (arith, text_eq-last a b t h)

last-text_eq : (a b s : Text) → Avoids b'/' b → text_eq (a ++ b'/' ∷ s) b ≡ false
unfolding text_eq
last-text_eq [] [] s h = refl
last-text_eq [] (d ∷ b) s (p, h) = ground arith
last-text_eq (c ∷ a) [] s h = refl
last-text_eq (c ∷ a) (d ∷ b) s (p, h) = ground (arith, last-text_eq a b s h)

-- On paths whose segments are safe, the test on the text is the test on the segments.
pub under-join_with :
    (p q : Place)
    → IsInside p
    → IsInside q
    → under (join_with b'/' p) (join_with b'/' q) ≡ is_prefix p q
unfolding under is_prefix join_with starts_with
under-join_with [] q h k = absurd h
under-join_with (a ∷ p) [] h k = absurd k
under-join_with (a ∷ []) (b ∷ []) (s, h) (t, k) =
    let y = Avoids-segment b t.plain in rw (starts_with-last b a [] y) (ground arith)
under-join_with (a ∷ []) (b ∷ d ∷ q) (s, h) (t, k) =
    let x = Avoids-segment a s.plain in
    let y = Avoids-segment b t.plain in
    rw
      (
        last-text_eq b a (join_with b'/' (d ∷ q)) x,
        starts_with-slash b a (join_with b'/' (d ∷ q)) [] y x,
      )
      (ground arith)
under-join_with (a ∷ c ∷ p) (b ∷ []) (s, h) (t, k) =
    let y = Avoids-segment b t.plain in
    rw
      (
        append_assoc a (b'/' ∷ join_with b'/' (c ∷ p)) (b'/' ∷ []),
        text_eq-last b a (join_with b'/' (c ∷ p)) y,
        starts_with-last b a (join_with b'/' (c ∷ p) ++ b'/' ∷ []) y,
      )
      (ground arith)
under-join_with (a ∷ c ∷ p) (b ∷ d ∷ q) (s, h) (t, k) =
    let x = Avoids-segment a s.plain in
    let y = Avoids-segment b t.plain in
    let later : (text_eq (join_with b'/' (d ∷ q)) (join_with b'/' (c ∷ p))
          || starts_with (join_with b'/' (d ∷ q)) (join_with b'/' (c ∷ p) ++ b'/' ∷ []))
        ≡ is_prefix (c ∷ p) (d ∷ q) =
      under-join_with (c ∷ p) (d ∷ q) h k in
    rw
      (
        append_assoc a (b'/' ∷ join_with b'/' (c ∷ p)) (b'/' ∷ []),
        text_eq-slash b a (join_with b'/' (d ∷ q)) (join_with b'/' (c ∷ p)) y x,
        starts_with-slash b a (join_with b'/' (d ∷ q)) (join_with b'/' (c ∷ p) ++ b'/' ∷ []) y x,
        ← later,
      )
      (ground arith)
