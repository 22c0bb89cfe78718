-- ===== src/Contracts/Source/Stable.antt =====
-- A normalised path is a fixed point of `normalize` of crates/satunera-contracts/src/source.rs.
use satunera.Prelude.{
  ℕ, false, ◌==◌, ◌≡◌, refl, sym, ap, ◌∙◌, List, [], ◌∷◌, ◌++◌, map, Text, text_eq, any, All, arith,
}
use mathlib.Core.List.{append_assoc, append-nil}
use satunera.Prelude.Split.{join_with}
use satunera.Prelude.Split.Laws.{split_on-join_with, All-join_with, Avoids}
use satunera.Contracts.Source.Normalize.{
  ok, slashed, strip_dot_slash, is_empty, starts_with_slash, push_segments, normalize,
}
use satunera.Contracts.Source.Safety.{IsPlainChar, IsSegment, normalize-IsRelative}

map-slashed : (s : Text) → All (λ c. (c == 0x5c) ≡ false) s → map slashed s ≡ s
map-slashed [] h = refl
map-slashed (c ∷ s) (p, h) = rw (p, map-slashed s h)

push_segments-append :
    (path : Text) (out segments : List Text)
    → All IsSegment segments
    → push_segments path out segments ≡ ok (out ++ segments)
unfolding push_segments
push_segments-append path out [] h = ap ok (sym (append-nil out))
push_segments-append path out (s ∷ segments) (p, h) =
    rw (p.nonempty, p.not_dot, p.not_dot_dot)
      (push_segments-append path (out ++ s ∷ []) segments h
        ∙ ap ok (append_assoc out (s ∷ []) segments))

-- What a joined path begins with: a character that is no slash.
strip_dot_slash-segment :
    (w rest : Text) → IsSegment w → strip_dot_slash (w ++ b'/' ∷ rest) ≡ w ++ b'/' ∷ rest
unfolding strip_dot_slash text_eq
strip_dot_slash-segment [] rest p = cc (p.nonempty)
strip_dot_slash-segment (c ∷ []) rest p = ground (arith, p.not_dot)
strip_dot_slash-segment (c ∷ d ∷ w) rest p = ground (arith, p.plain.1.0.0)

strip_dot_slash-last : (w : Text) → IsSegment w → strip_dot_slash w ≡ w
unfolding strip_dot_slash
strip_dot_slash-last [] p = refl
strip_dot_slash-last (c ∷ []) p = refl
strip_dot_slash-last (c ∷ d ∷ w) p = ground (arith, p.plain.1.0.0)

strip_dot_slash-join :
    (w : Text) (ws : List Text)
    → IsSegment w
    → strip_dot_slash (join_with b'/' (w ∷ ws)) ≡ join_with b'/' (w ∷ ws)
unfolding join_with
strip_dot_slash-join w [] p = strip_dot_slash-last w p
strip_dot_slash-join w (v ∷ ws) p = strip_dot_slash-segment w (join_with b'/' (v ∷ ws)) p

pub starts_plain :
    (w : Text) (ws : List Text)
    → IsSegment w
    → (is_empty (join_with b'/' (w ∷ ws)) ≡ false)
      × (starts_with_slash (join_with b'/' (w ∷ ws)) ≡ false)
unfolding join_with text_eq
starts_plain [] ws p = cc (p.nonempty)
starts_plain (c ∷ w) [] p = (refl, p.plain.0.0)
starts_plain (c ∷ w) (v ∷ ws) p = (refl, p.plain.0.0)

any-colon : (s : Text) → All (λ c. (c == b':') ≡ false) s → any (λ c. c == b':') s ≡ false
unfolding any
any-colon [] h = refl
any-colon (c ∷ s) (p, h) = rw (p, any-colon s h)

-- Properties of the characters of a join, but for its slashes.
module _ (Q : ℕ → Type 0) (slash : Q b'/') (weaken : (c : ℕ) → IsPlainChar c → Q c) where
  All-segment : (s : Text) → All IsPlainChar s → All Q s
  All-segment [] h = tt
  All-segment (c ∷ s) (p, h) = (weaken c p, All-segment s h)

  All-segments : (ws : List Text) → All IsSegment ws → All (All Q) ws
  All-segments [] h = tt
  All-segments (w ∷ ws) (p, h) = (All-segment w p.plain, All-segments ws h)

  All-joined : (ws : List Text) → All IsSegment ws → All Q (join_with b'/' ws)
  All-joined ws h = All-join_with b'/' Q slash ws (All-segments ws h)

pub Avoids-segment : (s : Text) → All IsPlainChar s → Avoids b'/' s
Avoids-segment [] h = tt
Avoids-segment (c ∷ s) (p, h) = (p.0, Avoids-segment s h)

pub Avoids-segments : (ws : List Text) → All IsSegment ws → All (Avoids b'/') ws
Avoids-segments [] h = tt
Avoids-segments (w ∷ ws) (p, h) = (Avoids-segment w p.plain, Avoids-segments ws h)

pub normalize-join :
    (w : Text) (ws : List Text)
    → All IsSegment (w ∷ ws)
    → normalize (join_with b'/' (w ∷ ws)) ≡ ok (join_with b'/' (w ∷ ws))
unfolding normalize
normalize-join w ws h =
    let key = join_with b'/' (w ∷ ws) in
    let (nonempty, relative) = starts_plain w ws h.0 in
    let no_backslash = All-joined (λ c. (c == 0x5c) ≡ false) refl (λ c p. p.1) (w ∷ ws) h in
    let no_colon =
      any-colon key (All-joined (λ c. (c == b':') ≡ false) refl (λ c p. p.2) (w ∷ ws) h) in
    rw
      (
        map-slashed key no_backslash,
        strip_dot_slash-join w ws h.0,
        nonempty,
        relative,
        no_colon,
        split_on-join_with b'/' w ws (Avoids-segments (w ∷ ws) h),
        push_segments-append key [] (w ∷ ws) h,
      )
      refl

-- Normalising a path that was accepted changes nothing.
pub normalize_idempotent : (path key : Text) → normalize path ≡ ok key → normalize key ≡ ok key
normalize_idempotent path key e =
    let r = normalize-IsRelative path key e in rw r.joins (normalize-join r.first r.others r.safe)
