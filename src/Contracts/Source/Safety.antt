-- ===== src/Contracts/Source/Safety.antt =====
-- No path that `normalize` of crates/satunera-contracts/src/source.rs accepts can leave the directory.
use satunera.Prelude.{
  ℕ, false, ◌&&◌, ◌||◌, ◌==◌, ◌≡◌, refl, sym, inl, inr, List, [], ◌∷◌, ◌++◌, map, Text, codes,
  text_eq, any, All, All-append, arith, Bool-cases,
}
use satunera.Prelude.Split.{split_on, join_with}
use satunera.Prelude.Split.Laws.{All-split_on}
use satunera.Contracts.Source.Normalize.{
  Sourced, ok, err, slashed, strip_dot_slash, is_empty, starts_with_slash, push_segments, joined,
  normalize_trimmed, normalize, ◌>>=◌,
}

-- A character that separates nothing: no slash, no backslash, no colon.
abbrev pub IsPlainChar : ℕ → Type 0
IsPlainChar c = ((c == b'/') ≡ false) × ((c == 0x5c) ≡ false) × ((c == b':') ≡ false)

-- A segment that can be joined to a directory without leaving it.
pub record IsSegment (s : Text) : Type 0 where
  pub nonempty : text_eq s [] ≡ false
  pub not_dot : text_eq s (codes ".") ≡ false
  pub not_dot_dot : text_eq s (codes "..") ≡ false
  pub plain : All IsPlainChar s

-- At least one segment, all of them safe, with a slash between each two.
pub record IsRelative (key : Text) : Type 0 where
  pub first : Text
  pub others : List Text
  pub joins : key ≡ join_with b'/' (first ∷ others)
  pub safe : All IsSegment (first ∷ others)

-- What is left once backslashes are slashes and colons are refused.
abbrev IsHalfPlain : ℕ → Type 0
IsHalfPlain c = ((c == 0x5c) ≡ false) × ((c == b':') ≡ false)

All-slashed : (s : Text) → All (λ c. (c == 0x5c) ≡ false) (map slashed s)
All-slashed [] = tt
All-slashed (c ∷ s) = (ground arith, All-slashed s)

All-strip_dot_slash : (P : ℕ → Type 0) (s : Text) → All P s → All P (strip_dot_slash s)
unfolding strip_dot_slash
All-strip_dot_slash P [] h = h
All-strip_dot_slash P (c ∷ []) h = h
All-strip_dot_slash P (c ∷ d ∷ s) h = elim (Bool-cases (c == b'.' && d == b'/')) [
  | inl strip ↦ rw strip (All-strip_dot_slash P s h.1.1)
  | inr keep ↦ rw keep h
]

All-IsHalfPlain :
    (s : Text)
    → All (λ c. (c == 0x5c) ≡ false) s
    → any (λ c. c == b':') s ≡ false
    → All IsHalfPlain s
unfolding any
All-IsHalfPlain [] h e = tt
All-IsHalfPlain (c ∷ s) (p, h) e = ((p, ground arith), All-IsHalfPlain s h (ground arith))

pub ok_inj : {A : Type 0} {a b : A} → ok a ≡ ok b → a ≡ b
ok_inj h = cc

push_segments-IsSegment :
    (path : Text) (out segments r : List Text)
    → All IsSegment out
    → All (All IsPlainChar) segments
    → push_segments path out segments ≡ ok r
    → All IsSegment r
unfolding push_segments
push_segments-IsSegment path out [] r h p e = rw (← ok_inj e) h
push_segments-IsSegment path out (s ∷ segments) r h (plain, p) e =
    elim (Bool-cases (text_eq s [] || text_eq s (codes "."))) [
      | inl skip ↦ push_segments-IsSegment path out segments r h p (rw skip at e)
      | inr keep ↦ elim (Bool-cases (text_eq s (codes ".."))) [
        | inl up ↦ cc (rw (keep, up) at e)
        | inr down ↦
            let segment : IsSegment s = record {
              nonempty = ground arith;
              not_dot = ground arith;
              not_dot_dot = down;
              plain = plain;
            } in
            push_segments-IsSegment path (out ++ s ∷ []) segments r
              (All-append IsSegment out (s ∷ []) h (segment, tt)) p (rw (keep, down) at e)
      ]
    ]

joined-IsRelative :
    (path : Text) (r : List Text) (key : Text)
    → All IsSegment r
    → joined path r ≡ ok key
    → IsRelative key
joined-IsRelative path [] key h e = cc
joined-IsRelative path (w ∷ ws) key h e = record {
  first = w;
  others = ws;
  joins = sym (ok_inj e);
  safe = h;
}

pub bind-eq-ok :
    {A B : Type 0} (m : Sourced A) (rest : A → Sourced B) {out : B}
    → (m >>= rest) ≡ ok out
    → (given : A) × (m ≡ ok given) × (rest given ≡ ok out)
bind-eq-ok (ok given) rest h = (given, refl, h)
bind-eq-ok (err e) rest h = cc

normalize_trimmed-IsRelative :
    (path trimmed key : Text)
    → All (λ c. (c == 0x5c) ≡ false) trimmed
    → normalize_trimmed path trimmed ≡ ok key
    → IsRelative key
normalize_trimmed-IsRelative path trimmed key h e = elim (Bool-cases (is_empty trimmed)) [
  | inl empty ↦ cc (rw empty at e)
  | inr some_text ↦ elim (Bool-cases (starts_with_slash trimmed || any (λ c. c == b':') trimmed)) [
    | inl bad ↦ cc (rw (some_text, bad) at e)
    | inr good ↦
        let (r, pushed, made) =
          bind-eq-ok (push_segments path [] (split_on b'/' trimmed)) (joined path)
            (rw (some_text, good) at e) in
        let half = All-IsHalfPlain trimmed h (ground arith) in
        let plain =
          All-split_on b'/' IsHalfPlain IsPlainChar (λ c p q. (q, p.0, p.1)) trimmed half in
        joined-IsRelative path r key
          (push_segments-IsSegment path [] (split_on b'/' trimmed) r tt plain pushed) made
  ]
]

-- A path that is accepted has become one or more segments with a slash between each two, none of them
-- empty, `.` or `..`, and none with a slash, a backslash or a colon in it.
pub normalize-IsRelative : (path key : Text) → normalize path ≡ ok key → IsRelative key
unfolding normalize
normalize-IsRelative path key e =
    normalize_trimmed-IsRelative path (strip_dot_slash (map slashed path)) key
      (All-strip_dot_slash (λ c. (c == 0x5c) ≡ false) (map slashed path) (All-slashed path)) e
