-- ===== src/Store/Blob/Paths.antt =====
-- Where the blobs of crates/satunera-store/src/blob.rs stand: the assertion of `path_for`.
use satunera.Prelude.{
  ℕ, zero, suc, ◌+◌, ◌/◌, ◌%◌, ltb, true, false, ◌≡◌, ◌==◌, ◌&&◌, refl, ap, ◌∙◌, inl, inr, List, [],
  ◌∷◌, ◌++◌, map, some, Text, codes, text_eq, all, length, not, filter, All, All-append, some-inj,
  Bool-cases, and-true, arith,
}
use mathlib.Core.List.{append_assoc}
use satunera.Prelude.Split.{join_with}
use satunera.Contracts.Source.Safety.{IsPlainChar, IsSegment, IsRelative}
use satunera.Contracts.Source.Disk.{normal}
use satunera.Contracts.Source.Dir.Contents.{steps-join_with}
use satunera.Store.Codec.{Codec}
use satunera.Store.Blob.{
  is_hex, from_hex, BlobKind, source, log, digits, blob_key, is_normal, is_cur_dir, components,
  path_join, path_for,
}

-- A text that is a segment because it has no character but letters and digits.
abbrev pub IsAlphanumeric : ℕ → Type 0
IsAlphanumeric d =
    ((d == b'/') ≡ false) × ((d == 0x5c) ≡ false) × ((d == b':') ≡ false) × ((d == b'.') ≡ false)

All-IsPlainChar : (s : Text) → All IsAlphanumeric s → All IsPlainChar s
All-IsPlainChar [] h = tt
All-IsPlainChar (d ∷ s) ((a, b, e, f), h) = ((a, b, e), All-IsPlainChar s h)

pub alphanumeric-IsSegment : (s : Text) → text_eq s [] ≡ false → All IsAlphanumeric s → IsSegment s
unfolding text_eq
alphanumeric-IsSegment [] e h = cc
alphanumeric-IsSegment (d ∷ s) e h = record {
  nonempty = refl;
  not_dot = ground arith;
  not_dot_dot = ground arith;
  plain = All-IsPlainChar (d ∷ s) h;
}

All-hex : (s : Text) → all is_hex s ≡ true → All IsAlphanumeric s
unfolding all
All-hex [] h = tt
All-hex (d ∷ s) h =
    let (first, rest) = and-true (is_hex d) (all is_hex s) h in
    ((ground arith, ground arith, ground arith, ground arith), All-hex s rest)

from_hex-IsSegment : (value hash : Text) → from_hex value ≡ some hash → IsSegment hash
unfolding from_hex text_eq
from_hex-IsSegment [] hash h = cc
from_hex-IsSegment (d ∷ s) hash h = elim (Bool-cases (length (d ∷ s) == 64 && all is_hex (d ∷ s))) [
  | inl good ↦
      let hex = and-true (length (d ∷ s) == 64) (all is_hex (d ∷ s)) good in
      rw (← some-inj (rw good at h)) (alphanumeric-IsSegment (d ∷ s) refl (All-hex (d ∷ s) hex.1))
  | inr bad ↦ cc (rw bad at h)
]

digit : (n : ℕ) → IsAlphanumeric (b'0' + n % 10)
digit n = (ground arith, ground arith, ground arith, ground arith)

All-digits : (fuel n : ℕ) → All IsAlphanumeric (digits fuel n)
unfolding digits
All-digits zero n = (digit n, tt)
All-digits (suc fuel) n = elim (Bool-cases (ltb n 10)) [
  | inl small ↦ rw small ((ground arith, ground arith, ground arith, ground arith), tt)
  | inr large ↦ rw large (
      All-append IsAlphanumeric (digits fuel (n / 10)) ((b'0' + n % 10) ∷ [])
        (All-digits fuel (n / 10)) (digit n, tt))
]

append-nonempty : (s : Text) (d : ℕ) → text_eq (s ++ d ∷ []) [] ≡ false
unfolding text_eq
append-nonempty [] d = refl
append-nonempty (e ∷ s) d = refl

digits-nonempty : (fuel n : ℕ) → text_eq (digits fuel n) [] ≡ false
unfolding digits text_eq
digits-nonempty zero n = refl
digits-nonempty (suc fuel) n = elim (Bool-cases (ltb n 10)) [
  | inl small ↦ rw small refl
  | inr large ↦ rw large (append-nonempty (digits fuel (n / 10)) (b'0' + n % 10))
]

all_normal :
    (names : List Text) → all is_normal (filter (λ s. not (is_cur_dir s)) (map normal names)) ≡ true
unfolding all filter
all_normal [] = refl
all_normal (name ∷ names) = all_normal names

components-join_with :
    (name : Text) (names : List Text)
    → All IsSegment (name ∷ names)
    → all is_normal (components (join_with b'/' (name ∷ names))) ≡ true
unfolding components
components-join_with name names h = rw (steps-join_with name names h) (all_normal (name ∷ names))

-- The hash of a source is one that `from_hex` accepts, and the text of a submission's id is a segment.
abbrev pub IsKeyable : {Ulid Time : Type 0} → Codec Ulid Time → BlobKind Ulid → Type 0
IsKeyable c (source hash) = (value : Text) × (from_hex value ≡ some hash)
IsKeyable c (log submission attempt) = IsSegment (c.ulid_text submission)

abbrev blobs_dir : Text
blobs_dir = codes "blobs"

blobs_dir-IsSegment : IsSegment blobs_dir
unfolding text_eq
blobs_dir-IsSegment = alphanumeric-IsSegment blobs_dir refl (
  (refl, refl, refl, refl),
  (
    (refl, refl, refl, refl),
    ((refl, refl, refl, refl), ((refl, refl, refl, refl), ((refl, refl, refl, refl), tt))),
  ),
)

abbrev logs_dir : Text
logs_dir = codes "logs"

logs_dir-IsSegment : IsSegment logs_dir
unfolding text_eq
logs_dir-IsSegment = alphanumeric-IsSegment logs_dir refl (
  (refl, refl, refl, refl),
  ((refl, refl, refl, refl), ((refl, refl, refl, refl), ((refl, refl, refl, refl), tt))),
)

module _ {Ulid Time : Type 0} (c : Codec Ulid Time) where
  below_root :
      (root : Text) (kind : BlobKind Ulid) (name : Text) (names : List Text)
      → blob_key c kind ≡ join_with b'/' (name ∷ names)
      → All IsSegment (name ∷ names)
      → IsRelative (blob_key c kind)
        × (path_for c root kind ≡ some (path_join root (blob_key c kind)))
  unfolding path_for
  below_root root kind name names e h = (
    record { first = name; others = names; joins = e; safe = h },
    rw (ap (λ k. all is_normal (components k)) e ∙ components-join_with name names h) refl,
  )

  -- The key of a blob stays below the root of the store: it is one or more safe segments, so the
  -- assertion of `path_for` never fails, and the path is the key joined to the root. The hash of a source is
  -- one that `from_hex` accepts, and the text of a submission's id is a segment.
  pub path_for-blob_key :
      (root : Text) (kind : BlobKind Ulid)
      → IsKeyable c kind
      → IsRelative (blob_key c kind)
        × (path_for c root kind ≡ some (path_join root (blob_key c kind)))
  unfolding blob_key join_with
  path_for-blob_key root (source hash) (value, h) =
      below_root root (source hash) blobs_dir (hash ∷ []) refl
        (blobs_dir-IsSegment, (from_hex-IsSegment value hash h, tt))
  path_for-blob_key root (log submission attempt) h =
      below_root root (log submission attempt) logs_dir
        (c.ulid_text submission ∷ digits attempt attempt ∷ [])
        (ap (λ s. codes "logs/" ++ s)
          (append_assoc (c.ulid_text submission) (b'/' ∷ []) (digits attempt attempt)))
        (
          logs_dir-IsSegment,
          (
            h,
            (
              alphanumeric-IsSegment (digits attempt attempt) (digits-nonempty attempt attempt)
                  (All-digits attempt attempt),
              tt,
            ),
          ),
        )
