-- ===== src/Store/Blob/Laws.antt =====
-- What is put is got back, what is half put is not seen, and no temporary file stays behind.
use satunera.Prelude.{
  ℕ, zero, suc, ◌+◌, ◌/◌, ◌%◌, ltb, Bool, true, false, ◌≡◌, ◌==◌, refl, sym, ◌∙◌, inl, inr, List,
  [], ◌∷◌, ◌++◌, none, some, Text, codes, text_eq, text_eq_iff, apart, text_eq_refl, all, any,
  if◌then◌else◌, Bool-cases, arith,
}
use satunera.Prelude.Keyed.{any-append}
use satunera.Store.Codec.{Codec}
use satunera.Store.Blob.{
  is_hex, from_hex, BlobKind, source, log, digits, Files, read_file, remove_file, write_file,
  rename_file, before_dot, with_extension, blob_key, uri, put_temporary, put, get_blob, bytes_of,
}

abbrev pub has_dot : Text → Bool
has_dot s = any (λ c. c == b'.') s

before_dot-plain : (s : Text) → has_dot s ≡ false → before_dot s ≡ none
unfolding before_dot any
before_dot-plain [] h = refl
before_dot-plain (c ∷ s) h = rw (before_dot-plain s (ground arith)) (ground arith)

has_dot-all : (s : Text) → all is_hex s ≡ true → has_dot s ≡ false
unfolding all any
has_dot-all [] h = refl
has_dot-all (c ∷ s) h = ground (arith, has_dot-all s)

has_dot-digits : (fuel n : ℕ) → has_dot (digits fuel n) ≡ false
unfolding digits any
has_dot-digits zero n = ground arith
has_dot-digits (suc fuel) n = elim (Bool-cases (ltb n 10)) [
  | inl small ↦ rw small (ground arith)
  | inr large ↦
      rw
        (
          large,
          any-append (λ c. c == b'.') (digits fuel (n / 10)) ((b'0' + n % 10) ∷ []),
          has_dot-digits fuel (n / 10),
        )
        (ground arith)
]

has_dot-append : (s t : Text) → has_dot s ≡ false → has_dot t ≡ false → has_dot (s ++ t) ≡ false
has_dot-append s t h k = rw (any-append (λ c. c == b'.') s t, h, k) refl

module _ (path : Text) where
  read-remove :
      (q : Text) (files : Files)
      → read_file q (remove_file path files) ≡ (if text_eq path q then none else read_file q files)
  unfolding read_file remove_file
  read-remove q [] = ground arith
  read-remove q ((p, bytes) ∷ files) = elim (Bool-cases (text_eq p path)) [
    | inl same ↦
        let e : p ≡ path = (text_eq_iff p path).0 same in
        rw (same, e, read-remove q files) (ground arith)
    | inr other ↦ elim (Bool-cases (text_eq p q)) [
      | inl here ↦ rw (other, here, apart p path q other here) refl
      | inr away ↦ rw (other, away) (read-remove q files)
    ]
  ]

  read-write :
      (q : Text) (bytes : List ℕ) (files : Files)
      → read_file q (write_file path bytes files)
        ≡ (if text_eq path q then some bytes else read_file q files)
  unfolding read_file write_file
  read-write q bytes files = rw (read-remove q files) (ground arith)

-- A file that is there, moved to another path.
read-rename :
    (from to q : Text) (bytes : List ℕ) (files : Files)
    → read_file from files ≡ some bytes
    → read_file q (rename_file from to files)
      ≡ (if text_eq to q then some bytes else if text_eq from q then none else read_file q files)
unfolding rename_file
read-rename from to q bytes files there =
    rw (there, read-write to q bytes (remove_file from files), read-remove from q files) refl

module _ {Ulid Time : Type 0} (c : Codec Ulid Time) where
  -- A blob with a key that the store makes: a hash of `from_hex`, or a log of an attempt.
  abbrev pub IsBlob : BlobKind Ulid → Type 0
  IsBlob (source hash) = all is_hex hash ≡ true
  IsBlob (log submission attempt) = has_dot (c.ulid_text submission) ≡ false

  -- A hash that `from_hex` accepts is one.
  pub from_hex-IsBlob : (value hash : Text) → from_hex value ≡ some hash → IsBlob (source hash)
  unfolding from_hex
  from_hex-IsBlob value hash e = ground arith

  has_dot-blob_key : (kind : BlobKind Ulid) → IsBlob kind → has_dot (blob_key c kind) ≡ false
  unfolding blob_key any
  has_dot-blob_key (source hash) h = has_dot-all hash h
  has_dot-blob_key (log submission attempt) h =
      has_dot-append (codes "logs/") (c.ulid_text submission ++ codes "/" ++ digits attempt attempt)
        refl
        (has_dot-append (c.ulid_text submission ++ codes "/") (digits attempt attempt)
          (has_dot-append (c.ulid_text submission) (codes "/") h refl)
          (has_dot-digits attempt attempt))

  temporary-with_extension :
      (kind : BlobKind Ulid)
      → IsBlob kind
      → with_extension (codes "tmp") (blob_key c kind) ≡ blob_key c kind ++ b'.' ∷ codes "tmp"
  unfolding with_extension
  temporary-with_extension kind h =
      rw (before_dot-plain (blob_key c kind) (has_dot-blob_key kind h)) refl

  -- No key is a temporary path.
  temporary-ne-key :
      (path key : Text) → has_dot key ≡ false → text_eq (path ++ b'.' ∷ codes "tmp") key ≡ false
  unfolding any
  temporary-ne-key path key h = elim (Bool-cases (text_eq (path ++ b'.' ∷ codes "tmp") key)) [
    | inl same ↦
        let e : path ++ b'.' ∷ codes "tmp" ≡ key =
          (text_eq_iff (path ++ b'.' ∷ codes "tmp") key).0 same in
        let plain : has_dot (path ++ b'.' ∷ codes "tmp") ≡ false = rw (← e) at h in
        ground (arith, any-append (λ d. d == b'.') path (b'.' ∷ codes "tmp"))
    | inr other ↦ other
  ]

  -- A `put` that stops after it has written the temporary file changes no blob, and a whole one changes its
  -- own blob, to the bytes given, and no other; the uri it returns is that of the blob.
  pub get_blob-put :
      (root : Text) (kind other : BlobKind Ulid) (bytes : List ℕ) (files : Files)
      → IsBlob kind
      → IsBlob other
      → (get_blob c other (put_temporary c kind bytes files) ≡ get_blob c other files)
        × (get_blob c other (put c root kind bytes files).1 ≡ (
            if text_eq (blob_key c kind) (blob_key c other)
            then bytes_of bytes
            else get_blob c other files))
        × ((put c root kind bytes files).0 ≡ uri c root kind)
  unfolding get_blob put put_temporary
  get_blob-put root kind other bytes files h k =
      let path = blob_key c kind in
      let tmp = path ++ b'.' ∷ codes "tmp" in
      let e = temporary-with_extension kind h in
      let aside = temporary-ne-key path (blob_key c other) (has_dot-blob_key other k) in
      let written : read_file tmp (write_file tmp bytes files) ≡ some bytes =
        read-write tmp tmp bytes files ∙ (rw (text_eq_refl tmp) refl) in
      (
        rw (e, read-write tmp (blob_key c other) bytes files, aside) refl,
        rw
            (
              e,
              read-rename tmp path (blob_key c other) bytes (write_file tmp bytes files) written,
              aside,
              read-write tmp (blob_key c other) bytes files,
              aside,
            )
            (ground arith),
        refl,
      )

  -- After a `put` the temporary file is gone.
  pub put-tidy :
      (root : Text) (kind : BlobKind Ulid) (bytes : List ℕ) (files : Files)
      → IsBlob kind
      → read_file (blob_key c kind ++ codes ".tmp") (put c root kind bytes files).1 ≡ none
  unfolding put put_temporary
  put-tidy root kind bytes files h =
      let path = blob_key c kind in
      let tmp = path ++ codes ".tmp" in
      let e = temporary-with_extension kind h in
      let apart_path : text_eq path tmp ≡ false = elim (Bool-cases (text_eq path tmp)) [
        | inl same ↦ cc (
          (text_eq_iff tmp path).1 (sym ((text_eq_iff path tmp).0 same)),
          temporary-ne-key path path (has_dot-blob_key kind h),
        )
        | inr other ↦ other
      ] in
      let written : read_file tmp (write_file tmp bytes files) ≡ some bytes =
        read-write tmp tmp bytes files ∙ (rw (text_eq_refl tmp) refl) in
      rw
        (
          e,
          read-rename tmp path tmp bytes (write_file tmp bytes files) written,
          apart_path,
          text_eq_refl tmp,
        )
        refl
