-- ===== src/Contracts/Source/Dir/Places.antt =====
-- Where the paths that `DirSource` of crates/satunera-contracts/src/source.rs resolves lead to.
use satunera.Prelude.{
  ℕ, Bool, true, false, ◌≡◌, refl, sym, ap, ◌∙◌, List, [], ◌∷◌, ◌++◌, map, Option, none, some, Text,
  text_eq_iff, arith, some-inj,
}
use mathlib.Core.List.{append_assoc, append-nil}
use satunera.Contracts.Source.Normalize.{ok, normalize}
use satunera.Contracts.Source.Safety.{bind-eq-ok, ok_inj}
use satunera.Contracts.Source.Disk.{
  Node, file, directory, symlink, Place, named, named_in, at, at_from, Step, normal, Resolved,
  found, absent, refused, inside, entered, enter, advance, FileSystem,
}
use satunera.Contracts.Source.Dir.{
  DirSource, strip_prefix, confined, resolved, bytes_of, resolve, read,
}

strip_prefix-append :
    (prefix path rest : Place) → strip_prefix prefix path ≡ some rest → path ≡ prefix ++ rest
unfolding strip_prefix
strip_prefix-append [] path rest h = some-inj h
strip_prefix-append (name ∷ prefix) [] rest h = cc
strip_prefix-append (name ∷ prefix) (first ∷ path) rest h =
    ground (arith, strip_prefix-append prefix path rest, text_eq_iff name first)

pub append-strip_prefix : (prefix rest : Place) → strip_prefix prefix (prefix ++ rest) ≡ some rest
unfolding strip_prefix
append-strip_prefix [] rest = refl
append-strip_prefix (name ∷ prefix) rest =
    rw ((text_eq_iff name name).1 refl, append-strip_prefix prefix rest)

pub at_from-append : (o : Option Node) (p q : Place) → at_from o (p ++ q) ≡ at_from (at_from o p) q
unfolding at_from
at_from-append o [] q = refl
at_from-append o (name ∷ p) q = at_from-append (named_in name o) p q

pub at_from-none : (p : Place) → at_from none p ≡ none
unfolding at_from
at_from-none [] = refl
at_from-none (name ∷ p) = at_from-none p

confined-eq-ok :
    (rel : Text) (root path place : Place) (stripped : Option Place)
    → strip_prefix root path ≡ stripped
    → confined rel path stripped ≡ ok place
    → (rest : Place) × (place ≡ root ++ rest)
confined-eq-ok rel root path place none s h = cc
confined-eq-ok rel root path place (some rest) s h =
    (rest, rw (← ok_inj h) (strip_prefix-append root path rest s))

resolved-eq-ok :
    (source : DirSource) (rel : Text) (r : Resolved) (place : Place)
    → resolved source rel r ≡ ok place
    → (rest : Place) × (place ≡ source.root ++ rest)
resolved-eq-ok source rel (found path) place h =
    confined-eq-ok rel source.root path place (strip_prefix source.root path) refl h
resolved-eq-ok source rel absent place h = cc
resolved-eq-ok source rel refused place h = cc

pub resolve-eq-ok :
    (fs : FileSystem) (source : DirSource) (path : Text) (place : Place)
    → resolve fs source path ≡ ok place
    → (rest : Place) × (place ≡ source.root ++ rest)
unfolding resolve
resolve-eq-ok fs source path place h =
    let (rel, n, r) = bind-eq-ok (normalize path) _ h in resolved-eq-ok source rel _ place r

bytes_of-eq-ok :
    (path : Text) (bytes : List ℕ) (o : Option Node)
    → bytes_of path o ≡ ok bytes
    → (mode : ℕ) × (o ≡ some (file mode (some bytes)))
bytes_of-eq-ok path bytes none h = cc
bytes_of-eq-ok path bytes (some (file mode none)) h = cc
bytes_of-eq-ok path bytes (some (file mode (some content))) h =
    (mode, ap (λ b. some (file mode (some b))) (ok_inj h))
bytes_of-eq-ok path bytes (some (directory mode readable children)) h =
    let (rel, n, e) = bind-eq-ok (normalize path) _ h in cc
bytes_of-eq-ok path bytes (some (symlink target)) h = cc

-- Whatever links there are, the bytes that are read are those of a file that stands in the directory
-- itself or in one below it.
pub read-confined :
    (fs : FileSystem) (source : DirSource) (path : Text) (bytes : List ℕ)
    → read fs source path ≡ ok bytes
    → (rest : Place) × (mode : ℕ) × (at fs.tree (source.root ++ rest)
        ≡ some (file mode (some bytes)))
unfolding read
read-confined fs source path bytes h =
    let (place, r, e) = bind-eq-ok (resolve fs source path) _ h in
    let (rest, under) = resolve-eq-ok fs source path place r in
    let (mode, stands) = bytes_of-eq-ok path bytes (at fs.tree place) e in
    (rest, mode, rw (← under) stands)

-- There is a file or a directory, and no link.
abbrev pub is_real : Option Node → Bool
is_real (some (file mode bytes)) = true
is_real (some (directory mode readable children)) = true
is_real _ = false

entered-inside :
    (o : Option Node) (names : Place) → is_real (at_from o names) ≡ true → entered o ≡ inside
unfolding at_from
entered-inside none names h = cc (rw (at_from-none names) at h)
entered-inside (some (file mode bytes)) names h = refl
entered-inside (some (directory mode readable children)) names h = refl
entered-inside (some (symlink target)) [] h = cc
entered-inside (some (symlink target)) (name ∷ names) h = cc (rw (at_from-none names) at h)

enter-inside :
    (o : Option Node) (name : Text) (names : Place)
    → is_real (at_from o (name ∷ names)) ≡ true
    → enter name o ≡ inside
unfolding at_from enter
enter-inside none name names h = cc (rw (at_from-none names) at h)
enter-inside (some (file mode bytes)) name names h = cc (rw (at_from-none names) at h)
enter-inside (some (symlink target)) name names h = cc (rw (at_from-none names) at h)
enter-inside (some (directory mode readable children)) name names h =
    entered-inside (named name children) names h

pub at-snoc :
    (tree : Node) (here : Place) (name : Text)
    → at tree (here ++ name ∷ []) ≡ named_in name (at tree here)
unfolding at_from
at-snoc tree here name = at_from-append (some tree) here (name ∷ [])

module _ (tree : Node) (meet : Place → List Step → Resolved) where
  pub advance-inside :
      (here : Place) (name : Text) (rest : List Step)
      → enter name (at tree here) ≡ inside
      → advance meet tree here (normal name ∷ rest) ≡ advance meet tree (here ++ name ∷ []) rest
  unfolding advance
  advance-inside here name rest h = rw (h) refl

  -- What is ahead of a place on the way to a real one is walked through.
  pub advance-normal :
      (here names : Place) (rest : List Step)
      → is_real (at_from (at tree here) names) ≡ true
      → advance meet tree here (map normal names ++ rest) ≡ advance meet tree (here ++ names) rest
  unfolding at_from
  advance-normal here [] rest h = ap (λ p. advance meet tree p rest) (sym (append-nil here))
  advance-normal here (name ∷ names) rest h =
      advance-inside here name _ (enter-inside (at tree here) name names h)
      ∙ (advance-normal (here ++ name ∷ []) names rest (rw (at-snoc tree here name) h)
          ∙ ap (λ p. advance meet tree p rest) (append_assoc here (name ∷ []) names))
