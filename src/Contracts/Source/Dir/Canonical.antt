-- ===== src/Contracts/Source/Dir/Canonical.antt =====
-- The paths that `canonicalize` gives `DirSource` of crates/satunera-contracts/src/source.rs have no
-- links in them.
use satunera.Prelude.{
  ℕ, zero, suc, true, ◌≡◌, refl, sym, ap, ◌∙◌, inl, inr, List, [], ◌∷◌, ◌++◌, map, Option, none,
  some, Text, arith, Bool-cases,
}
use mathlib.Core.List.{append-nil}
use satunera.Contracts.Source.Normalize.{ok, normalize, is_empty}
use satunera.Contracts.Source.Safety.{bind-eq-ok, ok_inj}
use satunera.Contracts.Source.Disk.{
  Node, file, directory, symlink, named, Place, named_in, at, at_from, parent, Step, root_dir,
  cur_dir, parent_dir, normal, steps, Resolved, found, absent, refused, Entered, no_directory,
  no_entry, inside, link, entered, enter, onward, advance, follow, FileSystem, canonicalize,
}
use satunera.Contracts.Source.Dir.{
  DirSource, strip_prefix, confined, resolved, resolve, opened, new,
}
use satunera.Contracts.Source.Dir.Places.{
  at-snoc, at_from-none, advance-normal, is_real, resolve-eq-ok,
}

-- What is on the way to something real is real.
real_start : (o : Option Node) (p : Place) → is_real (at_from o p) ≡ true → is_real o ≡ true
unfolding at_from
real_start o [] h = h
real_start none (name ∷ p) h = cc (rw (at_from-none p) at h)
real_start (some (symlink target)) (name ∷ p) h = cc (rw (at_from-none p) at h)
real_start (some (file mode bytes)) (name ∷ p) h = refl
real_start (some (directory mode readable children)) (name ∷ p) h = refl

real_parent :
    (o : Option Node) (p : Place)
    → is_real (at_from o p) ≡ true
    → is_real (at_from o (parent p)) ≡ true
unfolding at_from
real_parent o [] h = h
real_parent o (name ∷ []) h = real_start o (name ∷ []) h
real_parent o (name ∷ next ∷ p) h = real_parent (named_in name o) (next ∷ p) h

entered-real : (o : Option Node) → entered o ≡ inside → is_real o ≡ true
entered-real none h = cc
entered-real (some (symlink target)) h = cc
entered-real (some (file mode bytes)) h = refl
entered-real (some (directory mode readable children)) h = refl

enter-real :
    (name : Text) (o : Option Node) → enter name o ≡ inside → is_real (named_in name o) ≡ true
unfolding enter
enter-real name none h = cc
enter-real name (some (symlink target)) h = cc
enter-real name (some (file mode bytes)) h = cc
enter-real name (some (directory mode readable children)) h = entered-real (named name children) h

pub found_inj : {p q : Place} → found p ≡ found q → p ≡ q
found_inj h = cc

module _ (tree : Node) (top : is_real (some tree) ≡ true) where
  -- Resolving leads from a real place to real places only.
  abbrev LeadsToReal : (Place → List Step → Resolved) → Type 0
  LeadsToReal go =
      (here : Place) (path : List Step) (place : Place)
      → is_real (at tree here) ≡ true
      → go here path ≡ found place
      → is_real (at tree place) ≡ true

  onward-LeadsToReal :
      (meet : Place → List Step → Resolved) (here : Place) (rest : List Step) (next : Resolved)
      (place : Place) (e : Entered)
      → LeadsToReal meet
      → is_real (at tree here) ≡ true
      → (e ≡ inside → next ≡ found place → is_real (at tree place) ≡ true)
      → onward next (λ target. meet here (steps target ++ rest)) e ≡ found place
      → is_real (at tree place) ≡ true
  onward-LeadsToReal meet here rest next place no_directory leads h k e = cc
  onward-LeadsToReal meet here rest next place no_entry leads h k e = cc
  onward-LeadsToReal meet here rest next place inside leads h k e = k refl e
  onward-LeadsToReal meet here rest next place (link target) leads h k e = leads here _ place h e

  root_real : is_real (at tree []) ≡ true
  unfolding at_from
  root_real = top

  advance-LeadsToReal :
      (meet : Place → List Step → Resolved) → LeadsToReal meet → LeadsToReal (advance meet tree)
  unfolding advance
  advance-LeadsToReal meet leads here [] place h e = rw (← found_inj e) h
  advance-LeadsToReal meet leads here (root_dir ∷ rest) place h e =
      advance-LeadsToReal meet leads [] rest place root_real e
  advance-LeadsToReal meet leads here (cur_dir ∷ rest) place h e =
      ground (arith, advance-LeadsToReal meet leads here rest place h)
  advance-LeadsToReal meet leads here (parent_dir ∷ rest) place h e = ground (
    arith,
    advance-LeadsToReal meet leads (parent here) rest place (real_parent (some tree) here h),
  )
  advance-LeadsToReal meet leads here (normal name ∷ rest) place h e =
      onward-LeadsToReal meet here rest _ place (enter name (at tree here)) leads h
        (λ i.
          advance-LeadsToReal meet leads (here ++ name ∷ []) rest place
            (rw (at-snoc tree here name) (enter-real name (at tree here) i)))
        e

  follow-LeadsToReal : (links : ℕ) → LeadsToReal (follow links tree)
  unfolding follow
  follow-LeadsToReal zero = advance-LeadsToReal _ (λ here rest place h e. cc)
  follow-LeadsToReal (suc links) = advance-LeadsToReal _ (follow-LeadsToReal links)

confined-found :
    (source : DirSource) (rel : Text) (r : Resolved) (place : Place)
    → resolved source rel r ≡ ok place
    → r ≡ found place
confined-found source rel absent place h = cc
confined-found source rel refused place h = cc
confined-found source rel (found path) place h = ap found (kept (strip_prefix source.root path) h)
  where
    kept : (o : Option Place) → confined rel path o ≡ ok place → path ≡ place
    kept none h = cc
    kept (some rest) h = ok_inj h

opened-found :
    (fs : FileSystem) (given : Text) (r : Resolved) (source : DirSource)
    → opened fs given r ≡ ok source
    → r ≡ found source.root
opened-found fs given absent source h = cc
opened-found fs given refused source h = cc
opened-found fs given (found place) source h = ap (λ s. found s.root) (ok_inj h)

advance-place :
    (tree : Node) (meet : Place → List Step → Resolved) (place : Place)
    → is_real (at tree place) ≡ true
    → advance meet tree [] (map normal place) ≡ found place
unfolding advance at_from
advance-place tree meet place h =
    ap (advance meet tree []) (sym (append-nil (map normal place)))
    ∙ advance-normal tree meet [] place [] h

module _ (fs : FileSystem) (top : is_real (some fs.tree) ≡ true) where
  follow-real :
      (links : ℕ) (place : Place)
      → is_real (at fs.tree place) ≡ true
      → follow links fs.tree [] (map normal place) ≡ found place
  unfolding follow
  follow-real zero place h = advance-place fs.tree _ place h
  follow-real (suc links) place h = advance-place fs.tree _ place h

  canonicalize-real :
      (here : Place) (path : List Step) (place : Place)
      → is_real (at fs.tree here) ≡ true
      → canonicalize fs here path ≡ found place
      → (is_real (at fs.tree place) ≡ true) × (canonicalize fs [] (map normal place) ≡ found place)
  unfolding canonicalize
  canonicalize-real here path place h e =
      let real = follow-LeadsToReal fs.tree top fs.max_links here path place h e in
      (real, follow-real fs.max_links place real)

  new-found :
      (given : Text) (source : DirSource)
      → new fs given ≡ ok source
      → canonicalize fs fs.current (steps given) ≡ found source.root
  unfolding new
  new-found given source h = elim (Bool-cases (is_empty given)) [
    | inl empty ↦ cc (rw empty at h)
    | inr full ↦ opened-found fs given _ source (rw full at h)
  ]

  resolve-found :
      (source : DirSource) (path : Text) (place : Place)
      → resolve fs source path ≡ ok place
      → (rel : Text) × (canonicalize fs [] (map normal source.root ++ steps rel) ≡ found place)
  unfolding resolve
  resolve-found source path place h =
      let (rel, n, r) = bind-eq-ok (normalize path) _ h in
      (rel, confined-found source rel _ place r)

  -- The root of a source that was opened, and every place that a path in it resolves to, is canonical:
  -- a file or a directory stands there, no link is on the way, and the place resolves to itself. The
  -- place that the path resolves to stands at the root or below it.
  pub resolve-canonical :
      (given path : Text) (source : DirSource) (place : Place)
      → is_real (at fs.tree fs.current) ≡ true
      → new fs given ≡ ok source
      → resolve fs source path ≡ ok place
      → ((is_real (at fs.tree source.root) ≡ true)
          × (canonicalize fs [] (map normal source.root) ≡ found source.root))
        × ((is_real (at fs.tree place) ≡ true)
            × (canonicalize fs [] (map normal place) ≡ found place))
        × ((rest : Place) × (place ≡ source.root ++ rest))
  resolve-canonical given path source place current n r =
      let (rel, c) = resolve-found source path place r in
      (
        canonicalize-real fs.current (steps given) source.root current (new-found given source n),
        canonicalize-real [] _ place (root_real fs.tree top) c,
        resolve-eq-ok fs source path place r,
      )
