-- ===== src/Contracts/Source/Dir/Contents.antt =====
-- A directory without links under a `DirSource` of crates/satunera-contracts/src/source.rs, and what
-- resolving a path in it gives.
use satunera.Prelude.{
  ℕ, zero, suc, true, ◌≡◌, refl, sym, ap, ◌∙◌, inl, inr, List, [], ◌∷◌, ◌++◌, map, Option, none,
  some, Text, text_eq, All, Bool-cases, Option-cases, some-inj,
}
use mathlib.Core.List.{append_assoc, append-nil}
use satunera.Prelude.Split.{join_with}
use satunera.Prelude.Split.Laws.{split_on-join_with}
use satunera.Contracts.Source.Normalize.{Sourced, ok, err, normalize}
use satunera.Contracts.Source.Safety.{IsSegment}
use satunera.Contracts.Source.Stable.{Avoids-segments, starts_plain}
use satunera.Contracts.Source.Disk.{
  Node, file, directory, symlink, Children, end, child, Place, named, named_in, at, at_from, Step,
  normal, step_of, steps, Resolved, found, absent, refused, entered, inside, enter, advance, follow,
  FileSystem, canonicalize,
}
use satunera.Contracts.Source.Dir.{DirSource, strip_prefix, confined, resolved, resolve}
use satunera.Contracts.Source.Dir.Places.{
  at-snoc, at_from-none, advance-inside, advance-normal, append-strip_prefix,
}

-- Every name is a segment of a path, which a name with a backslash or a colon is not, no directory has a name twice, there are no links, and the
-- system refuses to read nothing.
abbrev mutual
  pub IsContent : Node → Type 0
  IsContent (file mode none) = ⊥
  IsContent (file mode (some bytes)) = Unit
  IsContent (directory mode readable children) = (readable ≡ true) × AreContent children
  IsContent (symlink target) = ⊥

  pub AreContent : Children → Type 0
  AreContent end = Unit
  AreContent (child name node rest) =
      IsSegment name × (named name rest ≡ none) × IsContent node × AreContent rest

pub named-IsContent :
    (name : Text) (children : Children) (node : Node)
    → AreContent children
    → named name children ≡ some node
    → IsContent node
unfolding named
named-IsContent name end node h e = cc
named-IsContent name (child n first rest) node (s, once, p, h) e =
    elim (Bool-cases (text_eq n name)) [
      | inl here ↦ rw (← some-inj (rw here at e)) p
      | inr away ↦ named-IsContent name rest node h (rw away at e)
    ]

-- The place that was found, if one was.
abbrev pub place_of : Resolved → Option Place
place_of (found place) = some place
place_of absent = none
place_of refused = none

abbrev pub if_there : Option Node → Place → Option Place
if_there none place = none
if_there (some node) place = some place

pub content-inside : (node : Node) → IsContent node → entered (some node) ≡ inside
content-inside (file mode bytes) h = refl
content-inside (directory mode readable children) h = refl
content-inside (symlink target) h = absurd h

module _ (tree : Node) (meet : Place → List Step → Resolved) where
  place_of-advance :
      (here names : Place) (node : Node)
      → IsContent node
      → at tree here ≡ some node
      → place_of (advance meet tree here (map normal names))
        ≡ if_there (at_from (some node) names) (here ++ names)
  unfolding advance at_from enter
  place_of-advance here [] node h e = ap some (sym (append-nil here))
  place_of-advance here (name ∷ names) (file mode bytes) h e = rw (e, at_from-none names) refl
  place_of-advance here (name ∷ names) (symlink target) h e = absurd h
  place_of-advance here (name ∷ names) (directory mode readable children) (r, h) e =
      elim (Option-cases (named name children)) [
        | inl missing ↦ rw (e, enter, missing, at_from-none names) refl
        | inr (inner, there) ↦
            let p = named-IsContent name children inner h there in
            let stands = at-snoc tree here name ∙ ap (named_in name) e ∙ there in
            ap place_of (
              advance-inside tree meet here name (map normal names)
                (rw (e, enter, there) (content-inside inner p)))
            ∙ place_of-advance (here ++ name ∷ []) names inner p stands
            ∙ rw (there)
                (ap (if_there (at_from (some inner) names)) (append_assoc here (name ∷ []) names))
      ]

map-step_of : (names : List Text) → All IsSegment names → map step_of names ≡ map normal names
map-step_of [] h = refl
map-step_of (name ∷ names) (s, h) =
    rw (s.nonempty, s.not_dot, s.not_dot_dot, map-step_of names h) refl

pub steps-join_with :
    (name : Text) (names : List Text)
    → All IsSegment (name ∷ names)
    → steps (join_with b'/' (name ∷ names)) ≡ map normal (name ∷ names)
unfolding steps
steps-join_with name names h =
    rw
      (
        (starts_plain name names h.0).1,
        split_on-join_with b'/' name names (Avoids-segments (name ∷ names) h),
      )
      (map-step_of (name ∷ names) h)

abbrev pub outcome : {A : Type 0} → Sourced A → Option A
outcome (ok a) = some a
outcome (err e) = none

outcome-confined :
    (rel : Text) (root names : Place)
    → outcome (confined rel (root ++ names) (strip_prefix root (root ++ names)))
      ≡ some (root ++ names)
outcome-confined rel root names = rw (append-strip_prefix root names) refl

outcome-resolved :
    (source : DirSource) (rel : Text) (r : Resolved) (o : Option Node) (names : Place)
    → place_of r ≡ if_there o (source.root ++ names)
    → outcome (resolved source rel r) ≡ if_there o (source.root ++ names)
outcome-resolved source rel (found place) none names h = cc
outcome-resolved source rel (found place) (some node) names h =
    rw (some-inj h) (outcome-confined rel source.root names)
outcome-resolved source rel absent o names h = h
outcome-resolved source rel refused o names h = h

-- The directory at the root of a source has such content.
pub record Holds (fs : FileSystem) (source : DirSource) (children : Children) : Type 0 where
  pub mode : ℕ
  pub stands : at fs.tree source.root ≡ some (directory mode true children)
  pub content : AreContent children

module _ (fs : FileSystem) (source : DirSource) (children : Children)
    (holds : Holds fs source children) where
  place_of-follow :
      (links : ℕ) (names : Place)
      → place_of (follow links fs.tree [] (map normal source.root ++ map normal names))
        ≡ if_there
            (at_from (some (directory holds.mode true children)) names)
            (source.root ++ names)
  unfolding follow at_from
  place_of-follow zero names =
      ap place_of
        (advance-normal fs.tree _ [] source.root (map normal names) (rw (holds.stands) refl))
      ∙ place_of-advance fs.tree _ source.root names _ (refl, holds.content) holds.stands
  place_of-follow (suc links) names =
      ap place_of
        (advance-normal fs.tree _ [] source.root (map normal names) (rw (holds.stands) refl))
      ∙ place_of-advance fs.tree _ source.root names _ (refl, holds.content) holds.stands

  -- A path resolves exactly where something stands, and to its own place.
  pub outcome-resolve :
      (path : Text) (name : Text) (names : List Text)
      → normalize path ≡ ok (join_with b'/' (name ∷ names))
      → All IsSegment (name ∷ names)
      → outcome (resolve fs source path)
        ≡ if_there
            (at_from (some (directory holds.mode true children)) (name ∷ names))
            (source.root ++ name ∷ names)
  unfolding resolve canonicalize
  outcome-resolve path name names n h =
      rw (n, steps-join_with name names h)
        (outcome-resolved source _ _ _ (name ∷ names) (place_of-follow fs.max_links (name ∷ names)))
