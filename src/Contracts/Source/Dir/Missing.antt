-- ===== src/Contracts/Source/Dir/Missing.antt =====
-- A path at which nothing stands, as `DirSource` of crates/satunera-contracts/src/source.rs resolves it:
-- a name is missing, or a file stands where a directory would have to be.
use satunera.Prelude.{
  ℕ, zero, suc, true, ◌≡◌, ◌⊎◌, refl, ap, ◌∙◌, inl, inr, List, [], ◌∷◌, ◌++◌, map, Option, none,
  some, Text, All, Option-cases,
}
use satunera.Prelude.Split.{join_with}
use satunera.Contracts.Source.Normalize.{ok, err, not_found, io, normalize}
use satunera.Contracts.Source.Safety.{IsSegment}
use satunera.Contracts.Source.Disk.{
  Node, file, directory, symlink, Children, Place, named, named_in, at, at_from, Step, normal,
  Resolved, absent, refused, enter, advance, follow, FileSystem, canonicalize,
}
use satunera.Contracts.Source.Dir.{DirSource, resolved, resolve}
use satunera.Contracts.Source.Dir.Places.{at_from-append, at-snoc, advance-inside, advance-normal}
use satunera.Contracts.Source.Dir.Contents.{
  IsContent, Holds, named-IsContent, content-inside, steps-join_with,
}

-- On the way along the names there is a file.
pub record Passes (node : Node) (names : Place) : Type 0 where
  pub above : Place
  pub next : Text
  pub beyond : Place
  pub mode : ℕ
  pub bytes : Option (List ℕ)
  pub splits : names ≡ above ++ next ∷ beyond
  pub stands : at_from (some node) above ≡ some (file mode bytes)

-- A proper part of the normalised path is a file below the root.
pub record Stops (fs : FileSystem) (source : DirSource) (path : Text) : Type 0 where
  pub above : Place
  pub next : Text
  pub beyond : Place
  pub mode : ℕ
  pub bytes : Option (List ℕ)
  pub spelled : normalize path ≡ ok (join_with b'/' (above ++ next ∷ beyond))
  pub stands : at fs.tree (source.root ++ above) ≡ some (file mode bytes)

Passes-below :
    (mode : ℕ) (children : Children) (name : Text) (names : Place) (inner : Node)
    → named name children ≡ some inner
    → Passes inner names
    → Passes (directory mode true children) (name ∷ names)
unfolding at_from
Passes-below mode children name names inner there p = record {
  above = name ∷ p.above;
  next = p.next;
  beyond = p.beyond;
  mode = p.mode;
  bytes = p.bytes;
  splits = ap (◌∷◌ name) (p.splits);
  stands = rw there (p.stands);
}

module _ (tree : Node) (meet : Place → List Step → Resolved) where
  advance-missing :
      (here names : Place) (node : Node)
      → IsContent node
      → at tree here ≡ some node
      → at_from (some node) names ≡ none
      → (advance meet tree here (map normal names) ≡ absent)
        ⊎ (Passes node names × (advance meet tree here (map normal names) ≡ refused))
  unfolding advance at_from enter
  advance-missing here [] node h e missing = cc
  advance-missing here (name ∷ names) (file mode bytes) h e missing = inr (
    record {
      above = [];
      next = name;
      beyond = names;
      mode = mode;
      bytes = bytes;
      splits = refl;
      stands = refl;
    },
    rw e refl,
  )
  advance-missing here (name ∷ names) (symlink target) h e missing = absurd h
  advance-missing here (name ∷ names) (directory mode readable children) (r, h) e missing =
      elim (Option-cases (named name children)) [
        | inl gone ↦ inl (rw (e, enter, gone) refl)
        | inr (inner, there) ↦
            let p = named-IsContent name children inner h there in
            let stands = at-snoc tree here name ∙ ap (named_in name) e ∙ there in
            let step =
              advance-inside tree meet here name (map normal names)
                (rw (e, enter, there) (content-inside inner p)) in
            elim (advance-missing (here ++ name ∷ []) names inner p stands (rw there at missing)) [
              | inl gone ↦ inl (step ∙ gone)
              | inr (passes, bad) ↦
                  inr (rw r (Passes-below mode children name names inner there passes), step ∙ bad)
            ]
      ]

module _ (fs : FileSystem) (source : DirSource) (children : Children)
    (holds : Holds fs source children) where
  abbrev root_node : Node
  root_node = directory holds.mode true children

  -- The way to the root has no links.
  follow-root :
      (links : ℕ) (names : Place)
      → (meet : Place → List Step → Resolved) × (follow links fs.tree []
            (map normal source.root ++ map normal names)
          ≡ advance meet fs.tree source.root (map normal names))
  unfolding follow at_from
  follow-root zero names =
      (_, advance-normal fs.tree _ [] source.root (map normal names) (rw (holds.stands) refl))
  follow-root (suc links) names =
      (_, advance-normal fs.tree _ [] source.root (map normal names) (rw (holds.stands) refl))

  follow-missing :
      (links : ℕ) (names : Place)
      → at_from (some root_node) names ≡ none
      → (follow links fs.tree [] (map normal source.root ++ map normal names) ≡ absent)
        ⊎ (Passes root_node names
            × (follow links fs.tree [] (map normal source.root ++ map normal names) ≡ refused))
  follow-missing links names missing =
      let (meet, way) = follow-root links names in
      elim (advance-missing fs.tree meet source.root names root_node (refl, holds.content)
        holds.stands missing) [
          | inl gone ↦ inl (way ∙ gone)
          | inr (passes, bad) ↦ inr (passes, way ∙ bad)
        ]

  resolve-follow :
      (path name : Text) (names : Place)
      → normalize path ≡ ok (join_with b'/' (name ∷ names))
      → All IsSegment (name ∷ names)
      → resolve fs source path
        ≡ resolved source
            (join_with b'/' (name ∷ names))
            (follow fs.max_links fs.tree [] (map normal source.root ++ map normal (name ∷ names)))
  unfolding resolve canonicalize
  resolve-follow path name names n h = rw (n, steps-join_with name names h) refl

  -- Where nothing stands, the path is missing, or fails at a file on its way.
  pub resolve-missing :
      (path name : Text) (names : Place)
      → normalize path ≡ ok (join_with b'/' (name ∷ names))
      → All IsSegment (name ∷ names)
      → at_from (some root_node) (name ∷ names) ≡ none
      → (resolve fs source path ≡ err (not_found (join_with b'/' (name ∷ names))))
        ⊎ (Stops fs source path
            × (resolve fs source path ≡ err (io (join_with b'/' (name ∷ names)))))
  resolve-missing path name names n h missing =
      let way = resolve-follow path name names n h in
      let key = join_with b'/' (name ∷ names) in
      elim (follow-missing fs.max_links (name ∷ names) missing) [
        | inl gone ↦ inl (way ∙ ap (resolved source key) gone)
        | inr (p, bad) ↦ inr (
          record {
            above = p.above;
            next = p.next;
            beyond = p.beyond;
            mode = p.mode;
            bytes = p.bytes;
            spelled = n ∙ ap (λ q. ok (join_with b'/' q)) (p.splits);
            stands =
                at_from-append (some fs.tree) source.root p.above ∙ rw (holds.stands) (p.stands);
          },
          way ∙ ap (resolved source key) bad,
        )
      ]
