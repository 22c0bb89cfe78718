-- ===== src/Contracts/Source/Dir/Parts.antt =====
-- `list` of `DirSource` and of `TarSource` of crates/satunera-contracts/src/source.rs under a prefix.
use satunera.Prelude.{
  Bool, ◌≡◌, refl, sym, ap, ◌∙◌, inl, inr, List, [], ◌∷◌, ◌++◌, map, Option, none, some, Text,
  text_eq, text_eq_iff, filter, arith, Bool-cases, if◌then◌else◌,
}
use mathlib.Core.List.{append-nil}
use satunera.Contracts.Source.Disk.{
  Node, file, directory, symlink, Children, end, child, Place, named, at_from,
}
use satunera.Contracts.Source.Dir.Places.{at_from-none}
use satunera.Contracts.Source.Dir.Contents.{IsContent, AreContent}
use satunera.Contracts.Source.Dir.Archive.{Leaf, below, leaves, leaves_in}
use satunera.Contracts.Source.Dir.Prefixes.{is_prefix}

abbrev pub leaves_at : Option Node → List Leaf
leaves_at none = []
leaves_at (some node) = leaves node

abbrev pub below_all : Place → Leaf → Leaf
below_all p (q, mode, bytes) = (p ++ q, mode, bytes)

abbrev pub within_place : Place → Leaf → Bool
within_place p leaf = is_prefix p leaf.0

filter-append :
    {A : Type 0} (p : A → Bool) (xs ys : List A) → filter p (xs ++ ys) ≡ filter p xs ++ filter p ys
unfolding filter
filter-append p [] ys = refl
filter-append p (x ∷ xs) ys = ground (arith, filter-append p xs ys)

filter-top : (xs : List Leaf) → filter (within_place []) xs ≡ xs
unfolding filter is_prefix
filter-top [] = refl
filter-top (x ∷ xs) = ap (◌∷◌ x) (filter-top xs)

map-top : (xs : List Leaf) → map (below_all []) xs ≡ xs
map-top [] = refl
map-top ((q, mode, bytes) ∷ xs) = ap (◌∷◌ (q, mode, bytes)) (map-top xs)

filter-below :
    (name first : Text) (p : Place) (xs : List Leaf)
    → filter (within_place (first ∷ p)) (map (below name) xs)
      ≡ (if text_eq name first then map (below name) (filter (within_place p) xs) else [])
unfolding filter is_prefix
filter-below name first p [] = ground arith
filter-below name first p ((q, mode, bytes) ∷ xs) =
    rw (filter-below name first p xs) (elim (Bool-cases (text_eq name first)) [
      | inl here ↦ elim (Bool-cases (is_prefix p q)) [
        | inl inside ↦ rw (here, inside) refl
        | inr outside ↦ rw (here, outside) refl
      ]
      | inr away ↦ rw away refl
    ])

below-below_all :
    (name : Text) (p : Place) (xs : List Leaf)
    → map (below name) (map (below_all p) xs) ≡ map (below_all (name ∷ p)) xs
below-below_all name p [] = refl
below-below_all name p ((q, mode, bytes) ∷ xs) =
    ap (◌∷◌ (name ∷ (p ++ q), mode, bytes)) (below-below_all name p xs)

-- The files under a place are those of what stands there.
mutual
  unfolding leaves at_from named filter is_prefix

  pub filter-leaves :
      (p : Place) (node : Node)
      → IsContent node
      → filter (within_place p) (leaves node)
        ≡ map (below_all p) (leaves_at (at_from (some node) p))
  filter-leaves [] node h = filter-top (leaves node) ∙ sym (map-top (leaves node))
  filter-leaves (name ∷ p) (file mode none) h = absurd h
  filter-leaves (name ∷ p) (file mode (some bytes)) h = rw (at_from-none p) refl
  filter-leaves (name ∷ p) (symlink target) h = absurd h
  filter-leaves (name ∷ p) (directory mode readable children) (r, h) =
      filter-leaves_in name p children h

  pub filter-leaves_in :
      (name : Text) (p : Place) (children : Children)
      → AreContent children
      → filter (within_place (name ∷ p)) (leaves_in children)
        ≡ map (below_all (name ∷ p)) (leaves_at (at_from (named name children) p))
  filter-leaves_in name p end h = rw (at_from-none p) refl
  filter-leaves_in name p (child n node rest) (s, once, q, h) =
      filter-append (within_place (name ∷ p)) (map (below n) (leaves node)) (leaves_in rest)
      ∙ rw (filter-below n name p (leaves node), filter-leaves_in name p rest h)
          (elim (Bool-cases (text_eq n name)) [
            | inl here ↦
                let same : n ≡ name = (text_eq_iff n name).0 here in
                rw
                  (
                    here,
                    ap (λ t. named t rest) (sym same) ∙ once,
                    at_from-none p,
                    filter-leaves p node q,
                  )
                  (append-nil _
                    ∙ below-below_all n p (leaves_at (at_from (some node) p))
                    ∙ ap (λ t. map (below_all (t ∷ p)) (leaves_at (at_from (some node) p))) same)
            | inr away ↦ rw away refl
          ])
