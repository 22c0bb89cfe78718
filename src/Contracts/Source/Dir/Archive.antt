-- ===== src/Contracts/Source/Dir/Archive.antt =====
-- The archive of a directory: the entries that a `TarSource` of
-- crates/satunera-contracts/src/source.rs is built from, and how they are looked up.
use satunera.Prelude.{
  ℕ, Bool, true, false, ◌&&◌, ◌≡◌, refl, sym, ap, ◌∙◌, inl, inr, List, [], ◌∷◌, ◌++◌, map, Option,
  none, some, or_option, Text, text_eq, text_eq_iff, arith, Bool-cases, if◌then◌else◌,
}
use satunera.Prelude.Split.{join_with}
use satunera.Contracts.Source.Disk.{
  Node, file, directory, symlink, Children, end, child, Place, named, at_from,
}
use satunera.Contracts.Source.Dir.Places.{at_from-none}
use satunera.Contracts.Source.Dir.Contents.{IsContent, AreContent}

-- A file with its place in the directory.
abbrev pub Leaf : Type 0
Leaf = Place × ℕ × List ℕ

abbrev pub below : Text → Leaf → Leaf
below name (place, mode, bytes) = (name ∷ place, mode, bytes)

unfoldable mutual
  pub leaves : Node → List Leaf
  leaves (file mode none) = []
  leaves (file mode (some bytes)) = ([], mode, bytes) ∷ []
  leaves (directory mode readable children) = leaves_in children
  leaves (symlink target) = []

  pub leaves_in : Children → List Leaf
  leaves_in end = []
  leaves_in (child name node rest) = map (below name) (leaves node) ++ leaves_in rest

abbrev pub packed : Leaf → Text × ℕ × List ℕ
packed (place, mode, bytes) = (join_with b'/' place, mode, bytes)

unfoldable pub archive : Children → List (Text × ℕ × List ℕ)
archive children = map packed (leaves_in children)

unfoldable pub place_eq : Place → Place → Bool
place_eq [] [] = true
place_eq (a ∷ p) (b ∷ q) = text_eq a b && place_eq p q
place_eq _ _ = false

pub place_eq_sound : (p q : Place) → place_eq p q ≡ true → p ≡ q
unfolding place_eq
place_eq_sound [] [] h = refl
place_eq_sound [] (b ∷ q) h = cc
place_eq_sound (a ∷ p) [] h = cc
place_eq_sound (a ∷ p) (b ∷ q) h = ground (arith, place_eq_sound p q, text_eq_iff a b)

pub place_eq_refl : (p : Place) → place_eq p p ≡ true
unfolding place_eq
place_eq_refl [] = refl
place_eq_refl (a ∷ p) = rw ((text_eq_iff a a).1 refl) (place_eq_refl p)

-- The last entry of a place, which is the one that an archive keeps.
unfoldable pub last_leaf : Place → List Leaf → Option (ℕ × List ℕ)
last_leaf q [] = none
last_leaf q ((p, mode, bytes) ∷ rest) =
    or_option (last_leaf q rest) (if place_eq p q then some (mode, bytes) else none)

pub or_option-none : {A : Type 0} (o : Option A) → or_option o none ≡ o
or_option-none none = refl
or_option-none (some a) = refl

or_option_assoc :
    {A : Type 0} (a b c : Option A) → or_option a (or_option b c) ≡ or_option (or_option a b) c
or_option_assoc none b c = refl
or_option_assoc (some a) b c = refl

pub last_leaf-append :
    (q : Place) (xs ys : List Leaf)
    → last_leaf q (xs ++ ys) ≡ or_option (last_leaf q ys) (last_leaf q xs)
unfolding last_leaf
last_leaf-append q [] ys = sym (or_option-none (last_leaf q ys))
last_leaf-append q ((p, mode, bytes) ∷ xs) ys =
    rw (last_leaf-append q xs ys) (sym (or_option_assoc (last_leaf q ys) (last_leaf q xs) _))

last_leaf-top : (name : Text) (xs : List Leaf) → last_leaf [] (map (below name) xs) ≡ none
unfolding last_leaf place_eq
last_leaf-top name [] = refl
last_leaf-top name ((p, mode, bytes) ∷ xs) = rw (last_leaf-top name xs) refl

pub last_leaf-below :
    (name first : Text) (q : Place) (xs : List Leaf)
    → last_leaf (first ∷ q) (map (below name) xs)
      ≡ (if text_eq name first then last_leaf q xs else none)
unfolding last_leaf place_eq
last_leaf-below name first q [] = ground arith
last_leaf-below name first q ((p, mode, bytes) ∷ xs) =
    rw (last_leaf-below name first q xs) (ground arith)

abbrev pub held_by : Option Node → Option (ℕ × List ℕ)
held_by (some (file mode (some bytes))) = some (mode, bytes)
held_by _ = none

-- The archive has of each place the file that stands there.
mutual
  unfolding last_leaf leaves place_eq at_from named

  pub last_leaf-leaves :
      (q : Place) (node : Node)
      → IsContent node
      → last_leaf q (leaves node) ≡ held_by (at_from (some node) q)
  last_leaf-leaves q (file mode none) h = absurd h
  last_leaf-leaves [] (file mode (some bytes)) h = refl
  last_leaf-leaves (name ∷ q) (file mode (some bytes)) h = rw (at_from-none q) refl
  last_leaf-leaves q (symlink target) h = absurd h
  last_leaf-leaves [] (directory mode readable children) (r, h) = last_leaf-leaves_top children
  last_leaf-leaves (name ∷ q) (directory mode readable children) (r, h) =
      last_leaf-leaves_in name q children h

  last_leaf-leaves_top : (children : Children) → last_leaf [] (leaves_in children) ≡ none
  last_leaf-leaves_top end = refl
  last_leaf-leaves_top (child name node rest) =
      last_leaf-append [] (map (below name) (leaves node)) (leaves_in rest)
      ∙ rw (last_leaf-leaves_top rest, last_leaf-top name (leaves node)) refl

  pub last_leaf-leaves_in :
      (name : Text) (q : Place) (children : Children)
      → AreContent children
      → last_leaf (name ∷ q) (leaves_in children) ≡ held_by (at_from (named name children) q)
  last_leaf-leaves_in name q end h = rw (at_from-none q) refl
  last_leaf-leaves_in name q (child n node rest) (s, once, p, h) =
      last_leaf-append (name ∷ q) (map (below n) (leaves node)) (leaves_in rest)
      ∙ rw (last_leaf-leaves_in name q rest h, last_leaf-below n name q (leaves node))
          (elim (Bool-cases (text_eq n name)) [
            | inl here ↦
                rw
                  (
                    here,
                    ap (λ t. named t rest) (sym ((text_eq_iff n name).0 here)) ∙ once,
                    at_from-none q,
                  )
                  (last_leaf-leaves q node p)
            | inr away ↦ rw away (or_option-none _)
          ])
