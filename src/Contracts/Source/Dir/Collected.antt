-- ===== src/Contracts/Source/Dir/Collected.antt =====
-- What `TarSource::from_entries` of crates/satunera-contracts/src/source.rs makes of the archive of a
-- directory.
use satunera.Prelude.{
  ℕ, true, ◌≡◌, refl, sym, ap, ◌∙◌, inl, inr, List, [], ◌∷◌, map, Option, none, some, or_option,
  Text, text_eq, text_eq_iff, arith, All, All-append, Bool-cases,
}
use satunera.Prelude.Split.{split_on, join_with}
use satunera.Prelude.Split.Laws.{split_on-join_with}
use satunera.Contracts.Source.Normalize.{ok, normalize}
use satunera.Contracts.Source.Safety.{IsSegment}
use satunera.Contracts.Source.Stable.{Avoids-segments, normalize-join}
use satunera.Contracts.Source.Tar.{
  TarEntry, Entries, TarSource, insert_entry, get_entry, insert, insert_all, from_entries,
}
use satunera.Contracts.Source.Tree.{get_entry-insert_entry}
use satunera.Contracts.Source.Disk.{Node, file, directory, symlink, Children, end, child, Place}
use satunera.Contracts.Source.Dir.Contents.{IsContent, AreContent}
use satunera.Contracts.Source.Dir.Archive.{
  Leaf, below, leaves, leaves_in, packed, archive, place_eq, place_eq_sound, place_eq_refl,
  last_leaf,
}

-- The place of a file in a directory: at least one name, each of them a segment.
abbrev pub IsInside : Place → Type 0
IsInside [] = ⊥
IsInside (name ∷ names) = All IsSegment (name ∷ names)

abbrev pub AreInside : List Leaf → Type 0
AreInside = All (λ leaf. IsInside leaf.0)

pub join-inj : (p q : Place) → IsInside p → IsInside q → join_with b'/' p ≡ join_with b'/' q → p ≡ q
join-inj [] q h k e = absurd h
join-inj (a ∷ p) [] h k e = absurd k
join-inj (a ∷ p) (b ∷ q) h k e =
    sym (split_on-join_with b'/' a p (Avoids-segments (a ∷ p) h))
    ∙ ap (split_on b'/') e
    ∙ split_on-join_with b'/' b q (Avoids-segments (b ∷ q) k)

text_eq-join_with :
    (p q : Place)
    → IsInside p
    → IsInside q
    → text_eq (join_with b'/' p) (join_with b'/' q) ≡ place_eq p q
text_eq-join_with p q h k = elim (Bool-cases (place_eq p q)) [
  | inl same ↦ rw (same, place_eq_sound p q same) ((text_eq_iff _ _).1 refl)
  | inr other ↦ elim (Bool-cases (text_eq (join_with b'/' p) (join_with b'/' q))) [
    | inl alike ↦
        let e = join-inj p q h k ((text_eq_iff _ _).0 alike) in
        let same : place_eq p q ≡ true = rw e (place_eq_refl q) in cc
    | inr apart ↦ rw (other, apart) refl
  ]
]

abbrev pub unpacked : Option (ℕ × List ℕ) → Option TarEntry
unpacked none = none
unpacked (some (mode, bytes)) = some (record { mode = mode; bytes = bytes })

-- What building the tree makes of the entries.
abbrev pub collected : List Leaf → Entries → Entries
collected [] entries = entries
collected ((place, mode, bytes) ∷ rest) entries =
    collected rest
      (insert_entry (join_with b'/' place) (record { mode = mode; bytes = bytes }) entries)

normalize-inside : (p : Place) → IsInside p → normalize (join_with b'/' p) ≡ ok (join_with b'/' p)
normalize-inside [] h = absurd h
normalize-inside (name ∷ names) h = normalize-join name names h

insert_all-packed :
    (xs : List Leaf) (source : TarSource)
    → AreInside xs
    → insert_all (map packed xs) source ≡ ok (record { entries = collected xs source.entries })
unfolding insert_all insert
insert_all-packed [] source h = refl
insert_all-packed ((place, mode, bytes) ∷ xs) source (p, h) =
    rw (normalize-inside place p) (insert_all-packed xs _ h)

pub get_entry-collected :
    (q : Place) (xs : List Leaf) (entries : Entries)
    → IsInside q
    → AreInside xs
    → get_entry (join_with b'/' q) (collected xs entries)
      ≡ or_option (unpacked (last_leaf q xs)) (get_entry (join_with b'/' q) entries)
unfolding last_leaf
get_entry-collected q [] entries k h = refl
get_entry-collected q ((place, mode, bytes) ∷ xs) entries k (p, h) =
    get_entry-collected q xs _ k h
    ∙ rw
        (
          get_entry-insert_entry (join_with b'/' place) (join_with b'/' q)
              (record { mode = mode; bytes = bytes }) entries,
          text_eq-join_with place q p k,
        )
        (ground arith)

below-AreInside :
    (name : Text) (xs : List Leaf)
    → IsSegment name
    → All (λ leaf. All IsSegment leaf.0) xs
    → AreInside (map (below name) xs)
below-AreInside name [] s h = tt
below-AreInside name (leaf ∷ xs) s (p, h) = ((s, p), below-AreInside name xs s h)

forget-AreInside : (xs : List Leaf) → AreInside xs → All (λ leaf. All IsSegment leaf.0) xs
forget-AreInside [] h = tt
forget-AreInside (([], mode, bytes) ∷ xs) (p, h) = absurd p
forget-AreInside ((name ∷ names, mode, bytes) ∷ xs) (p, h) = (p, forget-AreInside xs h)

mutual
  unfolding leaves

  leaves-segments :
      (node : Node) → IsContent node → All (λ leaf. All IsSegment leaf.0) (leaves node)
  leaves-segments (file mode none) h = absurd h
  leaves-segments (file mode (some bytes)) h = (tt, tt)
  leaves-segments (symlink target) h = absurd h
  leaves-segments (directory mode readable children) (r, h) =
      forget-AreInside (leaves_in children) (leaves_in-AreInside children h)

  pub leaves_in-AreInside :
      (children : Children) → AreContent children → AreInside (leaves_in children)
  leaves_in-AreInside end h = tt
  leaves_in-AreInside (child name node rest) (s, once, p, h) =
      All-append (λ leaf. IsInside leaf.0) (map (below name) (leaves node)) (leaves_in rest)
        (below-AreInside name (leaves node) s (leaves-segments node p)) (leaves_in-AreInside rest h)

-- The archive of a directory is accepted.
pub from_entries-archive :
    (children : Children)
    → AreContent children
    → from_entries (archive children) ≡ ok (record { entries = collected (leaves_in children) [] })
unfolding from_entries archive
from_entries-archive children h =
    insert_all-packed (leaves_in children) _ (leaves_in-AreInside children h)
