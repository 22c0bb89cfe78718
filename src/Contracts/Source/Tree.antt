-- ===== src/Contracts/Source/Tree.antt =====
-- What a `TarSource` of crates/satunera-contracts/src/source.rs holds, and what its methods make of it.
use satunera.Prelude.{
  true, false, ◌≡◌, refl, List, [], ◌∷◌, some, Text, text_eq, text_eq_iff, text_le, text_le_total,
  All, arith, if◌then◌else◌,
}
use satunera.Contracts.Source.Normalize.{ok, normalize}
use satunera.Contracts.Source.Tar.{TarEntry, Entries, TarSource, insert_entry, get_entry, keys}

abbrev pub Before : Text → Text → Type 0
Before k j = (text_le k j ≡ true) × (text_eq k j ≡ false)

-- The keys rise strictly, so no two entries share a path.
abbrev pub IsSorted : List Text → Type 0
IsSorted [] = Unit
IsSorted (k ∷ []) = Unit
IsSorted (k ∷ j ∷ ks) = Before k j × IsSorted (j ∷ ks)

pub record IsTree (source : TarSource) : Type 0 where
  pub sorted : IsSorted (keys source.entries)
  pub normal : All (λ k. normalize k ≡ ok k) (keys source.entries)

pub get_entry-insert_entry :
    (key j : Text) (e : TarEntry) (xs : Entries)
    → get_entry j (insert_entry key e xs) ≡ (if text_eq key j then some e else get_entry j xs)
unfolding get_entry insert_entry
get_entry-insert_entry key j e [] = refl
get_entry-insert_entry key j e ((k, f) ∷ xs) = ground (
  arith,
  get_entry-insert_entry key j e xs,
  text_eq_iff key j,
  text_eq_iff key k,
  text_eq_iff k j,
)

pub insert_entry-IsSorted :
    (key : Text) (e : TarEntry) (xs : Entries)
    → IsSorted (keys xs)
    → IsSorted (keys (insert_entry key e xs))
unfolding insert_entry
insert_entry-IsSorted key e [] h = tt
insert_entry-IsSorted key e ((k, f) ∷ []) h =
    ground (arith, text_le_total key k, text_eq_iff key k, text_eq_iff k key)
insert_entry-IsSorted key e ((k, f) ∷ (j, g) ∷ xs) (b, h) = ground (
  arith,
  insert_entry-IsSorted key e ((j, g) ∷ xs) h,
  text_le_total key k,
  text_eq_iff key k,
  text_eq_iff k key,
)

pub insert_entry-All :
    (P : Text → Type 0) (key : Text) (e : TarEntry) (xs : Entries)
    → P key
    → All P (keys xs)
    → All P (keys (insert_entry key e xs))
unfolding insert_entry
insert_entry-All P key e [] p h = (p, tt)
insert_entry-All P key e ((k, f) ∷ xs) p (q, h) = ground (arith, insert_entry-All P key e xs p h)
