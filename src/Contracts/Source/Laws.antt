-- ===== src/Contracts/Source/Laws.antt =====
-- The methods of `TarSource` of crates/satunera-contracts/src/source.rs, through its interface.
use satunera.Prelude.{
  ℕ, Bool, true, false, ◌&&◌, ◌||◌, ◌≡◌, refl, sym, ap, ◌∙◌, inl, inr, List, [], ◌∷◌, Text, codes,
  text_eq, text_eq_iff, any, arith, filter, is_some, Bool-cases, if◌then◌else◌,
}
use satunera.Contracts.Source.Normalize.{Sourced, ok, err, normalize, is_empty}
use satunera.Contracts.Source.Tar.{
  Entries, TarSource, new, insert_entry, get_entry, insert, insert_all, from_entries, read, keys,
  under, list, is_executable, mode_is_executable,
}
use satunera.Contracts.Source.Safety.{bind-eq-ok, ok_inj}
use satunera.Contracts.Source.Stable.{normalize_idempotent}
use satunera.Contracts.Source.Tree.{
  IsTree, get_entry-insert_entry, insert_entry-IsSorted, insert_entry-All,
}

abbrev pub added : Text → ℕ → List ℕ → TarSource → TarSource
added key mode bytes source = record {
  entries = insert_entry key (record { mode = mode; bytes = bytes }) source.entries;
}

insert-eq-ok :
    (path : Text) (mode : ℕ) (bytes : List ℕ) (source after : TarSource)
    → insert path mode bytes source ≡ ok after
    → (key : Text) × (normalize path ≡ ok key) × (added key mode bytes source ≡ after)
unfolding insert
insert-eq-ok path mode bytes source after e =
    let (key, n, made) = bind-eq-ok (normalize path) _ e in (key, n, ok_inj made)

insert-IsTree :
    (path : Text) (mode : ℕ) (bytes : List ℕ) (source after : TarSource)
    → IsTree source
    → insert path mode bytes source ≡ ok after
    → IsTree after
insert-IsTree path mode bytes source after t e =
    let (key, n, made) = insert-eq-ok path mode bytes source after e in
    rw (← made) (record {
      sorted = insert_entry-IsSorted key _ source.entries t.sorted;
      normal =
          insert_entry-All (λ k. normalize k ≡ ok k) key _ source.entries
            (normalize_idempotent path key n) t.normal;
    })

pub insert_all-IsTree :
    (entries : List (Text × ℕ × List ℕ)) (source after : TarSource)
    → IsTree source
    → insert_all entries source ≡ ok after
    → IsTree after
unfolding insert_all
insert_all-IsTree [] source after t e = rw (← ok_inj e) t
insert_all-IsTree ((path, mode, bytes) ∷ rest) source after t e =
    let (middle, inserted, later) = bind-eq-ok (insert path mode bytes source) _ e in
    insert_all-IsTree rest middle after (insert-IsTree path mode bytes source middle t inserted)
      later

-- A tree built from an archive has its paths in strictly rising order, so without a repetition, and
-- every path in it is normalised.
pub from_entries-IsTree :
    (entries : List (Text × ℕ × List ℕ)) (source : TarSource)
    → from_entries entries ≡ ok source
    → IsTree source
unfolding from_entries
from_entries-IsTree entries source e =
    insert_all-IsTree entries new source (record { sorted = tt; normal = tt }) e

-- After a file is added, reading any spelling of its path gives its bytes, and reading any other path
-- gives what it gave before; the same of the executable bit.
pub read-insert :
    (path : Text) (mode : ℕ) (bytes : List ℕ) (source after : TarSource) (key q k : Text)
    → insert path mode bytes source ≡ ok after
    → normalize path ≡ ok key
    → normalize q ≡ ok k
    → (read q after ≡ (if text_eq key k then ok bytes else read q source))
      × (is_executable q after
          ≡ (if text_eq key k then ok (mode_is_executable mode) else is_executable q source))
unfolding read is_executable
read-insert path mode bytes source after key q k e n m =
    let (key', n', made) = insert-eq-ok path mode bytes source after e in
    let same : key' ≡ key = ok_inj (sym n' ∙ n) in
    rw (← made, m, get_entry-insert_entry, same) (ground arith)

-- What is found under a key is found among the keys.
keys-get_entry :
    (key : Text) (xs : Entries) → any (λ p. text_eq p key) (keys xs) ≡ is_some (get_entry key xs)
unfolding any get_entry
keys-get_entry key [] = refl
keys-get_entry key ((k, e) ∷ xs) = ground (arith, keys-get_entry key xs)

pub any-filter :
    (p q : Text → Bool) (xs : List Text) → any p (filter q xs) ≡ any (λ x. p x && q x) xs
unfolding any filter
any-filter p q [] = refl
any-filter p q (x ∷ xs) = ground (arith, any-filter p q xs)

under_at :
    (key prefix : Text) (xs : List Text)
    → any (λ p. text_eq p key && under prefix p) xs
      ≡ (any (λ p. text_eq p key) xs && under prefix key)
unfolding any
under_at key prefix [] = refl
under_at key prefix (x ∷ xs) = elim (Bool-cases (text_eq x key)) [
  | inl here ↦ rw (here, (text_eq_iff x key).0 here, under_at key prefix xs) (ground arith)
  | inr away ↦ rw (away, under_at key prefix xs) refl
]

abbrev pub is_ok : {A : Type 0} → Sourced A → Bool
is_ok (ok a) = true
is_ok (err e) = false

abbrev pub under_prefix : Sourced Text → Text → Bool
under_prefix (ok p) key = under p key
under_prefix (err e) key = false

-- What `list` is asked for: the whole tree, or what is at or under a prefix.
abbrev pub within : Text → Text → Bool
within prefix key =
    if is_empty prefix || text_eq prefix (codes ".")
    then true
    else under_prefix (normalize prefix) key

read-get_entry :
    (source : TarSource) (key : Text)
    → normalize key ≡ ok key
    → is_ok (read key source) ≡ is_some (get_entry key source.entries)
unfolding read
read-get_entry source key n = rw n (ground arith)

-- A listing names a normalised path exactly when the path can be read and, unless the whole tree is
-- listed, is the prefix or stands under it.
pub listed_iff_readable :
    (source : TarSource) (prefix key : Text) (paths : List Text)
    → normalize key ≡ ok key
    → list prefix source ≡ ok paths
    → any (λ p. text_eq p key) paths ≡ (is_ok (read key source) && within prefix key)
unfolding list
listed_iff_readable source prefix key paths n e =
    rw (read-get_entry source key n)
      (elim (Bool-cases (is_empty prefix || text_eq prefix (codes "."))) [
        | inl whole ↦
            rw (whole, ← ok_inj (rw whole at e), keys-get_entry key source.entries) (ground arith)
        | inr part ↦
            let (p, m, filtered) = bind-eq-ok (normalize prefix) _ (rw part at e) in
            rw (part, m, ← ok_inj filtered)
              (any-filter (λ q. text_eq q key) (under p) (keys source.entries)
                ∙ under_at key p (keys source.entries)
                ∙ ap (λ b. b && under p key) (keys-get_entry key source.entries))
      ])
