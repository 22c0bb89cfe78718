-- ===== src/Contracts/Source/Tar.antt =====
-- `TarSource` of crates/satunera-contracts/src/source.rs. Its `BTreeMap` is the list of the entries in
-- the order of their keys.
use Prim.Native.Nat.{bit_and}
use satunera.Prelude.{
  ℕ, ◌+◌, Bool, not, ◌||◌, ◌==◌, List, [], ◌∷◌, ◌++◌, map, Option, none, some, Text, codes, text_eq,
  text_le, starts_with, length, filter, if◌then◌else◌,
}
use satunera.Contracts.Source.Normalize.{Sourced, ok, err, not_found, ◌>>=◌, is_empty, normalize}

unfoldable pub mode_is_executable : ℕ → Bool
mode_is_executable mode = not (bit_and mode 0o111 == 0)

pub record TarEntry : Type 0 where
  pub mode : ℕ
  pub bytes : List ℕ

abbrev pub Entries : Type 0
Entries = List (Text × TarEntry)

-- `BTreeMap::insert`
unfoldable pub insert_entry : Text → TarEntry → Entries → Entries
insert_entry key e [] = (key, e) ∷ []
insert_entry key e ((k, f) ∷ rest) =
    let later = insert_entry key e rest in
    if text_eq key k
    then (k, e) ∷ rest
    else if text_le key k
    then (key, e) ∷ (k, f) ∷ rest
    else (k, f) ∷ later

-- `BTreeMap::get`
unfoldable pub get_entry : Text → Entries → Option TarEntry
get_entry key [] = none
get_entry key ((k, e) ∷ rest) = if text_eq k key then some e else get_entry key rest

pub record TarSource : Type 0 where
  pub entries : Entries

abbrev pub new : TarSource
new = record { entries = [] }

unfoldable pub insert : (path : Text) (mode : ℕ) (bytes : List ℕ) → TarSource → Sourced TarSource
insert path mode bytes source = normalize path >>= λ key.
    ok
      (record { entries = insert_entry key (record { mode = mode; bytes = bytes }) source.entries })

-- The loop of `from_entries`.
unfoldable pub insert_all : List (Text × ℕ × List ℕ) → TarSource → Sourced TarSource
insert_all [] source = ok source
insert_all ((path, mode, bytes) ∷ rest) source =
    insert path mode bytes source >>= λ source'. insert_all rest source'

unfoldable pub from_entries : List (Text × ℕ × List ℕ) → Sourced TarSource
from_entries entries = insert_all entries new

unfoldable pub len : TarSource → ℕ
len source = length source.entries

unfoldable pub has_no_entries : TarSource → Bool
has_no_entries source = is_empty source.entries

abbrev pub sum_bytes : Entries → ℕ
sum_bytes [] = 0
sum_bytes ((k, e) ∷ rest) = length e.bytes + sum_bytes rest

unfoldable pub total_bytes : TarSource → ℕ
total_bytes source = sum_bytes source.entries

abbrev pub found : Text → Option TarEntry → Sourced TarEntry
found key none = err (not_found key)
found key (some e) = ok e

unfoldable pub get : Text → TarSource → Sourced TarEntry
get path source = normalize path >>= λ key. found key (get_entry key source.entries)

unfoldable pub read : Text → TarSource → Sourced (List ℕ)
unfolding get
read path source = get path source >>= λ e. ok e.bytes

abbrev pub keys : Entries → List Text
keys = map (λ e. e.0)

-- Whether a key is the one listed, or stands under it.
unfoldable pub under : Text → Text → Bool
under key p = text_eq p key || starts_with p (key ++ b'/' ∷ [])

unfoldable pub list : Text → TarSource → Sourced (List Text)
list prefix source =
    if is_empty prefix || text_eq prefix (codes ".")
    then ok (keys source.entries)
    else (normalize prefix >>= λ key. ok (filter (under key) (keys source.entries)))

unfoldable pub is_executable : Text → TarSource → Sourced Bool
unfolding get
is_executable path source = get path source >>= λ e. ok (mode_is_executable e.mode)
