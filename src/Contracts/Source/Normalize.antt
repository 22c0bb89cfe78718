-- ===== src/Contracts/Source/Normalize.antt =====
-- `SourceError` and `normalize` of crates/satunera-contracts/src/source.rs.
use satunera.Prelude.{
  ℕ, Bool, true, false, ◌&&◌, ◌||◌, ◌==◌, List, [], ◌∷◌, ◌++◌, map, Text, codes, text_eq, any,
  if◌then◌else◌,
}
use satunera.Prelude.Split.{split_on, join_with}

-- The error of the operating system that `io` carries is left out.
pub data SourceError : Type 0 where
  not_found is_directory escapes io : (path : Text) → SourceError

pub data Sourced (A : Type 0) : Type 0 where
  ok : A → Sourced A
  err : SourceError → Sourced A

infixl 5 ◌>>=◌
abbrev pub ◌>>=◌ : {A B : Type 0} → Sourced A → (A → Sourced B) → Sourced B
ok a >>= f = f a
err e >>= f = err e

-- `path.replace('\\', "/")`
abbrev pub slashed : ℕ → ℕ
slashed c = if c == 0x5c then b'/' else c

-- `trim_start_matches("./")`
unfoldable pub strip_dot_slash : Text → Text
strip_dot_slash (c ∷ d ∷ s) = if c == b'.' && d == b'/' then strip_dot_slash s else c ∷ d ∷ s
strip_dot_slash s = s

abbrev pub is_empty : {A : Type 0} → List A → Bool
is_empty [] = true
is_empty (a ∷ l) = false

abbrev pub starts_with_slash : Text → Bool
starts_with_slash [] = false
starts_with_slash (c ∷ s) = c == b'/'

-- The loop over the segments; `out` is what it has pushed.
unfoldable pub push_segments : (path : Text) → List Text → List Text → Sourced (List Text)
push_segments path out [] = ok out
push_segments path out (segment ∷ segments) =
    let skip = push_segments path out segments in
    let push = push_segments path (out ++ segment ∷ []) segments in
    if text_eq segment [] || text_eq segment (codes ".")
    then skip
    else if text_eq segment (codes "..")
    then err (escapes path)
    else push

-- The last test of `normalize`.
abbrev pub joined : (path : Text) → List Text → Sourced Text
joined path [] = err (not_found path)
joined path (w ∷ ws) = ok (join_with b'/' (w ∷ ws))

abbrev pub normalize_trimmed : (path trimmed : Text) → Sourced Text
normalize_trimmed path trimmed =
    if is_empty trimmed
    then err (not_found path)
    else if starts_with_slash trimmed || any (λ c. c == b':') trimmed
    then err (escapes path)
    else (push_segments path [] (split_on b'/' trimmed) >>= joined path)

unfoldable pub normalize : Text → Sourced Text
normalize path = normalize_trimmed path (strip_dot_slash (map slashed path))
