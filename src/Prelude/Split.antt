-- ===== src/Prelude/Split.antt =====
-- The parts of `str` that cut text: `split`, `join`, `lines` and `trim`.
pub mod Laws
pub mod Trims
use Prim.Native.Nat.{ℕ, zero, suc}
use mathlib.Core.Path.{◌≡◌, refl}
use mathlib.Core.Bool.{Bool, true, false, ◌&&◌, ◌||◌}
use mathlib.Core.List.{List, [], ◌∷◌, ◌++◌, map, reverse}
use satunera.Prelude.Tests.{leb, ◌==◌, if◌then◌else◌}
use satunera.Prelude.Strings.{Text}

-- One more character at the front of the first piece.
abbrev pub push_first : ℕ → List Text → List Text
push_first c [] = (c ∷ []) ∷ []
push_first c (w ∷ ws) = (c ∷ w) ∷ ws

-- `split`: there is always one piece.
unfoldable pub split_on : ℕ → Text → List Text
split_on sep [] = [] ∷ []
split_on sep (c ∷ s) =
    let rest = split_on sep s in if c == sep then [] ∷ rest else push_first c rest

-- `join`
unfoldable pub join_with : ℕ → List Text → Text
join_with sep [] = []
join_with sep (w ∷ []) = w
join_with sep (w ∷ v ∷ ws) = w ++ sep ∷ join_with sep (v ∷ ws)

-- `char::is_whitespace`
unfoldable pub is_whitespace : ℕ → Bool
is_whitespace c =
    (leb 0x9 c && leb c 0xd)
    || (c == 0x20
        || (c == 0x85
            || (c == 0xa0
                || (c == 0x1680
                    || ((leb 0x2000 c && leb c 0x200a)
                        || (c == 0x2028
                            || (c == 0x2029 || (c == 0x202f || (c == 0x205f || c == 0x3000)))))))))

unfoldable pub trim_start : Text → Text
trim_start [] = []
trim_start (c ∷ s) = if is_whitespace c then trim_start s else c ∷ s

-- `trim`
unfoldable pub trim : Text → Text
unfolding trim_start is_whitespace
trim s = reverse (trim_start (reverse (trim_start s)))

-- A line ends before `\n`, or before `\r\n`.
abbrev pub strip_return : Text → Text
strip_return [] = []
strip_return (c ∷ []) = if c == 0xd then [] else c ∷ []
strip_return (c ∷ d ∷ s) = c ∷ strip_return (d ∷ s)

-- Of the pieces between `\n`s the last is no line if it is empty.
abbrev pub ended : List Text → List Text
ended [] = []
ended ([] ∷ []) = []
ended ((c ∷ s) ∷ []) = (c ∷ s) ∷ []
ended (w ∷ v ∷ ws) = strip_return w ∷ ended (v ∷ ws)

-- `lines`
unfoldable pub lines : Text → List Text
unfolding split_on
lines s = ended (split_on 0xa s)
