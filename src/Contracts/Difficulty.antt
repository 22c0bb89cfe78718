-- ===== src/Contracts/Difficulty.antt =====
-- crates/satunera-contracts/src/problem.rs: `Difficulty` and its texts.
use satunera.Prelude.{List, [], ◌∷◌, Text, codes}

pub data Difficulty : Type 0 where
  easy medium hard : Difficulty

-- `Difficulty::ALL`
abbrev pub all_cases : List Difficulty
all_cases = easy ∷ medium ∷ hard ∷ []

unfoldable pub as_str : Difficulty → Text
as_str easy = codes "easy"
as_str medium = codes "medium"
as_str hard = codes "hard"
