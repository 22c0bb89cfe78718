-- ===== src/Contracts/Language.antt =====
-- crates/satunera-contracts/src/problem.rs: `Language` and its texts.
use satunera.Prelude.{
  ◌≡◌, refl, sym, ◌↔◌, Option, some, List, [], ◌∷◌, Text, codes, text_eq, find?, find?-text_eq,
}

pub data Language : Type 0 where
  rust py cpp : Language

-- `Language::ALL`
abbrev pub all_cases : List Language
all_cases = rust ∷ py ∷ cpp ∷ []

unfoldable pub as_str : Language → Text
as_str rust = codes "rust"
as_str py = codes "py"
as_str cpp = codes "cpp"

unfoldable pub parse : Text → Option Language
unfolding find?
parse value = find? (λ v. text_eq (as_str v) value) all_cases

pub parse-as_str : (v : Language) → parse (as_str v) ≡ some v
unfolding parse as_str text_eq
parse-as_str rust = refl
parse-as_str py = refl
parse-as_str cpp = refl

-- `parse` accepts exactly the text that `as_str` prints, and gives back the value printed.
pub parse_iff : (value : Text) (v : Language) → (parse value ≡ some v) ↔ (value ≡ as_str v)
unfolding parse
parse_iff value v =
    (λ h. sym (find?-text_eq as_str all_cases value v h), λ e. rw e (parse-as_str v))
