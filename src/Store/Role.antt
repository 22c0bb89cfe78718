-- ===== src/Store/Role.antt =====
-- crates/satunera-store/src/model.rs: `Role` and its texts.
use satunera.Prelude.{
  ◌≡◌, refl, sym, ◌↔◌, Option, some, List, [], ◌∷◌, Text, codes, text_eq, find?, find?-text_eq,
}

pub data Role : Type 0 where
  learner author admin : Role

-- `Role::ALL`
abbrev pub all_cases : List Role
all_cases = learner ∷ author ∷ admin ∷ []

unfoldable pub as_str : Role → Text
as_str learner = codes "learner"
as_str author = codes "author"
as_str admin = codes "admin"

unfoldable pub parse : Text → Option Role
unfolding find?
parse value = find? (λ v. text_eq (as_str v) value) all_cases

pub parse-as_str : (v : Role) → parse (as_str v) ≡ some v
unfolding parse as_str text_eq
parse-as_str learner = refl
parse-as_str author = refl
parse-as_str admin = refl

-- `parse` accepts exactly the text that `as_str` prints, and gives back the value printed.
pub parse_iff : (value : Text) (v : Role) → (parse value ≡ some v) ↔ (value ≡ as_str v)
unfolding parse
parse_iff value v =
    (λ h. sym (find?-text_eq as_str all_cases value v h), λ e. rw e (parse-as_str v))
