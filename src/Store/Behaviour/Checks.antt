-- ===== src/Store/Behaviour/Checks.antt =====
-- The CHECK lists of the migration against the enums of the two crates.
use satunera.Prelude.{
  ◌≡◌, refl, sym, List, [], ◌∷◌, map, some, Text, text_eq, find?, any, is_some, arith,
}
use satunera.Contracts.Difficulty
use satunera.Contracts.Language
use satunera.Contracts.Verdict
use satunera.Store.Role
use satunera.Store.Status
use satunera.Store.Tables.{
  role_check, language_check, difficulty_check, status_check, verdict_check,
}

find?_printed :
    {A : Type 0} (as_str : A → Text) (t : Text) (xs : List A)
    → is_some (find? (λ v. text_eq (as_str v) t) xs) ≡ any (λ s. text_eq s t) (map as_str xs)
unfolding find? any
find?_printed as_str t [] = refl
find?_printed as_str t (x ∷ xs) = ground (arith, find?_printed as_str t xs)

-- A text passes the CHECK of a role, a status, a verdict or a language exactly when the enum of the code
-- parses it, and the difficulties that pass are the texts of the enum.
pub checks_agree :
    (t : Text)
    → (role_check t ≡ is_some (Role.parse t))
      × (status_check t ≡ is_some (Status.parse t))
      × (verdict_check (some t) ≡ is_some (Verdict.parse t))
      × (language_check t ≡ is_some (Language.parse t))
      × (difficulty_check t ≡ any (λ s. text_eq s t) (map Difficulty.as_str Difficulty.all_cases))
unfolding role_check status_check verdict_check language_check difficulty_check Role.parse
    Status.parse Verdict.parse Language.parse Role.as_str Status.as_str Verdict.as_str
    Language.as_str Difficulty.as_str
checks_agree t = (
  sym (find?_printed Role.as_str t Role.all_cases),
  sym (find?_printed Status.as_str t Status.all_cases),
  sym (find?_printed Verdict.as_str t Verdict.all_cases),
  sym (find?_printed Language.as_str t Language.all_cases),
  refl,
)
