-- ===== src/Store/Tests/States.antt =====
-- The checks of the tables and the states at single values.
use satunera.Prelude.{false, ◌≡◌, ◌&&◌, map, some, Text, codes, text_eq, any, is_some}
use satunera.Contracts.Difficulty
use satunera.Contracts.Language
use satunera.Contracts.Verdict
use satunera.Store.Role
use satunera.Store.Status
use satunera.Store.Status.{queued, done, preparing, running, can_transition_to, is_terminal}
use satunera.Store.Tables.{
  role_check, language_check, difficulty_check, status_check, verdict_check,
}
use satunera.Store.Behaviour.Checks.{checks_agree}
use satunera.Store.Behaviour.Lifecycle.{allowed, can_transition_to-allowed}

abbrev sample_text : Text
sample_text = codes "RUNNING"

checks_agree_example :
    (role_check sample_text ≡ is_some (Role.parse sample_text))
    × (status_check sample_text ≡ is_some (Status.parse sample_text))
    × (verdict_check (some sample_text) ≡ is_some (Verdict.parse sample_text))
    × (language_check sample_text ≡ is_some (Language.parse sample_text))
    × (difficulty_check sample_text
        ≡ any (λ s. text_eq s sample_text) (map Difficulty.as_str Difficulty.all_cases))
checks_agree_example = checks_agree sample_text

can_transition_to-allowed_example :
    (can_transition_to running preparing ≡ allowed running preparing)
    × ((is_terminal running && can_transition_to running preparing) ≡ false)
can_transition_to-allowed_example = can_transition_to-allowed running preparing
