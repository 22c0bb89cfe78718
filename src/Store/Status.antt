-- ===== src/Store/Status.antt =====
-- crates/satunera-store/src/model.rs: where a submission is in its lifecycle.
use satunera.Prelude.{
  ◌≡◌, refl, sym, ◌↔◌, Bool, true, false, Option, some, List, [], ◌∷◌, Text, codes, text_eq, find?,
  find?-text_eq,
}

pub data SubmissionStatus : Type 0 where
  queued preparing building booting running done : SubmissionStatus

-- `SubmissionStatus::ALL`
abbrev pub all_cases : List SubmissionStatus
all_cases = queued ∷ preparing ∷ building ∷ booting ∷ running ∷ done ∷ []

unfoldable pub as_str : SubmissionStatus → Text
as_str queued = codes "QUEUED"
as_str preparing = codes "PREPARING"
as_str building = codes "BUILDING"
as_str booting = codes "BOOTING"
as_str running = codes "RUNNING"
as_str done = codes "DONE"

unfoldable pub parse : Text → Option SubmissionStatus
unfolding find?
parse value = find? (λ v. text_eq (as_str v) value) all_cases

pub parse-as_str : (v : SubmissionStatus) → parse (as_str v) ≡ some v
unfolding parse as_str text_eq
parse-as_str queued = refl
parse-as_str preparing = refl
parse-as_str building = refl
parse-as_str booting = refl
parse-as_str running = refl
parse-as_str done = refl

-- `parse` accepts exactly the text that `as_str` prints, and gives back the value printed.
pub parse_iff : (value : Text) (v : SubmissionStatus) → (parse value ≡ some v) ↔ (value ≡ as_str v)
unfolding parse
parse_iff value v =
    (λ h. sym (find?-text_eq as_str all_cases value v h), λ e. rw e (parse-as_str v))

unfoldable pub is_terminal : SubmissionStatus → Bool
is_terminal done = true
is_terminal _ = false

-- The arms of the `match`, in its order.
unfoldable pub can_transition_to : SubmissionStatus → SubmissionStatus → Bool
can_transition_to done _ = false
can_transition_to _ queued = false
can_transition_to preparing preparing = true
can_transition_to building preparing = true
can_transition_to booting preparing = true
can_transition_to running preparing = true
can_transition_to queued preparing = true
can_transition_to preparing building = true
can_transition_to preparing booting = true
can_transition_to preparing running = true
can_transition_to preparing done = true
can_transition_to building booting = true
can_transition_to building running = true
can_transition_to building done = true
can_transition_to booting running = true
can_transition_to booting done = true
can_transition_to running done = true
can_transition_to _ _ = false
