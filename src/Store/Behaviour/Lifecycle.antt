-- ===== src/Store/Behaviour/Lifecycle.antt =====
-- `SubmissionStatus::can_transition_to` as an order on the states.
use satunera.Prelude.{ℕ, ltb, ◌==◌, ◌&&◌, ◌||◌, Bool, false, ◌≡◌, refl}
use satunera.Store.Status.{
  SubmissionStatus, queued, preparing, building, booting, running, done, is_terminal,
  can_transition_to,
}

-- How far along the pipeline a state is.
abbrev pub rank : SubmissionStatus → ℕ
rank queued = 0
rank preparing = 1
rank building = 2
rank booting = 3
rank running = 4
rank done = 5

-- A proof by the six cases.
every :
    (P : SubmissionStatus → Type 0)
    → P queued
    → P preparing
    → P building
    → P booting
    → P running
    → P done
    → (s : SubmissionStatus) → P s
every P q p b o r d queued = q
every P q p b o r d preparing = p
every P q p b o r d building = b
every P q p b o r d booting = o
every P q p b o r d running = r
every P q p b o r d done = d

abbrev pub allowed : SubmissionStatus → SubmissionStatus → Bool
allowed current next =
    ltb (rank current) (rank done) && (rank next == rank preparing)
    || ltb (rank queued) (rank current) && ltb (rank current) (rank next)

-- The moves that the code allows are those to `preparing` from a submission that is not done, and those
-- to a later state from one that has left the queue; so one that is done never moves.
pub can_transition_to-allowed :
    (current next : SubmissionStatus)
    → (can_transition_to current next ≡ allowed current next)
      × ((is_terminal current && can_transition_to current next) ≡ false)
unfolding can_transition_to is_terminal
can_transition_to-allowed current next = (
  every (λ s. (t : SubmissionStatus) → can_transition_to s t ≡ allowed s t)
      (every (λ t. can_transition_to queued t ≡ allowed queued t) refl refl refl refl refl refl)
      (every (λ t. can_transition_to preparing t ≡ allowed preparing t) refl refl refl refl refl
        refl)
      (every (λ t. can_transition_to building t ≡ allowed building t) refl refl refl refl refl refl)
      (every (λ t. can_transition_to booting t ≡ allowed booting t) refl refl refl refl refl refl)
      (every (λ t. can_transition_to running t ≡ allowed running t) refl refl refl refl refl refl)
      (every (λ t. can_transition_to done t ≡ allowed done t) refl refl refl refl refl refl) current
      next,
  every (λ s. (is_terminal s && can_transition_to s next) ≡ false) refl refl refl refl refl refl
      current,
)
