-- ===== src/Contracts/Config/Laws.antt =====
-- The problems that a configuration references, and its profiles.
use satunera.Prelude.{
  Bool, true, ◌≡◌, ◌||◌, inl, inr, List, [], ◌∷◌, ◌++◌, Text, text_eq, text_eq_iff, any, arith,
  Bool-cases,
}
use satunera.Prelude.Keyed.{Distinct, Distinct-append, any-append}
use satunera.Contracts.Config.{
  Config, Track, push_unseen, push_problems, push_tracks, referenced_problems,
}

abbrev itself : Text → Text
itself id = id

-- The test that an id is in a list.
abbrev pub lists : List Text → Text → Bool
lists ids id = any (λ s. text_eq s id) ids

-- The problems of the tracks, one after the other.
abbrev pub all_problems : List Track → List Text
all_problems [] = []
all_problems (track ∷ tracks) = track.problems ++ all_problems tracks

push_unseen-Distinct :
    (id : Text) (seen : List Text) → Distinct itself seen → Distinct itself (push_unseen id seen)
unfolding push_unseen
push_unseen-Distinct id seen d = elim (Bool-cases (lists seen id)) [
  | inl old ↦ rw old d
  | inr fresh ↦ rw fresh (Distinct-append itself seen id fresh d)
]

lists-push_unseen :
    (id q : Text) (seen : List Text)
    → lists (push_unseen id seen) q ≡ (lists seen q || text_eq id q)
unfolding push_unseen any
lists-push_unseen id q seen = elim (Bool-cases (lists seen id)) [
  | inl old ↦ elim (Bool-cases (text_eq id q)) [
    | inl same ↦
        let old' : lists seen q ≡ true = rw ((text_eq_iff id q).0 same) at old in ground arith
    | inr other ↦ ground arith
  ]
  | inr fresh ↦ rw (fresh, any-append (λ s. text_eq s q) seen (id ∷ [])) (ground arith)
]

push_problems-Distinct :
    (ids seen : List Text) → Distinct itself seen → Distinct itself (push_problems ids seen)
unfolding push_problems
push_problems-Distinct [] seen d = d
push_problems-Distinct (id ∷ ids) seen d =
    push_problems-Distinct ids (push_unseen id seen) (push_unseen-Distinct id seen d)

lists-push_problems :
    (ids seen : List Text) (q : Text)
    → lists (push_problems ids seen) q ≡ (lists seen q || lists ids q)
unfolding push_problems any
lists-push_problems [] seen q = ground arith
lists-push_problems (id ∷ ids) seen q =
    rw (lists-push_problems ids (push_unseen id seen) q, lists-push_unseen id q seen) (ground arith)

push_tracks-Distinct :
    (tracks : List Track) (seen : List Text)
    → Distinct itself seen
    → Distinct itself (push_tracks tracks seen)
unfolding push_tracks
push_tracks-Distinct [] seen d = d
push_tracks-Distinct (track ∷ tracks) seen d =
    push_tracks-Distinct tracks (push_problems track.problems seen)
      (push_problems-Distinct track.problems seen d)

lists-push_tracks :
    (tracks : List Track) (seen : List Text) (q : Text)
    → lists (push_tracks tracks seen) q ≡ (lists seen q || lists (all_problems tracks) q)
unfolding push_tracks any
lists-push_tracks [] seen q = ground arith
lists-push_tracks (track ∷ tracks) seen q =
    rw
      (
        lists-push_tracks tracks (push_problems track.problems seen) q,
        lists-push_problems track.problems seen q,
        any-append (λ s. text_eq s q) track.problems (all_problems tracks),
      )
      (ground arith)

-- The problems that a configuration references are listed once each, and are exactly those that some
-- track names.
pub referenced_problems-Distinct :
    (config : Config)
    → Distinct (λ id. id) (referenced_problems config)
      × ((q : Text)
          → any (λ s. text_eq s q) (referenced_problems config)
            ≡ any (λ s. text_eq s q) (all_problems config.tracks))
unfolding referenced_problems any
referenced_problems-Distinct config =
    (push_tracks-Distinct config.tracks [] tt, λ q. lists-push_tracks config.tracks [] q)
