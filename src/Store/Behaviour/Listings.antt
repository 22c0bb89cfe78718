-- ===== src/Store/Behaviour/Listings.antt =====
-- What the listing reads of crates/satunera-store/src/sqlite.rs return: `in_flight_submissions`.
use satunera.Prelude.{
  Bool, false, not, ◌≡◌, ◌↔◌, refl, sym, ap, ◌∙◌, ◌⊎◌, inl, inr, List, [], ◌∷◌, Option, none, some,
  codes, text_eq, filter, arith,
}
use mathlib.Core.Path.{subst}
use satunera.Prelude.Members.{Occurs, Occurs-filter, filter-Occurs, Occurs-sort_by, sort_by-Occurs}
use satunera.Contracts.Language
use satunera.Contracts.Verdict
use satunera.Store.Status
use satunera.Store.Status.{SubmissionStatus, is_terminal}
use satunera.Store.Codec.{Codec}
use satunera.Store.Error.{
  Detail, bad_id, bad_user_id, bad_language, bad_status, bad_verdict, corrupt_row, Result, ok, err,
  panicked, StoreError, bind-eq-ok, ◌>>=◌ as bind,
}
use satunera.Store.Model.{Submission}
use satunera.Store.Tables.{SubmissionRecord, Db}
use satunera.Store.Sqlite.Actions.{collected, transposed, parse_ts, parse_opt_ts, ok_or}
use satunera.Store.Sqlite.Submissions.{in_flight_submissions, into_submission}

module _ {Ulid : Type 0} where
  pub result_inj : {A : Type 0} {a b : A} → ◌≡◌ {A = Result Ulid A} (ok a) (ok b) → a ≡ b
  result_inj h = cc

  pub collected-cons :
      {A B : Type 0} (f : A → Result Ulid B) (x : A) (xs : List A) (ys : List B)
      → collected f (x ∷ xs) ≡ ok ys
      → (b : B) × (bs : List B) × (f x ≡ ok b) × (collected f xs ≡ ok bs) × (b ∷ bs ≡ ys)
  collected-cons f x xs ys h =
      let (b, first, rest) = bind-eq-ok (f x) _ h in
      let (bs, later, made) = bind-eq-ok (collected f xs) _ rest in
      (b, bs, first, later, result_inj made)

  -- What is collected comes from an element.
  collected-Occurs :
      {A B : Type 0} (f : A → Result Ulid B) (xs : List A) (ys : List B) (y : B)
      → collected f xs ≡ ok ys
      → Occurs y ys
      → (x : A) × Occurs x xs × (f x ≡ ok y)
  collected-Occurs f [] [] y h i = absurd i
  collected-Occurs f [] (z ∷ ys) y h i = cc
  collected-Occurs f (x ∷ xs) ys y h i =
      let (b, bs, first, later, made) = collected-cons f x xs ys h in
      let j : Occurs y (b ∷ bs) = subst (Occurs y) (sym made) i in
      elim j [
        | inl e ↦ (x, inl refl, rw e first)
        | inr k ↦ let (z, l, g) = collected-Occurs f xs bs y later k in (z, inr l, g)
      ]

  -- Each element is collected.
  pub Occurs-collected :
      {A B : Type 0} (f : A → Result Ulid B) (xs : List A) (ys : List B) (x : A) (y : B)
      → collected f xs ≡ ok ys
      → Occurs x xs
      → f x ≡ ok y
      → Occurs y ys
  Occurs-collected f [] ys x y h i e = absurd i
  Occurs-collected f (z ∷ xs) ys x y h i e =
      let (b, bs, first, later, made) = collected-cons f z xs ys h in
      let j : (y ≡ b) ⊎ Occurs y bs = elim i [
        | inl same ↦ inl (result_inj (sym e ∙ ap f same ∙ first))
        | inr k ↦ inr (Occurs-collected f xs bs x y later k e)
      ] in
      rw (← made) j

  -- What holds of the value that is returned.
  abbrev Gives : {A : Type 0} → Result Ulid A → (A → Type 0) → Type 0
  Gives {A} r Q = (a : A) → r ≡ ok a → Q a

  Gives-bind :
      {A B : Type 0} (m : Result Ulid A) (f : A → Result Ulid B) (Q : B → Type 0)
      → ((a : A) → m ≡ ok a → Gives (f a) Q)
      → Gives (bind m f) Q
  Gives-bind (ok a) f Q h b e = h a refl b e
  Gives-bind (err x) f Q h b e = cc
  Gives-bind panicked f Q h b e = cc

  Gives-ok : {A : Type 0} (a : A) (Q : A → Type 0) → Q a → Gives (ok a) Q
  Gives-ok a Q q b e = rw (← result_inj e) q

  ok_or-eq-ok :
      {A : Type 0} (e : StoreError Ulid) (o : Option A) (a : A) → ok_or e o ≡ ok a → o ≡ some a
  ok_or-eq-ok e none a h = cc
  ok_or-eq-ok e (some b) a h = cc

not-done :
    (s : SubmissionStatus) → not (text_eq (Status.as_str s) (codes "DONE")) ≡ not (is_terminal s)
unfolding Status.as_str text_eq is_terminal
not-done Status.queued = refl
not-done Status.preparing = refl
not-done Status.building = refl
not-done Status.booting = refl
not-done Status.running = refl
not-done Status.done = refl

module _ {Ulid Time : Type 0} (c : Codec Ulid Time) where
  status_of :
      (row : SubmissionRecord) (s : Submission Ulid Time)
      → into_submission c row ≡ ok s
      → Status.parse row.status ≡ some s.status
  unfolding into_submission
  status_of row =
      let corrupt : Detail Ulid → StoreError Ulid = corrupt_row (codes "submissions") in
      Gives-bind (ok_or (corrupt (bad_id row.id)) (c.parse_ulid row.id)) _ _ λ id _.
        Gives-bind (ok_or (corrupt (bad_user_id row.user_id)) (c.parse_ulid row.user_id)) _ _
          λ user_id _.
            Gives-bind (ok_or (corrupt (bad_language row.language)) (Language.parse row.language)) _
              _
              λ language _.
                Gives-bind (ok_or (corrupt (bad_status row.status)) (Status.parse row.status)) _ _
                  λ status parsed.
                    Gives-bind
                      (transposed (λ v. ok_or (corrupt (bad_verdict v)) (Verdict.parse v))
                        row.verdict)
                      _ _
                      λ verdict _.
                        Gives-bind (parse_ts c (codes "submissions") row.created_at) _ _
                          λ created _.
                            Gives-bind (parse_opt_ts c (codes "submissions") row.started_at) _ _
                              λ started _.
                                Gives-bind (parse_opt_ts c (codes "submissions") row.finished_at) _
                                  _ λ finished _. Gives-ok _ _ (ok_or-eq-ok _ _ status parsed)

  in_flight_row :
      (row : SubmissionRecord) (s : Submission Ulid Time)
      → into_submission c row ≡ ok s
      → not (text_eq row.status (codes "DONE")) ≡ not (is_terminal s.status)
  in_flight_row row s e =
      let printed = (Status.parse_iff row.status s.status).0 (status_of row s e) in
      rw printed (not-done s.status)

  -- What `in_flight_submissions` returns is exactly what reads from the rows and is not in a terminal
  -- state.
  pub in_flight_iff :
      (db : Db) (subs : List (Submission Ulid Time)) (s : Submission Ulid Time)
      → (in_flight_submissions c db).0 ≡ ok subs
      → Occurs s subs ↔ (
          (row : SubmissionRecord) × Occurs row db.submissions
          × (into_submission c row ≡ ok s)
          × (is_terminal s.status ≡ false))
  unfolding in_flight_submissions
  in_flight_iff db subs s e =
      let awaited : SubmissionRecord → Bool = λ r. not (text_eq r.status (codes "DONE")) in
      (
        λ i.
            let (row, there, reads) = collected-Occurs (into_submission c) _ subs s e i in
            let sorted = sort_by-Occurs _ row (filter awaited db.submissions) there in
            let (waits, stands) = filter-Occurs awaited row db.submissions sorted in
            (row, stands, reads, ground (arith, sym (in_flight_row row s reads) ∙ waits)),
        λ (row, stands, reads, waits).
            Occurs-collected (into_submission c) _ subs row s e
              (Occurs-sort_by _ row (filter awaited db.submissions) (
                Occurs-filter awaited row db.submissions (in_flight_row row s reads ∙ ap not waits)
                  stands))
              reads,
      )
