-- ===== src/Store/Behaviour/Catalog/Lookup.antt =====
-- What the statements on `problems` of crates/satunera-store/src/sqlite.rs do to the row with an id.
use satunera.Prelude.{
  apart, true, false, not, ◌≡◌, ◌&&◌, refl, ◌∙◌, inl, inr, List, [], ◌∷◌, ◌++◌, map, Option, none,
  some, Text, text_eq, text_eq_iff, any, find?, filter, if◌then◌else◌, Bool-cases, arith,
}
use satunera.Store.Tables.{ProblemRecord, Db, has_problem}
use satunera.Store.Tables.Statements.{stored, upsert_problem, update_problem, delete_problem}

abbrev pub lookup : Text → List ProblemRecord → Option ProblemRecord
lookup q rows = find? (λ p. text_eq p.id q) rows

module _ (q : Text) (row : ProblemRecord) where
  lookup-updated :
      (rows : List ProblemRecord)
      → lookup q (map (update_problem row) rows)
        ≡ (if text_eq row.id q && any (λ p. text_eq p.id q) rows then some row else lookup q rows)
  unfolding find? any update_problem
  lookup-updated [] = ground arith
  lookup-updated (p ∷ rows) = elim (Bool-cases (text_eq p.id row.id)) [
    | inl same ↦
        let e : p.id ≡ row.id = (text_eq_iff p.id row.id).0 same in
        rw (same, e) (ground (arith, lookup-updated rows))
    | inr other ↦ elim (Bool-cases (text_eq p.id q)) [
      | inl here ↦ rw (other, here, apart p.id row.id q other here) refl
      | inr away ↦ rw (other, away) (lookup-updated rows)
    ]
  ]

  lookup-added :
      (rows : List ProblemRecord)
      → any (λ p. text_eq p.id row.id) rows ≡ false
      → lookup q (rows ++ row ∷ []) ≡ (if text_eq row.id q then some row else lookup q rows)
  unfolding find? any
  lookup-added [] h = refl
  lookup-added (p ∷ rows) h = elim (Bool-cases (text_eq p.id q)) [
    | inl here ↦
        let differs : text_eq p.id row.id ≡ false = ground arith in
        rw (here, apart p.id row.id q differs here) refl
    | inr away ↦ rw away (lookup-added rows (ground arith))
  ]

  pub upsert_problem-lookup :
      (db after : Db)
      → upsert_problem row db ≡ stored after
      → lookup q after.problems ≡ (if text_eq row.id q then some row else lookup q db.problems)
  unfolding upsert_problem has_problem
  upsert_problem-lookup db after e =
      elim (Bool-cases (any (λ p. text_eq p.id row.id) db.problems)) [
        | inl old ↦
            let made : record db { problems = map (update_problem row) db.problems } ≡ after =
              ground arith in
            rw (← made) (
              lookup-updated db.problems ∙ (elim (Bool-cases (text_eq row.id q)) [
                | inl same ↦
                    let old' : any (λ p. text_eq p.id q) db.problems ≡ true =
                      rw ((text_eq_iff row.id q).0 same) at old in
                    rw (same, old') refl
                | inr other ↦ rw other refl
              ]))
        | inr fresh ↦
            let made : record db { problems = db.problems ++ row ∷ [] } ≡ after = ground arith in
            rw (← made) (lookup-added db.problems fresh)
      ]

lookup-filtered :
    (id q : Text) (rows : List ProblemRecord)
    → lookup q (filter (λ p. not (text_eq p.id id)) rows)
      ≡ (if text_eq id q then none else lookup q rows)
unfolding find? filter
lookup-filtered id q [] = ground arith
lookup-filtered id q (p ∷ rows) = elim (Bool-cases (text_eq p.id id)) [
  | inl same ↦
      let e : p.id ≡ id = (text_eq_iff p.id id).0 same in
      rw (same, e) (ground (arith, lookup-filtered id q rows))
  | inr other ↦ elim (Bool-cases (text_eq p.id q)) [
    | inl here ↦ rw (other, here, apart p.id id q other here) refl
    | inr away ↦ rw (other, away) (lookup-filtered id q rows)
  ]
]

pub delete_problem-lookup :
    (id q : Text) (db after : Db)
    → delete_problem id db ≡ stored after
    → lookup q after.problems ≡ (if text_eq id q then none else lookup q db.problems)
unfolding delete_problem
delete_problem-lookup id q db after e =
    let made : record db { problems = filter (λ p. not (text_eq p.id id)) db.problems } ≡ after =
      ground arith in
    rw (← made) (lookup-filtered id q db.problems)
