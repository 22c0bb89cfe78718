-- ===== src/Contracts/Load/Laws.antt =====
-- What `load_config` and `load_problem` of crates/satunera-contracts/src/lib.rs promise, and that they keep
-- it: which schema a file is checked against, what its errors carry, and when it becomes a value.
use satunera.Prelude.{
  ℕ, true, ◌≡◌, ◌↔◌, refl, sym, ap, ◌∙◌, inl, inr, List, [], ◌∷◌, map, any, Bool-cases,
}
use satunera.Prelude.Members.{Occurs}
use satunera.Prelude.Sorting.Laws.{Climbs}
use satunera.Contracts.Schema.{
  ContractFile, config, problem, SchemaViolation, violation_eq, violation_le, Schemas, violation_of,
  collect, validate,
}
use satunera.Contracts.Schema.Laws.{violation_eq_iff, any-collect, collect-Climbs}
use satunera.Contracts.Load.{
  json, schema, model, Parsed, parsed, failed, Loaded, loaded, error, typed, refused_or_typed,
  checked, load, load_config, load_problem,
}

any-Occurs :
    (v : SchemaViolation) (xs : List SchemaViolation)
    → (any (violation_eq v) xs ≡ true) ↔ Occurs v xs
unfolding any
any-Occurs v [] = (λ h. cc, λ i. absurd i)
any-Occurs v (x ∷ xs) = elim (Bool-cases (violation_eq v x)) [
  | inl same ↦ (λ h. inl ((violation_eq_iff v x).0 same), λ i. rw same refl)
  | inr other ↦ (
    λ h. inr ((any-Occurs v xs).0 (rw other at h)),
    λ i. elim i [
      | inl e ↦ cc ((violation_eq_iff v x).1 e, other)
      | inr j ↦ rw other ((any-Occurs v xs).1 j)
    ],
  )
]

module _ {Document Failure : Type 0} (schemas : Schemas Document Failure) where
  -- The failure of a schema that a violation reports.
  abbrev pub Reports : SchemaViolation → List Failure → Type 0
  Reports v failures =
      (x : Failure) × Occurs x failures
      × (schemas.instance_path x ≡ v.pointer)
      × (schemas.to_text x ≡ v.message)

  -- The failures as a report: in strictly rising order, so each once, without a loss or an addition.
  pub record IsReport (vs : List SchemaViolation) (failures : List Failure) : Type 0 where
    pub rises : Climbs violation_le violation_eq vs
    pub exact : (v : SchemaViolation) → Occurs v vs ↔ Reports v failures

  Occurs-violations :
      (v : SchemaViolation) (failures : List Failure)
      → Occurs v (map (violation_of schemas) failures) ↔ Reports v failures
  Occurs-violations v [] = (λ i. absurd i, λ (x, i, p, m). absurd i)
  Occurs-violations v (y ∷ failures) = (
    λ i. elim i [
      | inl e ↦ (y, inl refl, sym (ap (λ u. u.pointer) e), sym (ap (λ u. u.message) e))
      | inr j ↦ let (x, k, p, m) = (Occurs-violations v failures).0 j in (x, inr k, p, m)
    ],
    λ (x, i, p, m). elim i [
      | inl e ↦
          let pointer = sym p ∙ ap (schemas.instance_path) e in
          let message = sym m ∙ ap (schemas.to_text) e in
          inl (λ k. record { pointer = pointer k; message = message k })
      | inr j ↦ inr ((Occurs-violations v failures).1 (x, j, p, m))
    ],
  )

  collect-IsReport :
      (errors : Document → List Failure) (document : Document)
      → IsReport (collect schemas errors document) (errors document)
  collect-IsReport errors document = record {
    rises = collect-Climbs schemas errors document;
    exact = λ v.
        let same = any-collect schemas errors document v in
        let found = any-Occurs v (collect schemas errors document) in
        let given = any-Occurs v (map (violation_of schemas) (errors document)) in
        let reports = Occurs-violations v (errors document) in
        (
          λ i. reports.0 (given.0 (sym same ∙ found.1 i)),
          λ r. found.0 (same ∙ given.1 (reports.1 r)),
        );
  }

  IsReport-nothing : (failures : List Failure) → IsReport [] failures → failures ≡ []
  IsReport-nothing [] r = refl
  IsReport-nothing (x ∷ failures) r =
      absurd ((r.exact (violation_of schemas x)).1 (x, inl refl, refl, refl))

module _ {Document Failure Failed A : Type 0} (schemas : Schemas Document Failure)
    (from_slice : List ℕ → Parsed Failed Document) (from_value : Document → Parsed Failed A) where
  -- The outcomes of loading a file against a schema that finds `failures` in a document: the bytes are no
  -- JSON; the schema finds failures, and the error carries all of them; it finds none, but the document
  -- has not the typed form; it finds none, and the document has it.
  pub data Loads (f : ContractFile) (failures : Document → List Failure) (bytes : List ℕ)
      : Loaded Failed A → Type 0 where
    no_json : (e : Failed) → from_slice bytes ≡ failed e → Loads f failures bytes (error (json f e))
    refuted :
        (document : Document) (v : SchemaViolation) (vs : List SchemaViolation)
        → from_slice bytes ≡ parsed document
        → IsReport schemas (v ∷ vs) (failures document)
        → Loads f failures bytes (error (schema f (v ∷ vs)))
    untyped :
        (document : Document) (e : Failed)
        → from_slice bytes ≡ parsed document
        → failures document ≡ []
        → from_value document ≡ failed e
        → Loads f failures bytes (error (model f e))
    made :
        (document : Document) (a : A)
        → from_slice bytes ≡ parsed document
        → failures document ≡ []
        → from_value document ≡ parsed a
        → Loads f failures bytes (loaded a)

  module _ (f : ContractFile) (failures : Document → List Failure) (bytes : List ℕ) where
    typed-Loads :
        (document : Document) (t : Parsed Failed A)
        → from_slice bytes ≡ parsed document
        → failures document ≡ []
        → from_value document ≡ t
        → Loads f failures bytes (typed schemas from_slice from_value f t)
    typed-Loads document (parsed a) read clean e = made document a read clean e
    typed-Loads document (failed x) read clean e = untyped document x read clean e

    reported-Loads :
        (document : Document) (vs : List SchemaViolation)
        → from_slice bytes ≡ parsed document
        → IsReport schemas vs (failures document)
        → Loads f failures bytes (refused_or_typed schemas from_slice from_value f vs document)
    reported-Loads document [] read r =
        typed-Loads document (from_value document) read
          (IsReport-nothing schemas (failures document) r) refl
    reported-Loads document (v ∷ vs) read r = refuted document v vs read r

    checked-Loads :
        (r : Parsed Failed Document)
        → ((document : Document)
            → IsReport schemas (validate schemas f document) (failures document))
        → from_slice bytes ≡ r
        → Loads f failures bytes (checked schemas from_slice from_value f r)
    checked-Loads (parsed document) k read =
        reported-Loads document (validate schemas f document) read (k document)
    checked-Loads (failed e) k read = no_json e read

  -- `load_problem` checks against the problem schema, and `load_config` against the config schema. Bytes
  -- that are no JSON give the error of the reader. Where the schema finds failures, the error carries the
  -- place and the text of each of them and of nothing else, in strictly rising order; only where it finds
  -- none is the document read as the typed form, which is loaded, or whose error is given as the
  -- judge's. Each error names its file.
  pub load_problem-load_config-Loads :
      (bytes : List ℕ)
      → Loads problem schemas.problem_errors bytes
          (load_problem schemas from_slice from_value bytes)
        × Loads config schemas.config_errors bytes (load_config schemas from_slice from_value bytes)
  unfolding load_problem load_config load validate
  load_problem-load_config-Loads bytes = (
    checked-Loads problem schemas.problem_errors bytes (from_slice bytes)
        (collect-IsReport schemas schemas.problem_errors) refl,
    checked-Loads config schemas.config_errors bytes (from_slice bytes)
        (collect-IsReport schemas schemas.config_errors) refl,
  )
