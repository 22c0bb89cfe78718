-- ===== src/Contracts/Schema/Laws.antt =====
-- The violations that are reported: each once, in order, and the same in whatever order the validator
-- found them.
use satunera.Prelude.{
  true, false, ◌≡◌, ◌↔◌, refl, sym, ◌∙◌, inl, inr, List, map, text_eq, text_eq_iff, text_eq_refl,
  text_le, text_le_refl, text_le_total, text_le_trans, text_le_antisym, any, arith, Bool-cases,
}
use satunera.Prelude.Sorting.{sort_by}
use satunera.Prelude.Sorting.Laws.{
  IsLinear, Climbs, sort_by-Rises, any-sort_by, any-dedup, dedup-Climbs, Climbs-unique,
}
use satunera.Contracts.Schema.{
  SchemaViolation, violation_eq, violation_le, Schemas, violation_of, collect, ContractFile,
  validator_for, validate,
}

pub violation_eq_iff : (a b : SchemaViolation) → (violation_eq a b ≡ true) ↔ (a ≡ b)
violation_eq_iff a b = (
  λ h.
      let p : a.pointer ≡ b.pointer = (text_eq_iff a.pointer b.pointer).0 (ground arith) in
      let m : a.message ≡ b.message = (text_eq_iff a.message b.message).0 (ground arith) in
      λ i. record { pointer = p i; message = m i },
  λ e. rw (e, text_eq_refl b.pointer, text_eq_refl b.message) refl,
)

violation_le_total : (a b : SchemaViolation) → violation_le a b ≡ false → violation_le b a ≡ true
unfolding violation_le
violation_le_total a b h = elim (Bool-cases (text_eq a.pointer b.pointer)) [
  | inl same ↦
      let e : a.pointer ≡ b.pointer = (text_eq_iff a.pointer b.pointer).0 same in
      let back : text_eq b.pointer a.pointer ≡ true = (text_eq_iff b.pointer a.pointer).1 (sym e) in
      rw back (text_le_total a.message b.message (rw same at h))
  | inr other ↦
      let below : text_le b.pointer a.pointer ≡ true =
        text_le_total a.pointer b.pointer (rw other at h) in
      elim (Bool-cases (text_eq b.pointer a.pointer)) [
        | inl back ↦ cc (
          (text_eq_iff a.pointer b.pointer).1 (sym ((text_eq_iff b.pointer a.pointer).0 back)),
          other,
        )
        | inr away ↦ rw away below
      ]
]

-- The pointers of violations in order are in order.
pointer_le : (a b : SchemaViolation) → violation_le a b ≡ true → text_le a.pointer b.pointer ≡ true
unfolding violation_le
pointer_le a b h = elim (Bool-cases (text_eq a.pointer b.pointer)) [
  | inl same ↦ rw ((text_eq_iff a.pointer b.pointer).0 same) (text_le_refl b.pointer)
  | inr other ↦ rw other at h
]

-- The messages of violations in order at one pointer are in order.
message_le :
    (a b : SchemaViolation)
    → violation_le a b ≡ true
    → a.pointer ≡ b.pointer
    → text_le a.message b.message ≡ true
unfolding violation_le
message_le a b h e = rw ((text_eq_iff a.pointer b.pointer).1 e) at h

violation_le_antisym :
    (a b : SchemaViolation) → violation_le a b ≡ true → violation_le b a ≡ true → a ≡ b
violation_le_antisym a b h k =
    let p : a.pointer ≡ b.pointer =
      text_le_antisym a.pointer b.pointer (pointer_le a b h) (pointer_le b a k) in
    let m : a.message ≡ b.message =
      text_le_antisym a.message b.message (message_le a b h p) (message_le b a k (sym p)) in
    λ i. record { pointer = p i; message = m i }

violation_le_of :
    (a b : SchemaViolation)
    → text_le a.pointer b.pointer ≡ true
    → (a.pointer ≡ b.pointer → text_le a.message b.message ≡ true)
    → violation_le a b ≡ true
unfolding violation_le
violation_le_of a b h k = elim (Bool-cases (text_eq a.pointer b.pointer)) [
  | inl same ↦ rw same (k ((text_eq_iff a.pointer b.pointer).0 same))
  | inr other ↦ rw other h
]

violation_le_trans :
    (a b c : SchemaViolation)
    → violation_le a b ≡ true
    → violation_le b c ≡ true
    → violation_le a c ≡ true
violation_le_trans a b c h k =
    let p = pointer_le a b h in
    let q = pointer_le b c k in
    violation_le_of a c (text_le_trans a.pointer b.pointer c.pointer p q) λ e.
      let q' : text_le b.pointer a.pointer ≡ true = rw (← e) at q in
      let same : a.pointer ≡ b.pointer = text_le_antisym a.pointer b.pointer p q' in
      text_le_trans a.message b.message c.message (message_le a b h same)
        (message_le b c k (sym same ∙ e))

violation-IsLinear : IsLinear violation_le violation_eq
violation-IsLinear = record {
  same = violation_eq_iff;
  total = violation_le_total;
  trans = violation_le_trans;
  antisym = violation_le_antisym;
}

module _ {Document Failure : Type 0} (schemas : Schemas Document Failure) where
  -- The violations reported are those of the validator's errors, no more and no fewer.
  pub any-collect :
      (errors : Document → List Failure) (document : Document) (v : SchemaViolation)
      → any (violation_eq v) (collect schemas errors document)
        ≡ any (violation_eq v) (map (violation_of schemas) (errors document))
  unfolding collect
  any-collect errors document v =
      any-dedup violation-IsLinear (violation_eq v)
        (sort_by violation_le (map (violation_of schemas) (errors document)))
      ∙ any-sort_by violation-IsLinear (violation_eq v)
          (map (violation_of schemas) (errors document))

  -- They stand in strictly rising order, by pointer and then by message, so each once.
  pub collect-Climbs :
      (errors : Document → List Failure) (document : Document)
      → Climbs violation_le violation_eq (collect schemas errors document)
  unfolding collect
  collect-Climbs errors document =
      dedup-Climbs violation-IsLinear
        (sort_by violation_le (map (violation_of schemas) (errors document)))
        (sort_by-Rises violation-IsLinear (map (violation_of schemas) (errors document)))

  -- The report of a document is in strictly rising order, by pointer and then by message, so each
  -- violation stands in it once, and it holds exactly the violations that the validator found.
  pub validate_report :
      (file : ContractFile) (document : Document)
      → Climbs violation_le violation_eq (validate schemas file document)
        × ((v : SchemaViolation)
            → any (violation_eq v) (validate schemas file document)
              ≡ any
                  (violation_eq v)
                  (map (violation_of schemas) (validator_for schemas file document)))
  unfolding validate
  validate_report file document = (
    collect-Climbs (validator_for schemas file) document,
    any-collect (validator_for schemas file) document,
  )

-- Two validators that find the same violations in a document, in whatever order and however often, give
-- the same report.
pub collect_stable :
    {Document Failure : Type 0} (schemas : Schemas Document Failure)
    (errors others : Document → List Failure) (document : Document)
    → ((v : SchemaViolation)
        → any (violation_eq v) (map (violation_of schemas) (errors document))
          ≡ any (violation_eq v) (map (violation_of schemas) (others document)))
    → collect schemas errors document ≡ collect schemas others document
collect_stable schemas errors others document h =
    Climbs-unique violation-IsLinear (collect schemas errors document)
      (collect schemas others document) (collect-Climbs schemas errors document)
      (collect-Climbs schemas others document)
      (λ v.
        any-collect schemas errors document v ∙ h v ∙ sym (any-collect schemas others document v))
