-- ===== src/Contracts/Schema.antt =====
-- crates/satunera-contracts/src/schema.rs: the check of a document against its schema, with
-- `ContractFile` and `SchemaViolation` of error.rs.
pub mod Laws
use satunera.Prelude.{
  Bool, ◌&&◌, List, [], ◌∷◌, ◌++◌, map, Text, codes, text_eq, text_le, if◌then◌else◌,
}
use satunera.Prelude.Sorting.{sort_by, dedup}

pub data ContractFile : Type 0 where
  config problem : ContractFile

unfoldable pub file_name : ContractFile → Text
file_name config = codes "config.json"
file_name problem = codes "problem.json"

pub record SchemaViolation : Type 0 where
  pub pointer : Text
  pub message : Text

-- `impl fmt::Display for SchemaViolation`
abbrev pub displayed_at : (pointer message : Text) → Text
displayed_at [] message = message
displayed_at pointer message = pointer ++ codes ": " ++ message

unfoldable pub display : SchemaViolation → Text
display v = displayed_at v.pointer v.message

-- The derived `PartialEq`.
abbrev pub violation_eq : SchemaViolation → SchemaViolation → Bool
violation_eq a b = text_eq a.pointer b.pointer && text_eq a.message b.message

-- `a.pointer.cmp(&b.pointer).then_with(|| a.message.cmp(&b.message))`, where it is not `Greater`.
unfoldable pub violation_le : SchemaViolation → SchemaViolation → Bool
violation_le a b =
    if text_eq a.pointer b.pointer then text_le a.message b.message else text_le a.pointer b.pointer

-- What the code takes from `jsonschema`: the errors that each of the three compiled schemas finds in a
-- document, in an order that is not guaranteed, each with the path of the value and a message.
pub record Schemas (Document Failure : Type 0) : Type 0 where
  pub config_errors : Document → List Failure
  pub problem_errors : Document → List Failure
  pub verdict_errors : Document → List Failure
  pub instance_path : Failure → Text
  pub to_text : Failure → Text

module _ {Document Failure : Type 0} (schemas : Schemas Document Failure) where
  abbrev pub violation_of : Failure → SchemaViolation
  violation_of error = record {
    pointer = schemas.instance_path error;
    message = schemas.to_text error;
  }

  unfoldable pub collect : (Document → List Failure) → Document → List SchemaViolation
  collect iter_errors document =
      dedup violation_eq (sort_by violation_le (map violation_of (iter_errors document)))

  abbrev pub validator_for : ContractFile → Document → List Failure
  validator_for config = schemas.config_errors
  validator_for problem = schemas.problem_errors

  unfoldable pub validate : ContractFile → Document → List SchemaViolation
  validate file document = collect (validator_for file) document

  unfoldable pub validate_verdict : Document → List SchemaViolation
  validate_verdict document = collect schemas.verdict_errors document
