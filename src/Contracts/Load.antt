-- ===== src/Contracts/Load.antt =====
-- crates/satunera-contracts/src/lib.rs: the loading of `config.json` and `problem.json`, with
-- `ContractError` of error.rs.
pub mod Laws
pub mod Sources
use satunera.Prelude.{ℕ, Option, none, some, List, [], ◌∷◌, Text, codes}
use satunera.Contracts.Source.{SourceError, Sourced, ok, err}
use satunera.Contracts.Source.Interface.{ProblemSource}
use satunera.Contracts.Schema.{ContractFile, config, problem, SchemaViolation, Schemas, validate}

abbrev pub problem_manifest : Text
problem_manifest = codes "problem.json"

-- `Failed` is `serde_json::Error`.
pub data ContractError (Failed : Type 0) : Type 0 where
  json : ContractFile → Failed → ContractError Failed
  schema : ContractFile → List SchemaViolation → ContractError Failed
  model : ContractFile → Failed → ContractError Failed
  source : SourceError → ContractError Failed

-- A result of `serde_json`, and one of the loader.
pub data Parsed (Failed A : Type 0) : Type 0 where
  parsed : A → Parsed Failed A
  failed : Failed → Parsed Failed A

pub data Loaded (Failed A : Type 0) : Type 0 where
  loaded : A → Loaded Failed A
  error : ContractError Failed → Loaded Failed A

module _ {Failed : Type 0} where
  unfoldable pub file : ContractError Failed → Option ContractFile
  file (json f e) = some f
  file (schema f vs) = some f
  file (model f e) = some f
  file (source e) = none

  unfoldable pub violations : ContractError Failed → List SchemaViolation
  violations (schema f vs) = vs
  violations (json f e) = []
  violations (model f e) = []
  violations (source e) = []

-- What the code takes from `serde_json`: the reading of bytes, and the typed form of a document.
module _ {Document Failure Failed A : Type 0} (schemas : Schemas Document Failure)
    (from_slice : List ℕ → Parsed Failed Document) (from_value : Document → Parsed Failed A) where
  -- `serde_json::from_value(document).map_err(…)`
  abbrev pub typed : ContractFile → Parsed Failed A → Loaded Failed A
  typed f (parsed a) = loaded a
  typed f (failed e) = error (model f e)

  abbrev pub refused_or_typed : ContractFile → List SchemaViolation → Document → Loaded Failed A
  refused_or_typed f [] document = typed f (from_value document)
  refused_or_typed f (v ∷ vs) document = error (schema f (v ∷ vs))

  abbrev pub checked : ContractFile → Parsed Failed Document → Loaded Failed A
  checked f (parsed document) = refused_or_typed f (validate schemas f document) document
  checked f (failed e) = error (json f e)

  unfoldable pub load : ContractFile → List ℕ → Loaded Failed A
  load f bytes = checked f (from_slice bytes)

  unfoldable pub load_config : List ℕ → Loaded Failed A
  unfolding load
  load_config bytes = load config bytes

  unfoldable pub load_problem : List ℕ → Loaded Failed A
  unfolding load
  load_problem bytes = load problem bytes

  abbrev pub load_read : Sourced (List ℕ) → Loaded Failed A
  unfolding load_problem
  load_read (ok bytes) = load_problem bytes
  load_read (err e) = error (source e)

  unfoldable pub load_problem_from : ProblemSource → Loaded Failed A
  load_problem_from files = load_read (files.read problem_manifest)
