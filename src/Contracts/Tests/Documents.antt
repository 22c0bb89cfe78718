-- ===== src/Contracts/Tests/Documents.antt =====
-- The loading of small documents, and the problems of a small configuration. A document here is the list
-- of the failures that the validator finds in it.
use satunera.Prelude.{
  ℕ, ◌≡◌, refl, List, [], ◌∷◌, map, some, true, Text, codes, text_eq, text_le, any, arith,
}
use satunera.Prelude.Keyed.{Distinct}
use satunera.Prelude.Sorting.{sort_by, insert_by, dedup, dedup_from}
use satunera.Prelude.Sorting.Laws.{Climbs}
use satunera.Prelude.Split.{split_on, join_with}
use satunera.Contracts.Source.{
  ok, TarSource, normalize, strip_dot_slash, push_segments, insert_entry, insert, insert_all,
  from_entries,
}
use satunera.Contracts.Source.Safety.{IsSegment}
use satunera.Contracts.Source.Disk.{
  Node, directory, Children, end, child, named, at_from, FileSystem,
}
use satunera.Contracts.Source.Dir.{DirSource}
use satunera.Contracts.Source.Interface.{in_memory, on_disk}
use satunera.Contracts.Source.Dir.Contents.{Holds}
use satunera.Contracts.Source.Dir.Archive.{leaves, archive}
use satunera.Contracts.Load.Sources.{value, load_problem_from-archive}
use satunera.Contracts.Schema.{
  config, problem, SchemaViolation, Schemas, violation_eq, violation_le, violation_of, collect,
  validate, validator_for,
}
use satunera.Contracts.Schema.Laws.{validate_report, collect_stable}
use satunera.Contracts.Load.{
  load_problem, load_config, ContractError, Parsed, parsed, failed, Loaded, loaded, error, load,
  load_problem_from, file, violations,
}
use satunera.Contracts.Load
use satunera.Contracts.Load.Laws.{Loads, load_problem-load_config-Loads}
use satunera.Contracts.Config.{
  Config, default_features, referenced_problems, push_tracks, push_problems, push_unseen,
}
use satunera.Contracts.Config.Laws.{all_problems, referenced_problems-Distinct}

abbrev Document : Type 0
Document = List (Text × Text)

abbrev schemas : Schemas Document (Text × Text)
schemas = record {
  config_errors = λ d. [];
  problem_errors = λ d. d;
  verdict_errors = λ d. d;
  instance_path = λ e. e.0;
  to_text = λ e. e.1;
}

abbrev twice : Document
twice =
    (codes "/languages/1", codes "not a language")
    ∷ (codes "/id", codes "too long")
    ∷ (codes "/languages/1", codes "not a language")
    ∷ []

abbrev once : Document
once = (codes "/id", codes "too long") ∷ (codes "/languages/1", codes "not a language") ∷ []

functions : Unit {0}
unfolding collect validate violation_le sort_by insert_by dedup dedup_from text_eq text_le any load
    referenced_problems push_tracks push_problems push_unseen
functions = tt

reported : validate schemas problem twice ≡ map (violation_of schemas) once
unfolding functions
reported = refl

validate_report_example :
    Climbs violation_le violation_eq (validate schemas problem twice)
    × ((v : SchemaViolation)
        → any (violation_eq v) (validate schemas problem twice)
          ≡ any (violation_eq v) (map (violation_of schemas) (validator_for schemas problem twice)))
validate_report_example = validate_report schemas problem twice

-- The text of one character stands for a document without a failure.
abbrev from_slice : List ℕ → Parsed Text Document
from_slice [] = failed (codes "EOF")
from_slice (c ∷ []) = parsed []
from_slice bytes = parsed twice

abbrev from_value : Document → Parsed Text ℕ
from_value d = parsed 7

clean : load schemas from_slice from_value problem (1 ∷ []) ≡ loaded 7
unfolding functions
clean = refl

load_problem-load_config-Loads_example :
    Loads schemas from_slice from_value problem schemas.problem_errors
      (1 ∷ 2 ∷ [])
      (load_problem schemas from_slice from_value (1 ∷ 2 ∷ []))
    × Loads schemas from_slice from_value config schemas.config_errors
        (1 ∷ 2 ∷ [])
        (load_config schemas from_slice from_value (1 ∷ 2 ∷ []))
load_problem-load_config-Loads_example =
    load_problem-load_config-Loads schemas from_slice from_value (1 ∷ 2 ∷ [])

abbrev refusal : ContractError Text
refusal = Load.schema problem (map (violation_of schemas) once)

refused_twice : load schemas from_slice from_value problem (1 ∷ 2 ∷ []) ≡ error refusal
unfolding functions
refused_twice = refl

abbrev tracks : Config
tracks = record {
  schema_version = 1;
  title = codes "Judge";
  features = default_features;
  categories = [];
  tracks =
      record {
        id = codes "core";
        title = codes "Core";
        problems = codes "week-1" ∷ codes "week-2" ∷ [];
      }
      ∷ record {
        id = codes "extra";
        title = codes "Extra";
        problems = codes "week-2" ∷ codes "week-3" ∷ [];
      }
      ∷ [];
}

in_order : referenced_problems tracks ≡ codes "week-1" ∷ codes "week-2" ∷ codes "week-3" ∷ []
unfolding functions
in_order = refl

referenced_problems-Distinct_example :
    Distinct (λ id. id) (referenced_problems tracks)
    × ((q : Text)
        → any (λ s. text_eq s q) (referenced_problems tracks)
          ≡ any (λ s. text_eq s q) (all_problems tracks.tracks))
referenced_problems-Distinct_example = referenced_problems-Distinct tracks

-- Both validators find the same two violations.
same_members :
    (v : SchemaViolation)
    → any (violation_eq v) (map (violation_of schemas) twice)
      ≡ any (violation_eq v) (map (violation_of schemas) once)
unfolding any
same_members v = ground arith

collect_stable_example : collect schemas (λ d. d) twice ≡ collect schemas (λ d. once) twice
collect_stable_example = collect_stable schemas (λ d. d) (λ d. once) twice same_members

-- A directory that holds a manifest and nothing else, and its archive.
abbrev name : Text
name = codes "problem.json"

name-IsSegment : IsSegment name
unfolding text_eq
name-IsSegment = record {
  nonempty = refl;
  not_dot = refl;
  not_dot_dot = refl;
  plain = (
    (refl, refl, refl),
    (
      (refl, refl, refl),
      (
        (refl, refl, refl),
        (
          (refl, refl, refl),
          (
            (refl, refl, refl),
            (
              (refl, refl, refl),
              (
                (refl, refl, refl),
                (
                  (refl, refl, refl),
                  (
                    (refl, refl, refl),
                    ((refl, refl, refl), ((refl, refl, refl), ((refl, refl, refl), tt))),
                  ),
                ),
              ),
            ),
          ),
        ),
      ),
    ),
  );
}

abbrev manifest_only : Children
manifest_only = child name (Node.file 0x1a4 (some (1 ∷ []))) end

abbrev disk : FileSystem
disk = record { tree = directory 0x1ed true manifest_only; current = []; max_links = 40 }

abbrev top : DirSource
top = record { root = [] }

abbrev tree : TarSource
tree = record { entries = (name, record { mode = 0x1a4; bytes = 1 ∷ [] }) ∷ [] }

held : Holds disk top manifest_only
unfolding named at_from
held = record { mode = 0x1ed; stands = refl; content = (name-IsSegment, refl, tt, tt) }

archived : from_entries (archive manifest_only) ≡ ok tree
unfolding functions normalize strip_dot_slash push_segments split_on join_with insert_entry insert
    insert_all from_entries leaves archive
archived = refl

load_problem_from-archive_example :
    value (load_problem_from schemas from_slice from_value (on_disk disk top))
    ≡ value (load_problem_from schemas from_slice from_value (in_memory tree))
load_problem_from-archive_example =
    load_problem_from-archive schemas from_slice from_value disk top manifest_only tree held
      archived
