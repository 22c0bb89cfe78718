-- ===== src/Lib.antt =====
-- The judge satunera, as a library of definitions that follow its code and of theorems about them.
--
-- The program is two crates. `satunera-contracts` (crates/satunera-contracts) is the frozen interface
-- between the authors of problems and the judge: the manifests, their schemas, the paths of a problem
-- directory, and the verdict that a `validation.sh` prints. `satunera-store` (crates/satunera-store) is
-- the persistence of the judge: users, the catalog of problems, submissions with their state machine,
-- runs, and the progress of a learner, over SQLite. The store takes the enums of the contracts, and
-- writes their texts into columns that the migration constrains.
--
-- Which file models which part, of crates/satunera-contracts/src first:
--   Contracts/Verdict      verdict.rs: `Verdict` (Cases), `ValidationOutput` with `from_stdout`,
--                          `from_line` and `reconcile` (Output); Laws and Stdout prove about it
--   Contracts/Source       source.rs: `normalize` (Normalize), `TarSource` (Tar), `DirSource` (Dir) over
--                          a file system (Disk), and the trait `ProblemSource` as a record that the two
--                          fill (Interface); the children of Dir prove about it
--   Contracts/Schema       schema.rs: `collect`, `validate`; `SchemaViolation` of error.rs
--   Contracts/Load         lib.rs: `load` and its callers, from any `ProblemSource`; `ContractError` of
--                          error.rs; Sources proves about both kinds of source
--   Contracts/Config       config.rs
--   Contracts/Env          env.rs
--   Contracts/Problem, Contracts/Language, Contracts/Difficulty   problem.rs
-- and of crates/satunera-store/src:
--   Store/Role, Store/Status, Store/Model   model.rs
--   Store/Error            error.rs
--   Store/Tables           the rows and the constraints of
--                          crates/satunera-store/migrations/0001_initial.up.sql, and each statement of
--                          sqlite.rs as a function on the tables
--   Store/Sqlite           sqlite.rs: Actions (transactions and helpers), Users, Problems, Submissions, Runs
--   Store/Blob             blob.rs: the keys of blobs, `put` and `get` of `FsBlobStore`
--   Store/Spec             what a call may do to the submissions and the progress (Effect), the
--                          histories of calls (Operations), and the statements as data (Statements)
--   Store/Invariants       what holds after every history
--   Store/Behaviour        what single calls do, on every branch: the writes, and the reads in Reads,
--                          Listings, Attempts and Standing
--   Prelude                texts, lists, rows with keys, sorting, splitting, and machine integers
-- The files named Tests hold runs at concrete values.
--
-- The state of the store is the record `Db`, a list of rows for each table, in the order of insertion.
-- An operation is a function from the database to a result and the database after it; a result is a
-- value, a `StoreError`, or the panic of the `expect` in `now`. A transaction that does not return is
-- rolled back. The identifier that a creation mints and the instant that it reads are arguments.
--
-- What is a parameter: `Codec` stands for the crates ulid and time, with the laws that what is printed
-- is read back; `Json` for serde_json on one line; `Schemas` for the three compiled JSON schemas; the
-- two functions of the load for serde_json on a whole file. The theorems about blobs are about hashes of
-- hexadecimal digits and identifiers whose text has no dot, as the texts of ULIDs have none.
--
-- Bounds: a text is the list of its code points, whose order is that of the UTF-8 bytes. A `u32`, `u64` or
-- `usize` is a natural number and an `i32` an integer; where the code converts between widths the range
-- is tested as it is there. An INTEGER column is an integer without a bound, so the count of attempts is
-- taken not to reach 2^63. Every loop of the code goes through a list, but for the walk of a directory, which goes through the tree.
-- A path is resolved with a bound on the links that are followed, which is the system's: a path with more
-- of them is refused, as the system refuses it, so the bound is no limit of the model. The digits of a number are made on
-- fuel, the number itself, and `number_from-digits` of Store/Blob/Digits.antt shows that it is enough.
--
-- Not modelled: the pool, the pragmas and the running of the migrations, which are calls of sqlx; faults
-- of the database engine other than a refused statement; calls that run at the same time, which the
-- transactions make sequences of statements; a directory on disk that changes while it is read, or that
-- the process may not search; the faults of the disk under the blob store; the newtypes of id.rs, each of
-- which wraps one ULID; the rendering of errors as text; the derived serde code.
pub mod Prelude
pub mod Contracts
pub mod Store
