-- ===== src/Store/Sqlite/Actions.antt =====
-- Statements on the database as actions, transactions, and the helpers at the head of
-- crates/satunera-store/src/sqlite.rs.
use satunera.Prelude.{Bool, true, false, Option, none, some, Text, List, [], ◌∷◌}
use satunera.Store.Codec.{Codec}
use satunera.Store.Error.{
  DbError, unique_violation, bad_timestamp, StoreError, corrupt_row, database, Result, ok, err,
  panicked, ◌>>=◌ as bind,
}
use satunera.Store.Tables.{Db}
use satunera.Store.Tables.Statements.{Written, stored, refused}

-- An action on the pool: a result and the database after it.
abbrev pub Tx : Type 0 → Type 0 → Type 0
Tx Ulid A = Db → Result Ulid A × Db

abbrev pub continue : {Ulid A B : Type 0} → Result Ulid A → (A → Tx Ulid B) → Tx Ulid B
continue (ok a) f db = f a db
continue (err e) f db = (err e, db)
continue panicked f db = (panicked, db)

infixl 5 ◌>>=◌ ◌>>◌
abbrev pub ◌>>=◌ : {Ulid A B : Type 0} → Tx Ulid A → (A → Tx Ulid B) → Tx Ulid B
◌>>=◌ m f db = let (r, db') = m db in continue r f db'

abbrev pub ◌>>◌ : {Ulid A B : Type 0} → Tx Ulid A → Tx Ulid B → Tx Ulid B
m >> n = m >>= λ _. n

abbrev pub lift : {Ulid A : Type 0} → Result Ulid A → Tx Ulid A
lift r db = (r, db)

abbrev pub pure : {Ulid A : Type 0} → A → Tx Ulid A
pure a db = (ok a, db)

-- A SELECT: the database stays as it is.
abbrev pub select : {Ulid A : Type 0} → (Db → A) → Tx Ulid A
select f db = (ok (f db), db)

abbrev pub written :
    {Ulid : Type 0} → (DbError → StoreError Ulid) → Db → Written → Result Ulid (Unit {0}) × Db
written f db (stored db') = (ok tt, db')
written f db (refused e) = (err (f e), db)

-- A statement that writes; `f` is what the code makes of a refusal.
abbrev pub execute_or :
    {Ulid : Type 0} → (DbError → StoreError Ulid) → (Db → Written) → Tx Ulid (Unit {0})
execute_or f stmt db = written f db (stmt db)

-- With `?`, a refusal is `StoreError::Database`.
abbrev pub execute : {Ulid : Type 0} → (Db → Written) → Tx Ulid (Unit {0})
execute = execute_or database

abbrev pub commit_or_rollback : {Ulid A : Type 0} → Db → Result Ulid A × Db → Result Ulid A × Db
commit_or_rollback db (ok a, db') = (ok a, db')
commit_or_rollback db (err e, db') = (err e, db)
commit_or_rollback db (panicked, db') = (panicked, db)

-- From `begin_immediate` to `commit`. A transaction that is dropped before its commit, by an early
-- return or a panic, is rolled back.
abbrev pub transaction : {Ulid A : Type 0} → Tx Ulid A → Tx Ulid A
transaction m db = commit_or_rollback db (m db)

-- `ok_or_else(…)?`
abbrev pub ok_or : {Ulid A : Type 0} → StoreError Ulid → Option A → Result Ulid A
ok_or e none = err e
ok_or e (some a) = ok a

-- `map(f).transpose()?`
abbrev pub transposed :
    {Ulid A B : Type 0} → (A → Result Ulid B) → Option A → Result Ulid (Option B)
transposed f none = ok none
transposed f (some a) = bind (f a) λ b. ok (some b)

-- `map(f).collect::<Result<Vec<_>, _>>()`
abbrev pub collected : {Ulid A B : Type 0} → (A → Result Ulid B) → List A → Result Ulid (List B)
collected f [] = ok []
collected f (a ∷ l) = bind (f a) λ b. bind (collected f l) λ bs. ok (b ∷ bs)

unfoldable pub is_unique_violation : DbError → Bool
is_unique_violation unique_violation = true
is_unique_violation _ = false

abbrev pub formatted : {Ulid : Type 0} → Option Text → Result Ulid Text
formatted none = panicked
formatted (some s) = ok s

module _ {Ulid Time : Type 0} (c : Codec Ulid Time) where
  -- `clock` is `OffsetDateTime::now_utc()`.
  unfoldable pub now : Time → Result Ulid Text
  now clock = formatted (c.format clock)

  unfoldable pub parse_ts : Text → Text → Result Ulid Time
  parse_ts entity value = ok_or (corrupt_row entity (bad_timestamp value)) (c.parse_time value)

  unfoldable pub parse_opt_ts : Text → Option Text → Result Ulid (Option Time)
  unfolding parse_ts
  parse_opt_ts entity value = transposed (parse_ts entity) value
