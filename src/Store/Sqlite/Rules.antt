-- ===== src/Store/Sqlite/Rules.antt =====
-- Rules for actions on the database: what holds after an action that returns, and what every action
-- keeps, also one that fails.
use satunera.Prelude.{◌≡◌, refl}
use satunera.Store.Error.{DbError, StoreError, Result, ok, err, panicked}
use satunera.Store.Tables.{Db}
use satunera.Store.Tables.Statements.{Written, stored, refused}
use satunera.Store.Sqlite.Actions.{
  Tx, ◌>>=◌, lift, pure, execute_or, transaction, commit_or_rollback, continue, written,
}

-- Whatever `m` returns from `db`, with whatever database, `Q` holds of both.
abbrev pub Ensures : {Ulid A : Type 0} → Tx Ulid A → Db → (A → Db → Type 0) → Type 0
Ensures {A} m db Q = (a : A) (after : Db) → m db ≡ (ok a, after) → Q a after

module _ {Ulid A B : Type 0} where
  continue_ensures :
      (f : A → Tx Ulid B) (Q : B → Db → Type 0) (r : Result Ulid A) (middle : Db)
      → ((a : A) → r ≡ ok a → Ensures (f a) middle Q)
      → (b : B) (after : Db) → continue r f middle ≡ (ok b, after)
      → Q b after
  continue_ensures f Q (ok a) middle h b after e = h a refl b after e
  continue_ensures f Q (err x) middle h b after e = cc
  continue_ensures f Q panicked middle h b after e = cc

  continue_ends :
      (f : A → Tx Ulid B) (Q : Db → Type 0) (r : Result Ulid A) (middle : Db)
      → Q middle
      → ((a : A) → r ≡ ok a → Q (f a middle).1)
      → Q (continue r f middle).1
  continue_ends f Q (ok a) middle p h = h a refl
  continue_ends f Q (err x) middle p h = p
  continue_ends f Q panicked middle p h = p

  pub Ensures-bind :
      (m : Tx Ulid A) (f : A → Tx Ulid B) (db : Db) (Q : B → Db → Type 0)
      → Ensures m db (λ a middle. Ensures (f a) middle Q)
      → Ensures (m >>= f) db Q
  Ensures-bind m f db Q h =
      continue_ensures f Q (m db).0 (m db).1 λ a e. h a (m db).1 λ i. (e i, (m db).1)

  pub ensures-lift :
      (r : Result Ulid A) (f : A → Tx Ulid B) (db : Db) (Q : B → Db → Type 0)
      → ((a : A) → r ≡ ok a → Ensures (f a) db Q)
      → Ensures (lift r >>= f) db Q
  ensures-lift r f db Q = continue_ensures f Q r db

  -- The database that is left when a step outside a transaction fails or goes on.
  pub ends-lift :
      (r : Result Ulid A) (f : A → Tx Ulid B) (db : Db) (Q : Db → Type 0)
      → Q db
      → ((a : A) → r ≡ ok a → Q (f a db).1)
      → Q ((lift r >>= f) db).1
  ends-lift r f db Q = continue_ends f Q r db

module _ {Ulid A : Type 0} where
  Ensures_here :
      (a : A) (db : Db) (Q : A → Db → Type 0)
      → Q a db
      → (b : A) (after : Db) → ◌≡◌ {A = Result Ulid A × Db} (ok a, db) (ok b, after)
      → Q b after
  Ensures_here a db Q q b after e =
      let same_result : a ≡ b = cc in
      let same_db : db ≡ after = cc in rw (← same_result, ← same_db) q

  pub Ensures-pure :
      (a : A) (db : Db) (Q : A → Db → Type 0) → Q a db → Ensures {Ulid = Ulid} (pure a) db Q
  Ensures-pure a db Q q = Ensures_here a db Q q

  committed_ends :
      (db : Db) (Q : Db → Type 0) (r : Result Ulid A) (after : Db)
      → Q db
      → ((a : A) → r ≡ ok a → Q after)
      → Q (commit_or_rollback db (r, after)).1
  committed_ends db Q (ok a) after p h = h a refl
  committed_ends db Q (err x) after p h = p
  committed_ends db Q panicked after p h = p

  committed_ensures :
      (db : Db) (Q : A → Db → Type 0) (r : Result Ulid A) (middle : Db)
      → ((a : A) → r ≡ ok a → Q a middle)
      → (a : A) (after : Db) → commit_or_rollback db (r, middle) ≡ (ok a, after)
      → Q a after
  committed_ensures db Q (ok a) middle h b after e = Ensures_here a middle Q (h a refl) b after e
  committed_ensures db Q (err x) middle h b after e = cc
  committed_ensures db Q panicked middle h b after e = cc

  -- A transaction that returns ensures what its body ensures.
  pub committed :
      (m : Tx Ulid A) (db : Db) (Q : A → Db → Type 0)
      → Ensures m db Q
      → Ensures (transaction m) db Q
  committed m db Q h =
      committed_ensures db Q (m db).0 (m db).1 λ a e. h a (m db).1 λ i. (e i, (m db).1)

  -- A transaction leaves what its body ensures when it returns, and else the database as it was.
  pub ends-transaction :
      (m : Tx Ulid A) (db : Db) (Q : Db → Type 0)
      → Q db
      → Ensures m db (λ _ after. Q after)
      → Q (transaction m db).1
  ends-transaction m db Q p h =
      committed_ends db Q (m db).0 (m db).1 p λ a e. h a (m db).1 λ i. (e i, (m db).1)

module _ {Ulid : Type 0} (f : DbError → StoreError Ulid) where
  written_ensures :
      (w : Written) (db : Db) (Q : Unit {0} → Db → Type 0)
      → ((after : Db) → w ≡ stored after → Q tt after)
      → (a : Unit {0}) (after : Db) → written f db w ≡ (ok a, after)
      → Q a after
  written_ensures (stored db') db Q h a after e =
      Ensures_here {Ulid = Ulid} tt db' Q (h db' refl) a after e
  written_ensures (refused x) db Q h a after e = cc

  written_ends :
      {B : Type 0} (k : Unit {0} → Tx Ulid B) (Q : Db → Type 0) (w : Written) (db : Db)
      → Q db
      → ((after : Db) → w ≡ stored after → Q (k tt after).1)
      → (let (r, after) = written f db w in Q (continue r k after).1)
  written_ends k Q (stored db') db p h = h db' refl
  written_ends k Q (refused x) db p h = p

  pub Ensures-execute :
      (stmt : Db → Written) (db : Db) (Q : Unit {0} → Db → Type 0)
      → ((after : Db) → stmt db ≡ stored after → Q tt after)
      → Ensures (execute_or f stmt) db Q
  Ensures-execute stmt db = written_ensures (stmt db) db

  pub ensures-execute :
      {B : Type 0} (stmt : Db → Written) (k : Unit {0} → Tx Ulid B) (db : Db) (Q : B → Db → Type 0)
      → ((after : Db) → stmt db ≡ stored after → Ensures (k tt) after Q)
      → Ensures (execute_or f stmt >>= k) db Q
  ensures-execute stmt k db Q h =
      Ensures-bind (execute_or f stmt) k db Q
        (Ensures-execute stmt db (λ a middle. Ensures (k a) middle Q) h)

  pub ends-execute :
      {B : Type 0} (stmt : Db → Written) (k : Unit {0} → Tx Ulid B) (db : Db) (Q : Db → Type 0)
      → Q db
      → ((after : Db) → stmt db ≡ stored after → Q (k tt after).1)
      → Q ((execute_or f stmt >>= k) db).1
  ends-execute stmt k db Q = written_ends k Q (stmt db) db
