-- ===== src/Store/Error.antt =====
-- crates/satunera-store/src/error.rs: the errors of the store, and results that may fail with one.
-- A detail text is kept as what it is formatted from.
use satunera.Prelude.{ℕ, Text, ◌≡◌, refl}
use satunera.Prelude.Int.{ℤ}

-- The errors of the database that a statement can meet: `sqlx::Error::Database`.
pub data DbError : Type 0 where
  check_violation unique_violation foreign_key_violation : DbError

pub data Detail (Ulid : Type 0) : Type 0 where
  bad_id bad_user_id bad_language bad_status bad_verdict bad_role bad_timestamp : Text → Detail Ulid
  bad_attempt bad_attempts : ℤ → Detail Ulid
  out_of_range : Text → Detail Ulid
  unformattable_timestamp : Detail Ulid
  already_taken : (handle email : Text) → Detail Ulid
  already_recorded : (attempt : ℕ) (submission : Ulid) → Detail Ulid

pub data StoreError (Ulid : Type 0) : Type 0 where
  not_found : (entity id : Text) → StoreError Ulid
  conflict : (entity : Text) (detail : Detail Ulid) → StoreError Ulid
  illegal_transition : (id : Ulid) (from to : Text) → StoreError Ulid
  corrupt_row : (entity : Text) (detail : Detail Ulid) → StoreError Ulid
  database : DbError → StoreError Ulid
  migration : Text → StoreError Ulid

-- `panicked` is the `expect` of `now`.
pub data Result (Ulid A : Type 0) : Type 0 where
  ok : A → Result Ulid A
  err : StoreError Ulid → Result Ulid A
  panicked : Result Ulid A

infixl 5 ◌>>=◌
abbrev pub ◌>>=◌ : {Ulid A B : Type 0} → Result Ulid A → (A → Result Ulid B) → Result Ulid B
ok a >>= f = f a
err e >>= f = err e
panicked >>= f = panicked

-- A result that a caller can use.
pub bind-eq-ok :
    {Ulid A B : Type 0} (m : Result Ulid A) (rest : A → Result Ulid B) {out : B}
    → (m >>= rest) ≡ ok out
    → (given : A) × (m ≡ ok given) × (rest given ≡ ok out)
bind-eq-ok (ok given) rest h = (given, refl, h)
bind-eq-ok (err e) rest h = cc
bind-eq-ok panicked rest h = cc
