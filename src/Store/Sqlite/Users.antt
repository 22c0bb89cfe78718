-- ===== src/Store/Sqlite/Users.antt =====
-- `create_user`, `user` and `user_by_handle` of crates/satunera-store/src/sqlite.rs.
use satunera.Prelude.{Text, codes, text_eq, find?, if◌then◌else◌}
use satunera.Store.Codec.{Codec}
use satunera.Store.Error.{
  DbError, already_taken, bad_id, bad_role, StoreError, not_found, conflict, corrupt_row, database,
  Result, ok, ◌>>=◌ as bind,
}
use satunera.Store.Model.{User, NewUser}
use satunera.Store.Role
use satunera.Store.Tables.{UserRecord}
use satunera.Store.Tables.Statements.{insert_user}
use satunera.Store.Sqlite.Actions.{
  Tx, ◌>>=◌, ◌>>◌, lift, pure, select, execute_or, ok_or, is_unique_violation, now, parse_ts,
}

module _ {Ulid Time : Type 0} (c : Codec Ulid Time) where
  user_refusal : NewUser → DbError → StoreError Ulid
  unfolding is_unique_violation
  user_refusal user e =
      if is_unique_violation e
      then conflict (codes "users") (already_taken user.handle user.email)
      else database e

  -- `id` is the identifier that `UserId::generate` mints, `clock` the instant that `now` reads.
  unfoldable pub create_user : (id : Ulid) (clock : Time) → NewUser → Tx Ulid (User Ulid Time)
  unfolding user_refusal now parse_ts
  create_user id clock user = do
    created_at ← lift (now c clock)
    execute_or (user_refusal user) (
        insert_user (record {
          id = c.ulid_text id;
          handle = user.handle;
          email = user.email;
          password_hash = user.password_hash;
          role = Role.as_str user.role;
          created_at = created_at;
        }))
    created ← lift (parse_ts c (codes "users") created_at)
    pure (record {
      id = id;
      handle = user.handle;
      email = user.email;
      password_hash = user.password_hash;
      role = user.role;
      created_at = created;
    })

  unfoldable pub decode_user : Ulid → UserRecord → Result Ulid (User Ulid Time)
  unfolding parse_ts
  decode_user id row =
      bind (ok_or (corrupt_row (codes "users") (bad_role row.role)) (Role.parse row.role)) λ role.
        bind (parse_ts c (codes "users") row.created_at) λ created. ok (record {
          id = id;
          handle = row.handle;
          email = row.email;
          password_hash = row.password_hash;
          role = role;
          created_at = created;
        })

  unfoldable pub user : Ulid → Tx Ulid (User Ulid Time)
  unfolding decode_user
  user id = do
    found ← select (λ db. find? (λ u. text_eq u.id (c.ulid_text id)) db.users)
    row ← lift (ok_or (not_found (codes "users") (c.ulid_text id)) found)
    lift (decode_user id row)

  unfoldable pub user_by_handle : Text → Tx Ulid (User Ulid Time)
  unfolding decode_user
  user_by_handle handle = do
    found ← select (λ db. find? (λ u. text_eq u.handle handle) db.users)
    row ← lift (ok_or (not_found (codes "users") handle) found)
    id ← lift (ok_or (corrupt_row (codes "users") (bad_id row.id)) (c.parse_ulid row.id))
    lift (decode_user id row)
