-- ===== src/Contracts/Json.antt =====
-- What crates/satunera-contracts takes from `serde_json`: values, objects and the reading of text.
use satunera.Prelude.{ℕ, Bool, Option, List, Text}

pub record Json (Value Object : Type 0) : Type 0 where
  -- `serde_json::from_str`, of whose error the code keeps nothing
  pub from_str : Text → Option Value
  pub is_null : Value → Bool
  pub as_object : Value → Option Object
  pub as_bool : Value → Option Bool
  pub as_str : Value → Option Text
  pub as_u64 : Value → Option ℕ
  -- `Map::get` and `Map::keys`
  pub get : Object → Text → Option Value
  pub keys : Object → List Text
