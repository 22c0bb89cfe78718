-- ===== src/Contracts/Config.antt =====
-- crates/satunera-contracts/src/config.rs: the typed form of `config.json`. A `u32` is a natural number.
pub mod Laws
use satunera.Prelude.{
  ℕ, Bool, true, false, Option, none, some, List, [], ◌∷◌, ◌++◌, Text, codes, text_eq, find?, any,
  is_some, if◌then◌else◌,
}

-- `CONFIG_SCHEMA_VERSION`
abbrev pub config_schema_version : ℕ
config_schema_version = 1

pub record Features : Type 0 where
  pub lightning : Bool
  pub indexer : Bool
  pub objectstore : Bool
  pub observability : Bool

pub record Category : Type 0 where
  pub id : Text
  pub title : Text
  pub description : Option Text

pub record Track : Type 0 where
  pub id : Text
  pub title : Text
  pub problems : List Text

pub record Config : Type 0 where
  pub schema_version : ℕ
  pub title : Text
  pub features : Features
  pub categories : List Category
  pub tracks : List Track

-- `Features::default`, derived.
abbrev pub default_features : Features
default_features = record {
  lightning = false;
  indexer = false;
  objectstore = false;
  observability = false;
}

unfoldable pub category : Text → Config → Option Category
category id config = find? (λ c. text_eq c.id id) config.categories

unfoldable pub has_category : Text → Config → Bool
unfolding category
has_category id config = is_some (category id config)

-- `if !seen.contains(&id) { seen.push(id) }`
unfoldable pub push_unseen : Text → List Text → List Text
push_unseen id seen = if any (λ s. text_eq s id) seen then seen else seen ++ id ∷ []

-- The inner loop and the outer.
unfoldable pub push_problems : List Text → List Text → List Text
unfolding push_unseen
push_problems [] seen = seen
push_problems (id ∷ ids) seen = push_problems ids (push_unseen id seen)

unfoldable pub push_tracks : List Track → List Text → List Text
unfolding push_problems
push_tracks [] seen = seen
push_tracks (track ∷ tracks) seen = push_tracks tracks (push_problems track.problems seen)

unfoldable pub referenced_problems : Config → List Text
referenced_problems config = push_tracks config.tracks []

-- `if feature { profiles.push(name) }`
abbrev pub push_if : Bool → Text → List Text → List Text
push_if true name profiles = profiles ++ name ∷ []
push_if false name profiles = profiles

unfoldable pub compose_profiles : Config → List Text
compose_profiles config =
    let features = config.features in
    let profiles = codes "core" ∷ [] in
    let profiles = push_if features.lightning (codes "lightning") profiles in
    let profiles = push_if features.indexer (codes "indexer") profiles in
    let profiles = push_if features.objectstore (codes "objectstore") profiles in
    push_if features.observability (codes "observability") profiles
