-- ===== src/Config.antt =====
-- src/config.rs: the settings. The crate `config` reads the sources and deserialises them; it is an
-- argument. The tables that a feature adds are there exactly when the feature is on.
pub mod Toml
pub mod Documented
pub mod UnitTests
use mcloudtt.Prelude.{ℕ, String, Option, Bool, List, [], ◌∷◌, ◌⊎◌, inl, inr}
use mcloudtt.Error.{Result, ok, err, panic, from, config_failed}

pub record Ports : Type 0 where
  pub tcp : ℕ
  pub ws : ℕ

pub record Tls : Type 0 where
  pub certfile : String
  pub keyfile : String

pub record General : Type 0 where
  pub websocket : Bool
  pub timeout : ℕ

pub record BigQuery : Type 0 where
  pub project_id : String
  pub dataset_id : String
  pub table_id : String
  pub credentials_path : String

pub record Redis : Type 0 where
  pub host : String
  pub port : ℕ

pub record Configuration : Type 0 where
  pub ports : Ports
  pub tls : Tls
  pub general : General
  pub bigquery : Option BigQuery
  pub redis : Option Redis

-- The arguments of `add_source`.
pub data Source : Type 0 where
  file_with_name : String → Source
  environment_with_prefix : String → Source
  -- `File::from_str(text, FileFormat::Toml)`, which only the tests use
  file_from_str : String → Source

-- The crate: `build` merges the sources, the later ones over the earlier; left is a `ConfigError`.
pub record ConfigCrate : Type 1 where
  pub Config : Type 0
  pub build : List Source → String ⊎ Config
  pub try_deserialize : Config → String ⊎ Configuration

-- `?`, through `From<ConfigError>`
abbrev pub question : {A : Type 0} → String ⊎ A → Result A
question (inl e) = err (from (config_failed e))
question (inr a) = ok a

abbrev and_then : {A B : Type 0} → Result A → (A → Result B) → Result B
and_then (ok a) f = f a
and_then (err e) f = err e
and_then panic f = panic

-- `Configuration::load`: the file, with the environment over it. Any failure is a configuration error.
unfoldable pub load : ConfigCrate → Result Configuration
load C =
    and_then
      (question (C.build (file_with_name "config.toml" ∷ environment_with_prefix "mcloudtt" ∷ [])))
      λ c. question (C.try_deserialize c)

-- `Result::unwrap`
unfoldable pub load_unwrapped : Result Configuration → Result Configuration
load_unwrapped (ok s) = ok s
load_unwrapped (err e) = panic
load_unwrapped panic = panic

-- `SETTINGS` of src/main.rs, which is loaded when it is first used.
unfoldable pub static_settings : ConfigCrate → Result Configuration
unfolding load_unwrapped
static_settings C = load_unwrapped (load C)
