-- ===== src/Config/UnitTests.antt =====
-- The unit tests of src/config.rs, as functions that say whether the test passes. They read their text
-- with the crate `config`, and do without the files of `load`.
pub mod Passes
use Prim.Native.String.{◌++◌}
use mcloudtt.Prelude.{
  ℕ, String, Option, none, some, Bool, true, false, ◌&&◌, ◌==◌, List, [], ◌∷◌, ◌⊎◌, inl, inr, eqb,
}
use mcloudtt.Config.{Configuration, BigQuery, Redis, ConfigCrate, file_from_str}

-- `.unwrap()`: `none` is a panic.
abbrev pub right : {A : Type 0} → String ⊎ A → Option A
right (inl e) = none
right (inr a) = some a

-- `TEST_CONFIG`
abbrev pub test_config : String
test_config =
    "\n[general]\nwebsocket = true\ntimeout = 10\n"
    ++ "\n[tls]\ncertfile = \"certs/broker/broker.crt\"\nkeyfile = \"certs/broker/broker.key\"\n"
    ++ "\n[ports]\ntcp = 1883\nws = 8080\n"

module _ (C : ConfigCrate) where
  deserialized : Option C.Config → Option Configuration
  deserialized none = none
  deserialized (some c) = right (C.try_deserialize c)

  -- `Config::builder().add_source(config::File::from_str(…)).build().unwrap().try_deserialize().unwrap()`
  unfoldable pub loaded : String → Option Configuration
  unfolding deserialized
  loaded text = deserialized (right (C.build (file_from_str text ∷ [])))

abbrev expect : {A : Type 0} → Option A → (A → Bool) → Bool
expect none f = false
expect (some a) f = f a

unfoldable pub test_ports : ConfigCrate → Bool
test_ports C = expect (loaded C test_config) λ config.
    eqb config.ports.tcp 1883
    && (eqb config.ports.ws 8080
        && (config.tls.certfile == "certs/broker/broker.crt"
            && (config.tls.keyfile == "certs/broker/broker.key" && config.general.websocket)))

abbrev pub bigquery_config : String
bigquery_config =
    test_config
    ++ "\n[bigquery]\nproject_id = \"azubi-knowhow-building\"\ndataset_id = \"mcloudttbq\"\n"
    ++ "table_id = \"topic-log\"\ncredentials_path = \"sa.key\""

-- Only with the feature `bq_logging` is there the test, and the field.
unfoldable pub test_bigquery : ConfigCrate → Bool
test_bigquery C = expect (loaded C bigquery_config) λ config. expect config.bigquery λ b.
    b.project_id == "azubi-knowhow-building"
    && (b.dataset_id == "mcloudttbq" && b.table_id == "topic-log")

abbrev pub redis_config : String
redis_config = test_config ++ "\n[redis]\nhost = \"redis\"\nport = 6379"

-- Only with the feature `redis` is there the test, and the field.
unfoldable pub test_redis : ConfigCrate → Bool
test_redis C =
    expect (loaded C redis_config)
      λ config. expect config.redis λ r. r.host == "redis" && eqb r.port 6379
