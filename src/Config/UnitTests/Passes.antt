-- ===== src/Config/UnitTests/Passes.antt =====
-- When the unit tests of src/config.rs pass, in terms of what the crates config and serde document.
use mcloudtt.Prelude.{
  String, Option, none, some, true, false, ◌≡◌, ◌↔◌, refl, sym, Bool, ◌∙◌, List, [], ◌∷◌, arith,
}
use mathlib.Core.Path.{subst, fun_ext}
use mcloudtt.Config.{Configuration, BigQuery, Redis, ConfigCrate}
use mcloudtt.Config.Toml.{Entry, text, number, truth, read_toml, find_value}
use mcloudtt.Config.Documented.{
  Field, Build, value_at, has_field, Describes, DescribesBigQuery, DescribesRedis, IsDocumented,
  bigquery_project_id, redis_host,
}
use mcloudtt.Config.UnitTests.{
  loaded, test_config, bigquery_config, redis_config, test_ports, test_bigquery, test_redis,
}

module _ (C : ConfigCrate) (b : Build) (K : IsDocumented C b) where
  -- A text whose values describe settings.
  loaded-Describes :
      (s : String) (es : List Entry) (c : Configuration)
      → read_toml s ≡ some es
      → Describes b (value_at es) c
      → loaded C s ≡ some c
  unfolding loaded
  loaded-Describes s es c e h =
      let (x, built, values) = K.build_reads s es e in
      let described : Describes b (K.value x) c =
        subst (λ v. Describes b v c) (sym (fun_ext values)) h in
      rw (built, K.deserializes x c described) refl

  -- A text without a field that the build has.
  loaded-missing :
      (s : String) (es : List Entry) (f : Field)
      → read_toml s ≡ some es
      → has_field b f ≡ true
      → value_at es f ≡ none
      → loaded C s ≡ none
  unfolding loaded
  loaded-missing s es f e has missing =
      let (x, built, values) = K.build_reads s es e in
      let (error, failed) = K.misses x f has (values f ∙ missing) in rw (built, failed) refl

abbrev test_entries : List Entry
test_entries =
    record { table = "ports"; key = "ws"; value = number 8080 }
    ∷ record { table = "ports"; key = "tcp"; value = number 1883 }
    ∷ record { table = "tls"; key = "keyfile"; value = text "certs/broker/broker.key" }
    ∷ record { table = "tls"; key = "certfile"; value = text "certs/broker/broker.crt" }
    ∷ record { table = "general"; key = "timeout"; value = number 10 }
    ∷ record { table = "general"; key = "websocket"; value = truth true }
    ∷ []

abbrev bigquery_entries : List Entry
bigquery_entries =
    record { table = "bigquery"; key = "credentials_path"; value = text "sa.key" }
    ∷ record { table = "bigquery"; key = "table_id"; value = text "topic-log" }
    ∷ record { table = "bigquery"; key = "dataset_id"; value = text "mcloudttbq" }
    ∷ record { table = "bigquery"; key = "project_id"; value = text "azubi-knowhow-building" }
    ∷ test_entries

abbrev redis_entries : List Entry
redis_entries =
    record { table = "redis"; key = "port"; value = number 6379 }
    ∷ record { table = "redis"; key = "host"; value = text "redis" }
    ∷ test_entries

test_config-read : read_toml test_config ≡ some test_entries
unfolding read_toml
test_config-read = refl

bigquery_config-read : read_toml bigquery_config ≡ some bigquery_entries
unfolding read_toml
bigquery_config-read = refl

redis_config-read : read_toml redis_config ≡ some redis_entries
unfolding read_toml
redis_config-read = refl

-- The settings of the test, with the tables of the features.
abbrev test_settings : Option BigQuery → Option Redis → Configuration
test_settings bigquery redis = record {
  ports = record { tcp = 1883; ws = 8080 };
  tls = record { certfile = "certs/broker/broker.crt"; keyfile = "certs/broker/broker.key" };
  general = record { websocket = true; timeout = 10 };
  bigquery = bigquery;
  redis = redis;
}

abbrev with_features : Bool → Bool → Build
with_features bq_logging redis = record { bq_logging = bq_logging; redis = redis }

-- The values that all three texts give.
abbrev IsCommon : List Entry → Type 0
IsCommon es =
    (value_at es Field.ports_tcp ≡ some (number 1883))
    × (value_at es Field.ports_ws ≡ some (number 8080))
    × (value_at es Field.tls_certfile ≡ some (text "certs/broker/broker.crt"))
    × (value_at es Field.tls_keyfile ≡ some (text "certs/broker/broker.key"))
    × (value_at es Field.general_websocket ≡ some (truth true))
    × (value_at es Field.general_timeout ≡ some (number 10))

IsCommon-Describes :
    (b : Build) (es : List Entry) (q : Option BigQuery) (r : Option Redis)
    → IsCommon es
    → DescribesBigQuery b.bq_logging (value_at es) q
    → DescribesRedis b.redis (value_at es) r
    → Describes b (value_at es) (test_settings q r)
IsCommon-Describes b es q r (tcp, ws, certfile, keyfile, websocket, timeout) bigquery redis =
    record {
      tcp = (tcp, omega arith);
      ws = (ws, omega arith);
      certfile = certfile;
      keyfile = keyfile;
      websocket = websocket;
      timeout = (timeout, omega arith);
      bigquery = bigquery;
      redis = redis;
    }

test_entries-IsCommon : IsCommon test_entries
unfolding value_at find_value
test_entries-IsCommon = (refl, refl, refl, refl, refl, refl)

bigquery_entries-IsCommon : IsCommon bigquery_entries
unfolding value_at find_value
bigquery_entries-IsCommon = (refl, refl, refl, refl, refl, refl)

redis_entries-IsCommon : IsCommon redis_entries
unfolding value_at find_value
redis_entries-IsCommon = (refl, refl, refl, refl, refl, refl)

abbrev topic_log : BigQuery
topic_log = record {
  project_id = "azubi-knowhow-building";
  dataset_id = "mcloudttbq";
  table_id = "topic-log";
  credentials_path = "sa.key";
}

abbrev redis_server : Redis
redis_server = record { host = "redis"; port = 6379 }

module _ (C : ConfigCrate) where
  test_ports_iff :
      (x y : Bool)
      → IsDocumented C (with_features x y)
      → (test_ports C ≡ true) ↔ ((x ≡ false) × (y ≡ false))
  unfolding test_ports value_at find_value has_field
  test_ports_iff false false K =
      rw
        (loaded-Describes C (with_features false false) K test_config test_entries
          (test_settings none none) test_config-read
          (IsCommon-Describes (with_features false false) test_entries none none
            test_entries-IsCommon tt tt))
        ((λ _. (refl, refl)), λ _. refl)
  test_ports_iff true y K =
      rw
        (loaded-missing C (with_features true y) K test_config test_entries bigquery_project_id
          test_config-read refl refl)
        ((λ e. absurd (cc e)), λ h. absurd (cc (h.0)))
  test_ports_iff false true K =
      rw
        (loaded-missing C (with_features false true) K test_config test_entries redis_host
          test_config-read refl refl)
        ((λ e. absurd (cc e)), λ h. absurd (cc (h.1)))

  test_bigquery_iff :
      (x y : Bool)
      → IsDocumented C (with_features x y)
      → (test_bigquery C ≡ true) ↔ ((x ≡ true) × (y ≡ false))
  unfolding test_bigquery value_at find_value has_field
  test_bigquery_iff true false K =
      rw
        (loaded-Describes C (with_features true false) K bigquery_config bigquery_entries
          (test_settings (some topic_log) none) bigquery_config-read
          (IsCommon-Describes (with_features true false) bigquery_entries (some topic_log) none
            bigquery_entries-IsCommon (refl, refl, refl, refl) tt))
        ((λ _. (refl, refl)), λ _. refl)
  test_bigquery_iff false false K =
      rw
        (loaded-Describes C (with_features false false) K bigquery_config bigquery_entries
          (test_settings none none) bigquery_config-read
          (IsCommon-Describes (with_features false false) bigquery_entries none none
            bigquery_entries-IsCommon tt tt))
        ((λ e. absurd (cc e)), λ h. absurd (cc (h.0)))
  test_bigquery_iff x true K =
      rw
        (loaded-missing C (with_features x true) K bigquery_config bigquery_entries redis_host
          bigquery_config-read refl refl)
        ((λ e. absurd (cc e)), λ h. absurd (cc (h.1)))

  test_redis_iff :
      (x y : Bool)
      → IsDocumented C (with_features x y)
      → (test_redis C ≡ true) ↔ ((x ≡ false) × (y ≡ true))
  unfolding test_redis value_at find_value has_field
  test_redis_iff false true K =
      rw
        (loaded-Describes C (with_features false true) K redis_config redis_entries
          (test_settings none (some redis_server)) redis_config-read
          (IsCommon-Describes (with_features false true) redis_entries none (some redis_server)
            redis_entries-IsCommon tt (refl, (refl, omega arith))))
        ((λ _. (refl, refl)), λ _. refl)
  test_redis_iff false false K =
      rw
        (loaded-Describes C (with_features false false) K redis_config redis_entries
          (test_settings none none) redis_config-read
          (IsCommon-Describes (with_features false false) redis_entries none none
            redis_entries-IsCommon tt tt))
        ((λ e. absurd (cc e)), λ h. absurd (cc (h.1)))
  test_redis_iff true y K =
      rw
        (loaded-missing C (with_features true y) K redis_config redis_entries bigquery_project_id
          redis_config-read refl refl)
        ((λ e. absurd (cc e)), λ h. absurd (cc (h.0)))

-- For crates that read a plain TOML text as it is written and give an error for a missing field:
-- the repository's test of the ports passes exactly in the builds with neither `bq_logging` nor
-- `redis`, that of the BigQuery table exactly in those with `bq_logging` and without `redis`, and
-- that of the Redis table exactly in those with `redis` and without `bq_logging`.
pub tests-pass_iff :
    (C : ConfigCrate) (b : Build)
    → IsDocumented C b
    → ((test_ports C ≡ true) ↔ ((b.bq_logging ≡ false) × (b.redis ≡ false)))
      × ((test_bigquery C ≡ true) ↔ ((b.bq_logging ≡ true) × (b.redis ≡ false)))
      × ((test_redis C ≡ true) ↔ ((b.bq_logging ≡ false) × (b.redis ≡ true)))
tests-pass_iff C b K = (
  test_ports_iff C b.bq_logging b.redis K,
  test_bigquery_iff C b.bq_logging b.redis K,
  test_redis_iff C b.bq_logging b.redis K,
)
