-- ===== src/Config/Documented.antt =====
-- What the crates config and serde document of the calls in src/config.rs, for a text in plain TOML.
use mcloudtt.Prelude.{
  ℕ, ◌<◌, String, Option, none, some, Bool, true, false, List, [], ◌∷◌, inl, inr, ◌≡◌,
}
use mcloudtt.Config.{Configuration, BigQuery, Redis, ConfigCrate, file_from_str}
use mcloudtt.Config.Toml.{Value, text, number, truth, Entry, find_value, read_toml}

-- The fields of the structs, down to those of the tables.
pub data Field : Type 0 where
  ports_tcp ports_ws : Field
  tls_certfile tls_keyfile : Field
  general_websocket general_timeout : Field
  bigquery_project_id bigquery_dataset_id bigquery_table_id bigquery_credentials_path : Field
  redis_host redis_port : Field

-- The value of a document that stands for the field.
unfoldable pub value_at : List Entry → Field → Option Value
value_at es ports_tcp = find_value "ports" "tcp" es
value_at es ports_ws = find_value "ports" "ws" es
value_at es tls_certfile = find_value "tls" "certfile" es
value_at es tls_keyfile = find_value "tls" "keyfile" es
value_at es general_websocket = find_value "general" "websocket" es
value_at es general_timeout = find_value "general" "timeout" es
value_at es bigquery_project_id = find_value "bigquery" "project_id" es
value_at es bigquery_dataset_id = find_value "bigquery" "dataset_id" es
value_at es bigquery_table_id = find_value "bigquery" "table_id" es
value_at es bigquery_credentials_path = find_value "bigquery" "credentials_path" es
value_at es redis_host = find_value "redis" "host" es
value_at es redis_port = find_value "redis" "port" es

-- The two features of a build that add fields.
pub record Build : Type 0 where
  pub bq_logging : Bool
  pub redis : Bool

-- The build's `Configuration` has the field.
unfoldable pub has_field : Build → Field → Bool
has_field b bigquery_project_id = b.bq_logging
has_field b bigquery_dataset_id = b.bq_logging
has_field b bigquery_table_id = b.bq_logging
has_field b bigquery_credentials_path = b.bq_logging
has_field b redis_host = b.redis
has_field b redis_port = b.redis
has_field b _ = true

-- A number of the type `u16`
abbrev pub IsPort : Option Value → ℕ → Type 0
IsPort v n = (v ≡ some (number n)) × (n < 65536)

abbrev pub DescribesBigQuery : Bool → (Field → Option Value) → Option BigQuery → Type 0
DescribesBigQuery true v (some b) =
    (v bigquery_project_id ≡ some (text b.project_id))
    × (v bigquery_dataset_id ≡ some (text b.dataset_id))
    × (v bigquery_table_id ≡ some (text b.table_id))
    × (v bigquery_credentials_path ≡ some (text b.credentials_path))
DescribesBigQuery true v none = ⊥
DescribesBigQuery false v (some b) = ⊥
DescribesBigQuery false v none = Unit

abbrev pub DescribesRedis : Bool → (Field → Option Value) → Option Redis → Type 0
DescribesRedis true v (some r) = (v redis_host ≡ some (text r.host)) × IsPort (v redis_port) r.port
DescribesRedis true v none = ⊥
DescribesRedis false v (some r) = ⊥
DescribesRedis false v none = Unit

-- Every field that the build has is there, with a value of its type, which the settings have.
pub record Describes (b : Build) (v : Field → Option Value) (s : Configuration) : Type 0 where
  pub tcp : IsPort (v ports_tcp) s.ports.tcp
  pub ws : IsPort (v ports_ws) s.ports.ws
  pub certfile : v tls_certfile ≡ some (text s.tls.certfile)
  pub keyfile : v tls_keyfile ≡ some (text s.tls.keyfile)
  pub websocket : v general_websocket ≡ some (truth s.general.websocket)
  pub timeout : IsPort (v general_timeout) s.general.timeout
  pub bigquery : DescribesBigQuery b.bq_logging v s.bigquery
  pub redis : DescribesRedis b.redis v s.redis

-- A plain text is read as it is written. Settings are what the values describe; a missing field is an
-- error, and a value that stands for no field is passed over.
pub record IsDocumented (C : ConfigCrate) (b : Build) : Type 0 where
  pub value : C.Config → Field → Option Value
  pub build_reads :
      (s : String) (es : List Entry)
      → read_toml s ≡ some es
      → (c : C.Config) × (C.build (file_from_str s ∷ []) ≡ inr c)
        × ((f : Field) → value c f ≡ value_at es f)
  pub deserializes :
      (c : C.Config) (s : Configuration) → Describes b (value c) s → C.try_deserialize c ≡ inr s
  pub misses :
      (c : C.Config) (f : Field)
      → has_field b f ≡ true
      → value c f ≡ none
      → (e : String) × (C.try_deserialize c ≡ inl e)
