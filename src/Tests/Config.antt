-- ===== src/Tests/Config.antt =====
-- A reader of plain TOML in the place of the crates config and serde, in the default build.
use mcloudtt.Prelude.{
  ℕ, ltb, ◌<◌, String, Option, none, some, Bool, true, false, List, [], ◌∷◌, ◌⊎◌, inl, inr,
  if◌then◌else◌, ◌≡◌, ◌↔◌, refl, arith,
}
use mcloudtt.Config.{Configuration, BigQuery, Redis, ConfigCrate, Source, file_from_str}
use mcloudtt.Config.Toml.{Entry, Value, text, number, truth, read_toml}
use mcloudtt.Config.Documented.{
  Field, Build, value_at, has_field, Describes, DescribesBigQuery, DescribesRedis, IsDocumented,
  ports_tcp, ports_ws, tls_certfile, tls_keyfile, general_websocket, general_timeout,
  bigquery_project_id, bigquery_dataset_id, bigquery_table_id, bigquery_credentials_path,
  redis_host, redis_port,
}
use mcloudtt.Config.UnitTests.{test_ports, test_bigquery, test_redis}
use mcloudtt.Config.UnitTests.Passes.{tests-pass_iff}

abbrev default_build : Build
default_build = record { bq_logging = false; redis = false }

abbrev port_of : Option Value → Option ℕ
port_of (some (number n)) = if ltb n 65536 then some n else none
port_of _ = none

abbrev text_of : Option Value → Option String
text_of (some (text s)) = some s
text_of _ = none

abbrev truth_of : Option Value → Option Bool
truth_of (some (truth b)) = some b
truth_of _ = none

abbrev and_then : {A B : Type 0} → Option A → (A → String ⊎ B) → String ⊎ B
and_then none f = inl "missing field or wrong type"
and_then (some a) f = f a

read_source : List Source → String ⊎ List Entry
read_source (file_from_str s ∷ []) = and_then (read_toml s) inr
read_source _ = inl "no such source"

deserialize : List Entry → String ⊎ Configuration
deserialize es = and_then (port_of (value_at es ports_tcp)) λ tcp.
    and_then (port_of (value_at es ports_ws)) λ ws.
      and_then (text_of (value_at es tls_certfile)) λ certfile.
        and_then (text_of (value_at es tls_keyfile)) λ keyfile.
          and_then (truth_of (value_at es general_websocket)) λ websocket.
            and_then (port_of (value_at es general_timeout)) λ timeout. inr (record {
              ports = record { tcp = tcp; ws = ws };
              tls = record { certfile = certfile; keyfile = keyfile };
              general = record { websocket = websocket; timeout = timeout };
              bigquery = none;
              redis = none;
            })

abbrev crate : ConfigCrate
crate = record { Config = List Entry; build = read_source; try_deserialize = deserialize }

-- One field is enough.
and_then-fails :
    {A B : Type 0} (o : Option A) (f : A → String ⊎ B)
    → ((a : A) → (e : String) × (f a ≡ inl e))
    → (e : String) × (and_then o f ≡ inl e)
and_then-fails none f h = ("missing field or wrong type", refl)
and_then-fails (some a) f h = h a

port_of-in : (n : ℕ) → n < 65536 → port_of (some (number n)) ≡ some n
port_of-in n h = ground arith

no_bigquery :
    (v : Field → Option Value) (q : Option BigQuery) → DescribesBigQuery false v q → none ≡ q
no_bigquery v none d = refl
no_bigquery v (some b) d = absurd d

no_redis : (v : Field → Option Value) (r : Option Redis) → DescribesRedis false v r → none ≡ r
no_redis v none d = refl
no_redis v (some r) d = absurd d

deserialize-Describes :
    (es : List Entry) (s : Configuration)
    → Describes default_build (value_at es) s
    → deserialize es ≡ inr s
unfolding deserialize
deserialize-Describes es s d =
    rw (d.tcp.0, d.ws.0, d.certfile, d.keyfile, d.websocket, d.timeout.0)
      (rw
        (
          port_of-in s.ports.tcp d.tcp.1,
          port_of-in s.ports.ws d.ws.1,
          port_of-in s.general.timeout d.timeout.1,
        )
        (λ i. inr (record s {
          bigquery = no_bigquery (value_at es) s.bigquery d.bigquery i;
          redis = no_redis (value_at es) s.redis d.redis i;
        })))

deserialize-missing :
    (es : List Entry) (f : Field)
    → has_field default_build f ≡ true
    → value_at es f ≡ none
    → (e : String) × (deserialize es ≡ inl e)
unfolding deserialize has_field
deserialize-missing es ports_tcp h e = rw e ("missing field or wrong type", refl)
deserialize-missing es ports_ws h e =
    and_then-fails (port_of (value_at es ports_tcp)) _
      (λ tcp. rw e ("missing field or wrong type", refl))
deserialize-missing es tls_certfile h e = and_then-fails (port_of (value_at es ports_tcp)) _ (λ tcp.
    and_then-fails (port_of (value_at es ports_ws)) _
      (λ ws. rw e ("missing field or wrong type", refl)))
deserialize-missing es tls_keyfile h e = and_then-fails (port_of (value_at es ports_tcp)) _ (λ tcp.
    and_then-fails (port_of (value_at es ports_ws)) _ (λ ws.
      and_then-fails (text_of (value_at es tls_certfile)) _
        (λ certfile. rw e ("missing field or wrong type", refl))))
deserialize-missing es general_websocket h e =
    and_then-fails (port_of (value_at es ports_tcp)) _ (λ tcp.
      and_then-fails (port_of (value_at es ports_ws)) _ (λ ws.
        and_then-fails (text_of (value_at es tls_certfile)) _ (λ certfile.
          and_then-fails (text_of (value_at es tls_keyfile)) _
            (λ keyfile. rw e ("missing field or wrong type", refl)))))
deserialize-missing es general_timeout h e =
    and_then-fails (port_of (value_at es ports_tcp)) _ (λ tcp.
      and_then-fails (port_of (value_at es ports_ws)) _ (λ ws.
        and_then-fails (text_of (value_at es tls_certfile)) _ (λ certfile.
          and_then-fails (text_of (value_at es tls_keyfile)) _ (λ keyfile.
            and_then-fails (truth_of (value_at es general_websocket)) _
              (λ websocket. rw e ("missing field or wrong type", refl))))))
deserialize-missing es bigquery_project_id h e = absurd (cc h)
deserialize-missing es bigquery_dataset_id h e = absurd (cc h)
deserialize-missing es bigquery_table_id h e = absurd (cc h)
deserialize-missing es bigquery_credentials_path h e = absurd (cc h)
deserialize-missing es redis_host h e = absurd (cc h)
deserialize-missing es redis_port h e = absurd (cc h)

crate-IsDocumented : IsDocumented crate default_build
unfolding read_source
crate-IsDocumented = record {
  value = value_at;
  build_reads = λ s es e. (es, rw e refl, λ f. refl);
  deserializes = deserialize-Describes;
  misses = deserialize-missing;
}

tests-pass_iff_example :
    ((test_ports crate ≡ true) ↔ (◌≡◌ {A = Bool} false false × ◌≡◌ {A = Bool} false false))
    × ((test_bigquery crate ≡ true) ↔ (◌≡◌ {A = Bool} false true × ◌≡◌ {A = Bool} false false))
    × ((test_redis crate ≡ true) ↔ (◌≡◌ {A = Bool} false false × ◌≡◌ {A = Bool} false true))
tests-pass_iff_example = tests-pass_iff crate default_build crate-IsDocumented
