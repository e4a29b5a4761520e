-- ===== src/Tests/Bench.antt =====
-- The unit tests of src/tcp_handling.rs with a codec that knows their packets.
use mcloudtt.Prelude.{
  ℕ, String, Option, none, some, true, ◌≡◌, refl, List, [], ◌∷◌, inr, eqb, if◌then◌else◌, ◌⊎◌,
  arith,
}
use mcloudtt.Mqtt.{Packet, concrete}
use mcloudtt.Env.{Env}
use mcloudtt.Client.Session.{connect_ack}
use mcloudtt.Client.UnitTests.{
  Crates, Bench, test_handle_unsubscribe_packet, test_handle_publish_packet,
}
use mcloudtt.Client.UnitTests.Passes.{Works, test_handle_unsubscribe_packet-passes}
use mcloudtt.Client.UnitTests.Delivers.{test_handle_publish_packet-passes}
use mcloudtt.Tests.Setup.{
  env, encode, example_mqtt, example_services, view, laws, plain, no_channels, Fields,
  example_io-IsStream, example_io-IsConnected,
}

abbrev test_publish : String → List ℕ → Fields
test_publish t b = record (plain t 0) { bytes = b }

-- The packet of a first byte.
abbrev packet_of : ℕ → Packet Fields Fields
packet_of b =
    if eqb b 16
    then Packet.connect (record { client_id = ""; will = none })
    else if eqb b 32
    then Packet.connect_ack (connect_ack env "client")
    else if eqb b 48
    then Packet.publish (test_publish "test" (116 ∷ []))
    else if eqb b 130
    then Packet.subscribe (record { packet_id = 0; subscription_topics = concrete "test" 1 ∷ [] })
    else Packet.unsubscribe (record { packet_id = 0; topic_filters = concrete "test" 1 ∷ [] })

abbrev bench_decode : List ℕ → String ⊎ Option (Packet Fields Fields)
bench_decode [] = inr none
bench_decode (b ∷ bytes) = inr (some (packet_of b))

abbrev bench_env : Env
bench_env = record env {
  mqtt = record example_mqtt { decode_mqtt = bench_decode };
  services = record example_services { from_utf8 = λ b. some "test" };
}

abbrev crates : Crates bench_env
crates = record {
  connect_default = record { client_id = ""; will = none };
  subscribe_new = λ fs. record { packet_id = 0; subscription_topics = fs };
  new_concrete = λ f. concrete f 1;
  unsubscribe_new = λ fs. record { packet_id = 0; topic_filters = fs };
  publish_new = test_publish;
  bytes_from = λ s. 116 ∷ [];
}

abbrev bench : Bench bench_env
bench = record { id = "client"; addr = "peer"; hub = no_channels; queue = []; bq = []; stream = [] }

bench-Works : Works bench_env (λ s. s) crates bench
unfolding connect_ack encode
bench-Works = record {
  short = omega arith;
  connected = example_io-IsConnected;
  stream = example_io-IsStream;
  empty = refl;
  crates = record {
    subscribes = λ fs. refl;
    concrete_new = λ f. (1, refl);
    unsubscribes = λ fs. refl;
    publishes_topic = λ t b. refl;
    publishes_payload = λ t b. refl;
    bytes_text = refl;
  };
  reads_connect = refl;
  reads_response = refl;
  reads_subscription = refl;
  reads_unsubscribe = refl;
  reads_publish = refl;
}

test_handle_unsubscribe_packet-passes_example :
    test_handle_unsubscribe_packet bench_env (λ s. s) crates bench ≡ true
test_handle_unsubscribe_packet-passes_example =
    test_handle_unsubscribe_packet-passes bench_env (λ s. s) crates bench bench-Works view laws
      λ r. ground arith

test_handle_publish_packet-passes_example :
    test_handle_publish_packet bench_env (λ s. s) crates view bench ≡ true
test_handle_publish_packet-passes_example =
    test_handle_publish_packet-passes bench_env (λ s. s) crates bench bench-Works view laws
