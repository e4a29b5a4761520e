-- ===== src/Generator.antt =====
-- examples/package_generator.rs, which prints the bytes of a packet. The codec, the text's bytes and how
-- `{:?}` prints bytes are arguments.
use mcloudtt.Prelude.{ℕ, String, Option, none, some, Bool, false, List, []}
use mcloudtt.Mqtt.{QoS, at_most_once, UserProperties}

-- `mqtt_v5_fork::types::PublishPacket`
pub record PublishPacket : Type 0 where
  pub is_duplicate : Bool
  pub qos : QoS
  pub retain : Bool
  pub topic : String
  pub packet_id : Option ℕ
  pub payload_format_indicator : Option ℕ
  pub message_expiry_interval : Option ℕ
  pub topic_alias : Option ℕ
  pub response_topic : Option String
  pub correlation_data : Option (List ℕ)
  pub user_properties : UserProperties
  pub subscription_identifiers : List ℕ
  pub content_type : Option String
  pub payload : List ℕ

-- What the program calls: `Topic::from_str`, which fails for a text that is no topic, `Bytes::from`,
-- `encode_mqtt` of a PUBLISH, and `{:?}`.
pub record Codec : Type 0 where
  pub from_str : String → Option String
  pub bytes_from : String → List ℕ
  pub encode_mqtt : PublishPacket → List ℕ
  -- `format!("{:?}", buf)` of a `BytesMut`
  pub debug : List ℕ → String

module _ (K : Codec) where
  unfoldable pub generated : String → PublishPacket
  generated topic = record {
    is_duplicate = false;
    qos = at_most_once;
    retain = false;
    topic = topic;
    packet_id = none;
    payload_format_indicator = none;
    message_expiry_interval = none;
    topic_alias = none;
    response_topic = none;
    correlation_data = none;
    user_properties = [];
    subscription_identifiers = [];
    content_type = none;
    payload = K.bytes_from "Motion sensor triggered";
  }

  -- What is printed; `none` is the panic of the `unwrap`.
  unfoldable pub main : Option String
  unfolding generated
  main = elim (K.from_str "esp32-c3") [
    | none ↦ none
    | some topic ↦ some (K.debug (K.encode_mqtt (generated topic)))
  ]
