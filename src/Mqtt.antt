-- ===== src/Mqtt.antt =====
-- The packets of the crate mqtt_v5_fork, as far as src/tcp_handling.rs, src/topics.rs and
-- src/redis_client.rs name them. A packet that the broker builds, or takes apart field by field,
-- is a record of the fields that the source names; a `PublishPacket` or `FinalWill`, which the
-- broker only hands on, is a type of the interface `Mqtt` with the fields that are read.
use mcloudtt.Prelude.{ℕ, String, Option, Bool, List, ◌⊎◌, ◌≡◌, some}

pub data QoS : Type 0 where
  at_most_once at_least_once exactly_once : QoS

pub data TopicFilter : Type 0 where
  concrete : String → ℕ → TopicFilter
  wildcard : String → ℕ → TopicFilter
  shared_concrete shared_wildcard : TopicFilter

pub data PublishAckReason : Type 0 where
  success unspecified_error : PublishAckReason

pub data SubscribeAckReason : Type 0 where
  granted_qos_zero wildcard_subscriptions_not_supported : SubscribeAckReason
  shared_subscriptions_not_supported : SubscribeAckReason

pub data UnsubscribeAckReason : Type 0 where
  success no_subscription_existed implementation_specific_error : UnsubscribeAckReason

-- `other` is any reason that the source does not name.
pub data DisconnectReason : Type 0 where
  disconnect_with_will_message : DisconnectReason
  other : ℕ → DisconnectReason

pub data ConnectReason : Type 0 where
  success : ConnectReason

abbrev pub UserProperties : Type 0
UserProperties = List (String × String)

pub record PublishAckPacket : Type 0 where
  pub packet_id : ℕ
  pub reason_code : PublishAckReason
  pub reason_string : Option String
  pub user_properties : UserProperties

pub record SubscribePacket : Type 0 where
  pub packet_id : ℕ
  pub subscription_topics : List TopicFilter

pub record SubscribeAckPacket : Type 0 where
  pub packet_id : ℕ
  pub reason_string : Option String
  pub user_properties : UserProperties
  pub reason_codes : List SubscribeAckReason

pub record UnsubscribePacket : Type 0 where
  pub packet_id : ℕ
  pub topic_filters : List TopicFilter

pub record UnsubscribeAckPacket : Type 0 where
  pub packet_id : ℕ
  pub reason_codes : List UnsubscribeAckReason
  pub user_properties : UserProperties
  pub reason_string : Option String

pub record DisconnectPacket : Type 0 where
  pub reason_code : DisconnectReason

pub record ConnectAckPacket : Type 0 where
  pub session_present : Bool
  pub reason_code : ConnectReason
  pub session_expiry_interval : Option ℕ
  pub receive_maximum : Option ℕ
  pub maximum_qos : Option QoS
  pub retain_available : Option Bool
  pub maximum_packet_size : Option ℕ
  pub assigned_client_identifier : Option String
  pub topic_alias_maximum : Option ℕ
  pub reason_string : Option String
  pub user_properties : UserProperties
  pub wildcard_subscription_available : Option Bool
  pub subscription_identifiers_available : Option Bool
  pub shared_subscription_available : Option Bool
  pub server_keep_alive : Option ℕ
  pub response_information : Option String
  pub server_reference : Option String
  pub authentication_method : Option String
  pub authentication_data : Option (List ℕ)

pub record ConnectPacket (Will : Type 0) : Type 0 where
  pub client_id : String
  pub will : Option Will

-- `other` is any packet that the source does not name.
pub data Packet (Publish Will : Type 0) : Type 0 where
  connect : ConnectPacket Will → Packet Publish Will
  connect_ack : ConnectAckPacket → Packet Publish Will
  publish : Publish → Packet Publish Will
  publish_ack : PublishAckPacket → Packet Publish Will
  subscribe : SubscribePacket → Packet Publish Will
  subscribe_ack : SubscribeAckPacket → Packet Publish Will
  unsubscribe : UnsubscribePacket → Packet Publish Will
  unsubscribe_ack : UnsubscribeAckPacket → Packet Publish Will
  disconnect : DisconnectPacket → Packet Publish Will
  ping_request ping_response : Packet Publish Will
  other : ℕ → Packet Publish Will

-- What the broker uses of the crate. A byte is a number.
pub record Mqtt : Type 1 where
  pub PublishPacket : Type 0
  pub FinalWill : Type 0
  -- `packet.topic.topic_name()`
  pub topic_name : PublishPacket → String
  pub payload : PublishPacket → List ℕ
  pub qos : PublishPacket → QoS
  pub retain : PublishPacket → Bool
  pub packet_id : PublishPacket → Option ℕ
  pub message_expiry_interval : PublishPacket → Option ℕ
  -- `PublishPacket::from`
  pub from_will : FinalWill → PublishPacket
  pub encode_mqtt : Packet PublishPacket FinalWill → List ℕ
  -- Left is a `DecodeError`; `none` is an incomplete packet.
  pub decode_mqtt : List ℕ → String ⊎ Option (Packet PublishPacket FinalWill)
  -- `PublishPacketBuilder::new(topic, payload)`, with `.with_retain(retain)` if that is given, and
  -- `.build()`.
  pub build : String → List ℕ → Option Bool → Option PublishPacket

-- What the crate documents of its builder: a packet that it builds has the given fields.
pub record BuildsGiven (Q : Mqtt) : Type 0 where
  pub built_topic :
      (t : String) (b : List ℕ) (r : Option Bool) (p : Q.PublishPacket)
      → Q.build t b r ≡ some p
      → Q.topic_name p ≡ t
  pub built_payload :
      (t : String) (b : List ℕ) (r : Option Bool) (p : Q.PublishPacket)
      → Q.build t b r ≡ some p
      → Q.payload p ≡ b
  pub built_retain :
      (t : String) (b : List ℕ) (r : Bool) (p : Q.PublishPacket)
      → Q.build t b (some r) ≡ some p
      → Q.retain p ≡ r
