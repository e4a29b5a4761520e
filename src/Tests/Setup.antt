-- ===== src/Tests/Setup.antt =====
-- A broker that can be run: packets of a few fields, a stream that keeps what is written, and the
-- reference hub.
use mcloudtt.Prelude.{
  ℕ, String, Option, none, some, Bool, true, false, List, [], ◌∷◌, ◌++◌, inr, ap, sym, unwrap_or,
  eqb, if◌then◌else◌, ◌⊎◌, refl,
}
use mcloudtt.Mqtt.{
  Mqtt, BuildsGiven, Packet, PublishAckPacket, PublishAckReason, DisconnectPacket,
  disconnect_with_will_message, other, QoS, at_most_once, at_least_once, SubscribePacket, concrete,
}
use mcloudtt.Broadcast.Reference.{hub, hub_view, Hub}
use mcloudtt.Broadcast.{View, IsBroadcast}
use mcloudtt.Broadcast.Reference.Laws.{hub-IsBroadcast}
use mcloudtt.Config.{Configuration}
use mcloudtt.Env.{Env, Io, IsStream, IsConnected, Services, Message}
use mcloudtt.Topics.{Shared}
use mcloudtt.Client.State.{World}

pub record Fields : Type 0 where
  pub topic : String
  pub bytes : List ℕ
  pub quality : QoS
  pub keep : Bool
  pub number : Option ℕ
  pub expiry : Option ℕ

-- A first byte for the kind of the packet, and then the payload or the packet id.
unfoldable pub encode : Packet Fields Fields → List ℕ
encode (Packet.connect p) = 16 ∷ []
encode (Packet.connect_ack p) = 32 ∷ []
encode (Packet.publish p) = 48 ∷ p.bytes
encode (Packet.publish_ack p) = 64 ∷ p.packet_id ∷ []
encode (Packet.subscribe p) = 130 ∷ p.packet_id ∷ []
encode (Packet.subscribe_ack p) = 144 ∷ p.packet_id ∷ []
encode (Packet.unsubscribe p) = 162 ∷ p.packet_id ∷ []
encode (Packet.unsubscribe_ack p) = 176 ∷ p.packet_id ∷ []
encode (Packet.disconnect p) = 224 ∷ []
encode Packet.ping_request = 192 ∷ []
encode Packet.ping_response = 208 ∷ []
encode (Packet.other n) = n ∷ []

-- A packet at QoS 0 that is not retained.
abbrev pub plain : String → ℕ → Fields
plain t n = record {
  topic = t;
  bytes = n ∷ [];
  quality = at_most_once;
  keep = false;
  number = none;
  expiry = none;
}

abbrev pub ack_of : ℕ → PublishAckPacket
ack_of id = record {
  packet_id = id;
  reason_code = PublishAckReason.success;
  reason_string = none;
  user_properties = [];
}

abbrev pub bye_of : ℕ → DisconnectPacket
bye_of n = record { reason_code = if eqb n 4 then disconnect_with_will_message else other n }

abbrev pub ask_of : ℕ → SubscribePacket
ask_of id = record { packet_id = id; subscription_topics = concrete "a" 1 ∷ [] }

-- 48 and a number is a PUBLISH on "a" with the number as payload, 64 and an id is a PUBACK, 224 and a
-- reason is a DISCONNECT, 130 and an id is a SUBSCRIBE of "a"; all else is a PINGREQ.
unfoldable pub decode : List ℕ → String ⊎ Option (Packet Fields Fields)
decode [] = inr (some Packet.ping_request)
decode (b ∷ []) = inr (some Packet.ping_request)
decode (b ∷ n ∷ bytes) = inr (
    some (
      if eqb b 48
      then Packet.publish (plain "a" n)
      else if eqb b 64
      then Packet.publish_ack (ack_of n)
      else if eqb b 224
      then Packet.disconnect (bye_of n)
      else if eqb b 130
      then Packet.subscribe (ask_of n)
      else Packet.ping_request))

abbrev pub example_mqtt : Mqtt
example_mqtt = record {
  PublishPacket = Fields;
  FinalWill = Fields;
  topic_name = λ p. p.topic;
  payload = λ p. p.bytes;
  qos = λ p. p.quality;
  retain = λ p. p.keep;
  packet_id = λ p. p.number;
  message_expiry_interval = λ p. p.expiry;
  from_will = λ p. p;
  encode_mqtt = encode;
  decode_mqtt = decode;
  build = λ t b r. some (record {
    topic = t;
    bytes = b;
    quality = at_most_once;
    keep = unwrap_or r false;
    number = none;
    expiry = none;
  });
}

pub example_mqtt-BuildsGiven : BuildsGiven example_mqtt
example_mqtt-BuildsGiven = record {
  built_topic = λ t b r p e. ap (λ o. (unwrap_or o p).topic) (sym e);
  built_payload = λ t b r p e. ap (λ o. (unwrap_or o p).bytes) (sym e);
  built_retain = λ t b r p e. ap (λ o. (unwrap_or o p).keep) (sym e);
}

abbrev pub example_io : Io
example_io = record {
  Stream = List ℕ;
  write_all = λ b s. (none, s ++ b);
  shutdown = λ s. (none, s);
}

pub example_io-IsStream : IsStream example_io (λ s. s)
example_io-IsStream = record { write_all_sends = λ b s e. refl }

pub example_io-IsConnected : IsConnected example_io
example_io-IsConnected = record { write_all_succeeds = λ b s. refl }

abbrev pub example_services : Services Fields
example_services = record {
  from_utf8 = λ b. some "text";
  Queue = List Fields;
  queue_send = λ p q. some (q ++ p ∷ []);
  Bq = List String;
  BqClient = Unit {0};
  now = λ b. "now";
  from_service_account_key_file = λ p b. some tt;
  insert_all = λ c p d t e b. (none, b ++ e.0 ∷ []);
}

abbrev pub example_settings : Configuration
example_settings = record {
  ports = record { tcp = 1883; ws = 8080 };
  tls = record { certfile = "cert"; keyfile = "key" };
  general = record { websocket = false; timeout = 10 };
  bigquery = none;
  redis = some (record { host = "redis"; port = 6379 });
}

abbrev pub env : Env
env = record {
  mqtt = example_mqtt;
  bus = hub (Message Fields);
  io = example_io;
  services = example_services;
  settings = example_settings;
  features = record {
    redis = true;
    bq_logging = false;
    secure = true;
    docker = false;
    overflow_checks = true;
  };
}

abbrev pub view : View env.bus
view = hub_view (Message Fields)

abbrev pub laws : IsBroadcast env.bus view
laws = hub-IsBroadcast (Message Fields)

-- No channel.
abbrev pub no_channels : Hub (Message Fields)
no_channels = record { next = 0; slots = λ i. none }

abbrev pub no_topics : Shared env
no_topics = record { topics = []; hub = no_channels }

-- A packet at QoS 1 that is retained.
abbrev pub kept : String → ℕ → Fields
kept t n = record {
  topic = t;
  bytes = n ∷ [];
  quality = at_least_once;
  keep = true;
  number = some 7;
  expiry = some 2;
}

abbrev pub fresh_world : World env
fresh_world = record {
  client = record { receivers = []; will = none; outgoing_messages = []; id = "client" };
  shared = no_topics;
  queue = [];
  bq = [];
  stream = [];
}
