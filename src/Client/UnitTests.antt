-- ===== src/Client/UnitTests.antt =====
-- The unit tests of src/tcp_handling.rs, as functions that say whether the test passes. The client and
-- the listener of a test talk over a stream; after each `sleep` the task of the client has handled
-- what was written.
pub mod Handled
pub mod Passes
pub mod Delivers
use mcloudtt.Prelude.{
  is_some, ℕ, String, Option, none, some, Bool, true, false, not, ◌&&◌, ◌==◌, List, [], ◌∷◌, length,
  eqb, map, ◌++◌, ◌⊎◌, inl, inr,
}
use mcloudtt.Error.{Result, ok, err, panic}
use mcloudtt.BTreeMap.{get}
use mcloudtt.Broadcast.{View, Received, message, lagged, closed}
use mcloudtt.Mqtt.{
  Packet, QoS, at_most_once, at_least_once, exactly_once, TopicFilter, concrete, ConnectPacket,
  ConnectAckPacket, ConnectReason, SubscribePacket, UnsubscribePacket,
}
use mcloudtt.Mqtt.Packet.{connect, connect_ack, subscribe, unsubscribe, publish}
use mcloudtt.Env.{Env, Message}
use mcloudtt.Topics
use mcloudtt.Topics.{Shared, Channel}
use mcloudtt.Client.State
use mcloudtt.Client.State.{Client, World}
use mcloudtt.Client.Connection.{Event, read, buffer, handle_raw_tcp_stream}

module _ (E : Env) where
  -- What the tests call of the crates mqtt_v5_fork and bytes.
  pub record Crates : Type 0 where
    -- `ConnectPacket::default()`
    pub connect_default : ConnectPacket E.FinalWill
    -- `SubscribePacket::new` and `SubscriptionTopic::new_concrete`
    pub subscribe_new : List TopicFilter → SubscribePacket
    pub new_concrete : String → TopicFilter
    -- `UnsubscribePacket::new`
    pub unsubscribe_new : List TopicFilter → UnsubscribePacket
    -- `PublishPacket::new`
    pub publish_new : String → List ℕ → E.PublishPacket
    -- `Bytes::from`
    pub bytes_from : String → List ℕ

  -- What a test starts with, besides the topics: what the client draws, the peer, the channels, and
  -- the ends of the stream and of the queue.
  pub record Bench : Type 0 where
    pub id : String
    pub addr : String
    pub hub : E.Hub
    pub queue : E.Queue
    pub bq : E.Bq
    pub stream : E.Stream

module _ (E : Env) (K : Crates E) where
  abbrev pub Incoming : Type 0
  Incoming = Packet E.PublishPacket E.FinalWill

  unfoldable pub get_packet : Incoming → List ℕ
  get_packet packet = E.encode_mqtt packet

  -- `Packet::Connect(ConnectPacket::default())`
  abbrev pub connect_packet : Incoming
  connect_packet = connect K.connect_default

  abbrev pub subscription_packet : Incoming
  subscription_packet = subscribe (K.subscribe_new (K.new_concrete "test" ∷ []))

  abbrev pub unsubscribe_packet : Incoming
  unsubscribe_packet = unsubscribe (K.unsubscribe_new (concrete "test" 1 ∷ []))

  abbrev pub test_packet : Incoming
  test_packet = publish (K.publish_new "test" (K.bytes_from "test"))

module _ (E : Env) where
  unfoldable pub generate_client : String → Client E
  generate_client id = State.new E id

  -- `Topics::default()`
  abbrev pub default_topics : E.Hub → Shared E
  default_topics h = record { topics = []; hub = h }

  unfoldable pub test_world : Bench E → Shared E → World E
  unfolding generate_client
  test_world b topics = record {
    client = generate_client b.id;
    shared = topics;
    queue = b.queue;
    bq = b.bq;
    stream = b.stream;
  }

module _ (E : Env) (sent : E.Stream → List ℕ) (K : Crates E) where
  -- The task of the client has handled the packets that were written.
  unfoldable pub handled : Bench E → Shared E → List (Incoming E K) → World E
  unfolding get_packet test_world
  handled b topics packets =
      (handle_raw_tcp_stream E b.addr (map (λ p. read (get_packet E K p)) packets)
        (test_world E b topics)).1

  -- `writer.try_read(&mut buf)`, decoded; `none` where the test panics.
  unfoldable pub response_packet : World E → Option (Incoming E K)
  response_packet w = elim (E.decode_mqtt (buffer (sent w.stream))) [
    | inl e ↦ none
    | inr packet ↦ packet
  ]

  unfoldable pub connack : Option (Incoming E K) → Option ConnectAckPacket
  connack (some (connect_ack p)) = some p
  connack _ = none

  -- `assert!(matches!(response_packet, Packet::ConnectAck(_)))`, after the first packet.
  unfoldable pub is_connected : Bench E → Shared E → Bool
  unfolding handled response_packet connack
  is_connected b topics =
      elim (connack (response_packet (handled b topics (connect_packet E K ∷ [])))) [
        | none ↦ false
        | some p ↦ true
      ]

  unfoldable pub test_has_receiver : Bench E → Bool
  unfolding is_connected
  test_has_receiver b =
      let topics = default_topics E b.hub in
      let w = handled b topics (connect_packet E K ∷ subscription_packet E K ∷ []) in
      is_connected b topics && eqb 1 (length w.shared.topics)

  -- `topics….get_mut("test").unwrap().sender.send(…)` is an `Err`.
  unfoldable pub has_no_receiver : Shared E → Bool
  has_no_receiver s = elim (get "test" s.topics) [
    | none ↦ false
    | some channel ↦
        not (E.bus.send channel.sender (Message.publish (K.publish_new "test" [])) s.hub).0
  ]

  unfoldable pub test_handle_unsubscribe_packet : Bench E → Bool
  unfolding is_connected has_no_receiver
  test_handle_unsubscribe_packet b =
      let topics = default_topics E b.hub in
      let subscribed = connect_packet E K ∷ subscription_packet E K ∷ [] in
      let w = handled b topics subscribed in
      let w' = handled b topics (subscribed ++ unsubscribe_packet E K ∷ []) in
      is_connected b topics && (eqb 1 (length w.shared.topics) && has_no_receiver w'.shared)

  unfoldable pub is_test : Received (Message E.PublishPacket) → Bool
  is_test (message (Message.publish msg)) = elim (E.from_utf8 (E.payload msg)) [
    | none ↦ false
    | some text ↦ "test" == text
  ]
  is_test (lagged n) = false
  is_test closed = false

  -- `receiver.len()` is how many messages there are to read.
  unfoldable pub test_handle_publish_packet : View E.bus → Bench E → Bool
  unfolding is_connected is_test
  test_handle_publish_packet V b =
      let (r, topics) = Topics.subscribe E "test" (default_topics E b.hub) in
      let s = (handled b topics (connect_packet E K ∷ test_packet E K ∷ [])).shared in
      elim r [
        | ok receiver ↦
            is_connected b topics
            && (eqb 1 (length (V.unread receiver s.hub)) && is_test (E.bus.recv receiver s.hub).0)
        | err e ↦ false
        | panic ↦ false
      ]

  unfoldable pub is_at_least_once : Option QoS → Bool
  is_at_least_once (some at_least_once) = true
  is_at_least_once _ = false

  unfoldable pub is_success : ConnectReason → Bool
  is_success ConnectReason.success = true

  unfoldable pub test_handle_connect_packet : Bench E → Bool
  unfolding handled response_packet connack is_at_least_once is_success
  test_handle_connect_packet b =
      let w = handled b (default_topics E b.hub) (connect_packet E K ∷ []) in
      elim (connack (response_packet w)) [
        | none ↦ false
        | some p ↦
            is_success p.reason_code
            && (is_some p.assigned_client_identifier && is_at_least_once p.maximum_qos)
      ]
