-- ===== src/Client/UnitTests/Handled.antt =====
-- What the handlers come to in the unit tests of src/tcp_handling.rs.
use mcloudtt.Prelude.{ℕ, ◌<◌, String, Option, none, some, ◌≡◌, refl, List, [], ◌∷◌, inr}
use mcloudtt.Error.{ok}
use mcloudtt.BTreeMap.{get, insert, remove}
use mcloudtt.Mqtt.{
  Packet, ConnectPacket, TopicFilter, concrete, SubscribePacket, UnsubscribePacket,
  granted_qos_zero, UnsubscribeAckReason,
}
use mcloudtt.Mqtt.Packet.{connect_ack}
use mcloudtt.Env.{Env, IsConnected}
use mcloudtt.Topics
use mcloudtt.Topics.{Shared, new}
use mcloudtt.Client.State.{World, write_to_stream, written}
use mcloudtt.Client.Subscribe.{
  handle_subscribe_packet, subscribe_each, subscribe_concrete, insert_receiver, send_retained,
  suback, handle_unsubscribe_packet, unsubscribe_each, unsubscribe_filter, unsuback, removed,
}
use mcloudtt.Client.Session.{
  handle_packet, on_decoded, handle_decoded, handle_connect_packet, store_will,
  connect_ack as connack_of,
}
use mcloudtt.Client.Connection.{read, buffer, iterate, branch, read_branch, closing}
use mcloudtt.Client.Connection.Timers.{sleep_secs-eq}
use mcloudtt.Client.UnitTests.{Crates}

module _ (E : Env) where
  -- A packet that the codec reads back from a buffer.
  abbrev pub ReadsBack : Packet E.PublishPacket E.FinalWill → Type 0
  ReadsBack p = E.decode_mqtt (buffer (E.encode_mqtt p)) ≡ inr (some p)

  -- What the crates document of the constructors.
  pub record IsCrates (K : Crates E) : Type 0 where
    pub subscribes : (fs : List TopicFilter) → (K.subscribe_new fs).subscription_topics ≡ fs
    pub concrete_new : (f : String) → (n : ℕ) × (K.new_concrete f ≡ concrete f n)
    pub unsubscribes : (fs : List TopicFilter) → (K.unsubscribe_new fs).topic_filters ≡ fs
    pub publishes_topic : (t : String) (b : List ℕ) → E.topic_name (K.publish_new t b) ≡ t
    pub publishes_payload : (t : String) (b : List ℕ) → E.payload (K.publish_new t b) ≡ b
    pub bytes_text : E.from_utf8 (K.bytes_from "test") ≡ some "test"

  pub iterate-packet :
      (addr : String) (p : Packet E.PublishPacket E.FinalWill) (w w' : World E)
      → E.settings.general.timeout < 65534
      → ReadsBack p
      → handle_decoded E addr (some p) w ≡ (ok tt, w')
      → iterate E addr (read (E.encode_mqtt p)) w ≡ (ok tt, w')
  unfolding iterate branch read_branch handle_packet on_decoded closing
  iterate-packet addr p w w' h back e = rw (sleep_secs-eq E h, back, e) refl

  -- The stream after a packet has been written.
  abbrev pub after : Packet E.PublishPacket E.FinalWill → E.Stream → E.Stream
  after p s = (E.write_all (E.encode_mqtt p) s).1

  unfoldable pub stored : Option E.FinalWill → Option E.FinalWill → Option E.FinalWill
  stored none old = old
  stored (some will) old = some will

  pub store_will-eq :
      (o : Option E.FinalWill) (w : World E)
      → store_will E o w ≡ record w { client = record w.client { will = stored o w.client.will } }
  unfolding store_will stored
  store_will-eq none w = refl
  store_will-eq (some will) w = refl

  module _ (C : IsConnected E.io) where
    pub connect-returns :
        (p : ConnectPacket E.FinalWill) (w : World E)
        → handle_connect_packet E p w ≡ (
          ok tt,
          record w {
            client = record w.client { will = stored p.will w.client.will };
            stream = after (connect_ack (connack_of E w.client.id)) w.stream;
          },
        )
    unfolding handle_connect_packet write_to_stream written
    connect-returns p w =
        rw
          (
            store_will-eq p.will w,
            C.write_all_succeeds (E.encode_mqtt (connect_ack (connack_of E w.client.id))) w.stream,
          )
          refl

    -- The topic is not there yet.
    pub subscribe-returns :
        (p : SubscribePacket) (n : ℕ) (w : World E)
        → p.subscription_topics ≡ concrete "test" n ∷ []
        → w.client.receivers ≡ []
        → w.shared.topics ≡ []
        → let made = E.bus.channel 1024 w.shared.hub in
          handle_subscribe_packet E p w ≡ (
            ok tt,
            record w {
              client = record w.client { receivers = ("test", made.1) ∷ [] };
              shared = record { topics = ("test", new E made.0) ∷ []; hub = made.2 };
              stream = after (suback E p (granted_qos_zero ∷ [])) w.stream;
            },
          )
    unfolding handle_subscribe_packet subscribe_each subscribe_concrete insert_receiver
        send_retained write_to_stream written Topics.subscribe Topics.add Topics.put Topics.new get
        insert Topics.get_retained_message
    subscribe-returns p n w one alone none_yet =
        rw
          (
            one,
            alone,
            none_yet,
            C.write_all_succeeds (E.encode_mqtt (suback E p (granted_qos_zero ∷ []))) w.stream,
          )
          refl

    pub unsubscribe-returns :
        (p : UnsubscribePacket) (n : ℕ) (r : E.Receiver) (w : World E)
        → p.topic_filters ≡ concrete "test" n ∷ []
        → w.client.receivers ≡ ("test", r) ∷ []
        → handle_unsubscribe_packet E p w ≡ (
          ok tt,
          record w {
            client = record w.client { receivers = [] };
            shared = record w.shared { hub = E.bus.drop_receiver r w.shared.hub };
            stream = after (unsuback E p (UnsubscribeAckReason.success ∷ [])) w.stream;
          },
        )
    unfolding handle_unsubscribe_packet unsubscribe_each unsubscribe_filter removed write_to_stream
        written get remove
    unsubscribe-returns p n r w one alone =
        rw
          (
            one,
            alone,
            C.write_all_succeeds (E.encode_mqtt (unsuback E p (UnsubscribeAckReason.success ∷ [])))
                w.stream,
          )
          refl
