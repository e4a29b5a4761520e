-- ===== src/Client/UnitTests/Passes.antt =====
-- The outcome of the unit tests of src/tcp_handling.rs.
use mcloudtt.Prelude.{
  ℕ, ◌<◌, none, some, true, ◌≡◌, ◌≢◌, refl, ap, ◌∙◌, List, [], ◌∷◌, ◌++◌, inr, map, false,
  Bool-cases, inl,
}
use mcloudtt.Error.{continue}
use mcloudtt.BTreeMap.{get}
use mcloudtt.Broadcast.{View, IsBroadcast}
use mcloudtt.Mqtt.{Packet, concrete, granted_qos_zero, UnsubscribeAckReason}
use mcloudtt.Mqtt.Packet.{connect_ack}
use mcloudtt.Env.{Env, Message, IsStream, IsConnected}
use mcloudtt.Topics.{Shared, new}
use mcloudtt.Client.State.{World, new as new_client}
use mcloudtt.Client.Subscribe.{suback, unsuback}
use mcloudtt.Client.Session.{handle_decoded, connect_ack as connack_of}
use mcloudtt.Client.Connection.{read, handle_raw_tcp_stream}
use mcloudtt.Client.UnitTests.{
  Crates, Bench, get_packet, connect_packet, subscription_packet, unsubscribe_packet, test_packet,
  generate_client, default_topics, test_world, handled, response_packet, connack, is_connected,
  test_has_receiver, has_no_receiver, test_handle_unsubscribe_packet, is_at_least_once, is_success,
  test_handle_connect_packet,
}
use mcloudtt.Client.UnitTests.Handled.{
  ReadsBack, IsCrates, iterate-packet, after, stored, connect-returns, subscribe-returns,
  unsubscribe-returns,
}

-- What all tests rest on: a timeout of at most 65533 seconds, a stream that stays connected and is
-- empty at first, and packets that are read back from a buffer of 1024 bytes.
pub record Works (E : Env) (sent : E.Stream → List ℕ) (K : Crates E) (b : Bench E) : Type 0 where
  pub short : E.settings.general.timeout < 65534
  pub connected : IsConnected E.io
  pub stream : IsStream E.io sent
  pub empty : sent b.stream ≡ []
  pub crates : IsCrates E K
  pub reads_connect : ReadsBack E (connect_packet E K)
  pub reads_response : ReadsBack E (connect_ack (connack_of E b.id))
  pub reads_subscription : ReadsBack E (subscription_packet E K)
  pub reads_unsubscribe : ReadsBack E (unsubscribe_packet E K)
  pub reads_publish : ReadsBack E (test_packet E K)

module _ (E : Env) (sent : E.Stream → List ℕ) (K : Crates E) (b : Bench E)
    (W : Works E sent K b) where
  -- The world after the CONNECT.
  abbrev pub w_connect : Shared E → World E
  w_connect topics = record {
    client = record (new_client E b.id) { will = stored E K.connect_default.will none };
    shared = topics;
    queue = b.queue;
    bq = b.bq;
    stream = after E (connect_ack (connack_of E b.id)) b.stream;
  }

  pub handled-connect :
      (topics : Shared E) (ps : List (Packet E.PublishPacket E.FinalWill))
      → handled E sent K b topics (connect_packet E K ∷ ps)
        ≡ (handle_raw_tcp_stream E b.addr
            (map (λ p. read (E.encode_mqtt p)) ps)
            (w_connect topics)).1
  unfolding handled get_packet test_world generate_client new_client handle_raw_tcp_stream
      handle_decoded
  handled-connect topics ps =
      rw
        (
          iterate-packet E b.addr (connect_packet E K) (test_world E b topics) (w_connect topics)
              W.short W.reads_connect
              (connect-returns E W.connected K.connect_default (test_world E b topics)),
          handled,
        )
        refl

  response :
      (topics : Shared E)
      → response_packet E sent K (w_connect topics) ≡ some (connect_ack (connack_of E b.id))
  unfolding response_packet
  response topics =
      let p = connect_ack (connack_of E b.id) in
      let bytes : sent (after E p b.stream) ≡ E.encode_mqtt p =
        W.stream.write_all_sends (E.encode_mqtt p) b.stream
          (W.connected.write_all_succeeds (E.encode_mqtt p) b.stream)
        ∙ ap (λ x. x ++ E.encode_mqtt p) W.empty in
      rw (bytes, W.reads_response, response_packet) refl

  pub is_connected-true : (topics : Shared E) → is_connected E sent K b topics ≡ true
  unfolding is_connected connack handle_raw_tcp_stream
  is_connected-true topics = rw (handled-connect topics [], response topics, is_connected) refl

  pub test_handle_connect_packet-passes : test_handle_connect_packet E sent K b ≡ true
  unfolding test_handle_connect_packet connack handle_raw_tcp_stream is_success is_at_least_once
      connack_of
  test_handle_connect_packet-passes =
      rw
        (
          handled-connect (default_topics E b.hub) [],
          response (default_topics E b.hub),
          test_handle_connect_packet,
        )
        refl

  abbrev pub made : E.Sender × E.Receiver × E.Hub
  made = E.bus.channel 1024 b.hub

  -- The world after the SUBSCRIBE.
  abbrev w_subscribe : World E
  w_subscribe = record (w_connect (default_topics E b.hub)) {
    client = record (w_connect (default_topics E b.hub)).client {
      receivers = ("test", made.1) ∷ [];
    };
    shared = record { topics = ("test", new E made.0) ∷ []; hub = made.2 };
    stream =
        after E (suback E (K.subscribe_new (K.new_concrete "test" ∷ [])) (granted_qos_zero ∷ []))
          (w_connect (default_topics E b.hub)).stream;
  }

  handled-subscribe :
      (ps : List (Packet E.PublishPacket E.FinalWill))
      → handled E sent K b
          (default_topics E b.hub)
          (connect_packet E K ∷ subscription_packet E K ∷ ps)
        ≡ (handle_raw_tcp_stream E b.addr (map (λ p. read (E.encode_mqtt p)) ps) w_subscribe).1
  unfolding handle_raw_tcp_stream handle_decoded new_client
  handled-subscribe ps =
      let w = w_connect (default_topics E b.hub) in
      let (n, one) = W.crates.concrete_new "test" in
      let topics = W.crates.subscribes (K.new_concrete "test" ∷ []) ∙ ap (λ f. f ∷ []) one in
      let step =
        iterate-packet E b.addr (subscription_packet E K) w w_subscribe W.short W.reads_subscription
          (subscribe-returns E W.connected (K.subscribe_new (K.new_concrete "test" ∷ [])) n w topics
            refl refl) in
      handled-connect (default_topics E b.hub) (subscription_packet E K ∷ ps)
      ∙ ap
          (λ x.
            (continue x.0
              (λ u. handle_raw_tcp_stream E b.addr (map (λ p. read (E.encode_mqtt p)) ps)) x.1).1)
          step

  pub test_has_receiver-passes : test_has_receiver E sent K b ≡ true
  unfolding test_has_receiver handle_raw_tcp_stream
  test_has_receiver-passes =
      rw (is_connected-true (default_topics E b.hub), handled-subscribe [], test_has_receiver) refl

  -- The world after the UNSUBSCRIBE.
  abbrev w_unsubscribe : World E
  w_unsubscribe = record w_subscribe {
    client = record w_subscribe.client { receivers = [] };
    shared = record w_subscribe.shared { hub = E.bus.drop_receiver made.1 made.2 };
    stream =
        after E
          (unsuback E (K.unsubscribe_new (concrete "test" 1 ∷ []))
            (UnsubscribeAckReason.success ∷ []))
          w_subscribe.stream;
  }

  handled-unsubscribe :
      handled E sent K b
        (default_topics E b.hub)
        (connect_packet E K ∷ subscription_packet E K ∷ unsubscribe_packet E K ∷ [])
      ≡ w_unsubscribe
  unfolding handle_raw_tcp_stream handle_decoded new_client
  handled-unsubscribe =
      let step =
        iterate-packet E b.addr (unsubscribe_packet E K) w_subscribe w_unsubscribe W.short
          W.reads_unsubscribe
          (unsubscribe-returns E W.connected (K.unsubscribe_new (concrete "test" 1 ∷ [])) 1 made.1
            w_subscribe (W.crates.unsubscribes (concrete "test" 1 ∷ [])) refl) in
      handled-subscribe (unsubscribe_packet E K ∷ [])
      ∙ ap (λ x. (continue x.0 (λ u. handle_raw_tcp_stream E b.addr []) x.1).1) step

  module _ (V : View E.bus) (L : IsBroadcast E.bus V) where
    all_dead :
        ((r : E.Receiver) → V.live r b.hub ≡ false)
        → (r : E.Receiver) → V.live r w_unsubscribe.shared.hub ≡ false
    all_dead none_live r = elim (Bool-cases (V.live r (E.bus.drop_receiver made.1 made.2))) [
      | inl alive ↦
          let other : r ≢ made.1 = λ same.
            let dead = L.drop_receiver_dead made.1 made.2 in let alive' = rw same at alive in cc in
          let dead =
            L.drop_receiver_stays_dead made.1 made.2 r
              (L.channel_only 1024 b.hub r other (none_live r)) in
          cc
      | inr dead ↦ dead
    ]

    -- The repository's test of UNSUBSCRIBE passes for any codec that reads its packets back, crates
    -- whose constructors keep what they are given, any channels that keep the promises of their
    -- documentation, of which none has a receiver at first, a stream that stays connected and is
    -- empty at first, and a timeout of at most 65533 seconds: the CONNECT is answered, the
    -- SUBSCRIBE makes one topic, and after the UNSUBSCRIBE a packet sent on the topic's channel has
    -- no receiver.
    pub test_handle_unsubscribe_packet-passes :
        ((r : E.Receiver) → V.live r b.hub ≡ false)
        → test_handle_unsubscribe_packet E sent K b ≡ true
    unfolding test_handle_unsubscribe_packet handle_raw_tcp_stream has_no_receiver get new
    test_handle_unsubscribe_packet-passes none_live =
        let fails =
          L.send_fails made.0 (Message.publish (K.publish_new "test" [])) w_unsubscribe.shared.hub
            (λ r live same. let dead = all_dead none_live r in cc) in
        rw
          (
            is_connected-true (default_topics E b.hub),
            handled-subscribe [],
            handled-unsubscribe,
            test_handle_unsubscribe_packet,
            fails,
          )
          refl
