-- ===== src/Client/UnitTests/Delivers.antt =====
-- The outcome of the unit test of a PUBLISH (src/tcp_handling.rs).
use mcloudtt.Prelude.{
  String, ℕ, ◌≤◌, true, ◌≡◌, refl, ap, ◌∙◌, List, [], ◌∷◌, ◌++◌, length, last-all, last, arith,
}
use mcloudtt.Error.{Result, ok, err, panic, continue}
use mcloudtt.BTreeMap.{get, insert}
use mcloudtt.Broadcast.{View, IsBroadcast, message}
use mcloudtt.Env.{Env, Message}
use mcloudtt.Topics
use mcloudtt.Topics.{Shared, new}
use mcloudtt.Topics.Delivery.{
  Reads, publish-Reads, publish-delivers, publish-missed, subscribe-Subscribed,
}
use mcloudtt.Topics.Invariant.{IsValid, subscribe-IsValid}
use mcloudtt.Client.State.{World}
use mcloudtt.Client.Connection.{read, iterate, handle_raw_tcp_stream}
use mcloudtt.Client.Connection.Published.{handle_publish_packet-Holds, iterate-read}
use mcloudtt.Client.UnitTests.{
  Crates, Bench, connect_packet, test_packet, default_topics, handled, is_test,
  test_handle_publish_packet,
}
use mcloudtt.Client.UnitTests.Passes.{Works, w_connect, made, handled-connect, is_connected-true}

module _ (E : Env) (V : View E.bus) where
  default_topics-IsValid : (h : E.Hub) → IsValid E V (default_topics E h)
  unfolding get
  default_topics-IsValid h = record {
    sorted = tt;
    known = λ t c e. cc;
    roomy = λ t c e. cc;
    distinct = λ t u c d e e' same. cc;
  }

  -- A reader with nothing to read, and a packet on its topic.
  published-read :
      IsBroadcast E.bus V
      → (p : E.PublishPacket) (s : Shared E) (r : E.Receiver) (t : String) → IsValid E V s
      → Reads E V r t s
      → V.unread r s.hub ≡ []
      → V.missed r s.hub ≡ 0
      → E.topic_name p ≡ t
      → let s' = (Topics.publish E p s).1 in
        (V.unread r s'.hub ≡ Message.publish p ∷ [])
        × ((E.bus.recv r s'.hub).0 ≡ message (Message.publish p))
  published-read L p s r t v d empty none_missed named =
      let s' = (Topics.publish E p s).1 in
      let cap = V.capacity (V.sender_of r) in
      let room : 1024 ≤ cap = rw d.attached (v.roomy t d.channel d.found) in
      let d' : Reads E V r (E.topic_name p) s = rw named d in
      let queue : V.unread r s'.hub ≡ Message.publish p ∷ [] =
        publish-delivers E V L p s r d'
        ∙ ap (λ ms. last cap (ms ++ Message.publish p ∷ [])) empty
        ∙ last-all cap (Message.publish p ∷ []) (omega (arith, room)) in
      let missed : V.missed r s'.hub ≡ 0 =
        publish-missed E V L p s r d' ∙ omega (arith, none_missed, room, ap length empty) in
      let live = (publish-Reads E V L p s r t v d).live in
      (queue, (L.recv_message r s'.hub (Message.publish p) [] live missed queue).0)

module _ (E : Env) (sent : E.Stream → List ℕ) (K : Crates E) (b : Bench E)
    (W : Works E sent K b) where
  abbrev packet : E.PublishPacket
  packet = K.publish_new "test" (K.bytes_from "test")

  -- The loop over no further event.
  continue-end : (x : Result (Unit {0}) × World E) → (continue x.0 (λ u v. (ok tt, v)) x.1).1 ≡ x.1
  continue-end (ok u, w) = refl
  continue-end (err e, w) = refl
  continue-end (panic, w) = refl

  handled-publish :
      (topics : Shared E)
      → (handled E sent K b topics (connect_packet E K ∷ test_packet E K ∷ [])).shared
        ≡ (Topics.publish E packet topics).1
  unfolding handle_raw_tcp_stream
  handled-publish topics =
      let w = w_connect E sent K b W topics in
      let bytes = E.encode_mqtt (test_packet E K) in
      ap (λ x. x.shared) (handled-connect E sent K b W topics (test_packet E K ∷ []))
      ∙ ap (λ x. x.shared) (continue-end (iterate E b.addr (read bytes) w))
      ∙ ap (λ x. x.shared) (iterate-read E b.addr bytes packet w W.short W.reads_publish)
      ∙ (handle_publish_packet-Holds E packet w).0

  -- The repository's test of PUBLISH passes for any codec that reads its packets back, crates whose
  -- constructors keep what they are given, any channels that keep the promises of their
  -- documentation, a stream that stays connected and is empty at first, and a timeout of at most
  -- 65533 seconds: the CONNECT is answered, and a receiver that had subscribed to the packet's
  -- topic before has exactly one message, with the payload of the packet.
  pub test_handle_publish_packet-passes :
      (V : View E.bus) (L : IsBroadcast E.bus V) → test_handle_publish_packet E sent K V b ≡ true
  unfolding test_handle_publish_packet Topics.subscribe Topics.add Topics.put get insert is_test
  test_handle_publish_packet-passes V L =
      let start = default_topics E b.hub in
      let topics = (Topics.subscribe E "test" start).1 in
      let r = (made E sent K b W).1 in
      let named = W.crates.publishes_topic "test" (K.bytes_from "test") in
      let (d, (_, _, _, empty, missed)) =
        subscribe-Subscribed E V L "test" start (default_topics-IsValid E V b.hub) in
      let valid = subscribe-IsValid E V L "test" start (default_topics-IsValid E V b.hub) in
      let (queue, front) = published-read E V L packet topics r "test" valid d empty missed named in
      rw
        (
          is_connected-true E sent K b W topics,
          handled-publish topics,
          queue,
          front,
          W.crates.publishes_payload "test" (K.bytes_from "test"),
          W.crates.bytes_text,
          is_test,
          test_handle_publish_packet,
        )
        refl
