-- ===== src/Client/Publish/Answered.antt =====
-- `handle_publish_packet` (src/tcp_handling.rs) on a stream that stays connected.
use mcloudtt.Prelude.{
  ℕ, Option, none, some, true, false, ◌≡◌, ◌≢◌, refl, List, ◌++◌, Bool, if◌then◌else◌,
}
use mcloudtt.Error.{ok, pure}
use mcloudtt.Mqtt.{QoS, at_most_once, at_least_once, exactly_once, PublishAckReason}
use mcloudtt.Mqtt.PublishAckReason.{success}
use mcloudtt.Env.{Env, IsStream, IsConnected}
use mcloudtt.Topics
use mcloudtt.Client.State.{World}
use mcloudtt.Client.Written.{returned, write_to_stream-returns}
use mcloudtt.Client.Publish.{
  queued, send_to_redis, puback, acknowledge, log_publish, handle_publish_packet,
}
use mcloudtt.Client.Publish.Puback.{
  after_topics, reason_of-publish, answer_bytes, Queued, handle_publish_packet-sends,
}

module _ (E : Env) where
  queued-returns : (o : Option E.Queue) (w : World E) → o ≢ none → (queued E o w).0 ≡ ok tt
  unfolding queued
  queued-returns none w h = absurd (h refl)
  queued-returns (some q) w h = refl

  redis-returns :
      (b : Bool) (p : E.PublishPacket) (w : World E)
      → E.queue_send p w.queue ≢ none
      → ((if b then (λ x. queued E (E.queue_send p x.queue) x) else pure tt) w).0 ≡ ok tt
  redis-returns true p w h = queued-returns (E.queue_send p w.queue) w h
  redis-returns false p w h = refl

  acknowledge-returns :
      (q : QoS) (o : Option ℕ) (p : E.PublishPacket) (c : PublishAckReason) (w : World E)
      → IsConnected E.io
      → E.packet_id p ≡ o
      → (q ≡ at_least_once → o ≢ none)
      → (acknowledge E q p c w).0 ≡ ok tt
  unfolding acknowledge
  acknowledge-returns at_most_once o p c w C e h = refl
  acknowledge-returns at_least_once none p c w C e h = absurd (h refl refl)
  acknowledge-returns at_least_once (some id) p c w C e h =
      rw e (write_to_stream-returns E C (puback E id c) w)
  acknowledge-returns exactly_once o p c w C e h = refl

  -- On a stream that stays connected, in a build without BigQuery and with a queue to Redis that
  -- takes the packet, a PUBLISH that has a packet id, or is not at QoS 1, is handled to the end:
  -- the topics have got the packet, the queue to Redis has it if that feature is on, and the client
  -- has got a PUBACK with the packet's id and `Success` at QoS 1 and nothing at QoS 0 or 2.
  pub handle_publish_packet-answers :
      (sent : E.Stream → List ℕ) (S : IsStream E.io sent) (p : E.PublishPacket) (w : World E)
      → IsConnected E.io
      → E.features.bq_logging ≡ false
      → E.queue_send p w.queue ≢ none
      → (E.qos p ≡ at_least_once → E.packet_id p ≢ none)
      → let x = handle_publish_packet E p w in
        (x.0 ≡ ok tt)
        × (sent x.1.stream ≡ sent w.stream ++ answer_bytes E (E.qos p) (E.packet_id p))
        × (x.1.shared ≡ (Topics.publish E p w.shared).1)
        × Queued E E.features.redis p w.queue x.1.queue
  unfolding handle_publish_packet send_to_redis log_publish
  handle_publish_packet-answers sent S p w C quiet room id =
      let w₀ = after_topics E p w in
      let e₁ = returned E (send_to_redis E p) w₀ (redis-returns E.features.redis p w₀ room) in
      let w₁ = (send_to_redis E p w₀).1 in
      let ack = acknowledge E (E.qos p) p success in
      let e₂ =
        returned E ack w₁ (acknowledge-returns (E.qos p) (E.packet_id p) p success w₁ C refl id) in
      let done : (handle_publish_packet E p w).0 ≡ ok tt =
        rw (reason_of-publish E p w, e₁, e₂, quiet) refl in
      let (bytes, shared, queue) =
        handle_publish_packet-sends E sent S p w _
          (returned E (handle_publish_packet E p) w done) in
      (done, bytes, shared, queue)
