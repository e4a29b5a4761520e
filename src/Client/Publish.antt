-- ===== src/Client/Publish.antt =====
-- `handle_publish_packet` and `handle_publishack_packet` of src/tcp_handling.rs.
pub mod Puback
pub mod Answered
use mcloudtt.Prelude.{
  ℕ, String, Option, none, some, Bool, true, false, not, List, [], if◌then◌else◌, retain, eq_option,
}
use mcloudtt.Error.{Action, ok, err, panic, pure, unwrap, modify, ◌>>=◌, ◌>>◌}
use mcloudtt.Mqtt.{
  Packet, QoS, at_most_once, at_least_once, exactly_once, PublishAckPacket, PublishAckReason,
}
use mcloudtt.Mqtt.PublishAckReason.{success, unspecified_error}
use mcloudtt.Mqtt.Packet.{publish_ack}
use mcloudtt.Env.{Env}
use mcloudtt.Topics
use mcloudtt.Bigquery.{log_in_bq}
use mcloudtt.Client.State.{World, OutgoingMessage, in_topics, in_bq, write_to_stream, set_outgoing}

module _ (E : Env) where
  -- `match self.topics.lock().await.publish(…)`: the reason code by how it ended.
  unfoldable pub reason_of : Action (World E) (Unit {0}) → Action (World E) PublishAckReason
  reason_of m w =
      let (r, w') = m w in
      elim r [ ok _ ↦ (ok success, w') | err _ ↦ (ok unspecified_error, w') | panic ↦ (panic, w') ]

  -- `self.redis_sender.send(…).await.expect(…)`
  unfoldable pub queued : Option E.Queue → Action (World E) (Unit {0})
  queued none w = (panic, w)
  queued (some q) w = (ok tt, record w { queue = q })

  -- In a build with the feature `redis`.
  unfoldable pub send_to_redis : E.PublishPacket → Action (World E) (Unit {0})
  unfolding queued
  send_to_redis packet =
      if E.features.redis then (λ w. queued (E.queue_send packet w.queue) w) else pure tt

  abbrev pub puback : ℕ → PublishAckReason → Packet E.PublishPacket E.FinalWill
  puback id reason =
      publish_ack (record {
        packet_id = id;
        reason_code = reason;
        reason_string = none;
        user_properties = [];
      })

  -- The PUBACK, at QoS 1 only.
  unfoldable pub acknowledge :
      QoS → E.PublishPacket → PublishAckReason → Action (World E) (Unit {0})
  acknowledge at_most_once packet reason = pure tt
  acknowledge at_least_once packet reason = do
    id ← unwrap (E.packet_id packet)
    write_to_stream E (puback id reason)
  acknowledge exactly_once packet reason = pure tt

  -- In a build with the feature `bq_logging`.
  unfoldable pub log_publish : E.PublishPacket → Action (World E) (Unit {0})
  log_publish packet =
      if E.features.bq_logging
      then (do
        message ← unwrap (E.from_utf8 (E.payload packet))
        in_bq E (log_in_bq E (E.topic_name packet) message))
      else pure tt

  unfoldable pub handle_publish_packet : E.PublishPacket → Action (World E) (Unit {0})
  unfolding reason_of send_to_redis acknowledge log_publish
  handle_publish_packet packet = do
    reason_code ← reason_of (in_topics E (Topics.publish E packet))
    send_to_redis packet
    acknowledge (E.qos packet) packet reason_code
    log_publish packet

  -- `p.packet.packet_id != Some(packet.packet_id)`
  unfoldable pub is_other : ℕ → OutgoingMessage E → Bool
  is_other id m = not (eq_option (E.packet_id m.packet) (some id))

  unfoldable pub handle_publishack_packet : PublishAckPacket → Action (World E) (Unit {0})
  unfolding is_other
  handle_publishack_packet packet =
      modify (λ w. set_outgoing E (retain (is_other packet.packet_id) w.client.outgoing_messages) w)
