-- ===== src/Client/Kept/Publish.antt =====
-- What is kept by the handler of a PUBLISH (src/tcp_handling.rs).
use mcloudtt.Prelude.{String, Option, none, some, refl}
use mcloudtt.Bigquery.{log_in_bq}
use mcloudtt.Error.{
  Preserves, >>=-Preserves, >>-Preserves, pure, unwrap-Preserves, unwrap, ◌>>◌, ◌>>=◌, if-Preserves,
  pure-Preserves,
}
use mcloudtt.Mqtt.{QoS, at_most_once, at_least_once, exactly_once, PublishAckReason}
use mcloudtt.Env.{Env}
use mcloudtt.Client.State.{World, in_bq, write_to_stream}
use mcloudtt.Client.Publish.{puback, queued, send_to_redis, acknowledge, log_publish}
use mcloudtt.Client.Kept.{IsQuiet, write_to_stream-Kept}

module _ (E : Env) (I : World E → Type 0) (C : IsQuiet E I) where
  queued-Kept : (q : Option E.Queue) → Preserves I (queued E q)
  unfolding queued
  queued-Kept none w i = i
  queued-Kept (some q) w i = C w _ refl refl i

  send_to_redis-Kept : (p : E.PublishPacket) → Preserves I (send_to_redis E p)
  unfolding send_to_redis
  send_to_redis-Kept p =
      if-Preserves I E.features.redis (λ w. queued E (E.queue_send p w.queue) w) (pure tt)
        (λ w i. queued-Kept (E.queue_send p w.queue) w i) (pure-Preserves I tt)

  acknowledge-Kept :
      (q : QoS) (p : E.PublishPacket) (c : PublishAckReason) → Preserves I (acknowledge E q p c)
  unfolding acknowledge
  acknowledge-Kept at_most_once p c = pure-Preserves I tt
  acknowledge-Kept at_least_once p c =
      >>=-Preserves I (unwrap (E.packet_id p)) (λ id. write_to_stream E (puback E id c))
        (unwrap-Preserves I (E.packet_id p)) (λ id. write_to_stream-Kept E I C (puback E id c))
  acknowledge-Kept exactly_once p c = pure-Preserves I tt

  log_publish-Kept : (p : E.PublishPacket) → Preserves I (log_publish E p)
  unfolding log_publish
  log_publish-Kept p =
      let log = λ (m : String). in_bq E (log_in_bq E (E.topic_name p) m) in
      let text = unwrap (E.from_utf8 (E.payload p)) in
      if-Preserves I E.features.bq_logging (text >>= log) (pure tt)
        (>>=-Preserves I text log (unwrap-Preserves I (E.from_utf8 (E.payload p)))
          (λ m w i. C w _ refl refl i))
        (pure-Preserves I tt)

  -- What comes after the topics.
  pub answered-Kept :
      (p : E.PublishPacket) (c : PublishAckReason)
      → Preserves I (send_to_redis E p >> (acknowledge E (E.qos p) p c >> log_publish E p))
  answered-Kept p c =
      let ack = acknowledge E (E.qos p) p c in
      let log = log_publish E p in
      >>-Preserves I (send_to_redis E p) (ack >> log) (send_to_redis-Kept p)
        (>>-Preserves I ack log (acknowledge-Kept (E.qos p) p c) (log_publish-Kept p))
