-- ===== src/Client/Publish/Puback.antt =====
-- How a PUBLISH is answered (`handle_publish_packet` in src/tcp_handling.rs).
use mcloudtt.Prelude.{
  ℕ, String, Option, none, some, ◌≡◌, refl, ap, sym, ◌∙◌, List, [], ◌++◌, append-nil, Bool, true,
  false, arith, if◌then◌else◌,
}
use mathlib.Core.Path.{subst}
use mcloudtt.Error.{
  ok, panic, >>=-eq-ok, unwrap, ◌>>=◌, ◌>>◌, Action, pure, Preserves, if-Preserves, >>=-Preserves,
  unwrap-Preserves, pure-Preserves,
}
use mcloudtt.Mqtt.{QoS, at_most_once, at_least_once, exactly_once, PublishAckReason}
use mcloudtt.Mqtt.PublishAckReason.{success}
use mcloudtt.Env.{Env, IsStream}
use mcloudtt.Topics
use mcloudtt.Topics.Retained.{publish-ok}
use mcloudtt.Bigquery.{log_in_bq}
use mcloudtt.Client.State.{World, in_topics, in_bq}
use mcloudtt.Client.Written.{write_to_stream-ok}
use mcloudtt.Client.Publish.{
  reason_of, queued, send_to_redis, puback, acknowledge, log_publish, handle_publish_packet,
}

module _ (E : Env) where
  -- The world after the topics have got the packet.
  abbrev pub after_topics : E.PublishPacket → World E → World E
  after_topics p w = record w { shared = (Topics.publish E p w.shared).1 }

  -- The reason is always `Success`: the topics never refuse a packet.
  pub reason_of-publish :
      (p : E.PublishPacket) (w : World E)
      → reason_of E (in_topics E (Topics.publish E p)) w ≡ (ok success, after_topics p w)
  unfolding reason_of
  reason_of-publish p w = rw (publish-ok E p w.shared, reason_of)

  -- The specification: the bytes of the answer, by quality of service and packet id.
  pub answer_bytes : QoS → Option ℕ → List ℕ
  answer_bytes at_least_once (some id) = E.encode_mqtt (puback E id success)
  answer_bytes at_least_once none = []
  answer_bytes at_most_once o = []
  answer_bytes exactly_once o = []

  -- The queue to Redis, with the packet in it if the feature is on.
  pub Queued : Bool → E.PublishPacket → E.Queue → E.Queue → Type 0
  Queued true p q q' = E.queue_send p q ≡ some q'
  Queued false p q q' = q' ≡ q

  queued-ok :
      (o : Option E.Queue) (w w' : World E)
      → queued E o w ≡ (ok tt, w')
      → (o ≡ some w'.queue) × (w'.stream ≡ w.stream) × (w'.shared ≡ w.shared)
  unfolding queued
  queued-ok none w w' e = ground (arith, ap (λ x. x.0) e)
  queued-ok (some q) w w' e = rw (← ap (λ x. x.1) e) (refl, refl, refl)

  send_to_redis-ok :
      (b : Bool) (p : E.PublishPacket) (w w' : World E)
      → (if b then (λ x. queued E (E.queue_send p x.queue) x) else pure tt) w ≡ (ok tt, w')
      → Queued b p w.queue w'.queue × (w'.stream ≡ w.stream) × (w'.shared ≡ w.shared)
  unfolding Queued
  send_to_redis-ok true p w w' e = queued-ok (E.queue_send p w.queue) w w' e
  send_to_redis-ok false p w w' e = rw (← ap (λ x. x.1) e) (refl, refl, refl)

  -- The log touches only BigQuery.
  abbrev Same : World E → World E → Type 0
  Same w w' = (w'.stream ≡ w.stream) × (w'.shared ≡ w.shared) × (w'.queue ≡ w.queue)

  log_publish-Same : (p : E.PublishPacket) (w : World E) → Preserves (Same w) (log_publish E p)
  unfolding log_publish
  log_publish-Same p w =
      let log = λ (m : String). in_bq E (log_in_bq E (E.topic_name p) m) in
      let text = unwrap (E.from_utf8 (E.payload p)) in
      if-Preserves (Same w) E.features.bq_logging (text >>= log) (pure tt)
        (>>=-Preserves (Same w) text log (unwrap-Preserves (Same w) (E.from_utf8 (E.payload p)))
          (λ m x i. i))
        (pure-Preserves (Same w) tt)

module _ (E : Env) (sent : E.Stream → List ℕ) (S : IsStream E.io sent) where
  acknowledge-ok :
      (q : QoS) (o : Option ℕ) (p : E.PublishPacket) (w w' : World E)
      → E.packet_id p ≡ o
      → acknowledge E q p success w ≡ (ok tt, w')
      → (sent w'.stream ≡ sent w.stream ++ answer_bytes E q o)
        × (w'.shared ≡ w.shared)
        × (w'.queue ≡ w.queue)
  unfolding acknowledge answer_bytes
  acknowledge-ok at_most_once o p w w' h e =
      rw (← ap (λ x. x.1) e) (sym (append-nil (sent w.stream)), refl, refl)
  acknowledge-ok at_least_once none p w w' h e = ground arith
  acknowledge-ok at_least_once (some id) p w w' h e =
      let both = write_to_stream-ok E sent S (puback E id success) w w' (rw h at e) in
      (both.0, ap (λ x. x.shared) both.1, ap (λ x. x.queue) both.1)
  acknowledge-ok exactly_once o p w w' h e =
      rw (← ap (λ x. x.1) e) (sym (append-nil (sent w.stream)), refl, refl)

  -- A PUBLISH that is handled to the end: the topics have got the packet, the queue to Redis has it
  -- if that feature is on, and the client has got a PUBACK with the packet's id and `Success` at
  -- QoS 1 and nothing at QoS 0 or 2.
  pub handle_publish_packet-sends :
      (p : E.PublishPacket) (w w' : World E)
      → handle_publish_packet E p w ≡ (ok tt, w')
      → (sent w'.stream ≡ sent w.stream ++ answer_bytes E (E.qos p) (E.packet_id p))
        × (w'.shared ≡ (Topics.publish E p w.shared).1)
        × Queued E E.features.redis p w.queue w'.queue
  unfolding handle_publish_packet send_to_redis
  handle_publish_packet-sends p w w' e =
      let w₀ = after_topics E p w in
      let ack = acknowledge E (E.qos p) p success in
      let log = log_publish E p in
      let e₀ : (send_to_redis E p >> (ack >> log)) w₀ ≡ (ok tt, w') =
        rw (reason_of-publish E p w) at e in
      let (_, w₁, e₁, e₂) = >>=-eq-ok (send_to_redis E p) (λ _. ack >> log) w₀ tt w' e₀ in
      let (_, w₂, e₃, e₄) = >>=-eq-ok ack (λ _. log) w₁ tt w' e₂ in
      let (queued, stream₁, shared₁) = send_to_redis-ok E E.features.redis p w₀ w₁ e₁ in
      let (bytes, shared₂, queue₂) = acknowledge-ok (E.qos p) (E.packet_id p) p w₁ w₂ refl e₃ in
      let (stream₃, shared₃, queue₃) =
        subst (λ x. Same E w₂ x.1) e₄ (log_publish-Same E p w₂ w₂ (refl, refl, refl)) in
      (
        ap sent stream₃
            ∙ bytes
            ∙ ap (λ x. sent x ++ answer_bytes E (E.qos p) (E.packet_id p)) stream₁,
        shared₃ ∙ shared₂ ∙ shared₁,
        rw (queue₃ ∙ queue₂) queued,
      )

module _ (E : Env) where
  acknowledge_missing_id :
      (q : QoS) (p : E.PublishPacket) (c : PublishAckReason) (w : World E)
      → q ≡ at_least_once
      → E.packet_id p ≡ none
      → acknowledge E q p c w ≡ (panic, w)
  unfolding acknowledge
  acknowledge_missing_id at_most_once p c w q n = cc
  acknowledge_missing_id at_least_once p c w q n = ground arith
  acknowledge_missing_id exactly_once p c w q n = cc

  -- What follows the queue to Redis panics, so the whole does.
  queued_panics :
      (o : Option E.Queue) (rest : Action (World E) (Unit {0})) (w : World E)
      → ((x : World E) → rest x ≡ (panic, x))
      → (((queued E o >> rest) w).0 ≡ panic) × (((queued E o >> rest) w).1.shared ≡ w.shared)
  unfolding queued
  queued_panics none rest w h = (refl, refl)
  queued_panics (some q) rest w h = rw h (refl, refl)

  redis_panics :
      (b : Bool) (p : E.PublishPacket) (rest : Action (World E) (Unit {0})) (w : World E)
      → ((x : World E) → rest x ≡ (panic, x))
      → let r = ((if b then (λ x. queued E (E.queue_send p x.queue) x) else pure tt) >> rest) w in
        (r.0 ≡ panic) × (r.1.shared ≡ w.shared)
  redis_panics true p rest w h = queued_panics (E.queue_send p w.queue) rest w h
  redis_panics false p rest w h = rw h (refl, refl)

  -- A PUBLISH at QoS 1 without a packet id, such as one made from a will, ends in a panic, and the
  -- topics have got the packet by then.
  pub handle_publish_packet-missing_id :
      (p : E.PublishPacket) (w : World E)
      → E.qos p ≡ at_least_once
      → E.packet_id p ≡ none
      → ((handle_publish_packet E p w).0 ≡ panic)
        × ((handle_publish_packet E p w).1.shared ≡ (Topics.publish E p w.shared).1)
  unfolding handle_publish_packet send_to_redis
  handle_publish_packet-missing_id p w q n = rw (reason_of-publish E p w) (
      redis_panics E.features.redis p (acknowledge E (E.qos p) p success >> log_publish E p)
        (after_topics E p w) (λ x. rw (acknowledge_missing_id (E.qos p) p success x q n)))
