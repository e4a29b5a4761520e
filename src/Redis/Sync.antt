-- ===== src/Redis/Sync.antt =====
-- The messages between brokers (src/redis_client.rs), and the topics of the one that listens.
use mcloudtt.Prelude.{
  String, some, ◌≡◌, ◌≢◌, refl, arith, eq_refl, eq_iff, false, inl, inr, ◌==◌, if◌then◌else◌, List,
  [], ◌∷◌, Option-cases,
}
use mcloudtt.Error.{
  ok, ◌>>=◌, unwrap, pure, Preserves, >>=-Preserves, unwrap-Preserves, if-Preserves,
}
use mcloudtt.Mqtt.{BuildsGiven}
use mcloudtt.Broadcast.{View, IsBroadcast}
use mcloudtt.Env.{Env}
use mcloudtt.Topics
use mcloudtt.Topics.{Shared}
use mcloudtt.Topics.Retained.{publish-ok}
use mcloudtt.Topics.Invariant.{IsValid, publish-IsValid}
use mcloudtt.Redis.{
  Crates, IsJson, Synced, on_topics, redis_message, logged, handle_message, publish, RedisMessage,
  SyncEvent, from_broker, from_redis, listen, listen_once,
}

module _ (E : Env) (C : Crates) where
  logged-publish :
      (q : E.PublishPacket) (w : Synced E C)
      → logged E C (on_topics E C (Topics.publish E q)) w
        ≡ (ok tt, record w { shared = (Topics.publish E q w.shared).1 })
  unfolding logged
  logged-publish q w = rw (publish-ok E q w.shared, logged) refl

module _ (E : Env) (C : Crates) (K : IsJson C) where
  -- The text of a message that this broker has written itself, when it comes back, changes nothing:
  -- no packet is published twice.
  pub handle_message_own :
      (sender_id text : String) (p : E.PublishPacket) (w : Synced E C)
      → C.to_text (redis_message E C sender_id p) ≡ some text
      → handle_message E C sender_id text w ≡ (ok tt, w)
  unfolding handle_message
  handle_message_own sender_id text p w e =
      rw (K.from_text-to_text _ text e, eq_refl sender_id) refl

  -- Two brokers with different identifiers, a codec that reads back what it writes, and a builder
  -- that makes the packet with the fields it is given: when one has written a packet as a message,
  -- the other handles the text without an error and comes to the same topics as if it had published
  -- a packet with the same topic, payload and retain flag itself.
  pub handle_message_other :
      (B : BuildsGiven E.mqtt) (sender_id other text : String) (p q : E.PublishPacket)
      (w : Synced E C)
      → sender_id ≢ other
      → C.to_text (redis_message E C sender_id p) ≡ some text
      → E.build (E.topic_name p) (E.payload p) (some (E.retain p)) ≡ some q
      → (handle_message E C other text w
          ≡ (ok tt, record w { shared = (Topics.publish E q w.shared).1 }))
        × (E.topic_name q ≡ E.topic_name p)
        × (E.payload q ≡ E.payload p)
        × (E.retain q ≡ E.retain p)
  unfolding handle_message
  handle_message_other B sender_id other text p q w ne e built =
      let different : (sender_id == other) ≡ false = ground (arith, eq_iff sender_id other) in
      (
        rw (K.from_text-to_text _ text e, different, built, logged-publish E C q w) refl,
        B.built_topic (E.topic_name p) (E.payload p) (some (E.retain p)) q built,
        B.built_payload (E.topic_name p) (E.payload p) (some (E.retain p)) q built,
        B.built_retain (E.topic_name p) (E.payload p) (E.retain p) q built,
      )

module _ (E : Env) (C : Crates) (I : Shared E → Type 0)
    (h : (q : E.PublishPacket) (s : Shared E) → I s → I (Topics.publish E q s).1) where
  -- What each publication keeps.
  abbrev Kept : Synced E C → Type 0
  Kept w = I w.shared

  publish-Kept :
      (sender_id : String) (p : E.PublishPacket) → Preserves Kept (publish E C sender_id p)
  unfolding publish
  publish-Kept sender_id p w i = elim (Option-cases (C.to_text (redis_message E C sender_id p))) [
    | inl e ↦ rw e i
    | inr (text, e) ↦ rw e (if-Preserves Kept (E.retain p) _ (pure tt) (λ x j. j) (λ x j. j) _ i)
  ]

  logged-Kept :
      (q : E.PublishPacket) → Preserves Kept (logged E C (on_topics E C (Topics.publish E q)))
  logged-Kept q w i = rw (logged-publish E C q w) (h q w.shared i)

  handle_message-Kept :
      (sender_id text : String) → Preserves Kept (handle_message E C sender_id text)
  unfolding handle_message
  handle_message-Kept sender_id text =
      let go = λ (m : RedisMessage). unwrap (E.build m.topic m.payload (some m.retain)) >>= λ q.
      logged E C (on_topics E C (Topics.publish E q)) in
      >>=-Preserves Kept (unwrap (C.from_text text))
        (λ m. if m.sender_id == sender_id then pure tt else go m)
        (unwrap-Preserves Kept (C.from_text text))
        (λ m.
          if-Preserves Kept (m.sender_id == sender_id) (pure tt) (go m) (λ x j. j)
            (>>=-Preserves Kept (unwrap (E.build m.topic m.payload (some m.retain)))
              (λ q. logged E C (on_topics E C (Topics.publish E q)))
              (unwrap-Preserves Kept (E.build m.topic m.payload (some m.retain))) logged-Kept))

  -- A turn of the Redis client does nothing to the topics but publish.
  pub listen_once-Preserves :
      (sender_id : String) (e : SyncEvent E.PublishPacket)
      → Preserves Kept (listen_once E C sender_id e)
  unfolding listen_once
  listen_once-Preserves sender_id (from_broker p) = publish-Kept sender_id p
  listen_once-Preserves sender_id (from_redis t) = handle_message-Kept sender_id t

module _ (E : Env) (C : Crates) (V : View E.bus) (L : IsBroadcast E.bus V) where
  -- Whatever packets and texts come in, the loop of the Redis client keeps the topics valid.
  pub listen-IsValid :
      (sender_id : String) (es : List (SyncEvent E.PublishPacket)) (w : Synced E C)
      → IsValid E V w.shared
      → IsValid E V (listen E C sender_id es w).1.shared
  unfolding listen
  listen-IsValid sender_id [] w i = i
  listen-IsValid sender_id (e ∷ es) w i =
      >>=-Preserves (λ (x : Synced E C). IsValid E V x.shared) (listen_once E C sender_id e)
        (λ _. listen E C sender_id es)
        (listen_once-Preserves E C (IsValid E V) (publish-IsValid E V L) sender_id e)
        (λ _. listen-IsValid sender_id es) w i
