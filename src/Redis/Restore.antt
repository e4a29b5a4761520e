-- ===== src/Redis/Restore.antt =====
-- What a broker finds in Redis when it starts (src/redis_client.rs).
use Prim.Native.String.{◌++◌}
use mcloudtt.Prelude.{String, none, some, ◌≡◌, refl, ap, ◌∙◌, arith, true}
use mcloudtt.Error.{ok, panic}
use mcloudtt.BTreeMap.{get, insert}
use mcloudtt.BTreeMap.Laws.{get-insert_self}
use mcloudtt.Mqtt.{BuildsGiven}
use mcloudtt.Env.{Env}
use mcloudtt.Topics.{Shared, Channel, new, add, get_retained_message}
use mcloudtt.Topics.Runs.{add_missing, add_existing}
use mcloudtt.Redis.{
  Crates, IsJson, IsStore, Synced, RedisMessage, redis_message, publish, retain_packet,
  restore_topic, restore, restore_text, restore_key,
}

module _ (E : Env) (C : Crates) where
  restore_topic_missing :
      (t : String) (q : E.PublishPacket) (s : Shared E)
      → get t s.topics ≡ none
      → let (sender, receiver, h) = E.bus.channel 1024 s.hub in
        restore_topic E C t q s ≡ (
          ok tt,
          record {
            topics =
                insert t
                  (record (new E sender) { retained_message = some q })
                  (insert t (new E sender) s.topics);
            hub = E.bus.drop_receiver receiver h;
          },
        )
  unfolding restore_topic retain_packet
  restore_topic_missing t q s missing = ground (
    arith,
    add_missing E t s missing,
    get-insert_self t (new E (E.bus.channel 1024 s.hub).0) s.topics,
  )

  get_retained-insert :
      (t : String) (c : Channel E) (s : Shared E)
      → get_retained_message E t (record s { topics = insert t c s.topics }) ≡ c.retained_message
  unfolding get_retained_message
  get_retained-insert t c s = rw (get-insert_self t c s.topics, get_retained_message) refl

  -- The message gets into the topics, if its topic is not there yet.
  restore_missing :
      (m : RedisMessage) (q : E.PublishPacket) (w : Synced E C)
      → E.build m.topic m.payload none ≡ some q
      → get m.topic w.shared.topics ≡ none
      → ((restore E C m w).0 ≡ ok tt)
        × (get_retained_message E m.topic (restore E C m w).1.shared ≡ some q)
  unfolding restore
  restore_missing m q w built missing =
      rw (built, restore_topic_missing m.topic q w.shared missing)
        (refl, get_retained-insert m.topic _ _)

  -- Restoring a message, whose packet can be built, to a topic that exists ends in a panic.
  pub restore_existing :
      (m : RedisMessage) (q : E.PublishPacket) (c : Channel E) (w : Synced E C)
      → E.build m.topic m.payload none ≡ some q
      → get m.topic w.shared.topics ≡ some c
      → (restore E C m w).0 ≡ panic
  unfolding restore restore_topic add get
  restore_existing m q c w built found = rw (built, add_existing E m.topic w.shared c found) refl

  publish-set :
      (S : IsStore C) (sender_id text : String) (p : E.PublishPacket) (w : Synced E C)
      → E.retain p ≡ true
      → C.to_text (redis_message E C sender_id p) ≡ some text
      → (C.get ("retain:" ++ E.topic_name p) (publish E C sender_id p w).1.server).0 ≡ some text
  unfolding publish
  publish-set S sender_id text p w kept e =
      rw (e, kept)
        (S.get-set ("retain:" ++ E.topic_name p) text (C.publish_to "sync" text w.server))

  -- A broker has published a retained packet to Redis, and another with the same server finds the
  -- key of its topic while it has no such topic: it gets a retained message for the topic, with the
  -- packet's topic and payload, and ends without an error. The codec reads back what it writes, the
  -- store returns what was set, and the builder keeps the fields it is given.
  pub restore_key-publish :
      (K : IsJson C) (S : IsStore C) (B : BuildsGiven E.mqtt) (sender_id text : String)
      (p q : E.PublishPacket) (w w' : Synced E C)
      → E.retain p ≡ true
      → C.to_text (redis_message E C sender_id p) ≡ some text
      → w'.server ≡ (publish E C sender_id p w).1.server
      → get (E.topic_name p) w'.shared.topics ≡ none
      → E.build (E.topic_name p) (E.payload p) none ≡ some q
      → let x = restore_key E C ("retain:" ++ E.topic_name p) w' in
        (x.0 ≡ ok tt)
        × (get_retained_message E (E.topic_name p) x.1.shared ≡ some q)
        × (E.topic_name q ≡ E.topic_name p)
        × (E.payload q ≡ E.payload p)
  unfolding restore_key restore_text
  restore_key-publish K S B sender_id text p q w w' kept e same missing built =
      let stored : (C.get ("retain:" ++ E.topic_name p) w'.server).0 ≡ some text =
        ap (λ s. (C.get ("retain:" ++ E.topic_name p) s).0) same
        ∙ publish-set S sender_id text p w kept e in
      let m = redis_message E C sender_id p in
      let s = (C.get ("retain:" ++ E.topic_name p) w'.server).1 in
      let (done, there) = restore_missing m q (record w' { server = s }) built missing in
      rw (stored, restore_text, K.from_text_option-to_text m text e)
        (
          done,
          there,
          B.built_topic (E.topic_name p) (E.payload p) none q built,
          B.built_payload (E.topic_name p) (E.payload p) none q built,
        )
