-- ===== src/Redis.antt =====
-- src/redis_client.rs: what is published goes to the other brokers through a channel of a Redis
-- server, and retained messages are kept there. `RedisClient` is its `sender_id` here; a connection is
-- retried until it is there (Thread), so a command has one. The crates redis and serde_json are an argument.
pub mod Sync
pub mod Restore
pub mod Thread
pub mod HandOver
pub mod Boot
use Prim.Native.String.{◌++◌}
use mcloudtt.Prelude.{ℕ, String, Option, none, some, List, [], ◌∷◌, Bool, ◌≡◌, ◌==◌, if◌then◌else◌}
use mcloudtt.Error.{
  Action, Result, ok, err, panic, pure, gets, modify, unwrap, unwrap_result, ◌>>=◌, ◌>>◌,
}
use mcloudtt.BTreeMap
use mcloudtt.Mqtt.{QoS}
use mcloudtt.Env.{Env}
use mcloudtt.Topics
use mcloudtt.Topics.{Shared, Channel}

pub record RedisMessage : Type 0 where
  pub sender_id : String
  pub topic : String
  pub payload : List ℕ
  pub qos : ℕ
  pub retain : Bool

-- `none` is an error. The results of `PUBLISH` and `SET` are ignored, so they are not here.
pub record Crates : Type 1 where
  pub Server : Type 0
  -- `PUBLISH` to a channel, `SET` and `GET` of a key, `KEYS` of a pattern
  pub publish_to : String → String → Server → Server
  pub set : String → String → Server → Server
  pub get : String → Server → Option String × Server
  pub keys : String → Server → Option (List String) × Server
  -- `serde_json`: `to_value(m)` as a text; `from_str` at `RedisMessage`, and at an `Option` of it
  pub to_text : RedisMessage → Option String
  pub from_text : String → Option RedisMessage
  pub from_text_option : String → Option (Option RedisMessage)
  -- `qos as u8`
  pub qos_code : QoS → ℕ

-- What the crates promise: a message that is written as a text is read back from it.
pub record IsJson (C : Crates) : Type 0 where
  pub from_text-to_text :
      (m : RedisMessage) (t : String) → C.to_text m ≡ some t → C.from_text t ≡ some m
  pub from_text_option-to_text :
      (m : RedisMessage) (t : String) → C.to_text m ≡ some t → C.from_text_option t ≡ some (some m)

-- A key that is set has its value.
pub record IsStore (C : Crates) : Type 0 where
  pub get-set : (k v : String) (s : C.Server) → (C.get k (C.set k v s)).0 ≡ some v

module _ (E : Env) (C : Crates) where
  -- The topics of this broker and the Redis server.
  pub record Synced : Type 0 where
    pub shared : Shared E
    pub server : C.Server

module _ (E : Env) (C : Crates) where
  abbrev pub on_topics : {A : Type 0} → Action (Shared E) A → Action (Synced E C) A
  on_topics m w = let (r, s) = m w.shared in (r, record w { shared = s })

  abbrev pub redis_message : String → E.PublishPacket → RedisMessage
  redis_message sender_id message = record {
    sender_id = sender_id;
    topic = E.topic_name message;
    payload = E.payload message;
    qos = C.qos_code (E.qos message);
    retain = E.retain message;
  }

  -- `RedisClient::publish`
  unfoldable pub publish : String → E.PublishPacket → Action (Synced E C) (Unit {0})
  publish sender_id message = do
    text ← unwrap (C.to_text (redis_message sender_id message))
    modify (λ w. record w { server = C.publish_to "sync" text w.server })
    if E.retain message
        then modify
            (λ w. record w { server = C.set ("retain:" ++ E.topic_name message) text w.server })
        else pure tt

  -- `match self.topics.lock().await.publish(…)`: both ways to return are only logged.
  unfoldable pub logged : Action (Synced E C) (Unit {0}) → Action (Synced E C) (Unit {0})
  logged m w =
      let (r, w') = m w in elim r [ ok _ ↦ (ok tt, w') | err _ ↦ (ok tt, w') | panic ↦ (panic, w') ]

  -- `RedisClient::handle_message`
  unfoldable pub handle_message : String → String → Action (Synced E C) (Unit {0})
  unfolding logged
  handle_message sender_id text = do
    m ← unwrap (C.from_text text)
    if m.sender_id == sender_id then pure tt else (do
      packet ← unwrap (E.build m.topic m.payload (some m.retain))
      logged (on_topics (Topics.publish E packet)))

  -- `topics.0.get_mut(&topic).unwrap().retained_message = Some(packet)`
  unfoldable pub retain_packet : String → E.PublishPacket → Action (Shared E) (Unit {0})
  retain_packet topic packet = do
    channel ← unwrap (← gets (λ s. BTreeMap.get topic s.topics))
    modify (λ s. record s {
      topics = BTreeMap.insert topic (record channel { retained_message = some packet }) s.topics;
    })

  -- `topics.add(topic).unwrap()`, whose receiver is dropped, and the retained message.
  unfoldable pub restore_topic : String → E.PublishPacket → Action (Shared E) (Unit {0})
  unfolding retain_packet
  restore_topic topic packet = do
    receiver ← unwrap_result (Topics.add E topic)
    modify (λ s. record s { hub = E.bus.drop_receiver receiver s.hub })
    retain_packet topic packet

  unfoldable pub restore : RedisMessage → Action (Synced E C) (Unit {0})
  unfolding restore_topic
  restore m = do
    packet ← unwrap (E.build m.topic m.payload none)
    on_topics (restore_topic m.topic packet)

  -- What `GET` returned: an error, a text that cannot be read, and a JSON null are passed over.
  unfoldable pub restore_text : Option String → Action (Synced E C) (Unit {0})
  restore_text none = pure tt
  restore_text (some text) = elim (C.from_text_option text) [
    | some (some m) ↦ restore m
    | some none ↦ pure tt
    | none ↦ pure tt
  ]

  unfoldable pub restore_key : String → Action (Synced E C) (Unit {0})
  unfolding restore_text
  restore_key key w =
      let (text, s) = C.get key w.server in restore_text text (record w { server = s })

  unfoldable pub restore_each : List String → Action (Synced E C) (Unit {0})
  restore_each [] = pure tt
  restore_each (key ∷ keys) = restore_key key >> restore_each keys

  unfoldable pub get_all_retained_messages : Action (Synced E C) (Unit {0})
  get_all_retained_messages w =
      let (keys, s) = C.keys "retain:*" w.server in
      (unwrap keys >>= restore_each) (record w { server = s })

-- A branch of the `select!` in `listen` that is ready.
pub data SyncEvent (Publish : Type 0) : Type 0 where
  from_broker : Publish → SyncEvent Publish
  from_redis : String → SyncEvent Publish

module _ (E : Env) (C : Crates) where
  unfoldable pub listen_once : String → SyncEvent E.PublishPacket → Action (Synced E C) (Unit {0})
  listen_once sender_id (from_broker message) = publish E C sender_id message
  listen_once sender_id (from_redis text) = handle_message E C sender_id text

  -- The loop of `RedisClient::listen`, one event for each iteration.
  unfoldable pub listen : String → List (SyncEvent E.PublishPacket) → Action (Synced E C) (Unit {0})
  listen sender_id [] = pure tt
  listen sender_id (e ∷ es) = listen_once sender_id e >> listen sender_id es
