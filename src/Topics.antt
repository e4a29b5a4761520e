-- ===== src/Topics.antt =====
-- src/topics.rs: the topics, each with its broadcast channel and its retained message.
pub mod UnitTests
pub mod Runs
pub mod Invariant
pub mod Delivery
pub mod Readers
pub mod History
pub mod Queues
pub mod Interleaving
pub mod Traces
pub mod Retained
use mcloudtt.Prelude.{ℕ, String, Option, none, some, Bool, true, false, [], if◌then◌else◌}
use mcloudtt.Error.{
  Action, ok, err, pure, gets, modify, unwrap, ignore, ◌>>=◌, ◌>>◌, topic_already_exists,
  no_receivers_found,
}
use mcloudtt.BTreeMap
use mcloudtt.BTreeMap.{BTreeMap}
use mcloudtt.Env.{Env, Message, publish as publish_message}

module _ (E : Env) where
  pub record Channel : Type 0 where
    pub sender : E.Sender
    pub retained_message : Option E.PublishPacket

  -- `Topics`, behind its mutex, and the state of the channels. Each call holds the lock.
  pub record Shared : Type 0 where
    pub topics : BTreeMap Channel
    pub hub : E.Hub

module _ (E : Env) where
  -- `Channel::new`
  unfoldable pub new : E.Sender → Channel E
  new sender = record { sender = sender; retained_message = none }

  abbrev topic_entry : String → Action (Shared E) (Option (Channel E))
  topic_entry name = gets (λ s. BTreeMap.get name s.topics)

  -- `self.0.insert(name, c)`; a channel that it replaces is dropped.
  unfoldable pub put : String → Channel E → Option (Channel E) → Shared E → Shared E
  put name c none s = record s { topics = BTreeMap.insert name c s.topics }
  put name c (some old) s = record {
    topics = BTreeMap.insert name c s.topics;
    hub = E.bus.drop_sender old.sender s.hub;
  }

  -- The entry is replaced before it is known whether there was one.
  unfoldable pub add : String → Action (Shared E) E.Receiver
  unfolding new put
  add name s =
      let (sender, receiver, h) = E.bus.channel 1024 s.hub in
      let old = BTreeMap.get name s.topics in
      let s' = put name (new sender) old (record s { hub = h }) in
      elim old [
        | none ↦ (ok receiver, s')
        | some _ ↦ (
          err (topic_already_exists name),
          record s' { hub = E.bus.drop_receiver receiver s'.hub },
        )
      ]

  unfoldable pub subscribe : String → Action (Shared E) E.Receiver
  subscribe name = do
    found ← topic_entry name
    elim found [
      | some channel ↦
          λ s. let (r, h) = E.bus.subscribe channel.sender s.hub in (ok r, record s { hub = h })
      | none ↦ add name
    ]

  unfoldable pub send_message : E.Sender → Message E.PublishPacket → Action (Shared E) (Unit {0})
  send_message sender message s =
      let (sent, h) = E.bus.send sender message s.hub in
      (if sent then ok tt else err no_receivers_found, record s { hub = h })

  -- The channel of the packet's topic, made if it is missing; the receiver that `add` returns is
  -- dropped before the message is sent.
  unfoldable pub send_to_topic : E.PublishPacket → Action (Shared E) (Unit {0})
  unfolding send_message
  send_to_topic packet = do
    let name = E.topic_name packet
    found ← topic_entry name
    elim found [
      | some channel ↦ ignore (send_message channel.sender (publish_message packet))
      | none ↦ do
        receiver ← add name
        modify (λ s. record s { hub = E.bus.drop_receiver receiver s.hub })
        channel ← unwrap (← topic_entry name)
        ignore (send_message channel.sender (publish_message packet))
    ]

  unfoldable pub set_retained : E.PublishPacket → Action (Shared E) (Unit {0})
  set_retained packet = do
    let name = E.topic_name packet
    channel ← unwrap (← topic_entry name)
    modify (λ s. record s {
      topics = BTreeMap.insert name (record channel { retained_message = some packet }) s.topics;
    })

  unfoldable pub publish : E.PublishPacket → Action (Shared E) (Unit {0})
  unfolding send_to_topic set_retained
  publish packet = do send_to_topic packet; if E.retain packet then set_retained packet else pure tt

  unfoldable pub get_retained_message : String → Shared E → Option E.PublishPacket
  get_retained_message name s = elim (BTreeMap.get name s.topics) [
    | some channel ↦ channel.retained_message
    | none ↦ none
  ]
