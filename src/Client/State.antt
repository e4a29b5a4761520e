-- ===== src/Client/State.antt =====
-- The state of a client connection (`Client` in src/tcp_handling.rs) and what it shares with others.
use mcloudtt.Prelude.{ℕ, String, Option, none, some, List, []}
use mcloudtt.Error.{Action, Result, ok, err, could_not_write_to_stream}
use mcloudtt.BTreeMap.{BTreeMap}
use mcloudtt.Mqtt.{Packet}
use mcloudtt.Env.{Env}
use mcloudtt.Topics.{Shared}

module _ (E : Env) where
  pub record OutgoingMessage : Type 0 where
    pub packet : E.PublishPacket
    -- a `MessageExpiryInterval`, in seconds
    pub counter : ℕ

  -- The fields `topics` and `redis_sender` are the `shared` and `queue` of the world below; `sender`
  -- is never used.
  pub record Client : Type 0 where
    pub receivers : BTreeMap E.Receiver
    pub will : Option E.FinalWill
    pub outgoing_messages : List OutgoingMessage
    pub id : String

  -- What a handler of one connection can read and change.
  pub record World : Type 0 where
    pub client : Client
    pub shared : Shared E
    pub queue : E.Queue
    pub bq : E.Bq
    pub stream : E.Stream

module _ (E : Env) where
  -- `Client::new`; the identifier is drawn at random by the caller.
  unfoldable pub new : String → Client E
  new id = record { receivers = []; will = none; outgoing_messages = []; id = id }

  abbrev pub in_topics : {A : Type 0} → Action (Shared E) A → Action (World E) A
  in_topics m w = let (r, s) = m w.shared in (r, record w { shared = s })

  abbrev pub in_bq : {A : Type 0} → Action E.Bq A → Action (World E) A
  in_bq m w = let (r, b) = m w.bq in (r, record w { bq = b })

  abbrev pub set_outgoing : List (OutgoingMessage E) → World E → World E
  set_outgoing ms w = record w { client = record w.client { outgoing_messages = ms } }

  abbrev pub set_receivers : BTreeMap E.Receiver → World E → World E
  set_receivers m w = record w { client = record w.client { receivers = m } }

  -- A receiver that a map gives back is dropped.
  abbrev pub drop_old : Option E.Receiver → World E → World E
  drop_old none w = w
  drop_old (some r) w = record w {
    shared = record w.shared { hub = E.bus.drop_receiver r w.shared.hub };
  }

  unfoldable pub written : Option String → Result (Unit {0})
  written none = ok tt
  written (some e) = err (could_not_write_to_stream e)

  unfoldable pub write_to_stream : Packet E.PublishPacket E.FinalWill → Action (World E) (Unit {0})
  unfolding written
  write_to_stream packet w =
      let (e, s) = E.write_all (E.encode_mqtt packet) w.stream in
      (written e, record w { stream = s })
