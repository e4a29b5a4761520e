-- ===== src/Env.antt =====
-- What the broker uses and does not implement: the packets, the channels, the byte stream of a
-- connection, the queue to Redis, BigQuery; and the settings and features that it is built with.
use mcloudtt.Prelude.{ℕ, String, Option, none, Bool, List, ◌++◌, ◌≡◌}
use mcloudtt.Mqtt.{Mqtt}
use mcloudtt.Broadcast.{Broadcast}
use mcloudtt.Config.{Configuration}

-- `topics::Message`
pub data Message (Publish : Type 0) : Type 0 where
  publish : Publish → Message Publish

-- The `MCStream` of a client. `none` is `Ok(())`, `some` the text of an `io::Error`.
pub record Io : Type 1 where
  pub Stream : Type 0
  pub write_all : List ℕ → Stream → Option String × Stream
  pub shutdown : Stream → Option String × Stream

-- What a successful `write_all` promises: all its bytes follow what was sent before.
pub record IsStream (I : Io) (sent : I.Stream → List ℕ) : Type 0 where
  pub write_all_sends :
      (b : List ℕ) (s : I.Stream)
      → (I.write_all b s).0 ≡ none
      → sent (I.write_all b s).1 ≡ sent s ++ b

-- A stream on which no write fails, which is one that stays connected.
pub record IsConnected (I : Io) : Type 0 where
  pub write_all_succeeds : (b : List ℕ) (s : I.Stream) → (I.write_all b s).0 ≡ none

-- `str::from_utf8`; the mpsc queue to the Redis client (`none`: its receiver is gone); the BigQuery
-- client (`none`: the key file cannot be used) and its insertion (`some`: the text of an error).
pub record Services (Publish : Type 0) : Type 1 where
  pub from_utf8 : List ℕ → Option String
  pub Queue : Type 0
  pub queue_send : Publish → Queue → Option Queue
  pub Bq : Type 0
  pub BqClient : Type 0
  pub now : Bq → String
  pub from_service_account_key_file : String → Bq → Option BqClient
  pub insert_all :
      BqClient → String → String → String → String × String × String → Bq → Option String × Bq

-- The Cargo features that change what the modelled code does.
pub record Features : Type 0 where
  pub redis : Bool
  pub bq_logging : Bool
  pub secure : Bool
  pub docker : Bool
  -- arithmetic overflow panics, as in a debug build
  pub overflow_checks : Bool

pub record Env : Type 1 where
  pub mqtt : Mqtt
  pub open mqtt use *
  pub bus : Broadcast (Message mqtt.PublishPacket)
  pub open bus use {Hub, Sender, Receiver}
  pub io : Io
  pub open io use *
  pub services : Services mqtt.PublishPacket
  pub open services use *
  pub settings : Configuration
  pub features : Features
