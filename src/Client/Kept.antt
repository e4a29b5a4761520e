-- ===== src/Client/Kept.antt =====
-- What a connection (src/tcp_handling.rs) keeps: from the few steps that touch the topics and the
-- receivers to every handler and the event loop.
pub mod Handlers
pub mod Publish
pub mod Silent
pub mod Loop
use mcloudtt.Prelude.{String, some, ◌≡◌, refl, List, [], ◌∷◌, ◌++◌}
use mcloudtt.Error.{Preserves}
use mcloudtt.BTreeMap.{get}
use mcloudtt.Mqtt.{Packet, TopicFilter}
use mcloudtt.Env.{Env}
use mcloudtt.Topics
use mcloudtt.Client.State.{World, write_to_stream}
use mcloudtt.Client.Subscribe.{subscribe_concrete, unsubscribe_filter}
use mcloudtt.Client.Connection.{recv}

-- A property that only the topics and the receivers matter to.
abbrev pub IsQuiet : (E : Env) → (World E → Type 0) → Type 0
IsQuiet E I =
    (w w' : World E) → w'.shared ≡ w.shared → w'.client.receivers ≡ w.client.receivers → I w → I w'

-- A property of worlds that the steps on the topics and the receivers keep which publish nothing.
pub record IsSilent (E : Env) (I : World E → Type 0) : Type 0 where
  pub client : IsQuiet E I
  pub subscribes : (f : String) → Preserves I (subscribe_concrete E f)
  pub unsubscribes : (f : TopicFilter) (w : World E) → I w → I (unsubscribe_filter E f w).1
  pub receives :
      (key : String) (r : E.Receiver) (w : World E)
      → get key w.client.receivers ≡ some r
      → I w
      → I (recv E r w).1

-- A property of worlds that every step on the topics and the receivers keeps, and that nothing else
-- matters to.
pub record IsKept (E : Env) (I : World E → Type 0) : Type 0 where
  pub silent : IsSilent E I
  pub publishes :
      (p : E.PublishPacket) (w : World E)
      → I w
      → I (record w { shared = (Topics.publish E p w.shared).1 })

-- A property of worlds and of the packets published so far: each publication adds its packet.
pub record IsTracked (E : Env) (J : List E.PublishPacket → World E → Type 0) : Type 0 where
  pub silent : (ps : List E.PublishPacket) → IsSilent E (J ps)
  pub publishes :
      (p : E.PublishPacket) (ps : List E.PublishPacket) (w : World E)
      → J ps w
      → J (ps ++ p ∷ []) (record w { shared = (Topics.publish E p w.shared).1 })

module _ (E : Env) (I : World E → Type 0) (C : IsQuiet E I) where
  pub write_to_stream-Kept :
      (p : Packet E.PublishPacket E.FinalWill) → Preserves I (write_to_stream E p)
  unfolding write_to_stream
  write_to_stream-Kept p w i = C w _ refl refl i
