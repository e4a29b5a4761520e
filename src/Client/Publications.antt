-- ===== src/Client/Publications.antt =====
-- What one turn of the loop of src/tcp_handling.rs publishes: the specification.
use mcloudtt.Prelude.{ℕ, String, Option, none, some, List, [], ◌∷◌, ◌⊎◌, inl, inr}
use mcloudtt.Error.{Result, ok, err, panic}
use mcloudtt.Mqtt.{Packet, DisconnectReason, disconnect_with_will_message, other}
use mcloudtt.Env.{Env}
use mcloudtt.Client.State.{World}
use mcloudtt.Client.Connection.{Event, read, timed_out, buffer, sleep_secs}

module _ (E : Env) where
  -- A stored will.
  unfoldable pub of_will : Option E.FinalWill → List E.PublishPacket
  of_will none = []
  of_will (some will) = E.from_will will ∷ []

  unfoldable pub of_reason : DisconnectReason → Option E.FinalWill → List E.PublishPacket
  of_reason disconnect_with_will_message stored = of_will stored
  of_reason (other n) stored = []

  -- What was decoded is a PUBLISH, or a DISCONNECT that asks for the will.
  unfoldable pub of_packet :
      Option (Packet E.PublishPacket E.FinalWill) → Option E.FinalWill → List E.PublishPacket
  of_packet (some (Packet.publish p)) stored = p ∷ []
  of_packet (some (Packet.disconnect p)) stored = of_reason p.reason_code stored
  of_packet _ stored = []

  unfoldable pub of_decoded :
      String ⊎ Option (Packet E.PublishPacket E.FinalWill)
      → Option E.FinalWill
      → List E.PublishPacket
  of_decoded (inl e) stored = []
  of_decoded (inr p) stored = of_packet p stored

  -- A client publishes what it reads, and its will when the timeout is over.
  unfoldable pub of_event : Event → Option E.FinalWill → List E.PublishPacket
  of_event (read bytes) stored = of_decoded (E.decode_mqtt (buffer bytes)) stored
  of_event timed_out stored = of_will stored
  of_event _ stored = []

  -- A turn whose timers cannot be set up ends before that.
  unfoldable pub of_timers : Result ℕ → Event → Option E.FinalWill → List E.PublishPacket
  of_timers (ok secs) e stored = of_event e stored
  of_timers (err x) e stored = []
  of_timers panic e stored = []

  unfoldable pub of_turn : Event → World E → List E.PublishPacket
  of_turn e w = of_timers (sleep_secs E) e w.client.will
