-- ===== src/Client/Connection/Published.antt =====
-- An iteration of the loop that reads a PUBLISH (src/tcp_handling.rs).
use mcloudtt.Prelude.{ℕ, ◌<◌, String, some, ◌≡◌, refl, ◌∙◌, List, inr}
use mcloudtt.BTreeMap.{BTreeMap}
use mcloudtt.Mqtt.{Packet}
use mcloudtt.Mqtt.PublishAckReason.{success}
use mcloudtt.Env.{Env}
use mcloudtt.Topics
use mcloudtt.Topics.{Shared}
use mcloudtt.Client.State.{World}
use mcloudtt.Client.Publish.{handle_publish_packet}
use mcloudtt.Client.Publish.Puback.{after_topics, reason_of-publish}
use mcloudtt.Client.Session.{handle_packet, handle_decoded, on_decoded}
use mcloudtt.Client.Connection.{read, buffer, iterate, branch, read_branch}
use mcloudtt.Client.Connection.Timers.{sleep_secs-eq}
use mcloudtt.Client.Kept.Publish.{answered-Kept}

module _ (E : Env) where
  -- The topics and the receivers are these.
  abbrev pub Holds : Shared E → BTreeMap E.Receiver → World E → Type 0
  Holds s m w = (w.shared ≡ s) × (w.client.receivers ≡ m)

  -- However a PUBLISH ends, the topics have got the packet, and no receiver has changed.
  pub handle_publish_packet-Holds :
      (p : E.PublishPacket) (w : World E)
      → Holds (Topics.publish E p w.shared).1 w.client.receivers (handle_publish_packet E p w).1
  unfolding handle_publish_packet
  handle_publish_packet-Holds p w =
      let s = (Topics.publish E p w.shared).1 in
      rw (reason_of-publish E p w) (
        answered-Kept E (Holds s w.client.receivers) (λ x y same kept h. (same ∙ h.0, kept ∙ h.1)) p
          success (after_topics E p w) (refl, refl))

  -- One iteration that reads a PUBLISH.
  pub iterate-read :
      (addr : String) (bytes : List ℕ) (p : E.PublishPacket) (w : World E)
      → E.settings.general.timeout < 65534
      → E.decode_mqtt (buffer bytes) ≡ inr (some (Packet.publish p))
      → (iterate E addr (read bytes) w).1 ≡ (handle_publish_packet E p w).1
  unfolding iterate branch read_branch handle_packet on_decoded handle_decoded
  iterate-read addr bytes p w h e = rw (sleep_secs-eq E h, e) refl
