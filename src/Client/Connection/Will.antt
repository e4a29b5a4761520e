-- ===== src/Client/Connection/Will.antt =====
-- When the will of a client is published (src/tcp_handling.rs).
use mcloudtt.Prelude.{ℕ, ◌<◌, String, Option, none, some, ◌≡◌, ◌≢◌, refl, ap, ◌∙◌, List, inr}
use mcloudtt.Error.{Result, ok, err, panic, continue, fail, client_disconnected}
use mcloudtt.Mqtt.{Packet, DisconnectPacket, DisconnectReason, disconnect_with_will_message, other}
use mcloudtt.Env.{Env}
use mcloudtt.Topics
use mcloudtt.Topics.{Shared}
use mcloudtt.Client.State.{World}
use mcloudtt.Client.Session.{
  handle_packet, on_decoded, handle_decoded, handle_disconnect_packet, will_on, publish_will,
  publish_stored,
}
use mcloudtt.Client.Connection.{
  read, read_nothing, read_error, timed_out, buffer, iterate, branch, read_branch, closing,
  timed_out_branch, shutdown,
}
use mcloudtt.Client.Connection.Timers.{sleep_secs-eq}
use mcloudtt.Client.Connection.Published.{handle_publish_packet-Holds}

module _ (E : Env) where
  -- The topics once a stored will has been published.
  abbrev pub with_will : Option E.FinalWill → Shared E → Shared E
  with_will none s = s
  with_will (some will) s = (Topics.publish E (E.from_will will) s).1

  -- What a DISCONNECT asks for.
  abbrev pub with_will_on : DisconnectReason → Option E.FinalWill → Shared E → Shared E
  with_will_on disconnect_with_will_message o s = with_will o s
  with_will_on (other n) o s = s

  publish_stored-shared :
      (o : Option E.FinalWill) (w : World E)
      → (publish_stored E o w).1.shared ≡ with_will o w.shared
  unfolding publish_stored
  publish_stored-shared none w = refl
  publish_stored-shared (some will) w = (handle_publish_packet-Holds E (E.from_will will) w).0

  shutdown-shared :
      (r : Result (Unit {0})) (w : World E) → (continue r (λ u. shutdown E) w).1.shared ≡ w.shared
  unfolding shutdown
  shutdown-shared (ok u) w = refl
  shutdown-shared (err e) w = refl
  shutdown-shared panic w = refl

  will_on-shared :
      (reason : DisconnectReason) (w : World E)
      → (will_on E reason w).1.shared ≡ with_will_on reason w.client.will w.shared
  unfolding will_on publish_will
  will_on-shared disconnect_with_will_message w = publish_stored-shared w.client.will w
  will_on-shared (other n) w = refl

  -- The loop never goes on after a DISCONNECT.
  disconnected :
      (addr : String) (r : Result (Unit {0})) (w : World E)
      → let x = continue r (λ u. fail {A = Unit {0}} (client_disconnected addr)) w in
        (closing E addr x.0 ≢ ok tt) × (x.1 ≡ w)
  unfolding closing
  disconnected addr (ok u) w = (λ e. cc, refl)
  disconnected addr (err e) w = (λ e'. cc, refl)
  disconnected addr panic w = (λ e. cc, refl)

  -- What one turn of the loop does about a stored will, with a timeout of at most 65533 seconds.
  -- When the timeout is over the topics have got it; when a DISCONNECT is read they have got it if
  -- that is the packet's reason, and are the same otherwise, and the loop does not go on; when the
  -- stream is at its end or cannot be read, they are the same.
  pub iterate-will :
      (addr text : String) (bytes : List ℕ) (p : DisconnectPacket) (w : World E)
      → E.settings.general.timeout < 65534
      → E.decode_mqtt (buffer bytes) ≡ inr (some (Packet.disconnect p))
      → ((iterate E addr timed_out w).1.shared ≡ with_will w.client.will w.shared)
        × ((iterate E addr (read bytes) w).1.shared
            ≡ with_will_on p.reason_code w.client.will w.shared)
        × ((iterate E addr (read bytes) w).0 ≢ ok tt)
        × ((iterate E addr read_nothing w).1.shared ≡ w.shared)
        × ((iterate E addr (read_error text) w).1.shared ≡ w.shared)
  unfolding iterate branch timed_out_branch read_branch handle_packet on_decoded handle_decoded
      handle_disconnect_packet publish_will
  iterate-will addr text bytes p w h e =
      let end = disconnected addr (will_on E p.reason_code w).0 (will_on E p.reason_code w).1 in
      rw (sleep_secs-eq E h, e)
        (
          shutdown-shared (publish_stored E w.client.will w).0 (publish_stored E w.client.will w).1
              ∙ publish_stored-shared w.client.will w,
          ap (λ x. x.shared) end.1 ∙ will_on-shared p.reason_code w,
          end.0,
          refl,
          refl,
        )
