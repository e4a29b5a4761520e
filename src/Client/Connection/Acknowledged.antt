-- ===== src/Client/Connection/Acknowledged.antt =====
-- A packet at QoS 1, from the write to its PUBACK (src/tcp_handling.rs).
use mcloudtt.Prelude.{
  ℕ, String, Option, none, some, ◌≡◌, ◌≢◌, refl, ap, ◌∙◌, List, [], ◌∷◌, ◌++◌, append-nil, true,
  false, arith, All, retain, eq_option,
}
use mcloudtt.Error.{ok}
use mcloudtt.BTreeMap.{get}
use mcloudtt.Broadcast.{View, IsBroadcast}
use mcloudtt.Mqtt.{PublishAckPacket, QoS}
use mcloudtt.Env.{Env, Message, IsStream}
use mcloudtt.Client.State.{World, OutgoingMessage}
use mcloudtt.Client.Publish.{is_other, handle_publishack_packet}
use mcloudtt.Client.Connection.{received_branch}
use mcloudtt.Client.Connection.Receive.{awaiting, received_branch-ok}

module _ (E : Env) where
  -- A message that waits for another PUBACK.
  abbrev pub IsOther : ℕ → OutgoingMessage E → Type 0
  IsOther id m = E.packet_id m.packet ≢ some id

  eq_option-some : (o : Option ℕ) (n : ℕ) → o ≢ some n → eq_option o (some n) ≡ false
  eq_option-some none n h = refl
  eq_option-some (some k) n h = ground arith

  retain-is_other :
      (id : ℕ) (ms rest : List (OutgoingMessage E))
      → All (IsOther id) ms
      → retain (is_other E id) (ms ++ rest) ≡ ms ++ retain (is_other E id) rest
  unfolding is_other
  retain-is_other id [] rest h = refl
  retain-is_other id (m ∷ ms) rest h =
      rw (eq_option-some (E.packet_id m.packet) id h.0, retain-is_other id ms rest h.1)

  retain-awaiting :
      (q : QoS) (p : E.PublishPacket) (id : ℕ)
      → E.packet_id p ≡ some id
      → retain (is_other E id) (awaiting E q p) ≡ []
  unfolding is_other awaiting
  retain-awaiting QoS.at_most_once p id h = refl
  retain-awaiting QoS.at_least_once p id h = ground arith
  retain-awaiting QoS.exactly_once p id h = refl

module _ (E : Env) (V : View E.bus) (L : IsBroadcast E.bus V) where
  -- A live receiver that missed nothing has a packet with an id at the front, and no waiting
  -- message has that id. When the packet has been taken and written, and then a PUBACK with the id
  -- is handled, the messages that wait are those from before, at any quality of service.
  pub handle_publishack_packet-received_branch :
      (sent : E.Stream → List ℕ) (S : IsStream E.io sent) (key : String) (r : E.Receiver)
      (p : E.PublishPacket) (ms : List (Message E.PublishPacket)) (ack : PublishAckPacket)
      (w w' : World E)
      → get key w.client.receivers ≡ some r
      → V.live r w.shared.hub ≡ true
      → V.missed r w.shared.hub ≡ 0
      → V.unread r w.shared.hub ≡ Message.publish p ∷ ms
      → E.packet_id p ≡ some ack.packet_id
      → All (IsOther E ack.packet_id) w.client.outgoing_messages
      → received_branch E key w ≡ (ok tt, w')
      → ((handle_publishack_packet E ack w').0 ≡ ok tt)
        × ((handle_publishack_packet E ack w').1.client.outgoing_messages
            ≡ w.client.outgoing_messages)
  unfolding handle_publishack_packet
  handle_publishack_packet-received_branch sent S key r p ms ack w w' entry live missed queue id
        others e =
      let old = w.client.outgoing_messages in
      let (_, _, _, _, list) =
        received_branch-ok E V L sent S key r p ms w w' entry live missed queue e in
      (
        refl,
        ap (retain (is_other E ack.packet_id)) list
            ∙ retain-is_other E ack.packet_id old (awaiting E (E.qos p) p) others
            ∙ ap (◌++◌ old) (retain-awaiting E (E.qos p) p ack.packet_id id)
            ∙ append-nil old,
      )
