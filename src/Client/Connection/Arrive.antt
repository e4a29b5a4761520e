-- ===== src/Client/Connection/Arrive.antt =====
-- The loop of a subscriber (src/tcp_handling.rs) on a stream that stays connected.
use mcloudtt.Prelude.{
  ℕ, ◌<◌, ◌≤◌, String, some, ◌≡◌, refl, ◌∙◌, List, [], ◌∷◌, ◌++◌, true, map, replicate, length,
}
use mathlib.Core.Path.{subst}
use mcloudtt.Error.{ok}
use mcloudtt.BTreeMap.{get}
use mcloudtt.Broadcast.{View, IsBroadcast}
use mcloudtt.Mqtt.{Packet}
use mcloudtt.Env.{Env, Message, IsStream, IsConnected}
use mcloudtt.Topics.Retained.{publish_all}
use mcloudtt.Client.Written.{returned, write_to_stream-returns}
use mcloudtt.Client.State.{World}
use mcloudtt.Client.Invariant.{IsWorld}
use mcloudtt.Client.Invariant.Loop.{iterate-IsWorld}
use mcloudtt.Client.Connection.{
  received, poll, on_message, recv, received_branch, received_from, received_ready, branch, iterate,
  handle_raw_tcp_stream,
}
use mcloudtt.Client.Connection.Timers.{sleep_secs-eq}
use mcloudtt.Client.Connection.Receive.{received_branch-ok}
use mcloudtt.Client.Connection.Forward.{
  stream_of, poll_single, publish_all-IsWorld, get_single, queue-published, published-forwarded,
}
use mcloudtt.Topics.History.{packets_on}

module _ (E : Env) where
  pub iterate-ready :
      (addr t : String) (w : World E)
      → E.settings.general.timeout < 65534
      → poll E w ≡ some t
      → iterate E addr received w ≡ received_branch E t w
  unfolding iterate branch received_ready received_from
  iterate-ready addr t w h e = rw (sleep_secs-eq E h, e)

module _ (E : Env) (V : View E.bus) (L : IsBroadcast E.bus V) (C : IsConnected E.io) where
  pub received_branch-returns :
      (key : String) (r : E.Receiver) (p : E.PublishPacket) (ms : List (Message E.PublishPacket))
      (w : World E)
      → get key w.client.receivers ≡ some r
      → V.live r w.shared.hub ≡ true
      → V.missed r w.shared.hub ≡ 0
      → V.unread r w.shared.hub ≡ Message.publish p ∷ ms
      → (received_branch E key w).0 ≡ ok tt
  unfolding received_branch recv on_message
  received_branch-returns key r p ms w entry live none_missed queue =
      let now = (L.recv_message r w.shared.hub (Message.publish p) ms live none_missed queue).0 in
      rw (entry, now) (write_to_stream-returns E C (Packet.publish p) _)

  module _ (sent : E.Stream → List ℕ) (S : IsStream E.io sent) where
    pub received-returns :
        (ps : List E.PublishPacket) (addr t : String) (r : E.Receiver) (w : World E)
        → E.settings.general.timeout < 65534
        → IsWorld E V w
        → w.client.receivers ≡ (t, r) ∷ []
        → V.missed r w.shared.hub ≡ 0
        → V.unread r w.shared.hub ≡ map Message.publish ps
        → (handle_raw_tcp_stream E addr (replicate (length ps) received) w).0 ≡ ok tt
    unfolding handle_raw_tcp_stream
    received-returns [] addr t r w h i one missed queue = refl
    received-returns (p ∷ ps) addr t r w h i one missed queue =
        let rest = map Message.publish ps in
        let entry : get t w.client.receivers ≡ some r = rw one (get_single E V L t r) in
        let live = (i.subscribed t r entry).live in
        let w₁ = (received_branch E t w).1 in
        let e =
          returned E (received_branch E t) w
            (received_branch-returns t r p rest w entry live missed queue) in
        let step =
          iterate-ready E addr t w h
            (poll_single E V L w t r (Message.publish p) rest one live queue)
          ∙ e in
        let (_, receivers, unread, missed', _) =
          received_branch-ok E V L sent S t r p rest w w₁ entry live missed queue e in
        let i₁ : IsWorld E V w₁ =
          subst (λ x. IsWorld E V x.1) step (iterate-IsWorld E V L addr received w i) in
        rw step (received-returns ps addr t r w₁ h i₁ (receivers ∙ one) missed' unread)

    -- A client on a stream that stays connected, subscribed to one topic, with nothing to read and
    -- nothing missed, in a world that keeps the invariant; the timeout is at most 65533 seconds.
    -- Packets are published, at most 1024 of them on its topic. When its loop has then taken a
    -- message as often as there were packets of the topic, it still runs, and the stream has got
    -- exactly those packets, in the order of publication; none is left to read.
    pub published-arrive :
        (ps : List E.PublishPacket) (addr t : String) (r : E.Receiver) (w : World E)
        → E.settings.general.timeout < 65534
        → IsWorld E V w
        → w.client.receivers ≡ (t, r) ∷ []
        → V.unread r w.shared.hub ≡ []
        → V.missed r w.shared.hub ≡ 0
        → length (packets_on E t ps) ≤ 1024
        → let x =
            handle_raw_tcp_stream E addr
              (replicate (length (packets_on E t ps)) received)
              (record w { shared = publish_all E ps w.shared }) in
          (x.0 ≡ ok tt)
          × (sent x.1.stream ≡ sent w.stream ++ stream_of E (packets_on E t ps))
          × (V.unread r x.1.shared.hub ≡ [])
    published-arrive ps addr t r w h i one empty none_missed few =
        let es = replicate (length (packets_on E t ps)) received in
        let w₀ : World E = record w { shared = publish_all E ps w.shared } in
        let (queue, missed) = queue-published E V L ps t r w i one empty none_missed few in
        let e =
          received-returns (packets_on E t ps) addr t r w₀ h (publish_all-IsWorld E V L ps w i) one
            missed queue in
        let (bytes, done) =
          published-forwarded E V L sent S ps addr t r w (handle_raw_tcp_stream E addr es w₀).1 i
            one empty none_missed few (returned E (handle_raw_tcp_stream E addr es) w₀ e) in
        (e, bytes, done)
