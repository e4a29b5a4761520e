-- ===== src/Client/Connection/Lagged.antt =====
-- A subscriber that falls behind by more than its channel holds (src/tcp_handling.rs).
use mcloudtt.Prelude.{
  ℕ, suc, ◌+◌, ◌-◌, ◌<◌, ◌≤◌, String, some, ◌≡◌, ◌≢◌, refl, ap, ◌∙◌, List, [], ◌∷◌, ◌++◌, true, map,
  replicate, length, last, last-map, length-last, length-map, arith,
}
use mathlib.Core.Path.{subst}
use mcloudtt.Error.{ok}
use mcloudtt.BTreeMap.{get}
use mcloudtt.Broadcast.{View, IsBroadcast}
use mcloudtt.Env.{Env, Message, IsStream, IsConnected}
use mcloudtt.Topics.Retained.{publish_all}
use mcloudtt.Topics.History.{messages_on}
use mcloudtt.Topics.Interleaving.{arrivals, reader, publish_all-arrivals, arrivals-last}
use mcloudtt.Client.Written.{returned}
use mcloudtt.Client.State.{World}
use mcloudtt.Client.Invariant.{IsWorld}
use mcloudtt.Client.Invariant.Loop.{iterate-IsWorld}
use mcloudtt.Client.Connection.{
  received, recv, on_message, received_branch, iterate, handle_raw_tcp_stream,
}
use mcloudtt.Client.Connection.Arrive.{iterate-ready, received-returns}
use mcloudtt.Client.Connection.Forward.{
  stream_of, poll_single, publish_all-IsWorld, get_single, received-all,
}
use mcloudtt.Topics.History.{packets_on, messages_on-map}

module _ (E : Env) (V : View E.bus) (L : IsBroadcast E.bus V) where
  -- What has been published while a reader with nothing to read did not look.
  reader-last :
      (ps : List E.PublishPacket) (t : String) (r : E.Receiver) (w : World E)
      → IsWorld E V w
      → w.client.receivers ≡ (t, r) ∷ []
      → V.unread r w.shared.hub ≡ []
      → V.missed r w.shared.hub ≡ 0
      → let cap = V.capacity (V.sender_of r) in
        let arrived = packets_on E t ps in
        reader E V r (publish_all E ps w.shared)
        ≡ (map Message.publish (last cap arrived), length arrived - cap)
  reader-last ps t r w i one empty none_missed =
      let cap = V.capacity (V.sender_of r) in
      let arrived = packets_on E t ps in
      let reads = i.subscribed t r (rw one (get_single E V L t r)) in
      let start : reader E V r w.shared ≡ ([], 0) = λ k. (empty k, none_missed k) in
      let size : 0 + (0 + length (map Message.publish arrived) - cap) ≡ length arrived - cap =
        omega (arith, length-map arrived Message.publish) in
      publish_all-arrivals E V L ps w.shared r t i.valid reads
      ∙ ap (arrivals cap (messages_on E t ps)) start
      ∙ ap (λ ms. arrivals cap ms ([], 0)) (messages_on-map E t ps)
      ∙ arrivals-last cap (map Message.publish arrived) [] 0 (omega arith)
      ∙ (λ k. (last-map cap Message.publish arrived k, size k))

  -- The first `recv` says how many messages are lost, which is only logged.
  received_branch-lagged :
      (key : String) (r : E.Receiver) (w : World E)
      → get key w.client.receivers ≡ some r
      → V.live r w.shared.hub ≡ true
      → V.missed r w.shared.hub ≢ 0
      → received_branch E key w
        ≡ (ok tt, record w { shared = record w.shared { hub = (E.bus.recv r w.shared.hub).1 } })
  unfolding received_branch recv on_message
  received_branch-lagged key r w entry live lost =
      let now = (L.recv_lagged r w.shared.hub live lost).0 in rw (entry, now) refl

  module _ (C : IsConnected E.io) (sent : E.Stream → List ℕ) (S : IsStream E.io sent) where
    -- The loop of a client that has missed messages, on what is left of them.
    lagged-arrive :
        (ps : List E.PublishPacket) (addr t : String) (r : E.Receiver) (w : World E)
        → E.settings.general.timeout < 65534
        → IsWorld E V w
        → w.client.receivers ≡ (t, r) ∷ []
        → V.missed r w.shared.hub ≢ 0
        → V.unread r w.shared.hub ≡ map Message.publish ps
        → 0 < length ps
        → let x = handle_raw_tcp_stream E addr (received ∷ replicate (length ps) received) w in
          (x.0 ≡ ok tt)
          × (sent x.1.stream ≡ sent w.stream ++ stream_of E ps)
          × (V.unread r x.1.shared.hub ≡ [])
    unfolding handle_raw_tcp_stream
    lagged-arrive [] addr t r w h i one lost queue some_left = absurd (omega arith)
    lagged-arrive (p ∷ ps) addr t r w h i one lost queue some_left =
        let entry : get t w.client.receivers ≡ some r = rw one (get_single E V L t r) in
        let live = (i.subscribed t r entry).live in
        let w₁ : World E = record w {
          shared = record w.shared { hub = (E.bus.recv r w.shared.hub).1 };
        } in
        let step : iterate E addr received w ≡ (ok tt, w₁) =
          iterate-ready E addr t w h
            (poll_single E V L w t r (Message.publish p) (map Message.publish ps) one live queue)
          ∙ received_branch-lagged t r w entry live lost in
        let (_, same, none_missed) = L.recv_lagged r w.shared.hub live lost in
        let i₁ : IsWorld E V w₁ =
          subst (λ x. IsWorld E V x.1) step (iterate-IsWorld E V L addr received w i) in
        let es = replicate (length (p ∷ ps)) received in
        let e =
          received-returns E V L C sent S (p ∷ ps) addr t r w₁ h i₁ one none_missed
            (same ∙ queue) in
        let (bytes, done) =
          received-all E V L sent S (p ∷ ps) addr t r w₁ (handle_raw_tcp_stream E addr es w₁).1 i₁
            one none_missed (same ∙ queue) (returned E (handle_raw_tcp_stream E addr es) w₁ e) in
        rw step (e, bytes, done)

    -- A client on a stream that stays connected, subscribed to one topic, with nothing to read and
    -- nothing missed, in a world that keeps the invariant; the timeout is at most 65533 seconds.
    -- More packets are published on its topic than its channel holds. When its loop has then taken
    -- a message once more than the channel holds, it still runs, the stream has got exactly the
    -- last packets of the topic, as many as the channel holds, in the order of publication, and
    -- none is left to read.
    pub overrun-arrive :
        (ps : List E.PublishPacket) (addr t : String) (r : E.Receiver) (w : World E)
        → E.settings.general.timeout < 65534
        → IsWorld E V w
        → w.client.receivers ≡ (t, r) ∷ []
        → V.unread r w.shared.hub ≡ []
        → V.missed r w.shared.hub ≡ 0
        → V.capacity (V.sender_of r) < length (packets_on E t ps)
        → let cap = V.capacity (V.sender_of r) in
          let x =
            handle_raw_tcp_stream E addr
              (replicate (suc cap) received)
              (record w { shared = publish_all E ps w.shared }) in
          (x.0 ≡ ok tt)
          × (sent x.1.stream ≡ sent w.stream ++ stream_of E (last cap (packets_on E t ps)))
          × (V.unread r x.1.shared.hub ≡ [])
    overrun-arrive ps addr t r w h i one empty none_missed many =
        let cap = V.capacity (V.sender_of r) in
        let arrived = packets_on E t ps in
        let both = reader-last ps t r w i one empty none_missed in
        let w₀ : World E = record w { shared = publish_all E ps w.shared } in
        let size : length (last cap arrived) ≡ cap = length-last cap arrived (omega arith) in
        let reads = i.subscribed t r (rw one (get_single E V L t r)) in
        let room : 1024 ≤ cap = rw reads.attached (i.valid.roomy t reads.channel reads.found) in
        subst
          (λ n.
            let x = handle_raw_tcp_stream E addr (received ∷ replicate n received) w₀ in
            (x.0 ≡ ok tt)
            × (sent x.1.stream ≡ sent w.stream ++ stream_of E (last cap arrived))
            × (V.unread r x.1.shared.hub ≡ []))
          size
          (lagged-arrive (last cap arrived) addr t r w₀ h (publish_all-IsWorld E V L ps w i) one
            (λ z. absurd (omega (arith, ap (λ x. x.1) both, z, many))) (ap (λ x. x.0) both)
            (omega (arith, size, room)))
