-- ===== src/Client/Connection/Resent.antt =====
-- A packet at QoS 1 on a stream that stays connected: it is written, written again each second, and
-- acknowledged (src/tcp_handling.rs).
use mcloudtt.Prelude.{
  ℕ, zero, suc, ◌-◌, ◌^◌, ◌<◌, String, some, ◌≡◌, refl, ap, sym, ◌∙◌, List, [], ◌∷◌, ◌++◌,
  append-nil, append_assoc, Bool-cases, unwrap_or, inl, inr, arith, eqb, All, replicate,
}
use mcloudtt.Error.{ok, >>=-eq-ok}
use mcloudtt.Mqtt.{Packet, PublishAckPacket, QoS}
use mcloudtt.Env.{Env, Message, IsStream, IsConnected}
use mcloudtt.Client.State.{World, OutgoingMessage, set_outgoing}
use mcloudtt.Client.Written.{returned, write_to_stream-returns}
use mcloudtt.Client.Connection.{
  Event, tick, resend, count_down, resend_each, tick_branch, tick_over, tick_ready, branch, iterate,
  handle_raw_tcp_stream, read, received, read_branch, closing, buffer, received_branch,
}
use mcloudtt.Client.Connection.Arrive.{iterate-ready, received_branch-returns}
use mcloudtt.Client.Connection.Receive.{awaiting, received_branch-ok}
use mcloudtt.Client.Connection.Forward.{stream_of, poll_single, get_single}
use mcloudtt.Client.Session.{handle_packet, on_decoded, handle_decoded}
use mcloudtt.Client.Publish.{handle_publishack_packet, is_other}
use mcloudtt.BTreeMap.{get}
use mcloudtt.Broadcast.{View, IsBroadcast}
use mcloudtt.Client.Invariant.{IsWorld}
use mcloudtt.Client.Connection.Timers.{decrement_pos, sleep_secs-eq}
use mcloudtt.Client.Connection.Expiry.{IsCounting, survivors, resent_bytes, tick_branch-ok}

module _ (E : Env) where
  -- A loop that still runs after some events goes on with the others.
  pub run-append :
      (addr : String) (es fs : List Event) (w w' : World E)
      → handle_raw_tcp_stream E addr es w ≡ (ok tt, w')
      → handle_raw_tcp_stream E addr (es ++ fs) w ≡ handle_raw_tcp_stream E addr fs w'
  unfolding handle_raw_tcp_stream
  run-append addr [] fs w w' e = ap (handle_raw_tcp_stream E addr fs) (ap (λ x. x.1) e)
  run-append addr (x ∷ es) fs w w' e =
      let (_, w₁, e₁, e₂) =
        >>=-eq-ok (iterate E addr x) (λ _. handle_raw_tcp_stream E addr es) w tt w' e in
      rw e₁ (run-append addr es fs w₁ w' e₂)

  module _ (C : IsConnected E.io) where
    resend-returns : (m : OutgoingMessage E) (w : World E) → (resend E m w).0 ≡ ok tt
    unfolding resend
    resend-returns m w = elim (Bool-cases (eqb m.counter 0)) [
      | inl h ↦ rw (h, resend) refl
      | inr h ↦ rw (h, resend) (write_to_stream-returns E C (Packet.publish m.packet) w)
    ]

    resend_each-returns :
        (before rest : List (OutgoingMessage E)) (w : World E)
        → All (IsCounting E) rest
        → (resend_each E before rest w).0 ≡ ok tt
    unfolding resend_each count_down
    resend_each-returns before [] w h = refl
    resend_each-returns before (m ∷ rest) w h =
        let l : OutgoingMessage E = record m { counter = m.counter - 1 } in
        let w₀ = set_outgoing E (before ++ l ∷ rest) w in
        rw (decrement_pos E m.counter h.0.0 h.0.1, returned E (resend E l) w₀ (resend-returns l w₀))
          (resend_each-returns (before ++ l ∷ []) rest (resend E l w₀).1 h.1)

    tick_branch-returns :
        (w : World E) → All (IsCounting E) w.client.outgoing_messages → (tick_branch E w).0 ≡ ok tt
    unfolding tick_branch
    tick_branch-returns w h =
        let ms = w.client.outgoing_messages in
        rw (returned E (resend_each E [] ms) w (resend_each-returns [] ms w h)) refl

module _ (E : Env) (C : IsConnected E.io) (sent : E.Stream → List ℕ) (S : IsStream E.io sent) where
  abbrev waiting : E.PublishPacket → ℕ → OutgoingMessage E
  waiting p n = record { packet = p; counter = n }

  iterate-tick-branch :
      (addr : String) (m : OutgoingMessage E) (w : World E)
      → E.settings.general.timeout < 65534
      → w.client.outgoing_messages ≡ m ∷ []
      → iterate E addr tick w ≡ tick_branch E w
  unfolding iterate branch tick_ready tick_over
  iterate-tick-branch addr m w h o = rw (sleep_secs-eq E h, o) refl

  iterate-tick-idle :
      (addr : String) (w : World E)
      → E.settings.general.timeout < 65534
      → w.client.outgoing_messages ≡ []
      → iterate E addr tick w ≡ (ok tt, w)
  unfolding iterate branch tick_ready tick_over
  iterate-tick-idle addr w h o = rw (sleep_secs-eq E h, o) refl

  -- While nothing waits, the seconds that pass change nothing.
  ticks-idle :
      (k : ℕ) (addr : String) (w : World E)
      → E.settings.general.timeout < 65534
      → w.client.outgoing_messages ≡ []
      → handle_raw_tcp_stream E addr (replicate k tick) w ≡ (ok tt, w)
  unfolding handle_raw_tcp_stream
  ticks-idle zero addr w h o = refl
  ticks-idle (suc k) addr w h o = rw (iterate-tick-idle addr w h o) (ticks-idle k addr w h o)

  survivors-waiting :
      (p : E.PublishPacket) (n : ℕ)
      → 1 < n
      → survivors E (waiting p n ∷ []) ≡ waiting p (n - 1) ∷ []
  unfolding survivors
  survivors-waiting p n h = ground arith

  -- Of one message that waits.
  tick-resend :
      (addr : String) (p : E.PublishPacket) (n : ℕ) (w : World E)
      → E.settings.general.timeout < 65534
      → w.client.outgoing_messages ≡ waiting p n ∷ []
      → 1 < n
      → n < 2 ^ 32
      → let x = iterate E addr tick w in
        (x.0 ≡ ok tt)
        × (x.1.client.outgoing_messages ≡ waiting p (n - 1) ∷ [])
        × (sent x.1.stream ≡ sent w.stream ++ E.encode_mqtt (Packet.publish p))
  unfolding resent_bytes
  tick-resend addr p n w h o few bound =
      let counting : All (IsCounting E) w.client.outgoing_messages =
        rw o ((omega arith, bound), tt) in
      let e = tick_branch-returns E C w counting in
      let (list, bytes) =
        tick_branch-ok E sent S w (tick_branch E w).1 counting (returned E (tick_branch E) w e) in
      let left = ap (survivors E) o ∙ survivors-waiting p n few in
      rw (iterate-tick-branch addr (waiting p n) w h o) (
        e,
        list ∙ left,
        bytes
            ∙ ap (λ ms. sent w.stream ++ resent_bytes E ms) left
            ∙ ap (◌++◌ (sent w.stream)) (append-nil (E.encode_mqtt (Packet.publish p))),
      )

  ticks-resend :
      (k : ℕ) (addr : String) (p : E.PublishPacket) (n : ℕ) (w : World E)
      → E.settings.general.timeout < 65534
      → w.client.outgoing_messages ≡ waiting p n ∷ []
      → k < n
      → n < 2 ^ 32
      → let x = handle_raw_tcp_stream E addr (replicate k tick) w in
        (x.0 ≡ ok tt)
        × (x.1.client.outgoing_messages ≡ waiting p (n - k) ∷ [])
        × (sent x.1.stream ≡ sent w.stream ++ stream_of E (replicate k p))
  unfolding handle_raw_tcp_stream stream_of
  ticks-resend zero addr p n w h o few bound =
      let all : n ≡ n - 0 = omega arith in
      (refl, o ∙ ap (λ i. waiting p i ∷ []) all, sym (append-nil (sent w.stream)))
  ticks-resend (suc k) addr p n w h o few bound =
      let (e, list, bytes) = tick-resend addr p n w h o (omega arith) bound in
      let w₁ = (iterate E addr tick w).1 in
      let (e', list', bytes') =
        ticks-resend k addr p (n - 1) w₁ h list (omega arith) (omega arith) in
      let less : n - 1 - k ≡ n - suc k = omega arith in
      rw (returned E (iterate E addr tick) w e) (
        e',
        list' ∙ ap (λ i. waiting p i ∷ []) less,
        bytes'
            ∙ ap (λ s. s ++ stream_of E (replicate k p)) bytes
            ∙ append_assoc (sent w.stream) (E.encode_mqtt (Packet.publish p))
                (stream_of E (replicate k p)),
      )

  -- A PUBACK for the message that waits.
  iterate-puback :
      (addr : String) (bytes : List ℕ) (ack : PublishAckPacket) (p : E.PublishPacket) (n : ℕ)
      (w : World E)
      → E.settings.general.timeout < 65534
      → E.decode_mqtt (buffer bytes) ≡ inr (some (Packet.publish_ack ack))
      → E.packet_id p ≡ some ack.packet_id
      → w.client.outgoing_messages ≡ waiting p n ∷ []
      → iterate E addr (read bytes) w ≡ (ok tt, set_outgoing E [] w)
  unfolding iterate branch read_branch closing handle_packet on_decoded handle_decoded
      handle_publishack_packet is_other
  iterate-puback addr bytes ack p n w h e id o = rw (sleep_secs-eq E h, e, o, id) (ground arith)

  module _ (V : View E.bus) (L : IsBroadcast E.bus V) where
    -- A client on a stream that stays connected, subscribed to one topic, in a world that keeps the
    -- invariant, with nothing missed and no message waiting; the timeout is at most 65533 seconds.
    -- The packet at the front of its receiver is at QoS 1 and has an id, and its expiry interval,
    -- or one second if it has none, fits 32 bits. The loop takes the packet, fewer seconds than
    -- that interval pass, a PUBACK with the packet's id is read, and any number of seconds passes.
    -- Then the loop still runs, the stream has got the packet once and once more for each second
    -- before the PUBACK, and no message waits.
    pub received-ticks-puback :
        (k m : ℕ) (addr t : String) (bytes : List ℕ) (ack : PublishAckPacket) (r : E.Receiver)
        (p : E.PublishPacket) (ms : List (Message E.PublishPacket)) (w : World E)
        → E.settings.general.timeout < 65534
        → IsWorld E V w
        → w.client.receivers ≡ (t, r) ∷ []
        → w.client.outgoing_messages ≡ []
        → V.missed r w.shared.hub ≡ 0
        → V.unread r w.shared.hub ≡ Message.publish p ∷ ms
        → E.qos p ≡ QoS.at_least_once
        → E.packet_id p ≡ some ack.packet_id
        → k < unwrap_or (E.message_expiry_interval p) 1
        → unwrap_or (E.message_expiry_interval p) 1 < 2 ^ 32
        → E.decode_mqtt (buffer bytes) ≡ inr (some (Packet.publish_ack ack))
        → let x =
            handle_raw_tcp_stream E addr
              (received ∷ replicate k tick ++ read bytes ∷ replicate m tick)
              w in
          (x.0 ≡ ok tt)
          × (sent x.1.stream ≡ sent w.stream ++ stream_of E (replicate (suc k) p))
          × (x.1.client.outgoing_messages ≡ [])
    unfolding handle_raw_tcp_stream stream_of awaiting
    received-ticks-puback k m addr t bytes ack r p ms w h i one idle none_missed queue q id few
          bound e =
        let n = unwrap_or (E.message_expiry_interval p) 1 in
        let entry : get t w.client.receivers ≡ some r = rw one (get_single E V L t r) in
        let live = (i.subscribed t r entry).live in
        let w₁ = (received_branch E t w).1 in
        let e₁ =
          returned E (received_branch E t) w
            (received_branch-returns E V L C t r p ms w entry live none_missed queue) in
        let step =
          iterate-ready E addr t w h (poll_single E V L w t r (Message.publish p) ms one live queue)
          ∙ e₁ in
        let (bytes₁, _, _, _, list₁) =
          received_branch-ok E V L sent S t r p ms w w₁ entry live none_missed queue e₁ in
        let waits : w₁.client.outgoing_messages ≡ waiting p n ∷ [] =
          list₁ ∙ ap (λ l. l ++ awaiting E (E.qos p) p) idle ∙ ap (λ c. awaiting E c p) q in
        let (e₂, list₂, bytes₂) = ticks-resend k addr p n w₁ h waits few bound in
        let w₂ = (handle_raw_tcp_stream E addr (replicate k tick) w₁).1 in
        let done = set_outgoing E [] w₂ in
        let rest : handle_raw_tcp_stream E addr (read bytes ∷ replicate m tick) w₂ ≡ (ok tt, done) =
          rw (iterate-puback addr bytes ack p (n - k) w₂ h e id list₂)
            (ticks-idle m addr done h refl) in
        rw
          (
            step,
            run-append E addr (replicate k tick) (read bytes ∷ replicate m tick) w₁ w₂
                (returned E (handle_raw_tcp_stream E addr (replicate k tick)) w₁ e₂),
            rest,
          )
          (
            refl,
            bytes₂
                ∙ ap (λ s. s ++ stream_of E (replicate k p)) bytes₁
                ∙ append_assoc (sent w.stream) (E.encode_mqtt (Packet.publish p))
                    (stream_of E (replicate k p)),
            refl,
          )
