-- ===== src/Client/Connection/Expiry.antt =====
-- The messages that wait for a PUBACK, and the branch of the second (src/tcp_handling.rs).
use mcloudtt.Prelude.{
  ℕ, zero, suc, ◌-◌, ◌^◌, ◌<◌, ◌≤◌, ◌≡◌, refl, ap, sym, ◌∙◌, List, [], ◌∷◌, ◌++◌, append-nil,
  append_assoc, Bool-cases, inl, inr, arith, if◌then◌else◌, ltb, eqb, All, retain, replicate,
  String,
}
use mcloudtt.Error.{ok, ok-injective, >>=-eq-ok, ◌>>=◌, ◌>>◌, pure, modify}
use mcloudtt.Mqtt.{Packet}
use mcloudtt.Env.{Env, IsStream}
use mcloudtt.Client.State.{World, OutgoingMessage, set_outgoing}
use mcloudtt.Client.Written.{write_to_stream-ok}
use mcloudtt.Client.Connection.{
  tick, resend, count_down, resend_each, unexpired, tick_branch, tick_over, tick_ready, branch,
  lift, decrement, iterate, sleep_secs, handle_raw_tcp_stream,
}
use mcloudtt.Client.Connection.Timers.{decrement_pos}

module _ (E : Env) where
  -- A counter that is not 0, and fits its type.
  abbrev pub IsCounting : OutgoingMessage E → Type 0
  IsCounting m = (0 < m.counter) × (m.counter < 2 ^ 32)

  abbrev lowered : OutgoingMessage E → OutgoingMessage E
  lowered m = record m { counter = m.counter - 1 }

  -- The specification: the messages with more than a second to go, a second later.
  unfoldable pub survivors : List (OutgoingMessage E) → List (OutgoingMessage E)
  survivors [] = []
  survivors (m ∷ ms) = if ltb 1 m.counter then lowered m ∷ survivors ms else survivors ms

  -- The bytes of their packets, in order.
  unfoldable pub resent_bytes : List (OutgoingMessage E) → List ℕ
  resent_bytes [] = []
  resent_bytes (m ∷ ms) = E.encode_mqtt (Packet.publish m.packet) ++ resent_bytes ms

  lowered_all : List (OutgoingMessage E) → List (OutgoingMessage E)
  lowered_all [] = []
  lowered_all (m ∷ ms) = lowered m ∷ lowered_all ms

  retain-lowered :
      (ms : List (OutgoingMessage E))
      → All IsCounting ms
      → retain (unexpired E) (lowered_all ms) ≡ survivors ms
  unfolding lowered_all survivors
  retain-lowered [] h = refl
  retain-lowered (m ∷ ms) h = ground (arith, retain-lowered ms h.1)

  survivors-IsCounting :
      (ms : List (OutgoingMessage E)) → All IsCounting ms → All IsCounting (survivors ms)
  unfolding survivors
  survivors-IsCounting [] h = tt
  survivors-IsCounting (m ∷ ms) h = ground (arith, survivors-IsCounting ms h.1)

  survivors-le :
      (n : ℕ) (ms : List (OutgoingMessage E))
      → All (λ m. m.counter ≤ suc n) ms
      → All (λ m. m.counter ≤ n) (survivors ms)
  unfolding survivors
  survivors-le n [] h = tt
  survivors-le n (m ∷ ms) h = ground (arith, survivors-le n ms h.1)

  none_left :
      (ms : List (OutgoingMessage E)) → All IsCounting ms → All (λ m. m.counter ≤ 0) ms → ms ≡ []
  none_left [] h k = refl
  none_left (m ∷ ms) h k = absurd (omega arith)

  -- What one message sends when its second is over.
  bytes-survivors :
      (m : OutgoingMessage E) (ms : List (OutgoingMessage E))
      → IsCounting m
      → (if eqb (m.counter - 1) 0 then [] else E.encode_mqtt (Packet.publish m.packet))
          ++ resent_bytes (survivors ms)
        ≡ resent_bytes (survivors (m ∷ ms))
  unfolding survivors resent_bytes
  bytes-survivors m ms h = ground arith

module _ (E : Env) (sent : E.Stream → List ℕ) (S : IsStream E.io sent) where
  resend-ok :
      (m : OutgoingMessage E) (w w' : World E)
      → resend E m w ≡ (ok tt, w')
      → (sent w'.stream
          ≡ sent w.stream
            ++ (if eqb m.counter 0 then [] else E.encode_mqtt (Packet.publish m.packet)))
        × (w' ≡ record w { stream = w'.stream })
  unfolding resend
  resend-ok m w w' e = elim (Bool-cases (eqb m.counter 0)) [
    | inl h ↦
        let same : w ≡ w' = ap (λ x. x.1) (rw h at e) in
        rw (h, ← same) (sym (append-nil (sent w.stream)), refl)
    | inr h ↦ rw h (write_to_stream-ok E sent S (Packet.publish m.packet) w w' (rw h at e))
  ]

  count_down-ok :
      (before rest : List (OutgoingMessage E)) (m m' : OutgoingMessage E) (w w' : World E)
      → IsCounting E m
      → (lift E (decrement E m.counter) >>= count_down E before m rest) w ≡ (ok m', w')
      → (m' ≡ lowered E m)
        × (w'.client.outgoing_messages ≡ before ++ lowered E m ∷ rest)
        × (sent w'.stream
            ≡ sent w.stream
              ++ (if eqb (m.counter - 1) 0 then [] else E.encode_mqtt (Packet.publish m.packet)))
  unfolding count_down
  count_down-ok before rest m m' w w' h e =
      let l = lowered E m in
      let w₀ = set_outgoing E (before ++ l ∷ rest) w in
      let e₀ : (resend E l >> pure l) w₀ ≡ (ok m', w') =
        rw (decrement_pos E m.counter h.0 h.1) at e in
      let (_, w₁, e₁, e₂) = >>=-eq-ok (resend E l) (λ _. pure l) w₀ m' w' e₀ in
      let (bytes, kept) = resend-ok l w₀ w₁ e₁ in
      let same : w₁ ≡ w' = ap (λ x. x.1) e₂ in
      (
        sym (ok-injective l m' (ap (λ x. x.0) e₂)),
        rw (← same) (ap (λ x. x.client.outgoing_messages) kept),
        rw (← same) bytes,
      )

  resend_each-ok :
      (before rest : List (OutgoingMessage E)) (w w' : World E)
      → All (IsCounting E) rest
      → w.client.outgoing_messages ≡ before ++ rest
      → resend_each E before rest w ≡ (ok tt, w')
      → (w'.client.outgoing_messages ≡ before ++ lowered_all E rest)
        × (sent w'.stream ≡ sent w.stream ++ resent_bytes E (survivors E rest))
  unfolding resend_each lowered_all survivors resent_bytes
  resend_each-ok before [] w w' h o e = rw (← ap (λ x. x.1) e) (o, sym (append-nil (sent w.stream)))
  resend_each-ok before (m ∷ rest) w w' h o e =
      let step = lift E (decrement E m.counter) >>= count_down E before m rest in
      let (m', w₁, e₁, e₂) =
        >>=-eq-ok step (λ x. resend_each E (before ++ x ∷ []) rest) w tt w' e in
      let (same, list, bytes) = count_down-ok before rest m m' w w₁ h.0 e₁ in
      let next = before ++ lowered E m ∷ [] in
      let (list', bytes') =
        resend_each-ok next rest w₁ w' h.1
          (list ∙ sym (append_assoc before (lowered E m ∷ []) rest)) (rw same at e₂) in
      (
        list' ∙ append_assoc before (lowered E m ∷ []) (lowered_all E rest),
        bytes'
            ∙ ap (λ x. x ++ resent_bytes E (survivors E rest)) bytes
            ∙ append_assoc (sent w.stream) _ (resent_bytes E (survivors E rest))
            ∙ ap (◌++◌ (sent w.stream)) (bytes-survivors E m rest h.0),
      )

  -- The counters of the waiting messages are positive and fit 32 bits. When the branch of the
  -- second returns, the messages that had more than a second to go have been sent again, in order,
  -- and wait with a second less; the others are forgotten and have not been sent.
  pub tick_branch-ok :
      (w w' : World E)
      → All (IsCounting E) w.client.outgoing_messages
      → tick_branch E w ≡ (ok tt, w')
      → (w'.client.outgoing_messages ≡ survivors E w.client.outgoing_messages)
        × (sent w'.stream
            ≡ sent w.stream ++ resent_bytes E (survivors E w.client.outgoing_messages))
  unfolding tick_branch
  tick_branch-ok w w' h e =
      let ms = w.client.outgoing_messages in
      let forget =
        modify (λ x. set_outgoing E (retain (unexpired E) x.client.outgoing_messages) x) in
      let (_, w₁, e₁, e₂) = >>=-eq-ok (resend_each E [] ms) (λ _. forget) w tt w' e in
      let (list, bytes) = resend_each-ok [] ms w w₁ h refl e₁ in
      let same : set_outgoing E (retain (unexpired E) w₁.client.outgoing_messages) w₁ ≡ w' =
        ap (λ x. x.1) e₂ in
      rw (← same) (ap (retain (unexpired E)) list ∙ retain-lowered E ms h, bytes)

  tick_over-ok :
      (ms : List (OutgoingMessage E)) (w w' : World E)
      → w.client.outgoing_messages ≡ ms
      → All (IsCounting E) ms
      → tick_over E ms w ≡ (ok tt, w')
      → w'.client.outgoing_messages ≡ survivors E ms
  unfolding tick_over survivors
  tick_over-ok [] w w' o h e = rw (← ap (λ x. x.1) e) o
  tick_over-ok (m ∷ ms) w w' o h e =
      let h' : All (IsCounting E) w.client.outgoing_messages = rw o h in
      (tick_branch-ok w w' h' e).0 ∙ ap (survivors E) o

  iterate-tick :
      (addr : String) (w w' : World E)
      → All (IsCounting E) w.client.outgoing_messages
      → iterate E addr tick w ≡ (ok tt, w')
      → w'.client.outgoing_messages ≡ survivors E w.client.outgoing_messages
  unfolding iterate branch tick_ready
  iterate-tick addr w w' h e =
      let (_, w₁, e₁, e₂) = >>=-eq-ok (lift E (sleep_secs E)) (λ _. branch E addr tick) w tt w' e in
      let same : w ≡ w₁ = ap (λ x. x.1) e₁ in
      tick_over-ok w.client.outgoing_messages w w' refl h (rw (← same) at e₂)

  -- The counters of the waiting messages are positive, fit 32 bits, and are at most n: if n seconds
  -- pass with no other event and the loop still runs, no message waits any more.
  pub ticks-expire :
      (n : ℕ) (addr : String) (w w' : World E)
      → All (IsCounting E) w.client.outgoing_messages
      → All (λ m. m.counter ≤ n) w.client.outgoing_messages
      → handle_raw_tcp_stream E addr (replicate n tick) w ≡ (ok tt, w')
      → w'.client.outgoing_messages ≡ []
  unfolding handle_raw_tcp_stream
  ticks-expire zero addr w w' h k e =
      rw (← ap (λ x. x.1) e) (none_left E w.client.outgoing_messages h k)
  ticks-expire (suc n) addr w w' h k e =
      let (_, w₁, e₁, e₂) =
        >>=-eq-ok (iterate E addr tick) (λ _. handle_raw_tcp_stream E addr (replicate n tick)) w tt
          w' e in
      let list = iterate-tick addr w w₁ h e₁ in
      ticks-expire n addr w₁ w' (rw list (survivors-IsCounting E w.client.outgoing_messages h))
        (rw list (survivors-le E n w.client.outgoing_messages k)) e₂
