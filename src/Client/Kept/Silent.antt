-- ===== src/Client/Kept/Silent.antt =====
-- What is kept by the parts of the event loop (src/tcp_handling.rs) that publish nothing.
use mcloudtt.Prelude.{
  ℕ, String, Option, none, some, List, [], ◌∷◌, ◌++◌, refl, Option-cases, inl, inr, eqb, retain,
}
use mcloudtt.Error.{
  Preserves, >>=-Preserves, >>-Preserves, if-Preserves, pure-Preserves, gets-Preserves, pure, gets,
  modify, ◌>>=◌, ◌>>◌,
}
use mcloudtt.BTreeMap
use mcloudtt.Broadcast.{Received, message, lagged, closed}
use mcloudtt.Mqtt.{QoS, at_most_once, at_least_once, exactly_once, Packet, ConnectPacket}
use mcloudtt.Env.{Env, Message}
use mcloudtt.Client.State.{World, OutgoingMessage, write_to_stream, set_outgoing}
use mcloudtt.Client.Session.{store_will, handle_connect_packet}
use mcloudtt.Client.Connection.{
  remember, on_message, recv, received_branch, shutdown, resend, resend_each, tick_branch, lift,
  received_from, tick_over, count_down, unexpired, decrement,
}
use mcloudtt.Client.Kept.{IsSilent, write_to_stream-Kept}

module _ (E : Env) (I : World E → Type 0) (S : IsSilent E I) where
  store_will-Kept : (o : Option E.FinalWill) (w : World E) → I w → I (store_will E o w)
  unfolding store_will
  store_will-Kept none w i = i
  store_will-Kept (some x) w i = S.client w _ refl refl i

  pub handle_connect_packet-Kept :
      (p : ConnectPacket E.FinalWill) → Preserves I (handle_connect_packet E p)
  unfolding handle_connect_packet
  handle_connect_packet-Kept p w i =
      write_to_stream-Kept E I S.client _ _ (store_will-Kept p.will w i)

  remember-Kept : (q : QoS) (p : E.PublishPacket) (w : World E) → I w → I (remember E q p w)
  unfolding remember
  remember-Kept at_most_once p w i = i
  remember-Kept at_least_once p w i = S.client w _ refl refl i
  remember-Kept exactly_once p w i = i

  on_message-Kept : (m : Received (Message E.PublishPacket)) → Preserves I (on_message E m)
  unfolding on_message
  on_message-Kept (message (Message.publish p)) w i =
      write_to_stream-Kept E I S.client _ _ (remember-Kept (E.qos p) p w i)
  on_message-Kept (lagged n) w i = i
  on_message-Kept closed w i = i

  received_branch-Kept : (key : String) → Preserves I (received_branch E key)
  unfolding received_branch
  received_branch-Kept key w i = elim (Option-cases (BTreeMap.get key w.client.receivers)) [
    | inl e ↦ rw e i
    | inr (r, e) ↦ rw e (
        >>=-Preserves I (λ x. recv E r w) (on_message E) (λ x j. S.receives key r w e i)
          on_message-Kept w i)
  ]

  pub shutdown-Kept : Preserves I (shutdown E)
  unfolding shutdown
  shutdown-Kept w i = S.client w _ refl refl i

  outgoing-Kept : (ms : List (OutgoingMessage E)) (w : World E) → I w → I (set_outgoing E ms w)
  outgoing-Kept ms w i = S.client w _ refl refl i

  resend-Kept : (m : OutgoingMessage E) → Preserves I (resend E m)
  unfolding resend
  resend-Kept m =
      if-Preserves I (eqb m.counter 0) (pure tt) (write_to_stream E (Packet.publish m.packet))
        (pure-Preserves I tt) (write_to_stream-Kept E I S.client (Packet.publish m.packet))

  count_down-Kept :
      (before rest : List (OutgoingMessage E)) (m : OutgoingMessage E) (n : ℕ)
      → Preserves I (count_down E before m rest n)
  unfolding count_down
  count_down-Kept before rest m n =
      let m' : OutgoingMessage E = record m { counter = n } in
      let set = modify (set_outgoing E (before ++ m' ∷ rest)) in
      >>-Preserves I set (resend E m' >> pure m') (λ w i. outgoing-Kept (before ++ m' ∷ rest) w i)
        (>>-Preserves I (resend E m') (pure m') (resend-Kept m') (pure-Preserves I m'))

  resend_each-Kept :
      (before rest : List (OutgoingMessage E)) → Preserves I (resend_each E before rest)
  unfolding resend_each
  resend_each-Kept before [] w i = i
  resend_each-Kept before (m ∷ rest) w i =
      let step = lift E (decrement E m.counter) >>= count_down E before m rest in
      >>=-Preserves I step (λ m'. resend_each E (before ++ m' ∷ []) rest)
        (>>=-Preserves I (lift E (decrement E m.counter)) (count_down E before m rest) (λ w' i'. i')
          (count_down-Kept before rest m))
        (λ m'. resend_each-Kept (before ++ m' ∷ []) rest) w i

  tick_branch-Kept : Preserves I (tick_branch E)
  unfolding tick_branch
  tick_branch-Kept =
      let last = modify (λ w. set_outgoing E (retain (unexpired E) w.client.outgoing_messages) w) in
      >>=-Preserves I (gets (λ w. w.client.outgoing_messages)) (λ ms. resend_each E [] ms >> last)
        (gets-Preserves I (λ w. w.client.outgoing_messages))
        (λ ms.
          >>-Preserves I (resend_each E [] ms) last (resend_each-Kept [] ms)
            (λ w i. outgoing-Kept (retain (unexpired E) w.client.outgoing_messages) w i))

  pub received_from-Kept : (o : Option String) → Preserves I (received_from E o)
  unfolding received_from
  received_from-Kept none w i = i
  received_from-Kept (some key) w i = received_branch-Kept key w i

  pub tick_over-Kept : (ms : List (OutgoingMessage E)) → Preserves I (tick_over E ms)
  unfolding tick_over
  tick_over-Kept [] w i = i
  tick_over-Kept (m ∷ ms) w i = tick_branch-Kept w i
