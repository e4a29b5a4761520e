-- ===== src/Client/Connection/Receive.antt =====
-- From a receiver to the client's stream (`ReceiverFuture` and its branch in src/tcp_handling.rs).
use mcloudtt.Prelude.{
  ℕ, String, Option, none, some, ◌≡◌, ◌≢◌, refl, ap, sym, ◌∙◌, List, [], ◌∷◌, ◌++◌, append-nil,
  true, false, not, Option-cases, inl, inr, arith, unwrap_or,
}
use mcloudtt.Error.{ok, panic}
use mcloudtt.BTreeMap
use mcloudtt.BTreeMap.{get}
use mcloudtt.BTreeMap.Laws.{find-found, find-least, find-none}
use mcloudtt.Prelude.Order.{str_ltb}
use mcloudtt.Broadcast.{View, IsBroadcast, Received, message, lagged, closed}
use mcloudtt.Mqtt.{Packet, QoS, at_most_once, at_least_once, exactly_once}
use mcloudtt.Env.{Env, Message, IsStream}
use mcloudtt.Client.State.{World, OutgoingMessage, write_to_stream, written}
use mcloudtt.Client.Written.{write_to_stream-ok}
use mcloudtt.Client.Invariant.{IsWorld}
use mcloudtt.Client.Connection.{
  has_message, key_of, poll, recv, remember, on_message, received_branch, received_from,
  received_ready,
}

module _ (E : Env) where
  key_of-some :
      (o : Option (String × E.Receiver)) (key : String)
      → key_of E o ≡ some key
      → (r : E.Receiver) × (o ≡ some (key, r))
  unfolding key_of
  key_of-some none key e = cc
  key_of-some (some (k, r)) key e = (r, ground arith)

  written-not_panic : (o : Option String) → written E o ≢ panic
  unfolding written
  written-not_panic none e = cc
  written-not_panic (some t) e = cc

  on_message-not_panic :
      (m : Received (Message E.PublishPacket)) (w : World E) → (on_message E m w).0 ≢ panic
  unfolding on_message write_to_stream
  on_message-not_panic (message (Message.publish p)) w e = written-not_panic _ e
  on_message-not_panic (lagged n) w e = cc
  on_message-not_panic closed w e = cc

module _ (E : Env) where
  -- The specification: at QoS 1 the packet waits for its PUBACK, for its expiry interval or a second.
  unfoldable pub awaiting : QoS → E.PublishPacket → List (OutgoingMessage E)
  awaiting at_most_once p = []
  awaiting at_least_once p =
      record { packet = p; counter = unwrap_or (E.message_expiry_interval p) 1 } ∷ []
  awaiting exactly_once p = []

  remember-eq :
      (q : QoS) (p : E.PublishPacket) (w : World E)
      → ((remember E q p w).stream ≡ w.stream)
        × ((remember E q p w).client.receivers ≡ w.client.receivers)
        × ((remember E q p w).shared ≡ w.shared)
        × ((remember E q p w).client.outgoing_messages ≡ w.client.outgoing_messages ++ awaiting q p)
  unfolding remember awaiting
  remember-eq at_most_once p w = (refl, refl, refl, sym (append-nil w.client.outgoing_messages))
  remember-eq at_least_once p w = (refl, refl, refl, refl)
  remember-eq exactly_once p w = (refl, refl, refl, sym (append-nil w.client.outgoing_messages))

module _ (E : Env) (V : View E.bus) (L : IsBroadcast E.bus V) where
  -- In a world that keeps the invariant, a key that the future returns stands for a receiver that
  -- is live and has a message to read.
  pub poll-found :
      (w : World E) (key : String)
      → IsWorld E V w
      → poll E w ≡ some key
      → (r : E.Receiver) × (get key w.client.receivers ≡ some r)
        × (V.live r w.shared.hub ≡ true)
        × (V.unread r w.shared.hub ≢ [])
  unfolding poll
  poll-found w key i e =
      let (r, found) = key_of-some E (BTreeMap.find (has_message E w) w.client.receivers) key e in
      let (full, entry) = find-found (has_message E w) w.client.receivers (key, r) i.sorted found in
      let live = (i.subscribed key r entry).live in
      (r, entry, live, λ empty. ground (arith, full, (L.is_empty_iff r w.shared.hub live).1 empty))

  not_empty :
      (r : E.Receiver) (w : World E)
      → V.live r w.shared.hub ≡ true
      → not (E.bus.is_empty r w.shared.hub) ≡ false
      → V.unread r w.shared.hub ≡ []
  not_empty r w live e = (L.is_empty_iff r w.shared.hub live).0 (ground arith)

  -- What the future owes: it is pending while there is nothing to read, and else returns the least
  -- key whose receiver has something to read.
  abbrev pub Polled : World E → Option String → Type 0
  Polled w none =
      (f : String) (x : E.Receiver)
      → get f w.client.receivers ≡ some x
      → V.unread x w.shared.hub ≡ []
  Polled w (some key) =
      ((r : E.Receiver) × (get key w.client.receivers ≡ some r)
        × (V.live r w.shared.hub ≡ true)
        × (V.unread r w.shared.hub ≢ []))
      × ((f : String) (x : E.Receiver)
          → get f w.client.receivers ≡ some x
          → str_ltb f key ≡ true
          → V.unread x w.shared.hub ≡ [])

  -- In a world that keeps the invariant, the future is pending only while no receiver of the client
  -- has anything to read; else it returns a key whose receiver is live and has something to read,
  -- while no receiver of a smaller key has.
  pub poll-Polled : (w : World E) → IsWorld E V w → Polled w (poll E w)
  unfolding poll key_of
  poll-Polled w i = elim (Option-cases (BTreeMap.find (has_message E w) w.client.receivers)) [
    | inl e ↦ rw e (λ f x entry.
        not_empty x w (i.subscribed f x entry).live
          (find-none (has_message E w) w.client.receivers f x e entry))
    | inr ((key, r), e) ↦
        let ready : poll E w ≡ some key = rw e refl in
        rw e (
          poll-found w key i ready,
          λ f x entry lt.
              not_empty x w (i.subscribed f x entry).live
                (find-least (has_message E w) w.client.receivers (key, r) f x i.sorted e entry lt),
        )
  ]

  -- In a world that keeps the invariant, taking a message never panics: the key that the future
  -- returns is a key of the map, so the `unwrap` on it succeeds.
  pub received_ready-not_panic : (w : World E) → IsWorld E V w → (received_ready E w).0 ≢ panic
  unfolding received_ready received_from received_branch recv
  received_ready-not_panic w i e = elim (Option-cases (poll E w)) [
    | inl idle ↦ ground arith
    | inr (key, ready) ↦
        let (r, entry, _, _) = poll-found w key i ready in
        on_message-not_panic E _ _ (rw (ready, received_from, entry) at e)
  ]

  -- A live receiver that missed nothing has a packet at the front. When the branch that takes it
  -- returns, the stream has got the packet, the receiver has the rest to read and has missed
  -- nothing, the receivers are the same, and at QoS 1 the packet waits for its PUBACK, behind the
  -- others, for its expiry interval or one second; at QoS 0 or 2 it does not wait.
  pub received_branch-ok :
      (sent : E.Stream → List ℕ) (S : IsStream E.io sent) (key : String) (r : E.Receiver)
      (p : E.PublishPacket) (ms : List (Message E.PublishPacket)) (w w' : World E)
      → get key w.client.receivers ≡ some r
      → V.live r w.shared.hub ≡ true
      → V.missed r w.shared.hub ≡ 0
      → V.unread r w.shared.hub ≡ Message.publish p ∷ ms
      → received_branch E key w ≡ (ok tt, w')
      → (sent w'.stream ≡ sent w.stream ++ E.encode_mqtt (Packet.publish p))
        × (w'.client.receivers ≡ w.client.receivers)
        × (V.unread r w'.shared.hub ≡ ms)
        × (V.missed r w'.shared.hub ≡ 0)
        × (w'.client.outgoing_messages ≡ w.client.outgoing_messages ++ awaiting E (E.qos p) p)
  unfolding received_branch recv on_message
  received_branch-ok sent S key r p ms w w' entry live none_missed queue e =
      let (now, rest, missed) =
        L.recv_message r w.shared.hub (Message.publish p) ms live none_missed queue in
      let w₁ : World E = record w {
        shared = record w.shared { hub = (E.bus.recv r w.shared.hub).1 };
      } in
      let e₁ : write_to_stream E (Packet.publish p) (remember E (E.qos p) p w₁) ≡ (ok tt, w') =
        rw (entry, now) at e in
      let (bytes, kept) =
        write_to_stream-ok E sent S (Packet.publish p) (remember E (E.qos p) p w₁) w' e₁ in
      let (stream, receivers, shared, list) = remember-eq E (E.qos p) p w₁ in
      (
        bytes ∙ ap (λ x. sent x ++ E.encode_mqtt (Packet.publish p)) stream,
        ap (λ x. x.client.receivers) kept ∙ receivers,
        ap (λ x. V.unread r x.shared.hub) kept ∙ ap (λ x. V.unread r x.hub) shared ∙ rest,
        ap (λ x. V.missed r x.shared.hub) kept ∙ ap (λ x. V.missed r x.hub) shared ∙ missed,
        ap (λ x. x.client.outgoing_messages) kept ∙ list,
      )

  -- The receivers of others, and what else is shared, are as after the `recv`.
  pub received_branch-shared :
      (sent : E.Stream → List ℕ) (S : IsStream E.io sent) (key : String) (r : E.Receiver)
      (p : E.PublishPacket) (ms : List (Message E.PublishPacket)) (w w' : World E)
      → get key w.client.receivers ≡ some r
      → V.live r w.shared.hub ≡ true
      → V.missed r w.shared.hub ≡ 0
      → V.unread r w.shared.hub ≡ Message.publish p ∷ ms
      → received_branch E key w ≡ (ok tt, w')
      → w'.shared.hub ≡ (E.bus.recv r w.shared.hub).1
  unfolding received_branch recv on_message
  received_branch-shared sent S key r p ms w w' entry live none_missed queue e =
      let (now, _, _) =
        L.recv_message r w.shared.hub (Message.publish p) ms live none_missed queue in
      let w₁ : World E = record w {
        shared = record w.shared { hub = (E.bus.recv r w.shared.hub).1 };
      } in
      let w₂ = remember E (E.qos p) p w₁ in
      let e₁ : write_to_stream E (Packet.publish p) w₂ ≡ (ok tt, w') = rw (entry, now) at e in
      let (_, kept) = write_to_stream-ok E sent S (Packet.publish p) w₂ w' e₁ in
      let (_, _, shared, _) = remember-eq E (E.qos p) p w₁ in
      ap (λ x. x.shared.hub) kept ∙ ap (λ x. x.hub) shared
