-- ===== src/Client/Connection/Forward.antt =====
-- From a publisher to a subscriber's stream, through src/topics.rs and src/tcp_handling.rs.
use mcloudtt.Prelude.{
  ℕ, String, some, ◌≡◌, ◌≤◌, ap, sym, ◌∙◌, List, [], ◌∷◌, ◌++◌, append-nil, append_assoc, true,
  arith, replicate, length, length-map, eq_refl, map,
}
use mathlib.Core.Path.{subst}
use mcloudtt.Error.{ok, >>=-eq-ok}
use mcloudtt.BTreeMap
use mcloudtt.BTreeMap.{BTreeMap, get}
use mcloudtt.Broadcast.{View, IsBroadcast}
use mcloudtt.Mqtt.{Packet}
use mcloudtt.Env.{Env, Message, IsStream}
use mcloudtt.Topics
use mcloudtt.Topics.{Shared}
use mcloudtt.Topics.Retained.{publish_all}
use mcloudtt.Topics.History.{messages_on, packets_on, messages_on-map, unread-publish_all}
use mcloudtt.Client.State.{World}
use mcloudtt.Client.Invariant.{IsWorld}
use mcloudtt.Client.Invariant.Loop.{published}
use mcloudtt.Client.Invariant.Loop.{iterate-IsWorld}
use mcloudtt.Client.Connection.{
  received, key_of, poll, received_branch, received_from, received_ready, branch, iterate, lift,
  sleep_secs, handle_raw_tcp_stream,
}
use mcloudtt.Client.Connection.Receive.{received_branch-ok}

module _ (E : Env) where
  -- Their bytes, one after another.
  unfoldable pub stream_of : List E.PublishPacket → List ℕ
  stream_of [] = []
  stream_of (p ∷ ps) = E.encode_mqtt (Packet.publish p) ++ stream_of ps

module _ (E : Env) (V : View E.bus) (L : IsBroadcast E.bus V) where
  -- With one subscription the future is ready whenever there is a message.
  pub poll_single :
      (w : World E) (t : String) (r : E.Receiver) (m : Message E.PublishPacket)
      (ms : List (Message E.PublishPacket))
      → w.client.receivers ≡ (t, r) ∷ []
      → V.live r w.shared.hub ≡ true
      → V.unread r w.shared.hub ≡ m ∷ ms
      → poll E w ≡ some t
  unfolding poll key_of BTreeMap.find
  poll_single w t r m ms one live queue =
      let full = L.is_empty_iff r w.shared.hub live in ground (arith, full, one)

  pub publish_all-IsWorld :
      (ps : List E.PublishPacket) (w : World E)
      → IsWorld E V w
      → IsWorld E V (record w { shared = publish_all E ps w.shared })
  unfolding publish_all
  publish_all-IsWorld [] w i = i
  publish_all-IsWorld (p ∷ ps) w i =
      publish_all-IsWorld ps (record w { shared = (Topics.publish E p w.shared).1 })
        (published E V L p w i)

  pub get_single : (t : String) (r : E.Receiver) → get t ((t, r) ∷ []) ≡ some r
  unfolding get
  get_single t r = rw (eq_refl t)

  iterate-received :
      (addr : String) (t : String) (w w' : World E)
      → poll E w ≡ some t
      → iterate E addr received w ≡ (ok tt, w')
      → received_branch E t w ≡ (ok tt, w')
  unfolding iterate branch received_ready received_from
  iterate-received addr t w w' ready e =
      let (_, w₁, e₁, e₂) =
        >>=-eq-ok (lift E (sleep_secs E)) (λ _. branch E addr received) w tt w' e in
      let same : w ≡ w₁ = ap (λ x. x.1) e₁ in
      rw (ready, received_from) at
        (subst (λ x. branch E addr received x ≡ (ok tt, w')) (sym same) e₂)

  -- What is published while a client that has nothing to read does not look.
  pub queue-published :
      (ps : List E.PublishPacket) (t : String) (r : E.Receiver) (w : World E)
      → IsWorld E V w
      → w.client.receivers ≡ (t, r) ∷ []
      → V.unread r w.shared.hub ≡ []
      → V.missed r w.shared.hub ≡ 0
      → length (packets_on E t ps) ≤ 1024
      → (V.unread r (publish_all E ps w.shared).hub ≡ map Message.publish (packets_on E t ps))
        × (V.missed r (publish_all E ps w.shared).hub ≡ 0)
  queue-published ps t r w i one empty none_missed few =
      let reads = i.subscribed t r (rw one (get_single t r)) in
      let room : 1024 ≤ V.capacity reads.channel.sender =
        i.valid.roomy t reads.channel reads.found in
      let same = messages_on-map E t ps in
      let size = ap length same ∙ length-map (packets_on E t ps) Message.publish in
      let (queue, missed) =
        unread-publish_all E V L ps w.shared r t i.valid reads
          (rw (empty, reads.attached) (omega (arith, size))) in
      (queue ∙ ap (λ q. q ++ messages_on E t ps) empty ∙ same, missed ∙ none_missed)

  module _ (sent : E.Stream → List ℕ) (S : IsStream E.io sent) where
    -- A client is subscribed to one topic, in a world that keeps the invariant, has missed nothing,
    -- and has the given packets to read. If its loop takes a message that many times and still
    -- runs, the stream has got the bytes of exactly those packets, in order, and nothing is left to
    -- read.
    pub received-all :
        (ps : List E.PublishPacket) (addr t : String) (r : E.Receiver) (w w' : World E)
        → IsWorld E V w
        → w.client.receivers ≡ (t, r) ∷ []
        → V.missed r w.shared.hub ≡ 0
        → V.unread r w.shared.hub ≡ map Message.publish ps
        → handle_raw_tcp_stream E addr (replicate (length ps) received) w ≡ (ok tt, w')
        → (sent w'.stream ≡ sent w.stream ++ stream_of E ps) × (V.unread r w'.shared.hub ≡ [])
    unfolding handle_raw_tcp_stream stream_of
    received-all [] addr t r w w' i one missed queue e =
        rw (← ap (λ x. x.1) e) (sym (append-nil (sent w.stream)), queue)
    received-all (p ∷ ps) addr t r w w' i one missed queue e =
        let (_, w₁, e₁, e₂) =
          >>=-eq-ok (iterate E addr received)
            (λ _. handle_raw_tcp_stream E addr (replicate (length ps) received)) w tt w' e in
        let entry : get t w.client.receivers ≡ some r = rw one (get_single t r) in
        let live = (i.subscribed t r entry).live in
        let ready = poll_single w t r (Message.publish p) (map Message.publish ps) one live queue in
        let (bytes, receivers, rest, missed', _) =
          received_branch-ok E V L sent S t r p (map Message.publish ps) w w₁ entry live missed
            queue (iterate-received addr t w w₁ ready e₁) in
        let i₁ : IsWorld E V w₁ =
          subst (λ x. IsWorld E V x.1) e₁ (iterate-IsWorld E V L addr received w i) in
        let (bytes', empty) = received-all ps addr t r w₁ w' i₁ (receivers ∙ one) missed' rest e₂ in
        (
          bytes'
              ∙ ap (λ x. x ++ stream_of E ps) bytes
              ∙ append_assoc (sent w.stream) (E.encode_mqtt (Packet.publish p)) (stream_of E ps),
          empty,
        )

    -- A client subscribed to one topic, with nothing to read; other clients publish; then the
    -- client's loop takes a message as often as there were packets of the topic. Its stream has got
    -- exactly those packets, in the order of publication.
    pub published-forwarded :
        (ps : List E.PublishPacket) (addr t : String) (r : E.Receiver) (w w' : World E)
        → IsWorld E V w
        → w.client.receivers ≡ (t, r) ∷ []
        → V.unread r w.shared.hub ≡ []
        → V.missed r w.shared.hub ≡ 0
        → length (packets_on E t ps) ≤ 1024
        → handle_raw_tcp_stream E addr
            (replicate (length (packets_on E t ps)) received)
            (record w { shared = publish_all E ps w.shared })
          ≡ (ok tt, w')
        → (sent w'.stream ≡ sent w.stream ++ stream_of E (packets_on E t ps))
          × (V.unread r w'.shared.hub ≡ [])
    published-forwarded ps addr t r w w' i one empty none_missed few e =
        let (queue, missed) = queue-published ps t r w i one empty none_missed few in
        received-all (packets_on E t ps) addr t r (record w { shared = publish_all E ps w.shared })
          w' (publish_all-IsWorld ps w i) one missed queue e
