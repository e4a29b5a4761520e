-- ===== src/Client/Connection/Drained.antt =====
-- The loop of a client with any number of subscriptions (src/tcp_handling.rs), while nothing new is
-- published, on a stream that stays connected.
use mcloudtt.Prelude.{
  ℕ, zero, suc, ◌<◌, String, some, ◌≡◌, ◌≢◌, ◌↔◌, ◌==◌, refl, ap, sym, ◌∙◌, List, [], ◌∷◌, ◌++◌,
  append-nil, append_assoc, length, inl, inr, Bool-cases, List-cases, arith, map, replicate, eq_iff,
}
use mcloudtt.Error.{ok}
use mcloudtt.BTreeMap.{BTreeMap, get}
use mcloudtt.Broadcast.{View, IsBroadcast}
use mcloudtt.Mqtt.{Packet}
use mcloudtt.Env.{Env, Message, IsStream, IsConnected}
use mcloudtt.Topics.Readers.{Reads-unique}
use mcloudtt.Client.State.{World}
use mcloudtt.Client.Written.{returned}
use mcloudtt.Client.Invariant.{IsWorld}
use mcloudtt.Client.Invariant.Loop.{iterate-IsWorld}
use mcloudtt.Client.Connection.{
  received, poll, key_of, received_branch, iterate, handle_raw_tcp_stream,
}
use mcloudtt.Client.Connection.Receive.{received_branch-ok, received_branch-shared}
use mcloudtt.Client.Connection.Arrive.{iterate-ready, received_branch-returns}
use mcloudtt.Client.Connection.Forward.{stream_of}
use mcloudtt.Client.Connection.Queues.{
  Queues, set_queue, total, bytes_in, Front, Matches, Front-cases,
}

module _ (E : Env) where
  total-entry :
      (q : Queues E) (m : BTreeMap E.Receiver) (f : String) (r : E.Receiver)
      → total E q m ≡ 0
      → get f m ≡ some r
      → q f ≡ []
  unfolding total get
  total-entry q [] f r z e = cc
  total-entry q ((k, x) ∷ m) f r z e = elim (Bool-cases (f == k)) [
    | inl here ↦
        let same = (eq_iff f k).0 here in
        elim (List-cases (q f)) [
          | inl empty ↦ empty
          | inr (p, ps, full) ↦
              absurd (omega (arith, z, ap length full, ap (λ g. length (q g)) same))
        ]
    | inr there ↦ total-entry q m f r (omega (arith, z)) (rw there at e)
  ]

  total-bytes_in : (q : Queues E) (m : BTreeMap E.Receiver) → total E q m ≡ 0 → bytes_in E q m ≡ []
  unfolding total bytes_in stream_of
  total-bytes_in q [] z = refl
  total-bytes_in q ((k, x) ∷ m) z = elim (List-cases (q k)) [
    | inl empty ↦ rw empty (total-bytes_in q m (omega (arith, z)))
    | inr (p, ps, full) ↦ absurd (omega (arith, z, ap length full))
  ]

module _ (E : Env) (V : View E.bus) where
  -- Each receiver of the client has missed nothing, and has the packets of its queue to read.
  abbrev pub Pending : World E → Queues E → Type 0
  Pending w q =
      (f : String) (r : E.Receiver)
      → get f w.client.receivers ≡ some r
      → (V.missed r w.shared.hub ≡ 0) × (V.unread r w.shared.hub ≡ map Message.publish (q f))

module _ (E : Env) (V : View E.bus) (L : IsBroadcast E.bus V) where
  map-nil : (ps : List E.PublishPacket) → (map Message.publish ps ≡ []) ↔ (ps ≡ [])
  map-nil [] = (λ e. refl, λ e. refl)
  map-nil (p ∷ ps) = (λ e. cc, λ e. cc)

  Pending-Matches :
      (w : World E) (q : Queues E)
      → IsWorld E V w
      → Pending E V w q
      → Matches E w q w.client.receivers
  Pending-Matches w q i h f r e =
      let empty = L.is_empty_iff r w.shared.hub (i.subscribed f r e).live in
      let queue = (h f r e).1 in
      (λ x. (map-nil (q f)).0 (sym queue ∙ empty.0 x), λ x. empty.1 (queue ∙ (map-nil (q f)).1 x))

  -- A packet is taken from one receiver.
  Pending-recv :
      (q : Queues E) (w w' : World E) (f : String) (r : E.Receiver) (ps : List E.PublishPacket)
      → IsWorld E V w
      → get f w.client.receivers ≡ some r
      → w'.client.receivers ≡ w.client.receivers
      → w'.shared.hub ≡ (E.bus.recv r w.shared.hub).1
      → V.missed r w'.shared.hub ≡ 0
      → V.unread r w'.shared.hub ≡ map Message.publish ps
      → Pending E V w q
      → Pending E V w' (set_queue E f ps q)
  Pending-recv q w w' f r ps i entry kept hub missed queue pending g x e =
      let e' : get g w.client.receivers ≡ some x = rw kept at e in
      elim (Bool-cases (g == f)) [
        | inl here ↦
            let found : some r ≡ some x =
              sym entry ∙ ap (λ k. get k w.client.receivers) (sym ((eq_iff g f).0 here)) ∙ e' in
            let same : r ≡ x = cc in
            rw here (
              ap (λ y. V.missed y w'.shared.hub) (sym same) ∙ missed,
              ap (λ y. V.unread y w'.shared.hub) (sym same) ∙ queue,
            )
        | inr there ↦
            let mine = i.subscribed f r entry in
            let other = i.subscribed g x e' in
            let ne : x ≢ r = λ same.
              let at_f = Reads-unique E V L w.shared r g f i.valid (rw same at other) mine in
              ground (arith, eq_iff g f) in
            let (_, unread, skipped) = L.recv_keeps r w.shared.hub x mine.live other.live ne in
            let (before, old) = pending g x e' in
            rw there (ap (V.missed x) hub ∙ skipped ∙ before, ap (V.unread x) hub ∙ unread ∙ old)
      ]

  module _ (C : IsConnected E.io) (sent : E.Stream → List ℕ) (S : IsStream E.io sent) where
    -- One turn of the loop, when there is something to read.
    take-Front :
        (addr : String) (q : Queues E) (w : World E) (x : Front E w q w.client.receivers)
        → E.settings.general.timeout < 65534
        → IsWorld E V w
        → Pending E V w q
        → let w' = (iterate E addr received w).1 in
          (iterate E addr received w ≡ (ok tt, w'))
          × (w'.client.receivers ≡ w.client.receivers)
          × (sent w'.stream ≡ sent w.stream ++ E.encode_mqtt (Packet.publish x.packet))
          × Pending E V w' (set_queue E x.key x.rest q)
    unfolding poll key_of
    take-Front addr q w x h i pending =
        let r = x.receiver in
        let w' = (received_branch E x.key w).1 in
        let live = (i.subscribed x.key r x.entry).live in
        let (none_missed, queue) = pending x.key r x.entry in
        let ps = map Message.publish x.rest in
        let front : V.unread r w.shared.hub ≡ Message.publish x.packet ∷ ps =
          queue ∙ ap (map Message.publish) x.queue in
        let ready : poll E w ≡ some x.key = rw x.found refl in
        let e =
          returned E (received_branch E x.key) w (
            received_branch-returns E V L C x.key r x.packet ps w x.entry live none_missed front) in
        let (bytes, receivers, unread, missed, _) =
          received_branch-ok E V L sent S x.key r x.packet ps w w' x.entry live none_missed front
            e in
        let hub =
          received_branch-shared E V L sent S x.key r x.packet ps w w' x.entry live none_missed
            front e in
        rw (iterate-ready E addr x.key w h ready) (
          e,
          receivers,
          bytes,
          Pending-recv q w w' x.key r x.rest i x.entry receivers hub missed unread pending,
        )

    drained :
        (n : ℕ) (addr : String) (q : Queues E) (w : World E)
        → E.settings.general.timeout < 65534
        → IsWorld E V w
        → Pending E V w q
        → total E q w.client.receivers ≡ n
        → let x = handle_raw_tcp_stream E addr (replicate n received) w in
          (x.0 ≡ ok tt)
          × (sent x.1.stream ≡ sent w.stream ++ bytes_in E q w.client.receivers)
          × ((f : String) (r : E.Receiver)
              → get f x.1.client.receivers ≡ some r
              → V.unread r x.1.shared.hub ≡ [])
    unfolding handle_raw_tcp_stream
    drained zero addr q w h i pending count = (
      refl,
      sym (
          ap (◌++◌ (sent w.stream)) (total-bytes_in E q w.client.receivers count)
          ∙ append-nil (sent w.stream)),
      λ f r e.
          (pending f r e).1
          ∙ ap (map Message.publish) (total-entry E q w.client.receivers f r count e),
    )
    drained (suc n) addr q w h i pending count =
        elim (Front-cases E w q w.client.receivers i.sorted (Pending-Matches w q i pending)) [
          | inl none_left ↦ absurd (omega (arith, none_left, count))
          | inr x ↦
              let w' = (iterate E addr received w).1 in
              let (e, receivers, bytes, pending') = take-Front addr q w x h i pending in
              let q' = set_queue E x.key x.rest q in
              let left : total E q' w'.client.receivers ≡ n =
                ap (total E q') receivers ∙ omega (arith, x.one_less, count) in
              let (e', bytes', done) =
                drained n addr q' w' h (iterate-IsWorld E V L addr received w i) pending' left in
              let both : sent w'.stream ++ bytes_in E q' w'.client.receivers
                  ≡ sent w.stream ++ bytes_in E q w.client.receivers =
                ap (λ m. sent w'.stream ++ bytes_in E q' m) receivers
                ∙ ap (λ b. b ++ bytes_in E q' w.client.receivers) bytes
                ∙ append_assoc (sent w.stream) (E.encode_mqtt (Packet.publish x.packet))
                    (bytes_in E q' w.client.receivers)
                ∙ ap (◌++◌ (sent w.stream)) (sym x.bytes) in
              rw e (e', bytes' ∙ both, done)
        ]

    -- A client with any number of subscriptions on a stream that stays connected, in a world that
    -- keeps the invariant, with a timeout of at most 65533 seconds. Each of its receivers has
    -- missed nothing, and has the packets of a queue to read. When the loop has taken a message as
    -- often as there are packets in all queues, and nothing has been published meanwhile, it still
    -- runs, the stream has got exactly these packets, topic by topic in the order of the topics'
    -- names and each topic's in the order of its queue, and no receiver has anything left to read.
    pub queues-drained :
        (addr : String) (q : Queues E) (w : World E)
        → E.settings.general.timeout < 65534
        → IsWorld E V w
        → Pending E V w q
        → let x =
            handle_raw_tcp_stream E addr (replicate (total E q w.client.receivers) received) w in
          (x.0 ≡ ok tt)
          × (sent x.1.stream ≡ sent w.stream ++ bytes_in E q w.client.receivers)
          × ((f : String) (r : E.Receiver)
              → get f x.1.client.receivers ≡ some r
              → V.unread r x.1.shared.hub ≡ [])
    queues-drained addr q w h i pending =
        drained (total E q w.client.receivers) addr q w h i pending refl
