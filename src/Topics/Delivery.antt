-- ===== src/Topics/Delivery.antt =====
-- Who reads what is published (src/topics.rs), in terms of the promises of the broadcast channels.
use mcloudtt.Prelude.{
  last, ◌+◌, ◌-◌, length, String, some, ◌≡◌, ◌≢◌, ◌==◌, if◌then◌else◌, arith, eq_iff, Option-cases,
  inl, inr, refl, Bool, true, false, Bool-cases, ap, sym, ◌∙◌, [], ◌∷◌, ◌++◌,
}
use mcloudtt.Error.{ok, err, panic, Result}
use mcloudtt.BTreeMap.{BTreeMap, get, insert}
use mcloudtt.BTreeMap.Laws.{get-insert, get-insert_self}
use mcloudtt.Broadcast.{View, IsBroadcast, Keeps, Fresh}
use mcloudtt.Env.{Env, publish as publish_message}
use mcloudtt.Topics.{Shared, Channel, new, subscribe, publish}
use mcloudtt.Topics.Runs.{
  add_missing, subscribe_existing, subscribe_missing, publish_existing, publish_missing, send_hub,
}
use mcloudtt.Topics.Invariant.{IsValid}

module _ (E : Env) (V : View E.bus) where
  -- A receiver that is not dropped reads a topic: it is one of the topic's channel.
  pub record Reads (r : E.Receiver) (t : String) (s : Shared E) : Type 0 where
    pub channel : Channel E
    pub found : get t s.topics ≡ some channel
    pub attached : V.sender_of r ≡ channel.sender
    pub live : V.live r s.hub ≡ true

  -- What `subscribe` promises of its result.
  abbrev pub Subscribed : String → Shared E → Result E.Receiver × Shared E → Type 0
  Subscribed name s (ok r, s') = Reads r name s' × Fresh E.bus V r (V.sender_of r) s.hub s'.hub
  Subscribed name s (err e, s') = ⊥
  Subscribed name s (panic, s') = ⊥

-- Setting a retained message leaves every topic its channel.
get_retaining :
    (E : Env) (b : Bool) (m : BTreeMap (Channel E)) (name t : String) (c d x : Channel E)
    → get name m ≡ some c
    → d.sender ≡ c.sender
    → get t m ≡ some x
    → (y : Channel E) × (get t (if b then insert name d m else m) ≡ some y) × (y.sender ≡ x.sender)
get_retaining E false m name t c d x e same found = (x, found, refl)
get_retaining E true m name t c d x e same found = elim (Bool-cases (t == name)) [
  | inl here ↦ (d, ground (arith, get-insert name t d m), ground (arith, (eq_iff t name).0 here))
  | inr there ↦ (x, ground (arith, get-insert name t d m), refl)
]

module _ (E : Env) (V : View E.bus) (L : IsBroadcast E.bus V) where
  -- Making a topic and sending to it disturbs no reader.
  new_topic-Keeps :
      (p : E.PublishPacket) (s : Shared E) (r : E.Receiver) (t : String)
      → IsValid E V s
      → Reads E V r t s
      → let (sender, receiver, h) = E.bus.channel 1024 s.hub in
        Keeps E.bus V r s.hub (send_hub E sender p (E.bus.drop_receiver receiver h))
  new_topic-Keeps p s r t v d =
      let (sender, receiver, h) = E.bus.channel 1024 s.hub in
      let fresh = L.channel_fresh 1024 s.hub in
      let made = L.channel_keeps 1024 s.hub r d.live in
      let other : r ≢ receiver = λ e. ground (arith, ap (λ x. V.live x s.hub) e, fresh, d.live) in
      let live : V.live r h ≡ true = made.0 ∙ d.live in
      let dropped = L.drop_receiver_keeps receiver h r fresh.1 live other in
      let apart : V.sender_of r ≢ sender = λ e. ground (
        arith,
        v.known t d.channel d.found,
        L.channel_new 1024 s.hub,
        d.attached,
        ap (λ x. V.known x s.hub) (sym d.attached ∙ e),
      ) in
      let sent =
        L.send_keeps sender (publish_message p) (E.bus.drop_receiver receiver h) r
          (dropped.0 ∙ live) apart in
      (sent.0 ∙ dropped.0 ∙ made.0, sent.1 ∙ dropped.1 ∙ made.1, sent.2 ∙ dropped.2 ∙ made.2)

  -- A reader of the packet's topic has to read the packet behind what it had not read, of which a
  -- full channel has lost the oldest.
  pub publish-delivers :
      (p : E.PublishPacket) (s : Shared E) (r : E.Receiver)
      → Reads E V r (E.topic_name p) s
      → V.unread r (publish E p s).1.hub
        ≡ last (V.capacity (V.sender_of r)) (V.unread r s.hub ++ publish_message p ∷ [])
  publish-delivers p s r d =
      rw (publish_existing E p s d.channel d.found, d.attached)
        (L.send_delivers d.channel.sender (publish_message p) s.hub r d.live d.attached).1

  -- What it misses are the messages that the channel had no room for.
  pub publish-missed :
      (p : E.PublishPacket) (s : Shared E) (r : E.Receiver)
      → Reads E V r (E.topic_name p) s
      → V.missed r (publish E p s).1.hub
        ≡ V.missed r s.hub + (length (V.unread r s.hub) + 1 - V.capacity (V.sender_of r))
  publish-missed p s r d =
      rw (publish_existing E p s d.channel d.found, d.attached)
        (L.send_delivers d.channel.sender (publish_message p) s.hub r d.live d.attached).2

  -- In valid topics, publishing changes nothing for a reader of another topic: neither that it is
  -- live, nor what it has to read, nor what it has missed.
  pub publish-Keeps_others :
      (p : E.PublishPacket) (s : Shared E) (r : E.Receiver) (t : String)
      → IsValid E V s
      → Reads E V r t s
      → t ≢ E.topic_name p
      → Keeps E.bus V r s.hub (publish E p s).1.hub
  publish-Keeps_others p s r t v d ne = elim (Option-cases (get (E.topic_name p) s.topics)) [
    | inl e ↦ rw (publish_missing E p s e) (new_topic-Keeps p s r t v d)
    | inr (c, e) ↦ rw (publish_existing E p s c e) (
        L.send_keeps c.sender (publish_message p) s.hub r d.live (λ same.
          ne (v.distinct t (E.topic_name p) d.channel c d.found e (sym d.attached ∙ same))))
  ]

  -- Readers stay readers.
  pub publish-Reads :
      (p : E.PublishPacket) (s : Shared E) (r : E.Receiver) (t : String)
      → IsValid E V s
      → Reads E V r t s
      → Reads E V r t (publish E p s).1
  unfolding new
  publish-Reads p s r t v d = elim (Option-cases (get (E.topic_name p) s.topics)) [
    | inl e ↦ rw (publish_missing E p s e) (
        let (sender, receiver, h) = E.bus.channel 1024 s.hub in
        let m = insert (E.topic_name p) (new E sender) s.topics in
        let (y, found, same) =
          get_retaining E (E.retain p) m (E.topic_name p) t (new E sender)
            (record { sender = sender; retained_message = some p }) d.channel
            (get-insert_self (E.topic_name p) (new E sender) s.topics) refl
            (ground (
              arith,
              get-insert (E.topic_name p) t (new E sender) s.topics,
              eq_iff t (E.topic_name p),
              d.found,
            )) in
        record {
          channel = y;
          found = found;
          attached = d.attached ∙ sym same;
          live = (new_topic-Keeps p s r t v d).0 ∙ d.live;
        })
    | inr (c, e) ↦ rw (publish_existing E p s c e) (
        let (y, found, same) =
          get_retaining E (E.retain p) s.topics (E.topic_name p) t c
            (record c { retained_message = some p }) d.channel e refl d.found in
        record {
          channel = y;
          found = found;
          attached = d.attached ∙ sym same;
          live = L.send_live c.sender (publish_message p) s.hub r ∙ d.live;
        })
  ]

  -- In valid topics a subscription returns `Ok`, whether the topic exists or not, with a receiver
  -- that did not exist before, reads the topic, and has nothing to read and nothing missed.
  pub subscribe-Subscribed :
      (name : String) (s : Shared E) → IsValid E V s → Subscribed E V name s (subscribe E name s)
  unfolding new
  subscribe-Subscribed name s v = elim (Option-cases (get name s.topics)) [
    | inl e ↦
        let (sender, receiver, h) = E.bus.channel 1024 s.hub in
        let fresh = L.channel_fresh 1024 s.hub in
        rw (subscribe_missing E name s e, add_missing E name s e)
          (
            record {
              channel = new E sender;
              found = get-insert_self name (new E sender) s.topics;
              attached = fresh.2;
              live = fresh.1;
            },
            (fresh.0, fresh.1, refl, fresh.3, fresh.4),
          )
    | inr (c, e) ↦
        let fresh = L.subscribe_fresh c.sender s.hub (v.known name c e) in
        rw (subscribe_existing E name s c e) (
          record { channel = c; found = e; attached = fresh.2; live = fresh.1 },
          (fresh.0, fresh.1, refl, fresh.3, fresh.4),
        )
  ]
