-- ===== src/Topics/Invariant.antt =====
-- The invariant of the topics (src/topics.rs) and the hub.
use mcloudtt.Prelude.{
  String, some, ◌≡◌, ◌≤◌, if◌then◌else◌, arith, eq_iff, Option-cases, inl, inr, refl, Bool, true,
  false, sym, ◌∙◌,
}
use mcloudtt.BTreeMap.{get, insert}
use mcloudtt.BTreeMap.Laws.{get-insert, get-insert_self, insert-IsSorted, IsSorted}
use mcloudtt.Broadcast.{View, IsBroadcast}
use mcloudtt.Env.{Env, publish as publish_message}
use mcloudtt.Topics.{Shared, Channel, new, add, subscribe, publish}
use mcloudtt.Topics.Runs.{
  add_missing, add_existing, subscribe_existing, subscribe_missing, publish_existing,
  publish_missing, send_hub,
}

module _ (E : Env) (V : View E.bus) where
  -- Every topic has a channel of its own, with room for 1024 messages.
  pub record IsValid (s : Shared E) : Type 0 where
    pub sorted : IsSorted s.topics
    pub known :
        (t : String) (c : Channel E) → get t s.topics ≡ some c → V.known c.sender s.hub ≡ true
    pub roomy : (t : String) (c : Channel E) → get t s.topics ≡ some c → 1024 ≤ V.capacity c.sender
    pub distinct :
        (t u : String) (c d : Channel E)
        → get t s.topics ≡ some c
        → get u s.topics ≡ some d
        → c.sender ≡ d.sender
        → t ≡ u

  -- The hub still knows the channels of the topics.
  abbrev pub KeepsKnown : E.Hub → E.Hub → Type 0
  KeepsKnown h h' = (x : E.Sender) → V.known x h ≡ true → V.known x h' ≡ true

  pub hub-IsValid :
      (s : Shared E) (h : E.Hub) → KeepsKnown s.hub h → IsValid s → IsValid (record s { hub = h })
  hub-IsValid s h k v = record {
    sorted = v.sorted;
    known = λ t c e. k c.sender (v.known t c e);
    roomy = v.roomy;
    distinct = v.distinct;
  }

  -- An entry whose sender no other topic has may be set.
  set-IsValid :
      (s : Shared E) (name : String) (c : Channel E)
      → V.known c.sender s.hub ≡ true
      → 1024 ≤ V.capacity c.sender
      → ((t : String) (d : Channel E) → get t s.topics ≡ some d → c.sender ≡ d.sender → name ≡ t)
      → IsValid s
      → IsValid (record s { topics = insert name c s.topics })
  set-IsValid s name c k room only v = record {
    sorted = insert-IsSorted name c s.topics v.sorted;
    known = λ t d e. ground (arith, get-insert name t c s.topics, v.known t d);
    roomy = λ t d e. ground (arith, get-insert name t c s.topics, v.roomy t d);
    distinct = λ t u d d' e e' same. ground (
      arith,
      get-insert name t c s.topics,
      get-insert name u c s.topics,
      eq_iff t name,
      eq_iff u name,
      only t d,
      only u d',
      v.distinct t u d d',
    );
  }

  -- The retained message of an entry may be set, or not.
  pub set_retained-IsValid :
      (b : Bool) (s : Shared E) (name : String) (c d : Channel E)
      → get name s.topics ≡ some c
      → d.sender ≡ c.sender
      → IsValid s
      → IsValid (record s { topics = if b then insert name d s.topics else s.topics })
  set_retained-IsValid true s name c d e same v =
      set-IsValid s name d (rw same (v.known name c e)) (rw same (v.roomy name c e))
        (λ t x e' same'. v.distinct name t c x e e' (sym same ∙ same')) v
  set_retained-IsValid false s name c d e same v = v

module _ (E : Env) (V : View E.bus) (L : IsBroadcast E.bus V) where
  new-sender : (x : E.Sender) → x ≡ (new E x).sender
  unfolding new
  new-sender x = refl

  channel-IsValid :
      (s : Shared E) (name : String)
      → IsValid E V s
      → let (sender, receiver, h) = E.bus.channel 1024 s.hub in
        IsValid E V (record { topics = insert name (new E sender) s.topics; hub = h })
  unfolding new
  channel-IsValid s name v =
      let (sender, receiver, h) = E.bus.channel 1024 s.hub in
      set-IsValid E V (record s { hub = h }) name (new E sender) (L.channel_known 1024 s.hub)
        (L.channel_capacity 1024 s.hub)
        (λ t d e' same. ground (arith, v.known t d e', L.channel_new 1024 s.hub))
        (hub-IsValid E V s h (L.channel_keeps_known 1024 s.hub) v)

  -- A channel replaces the one of its topic, whose sender is dropped.
  replace-IsValid :
      (name : String) (c : Channel E) (s : Shared E)
      → get name s.topics ≡ some c
      → IsValid E V s
      → let (sender, receiver, h) = E.bus.channel 1024 s.hub in
        IsValid E V (record {
          topics = insert name (new E sender) s.topics;
          hub = E.bus.drop_receiver receiver (E.bus.drop_sender c.sender h);
        })
  unfolding new
  replace-IsValid name c s e v =
      let (sender, receiver, h) = E.bus.channel 1024 s.hub in
      let i = channel-IsValid s name v in
      record {
        sorted = i.sorted;
        known = λ t d e'. L.drop_receiver_keeps_known receiver _ d.sender (
            L.drop_sender_keeps_known c.sender h d.sender (i.known t d e') (λ same. ground (
              arith,
              get-insert name t (new E sender) s.topics,
              eq_iff t name,
              v.known name c e,
              L.channel_new 1024 s.hub,
              v.distinct t name d c,
            )));
        roomy = i.roomy;
        distinct = i.distinct;
      }

  -- `add` keeps the topics valid, also when the topic exists.
  pub add-IsValid : (name : String) (s : Shared E) → IsValid E V s → IsValid E V (add E name s).1
  add-IsValid name s v = elim (Option-cases (get name s.topics)) [
    | inl e ↦ rw (add_missing E name s e) (channel-IsValid s name v)
    | inr (c, e) ↦ rw (add_existing E name s c e) (replace-IsValid name c s e v)
  ]

  -- Subscribing keeps the topics valid: sorted, each with a known channel of its own that has room
  -- for 1024 messages.
  pub subscribe-IsValid :
      (name : String) (s : Shared E) → IsValid E V s → IsValid E V (subscribe E name s).1
  subscribe-IsValid name s v = elim (Option-cases (get name s.topics)) [
    | inl e ↦ rw (subscribe_missing E name s e, add_missing E name s e) (channel-IsValid s name v)
    | inr (c, e) ↦
        rw (subscribe_existing E name s c e)
          (hub-IsValid E V s _ (L.subscribe_keeps_known c.sender s.hub) v)
  ]

  -- Publishing keeps the topics valid: sorted, each with a known channel of its own that has room
  -- for 1024 messages.
  pub publish-IsValid :
      (p : E.PublishPacket) (s : Shared E) → IsValid E V s → IsValid E V (publish E p s).1
  publish-IsValid p s v = elim (Option-cases (get (E.topic_name p) s.topics)) [
    | inl e ↦ rw (publish_missing E p s e) (
        let (sender, receiver, h) = E.bus.channel 1024 s.hub in
        let name = E.topic_name p in
        let s' : Shared E = record { topics = insert name (new E sender) s.topics; hub = h } in
        let h' = send_hub E sender p (E.bus.drop_receiver receiver h) in
        set_retained-IsValid E V (E.retain p) (record s' { hub = h' }) name (new E sender) _
          (get-insert_self name (new E sender) s.topics) (new-sender sender)
          (hub-IsValid E V s' h'
            (λ x k.
              L.send_keeps_known sender (publish_message p) _ x
                (L.drop_receiver_keeps_known receiver h x k))
            (channel-IsValid s name v)))
    | inr (c, e) ↦ rw (publish_existing E p s c e) (
        let h = send_hub E c.sender p s.hub in
        set_retained-IsValid E V (E.retain p) (record s { hub = h }) (E.topic_name p) c _ e refl
          (hub-IsValid E V s h (L.send_keeps_known c.sender (publish_message p) s.hub) v))
  ]
