-- ===== src/Topics/History.antt =====
-- Whole histories of published packets (src/topics.rs): what a subscriber has to read in the end.
use mcloudtt.Prelude.{
  map, last-all, ◌+◌, ◌≤◌, String, ◌≡◌, ◌==◌, arith, eq_iff, Bool-cases, inl, inr, refl, sym, ap,
  ◌∙◌, List, [], ◌∷◌, ◌++◌, length, length-append, append_assoc, append-nil, if◌then◌else◌,
}
use mathlib.Core.Path.{subst}
use mcloudtt.Error.{ok}
use mcloudtt.Broadcast.{View, IsBroadcast, Keeps}
use mcloudtt.Env.{Env, Message, publish as publish_message}
use mcloudtt.Topics.{Shared, publish, subscribe}
use mcloudtt.Topics.Invariant.{IsValid, publish-IsValid, subscribe-IsValid}
use mcloudtt.Topics.Retained.{publish_all}
use mcloudtt.Topics.Delivery.{
  Reads, Subscribed, publish-delivers, publish-missed, publish-Keeps_others, publish-Reads,
  subscribe-Subscribed,
}

module _ (E : Env) where
  -- The packets of one topic, in order.
  unfoldable pub messages_on : String → List E.PublishPacket → List (Message E.PublishPacket)
  messages_on t [] = []
  messages_on t (p ∷ ps) =
      if t == E.topic_name p then publish_message p ∷ messages_on t ps else messages_on t ps

  -- The packets on a topic, in order.
  unfoldable pub packets_on : String → List E.PublishPacket → List E.PublishPacket
  packets_on t [] = []
  packets_on t (p ∷ ps) = if t == E.topic_name p then p ∷ packets_on t ps else packets_on t ps

  pub messages_on-map :
      (t : String) (ps : List E.PublishPacket)
      → messages_on t ps ≡ map publish_message (packets_on t ps)
  unfolding packets_on messages_on
  messages_on-map t [] = refl
  messages_on-map t (p ∷ ps) = ground (arith, messages_on-map t ps)

  pub messages_on-append :
      (t : String) (ps qs : List E.PublishPacket)
      → messages_on t (ps ++ qs) ≡ messages_on t ps ++ messages_on t qs
  unfolding messages_on
  messages_on-append t [] qs = refl
  messages_on-append t (p ∷ ps) qs = ground (arith, messages_on-append t ps qs)

  pub packets_on-append :
      (t : String) (ps qs : List E.PublishPacket)
      → packets_on t (ps ++ qs) ≡ packets_on t ps ++ packets_on t qs
  unfolding packets_on
  packets_on-append t [] qs = refl
  packets_on-append t (p ∷ ps) qs = ground (arith, packets_on-append t ps qs)

  messages_on-cons :
      (t : String) (p : E.PublishPacket) (ps : List E.PublishPacket)
      → messages_on t (p ∷ ps) ≡ messages_on t (p ∷ []) ++ messages_on t ps
  unfolding messages_on
  messages_on-cons t p ps = ground arith

  messages_on-nil : (t : String) (q : List (Message E.PublishPacket)) → q ≡ q ++ messages_on t []
  unfolding messages_on
  messages_on-nil t q = sym (append-nil q)

module _ (E : Env) (V : View E.bus) (L : IsBroadcast E.bus V) where
  pub publish_all-IsValid :
      (ps : List E.PublishPacket) (s : Shared E) → IsValid E V s → IsValid E V (publish_all E ps s)
  unfolding publish_all
  publish_all-IsValid [] s v = v
  publish_all-IsValid (p ∷ ps) s v =
      publish_all-IsValid ps (publish E p s).1 (publish-IsValid E V L p s v)

  -- One packet: it goes behind what is unread if it is of the topic, and nothing is lost.
  publish-queue :
      (p : E.PublishPacket) (s : Shared E) (r : E.Receiver) (t : String)
      → IsValid E V s
      → Reads E V r t s
      → length (V.unread r s.hub ++ messages_on E t (p ∷ [])) ≤ V.capacity (V.sender_of r)
      → (V.unread r (publish E p s).1.hub ≡ V.unread r s.hub ++ messages_on E t (p ∷ []))
        × (V.missed r (publish E p s).1.hub ≡ V.missed r s.hub)
  unfolding messages_on
  publish-queue p s r t v d room = elim (Bool-cases (t == E.topic_name p)) [
    | inl here ↦
        let queue = V.unread r s.hub in
        let d' = rw ((eq_iff t (E.topic_name p)).0 here) at d in
        let fits : length (queue ++ publish_message p ∷ []) ≤ V.capacity (V.sender_of r) =
          rw here at room in
        rw here (
          publish-delivers E V L p s r d'
              ∙ last-all (V.capacity (V.sender_of r)) (queue ++ publish_message p ∷ []) fits,
          publish-missed E V L p s r d'
              ∙ omega (arith, length-append queue (publish_message p ∷ [])),
        )
    | inr there ↦
        let kept : Keeps E.bus V r s.hub (publish E p s).1.hub =
          publish-Keeps_others E V L p s r t v d (λ e. ground (arith, eq_iff t (E.topic_name p))) in
        rw there (kept.1 ∙ sym (append-nil (V.unread r s.hub)), kept.2)
  ]

  -- A reader of a topic, in valid topics, that does not fall behind by more than its channel holds:
  -- after packets are published it has to read, behind what it had not read, exactly those of its
  -- topic in the order of publication, and it misses no more than before.
  pub unread-publish_all :
      (ps : List E.PublishPacket) (s : Shared E) (r : E.Receiver) (t : String)
      → IsValid E V s
      → Reads E V r t s
      → length (V.unread r s.hub) + length (messages_on E t ps) ≤ V.capacity (V.sender_of r)
      → (V.unread r (publish_all E ps s).hub ≡ V.unread r s.hub ++ messages_on E t ps)
        × (V.missed r (publish_all E ps s).hub ≡ V.missed r s.hub)
  unfolding publish_all
  unread-publish_all [] s r t v d room = (messages_on-nil E t (V.unread r s.hub), refl)
  unread-publish_all (p ∷ ps) s r t v d room =
      let queue = V.unread r s.hub in
      let s' = (publish E p s).1 in
      let one = messages_on E t (p ∷ []) in
      let rest = messages_on E t ps in
      let split = messages_on-cons E t p ps in
      let size = ap length split ∙ length-append one rest in
      let (step, missed) = publish-queue p s r t v d (omega (arith, length-append queue one)) in
      let grown = ap length step ∙ length-append queue one in
      let (all, missed') =
        unread-publish_all ps s' r t (publish-IsValid E V L p s v) (publish-Reads E V L p s r t v d)
          (omega arith) in
      (
        all ∙ ap (λ q. q ++ rest) step ∙ append_assoc queue one rest ∙ ap (◌++◌ queue) (sym split),
        missed' ∙ missed,
      )

  -- In valid topics somebody subscribes, and packets are published, at most 1024 of them on the
  -- topic: the new receiver has to read exactly the packets of its topic, each once, in the order
  -- of publication, and misses none.
  pub unread-subscribe_publish_all :
      (ps : List E.PublishPacket) (s s' : Shared E) (r : E.Receiver) (t : String)
      → IsValid E V s
      → subscribe E t s ≡ (ok r, s')
      → length (messages_on E t ps) ≤ 1024
      → (V.unread r (publish_all E ps s').hub ≡ messages_on E t ps)
        × (V.missed r (publish_all E ps s').hub ≡ 0)
  unread-subscribe_publish_all ps s s' r t v e few =
      let both : Subscribed E V t s (ok r, s') =
        subst (Subscribed E V t s) e (subscribe-Subscribed E V L t s v) in
      let reads = both.0 in
      let empty = both.1.3 in
      let v' : IsValid E V s' = subst (λ x. IsValid E V x.1) e (subscribe-IsValid E V L t s v) in
      let room : 1024 ≤ V.capacity reads.channel.sender = v'.roomy t reads.channel reads.found in
      let (all, missed) =
        unread-publish_all ps s' r t v' reads (rw (empty, reads.attached) (omega arith)) in
      (all ∙ ap (λ q. q ++ messages_on E t ps) empty, missed ∙ both.1.4)
