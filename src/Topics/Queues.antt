-- ===== src/Topics/Queues.antt =====
-- Publications and the queue of one reader (src/topics.rs).
use mcloudtt.Prelude.{
  last, String, ◌≡◌, ◌≢◌, ◌∙◌, ◌==◌, sym, refl, ap, List, [], ◌∷◌, ◌++◌, arith, eq_iff, Bool-cases,
  inl, inr,
}
use mcloudtt.Broadcast.{View, IsBroadcast}
use mcloudtt.Env.{Env, publish as publish_message}
use mcloudtt.Topics
use mcloudtt.Topics.{Shared}
use mcloudtt.Topics.Invariant.{IsValid}
use mcloudtt.Topics.Retained.{publish_all}
use mcloudtt.Topics.Delivery.{
  Reads, publish-Reads, publish-delivers, publish-missed, publish-Keeps_others,
}

module _ (E : Env) (V : View E.bus) where
  -- A reader has the same to read in both.
  abbrev pub SameQueue : E.Receiver → Shared E → Shared E → Type 0
  SameQueue r s s' = (V.unread r s'.hub ≡ V.unread r s.hub) × (V.missed r s'.hub ≡ V.missed r s.hub)

module _ (E : Env) (V : View E.bus) (L : IsBroadcast E.bus V) where
  -- A packet does the same to a reader in two states where it has the same to read.
  pub publish-SameQueue :
      (p : E.PublishPacket) (s s' : Shared E) (r : E.Receiver) (t : String)
      → IsValid E V s
      → IsValid E V s'
      → Reads E V r t s
      → Reads E V r t s'
      → SameQueue E V r s s'
      → SameQueue E V r (Topics.publish E p s).1 (Topics.publish E p s').1
  publish-SameQueue p s s' r t v v' d d' (queue, missed) = elim (Bool-cases (t == E.topic_name p)) [
    | inl here ↦
        let same = (eq_iff t (E.topic_name p)).0 here in
        let e : Reads E V r (E.topic_name p) s = rw same at d in
        let e' : Reads E V r (E.topic_name p) s' = rw same at d' in
        (
          publish-delivers E V L p s' r e'
              ∙ ap (λ q. last (V.capacity (V.sender_of r)) (q ++ publish_message p ∷ [])) queue
              ∙ sym (publish-delivers E V L p s r e),
          rw (publish-missed E V L p s' r e', publish-missed E V L p s r e, queue, missed) refl,
        )
    | inr there ↦
        let other : t ≢ E.topic_name p = λ e. ground (arith, (eq_iff t (E.topic_name p)).1 e) in
        let kept = publish-Keeps_others E V L p s r t v d other in
        let kept' = publish-Keeps_others E V L p s' r t v' d' other in
        (kept'.1 ∙ queue ∙ sym kept.1, kept'.2 ∙ missed ∙ sym kept.2)
  ]

  pub publish_all-Reads :
      (ps : List E.PublishPacket) (s : Shared E) (r : E.Receiver) (t : String)
      → IsValid E V s
      → Reads E V r t s
      → Reads E V r t (publish_all E ps s)
  unfolding publish_all
  publish_all-Reads [] s r t v d = d
  publish_all-Reads (p ∷ ps) s r t v d =
      publish_all-Reads ps (Topics.publish E p s).1 r t
        (Topics.Invariant.publish-IsValid E V L p s v) (publish-Reads E V L p s r t v d)

  pub publish_all-append :
      (ps : List E.PublishPacket) (p : E.PublishPacket) (s : Shared E)
      → publish_all E (ps ++ p ∷ []) s ≡ (Topics.publish E p (publish_all E ps s)).1
  unfolding publish_all
  publish_all-append [] p s = refl
  publish_all-append (q ∷ ps) p s = publish_all-append ps p (Topics.publish E q s).1
