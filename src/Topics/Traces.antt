-- ===== src/Topics/Traces.antt =====
-- The order of publications to different topics (src/topics.rs): histories up to the order of
-- neighbours that have nothing to do with each other.
use mcloudtt.Prelude.{
  String, ◌≡◌, ◌≢◌, ◌↔◌, ◌==◌, refl, ap, sym, ◌∙◌, List, [], ◌∷◌, Bool-cases, inl, inr, arith,
  eq_iff, eq_refl, map,
}
use mathlib.Core.List.{is_set}
use mathlib.Core.Quot
use mathlib.Core.Quot.{Quot, Quot-set}
use mcloudtt.Broadcast.{View, IsBroadcast}
use mcloudtt.Env.{Env, Message}
use mcloudtt.Topics.{Shared, get_retained_message}
use mcloudtt.Topics.Invariant.{IsValid}
use mcloudtt.Topics.Retained.{publish_all}
use mcloudtt.Topics.Delivery.{Reads}
use mcloudtt.Topics.History.{packets_on, messages_on-map}
use mcloudtt.Topics.Interleaving.{publish_all-interleaving}

module _ (E : Env) where
  -- Two neighbours on different topics change places.
  pub data Swap : List E.PublishPacket → List E.PublishPacket → Type 0 where
    here :
        (p q : E.PublishPacket) (ps : List E.PublishPacket)
        → E.topic_name p ≢ E.topic_name q
        → Swap (p ∷ q ∷ ps) (q ∷ p ∷ ps)
    there :
        (p : E.PublishPacket) {ps qs : List E.PublishPacket} → Swap ps qs → Swap (p ∷ ps) (p ∷ qs)

module _ (E : Env) where
  -- Histories, in which such swaps make no difference.
  abbrev pub Trace : Type 0
  Trace = Quot (Swap E)

  abbrev pub trace : List E.PublishPacket → Trace
  trace = Quot.mk

  packets_on-Swap :
      (t : String) (ps qs : List E.PublishPacket)
      → Swap E ps qs
      → packets_on E t ps ≡ packets_on E t qs
  unfolding packets_on
  packets_on-Swap t _ _ (here p q ps ne) =
      ground (arith, eq_iff t (E.topic_name p), eq_iff t (E.topic_name q))
  packets_on-Swap t _ _ (there p {ps} {qs} h) = ground (arith, packets_on-Swap t ps qs h)

  -- The packets of a topic in a trace.
  trace_on : IsSet E.PublishPacket → String → Trace → List E.PublishPacket
  trace_on set t = Quot.lift (is_set set) (packets_on E t) λ ps qs h. packets_on-Swap t ps qs h

  trace_cons : E.PublishPacket → Trace → Trace
  trace_cons p = Quot.lift Quot-set (λ ps. trace (p ∷ ps)) λ ps qs h. Quot.sound (there p h)

  -- Equal traces have the same packets on each topic.
  packets_on-trace :
      IsSet E.PublishPacket
      → (ps qs : List E.PublishPacket) → trace ps ≡ trace qs
      → (t : String) → packets_on E t ps ≡ packets_on E t qs
  unfolding trace_on
  packets_on-trace set ps qs e t = ap (trace_on set t) e

  abbrev SamePackets : List E.PublishPacket → List E.PublishPacket → Type 0
  SamePackets ps qs = (t : String) → packets_on E t ps ≡ packets_on E t qs

  packets_on_self :
      (p : E.PublishPacket) (ps : List E.PublishPacket)
      → packets_on E (E.topic_name p) (p ∷ ps) ≡ p ∷ packets_on E (E.topic_name p) ps
  unfolding packets_on
  packets_on_self p ps = rw (eq_refl (E.topic_name p)) refl

  -- The first packet of its topic can be brought to the front.
  bring_front :
      (p : E.PublishPacket) (rest qs : List E.PublishPacket)
      → packets_on E (E.topic_name p) qs ≡ p ∷ rest
      → (qs' : List E.PublishPacket) × (trace qs ≡ trace (p ∷ qs')) × SamePackets qs (p ∷ qs')
  unfolding packets_on trace_cons
  bring_front p rest [] e = cc
  bring_front p rest (q ∷ qs) e = elim (Bool-cases (E.topic_name p == E.topic_name q)) [
    | inl same ↦
        let found : q ∷ packets_on E (E.topic_name p) qs ≡ p ∷ rest = rw same at e in
        let is_p : q ≡ p = cc in
        (qs, ap (λ x. trace (x ∷ qs)) is_p, λ t. ap (λ x. packets_on E t (x ∷ qs)) is_p)
    | inr differ ↦
        let (qs', moved, packets) = bring_front p rest qs (rw differ at e) in
        let ne : E.topic_name p ≢ E.topic_name q =
          λ k. ground (arith, eq_iff (E.topic_name p) (E.topic_name q)) in
        let swap = here p q qs' ne in
        (
          q ∷ qs',
          ap (trace_cons q) moved ∙ sym (Quot.sound swap),
          λ t. ground (arith, packets t) ∙ sym (packets_on-Swap t (p ∷ q ∷ qs') (q ∷ p ∷ qs') swap),
        )
  ]

  -- Histories with the same packets on each topic are equal traces.
  trace-packets_on : (ps qs : List E.PublishPacket) → SamePackets ps qs → trace ps ≡ trace qs
  unfolding packets_on trace_cons
  trace-packets_on [] [] h = refl
  trace-packets_on [] (q ∷ qs) h = let e = h (E.topic_name q) ∙ packets_on_self q qs in cc
  trace-packets_on (p ∷ ps) qs h =
      let (qs', moved, packets) =
        bring_front p (packets_on E (E.topic_name p) ps) qs
          (sym (h (E.topic_name p)) ∙ packets_on_self p ps) in
      let tails : SamePackets ps qs' = λ t. ground (arith, h t, packets t) in
      ap (trace_cons p) (trace-packets_on ps qs' tails) ∙ sym moved

  -- Traces forget the order between topics, and nothing else.
  pub trace_iff :
      IsSet E.PublishPacket
      → (ps qs : List E.PublishPacket)
      → (trace ps ≡ trace qs) ↔ ((t : String) → packets_on E t ps ≡ packets_on E t qs)
  trace_iff set ps qs = (packets_on-trace set ps qs, trace-packets_on ps qs)

module _ (E : Env) (V : View E.bus) (L : IsBroadcast E.bus V) where
  -- The type of packets is a set, and the topics are valid. Two sequences of packets are equal up
  -- to changing places of neighbours on different topics, any number of times. Then they come to
  -- the same for each topic: its retained message is the same, and each of its readers has the same
  -- to read and has missed the same number, also when its channel overflows.
  pub publish_all-trace :
      (ps qs : List E.PublishPacket) (s : Shared E)
      → IsSet E.PublishPacket
      → IsValid E V s
      → trace E ps ≡ trace E qs
      → (t : String)
      → let s' = publish_all E ps s in
        let s'' = publish_all E qs s in
        (get_retained_message E t s' ≡ get_retained_message E t s'')
        × ((r : E.Receiver)
            → Reads E V r t s
            → (V.unread r s'.hub ≡ V.unread r s''.hub) × (V.missed r s'.hub ≡ V.missed r s''.hub))
  publish_all-trace ps qs s set v same t = publish_all-interleaving E V L ps qs s t v (
      messages_on-map E t ps
      ∙ ap (map Message.publish) (packets_on-trace E set ps qs same t)
      ∙ sym (messages_on-map E t qs))
