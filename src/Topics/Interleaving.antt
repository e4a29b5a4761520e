-- ===== src/Topics/Interleaving.antt =====
-- Publications to several topics (src/topics.rs), and what their order means to one of them.
use mcloudtt.Prelude.{
  ◌≤◌, suc, last-all, last-last-append, length-drop, length-append, append-nil, append_assoc, last,
  ℕ, ◌+◌, ◌-◌, String, Option, some, ◌≡◌, ◌==◌, arith, eq_iff, Bool-cases, inl, inr, refl, sym, ap,
  ◌∙◌, List, [], ◌∷◌, ◌++◌, length, if◌then◌else◌,
}
use mcloudtt.Broadcast.{View, IsBroadcast, Keeps}
use mcloudtt.Env.{Env, Message, publish as publish_message}
use mcloudtt.Topics.{Shared, publish, get_retained_message}
use mcloudtt.Topics.Invariant.{IsValid, publish-IsValid}
use mcloudtt.Topics.Retained.{publish_all, last_retained, get_retained_message-publish_all}
use mcloudtt.Topics.Delivery.{
  Reads, publish-delivers, publish-missed, publish-Keeps_others, publish-Reads,
}
use mcloudtt.Topics.History.{messages_on}

-- What a reader has to read, and how many messages it has missed, after messages have come to its
-- channel, which holds `cap` of them.
pub arrivals : {M : Type 0} → ℕ → List M → List M × ℕ → List M × ℕ
arrivals cap [] x = x
arrivals cap (m ∷ ms) (queue, missed) =
    arrivals cap ms (last cap (queue ++ m ∷ []), missed + (length queue + 1 - cap))

pub arrivals-nil : {M : Type 0} → (cap : ℕ) (x : List M × ℕ) → arrivals cap [] x ≡ x
unfolding arrivals
arrivals-nil cap x = refl

pub arrivals-append :
    {M : Type 0}
    → (cap : ℕ) (ms ns : List M) (x : List M × ℕ)
    → arrivals cap (ms ++ ns) x ≡ arrivals cap ns (arrivals cap ms x)
unfolding arrivals
arrivals-append cap [] ns x = refl
arrivals-append cap (m ∷ ms) ns (queue, missed) =
    arrivals-append cap ms ns (last cap (queue ++ m ∷ []), missed + (length queue + 1 - cap))

-- All at once, when the channel holds what was there: the last messages are left.
pub arrivals-last :
    {M : Type 0}
    → (cap : ℕ) (ms queue : List M) (missed : ℕ) → length queue ≤ cap
    → arrivals cap ms (queue, missed)
      ≡ (last cap (queue ++ ms), missed + (length queue + length ms - cap))
unfolding arrivals
arrivals-last cap [] queue missed h =
    let all =
      sym (append-nil queue)
      ∙ sym (last-all cap (queue ++ []) (omega (arith, length-append queue []))) in
    let none_lost : missed ≡ missed + (length queue + 0 - cap) = omega arith in
    λ i. (all i, none_lost i)
arrivals-last cap (m ∷ ms) queue missed h =
    let grown = queue ++ m ∷ [] in
    let size = length-append queue (m ∷ []) in
    let left = length-drop (length grown - cap) grown in
    let rest =
      arrivals-last cap ms (last cap grown) (missed + (length queue + 1 - cap))
        (omega (arith, left, size)) in
    let all = last-last-append cap grown ms ∙ ap (last cap) (append_assoc queue (m ∷ []) ms) in
    let lost : missed + (length queue + 1 - cap) + (length (last cap grown) + length ms - cap)
        ≡ missed + (length queue + suc (length ms) - cap) =
      omega (arith, left, size) in
    rest ∙ (λ i. (all i, lost i))

module _ (E : Env) where
  -- The last message that asked to be retained.
  retained_of : Option E.PublishPacket → List (Message E.PublishPacket) → Option E.PublishPacket
  retained_of old [] = old
  retained_of old (publish_message p ∷ ms) = retained_of (if E.retain p then some p else old) ms

  last_retained-messages_on :
      (t : String) (old : Option E.PublishPacket) (ps : List E.PublishPacket)
      → last_retained E t old ps ≡ retained_of old (messages_on E t ps)
  unfolding last_retained messages_on retained_of
  last_retained-messages_on t old [] = refl
  last_retained-messages_on t old (p ∷ ps) = elim (Bool-cases (t == E.topic_name p)) [
    | inl here ↦ rw here (last_retained-messages_on t (if E.retain p then some p else old) ps)
    | inr there ↦ rw there (last_retained-messages_on t old ps)
  ]

module _ (E : Env) (V : View E.bus) where
  -- What a receiver can tell.
  abbrev pub reader : E.Receiver → Shared E → List (Message E.PublishPacket) × ℕ
  reader r s = (V.unread r s.hub, V.missed r s.hub)

module _ (E : Env) (V : View E.bus) (L : IsBroadcast E.bus V) where
  pub publish_all-arrivals :
      (ps : List E.PublishPacket) (s : Shared E) (r : E.Receiver) (t : String)
      → IsValid E V s
      → Reads E V r t s
      → reader E V r (publish_all E ps s)
        ≡ arrivals (V.capacity (V.sender_of r)) (messages_on E t ps) (reader E V r s)
  unfolding publish_all messages_on arrivals
  publish_all-arrivals [] s r t v d = refl
  publish_all-arrivals (p ∷ ps) s r t v d =
      let cap = V.capacity (V.sender_of r) in
      let rest =
        publish_all-arrivals ps (publish E p s).1 r t (publish-IsValid E V L p s v)
          (publish-Reads E V L p s r t v d) in
      elim (Bool-cases (t == E.topic_name p)) [
        | inl here ↦
            let d' = rw ((eq_iff t (E.topic_name p)).0 here) at d in
            let step : reader E V r (publish E p s).1 ≡ (
              last cap (V.unread r s.hub ++ publish_message p ∷ []),
              V.missed r s.hub + (length (V.unread r s.hub) + 1 - cap),
            ) =
              λ i. (publish-delivers E V L p s r d' i, publish-missed E V L p s r d' i) in
            rw here (rest ∙ ap (arrivals cap (messages_on E t ps)) step)
        | inr there ↦
            let kept : Keeps E.bus V r s.hub (publish E p s).1.hub =
              publish-Keeps_others E V L p s r t v d
                (λ e. ground (arith, eq_iff t (E.topic_name p))) in
            let step : reader E V r (publish E p s).1 ≡ reader E V r s =
              λ i. (kept.1 i, kept.2 i) in
            rw there (rest ∙ ap (arrivals cap (messages_on E t ps)) step)
      ]

  -- In valid topics, two sequences of packets have the same packets on a topic, in the same order,
  -- and may differ in all else. Then they come to the same for the topic: its retained message is
  -- the same, and each of its readers has the same to read and has missed the same number, also
  -- when its channel overflows.
  pub publish_all-interleaving :
      (ps qs : List E.PublishPacket) (s : Shared E) (t : String)
      → IsValid E V s
      → messages_on E t ps ≡ messages_on E t qs
      → let s' = publish_all E ps s in
        let s'' = publish_all E qs s in
        (get_retained_message E t s' ≡ get_retained_message E t s'')
        × ((r : E.Receiver)
            → Reads E V r t s
            → (V.unread r s'.hub ≡ V.unread r s''.hub) × (V.missed r s'.hub ≡ V.missed r s''.hub))
  publish_all-interleaving ps qs s t v same =
      let old = get_retained_message E t s in
      (
        get_retained_message-publish_all E ps t s
            ∙ last_retained-messages_on E t old ps
            ∙ ap (retained_of E old) same
            ∙ sym (last_retained-messages_on E t old qs)
            ∙ sym (get_retained_message-publish_all E qs t s),
        λ r d.
            let x =
              publish_all-arrivals ps s r t v d
              ∙ ap (λ ms. arrivals (V.capacity (V.sender_of r)) ms (reader E V r s)) same
              ∙ sym (publish_all-arrivals qs s r t v d) in
            (ap (λ y. y.0) x, ap (λ y. y.1) x),
      )
