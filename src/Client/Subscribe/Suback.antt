-- ===== src/Client/Subscribe/Suback.antt =====
-- What `handle_subscribe_packet` (src/tcp_handling.rs) sends.
use mcloudtt.Prelude.{
  ℕ, String, Option, none, some, ◌≡◌, refl, ap, sym, ◌∙◌, List, [], ◌∷◌, ◌++◌, map, append-nil,
  append_assoc, Option-cases, inl, inr,
}
use mathlib.Core.Path.{ap₂}
use mcloudtt.Error.{ok, >>=-eq-ok, ok-injective, modify, gets, ◌>>=◌, ◌>>◌, Action}
use mcloudtt.BTreeMap
use mcloudtt.Mqtt.{
  Packet, TopicFilter, concrete, wildcard, shared_concrete, shared_wildcard, SubscribePacket,
  SubscribeAckReason, granted_qos_zero, wildcard_subscriptions_not_supported,
  shared_subscriptions_not_supported,
}
use mcloudtt.Env.{Env, IsStream}
use mcloudtt.Topics
use mcloudtt.Topics.{Shared}
use mcloudtt.Topics.Retained.{get_retained_message-subscribe, get_retained_message-topics}
use mcloudtt.Client.State.{World, write_to_stream, in_topics}
use mcloudtt.Client.Written.{write_to_stream-ok}
use mcloudtt.Client.Subscribe.{
  insert_receiver, send_retained, subscribe_concrete, subscribe_each, suback,
  handle_subscribe_packet,
}

-- The specification: the answer to one filter, by its kind alone.
unfoldable pub answer : TopicFilter → SubscribeAckReason
answer (concrete f n) = granted_qos_zero
answer (wildcard f n) = wildcard_subscriptions_not_supported
answer shared_concrete = shared_subscriptions_not_supported
answer shared_wildcard = shared_subscriptions_not_supported

module _ (E : Env) where
  -- The bytes of a retained message, if there is one.
  pub message_bytes : Option E.PublishPacket → List ℕ
  message_bytes none = []
  message_bytes (some p) = E.encode_mqtt (Packet.publish p)

  -- The specification: the retained messages of the concrete filters, in the order of the request.
  unfoldable pub retained_bytes : List TopicFilter → Shared E → List ℕ
  retained_bytes [] s = []
  retained_bytes (concrete f n ∷ fs) s =
      message_bytes (Topics.get_retained_message E f s) ++ retained_bytes fs s
  retained_bytes (wildcard f n ∷ fs) s = retained_bytes fs s
  retained_bytes (shared_concrete ∷ fs) s = retained_bytes fs s
  retained_bytes (shared_wildcard ∷ fs) s = retained_bytes fs s

  -- The same messages are retained.
  abbrev SameRetained : Shared E → Shared E → Type 0
  SameRetained s s' =
      (t : String) → Topics.get_retained_message E t s' ≡ Topics.get_retained_message E t s

  retained_bytes-same :
      (fs : List TopicFilter) (s s' : Shared E)
      → SameRetained s s'
      → retained_bytes fs s' ≡ retained_bytes fs s
  unfolding retained_bytes
  retained_bytes-same [] s s' h = refl
  retained_bytes-same (concrete f n ∷ fs) s s' h = rw (h f, retained_bytes-same fs s s' h)
  retained_bytes-same (wildcard f n ∷ fs) s s' h = retained_bytes-same fs s s' h
  retained_bytes-same (shared_concrete ∷ fs) s s' h = retained_bytes-same fs s s' h
  retained_bytes-same (shared_wildcard ∷ fs) s s' h = retained_bytes-same fs s s' h

  insert_receiver-same :
      (f : String) (r : E.Receiver) (w : World E)
      → ((insert_receiver E f r w).shared.topics ≡ w.shared.topics)
        × ((insert_receiver E f r w).stream ≡ w.stream)
  unfolding insert_receiver
  insert_receiver-same f r w = elim (Option-cases (BTreeMap.get f w.client.receivers)) [
    | inl e ↦ rw e (refl, refl)
    | inr (old, e) ↦ rw e (refl, refl)
  ]

module _ (E : Env) (sent : E.Stream → List ℕ) (S : IsStream E.io sent) where
  send_retained-ok :
      (o : Option E.PublishPacket) (w w' : World E)
      → send_retained E o w ≡ (ok tt, w')
      → (sent w'.stream ≡ sent w.stream ++ message_bytes E o) × (w'.shared ≡ w.shared)
  unfolding send_retained message_bytes
  send_retained-ok none w w' e = rw (← ap (λ x. x.1) e) (sym (append-nil (sent w.stream)), refl)
  send_retained-ok (some p) w w' e =
      let both = write_to_stream-ok E sent S (Packet.publish p) w w' e in
      (both.0, ap (λ x. x.shared) both.1)

  subscribe_concrete-ok :
      (f : String) (w w' : World E)
      → subscribe_concrete E f w ≡ (ok tt, w')
      → (sent w'.stream
          ≡ sent w.stream ++ message_bytes E (Topics.get_retained_message E f w.shared))
        × SameRetained E w.shared w'.shared
  unfolding subscribe_concrete
  subscribe_concrete-ok f w w' e =
      let (r, w₁, e₁, e₂) =
        >>=-eq-ok (in_topics E (Topics.subscribe E f)) (received_by f) w tt w' e in
      let w₂ = insert_receiver E f r w₁ in
      let same = insert_receiver-same E f r w₁ in
      let moved : record w { shared = (Topics.subscribe E f w.shared).1 } ≡ w₁ = ap (λ x. x.1) e₁ in
      let kept : SameRetained E w.shared w₂.shared = λ t.
        get_retained_message-topics E t w₁.shared w₂.shared same.0
        ∙ ap (λ x. Topics.get_retained_message E t x.shared) (sym moved)
        ∙ get_retained_message-subscribe E f t w.shared in
      let (bytes, shared) = send_retained-ok (Topics.get_retained_message E f w₂.shared) w₂ w' e₂ in
      (
        bytes
            ∙ ap₂ (λ x o. sent x ++ message_bytes E o) (same.1 ∙ ap (λ x. x.stream) (sym moved))
                (kept f),
        λ t. ap (Topics.get_retained_message E t) shared ∙ kept t,
      )
    where
      received_by : String → E.Receiver → Action (World E) (Unit {0})
      received_by f receiver = do
        modify (insert_receiver E f receiver)
        retained_message ← gets (λ w. Topics.get_retained_message E f w.shared)
        send_retained E retained_message

  subscribe_each-ok :
      (fs : List TopicFilter) (codes done : List SubscribeAckReason) (w w' : World E)
      → subscribe_each E fs codes w ≡ (ok done, w')
      → (done ≡ codes ++ map answer fs)
        × (sent w'.stream ≡ sent w.stream ++ retained_bytes E fs w.shared)
  unfolding subscribe_each retained_bytes answer
  subscribe_each-ok [] codes done w w' e =
      let got : codes ≡ done = ok-injective codes done (ap (λ x. x.0) e) in
      (
        sym got ∙ sym (append-nil codes),
        ap (λ x. sent x.1.stream) (sym e) ∙ sym (append-nil (sent w.stream)),
      )
  subscribe_each-ok (concrete f n ∷ fs) codes done w w' e =
      let (_, w₁, e₁, e₂) =
        >>=-eq-ok (subscribe_concrete E f)
          (λ _. subscribe_each E fs (codes ++ granted_qos_zero ∷ [])) w done w' e in
      let (bytes, same) = subscribe_concrete-ok f w w₁ e₁ in
      let (answers, rest) = subscribe_each-ok fs (codes ++ granted_qos_zero ∷ []) done w₁ w' e₂ in
      (
        answers ∙ append_assoc codes (granted_qos_zero ∷ []) (map answer fs),
        rest
            ∙ ap₂ (λ x y. x ++ y) bytes (retained_bytes-same E fs w.shared w₁.shared same)
            ∙ append_assoc (sent w.stream)
                (message_bytes E (Topics.get_retained_message E f w.shared))
                (retained_bytes E fs w.shared),
      )
  subscribe_each-ok (wildcard f n ∷ fs) codes done w w' e =
      let (answers, rest) =
        subscribe_each-ok fs (codes ++ wildcard_subscriptions_not_supported ∷ []) done w w' e in
      (
        answers ∙ append_assoc codes (wildcard_subscriptions_not_supported ∷ []) (map answer fs),
        rest,
      )
  subscribe_each-ok (shared_concrete ∷ fs) codes done w w' e =
      let (answers, rest) =
        subscribe_each-ok fs (codes ++ shared_subscriptions_not_supported ∷ []) done w w' e in
      (answers ∙ append_assoc codes (shared_subscriptions_not_supported ∷ []) (map answer fs), rest)
  subscribe_each-ok (shared_wildcard ∷ fs) codes done w w' e =
      let (answers, rest) =
        subscribe_each-ok fs (codes ++ shared_subscriptions_not_supported ∷ []) done w w' e in
      (answers ∙ append_assoc codes (shared_subscriptions_not_supported ∷ []) (map answer fs), rest)

  -- A SUBSCRIBE that is handled to the end: the client has got the retained messages of its
  -- concrete filters, in the order of the request, and then a SUBACK with the request's packet id
  -- and one reason for each filter, by the filter's kind alone.
  pub handle_subscribe_packet-sends :
      (p : SubscribePacket) (w w' : World E)
      → handle_subscribe_packet E p w ≡ (ok tt, w')
      → sent w'.stream
        ≡ sent w.stream
          ++ (retained_bytes E p.subscription_topics w.shared
              ++ E.encode_mqtt (suback E p (map answer p.subscription_topics)))
  unfolding handle_subscribe_packet
  handle_subscribe_packet-sends p w w' e =
      let (codes, w₁, e₁, e₂) =
        >>=-eq-ok (subscribe_each E p.subscription_topics [])
          (λ codes. write_to_stream E (suback E p codes)) w tt w' e in
      let (answers, bytes) = subscribe_each-ok p.subscription_topics [] codes w w₁ e₁ in
      (write_to_stream-ok E sent S (suback E p codes) w₁ w' e₂).0
      ∙ ap₂ (λ x y. x ++ E.encode_mqtt (suback E p y)) bytes answers
      ∙ append_assoc (sent w.stream) (retained_bytes E p.subscription_topics w.shared) _
