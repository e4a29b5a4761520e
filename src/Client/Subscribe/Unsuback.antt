-- ===== src/Client/Subscribe/Unsuback.antt =====
-- What `handle_unsubscribe_packet` (src/tcp_handling.rs) sends, and what stays subscribed.
use mcloudtt.Prelude.{
  ℕ, String, Option, none, some, ◌≡◌, refl, ap, sym, ◌∙◌, List, [], ◌∷◌, ◌++◌, append_assoc,
  append-nil, Bool, false, ◌||◌, ◌==◌, if◌then◌else◌, is_some, arith, Option-cases, inl, inr,
}
use mathlib.Core.Path.{ap₂, fun_ext}
use mcloudtt.Error.{ok}
use mcloudtt.BTreeMap.{get, remove}
use mcloudtt.BTreeMap.Laws.{get-remove}
use mcloudtt.Mqtt.{
  TopicFilter, concrete, wildcard, shared_concrete, shared_wildcard, UnsubscribePacket,
  UnsubscribeAckReason,
}
use mcloudtt.Mqtt.UnsubscribeAckReason.{
  success, no_subscription_existed, implementation_specific_error,
}
use mcloudtt.Env.{Env, IsStream}
use mcloudtt.Client.State.{World, drop_old}
use mcloudtt.Client.Written.{write_to_stream-ok}
use mcloudtt.Client.Subscribe.{
  removed, unsubscribe_filter, unsubscribe_each, unsuback, handle_unsubscribe_packet,
}

-- The specification: the request names the topic.
pub requested : String → List TopicFilter → Bool
requested t [] = false
requested t (concrete f n ∷ fs) = t == f || requested t fs
requested t (wildcard f n ∷ fs) = requested t fs
requested t (shared_concrete ∷ fs) = requested t fs
requested t (shared_wildcard ∷ fs) = requested t fs

-- The specification: the reasons, from the set of topics that are subscribed to. A topic that is
-- named twice is gone the second time.
pub reasons : List TopicFilter → (String → Bool) → List UnsubscribeAckReason
reasons [] subscribed = []
reasons (concrete f n ∷ fs) subscribed =
    (if subscribed f then success else no_subscription_existed)
    ∷ reasons fs (λ t. if t == f then false else subscribed t)
reasons (wildcard f n ∷ fs) subscribed = implementation_specific_error ∷ reasons fs subscribed
reasons (shared_concrete ∷ fs) subscribed = implementation_specific_error ∷ reasons fs subscribed
reasons (shared_wildcard ∷ fs) subscribed = implementation_specific_error ∷ reasons fs subscribed

module _ (E : Env) where
  -- The topics that a client is subscribed to.
  abbrev pub is_subscribed : World E → String → Bool
  is_subscribed w t = is_some (get t w.client.receivers)

  drop_old-receivers :
      (o : Option E.Receiver) (w : World E)
      → ((drop_old E o w).client.receivers ≡ w.client.receivers)
        × ((drop_old E o w).stream ≡ w.stream)
  drop_old-receivers none w = (refl, refl)
  drop_old-receivers (some r) w = (refl, refl)

  -- One concrete filter.
  unsubscribe_concrete :
      (f : String) (n : ℕ) (w : World E)
      → let (code, w') = unsubscribe_filter E (concrete f n) w in
        (code ≡ (if is_subscribed w f then success else no_subscription_existed))
        × (w'.client.receivers ≡ remove f w.client.receivers)
        × (w'.stream ≡ w.stream)
  unfolding unsubscribe_filter removed
  unsubscribe_concrete f n w = elim (Option-cases (get f w.client.receivers)) [
    | inl e ↦ rw e (refl, refl, refl)
    | inr (r, e) ↦ rw e (refl, refl, refl)
  ]

  get-unsubscribe_each :
      (fs : List TopicFilter) (codes : List UnsubscribeAckReason) (t : String) (w : World E)
      → get t (unsubscribe_each E fs codes w).1.client.receivers
        ≡ (if requested t fs then none else get t w.client.receivers)
  unfolding unsubscribe_each requested unsubscribe_filter
  get-unsubscribe_each [] codes t w = refl
  get-unsubscribe_each (concrete f n ∷ fs) codes t w =
      let (code, w₁) = unsubscribe_filter E (concrete f n) w in
      let rest = get-unsubscribe_each fs (codes ++ code ∷ []) t w₁ in
      let (_, same, _) = unsubscribe_concrete f n w in
      let now : get t w₁.client.receivers ≡ (if t == f then none else get t w.client.receivers) =
        ap (get t) same ∙ get-remove f t w.client.receivers in
      rest ∙ ground (arith, now)
  get-unsubscribe_each (wildcard f n ∷ fs) codes t w = get-unsubscribe_each fs _ t w
  get-unsubscribe_each (shared_concrete ∷ fs) codes t w = get-unsubscribe_each fs _ t w
  get-unsubscribe_each (shared_wildcard ∷ fs) codes t w = get-unsubscribe_each fs _ t w

  is_subscribed-remove :
      (f t : String) (w w₁ : World E)
      → w₁.client.receivers ≡ remove f w.client.receivers
      → is_subscribed w₁ t ≡ (if t == f then false else is_subscribed w t)
  is_subscribed-remove f t w w₁ same = rw same (ground (arith, get-remove f t w.client.receivers))

  -- A filter that is not concrete is answered, and nothing changes.
  skipped :
      (fs : List TopicFilter) (codes : List UnsubscribeAckReason) (w : World E)
      → let x = unsubscribe_each E fs (codes ++ implementation_specific_error ∷ []) w in
        (x.0 ≡ (codes ++ implementation_specific_error ∷ []) ++ reasons fs (is_subscribed w))
          × (x.1.stream ≡ w.stream)
        → (x.0 ≡ codes ++ implementation_specific_error ∷ reasons fs (is_subscribed w))
          × (x.1.stream ≡ w.stream)
  skipped fs codes w (rest, bytes) = (
    rest ∙ append_assoc codes (implementation_specific_error ∷ []) (reasons fs (is_subscribed w)),
    bytes,
  )

  unsubscribe_each-codes :
      (fs : List TopicFilter) (codes : List UnsubscribeAckReason) (w : World E)
      → ((unsubscribe_each E fs codes w).0 ≡ codes ++ reasons fs (is_subscribed w))
        × ((unsubscribe_each E fs codes w).1.stream ≡ w.stream)
  unfolding unsubscribe_each reasons unsubscribe_filter
  unsubscribe_each-codes [] codes w = (sym (append-nil codes), refl)
  unsubscribe_each-codes (concrete f n ∷ fs) codes w =
      let (code, w₁) = unsubscribe_filter E (concrete f n) w in
      let (now, same, stream) = unsubscribe_concrete f n w in
      let (rest, bytes) = unsubscribe_each-codes fs (codes ++ code ∷ []) w₁ in
      let left : is_subscribed w₁ ≡ (λ t. if t == f then false else is_subscribed w t) =
        fun_ext (λ t. is_subscribed-remove f t w w₁ same) in
      (
        rest
            ∙ append_assoc codes (code ∷ []) (reasons fs (is_subscribed w₁))
            ∙ ap₂ (λ c s. codes ++ c ∷ reasons fs s) now left,
        bytes ∙ stream,
      )
  unsubscribe_each-codes (wildcard f n ∷ fs) codes w =
      skipped fs codes w (unsubscribe_each-codes fs _ w)
  unsubscribe_each-codes (shared_concrete ∷ fs) codes w =
      skipped fs codes w (unsubscribe_each-codes fs _ w)
  unsubscribe_each-codes (shared_wildcard ∷ fs) codes w =
      skipped fs codes w (unsubscribe_each-codes fs _ w)

module _ (E : Env) (sent : E.Stream → List ℕ) (S : IsStream E.io sent) where
  -- An UNSUBSCRIBE that is handled to the end: the client has got an UNSUBACK with the request's
  -- packet id and, for each filter in turn, whether the client was still subscribed to it, or that
  -- the kind of filter is not supported; afterwards it has no receiver for the concrete filters of
  -- the request, and the same as before for every other topic.
  pub handle_unsubscribe_packet-sends :
      (p : UnsubscribePacket) (w w' : World E)
      → handle_unsubscribe_packet E p w ≡ (ok tt, w')
      → (sent w'.stream
          ≡ sent w.stream
            ++ E.encode_mqtt (unsuback E p (reasons p.topic_filters (is_subscribed E w))))
        × ((t : String)
            → get t w'.client.receivers
              ≡ (if requested t p.topic_filters then none else get t w.client.receivers))
  unfolding handle_unsubscribe_packet
  handle_unsubscribe_packet-sends p w w' e =
      let (codes, w₁) = unsubscribe_each E p.topic_filters [] w in
      let (answers, stream) = unsubscribe_each-codes E p.topic_filters [] w in
      let (bytes, kept) = write_to_stream-ok E sent S (unsuback E p codes) w₁ w' e in
      (
        bytes ∙ ap₂ (λ x y. sent x ++ E.encode_mqtt (unsuback E p y)) stream answers,
        λ t.
            ap (λ x. get t x.client.receivers) kept ∙ get-unsubscribe_each E p.topic_filters [] t w,
      )
