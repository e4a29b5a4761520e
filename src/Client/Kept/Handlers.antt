-- ===== src/Client/Kept/Handlers.antt =====
-- What is kept by the handlers that publish nothing (src/tcp_handling.rs).
use mcloudtt.Prelude.{List, [], ◌∷◌, ◌++◌}
use mcloudtt.Error.{Preserves, >>=-Preserves, >>-Preserves}
use mcloudtt.Mqtt.{
  granted_qos_zero, TopicFilter, concrete, wildcard, shared_concrete, shared_wildcard,
  SubscribeAckReason, UnsubscribeAckReason, SubscribePacket, UnsubscribePacket,
}
use mcloudtt.Env.{Env}
use mcloudtt.Client.State.{World, write_to_stream}
use mcloudtt.Client.Subscribe.{
  subscribe_concrete, suback, subscribe_each, handle_subscribe_packet, unsubscribe_filter,
  unsubscribe_each, handle_unsubscribe_packet,
}
use mcloudtt.Client.Kept.{IsSilent, write_to_stream-Kept}

module _ (E : Env) (I : World E → Type 0) (S : IsSilent E I) where
  subscribe_each-Kept :
      (fs : List TopicFilter) (codes : List SubscribeAckReason)
      → Preserves I (subscribe_each E fs codes)
  unfolding subscribe_each
  subscribe_each-Kept [] codes w i = i
  subscribe_each-Kept (concrete f n ∷ fs) codes w i =
      >>-Preserves I (subscribe_concrete E f) (subscribe_each E fs (codes ++ granted_qos_zero ∷ []))
        (S.subscribes f) (subscribe_each-Kept fs (codes ++ granted_qos_zero ∷ [])) w i
  subscribe_each-Kept (wildcard f n ∷ fs) codes w i = subscribe_each-Kept fs _ w i
  subscribe_each-Kept (shared_concrete ∷ fs) codes w i = subscribe_each-Kept fs _ w i
  subscribe_each-Kept (shared_wildcard ∷ fs) codes w i = subscribe_each-Kept fs _ w i

  pub handle_subscribe_packet-Kept :
      (p : SubscribePacket) → Preserves I (handle_subscribe_packet E p)
  unfolding handle_subscribe_packet
  handle_subscribe_packet-Kept p =
      >>=-Preserves I (subscribe_each E p.subscription_topics [])
        (λ codes. write_to_stream E (suback E p codes))
        (subscribe_each-Kept p.subscription_topics [])
        (λ codes. write_to_stream-Kept E I S.client (suback E p codes))

  unsubscribe_each-Kept :
      (fs : List TopicFilter) (codes : List UnsubscribeAckReason) (w : World E)
      → I w
      → I (unsubscribe_each E fs codes w).1
  unfolding unsubscribe_each
  unsubscribe_each-Kept [] codes w i = i
  unsubscribe_each-Kept (f ∷ fs) codes w i =
      unsubscribe_each-Kept fs _ (unsubscribe_filter E f w).1 (S.unsubscribes f w i)

  pub handle_unsubscribe_packet-Kept :
      (p : UnsubscribePacket) → Preserves I (handle_unsubscribe_packet E p)
  unfolding handle_unsubscribe_packet
  handle_unsubscribe_packet-Kept p w i =
      write_to_stream-Kept E I S.client _ _ (unsubscribe_each-Kept p.topic_filters [] w i)
