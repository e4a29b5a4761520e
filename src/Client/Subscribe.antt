-- ===== src/Client/Subscribe.antt =====
-- `handle_subscribe_packet` and `handle_unsubscribe_packet` of src/tcp_handling.rs.
pub mod Suback
pub mod Unsuback
pub mod Answered
use mcloudtt.Prelude.{ℕ, String, Option, none, some, List, [], ◌∷◌, ◌++◌}
use mcloudtt.Error.{Action, pure, gets, modify, ◌>>=◌, ◌>>◌}
use mcloudtt.BTreeMap
use mcloudtt.Mqtt.{
  Packet, TopicFilter, concrete, wildcard, shared_concrete, shared_wildcard, SubscribeAckReason,
  granted_qos_zero, wildcard_subscriptions_not_supported, shared_subscriptions_not_supported,
  UnsubscribeAckReason, SubscribePacket, UnsubscribePacket,
}
use mcloudtt.Mqtt.UnsubscribeAckReason.{
  success, no_subscription_existed, implementation_specific_error,
}
use mcloudtt.Mqtt.Packet.{publish, subscribe_ack, unsubscribe_ack}
use mcloudtt.Env.{Env}
use mcloudtt.Topics
use mcloudtt.Client.State.{World, in_topics, write_to_stream, set_receivers, drop_old}

module _ (E : Env) where
  -- `self.receivers.insert(f, receiver)`
  unfoldable pub insert_receiver : String → E.Receiver → World E → World E
  insert_receiver f receiver w =
      drop_old E (BTreeMap.get f w.client.receivers)
        (set_receivers E (BTreeMap.insert f receiver w.client.receivers) w)

  -- "If we have a retained message, send it to the client"
  unfoldable pub send_retained : Option E.PublishPacket → Action (World E) (Unit {0})
  send_retained none = pure tt
  send_retained (some message) = write_to_stream E (publish message)

  unfoldable pub subscribe_concrete : String → Action (World E) (Unit {0})
  unfolding insert_receiver send_retained
  subscribe_concrete f = do
    receiver ← in_topics E (Topics.subscribe E f)
    modify (insert_receiver f receiver)
    retained_message ← gets (λ w. Topics.get_retained_message E f w.shared)
    send_retained retained_message

  -- The loop over the filters, with the reason codes so far.
  unfoldable pub subscribe_each :
      List TopicFilter → List SubscribeAckReason → Action (World E) (List SubscribeAckReason)
  subscribe_each [] codes = pure codes
  subscribe_each (concrete f _ ∷ fs) codes =
      subscribe_concrete f >> subscribe_each fs (codes ++ granted_qos_zero ∷ [])
  subscribe_each (wildcard _ _ ∷ fs) codes =
      subscribe_each fs (codes ++ wildcard_subscriptions_not_supported ∷ [])
  subscribe_each (shared_concrete ∷ fs) codes =
      subscribe_each fs (codes ++ shared_subscriptions_not_supported ∷ [])
  subscribe_each (shared_wildcard ∷ fs) codes =
      subscribe_each fs (codes ++ shared_subscriptions_not_supported ∷ [])

  abbrev pub suback : SubscribePacket → List SubscribeAckReason → Packet E.PublishPacket E.FinalWill
  suback packet codes = subscribe_ack (record {
    packet_id = packet.packet_id;
    reason_string = none;
    user_properties = [];
    reason_codes = codes;
  })

  unfoldable pub handle_subscribe_packet : SubscribePacket → Action (World E) (Unit {0})
  handle_subscribe_packet packet = do
    codes ← subscribe_each packet.subscription_topics []
    write_to_stream E (suback packet codes)

  -- `match self.receivers.remove(filter)`
  unfoldable pub removed : Option E.Receiver → UnsubscribeAckReason
  removed none = no_subscription_existed
  removed (some _) = success

  unfoldable pub unsubscribe_filter : TopicFilter → World E → UnsubscribeAckReason × World E
  unfolding removed
  unsubscribe_filter (concrete f _) w =
      let old = BTreeMap.get f w.client.receivers in
      (removed old, drop_old E old (set_receivers E (BTreeMap.remove f w.client.receivers) w))
  unsubscribe_filter (wildcard _ _) w = (implementation_specific_error, w)
  unsubscribe_filter shared_concrete w = (implementation_specific_error, w)
  unsubscribe_filter shared_wildcard w = (implementation_specific_error, w)

  -- The `for_each` over the filters, with the reason codes so far.
  unfoldable pub unsubscribe_each :
      List TopicFilter → List UnsubscribeAckReason → World E → List UnsubscribeAckReason × World E
  unsubscribe_each [] codes w = (codes, w)
  unsubscribe_each (f ∷ fs) codes w =
      let (code, w') = unsubscribe_filter f w in unsubscribe_each fs (codes ++ code ∷ []) w'

  abbrev pub unsuback :
      UnsubscribePacket → List UnsubscribeAckReason → Packet E.PublishPacket E.FinalWill
  unsuback packet codes = unsubscribe_ack (record {
    packet_id = packet.packet_id;
    reason_codes = codes;
    user_properties = [];
    reason_string = none;
  })

  unfoldable pub handle_unsubscribe_packet : UnsubscribePacket → Action (World E) (Unit {0})
  handle_unsubscribe_packet packet w =
      let (codes, w') = unsubscribe_each packet.topic_filters [] w in
      write_to_stream E (unsuback packet codes) w'
