-- ===== src/Client/Retains.antt =====
-- What a connection (src/tcp_handling.rs) does to the retained message of a topic.
use mcloudtt.Prelude.{
  String, Option, none, some, ◌≡◌, refl, sym, ap, ◌∙◌, ◌==◌, ◌&&◌, List, [], ◌∷◌, if◌then◌else◌,
}
use mcloudtt.Error.{
  Preserves, >>=-Preserves, gets-Preserves, gets, modify, ◌>>◌, ◌>>=◌, >>-Preserves,
}
use mcloudtt.BTreeMap
use mcloudtt.Mqtt.{TopicFilter, concrete, wildcard, shared_concrete, shared_wildcard, Packet}
use mcloudtt.Env.{Env}
use mcloudtt.Topics
use mcloudtt.Topics.{Shared, get_retained_message}
use mcloudtt.Topics.Retained.{
  last_retained, last_retained-append, get_retained_message-publish, get_retained_message-subscribe,
  get_retained_message-topics,
}
use mcloudtt.Client.State.{World, in_topics, drop_old, set_receivers}
use mcloudtt.Client.Subscribe.{
  insert_receiver, send_retained, subscribe_concrete, unsubscribe_filter,
}
use mcloudtt.Client.Connection.{recv}
use mcloudtt.Client.Kept.{IsSilent, IsTracked, write_to_stream-Kept}

module _ (E : Env) where
  module _ (t : String) (o : Option E.PublishPacket) where
    -- The topic has the retained message.
    abbrev Retains : World E → Type 0
    Retains w = get_retained_message E t w.shared ≡ o

    drop_old-Retains :
        (old : Option E.Receiver) (w : World E) → Retains w → Retains (drop_old E old w)
    drop_old-Retains none w i = i
    drop_old-Retains (some r) w i = get_retained_message-topics E t w.shared _ refl ∙ i

    insert_receiver-Retains :
        (f : String) (r : E.Receiver) (w : World E) → Retains w → Retains (insert_receiver E f r w)
    unfolding insert_receiver
    insert_receiver-Retains f r w i =
        drop_old-Retains (BTreeMap.get f w.client.receivers)
          (set_receivers E (BTreeMap.insert f r w.client.receivers) w) i

    client-Retains : (w w' : World E) → w'.shared ≡ w.shared → Retains w → Retains w'
    client-Retains w w' same i = ap (get_retained_message E t) same ∙ i

    send_retained-Retains : (m : Option E.PublishPacket) → Preserves Retains (send_retained E m)
    unfolding send_retained
    send_retained-Retains none w i = i
    send_retained-Retains (some p) w i =
        write_to_stream-Kept E Retains (λ w w' same _. client-Retains w w' same) (Packet.publish p)
          w i

    subscribe_concrete-Retains : (f : String) → Preserves Retains (subscribe_concrete E f)
    unfolding subscribe_concrete
    subscribe_concrete-Retains f =
        let look = gets (λ w. get_retained_message E f w.shared) in
        >>=-Preserves Retains (in_topics E (Topics.subscribe E f))
          (λ r. modify (insert_receiver E f r) >> (look >>= send_retained E))
          (λ w i. get_retained_message-subscribe E f t w.shared ∙ i)
          (λ r.
            >>-Preserves Retains (modify (insert_receiver E f r)) (look >>= send_retained E)
              (insert_receiver-Retains f r)
              (>>=-Preserves Retains look (send_retained E)
                (gets-Preserves Retains (λ w. get_retained_message E f w.shared))
                send_retained-Retains))

    unsubscribe_filter-Retains :
        (f : TopicFilter) (w : World E) → Retains w → Retains (unsubscribe_filter E f w).1
    unfolding unsubscribe_filter
    unsubscribe_filter-Retains (concrete f n) w i =
        drop_old-Retains (BTreeMap.get f w.client.receivers)
          (set_receivers E (BTreeMap.remove f w.client.receivers) w) i
    unsubscribe_filter-Retains (wildcard f n) w i = i
    unsubscribe_filter-Retains shared_concrete w i = i
    unsubscribe_filter-Retains shared_wildcard w i = i

    Retains-IsSilent : IsSilent E Retains
    unfolding recv
    Retains-IsSilent = record {
      client = λ w w' same _. client-Retains w w' same;
      subscribes = subscribe_concrete-Retains;
      unsubscribes = unsubscribe_filter-Retains;
      receives = λ key r w e i. get_retained_message-topics E t w.shared _ refl ∙ i;
    }

  -- The retained message is what is due after the packets so far.
  abbrev pub RetainsLast : String → Option E.PublishPacket → List E.PublishPacket → World E → Type 0
  RetainsLast t old ps w = get_retained_message E t w.shared ≡ last_retained E t old ps

  pub RetainsLast-IsTracked :
      (t : String) (old : Option E.PublishPacket) → IsTracked E (RetainsLast t old)
  unfolding last_retained
  RetainsLast-IsTracked t old = record {
    silent = λ ps. Retains-IsSilent t (last_retained E t old ps);
    publishes = λ p ps w i.
        get_retained_message-publish E p t w.shared
        ∙ ap (λ o. if t == E.topic_name p && E.retain p then some p else o) i
        ∙ sym (last_retained-append E t old ps (p ∷ []));
  }
