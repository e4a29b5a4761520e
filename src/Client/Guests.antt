-- ===== src/Client/Guests.antt =====
-- What a connection (src/tcp_handling.rs) does to the receivers of the others: a guest is a receiver
-- that is not in the connection's map.
use mcloudtt.Prelude.{
  String, List, Option, some, none, ◌≡◌, ◌≢◌, ◌∙◌, ◌==◌, sym, refl, ap, [], ◌∷◌, ◌++◌, arith, true,
  Option-cases, Bool-cases, inl, inr,
}
use mathlib.Core.Path.{subst}
use mcloudtt.BTreeMap.{BTreeMap, get, insert, remove}
use mcloudtt.BTreeMap.Laws.{get-insert, get-remove}
use mcloudtt.Broadcast.{View, IsBroadcast, Keeps}
use mcloudtt.Mqtt.{TopicFilter, concrete, wildcard, shared_concrete, shared_wildcard, Packet}
use mcloudtt.Env.{Env}
use mcloudtt.Topics
use mcloudtt.Topics.{Shared}
use mcloudtt.Topics.Invariant.{IsValid}
use mcloudtt.Topics.Retained.{publish_all}
use mcloudtt.Topics.Delivery.{Reads, publish-Reads}
use mcloudtt.Topics.Readers.{
  subscribe-Keeps-Reads, subscribe_returns, drop_receiver-Reads, recv-Reads,
}
use mcloudtt.Topics.Queues.{SameQueue, publish-SameQueue, publish_all-Reads, publish_all-append}
use mcloudtt.Topics.History.{publish_all-IsValid}
use mcloudtt.Client.State.{World, write_to_stream, drop_old, set_receivers}
use mcloudtt.Client.Subscribe.{
  insert_receiver, send_retained, subscribe_concrete, unsubscribe_filter,
}
use mcloudtt.Client.Connection.{recv}
use mcloudtt.Client.Kept.{IsSilent, IsTracked}
use mcloudtt.Client.Invariant.{IsWorld}
use mcloudtt.Client.Invariant.Loop.{IsWorld-IsKept}

module _ (E : Env) (V : View E.bus) where
  -- It has to read what it would after the given packets are published.
  pub record Guest (r : E.Receiver) (t : String) (s₀ : Shared E) (ps : List E.PublishPacket)
      (w : World E) : Type 0 where
    pub reads : Reads E V r t w.shared
    pub apart : (f : String) → get f w.client.receivers ≢ some r
    pub history : SameQueue E V r (publish_all E ps s₀) w.shared

  -- The invariant, and a guest.
  abbrev pub Hosts : E.Receiver → String → Shared E → List E.PublishPacket → World E → Type 0
  Hosts r t s₀ ps w = IsWorld E V w × Guest r t s₀ ps w

module _ (E : Env) (V : View E.bus) (L : IsBroadcast E.bus V) where
  module _ (r : E.Receiver) (t : String) (s₀ : Shared E) (ps : List E.PublishPacket) where
    -- Nothing has changed for the guest.
    history-Keeps :
        (s s' : Shared E)
        → Keeps E.bus V r s.hub s'.hub
        → SameQueue E V r (publish_all E ps s₀) s
        → SameQueue E V r (publish_all E ps s₀) s'
    history-Keeps s s' k h = (k.1 ∙ h.0, k.2 ∙ h.1)

    client-Guest :
        (w w' : World E)
        → w'.shared ≡ w.shared
        → w'.client.receivers ≡ w.client.receivers
        → Guest E V r t s₀ ps w
        → Guest E V r t s₀ ps w'
    client-Guest w w' s m g = record {
      reads = rw s g.reads;
      apart = λ f. rw m (g.apart f);
      history = rw s g.history;
    }

    drop-Guest :
        (w : World E) (old : E.Receiver)
        → V.live old w.shared.hub ≡ true
        → r ≢ old
        → Guest E V r t s₀ ps w
        → Guest E V r t s₀ ps (drop_old E (some old) w)
    drop-Guest w old l ne g = record {
      reads = drop_receiver-Reads E V L w.shared r old t l ne g.reads;
      apart = g.apart;
      history =
          history-Keeps w.shared (drop_old E (some old) w).shared
            (L.drop_receiver_keeps old w.shared.hub r l g.reads.live ne) g.history;
    }

    -- Only receivers that are not the guest come into the map.
    receivers-Guest :
        (w : World E) (s : Shared E) (m : BTreeMap E.Receiver)
        → Reads E V r t s
        → Keeps E.bus V r w.shared.hub s.hub
        → ((f : String) → get f m ≢ some r)
        → Guest E V r t s₀ ps w
        → Guest E V r t s₀ ps (set_receivers E m (record w { shared = s }))
    receivers-Guest w s m d k a g = record {
      reads = d;
      apart = a;
      history = history-Keeps w.shared s k g.history;
    }

    apart-insert :
        (f : String) (x : E.Receiver) (m : BTreeMap E.Receiver)
        → r ≢ x
        → ((g : String) → get g m ≢ some r)
        → (g : String) → get g (insert f x m) ≢ some r
    apart-insert f x m ne a g e = elim (Bool-cases (g == f)) [
      | inl here ↦ let same : x ≡ r = ground (arith, get-insert f g x m) in ne (sym same)
      | inr there ↦ a g (ground (arith, get-insert f g x m))
    ]

    insert_receiver-Guest :
        (w : World E) (s : Shared E) (f : String) (x : E.Receiver)
        → ((old : E.Receiver) → get f w.client.receivers ≡ some old → V.live old s.hub ≡ true)
        → Reads E V r t s
        → Keeps E.bus V r w.shared.hub s.hub
        → r ≢ x
        → Guest E V r t s₀ ps w
        → Guest E V r t s₀ ps (insert_receiver E f x (record w { shared = s }))
    unfolding insert_receiver
    insert_receiver-Guest w s f x live d k ne g =
        let m = insert f x w.client.receivers in
        let placed = receivers-Guest w s m d k (apart-insert f x w.client.receivers ne g.apart) g in
        elim (Option-cases (get f w.client.receivers)) [
          | inl e ↦ rw e placed
          | inr (old, e) ↦ rw e (
              drop-Guest (set_receivers E m (record w { shared = s })) old (live old e)
                (λ same. g.apart f (e ∙ ap some (sym same))) placed)
        ]

    subscribe_concrete-Guest :
        (f : String) (w : World E)
        → IsWorld E V w
        → Guest E V r t s₀ ps w
        → Guest E V r t s₀ ps (subscribe_concrete E f w).1
    unfolding subscribe_concrete send_retained write_to_stream
    subscribe_concrete-Guest f w i g =
        let (x, s, e, reads, fresh) = subscribe_returns E V L f w.shared i.valid in
        let (d, k) =
          subst (λ y. Reads E V r t y.1 × Keeps E.bus V r w.shared.hub y.1.hub) e
            (subscribe-Keeps-Reads E V L f w.shared r t i.valid g.reads) in
        let live : (old : E.Receiver)
            → get f w.client.receivers ≡ some old
            → V.live old s.hub ≡ true =
          λ old e'.
            (subst (λ y. Reads E V old f y.1) e
              (subscribe-Keeps-Reads E V L f w.shared old f i.valid
                (i.subscribed f old e')).0).live in
        let ne : r ≢ x =
          λ same. ground (arith, ap (λ y. V.live y w.shared.hub) same, fresh.0, g.reads.live) in
        let w' = insert_receiver E f x (record w { shared = s }) in
        rw e (
          retained-Guest (Topics.get_retained_message E f w'.shared) w'
            (insert_receiver-Guest w s f x live d k ne g))
      where
        retained-Guest :
            (o : Option E.PublishPacket) (x : World E)
            → Guest E V r t s₀ ps x
            → Guest E V r t s₀ ps (send_retained E o x).1
        retained-Guest none x g = g
        retained-Guest (some p) x g =
            client-Guest x (write_to_stream E (Packet.publish p) x).1 refl refl g

    unsubscribe_filter-Guest :
        (f : TopicFilter) (w : World E)
        → IsWorld E V w
        → Guest E V r t s₀ ps w
        → Guest E V r t s₀ ps (unsubscribe_filter E f w).1
    unfolding unsubscribe_filter
    unsubscribe_filter-Guest (concrete f n) w i g =
        let m = remove f w.client.receivers in
        let apart : (h : String) → get h m ≢ some r =
          λ h e. g.apart h (ground (arith, get-remove f h w.client.receivers)) in
        let taken = receivers-Guest w w.shared m g.reads (refl, refl, refl) apart g in
        elim (Option-cases (get f w.client.receivers)) [
          | inl e ↦ rw e taken
          | inr (old, e) ↦ rw e (
              drop-Guest (set_receivers E m w) old (i.subscribed f old e).live
                (λ same. g.apart f (e ∙ ap some (sym same))) taken)
        ]
    unsubscribe_filter-Guest (wildcard f n) w i g = g
    unsubscribe_filter-Guest shared_concrete w i g = g
    unsubscribe_filter-Guest shared_wildcard w i g = g

    recv-Guest :
        (key : String) (x : E.Receiver) (w : World E)
        → get key w.client.receivers ≡ some x
        → IsWorld E V w
        → Guest E V r t s₀ ps w
        → Guest E V r t s₀ ps (recv E x w).1
    unfolding recv
    recv-Guest key x w e i g = record {
      reads = recv-Reads E V L w.shared r x t g.reads;
      apart = g.apart;
      history =
          history-Keeps w.shared (recv E x w).1.shared
            (L.recv_keeps x w.shared.hub r (i.subscribed key x e).live g.reads.live
              (λ same. g.apart key (e ∙ ap some (sym same))))
            g.history;
    }

    Guest-IsSilent : IsSilent E (Hosts E V r t s₀ ps)
    Guest-IsSilent =
        let S = (IsWorld-IsKept E V L).silent in
        record {
          client = λ w w' s m h. (S.client w w' s m h.0, client-Guest w w' s m h.1);
          subscribes = λ f w h. (S.subscribes f w h.0, subscribe_concrete-Guest f w h.0 h.1);
          unsubscribes = λ f w h. (S.unsubscribes f w h.0, unsubscribe_filter-Guest f w h.0 h.1);
          receives = λ key x w e h. (S.receives key x w e h.0, recv-Guest key x w e h.0 h.1);
        }

  module _ (r : E.Receiver) (t : String) (s₀ : Shared E) (v₀ : IsValid E V s₀)
      (d₀ : Reads E V r t s₀) where
    publish-Guest :
        (p : E.PublishPacket) (ps : List E.PublishPacket) (w : World E)
        → IsWorld E V w
        → Guest E V r t s₀ ps w
        → Guest E V r t s₀ (ps ++ p ∷ []) (record w { shared = (Topics.publish E p w.shared).1 })
    publish-Guest p ps w i g =
        let s = publish_all E ps s₀ in
        record {
          reads = publish-Reads E V L p w.shared r t i.valid g.reads;
          apart = g.apart;
          history = rw (publish_all-append E V L ps p s₀) (
              publish-SameQueue E V L p s w.shared r t (publish_all-IsValid E V L ps s₀ v₀) i.valid
                (publish_all-Reads E V L ps s₀ r t v₀ d₀) g.reads g.history);
        }

    pub Hosts-IsTracked : IsTracked E (Hosts E V r t s₀)
    Hosts-IsTracked = record {
      silent = Guest-IsSilent r t s₀;
      publishes =
          λ p ps w h. ((IsWorld-IsKept E V L).publishes p w h.0, publish-Guest p ps w h.0 h.1);
    }
