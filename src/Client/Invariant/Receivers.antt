-- ===== src/Client/Invariant/Receivers.antt =====
-- The invariant and the receivers of a client (src/tcp_handling.rs).
use mcloudtt.Prelude.{
  String, Option, none, some, ◌≡◌, ◌≢◌, ◌==◌, ◌∙◌, ap, arith, eq_iff, Option-cases, inl, inr, true,
  false, Bool-cases,
}
use mathlib.Core.Path.{subst}
use mcloudtt.Error.{Preserves}
use mcloudtt.BTreeMap.{get, insert, remove}
use mcloudtt.BTreeMap.Laws.{get-insert, get-remove, insert-IsSorted, remove-IsSorted, IsSorted}
use mcloudtt.Broadcast.{View, IsBroadcast}
use mcloudtt.Env.{Env}
use mcloudtt.Topics.{Shared}
use mcloudtt.Topics
use mcloudtt.Topics.Invariant.{IsValid, hub-IsValid, subscribe-IsValid}
use mcloudtt.Topics.Delivery.{Reads}
use mcloudtt.Topics.Readers.{
  Reads-unique, drop_receiver-Reads, recv-Reads, subscribe_returns, subscribe-Keeps-Reads,
}
use mcloudtt.Mqtt.{TopicFilter, concrete, wildcard, shared_concrete, shared_wildcard, Packet}
use mcloudtt.Client.Connection.{recv}
use mcloudtt.Client.State.{World, write_to_stream, drop_old, set_receivers}
use mcloudtt.Client.Subscribe.{
  insert_receiver, send_retained, subscribe_concrete, unsubscribe_filter,
}
use mcloudtt.Client.Invariant.{IsWorld}

module _ (E : Env) (V : View E.bus) (L : IsBroadcast E.bus V) where
  -- Dropping a receiver that no filter stands for any more.
  drop-IsWorld :
      (w : World E) (old : E.Receiver)
      → V.live old w.shared.hub ≡ true
      → ((f : String) → get f w.client.receivers ≢ some old)
      → IsWorld E V w
      → IsWorld E V (drop_old E (some old) w)
  drop-IsWorld w old l gone i = record {
    valid =
        hub-IsValid E V w.shared (E.bus.drop_receiver old w.shared.hub)
          (L.drop_receiver_keeps_known old w.shared.hub) i.valid;
    sorted = i.sorted;
    subscribed = λ f r e.
        drop_receiver-Reads E V L w.shared r old f l (λ same. gone f (e ∙ ap some same))
          (i.subscribed f r e);
  }

  -- A new reader takes its place in the map, over topics that have moved on.
  insert-IsWorld :
      (w : World E) (s : Shared E) (f : String) (r : E.Receiver)
      → IsValid E V s
      → Reads E V r f s
      → ((g : String) (x : E.Receiver) → get g w.client.receivers ≡ some x → Reads E V x g s)
      → IsSorted w.client.receivers
      → IsWorld E V (set_receivers E (insert f r w.client.receivers) (record w { shared = s }))
  insert-IsWorld w s f r v d others sorted = record {
    valid = v;
    sorted = insert-IsSorted f r w.client.receivers sorted;
    subscribed = λ g x e. elim (Bool-cases (g == f)) [
      | inl here ↦
          let same : r ≡ x = ground (arith, get-insert f g r w.client.receivers) in
          rw ((eq_iff g f).0 here, ← same) d
      | inr there ↦ others g x (ground (arith, get-insert f g r w.client.receivers))
    ];
  }

  -- The replaced receiver stands for no filter: the new one is another, and no two filters share one.
  old_gone :
      (w : World E) (f g : String) (r old : E.Receiver)
      → IsWorld E V w
      → V.live r w.shared.hub ≡ false
      → get f w.client.receivers ≡ some old
      → get g (insert f r w.client.receivers) ≢ some old
  old_gone w f g r old i new e e' = elim (Bool-cases (g == f)) [
    | inl here ↦
        let same : r ≡ old = ground (arith, get-insert f g r w.client.receivers) in
        ground (arith, (i.subscribed f old e).live, ap (λ x. V.live x w.shared.hub) same)
    | inr there ↦
        let kept : get g w.client.receivers ≡ some old =
          ground (arith, get-insert f g r w.client.receivers) in
        ground (
          arith,
          eq_iff g f,
          Reads-unique E V L w.shared old g f i.valid (i.subscribed g old kept)
              (i.subscribed f old e),
        )
  ]

  pub insert_receiver-IsWorld :
      (w : World E) (s : Shared E) (f : String) (r : E.Receiver)
      → IsWorld E V w
      → IsValid E V s
      → Reads E V r f s
      → V.live r w.shared.hub ≡ false
      → ((g : String) (x : E.Receiver) → get g w.client.receivers ≡ some x → Reads E V x g s)
      → IsWorld E V (insert_receiver E f r (record w { shared = s }))
  unfolding insert_receiver
  insert_receiver-IsWorld w s f r i v d new others =
      elim (Option-cases (get f w.client.receivers)) [
        | inl e ↦ rw e (insert-IsWorld w s f r v d others i.sorted)
        | inr (old, e) ↦ rw e (
            drop-IsWorld _ old (others f old e).live (λ g e'. old_gone w f g r old i new e e')
              (insert-IsWorld w s f r v d others i.sorted))
      ]

  pub write_to_stream-IsWorld :
      (p : Packet E.PublishPacket E.FinalWill) → Preserves (IsWorld E V) (write_to_stream E p)
  unfolding write_to_stream
  write_to_stream-IsWorld p w i = record {
    valid = i.valid;
    sorted = i.sorted;
    subscribed = i.subscribed;
  }

  send_retained-IsWorld : (o : Option E.PublishPacket) → Preserves (IsWorld E V) (send_retained E o)
  unfolding send_retained
  send_retained-IsWorld none w i = i
  send_retained-IsWorld (some p) w i = write_to_stream-IsWorld (Packet.publish p) w i

  pub subscribe_concrete-IsWorld : (f : String) → Preserves (IsWorld E V) (subscribe_concrete E f)
  unfolding subscribe_concrete
  subscribe_concrete-IsWorld f w i =
      let (r, s, e, reads, fresh) = subscribe_returns E V L f w.shared i.valid in
      let v : IsValid E V s =
        subst (λ x. IsValid E V x.1) e (subscribe-IsValid E V L f w.shared i.valid) in
      let others : (g : String) (x : E.Receiver)
          → get g w.client.receivers ≡ some x
          → Reads E V x g s =
        λ g x e'.
          subst (λ y. Reads E V x g y.1) e
            (subscribe-Keeps-Reads E V L f w.shared x g i.valid (i.subscribed g x e')).0 in
      rw e (
        send_retained-IsWorld
          (Topics.get_retained_message E f (insert_receiver E f r (record w { shared = s })).shared)
          _ (insert_receiver-IsWorld w s f r i v reads fresh.0 others))

  remove-IsWorld :
      (w : World E) (f : String)
      → IsWorld E V w
      → IsWorld E V (set_receivers E (remove f w.client.receivers) w)
  remove-IsWorld w f i = record {
    valid = i.valid;
    sorted = remove-IsSorted f w.client.receivers i.sorted;
    subscribed = λ g x e. i.subscribed g x (ground (arith, get-remove f g w.client.receivers));
  }

  removed_gone :
      (w : World E) (f g : String) (old : E.Receiver)
      → IsWorld E V w
      → get f w.client.receivers ≡ some old
      → get g (remove f w.client.receivers) ≢ some old
  removed_gone w f g old i e e' =
      let kept : get g w.client.receivers ≡ some old =
        ground (arith, get-remove f g w.client.receivers) in
      ground (
        arith,
        eq_iff g f,
        get-remove f g w.client.receivers,
        Reads-unique E V L w.shared old g f i.valid (i.subscribed g old kept)
            (i.subscribed f old e),
      )

  -- After `remove` no filter stands for the receiver that is dropped.
  pub unsubscribe_filter-IsWorld :
      (f : TopicFilter) (w : World E) → IsWorld E V w → IsWorld E V (unsubscribe_filter E f w).1
  unfolding unsubscribe_filter
  unsubscribe_filter-IsWorld (concrete f n) w i = elim (Option-cases (get f w.client.receivers)) [
    | inl e ↦ rw e (remove-IsWorld w f i)
    | inr (old, e) ↦ rw e (
        drop-IsWorld _ old (i.subscribed f old e).live (λ g e'. removed_gone w f g old i e e')
          (remove-IsWorld w f i))
  ]
  unsubscribe_filter-IsWorld (wildcard f n) w i = i
  unsubscribe_filter-IsWorld shared_concrete w i = i
  unsubscribe_filter-IsWorld shared_wildcard w i = i

  -- What is read from a receiver changes only what there is to read.
  pub recv-IsWorld : (r : E.Receiver) → Preserves (IsWorld E V) (recv E r)
  unfolding recv
  recv-IsWorld r w i = record {
    valid =
        hub-IsValid E V w.shared (E.bus.recv r w.shared.hub).1 (L.recv_keeps_known r w.shared.hub)
          i.valid;
    sorted = i.sorted;
    subscribed = λ f x e. recv-Reads E V L w.shared x r f (i.subscribed f x e);
  }
