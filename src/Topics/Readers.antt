-- ===== src/Topics/Readers.antt =====
-- What becomes of the readers of a topic (src/topics.rs) when receivers come and go.
use mcloudtt.Prelude.{String, ◌≡◌, ◌≢◌, arith, eq_iff, Option-cases, inl, inr, refl, true, sym, ◌∙◌}
use mcloudtt.Error.{ok, err, panic, Result}
use mcloudtt.BTreeMap.{get}
use mcloudtt.BTreeMap.Laws.{get-insert}
use mcloudtt.Broadcast.{View, IsBroadcast, Keeps, Fresh}
use mcloudtt.Env.{Env}
use mcloudtt.Topics.{Shared, new, subscribe}
use mcloudtt.Topics.Runs.{add_missing, subscribe_existing, subscribe_missing}
use mcloudtt.Topics.Invariant.{IsValid}
use mcloudtt.Topics.Delivery.{Reads, Subscribed, subscribe-Subscribed}

module _ (E : Env) (V : View E.bus) (L : IsBroadcast E.bus V) where
  -- Another subscription leaves a reader as it was.
  pub subscribe-Keeps-Reads :
      (name : String) (s : Shared E) (r : E.Receiver) (t : String)
      → IsValid E V s
      → Reads E V r t s
      → Reads E V r t (subscribe E name s).1 × Keeps E.bus V r s.hub (subscribe E name s).1.hub
  subscribe-Keeps-Reads name s r t v d = elim (Option-cases (get name s.topics)) [
    | inl e ↦
        let (sender, receiver, h) = E.bus.channel 1024 s.hub in
        let kept = L.channel_keeps 1024 s.hub r d.live in
        rw (subscribe_missing E name s e, add_missing E name s e)
          (
            record {
              channel = d.channel;
              found =
                  ground (arith, get-insert name t (new E sender) s.topics, eq_iff t name, d.found);
              attached = d.attached;
              live = kept.0 ∙ d.live;
            },
            kept,
          )
    | inr (c, e) ↦
        let kept = L.subscribe_keeps c.sender s.hub r d.live in
        rw (subscribe_existing E name s c e) (
          record {
            channel = d.channel;
            found = d.found;
            attached = d.attached;
            live = kept.0 ∙ d.live;
          },
          kept,
        )
  ]

  -- A receiver reads one topic at most.
  pub Reads-unique :
      (s : Shared E) (r : E.Receiver) (t u : String)
      → IsValid E V s
      → Reads E V r t s
      → Reads E V r u s
      → t ≡ u
  Reads-unique s r t u v d d' =
      v.distinct t u d.channel d'.channel d.found d'.found (sym d.attached ∙ d'.attached)

  -- Readers survive the end of another receiver, and what is read by it.
  pub drop_receiver-Reads :
      (s : Shared E) (r old : E.Receiver) (t : String)
      → V.live old s.hub ≡ true
      → r ≢ old
      → Reads E V r t s
      → Reads E V r t (record s { hub = E.bus.drop_receiver old s.hub })
  drop_receiver-Reads s r old t l ne d = record {
    channel = d.channel;
    found = d.found;
    attached = d.attached;
    live = (L.drop_receiver_keeps old s.hub r l d.live ne).0 ∙ d.live;
  }

  pub recv-Reads :
      (s : Shared E) (r other : E.Receiver) (t : String)
      → Reads E V r t s
      → Reads E V r t (record s { hub = (E.bus.recv other s.hub).1 })
  recv-Reads s r other t d = record {
    channel = d.channel;
    found = d.found;
    attached = d.attached;
    live = L.recv_live other s.hub r ∙ d.live;
  }

  -- `subscribe` returns, and what it returns.
  pub subscribe_returns :
      (name : String) (s : Shared E)
      → IsValid E V s
      → (r : E.Receiver) × (s' : Shared E) × (subscribe E name s ≡ (ok r, s'))
        × Reads E V r name s'
        × Fresh E.bus V r (V.sender_of r) s.hub s'.hub
  subscribe_returns name s v =
      returned (subscribe E name s) refl (subscribe-Subscribed E V L name s v)
    where
      returned :
          (x : Result E.Receiver × Shared E)
          → subscribe E name s ≡ x
          → Subscribed E V name s x
          → (r : E.Receiver) × (s' : Shared E) × (subscribe E name s ≡ (ok r, s'))
            × Reads E V r name s'
            × Fresh E.bus V r (V.sender_of r) s.hub s'.hub
      returned (ok r, s') e h = (r, s', e, h.0, h.1)
      returned (err x, s') e h = absurd h
      returned (panic, s') e h = absurd h
