-- ===== src/Client/Ended.antt =====
-- The end of a connection (src/main.rs drops the `Client` with its task): all its receivers go.
use mcloudtt.Prelude.{
  String, ◌==◌, sym, false, Bool-cases, inl, inr, some, ◌≡◌, ◌≢◌, ◌∙◌, refl, ap, [], ◌∷◌, arith,
  eq_refl,
}
use mcloudtt.BTreeMap.{BTreeMap, get}
use mcloudtt.BTreeMap.Laws.{IsSorted, get-Above, get-tail}
use mcloudtt.Broadcast.{View, IsBroadcast, Keeps}
use mcloudtt.Env.{Env}
use mcloudtt.Topics.{Shared}
use mcloudtt.Topics.Invariant.{IsValid, hub-IsValid}
use mcloudtt.Topics.Delivery.{Reads}
use mcloudtt.Topics.Readers.{Reads-unique, drop_receiver-Reads}

module _ (E : Env) where
  abbrev pub drop_one : E.Receiver → Shared E → Shared E
  drop_one r s = record s { hub = E.bus.drop_receiver r s.hub }

  -- The receivers of the map are dropped one after another.
  unfoldable pub drop_all : BTreeMap E.Receiver → Shared E → Shared E
  drop_all [] s = s
  drop_all ((key, r) ∷ m) s = drop_all m (drop_one r s)

  pub drop_all-topics : (m : BTreeMap E.Receiver) (s : Shared E) → (drop_all m s).topics ≡ s.topics
  unfolding drop_all
  drop_all-topics [] s = refl
  drop_all-topics ((key, r) ∷ m) s = drop_all-topics m (drop_one r s)

module _ (E : Env) (V : View E.bus) (L : IsBroadcast E.bus V) where
  drop_all-stays_dead :
      (m : BTreeMap E.Receiver) (s : Shared E) (r : E.Receiver)
      → V.live r s.hub ≡ false
      → V.live r (drop_all E m s).hub ≡ false
  unfolding drop_all
  drop_all-stays_dead [] s r d = d
  drop_all-stays_dead ((key, x) ∷ m) s r d =
      drop_all-stays_dead m (drop_one E x s) r (L.drop_receiver_stays_dead x s.hub r d)

  -- No receiver of the map is live afterwards.
  pub drop_all-dead :
      (m : BTreeMap E.Receiver) (s : Shared E) (f : String) (r : E.Receiver)
      → get f m ≡ some r
      → V.live r (drop_all E m s).hub ≡ false
  unfolding drop_all get
  drop_all-dead [] s f r e = cc
  drop_all-dead ((key, x) ∷ m) s f r e = elim (Bool-cases (f == key)) [
    | inl here ↦
        let found : some x ≡ some r = rw here at e in
        let same : x ≡ r = cc in
        drop_all-stays_dead m (drop_one E x s) r (
          ap (λ y. V.live y (E.bus.drop_receiver x s.hub)) (sym same)
          ∙ L.drop_receiver_dead x s.hub)
    | inr there ↦ drop_all-dead m (drop_one E x s) f r (rw there at e)
  ]

  -- Each entry of the map reads the topic of its key.
  abbrev pub Subscriptions : BTreeMap E.Receiver → Shared E → Type 0
  Subscriptions m s = (f : String) (x : E.Receiver) → get f m ≡ some x → Reads E V x f s

  drop_one-Subscriptions :
      (key : String) (r : E.Receiver) (m : BTreeMap E.Receiver) (s : Shared E)
      → IsSorted ((key, r) ∷ m)
      → IsValid E V s
      → Reads E V r key s
      → Subscriptions m s
      → Subscriptions m (drop_one E r s)
  drop_one-Subscriptions key r m s sorted v d h f x e =
      drop_receiver-Reads E V L s x r f d.live
        (λ same.
          let here : f ≡ key = Reads-unique E V L s x f key v (h f x e) (rw same d) in
          ground (arith, ap (λ k. get k m) here, get-Above key m sorted.0, e))
        (h f x e)

  -- The topics stay valid, and a reader that is not in the map notices nothing.
  pub drop_all-Keeps :
      (m : BTreeMap E.Receiver) (s : Shared E)
      → IsSorted m
      → IsValid E V s
      → Subscriptions m s
      → IsValid E V (drop_all E m s)
        × ((r : E.Receiver) (t : String)
            → ((f : String) → get f m ≢ some r)
            → Reads E V r t s
            → Reads E V r t (drop_all E m s) × Keeps E.bus V r s.hub (drop_all E m s).hub)
  unfolding drop_all get
  drop_all-Keeps [] s sorted v h = (v, λ r t a d. (d, (refl, refl, refl)))
  drop_all-Keeps ((key, x) ∷ m) s sorted v h =
      let d = h key x (rw (eq_refl key) refl) in
      let tail : Subscriptions m s = λ f y e. h f y (get-tail key f x y m sorted e) in
      let (v', kept) =
        drop_all-Keeps m (drop_one E x s) sorted.1
          (hub-IsValid E V s (E.bus.drop_receiver x s.hub) (L.drop_receiver_keeps_known x s.hub) v)
          (drop_one-Subscriptions key x m s sorted v d tail) in
      (
        v',
        λ r t a d'.
            let ne : r ≢ x = λ same. a key (rw (eq_refl key, same) refl) in
            let one = L.drop_receiver_keeps x s.hub r d.live d'.live ne in
            let (d'', rest) =
              kept r t (λ f e. a f (get-tail key f x r m sorted e))
                (drop_receiver-Reads E V L s r x t d.live ne d') in
            (d'', (rest.0 ∙ one.0, rest.1 ∙ one.1, rest.2 ∙ one.2)),
      )
