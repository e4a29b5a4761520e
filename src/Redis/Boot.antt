-- ===== src/Redis/Boot.antt =====
-- The topics while the retained messages are restored from Redis (src/redis_client.rs).
use mcloudtt.Prelude.{String, none, some, Option, Option-cases, List, [], ◌∷◌, refl, inl, inr, true}
use mcloudtt.Error.{
  Action, Result-cases, Preserves, >>=-Preserves, unwrap-Preserves, unwrap, unwrap_result, modify,
  ◌>>◌,
}
use mcloudtt.BTreeMap.{get}
use mcloudtt.Broadcast.{View, IsBroadcast}
use mcloudtt.Env.{Env}
use mcloudtt.Topics
use mcloudtt.Topics.{Shared}
use mcloudtt.Topics.Invariant.{IsValid, add-IsValid, hub-IsValid, set_retained-IsValid}
use mcloudtt.Redis.{
  Crates, Synced, retain_packet, restore_topic, restore, restore_text, restore_key, restore_each,
  get_all_retained_messages, on_topics,
}

module _ (E : Env) (C : Crates) (V : View E.bus) (L : IsBroadcast E.bus V) where
  abbrev Valid : Shared E → Type 0
  Valid s = IsValid E V s

  abbrev Kept : Synced E C → Type 0
  Kept w = IsValid E V w.shared

  unwrap_result-Preserves :
      {A : Type 0}
      → (m : Action (Shared E) A) → Preserves Valid m
      → Preserves Valid (unwrap_result m)
  unwrap_result-Preserves m h s i = elim (Result-cases (m s).0) [
    | inl (a, e) ↦ rw (e, unwrap_result) (h s i)
    | inr (inl (x, e)) ↦ rw (e, unwrap_result) (h s i)
    | inr (inr e) ↦ rw (e, unwrap_result) (h s i)
  ]

  retain_packet-Valid : (t : String) (q : E.PublishPacket) → Preserves Valid (retain_packet E C t q)
  unfolding retain_packet
  retain_packet-Valid t q s v = elim (Option-cases (get t s.topics)) [
    | inl e ↦ rw e v
    | inr (c, e) ↦
        rw e (set_retained-IsValid E V true s t c (record c { retained_message = some q }) e refl v)
  ]

  restore_topic-Valid : (t : String) (q : E.PublishPacket) → Preserves Valid (restore_topic E C t q)
  unfolding restore_topic
  restore_topic-Valid t q =
      let rest : E.Receiver → Action (Shared E) (Unit {0}) = λ x.
        modify (λ s. record s { hub = E.bus.drop_receiver x s.hub }) >> retain_packet E C t q in
      >>=-Preserves Valid (unwrap_result (Topics.add E t)) rest
        (unwrap_result-Preserves (Topics.add E t) (add-IsValid E V L t))
        (λ x.
          >>=-Preserves Valid (modify (λ s. record s { hub = E.bus.drop_receiver x s.hub }))
            (λ _. retain_packet E C t q)
            (λ s v.
              hub-IsValid E V s (E.bus.drop_receiver x s.hub) (L.drop_receiver_keeps_known x s.hub)
                v)
            (λ _. retain_packet-Valid t q))

  restore_text-Kept : (o : Option String) → Preserves Kept (restore_text E C o)
  unfolding restore_text restore
  restore_text-Kept none w v = v
  restore_text-Kept (some text) w v = elim (Option-cases (C.from_text_option text)) [
    | inl e ↦ rw (e, restore_text) v
    | inr (none, e) ↦ rw (e, restore_text) v
    | inr (some m, e) ↦
        rw (e, restore_text, restore)
          (>>=-Preserves Kept (unwrap (E.build m.topic m.payload none))
            (λ q. on_topics E C (restore_topic E C m.topic q))
            (unwrap-Preserves Kept (E.build m.topic m.payload none))
            (λ q x. restore_topic-Valid m.topic q x.shared) w v)
  ]

  restore_each-Kept : (keys : List String) → Preserves Kept (restore_each E C keys)
  unfolding restore_each restore_key
  restore_each-Kept [] = λ w v. v
  restore_each-Kept (key ∷ keys) =
      >>=-Preserves Kept (restore_key E C key) (λ _. restore_each E C keys)
        (λ w v.
          restore_text-Kept (C.get key w.server).0 (record w { server = (C.get key w.server).1 }) v)
        (λ _. restore_each-Kept keys)

  -- Whatever the Redis server has, restoring the retained messages keeps the topics valid.
  pub get_all_retained_messages-IsValid :
      (w : Synced E C)
      → IsValid E V w.shared
      → IsValid E V (get_all_retained_messages E C w).1.shared
  unfolding get_all_retained_messages
  get_all_retained_messages-IsValid w v =
      let (keys, s) = C.keys "retain:*" w.server in
      >>=-Preserves Kept (unwrap keys) (restore_each E C) (unwrap-Preserves Kept keys)
        restore_each-Kept (record w { server = s }) v
