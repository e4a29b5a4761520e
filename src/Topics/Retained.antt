-- ===== src/Topics/Retained.antt =====
-- The results of `publish` and `subscribe` (src/topics.rs), and the retained messages.
use mcloudtt.Prelude.{
  String, some, none, true, ◌&&◌, ◌≡◌, ◌==◌, if◌then◌else◌, arith, eq_iff, Option, Option-cases,
  inl, inr, refl, List, [], ◌∷◌, ◌++◌, ◌∙◌, ap,
}
use mcloudtt.Error.{ok, err, is_ok, topic_already_exists}
use mcloudtt.BTreeMap.{get}
use mcloudtt.BTreeMap.Laws.{get-insert, get-insert_self}
use mcloudtt.Env.{Env}
use mcloudtt.Topics.{Shared, Channel, new, add, subscribe, publish, get_retained_message}
use mcloudtt.Topics.Runs.{
  add_missing, add_existing, subscribe_existing, subscribe_missing, publish_existing,
  publish_missing,
}

module _ (E : Env) where
  -- Publishing returns `Ok` in any state, so neither it nor the two `unwrap` calls in it panic,
  -- with or without subscribers.
  pub publish-ok : (p : E.PublishPacket) (s : Shared E) → (publish E p s).0 ≡ ok tt
  publish-ok p s = elim (Option-cases (get (E.topic_name p) s.topics)) [
    | inl e ↦ rw (publish_missing E p s e)
    | inr (c, e) ↦ rw (publish_existing E p s c e)
  ]

  pub subscribe-is_ok : (name : String) (s : Shared E) → is_ok (subscribe E name s).0 ≡ true
  subscribe-is_ok name s = elim (Option-cases (get name s.topics)) [
    | inl e ↦ rw (subscribe_missing E name s e, add_missing E name s e)
    | inr (c, e) ↦ rw (subscribe_existing E name s c e)
  ]

  pub get_retained_message-publish :
      (p : E.PublishPacket) (t : String) (s : Shared E)
      → get_retained_message E t (publish E p s).1
        ≡ (if t == E.topic_name p && E.retain p then some p else get_retained_message E t s)
  unfolding get_retained_message new
  get_retained_message-publish p t s = elim (Option-cases (get (E.topic_name p) s.topics)) [
    | inl e ↦ rw (publish_missing E p s e) (grind (arith, get-insert, eq_iff t (E.topic_name p)))
    | inr (c, e) ↦
        rw (publish_existing E p s c e) (grind (arith, get-insert, eq_iff t (E.topic_name p)))
  ]

  -- Subscribing changes no retained message of any topic, whether it makes a topic or not.
  pub get_retained_message-subscribe :
      (name t : String) (s : Shared E)
      → get_retained_message E t (subscribe E name s).1 ≡ get_retained_message E t s
  unfolding get_retained_message new
  get_retained_message-subscribe name t s = elim (Option-cases (get name s.topics)) [
    | inl e ↦
        rw (subscribe_missing E name s e, add_missing E name s e)
          (grind (arith, get-insert, eq_iff t name))
    | inr (c, e) ↦ rw (subscribe_existing E name s c e)
  ]

  -- Adding a topic that exists returns `TopicAlreadyExists`, and by then the topic has lost its
  -- retained message, whatever it was.
  pub get_retained_message-add_existing :
      (name : String) (s : Shared E) (c : Channel E)
      → get name s.topics ≡ some c
      → ((add E name s).0 ≡ err (topic_already_exists name))
        × (get_retained_message E name (add E name s).1 ≡ none)
  unfolding get_retained_message new
  get_retained_message-add_existing name s c e =
      rw (add_existing E name s c e)
        (refl, ground (arith, get-insert_self name (new E (E.bus.channel 1024 s.hub).0) s.topics))

  -- The packets published one after another.
  unfoldable pub publish_all : List E.PublishPacket → Shared E → Shared E
  publish_all [] s = s
  publish_all (p ∷ ps) s = publish_all ps (publish E p s).1

  -- The abstract view: the last packet of the topic that asked to be retained, if any.
  unfoldable pub last_retained :
      String → Option E.PublishPacket → List E.PublishPacket → Option E.PublishPacket
  last_retained t old [] = old
  last_retained t old (p ∷ ps) =
      last_retained t (if t == E.topic_name p && E.retain p then some p else old) ps

  pub last_retained-append :
      (t : String) (old : Option E.PublishPacket) (ps qs : List E.PublishPacket)
      → last_retained t old (ps ++ qs) ≡ last_retained t (last_retained t old ps) qs
  unfolding last_retained
  last_retained-append t old [] qs = refl
  last_retained-append t old (p ∷ ps) qs =
      last_retained-append t (if t == E.topic_name p && E.retain p then some p else old) ps qs

  -- After any sequence of packets the retained message of a topic is the last packet on it that
  -- asked to be retained, and the one from before if there was none.
  pub get_retained_message-publish_all :
      (ps : List E.PublishPacket) (t : String) (s : Shared E)
      → get_retained_message E t (publish_all ps s)
        ≡ last_retained t (get_retained_message E t s) ps
  unfolding publish_all last_retained
  get_retained_message-publish_all [] t s = refl
  get_retained_message-publish_all (p ∷ ps) t s =
      get_retained_message-publish_all ps t (publish E p s).1
      ∙ ap (λ o. last_retained t o ps) (get_retained_message-publish p t s)

  -- Only the map of topics matters.
  pub get_retained_message-topics :
      (t : String) (s s' : Shared E)
      → s'.topics ≡ s.topics
      → get_retained_message E t s' ≡ get_retained_message E t s
  unfolding get_retained_message
  get_retained_message-topics t s s' e = rw e
