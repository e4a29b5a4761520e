-- ===== src/Topics/Runs.antt =====
-- What each operation of src/topics.rs comes to, by whether the topic exists.
use mcloudtt.Prelude.{String, some, none, ◌≡◌, if◌then◌else◌, arith}
use mcloudtt.Error.{ok, err, topic_already_exists}
use mcloudtt.BTreeMap.{get, insert}
use mcloudtt.BTreeMap.Laws.{get-insert_self}
use mcloudtt.Env.{Env, publish as publish_message}
use mcloudtt.Topics.{Shared, Channel, new, add, subscribe, send_to_topic, set_retained, publish}

module _ (E : Env) where
  abbrev pub send_hub : E.Sender → E.PublishPacket → E.Hub → E.Hub
  send_hub sender p h = (E.bus.send sender (publish_message p) h).1

  pub add_missing :
      (name : String) (s : Shared E)
      → get name s.topics ≡ none
      → let (sender, receiver, h) = E.bus.channel 1024 s.hub in
        add E name s
        ≡ (ok receiver, record { topics = insert name (new E sender) s.topics; hub = h })
  unfolding add
  add_missing name s e = ground arith

  pub add_existing :
      (name : String) (s : Shared E) (c : Channel E)
      → get name s.topics ≡ some c
      → let (sender, receiver, h) = E.bus.channel 1024 s.hub in
        add E name s ≡ (
          err (topic_already_exists name),
          record {
            topics = insert name (new E sender) s.topics;
            hub = E.bus.drop_receiver receiver (E.bus.drop_sender c.sender h);
          },
        )
  unfolding add
  add_existing name s c e = ground arith

  pub subscribe_existing :
      (name : String) (s : Shared E) (c : Channel E)
      → get name s.topics ≡ some c
      → let (r, h) = E.bus.subscribe c.sender s.hub in
        subscribe E name s ≡ (ok r, record s { hub = h })
  unfolding subscribe
  subscribe_existing name s c e = ground arith

  pub subscribe_missing :
      (name : String) (s : Shared E) → get name s.topics ≡ none → subscribe E name s ≡ add E name s
  unfolding subscribe
  subscribe_missing name s e = ground arith

  set_retained_lem :
      (p : E.PublishPacket) (s : Shared E) (c : Channel E)
      → get (E.topic_name p) s.topics ≡ some c
      → set_retained E p s ≡ (
        ok tt,
        record s {
          topics = insert (E.topic_name p) (record c { retained_message = some p }) s.topics;
        },
      )
  unfolding set_retained
  set_retained_lem p s c e = ground arith

  send_to_topic_existing :
      (p : E.PublishPacket) (s : Shared E) (c : Channel E)
      → get (E.topic_name p) s.topics ≡ some c
      → send_to_topic E p s ≡ (ok tt, record s { hub = send_hub c.sender p s.hub })
  unfolding send_to_topic
  send_to_topic_existing p s c e = ground arith

  send_to_topic_missing :
      (p : E.PublishPacket) (s : Shared E)
      → get (E.topic_name p) s.topics ≡ none
      → let (sender, receiver, h) = E.bus.channel 1024 s.hub in
        send_to_topic E p s ≡ (
          ok tt,
          record {
            topics = insert (E.topic_name p) (new E sender) s.topics;
            hub = send_hub sender p (E.bus.drop_receiver receiver h);
          },
        )
  unfolding send_to_topic new
  send_to_topic_missing p s e =
      let (sender, receiver, h) = E.bus.channel 1024 s.hub in
      ground (
        arith,
        add_missing (E.topic_name p) s e,
        get-insert_self (E.topic_name p) (new E sender) s.topics,
      )

  pub publish_existing :
      (p : E.PublishPacket) (s : Shared E) (c : Channel E)
      → get (E.topic_name p) s.topics ≡ some c
      → publish E p s ≡ (
        ok tt,
        record {
          topics =
              if E.retain p
              then insert (E.topic_name p) (record c { retained_message = some p }) s.topics
              else s.topics;
          hub = send_hub c.sender p s.hub;
        },
      )
  unfolding publish
  publish_existing p s c e = ground (
    arith,
    send_to_topic_existing p s c e,
    set_retained_lem p (record s { hub = send_hub c.sender p s.hub }) c e,
  )

  pub publish_missing :
      (p : E.PublishPacket) (s : Shared E)
      → get (E.topic_name p) s.topics ≡ none
      → let (sender, receiver, h) = E.bus.channel 1024 s.hub in
        let topics = insert (E.topic_name p) (new E sender) s.topics in
        publish E p s ≡ (
          ok tt,
          record {
            topics =
                if E.retain p
                then insert
                    (E.topic_name p)
                    (record { sender = sender; retained_message = some p })
                    topics
                else topics;
            hub = send_hub sender p (E.bus.drop_receiver receiver h);
          },
        )
  unfolding publish new
  publish_missing p s e =
      let (sender, receiver, h) = E.bus.channel 1024 s.hub in
      let s' : Shared E = record {
        topics = insert (E.topic_name p) (new E sender) s.topics;
        hub = send_hub sender p (E.bus.drop_receiver receiver h);
      } in
      ground (
        arith,
        send_to_topic_missing p s e,
        set_retained_lem p s' (new E sender)
            (get-insert_self (E.topic_name p) (new E sender) s.topics),
      )
