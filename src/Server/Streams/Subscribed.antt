-- ===== src/Server/Streams/Subscribed.antt =====
-- A client subscribes, and the others publish (src/tcp_handling.rs, src/main.rs).
use mcloudtt.Prelude.{
  arith, ℕ, ◌≤◌, ◌<◌, String, Option, none, some, ◌≡◌, refl, ap, ◌∙◌, true, List, [], ◌∷◌, ◌++◌,
  inr, All, map, length, append-nil, append_assoc, replicate,
}
use mcloudtt.Error.{Preserves, ok, continue-Preserves, pure-Preserves}
use mcloudtt.BTreeMap
use mcloudtt.Broadcast.{View, IsBroadcast}
use mcloudtt.Mqtt.{Packet, SubscribePacket, concrete, granted_qos_zero}
use mcloudtt.Env.{Env, IsStream, IsConnected}
use mcloudtt.Topics
use mcloudtt.Topics.History.{packets_on}
use mcloudtt.Topics.Readers.{subscribe_returns}
use mcloudtt.Client.State.{World, write_to_stream}
use mcloudtt.Client.Subscribe.{
  insert_receiver, send_retained, subscribe_concrete, subscribe_each, suback,
  handle_subscribe_packet,
}
use mcloudtt.Client.Subscribe.Suback.{answer, message_bytes, retained_bytes}
use mcloudtt.Client.Subscribe.Answered.{handle_subscribe_packet-answers}
use mcloudtt.Client.Session.{handle_packet, on_decoded, handle_decoded}
use mcloudtt.Client.Kept.{write_to_stream-Kept}
use mcloudtt.Client.Connection.{read, received, buffer, iterate, branch, read_branch, closing}
use mcloudtt.Client.Connection.Timers.{sleep_secs-eq}
use mcloudtt.Client.Connection.Forward.{stream_of}
use mcloudtt.Client.Invariant.{IsWorld}
use mcloudtt.Server.{Net, ServerEvent, task, Task, System, enter, settle, serve_once, serve}
use mcloudtt.Server.Invariant.{IsSystem}
use mcloudtt.Server.Serving.{serve_once-Valid}
use mcloudtt.Server.Delivery.{task_at, step_task_running, All-at}
use mcloudtt.Server.Isolation.{published}
use mcloudtt.Server.Streams.Reading.{IsReading, IsPatient}
use mcloudtt.Server.Streams.Delivered.{serve-delivers}

module _ (E : Env) (V : View E.bus) where
  -- The client has one receiver, which has nothing to read and nothing missed.
  abbrev Listens : String → E.Receiver → World E → Type 0
  Listens f r w =
      (w.client.receivers ≡ (f, r) ∷ [])
      × (V.unread r w.shared.hub ≡ [])
      × (V.missed r w.shared.hub ≡ 0)

  write_to_stream-Listens :
      (f : String) (r : E.Receiver) (p : Packet E.PublishPacket E.FinalWill)
      → Preserves (Listens f r) (write_to_stream E p)
  write_to_stream-Listens f r = write_to_stream-Kept E (Listens f r) λ w w' shared receivers i. (
    receivers ∙ i.0,
    ap (λ s. V.unread r s.hub) shared ∙ i.1,
    ap (λ s. V.missed r s.hub) shared ∙ i.2,
  )

  send_retained-Listens :
      (f : String) (r : E.Receiver) (o : Option E.PublishPacket)
      → Preserves (Listens f r) (send_retained E o)
  unfolding send_retained
  send_retained-Listens f r none w i = i
  send_retained-Listens f r (some p) w i = write_to_stream-Listens f r (Packet.publish p) w i

module _ (E : Env) (V : View E.bus) (L : IsBroadcast E.bus V) where
  subscribe_concrete-Listens :
      (f : String) (w : World E)
      → IsWorld E V w
      → w.client.receivers ≡ []
      → (r : E.Receiver) × Listens E V f r (subscribe_concrete E f w).1
  unfolding subscribe_concrete insert_receiver BTreeMap.insert BTreeMap.get
  subscribe_concrete-Listens f w i first =
      let (r, s, e, _, fresh) = subscribe_returns E V L f w.shared i.valid in
      (r, rw (e, first) (send_retained-Listens E V f r _ _ (refl, fresh.3, fresh.4)))

  handle_subscribe_packet-Listens :
      (f : String) (n : ℕ) (p : SubscribePacket) (w : World E)
      → IsWorld E V w
      → w.client.receivers ≡ []
      → p.subscription_topics ≡ concrete f n ∷ []
      → (r : E.Receiver) × Listens E V f r (handle_subscribe_packet E p w).1
  unfolding handle_subscribe_packet subscribe_each
  handle_subscribe_packet-Listens f n p w i first one =
      let (r, h) = subscribe_concrete-Listens f w i first in
      let x = subscribe_concrete E f w in
      let codes = granted_qos_zero ∷ [] in
      (
        r,
        rw one (
            continue-Preserves (Listens E V f r) _ (λ c. write_to_stream E (suback E p c)) _
              (continue-Preserves (Listens E V f r) x.0 (λ _. subscribe_each E [] codes) x.1 h
                (λ _. pure-Preserves (Listens E V f r) codes))
              (λ c. write_to_stream-Listens E V f r (suback E p c))),
      )

module _ (E : Env) (V : View E.bus) (L : IsBroadcast E.bus V) (C : IsConnected E.io)
    (sent : E.Stream → List ℕ) (S : IsStream E.io sent) where
  -- One turn that reads a SUBSCRIBE.
  iterate-subscribe :
      (addr : String) (bytes : List ℕ) (p : SubscribePacket) (w : World E)
      → E.settings.general.timeout < 65534
      → E.decode_mqtt (buffer bytes) ≡ inr (some (Packet.subscribe p))
      → iterate E addr (read bytes) w ≡ (ok tt, (handle_subscribe_packet E p w).1)
  unfolding iterate branch read_branch handle_packet on_decoded handle_decoded closing
  iterate-subscribe addr bytes p w h e =
      let done = (handle_subscribe_packet-answers E C sent S p w).0 in
      rw (sleep_secs-eq E h, e, done) refl

  -- What the client has got by then.
  abbrev pub greeting : String → SubscribePacket → World E → List ℕ
  greeting f p w =
      message_bytes E (Topics.get_retained_message E f w.shared)
      ++ E.encode_mqtt (suback E p (granted_qos_zero ∷ []))

  greeting-answers :
      (f : String) (n : ℕ) (p : SubscribePacket) (w : World E)
      → p.subscription_topics ≡ concrete f n ∷ []
      → sent (handle_subscribe_packet E p w).1.stream ≡ sent w.stream ++ greeting f p w
  unfolding retained_bytes answer
  greeting-answers f n p w one =
      let answers = (handle_subscribe_packet-answers E C sent S p w).1 in
      answers
      ∙ ap
          (λ fs.
            sent w.stream
            ++ (retained_bytes E fs w.shared ++ E.encode_mqtt (suback E p (map answer fs))))
          one
      ∙ ap (λ x. sent w.stream ++ (x ++ E.encode_mqtt (suback E p (granted_qos_zero ∷ []))))
          (append-nil (message_bytes E (Topics.get_retained_message E f w.shared)))

  module _ (N : Net E) where
    -- The turn of a task that reads its first SUBSCRIBE.
    subscribe-IsReading :
        (s : System E) (j : ℕ) (f : String) (n : ℕ) (bytes : List ℕ) (p : SubscribePacket)
        (b : Task E)
        → E.settings.general.timeout < 65534
        → IsSystem E V s.common s.tasks
        → task_at j s.tasks ≡ some b
        → b.running ≡ true
        → b.client.receivers ≡ []
        → E.decode_mqtt (buffer bytes) ≡ inr (some (Packet.subscribe p))
        → p.subscription_topics ≡ concrete f n ∷ []
        → (b' : Task E) × (r : E.Receiver) × IsReading E V
            (serve_once E N (task j (read bytes)) s)
            j
            f
            r
            []
            b'
          × (sent b'.stream ≡ sent b.stream ++ greeting f p (enter E s.common b))
    unfolding serve_once settle
    subscribe-IsReading s j f n bytes p b h v found on first e one =
        let w = enter E s.common b in
        let i = All-at E (λ q. IsWorld E V (enter E s.common q)) j s.tasks b v.worlds found in
        let (r, listens) = handle_subscribe_packet-Listens E V L f n p w i first one in
        let w' = (handle_subscribe_packet E p w).1 in
        let (common, tasks) = step_task_running E j (read bytes) s.common s.tasks b found on in
        let step = ap (settle E b) (iterate-subscribe b.addr bytes p w h e) in
        let hub = ap (λ x. x.shared.hub) (common ∙ ap (λ x. x.0) step) in
        (
          record b { client = w'.client; stream = w'.stream },
          r,
          record {
            found = tasks ∙ ap (λ x. some x.1) step;
            waits = record {
              running = on;
              one = listens.0;
              unread = ap (V.unread r) hub ∙ listens.1;
              none_missed = ap (V.missed r) hub ∙ listens.2;
            };
          },
          greeting-answers f n p w one,
        )

    -- The tasks of the server are in a state that keeps the invariant, streams stay connected, and
    -- the timeout is at most 65533 seconds. A running task without subscriptions reads a SUBSCRIBE
    -- of one concrete topic. Then the server goes on in any order of connections and turns, in
    -- which the task's own turns only take messages and at most 1024 packets are published on the
    -- topic; and then the task has turns of its own, at least as many as those packets. Now the
    -- task still runs, and its stream has got exactly these: the retained message that the topic
    -- had, if there was one, the SUBACK, and the packets that were published on the topic since,
    -- each once and in order. It has nothing to read and nothing missed. A running task publishes
    -- the PUBLISH that it reads, and its stored will when the timeout is over or a DISCONNECT asks
    -- for it, and nothing else.
    pub subscribe-serve-delivers :
        (es : List (ServerEvent N.Raw)) (n m : ℕ) (s : System E) (j : ℕ) (f : String)
        (bytes : List ℕ) (p : SubscribePacket) (b : Task E)
        → E.settings.general.timeout < 65534
        → IsSystem E V s.common s.tasks
        → task_at j s.tasks ≡ some b
        → b.running ≡ true
        → b.client.receivers ≡ []
        → E.decode_mqtt (buffer bytes) ≡ inr (some (Packet.subscribe p))
        → p.subscription_topics ≡ concrete f m ∷ []
        → All (IsPatient E j) es
        → length (packets_on E f (published E N es (serve_once E N (task j (read bytes)) s))) ≤ 1024
        → length (packets_on E f (published E N es (serve_once E N (task j (read bytes)) s))) ≤ n
        → let s' = serve E N (task j (read bytes) ∷ es ++ replicate n (task j received)) s in
          (b' : Task E) × (r : E.Receiver) × IsReading E V s' j f r [] b'
          × (sent b'.stream
              ≡ sent b.stream
                ++ (message_bytes E (Topics.get_retained_message E f s.common.shared)
                    ++ (E.encode_mqtt (suback E p (granted_qos_zero ∷ []))
                        ++ stream_of E (
                            packets_on E f
                              (published E N es (serve_once E N (task j (read bytes)) s))))))
    unfolding serve
    subscribe-serve-delivers es n m s j f bytes p b h v found on first e one patient room enough =
        let s₁ = serve_once E N (task j (read bytes)) s in
        let ps = packets_on E f (published E N es s₁) in
        let retained = message_bytes E (Topics.get_retained_message E f s.common.shared) in
        let answered = E.encode_mqtt (suback E p (granted_qos_zero ∷ [])) in
        let (b₁, r, reading, greeted) =
          subscribe-IsReading s j f m bytes p b h v found on first e one in
        let (b', reading', bytes') =
          serve-delivers E V L C sent S N es n s₁ j f r [] b₁ h
            (serve_once-Valid E N V L (task j (read bytes)) s v) reading patient
            (omega (arith, room)) (omega (arith, enough)) in
        (
          b',
          r,
          reading',
          bytes'
              ∙ ap (λ x. x ++ stream_of E ps) greeted
              ∙ append_assoc (sent b.stream) (retained ++ answered) (stream_of E ps)
              ∙ ap (◌++◌ (sent b.stream)) (append_assoc retained answered (stream_of E ps)),
        )
