-- ===== src/Client/Connection/Errors.antt =====
-- How the loop of a connection ends (src/tcp_handling.rs).
use mcloudtt.Prelude.{
  ℕ, String, Option, none, some, Option-cases, inl, inr, ◌≢◌, refl, List, [], ◌∷◌, ◌++◌, eqb,
  retain,
}
use mcloudtt.Error.{
  MCloudError, Result, ok, err, panic, Action, pure, modify, unwrap, ◌>>=◌, ◌>>◌, Result-cases,
}
use mcloudtt.BTreeMap.{get}
use mcloudtt.Broadcast.{Received, message, lagged, closed}
use mcloudtt.Mqtt.{Packet, QoS, at_most_once, at_least_once, exactly_once, PublishAckReason}
use mcloudtt.Env.{Env, Message}
use mcloudtt.Topics
use mcloudtt.Bigquery.{log_in_bq, log_in_bq-not_err}
use mcloudtt.Client.State.{
  World, OutgoingMessage, write_to_stream, written, in_topics, in_bq, set_outgoing,
}
use mcloudtt.Client.Publish.{
  reason_of, queued, send_to_redis, puback, acknowledge, log_publish, handle_publish_packet,
}
use mcloudtt.Client.Session.{publish_stored, publish_will, handle_packet}
use mcloudtt.Client.Connection.{
  Event, read, read_nothing, read_error, received, timed_out, tick, closing, read_branch, poll,
  recv, remember, on_message, received_branch, received_from, received_ready, shutdown,
  timed_out_branch, resend, count_down, resend_each, unexpired, tick_branch, tick_over, tick_ready,
  branch, iterate, lift, sleep_secs, decrement, buffer, handle_raw_tcp_stream,
}
use mcloudtt.Client.Connection.Ends.{Closing, Ends, >>=-Ends, unwrap-Ends, if-Ends, wrapped-Ends}

module _ (addr : String) where
  module _ (E : Env) where
    written-Ends : (o : Option String) → Ends addr (written E o)
    unfolding written Closing
    written-Ends none = tt
    written-Ends (some t) = tt

    write_to_stream-Ends :
        (p : Packet E.PublishPacket E.FinalWill) (w : World E) → Ends addr (write_to_stream E p w).0
    unfolding write_to_stream
    write_to_stream-Ends p w = written-Ends (E.write_all (E.encode_mqtt p) w.stream).0

    reason_of-Ends : (m : Action (World E) (Unit {0})) (w : World E) → Ends addr (reason_of E m w).0
    unfolding reason_of
    reason_of-Ends m w = elim (Result-cases (m w).0) [
      | inl (a, e) ↦ rw (e, Ends) tt
      | inr (inl (x, e)) ↦ rw (e, Ends) tt
      | inr (inr e) ↦ rw (e, Ends) tt
    ]

    queued-Ends : (o : Option E.Queue) (w : World E) → Ends addr (queued E o w).0
    unfolding queued
    queued-Ends none w = tt
    queued-Ends (some q) w = tt

    acknowledge-Ends :
        (q : QoS) (p : E.PublishPacket) (c : PublishAckReason) (w : World E)
        → Ends addr (acknowledge E q p c w).0
    unfolding acknowledge
    acknowledge-Ends at_most_once p c w = tt
    acknowledge-Ends at_least_once p c w =
        >>=-Ends addr (unwrap (E.packet_id p)) (λ id. write_to_stream E (puback E id c))
          (unwrap-Ends addr (E.packet_id p)) (λ id. write_to_stream-Ends (puback E id c)) w
    acknowledge-Ends exactly_once p c w = tt

    log_publish-Ends : (p : E.PublishPacket) (w : World E) → Ends addr (log_publish E p w).0
    unfolding log_publish
    log_publish-Ends p w =
        let log = λ (m : String). in_bq E (log_in_bq E (E.topic_name p) m) in
        let text = unwrap (E.from_utf8 (E.payload p)) in
        if-Ends addr E.features.bq_logging (text >>= log) (pure tt)
          (>>=-Ends addr text log (unwrap-Ends addr (E.from_utf8 (E.payload p))) (λ m x.
            log_ends (log_in_bq E (E.topic_name p) m x.bq).0
              (log_in_bq-not_err E (E.topic_name p) m x.bq)))
          (λ x. tt) w
      where
        log_ends : (r : Result (Unit {0})) → ((e : MCloudError) → r ≢ err e) → Ends addr r
        log_ends (ok a) h = tt
        log_ends (err e) h = absurd (h e refl)
        log_ends panic h = tt

    handle_publish_packet-Ends :
        (p : E.PublishPacket) (w : World E) → Ends addr (handle_publish_packet E p w).0
    unfolding handle_publish_packet send_to_redis
    handle_publish_packet-Ends p w =
        let ack = λ (c : PublishAckReason). acknowledge E (E.qos p) p c in
        let log = log_publish E p in
        >>=-Ends addr (reason_of E (in_topics E (Topics.publish E p)))
          (λ c. send_to_redis E p >> (ack c >> log))
          (reason_of-Ends (in_topics E (Topics.publish E p)))
          (λ c.
            >>=-Ends addr (send_to_redis E p) (λ _. ack c >> log)
              (if-Ends addr E.features.redis (λ x. queued E (E.queue_send p x.queue) x) (pure tt)
                (λ x. queued-Ends (E.queue_send p x.queue) x) (λ x. tt))
              (λ _.
                >>=-Ends addr (ack c) (λ _. log) (acknowledge-Ends (E.qos p) p c)
                  (λ _. log_publish-Ends p)))
          w

    publish_stored-Ends :
        (o : Option E.FinalWill) (w : World E) → Ends addr (publish_stored E o w).0
    unfolding publish_stored
    publish_stored-Ends none w = tt
    publish_stored-Ends (some will) w = handle_publish_packet-Ends (E.from_will will) w

    shutdown-Ends : (w : World E) → Ends addr (shutdown E w).0
    unfolding shutdown Closing
    shutdown-Ends w = elim (Option-cases (E.io.shutdown w.stream).0) [
      | inl e ↦ rw (e, Ends) tt
      | inr (t, e) ↦ rw (e, Ends) tt
    ]

    on_message-Ends :
        (m : Received (Message E.PublishPacket)) (w : World E) → Ends addr (on_message E m w).0
    unfolding on_message
    on_message-Ends (message (Message.publish p)) w =
        write_to_stream-Ends (Packet.publish p) (remember E (E.qos p) p w)
    on_message-Ends (lagged n) w = tt
    on_message-Ends closed w = tt

    received_from-Ends : (o : Option String) (w : World E) → Ends addr (received_from E o w).0
    unfolding received_from received_branch recv
    received_from-Ends none w = tt
    received_from-Ends (some key) w =
        >>=-Ends addr (unwrap (get key w.client.receivers)) (λ r. recv E r >>= on_message E)
          (unwrap-Ends addr (get key w.client.receivers))
          (λ r x. on_message-Ends (E.bus.recv r x.shared.hub).0 _) w

    resend-Ends : (m : OutgoingMessage E) (w : World E) → Ends addr (resend E m w).0
    unfolding resend
    resend-Ends m w =
        if-Ends addr (eqb m.counter 0) (pure tt) (write_to_stream E (Packet.publish m.packet))
          (λ x. tt) (write_to_stream-Ends (Packet.publish m.packet)) w

    count_down-Ends :
        (before rest : List (OutgoingMessage E)) (m : OutgoingMessage E) (n : ℕ) (w : World E)
        → Ends addr (count_down E before m rest n w).0
    unfolding count_down
    count_down-Ends before rest m n w =
        let m' : OutgoingMessage E = record m { counter = n } in
        >>=-Ends addr (resend E m') (λ _. pure m') (resend-Ends m') (λ _ x. tt)
          (set_outgoing E (before ++ m' ∷ rest) w)

    resend_each-Ends :
        (before rest : List (OutgoingMessage E)) (w : World E)
        → Ends addr (resend_each E before rest w).0
    unfolding resend_each decrement
    resend_each-Ends before [] w = tt
    resend_each-Ends before (m ∷ rest) w =
        let step = lift E (decrement E m.counter) >>= count_down E before m rest in
        >>=-Ends addr step (λ x. resend_each E (before ++ x ∷ []) rest)
          (>>=-Ends addr (lift E (decrement E m.counter)) (count_down E before m rest)
            (λ x. wrapped-Ends addr (eqb m.counter 0) E.features.overflow_checks _)
            (λ n x. count_down-Ends before rest m n x))
          (λ x. resend_each-Ends (before ++ x ∷ []) rest) w

    tick_over-Ends : (ms : List (OutgoingMessage E)) (w : World E) → Ends addr (tick_over E ms w).0
    unfolding tick_over tick_branch
    tick_over-Ends [] w = tt
    tick_over-Ends (m ∷ ms) w =
        let last =
          modify (λ x. set_outgoing E (retain (unexpired E) x.client.outgoing_messages) x) in
        >>=-Ends addr (resend_each E [] w.client.outgoing_messages) (λ _. last)
          (resend_each-Ends [] w.client.outgoing_messages) (λ _ x. tt) w

    closing-Ends : (r : Result (Unit {0})) → Ends addr (closing E addr r)
    unfolding closing Closing
    closing-Ends (ok a) = tt
    closing-Ends (err e) = refl
    closing-Ends panic = tt

    branch-Ends : (e : Event) (w : World E) → Ends addr (branch E addr e w).0
    unfolding branch read_branch received_ready timed_out_branch publish_will tick_ready Closing
    branch-Ends (read bytes) w = closing-Ends (handle_packet E addr (buffer bytes) w).0
    branch-Ends read_nothing w = refl
    branch-Ends (read_error t) w = refl
    branch-Ends received w = received_from-Ends (poll E w) w
    branch-Ends timed_out w =
        >>=-Ends addr (publish_will E) (λ _. shutdown E) (λ x. publish_stored-Ends x.client.will x)
          (λ _. shutdown-Ends) w
    branch-Ends tick w = tick_over-Ends w.client.outgoing_messages w

    -- Whatever happens, the loop of a connection returns no other error than that of its own peer,
    -- as a client error or an unexpected disconnection, or that of a stream that could not be
    -- written to or shut down; so an error of a handler, such as `ClientDisconnected`, never leaves
    -- it.
    pub handle_raw_tcp_stream-Ends :
        (es : List Event) (w : World E) → Ends addr (handle_raw_tcp_stream E addr es w).0
    unfolding handle_raw_tcp_stream iterate sleep_secs
    handle_raw_tcp_stream-Ends [] w = tt
    handle_raw_tcp_stream-Ends (e ∷ es) w =
        >>=-Ends addr (iterate E addr e) (λ _. handle_raw_tcp_stream E addr es)
          (>>=-Ends addr (lift E (sleep_secs E)) (λ _. branch E addr e)
            (λ x. wrapped-Ends addr _ _ _) (λ _. branch-Ends e))
          (λ _. handle_raw_tcp_stream-Ends es) w
