-- ===== src/Tests/Answers.antt =====
-- How the handlers of src/tcp_handling.rs answer, and how the loop ends, on small inputs.
use mcloudtt.Prelude.{◌≡◌, ◌≢◌, refl, String, none, some, [], ◌∷◌, ◌++◌, map, if◌then◌else◌, true}
use mcloudtt.BTreeMap.{get}
use mcloudtt.Error.{ok}
use mcloudtt.Mqtt.{
  at_least_once, concrete, wildcard, shared_concrete, SubscribePacket, UnsubscribePacket,
  PublishAckPacket, PublishAckReason,
}
use mcloudtt.Topics
use mcloudtt.Client.State.{World, write_to_stream}
use mcloudtt.Client.Subscribe.{handle_subscribe_packet, suback, handle_unsubscribe_packet, unsuback}
use mcloudtt.Client.Subscribe.Suback.{answer, retained_bytes}
use mcloudtt.Client.Subscribe.Answered.{handle_subscribe_packet-answers}
use mcloudtt.Client.Subscribe.Unsuback.{
  requested, reasons, is_subscribed, handle_unsubscribe_packet-sends,
}
use mcloudtt.Client.Publish.{handle_publish_packet}
use mcloudtt.Client.Publish.Puback.{answer_bytes, Queued}
use mcloudtt.Client.Publish.Answered.{handle_publish_packet-answers}
use mcloudtt.Client.Connection.{
  read, read_nothing, received, timed_out, tick, handle_raw_tcp_stream,
}
use mcloudtt.Client.Connection.Ends.{Ends}
use mcloudtt.Client.Connection.Errors.{handle_raw_tcp_stream-Ends}
use mcloudtt.Tests.Setup.{env, kept, fresh_world, example_io-IsStream, example_io-IsConnected}
use mcloudtt.Tests.Topics.{one_topic, two_topics}
use mcloudtt.Tests.Client.{listening, notified}

-- A request with filters of three kinds, one of them for a retained message.
abbrev request : SubscribePacket
request = record {
  packet_id = 3;
  subscription_topics = concrete "b" 0 ∷ wildcard "x" 1 ∷ shared_concrete ∷ [];
}

abbrev asking : World env
asking = record fresh_world { shared = two_topics }

handle_subscribe_packet-answers_example :
    let x = handle_subscribe_packet env request asking in
    (x.0 ≡ ok tt)
    × (x.1.stream
        ≡ []
          ++ (retained_bytes env request.subscription_topics asking.shared
              ++ env.encode_mqtt (suback env request (map answer request.subscription_topics))))
handle_subscribe_packet-answers_example =
    handle_subscribe_packet-answers env example_io-IsConnected (λ s. s) example_io-IsStream request
      asking

queue_open : env.queue_send (kept "a" 5) listening.queue ≢ none
queue_open e = cc

numbered : env.qos (kept "a" 5) ≡ at_least_once → env.packet_id (kept "a" 5) ≢ none
numbered h e = cc

handle_publish_packet-answers_example :
    let x = handle_publish_packet env (kept "a" 5) listening in
    (x.0 ≡ ok tt)
    × (x.1.stream ≡ [] ++ answer_bytes env at_least_once (some 7))
    × (x.1.shared ≡ (Topics.publish env (kept "a" 5) one_topic).1)
    × Queued env true (kept "a" 5) [] x.1.queue
handle_publish_packet-answers_example =
    handle_publish_packet-answers env (λ s. s) example_io-IsStream (kept "a" 5) listening
      example_io-IsConnected refl queue_open numbered

-- A request that names one topic twice.
abbrev leaving : UnsubscribePacket
leaving = record {
  packet_id = 4;
  topic_filters = concrete "a" 0 ∷ wildcard "x" 1 ∷ concrete "a" 0 ∷ [];
}

unsubscribe_answered :
    handle_unsubscribe_packet env leaving listening
    ≡ (ok tt, (handle_unsubscribe_packet env leaving listening).1)
unfolding handle_unsubscribe_packet write_to_stream
unsubscribe_answered = refl

handle_unsubscribe_packet-sends_example :
    let w' = (handle_unsubscribe_packet env leaving listening).1 in
    (w'.stream
      ≡ []
        ++ env.encode_mqtt
            (unsuback env leaving (reasons leaving.topic_filters (is_subscribed env listening))))
    × ((t : String)
        → get t w'.client.receivers
          ≡ (if requested t leaving.topic_filters then none else get t listening.client.receivers))
handle_unsubscribe_packet-sends_example =
    handle_unsubscribe_packet-sends env (λ s. s) example_io-IsStream leaving listening
      (handle_unsubscribe_packet env leaving listening).1 unsubscribe_answered

abbrev acknowledged : PublishAckPacket
acknowledged = record {
  packet_id = 7;
  reason_code = PublishAckReason.success;
  reason_string = none;
  user_properties = [];
}

handle_raw_tcp_stream-Ends_example :
    Ends "peer"
      (handle_raw_tcp_stream env "peer"
        (received ∷ tick ∷ timed_out ∷ read (1 ∷ []) ∷ read_nothing ∷ [])
        notified).0
handle_raw_tcp_stream-Ends_example =
    handle_raw_tcp_stream-Ends "peer" env
      (received ∷ tick ∷ timed_out ∷ read (1 ∷ []) ∷ read_nothing ∷ []) notified
