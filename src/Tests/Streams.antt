-- ===== src/Tests/Streams.antt =====
-- A subscriber that takes messages while others publish and connect (src/main.rs), on a small input.
use mcloudtt.Prelude.{
  ◌≢◌, some, ℕ, ◌≡◌, refl, List, [], ◌∷◌, ◌++◌, ◌+◌, inl, inr, ◌≤◌, arith, length, replicate, All,
}
use mcloudtt.BTreeMap.{get, insert}
use mcloudtt.Topics
use mcloudtt.Topics.Retained.{last_retained}
use mcloudtt.Topics.History.{packets_on}
use mcloudtt.Client.Publish.{handle_publish_packet}
use mcloudtt.Client.Session.{handle_packet, handle_decoded}
use mcloudtt.Client.Connection.{read, received, buffer, sleep_secs, iterate, read_branch}
use mcloudtt.Client.Connection.Forward.{stream_of}
use mcloudtt.Client.Publications.{of_packet, of_decoded, of_event, of_timers, of_turn}
use mcloudtt.Server.{
  ServerEvent, accepted, task, tcp, Task, serve, serve_once, step_task, on_accept, on_accept_tcp,
  handle_new_connection, run_task,
}
use mcloudtt.Server.Step.{of_task}
use mcloudtt.Server.Invariant.{of_step}
use mcloudtt.Server.Isolation.{of_server, published}
use mcloudtt.Server.Retained.{serve-retained}
use mcloudtt.Server.Streams.Reading.{IsReading, IsPatient}
use mcloudtt.Server.Streams.Subscribed.{subscribe-serve-delivers}
use mcloudtt.Mqtt.{Packet, granted_qos_zero}
use mcloudtt.Client.State.{write_to_stream}
use mcloudtt.Client.Subscribe.{suback, handle_subscribe_packet, subscribe_each, subscribe_concrete}
use mcloudtt.Client.Subscribe.Suback.{message_bytes}
use mcloudtt.Server.Streams.Delivered.{serve-conserves, serve-delivers}
use mcloudtt.Tests.Setup.{
  env, view, laws, plain, ask_of, Fields, decode, example_io-IsStream, example_io-IsConnected,
}
use mcloudtt.Tests.Topics.{reader}
use mcloudtt.Tests.Client.{nothing_yet, none_missed}
use mcloudtt.Tests.Server.{
  publisher, example_net, both, both-IsSystem, subscriber, packet_bytes, one_zero,
}

-- The publisher sends, the subscriber takes, somebody connects, the publisher sends again.
abbrev mixed : List (ServerEvent (List ℕ))
mixed =
    task 1 (read packet_bytes)
    ∷ task 0 received
    ∷ accepted tcp (inr ([], "three")) "third"
    ∷ task 1 (read packet_bytes)
    ∷ []

mixed-IsPatient : All (IsPatient env 0) mixed
mixed-IsPatient = (inl one_zero, (inr (refl, refl), (tt, (inl one_zero, tt))))

two_published : published env example_net mixed both ≡ plain "a" 5 ∷ plain "a" 5 ∷ []
unfolding published of_server of_step of_task of_turn of_timers of_event of_decoded of_packet
    serve_once decode sleep_secs step_task on_accept on_accept_tcp handle_new_connection run_task
    iterate read_branch handle_packet handle_decoded handle_publish_packet Topics.publish get
    Topics.subscribe Topics.add insert
two_published = refl

starts_empty : IsReading env view both 0 "a" reader [] subscriber
starts_empty = record {
  found = refl;
  waits = record { running = refl; one = refl; unread = nothing_yet; none_missed = none_missed };
}

few : length (packets_on env "a" (published env example_net mixed both)) ≤ 2
unfolding packets_on
few = rw two_published (omega arith)

serve-conserves_example :
    let s' = serve env example_net mixed both in
    (b' : Task env) × (qs' : List Fields) × IsReading env view s' 0 "a" reader qs' b'
    × (b'.stream ++ stream_of env qs'
        ≡ [] ++ stream_of env (packets_on env "a" (published env example_net mixed both)))
    × (length qs' ≤ 0 + length (packets_on env "a" (published env example_net mixed both)))
serve-conserves_example =
    serve-conserves env view laws example_io-IsConnected (λ s. s) example_io-IsStream example_net
      mixed both 0 "a" reader [] subscriber (omega arith) both-IsSystem starts_empty mixed-IsPatient
      (omega (arith, few))

serve-delivers_example :
    let s' = serve env example_net (mixed ++ replicate 2 (task 0 received)) both in
    (b' : Task env) × IsReading env view s' 0 "a" reader [] b'
    × (b'.stream ≡ [] ++ stream_of env (packets_on env "a" (published env example_net mixed both)))
serve-delivers_example =
    serve-delivers env view laws example_io-IsConnected (λ s. s) example_io-IsStream example_net
      mixed 2 both 0 "a" reader [] subscriber (omega arith) both-IsSystem starts_empty
      mixed-IsPatient (omega (arith, few)) (omega (arith, few))

serve-retained_example :
    Topics.get_retained_message env "a" (serve env example_net mixed both).common.shared
    ≡ last_retained env "a"
        (Topics.get_retained_message env "a" both.common.shared)
        (published env example_net mixed both)
serve-retained_example = serve-retained env example_net mixed both "a"

-- The second client subscribes; then a third connects and publishes, and the second takes a message.
abbrev asking : List ℕ
asking = 130 ∷ 7 ∷ []

abbrev later : List (ServerEvent (List ℕ))
later =
    accepted tcp (inr ([], "three")) "third"
    ∷ task 2 (read packet_bytes)
    ∷ task 1 received
    ∷ task 2 (read packet_bytes)
    ∷ []

two_one : ◌≢◌ {A = ℕ} 2 1
two_one e = omega (arith, e)

later-IsPatient : All (IsPatient env 1) later
later-IsPatient = (tt, (inl two_one, (inr (refl, refl), (inl two_one, tt))))

asked : env.decode_mqtt (buffer asking) ≡ inr (some (Packet.subscribe (ask_of 7)))
unfolding decode
asked = refl

twice_published :
    published env example_net later (serve_once env example_net (task 1 (read asking)) both)
    ≡ plain "a" 5 ∷ plain "a" 5 ∷ []
unfolding published of_server of_step of_task of_turn of_timers of_event of_decoded of_packet
    serve_once decode sleep_secs step_task on_accept on_accept_tcp handle_new_connection run_task
    iterate read_branch handle_packet handle_decoded handle_publish_packet Topics.publish get
    Topics.subscribe Topics.add insert handle_subscribe_packet subscribe_each subscribe_concrete
    Topics.get_retained_message write_to_stream
twice_published = refl

few_since :
    length (
      packets_on env "a"
        (published env example_net later (serve_once env example_net (task 1 (read asking)) both)))
    ≤ 2
unfolding packets_on
few_since = rw twice_published (omega arith)

subscribe-serve-delivers_example :
    let s' =
      serve env example_net (task 1 (read asking) ∷ later ++ replicate 2 (task 1 received)) both in
    (b' : Task env) × (r : env.Receiver) × IsReading env view s' 1 "a" r [] b'
    × (b'.stream
        ≡ []
          ++ (message_bytes env (Topics.get_retained_message env "a" both.common.shared)
              ++ (env.encode_mqtt (suback env (ask_of 7) (granted_qos_zero ∷ []))
                  ++ stream_of env (
                      packets_on env "a" (
                        published env example_net later
                          (serve_once env example_net (task 1 (read asking)) both))))))
subscribe-serve-delivers_example =
    subscribe-serve-delivers env view laws example_io-IsConnected (λ s. s) example_io-IsStream
      example_net later 2 1 both 1 "a" asking (ask_of 7) publisher (omega arith) both-IsSystem refl
      refl refl asked refl later-IsPatient (omega (arith, few_since)) few_since
