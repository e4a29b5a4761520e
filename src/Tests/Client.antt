-- ===== src/Tests/Client.antt =====
-- src/tcp_handling.rs on small inputs.

use mcloudtt.Prelude.{
  String, none, some, List, [], ◌∷◌, refl, ◌≡◌, ◌≤◌, arith, length, eq_iff, replicate, true,
}
use mcloudtt.BTreeMap
use mcloudtt.BTreeMap.{get}
use mcloudtt.Error.{ok, panic}
use mcloudtt.Env.{Message}
use mcloudtt.Topics
use mcloudtt.Client.State.{World, write_to_stream}
use mcloudtt.Client.Publish.{handle_publish_packet}
use mcloudtt.Client.Publish.Puback.{handle_publish_packet-missing_id}
use mcloudtt.Client.Invariant.{IsWorld}
use mcloudtt.Client.Invariant.Loop.{published}
use mcloudtt.Client.Invariant.Loop.{handle_raw_tcp_stream-IsWorld}
use mcloudtt.Client.Connection as Connection
use mcloudtt.Client.Connection.{
  Event, read, tick, received, timed_out, handle_raw_tcp_stream, tick_branch, received_ready,
  received_branch, poll,
}
use mcloudtt.Client.Connection.Expiry.{ticks-expire}
use mcloudtt.Client.Connection.Receive.{Polled, poll-Polled}
use mcloudtt.Topics.History.{packets_on}
use mcloudtt.Tests.Setup.{env, view, laws, fresh_world, plain, kept, Fields, example_io-IsStream}
use mcloudtt.Tests.Topics.{one_topic, one_topic-IsValid, reader, reader-Reads}

-- A client that is subscribed to "a".
abbrev pub listening : World env
listening = record fresh_world {
  client = record fresh_world.client { receivers = ("a", reader) ∷ [] };
  shared = one_topic;
}

only_reader :
    (f : String) (r : env.Receiver) → get f (("a", reader) ∷ []) ≡ some r → (f ≡ "a") × (r ≡ reader)
unfolding get
only_reader f r e = ground (arith, eq_iff f "a")

pub listening-IsWorld : IsWorld env view listening
listening-IsWorld = record {
  valid = one_topic-IsValid;
  sorted = (tt, tt);
  subscribed = λ f r e. rw ((only_reader f r e).0, (only_reader f r e).1) reader-Reads;
}

-- The same, with a packet that came in.
abbrev pub notified : World env
notified = record listening { shared = (Topics.publish env (kept "a" 5) one_topic).1 }

pub notified-IsWorld : IsWorld env view notified
notified-IsWorld = published env view laws (kept "a" 5) listening listening-IsWorld

handle_raw_tcp_stream-IsWorld_example :
    IsWorld env view
      (handle_raw_tcp_stream env "peer"
        (received ∷ tick ∷ timed_out ∷ read (1 ∷ []) ∷ [])
        notified).1
handle_raw_tcp_stream-IsWorld_example =
    handle_raw_tcp_stream-IsWorld env view laws "peer"
      (received ∷ tick ∷ timed_out ∷ read (1 ∷ []) ∷ []) notified notified-IsWorld

abbrev packets : List Fields
packets = plain "a" 1 ∷ kept "b" 2 ∷ kept "a" 3 ∷ plain "a" 4 ∷ []

few : length (packets_on env "a" packets) ≤ 1024
unfolding packets_on
few = omega arith

pub nothing_yet : view.unread reader listening.shared.hub ≡ []
unfolding Topics.subscribe Topics.add Topics.new Topics.put BTreeMap.get
nothing_yet = refl

pub none_missed : view.missed reader listening.shared.hub ≡ 0
unfolding Topics.subscribe Topics.add Topics.new Topics.put BTreeMap.get
none_missed = refl

-- A packet at QoS 1 without an id.
abbrev nameless : Fields
nameless = record (kept "a" 5) { number = none }

handle_publish_packet-missing_id_example :
    ((handle_publish_packet env nameless listening).0 ≡ panic)
    × ((handle_publish_packet env nameless listening).1.shared
        ≡ (Topics.publish env nameless one_topic).1)
handle_publish_packet-missing_id_example =
    handle_publish_packet-missing_id env nameless listening refl refl

-- Two messages wait for their PUBACK, one for 2 seconds and one for 1.
abbrev waiting : World env
waiting = record fresh_world {
  client = record fresh_world.client {
    outgoing_messages =
        record { packet = kept "a" 5; counter = 2 }
        ∷ record { packet = kept "b" 6; counter = 1 }
        ∷ [];
  };
}

tick_returns : tick_branch env waiting ≡ (ok tt, (tick_branch env waiting).1)
unfolding tick_branch Connection.resend_each write_to_stream
tick_returns = refl

two_ticks :
    handle_raw_tcp_stream env "peer" (replicate 2 tick) waiting
    ≡ (ok tt, (handle_raw_tcp_stream env "peer" (replicate 2 tick) waiting).1)
unfolding handle_raw_tcp_stream Connection.iterate tick_branch Connection.resend_each
    write_to_stream
two_ticks = refl

ticks-expire_example :
    (handle_raw_tcp_stream env "peer" (replicate 2 tick) waiting).1.client.outgoing_messages ≡ []
ticks-expire_example =
    ticks-expire env (λ s. s) example_io-IsStream 2 "peer" waiting
      (handle_raw_tcp_stream env "peer" (replicate 2 tick) waiting).1 (omega arith) (omega arith)
      two_ticks

poll-Polled_example : Polled env view laws notified (poll env notified)
poll-Polled_example = poll-Polled env view laws notified notified-IsWorld

pub notified_queue : view.unread reader notified.shared.hub ≡ Message.publish (kept "a" 5) ∷ []
unfolding Topics.publish get Topics.subscribe Topics.add BTreeMap.insert
notified_queue = refl

pub notified_missed : view.missed reader notified.shared.hub ≡ 0
unfolding Topics.publish get Topics.subscribe Topics.add BTreeMap.insert
notified_missed = refl

pub notified_live : view.live reader notified.shared.hub ≡ true
unfolding Topics.publish get Topics.subscribe Topics.add BTreeMap.insert
notified_live = refl

pub notified_entry : get "a" notified.client.receivers ≡ some reader
unfolding get
notified_entry = refl

pub received_returns :
    received_branch env "a" notified ≡ (ok tt, (received_branch env "a" notified).1)
unfolding received_branch Topics.publish get Topics.subscribe Topics.add BTreeMap.insert
    write_to_stream
received_returns = refl
