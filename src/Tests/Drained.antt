-- ===== src/Tests/Drained.antt =====
-- A client with two subscriptions (src/tcp_handling.rs).
use mcloudtt.Prelude.{
  String, some, ◌≡◌, refl, [], ◌∷◌, ◌++◌, ◌⊎◌, inl, inr, replicate, arith, eq_iff,
}
use mcloudtt.Prelude.Order.{str_ltb}
use mcloudtt.BTreeMap
use mcloudtt.BTreeMap.{get}
use mcloudtt.Error.{ok}
use mcloudtt.Env.{Message}
use mcloudtt.Topics
use mcloudtt.Client.State.{World, write_to_stream}
use mcloudtt.Client.Subscribe.{subscribe_concrete}
use mcloudtt.Client.Invariant.{IsWorld}
use mcloudtt.Client.Invariant.Loop.{published}
use mcloudtt.Client.Invariant.Receivers.{subscribe_concrete-IsWorld}
use mcloudtt.Client.Connection.{received, handle_raw_tcp_stream}
use mcloudtt.Client.Connection.Queues.{Queues, set_queue, total, bytes_in}
use mcloudtt.Client.Connection.Drained.{Pending, queues-drained}
use mcloudtt.Tests.Setup.{env, view, laws, plain, kept, example_io-IsStream, example_io-IsConnected}
use mcloudtt.Tests.Topics.{reader}
use mcloudtt.Tests.Client.{listening, listening-IsWorld}

-- "b" is subscribed to as well, and a packet comes in on each topic.
abbrev both_topics : World env
both_topics = (subscribe_concrete env "b" listening).1

abbrev first_in : World env
first_in = record both_topics { shared = (Topics.publish env (kept "b" 7) both_topics.shared).1 }

abbrev busy : World env
busy = record first_in { shared = (Topics.publish env (plain "a" 1) first_in.shared).1 }

busy-IsWorld : IsWorld env view busy
busy-IsWorld = published env view laws (plain "a" 1) first_in (
    published env view laws (kept "b" 7) both_topics
      (subscribe_concrete-IsWorld env view laws "b" listening listening-IsWorld))

abbrev queues : Queues env
queues = set_queue env "a" (plain "a" 1 ∷ []) (set_queue env "b" (kept "b" 7 ∷ []) (λ f. []))

abbrev reader_b : env.Receiver
reader_b = record { id = 1; sender = record { id = 1; cap = 1024 } }

busy_receivers : busy.client.receivers ≡ ("a", reader) ∷ ("b", reader_b) ∷ []
unfolding subscribe_concrete Topics.subscribe Topics.add BTreeMap.get BTreeMap.insert Topics.publish
    write_to_stream Topics.get_retained_message str_ltb
busy_receivers = refl

busy_a :
    (view.missed reader busy.shared.hub ≡ 0)
    × (view.unread reader busy.shared.hub ≡ Message.publish (plain "a" 1) ∷ [])
unfolding subscribe_concrete Topics.subscribe Topics.add BTreeMap.get BTreeMap.insert Topics.publish
    write_to_stream Topics.get_retained_message str_ltb
busy_a = (refl, refl)

busy_b :
    (view.missed reader_b busy.shared.hub ≡ 0)
    × (view.unread reader_b busy.shared.hub ≡ Message.publish (kept "b" 7) ∷ [])
unfolding subscribe_concrete Topics.subscribe Topics.add BTreeMap.get BTreeMap.insert Topics.publish
    write_to_stream Topics.get_retained_message str_ltb
busy_b = (refl, refl)

two_readers :
    (f : String) (r : env.Receiver)
    → get f (("a", reader) ∷ ("b", reader_b) ∷ []) ≡ some r
    → ((f ≡ "a") × (r ≡ reader)) ⊎ ((f ≡ "b") × (r ≡ reader_b))
unfolding get
two_readers f r e = ground (arith, eq_iff f "a", eq_iff f "b")

busy-Pending : Pending env view busy queues
busy-Pending f r e = elim (two_readers f r (rw busy_receivers at e)) [
  | inl (at_a, is_reader) ↦ rw (at_a, is_reader) busy_a
  | inr (at_b, is_reader) ↦ rw (at_b, is_reader) busy_b
]

queues-drained_example :
    let x =
      handle_raw_tcp_stream env "peer"
        (replicate (total env queues busy.client.receivers) received)
        busy in
    (x.0 ≡ ok tt)
    × (x.1.stream ≡ busy.stream ++ bytes_in env queues busy.client.receivers)
    × ((f : String) (r : env.Receiver)
        → get f x.1.client.receivers ≡ some r
        → view.unread r x.1.shared.hub ≡ [])
queues-drained_example =
    queues-drained env view laws example_io-IsConnected (λ s. s) example_io-IsStream "peer" queues
      busy (omega arith) busy-IsWorld busy-Pending
