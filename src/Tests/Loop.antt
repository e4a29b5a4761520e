-- ===== src/Tests/Loop.antt =====
-- Longer runs of the loop of src/tcp_handling.rs.
use mcloudtt.Prelude.{
  ℕ, String, false, ◌≢◌, zero, suc, ap, some, List, [], ◌∷◌, ◌++◌, refl, ◌≡◌, arith, length,
  replicate, last,
}
use mcloudtt.Error.{ok}
use mcloudtt.Topics
use mcloudtt.Topics.Retained.{publish_all}
use mcloudtt.Client.State.{World}
use mcloudtt.Client.Connection.{
  read, read_nothing, read_error, timed_out, tick, received, iterate, handle_raw_tcp_stream,
}
use mcloudtt.BTreeMap.{get}
use mcloudtt.Topics.Delivery.{Reads}
use mcloudtt.Topics.Queues.{SameQueue}
use mcloudtt.Client.Connection.Will.{with_will, iterate-will}
use mcloudtt.Server.{task, step_task, serve}
use mcloudtt.Server.Step.{Away}
use mcloudtt.Server.Delivery.{task_at}
use mcloudtt.Server.HungUp.{over, step_task-hung_up, serve-hung_up}
use mcloudtt.Tests.Server.{both, both-IsSystem, subscriber, example_net}
use mcloudtt.Client.Connection.Forward.{stream_of}
use mcloudtt.Topics.History.{packets_on}
use mcloudtt.Client.Connection.Lagged.{overrun-arrive}
use mcloudtt.Client.Connection.Resent.{received-ticks-puback}
use mcloudtt.Tests.Setup.{
  env, view, laws, plain, kept, Fields, example_io-IsStream, example_io-IsConnected, decode, ack_of,
  bye_of,
}
use mcloudtt.Tests.Topics.{reader}
use mcloudtt.Tests.Client.{
  listening, listening-IsWorld, nothing_yet, none_missed, notified, notified-IsWorld,
  notified_missed, notified_queue,
}

received-ticks-puback_example :
    let x =
      handle_raw_tcp_stream env "peer"
        (received ∷ replicate 1 tick ++ read (64 ∷ 7 ∷ []) ∷ replicate 5 tick)
        notified in
    (x.0 ≡ ok tt)
    × (x.1.stream ≡ [] ++ stream_of env (replicate 2 (kept "a" 5)))
    × (x.1.client.outgoing_messages ≡ [])
unfolding decode
received-ticks-puback_example =
    received-ticks-puback env example_io-IsConnected (λ s. s) example_io-IsStream view laws 1 5
      "peer" "a" (64 ∷ 7 ∷ []) (ack_of 7) reader (kept "a" 5) [] notified (omega arith)
      notified-IsWorld refl refl notified_missed notified_queue refl refl (omega arith)
      (omega arith) refl

-- Packets on the topic of the client.
burst : ℕ → List Fields
burst n = replicate n (plain "a" 1)

length-burst : (n : ℕ) → length (packets_on env "a" (burst n)) ≡ n
unfolding burst packets_on
length-burst zero = refl
length-burst (suc n) = ap suc (length-burst n)

capacity_eq : view.capacity (view.sender_of reader) ≡ 1024
unfolding Topics.subscribe Topics.add Topics.new Topics.put
capacity_eq = refl

overrun-arrive_example :
    let cap = view.capacity (view.sender_of reader) in
    let x =
      handle_raw_tcp_stream env "peer"
        (replicate (suc cap) received)
        (record listening { shared = publish_all env (burst 1500) listening.shared }) in
    (x.0 ≡ ok tt)
    × (x.1.stream ≡ [] ++ stream_of env (last cap (packets_on env "a" (burst 1500))))
    × (view.unread reader x.1.shared.hub ≡ [])
overrun-arrive_example =
    overrun-arrive env view laws example_io-IsConnected (λ s. s) example_io-IsStream (burst 1500)
      "peer" "a" reader listening (omega arith) listening-IsWorld refl nothing_yet none_missed
      (omega (arith, capacity_eq, length-burst 1500))

-- A client with a will.
abbrev willing : World env
willing = record listening { client = record listening.client { will = some (kept "gone" 1) } }

iterate-will_example :
    ((iterate env "peer" timed_out willing).1.shared
      ≡ with_will env (some (kept "gone" 1)) willing.shared)
    × ((iterate env "peer" (read (224 ∷ 4 ∷ [])) willing).1.shared
        ≡ with_will env (some (kept "gone" 1)) willing.shared)
    × ((iterate env "peer" (read (224 ∷ 4 ∷ [])) willing).0 ≢ ok tt)
    × ((iterate env "peer" read_nothing willing).1.shared ≡ willing.shared)
    × ((iterate env "peer" (read_error "reset") willing).1.shared ≡ willing.shared)
unfolding decode
iterate-will_example =
    iterate-will env "peer" "reset" (224 ∷ 4 ∷ []) (bye_of 4) willing (omega arith) refl

-- The subscriber of two tasks hangs up.
step_task-hung_up_example :
    let c' = (step_task env 0 read_nothing both.common both.tasks).0 in
    (c'.shared.topics ≡ both.common.shared.topics)
    × ((f : String) (r : env.Receiver)
        → get f subscriber.client.receivers ≡ some r
        → view.live r c'.shared.hub ≡ false)
    × ((r : env.Receiver) (t : String)
        → Reads env view r t both.common.shared
        → Away env r subscriber
        → Reads env view r t c'.shared × SameQueue env view r both.common.shared c'.shared)
step_task-hung_up_example =
    step_task-hung_up env view laws 0 read_nothing both.common both.tasks subscriber tt
      both-IsSystem refl refl

serve-hung_up_example :
    task_at 0
      (serve env example_net
        (task 0 read_nothing ∷ task 1 (read (48 ∷ 5 ∷ [])) ∷ task 0 received ∷ [])
        both).tasks
    ≡ some (over env subscriber)
serve-hung_up_example =
    serve-hung_up env example_net 0 read_nothing
      (task 1 (read (48 ∷ 5 ∷ [])) ∷ task 0 received ∷ []) both subscriber tt refl refl
