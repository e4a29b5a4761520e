-- ===== src/Tests/Node.antt =====
-- A broker with its Redis client on small inputs: another broker publishes on "a".
use mcloudtt.Prelude.{some, ◌≡◌, refl, [], ◌∷◌, true, arith}
use mcloudtt.Client.Connection.{received, read}
use mcloudtt.Redis.{redis_message, from_redis, from_broker}
use mcloudtt.Server.{task}
use mcloudtt.Server.Invariant.{IsSystem}
use mcloudtt.Server.Delivery.{task_at}
use mcloudtt.Server.Arrival.{IsForwarded}
use mcloudtt.Server.Node.{Node, served, synced, run_node}
use mcloudtt.Server.Node.Relay.{run_node-IsSystem, run_node-forwards}
use mcloudtt.Server.{Task}
use mcloudtt.Tests.Setup.{
  env, view, laws, plain, kept, Fields, example_io-IsStream, example_io-IsConnected,
  example_mqtt-BuildsGiven,
}
use mcloudtt.Tests.Redis.{crates_on, crates_on-IsJson, text_of, one_two}
use mcloudtt.Tests.Server.{example_net, subscriber, both, both-IsSystem, idle}
use mcloudtt.Tests.Topics.{reader}

abbrev node : Node env (crates_on "a")
node = record { system = both; server = []; listening = true }

as_text :
    (crates_on "a").to_text (redis_message env (crates_on "a") "one" (kept "a" 9)) ≡ some "json"
unfolding text_of
as_text = refl

-- What the builder makes of the packet.
abbrev relayed : Fields
relayed = record (plain "a" 9) { keep = true }

run_node-forwards_example :
    let n =
      run_node env
        (crates_on "a")
        example_net
        "two"
        (synced (from_redis "json") ∷ served (task 0 received) ∷ [])
        node in
    ((b' : Task env) × (task_at 0 n.system.tasks ≡ some b')
      × IsForwarded env view (λ x. x) relayed "a" reader subscriber n.system.common b')
    × (env.topic_name relayed ≡ "a")
    × (env.payload relayed ≡ 9 ∷ [])
run_node-forwards_example =
    run_node-forwards env (crates_on "a") example_net (crates_on-IsJson "a")
      example_mqtt-BuildsGiven view laws example_io-IsConnected (λ x. x) example_io-IsStream "two"
      "one" "json" (kept "a" 9) relayed node 0 subscriber reader (omega arith) both-IsSystem refl
      one_two as_text refl refl idle

run_node-IsSystem_example :
    let n =
      run_node env
        (crates_on "a")
        example_net
        "two"
        (synced (from_redis "json")
          ∷ served (task 1 (read (48 ∷ 5 ∷ [])))
          ∷ synced (from_broker (plain "a" 5))
          ∷ [])
        node in
    IsSystem env view n.system.common n.system.tasks
run_node-IsSystem_example =
    run_node-IsSystem env (crates_on "a") example_net view laws "two"
      (synced (from_redis "json")
        ∷ served (task 1 (read (48 ∷ 5 ∷ [])))
        ∷ synced (from_broker (plain "a" 5))
        ∷ [])
      node both-IsSystem
