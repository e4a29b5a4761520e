-- ===== src/Tests/Server.antt =====
-- src/main.rs on small inputs: a subscriber of "a" and a publisher.
use mcloudtt.Prelude.{ℕ, some, ◌≡◌, ◌≢◌, inr, refl, List, [], ◌∷◌, ◌++◌, true, arith}
use mcloudtt.BTreeMap.{get}
use mcloudtt.Mqtt.{Packet}
use mcloudtt.Client.Connection.{read, buffer}
use mcloudtt.Server.{Net, ServerEvent, accepted, task, tcp, Task, System, serve}
use mcloudtt.Server.Invariant.{IsSystem, append-IsSystem}
use mcloudtt.Server.Delivery.{task_at}
use mcloudtt.Server.Arrival.{IsIdle}
use mcloudtt.Server.Isolation.{Arrived, published, serve-Arrived}
use mcloudtt.Tests.Setup.{env, view, laws, fresh_world, plain, decode}
use mcloudtt.Tests.Topics.{one_topic, reader}
use mcloudtt.Tests.Client.{listening, listening-IsWorld, nothing_yet, none_missed}

abbrev pub example_net : Net env
example_net = record { Raw = List ℕ; plain = λ raw. raw; tls_accept = λ raw. inr raw }

abbrev pub subscriber : Task env
subscriber = record { addr = "one"; client = listening.client; stream = []; running = true }

abbrev pub publisher : Task env
publisher = record { addr = "two"; client = fresh_world.client; stream = []; running = true }

abbrev pub both : System env
both = record {
  common = record { shared = one_topic; queue = []; bq = [] };
  tasks = (subscriber ∷ []) ++ publisher ∷ [];
}

pub both-IsSystem : IsSystem env view both.common both.tasks
both-IsSystem =
    append-IsSystem env view laws both.common (subscriber ∷ []) publisher refl (record {
      valid = listening-IsWorld.valid;
      worlds = (listening-IsWorld, tt);
      apart = (tt, tt);
    })

pub idle : IsIdle env view both.common "a" reader subscriber
idle = record { running = refl; one = refl; empty = nothing_yet; none_missed = none_missed }

abbrev pub packet_bytes : List ℕ
packet_bytes = 48 ∷ 5 ∷ []

decoded : env.decode_mqtt (buffer packet_bytes) ≡ inr (some (Packet.publish (plain "a" 5)))
unfolding decode
decoded = refl

pub one_zero : ◌≢◌ {A = ℕ} 1 0
one_zero e = omega (arith, e)

-- Somebody connects, and the publisher sends a packet.
abbrev others : List (ServerEvent (List ℕ))
others = accepted tcp (inr ([], "three")) "third" ∷ task 1 (read packet_bytes) ∷ []

serve-Arrived_example :
    let s' = serve env example_net others both in
    (task_at 0 s'.tasks ≡ some subscriber)
    × Arrived env view reader "a"
        (published env example_net others both)
        both.common.shared
        s'.common.shared
unfolding get
serve-Arrived_example =
    serve-Arrived env example_net view laws others both 0 subscriber "a" reader both-IsSystem refl
      refl (tt, (one_zero, tt))
