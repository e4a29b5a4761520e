-- ===== src/Tests/Overflow.antt =====
-- The server of src/main.rs with the largest timeout, in a build with overflow checks.
use mcloudtt.Prelude.{ℕ, some, true, false, List, [], ◌∷◌, ◌≡◌, refl, inr, arith}
use mcloudtt.Env.{Env}
use mcloudtt.Client.State
use mcloudtt.Client.Connection.{read, timed_out}
use mcloudtt.Server.{Net, ServerEvent, accepted, task, tcp, Task, System, serve}
use mcloudtt.Server.Delivery.{task_at}
use mcloudtt.Server.Overflow.{after, IsUntouched, has_turn, serve_overflow}
use mcloudtt.Tests.Setup.{env, example_settings, no_topics}

abbrev slow : Env
slow = record env {
  settings = record example_settings { general = record { websocket = false; timeout = 65535 } };
}

abbrev slow_net : Net slow
slow_net = record { Raw = List ℕ; plain = λ raw. raw; tls_accept = λ raw. inr raw }

abbrev peer : Task slow
peer = record { addr = "one"; client = State.new slow "first"; stream = []; running = true }

abbrev lone : System slow
lone = record {
  common = record { shared = record { topics = []; hub = no_topics.hub }; queue = []; bq = [] };
  tasks = peer ∷ [];
}

-- The peer sends a PUBLISH; another client connects.
abbrev turns : List (ServerEvent slow_net.Raw)
turns =
    accepted tcp (inr ([], "two")) "second" ∷ task 0 (read (48 ∷ 5 ∷ [])) ∷ task 1 timed_out ∷ []

serve_overflow_example :
    let s' = serve slow slow_net turns lone in
    IsUntouched slow lone.common s'.common
    × (task_at 0 s'.tasks ≡ some (after slow (has_turn slow slow_net 0 turns) peer))
serve_overflow_example =
    serve_overflow slow slow_net turns lone 0 peer
      (record { long = omega arith; of_u16 = omega arith; checks = refl }) refl
