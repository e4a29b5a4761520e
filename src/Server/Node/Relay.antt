-- ===== src/Server/Node/Relay.antt =====
-- A packet from another broker to a client's stream (src/redis_client.rs, src/main.rs).
use mcloudtt.Prelude.{
  ℕ, ◌<◌, String, some, ◌≡◌, ◌≢◌, sym, ap, ◌∙◌, true, false, List, [], ◌∷◌, if◌then◌else◌,
}
use mathlib.Core.Path.{subst}
use mcloudtt.Error.{ok}
use mcloudtt.Broadcast.{View, IsBroadcast}
use mcloudtt.Mqtt.{BuildsGiven}
use mcloudtt.Env.{Env, IsStream, IsConnected}
use mcloudtt.Topics
use mcloudtt.Topics.{Shared}
use mcloudtt.Topics.Invariant.{publish-IsValid}
use mcloudtt.Client.Connection.{received}
use mcloudtt.Client.Invariant.{IsWorld}
use mcloudtt.Client.Invariant.Loop.{published}
use mcloudtt.Redis.{
  Crates, IsJson, Synced, SyncEvent, from_redis, redis_message, listen_once, handle_message,
}
use mcloudtt.Redis.Sync.{handle_message_other, listen_once-Preserves}
use mcloudtt.Server.{Net, task, Common, Task, enter, serve_once}
use mcloudtt.Server.Invariant.{IsSystem, AllWorlds}
use mcloudtt.Server.Serving.{serve_once-Valid}
use mcloudtt.Server.Delivery.{task_at, All-at}
use mcloudtt.Server.Arrival.{IsIdle, IsForwarded, published-queue, step_task-forwards}
use mcloudtt.Server.Node.{NodeEvent, served, synced, Node, listened, sync_once, node_once, run_node}

module _ (E : Env) (V : View E.bus) (L : IsBroadcast E.bus V) where
  -- A packet that comes from no task.
  publish-AllWorlds :
      (q : E.PublishPacket) (c : Common E) (ps : List (Task E))
      → AllWorlds E V c ps
      → AllWorlds E V (record c { shared = (Topics.publish E q c.shared).1 }) ps
  publish-AllWorlds q c [] h = tt
  publish-AllWorlds q c (p ∷ ps) h =
      (published E V L q (enter E c p) h.0, publish-AllWorlds q c ps h.1)

  publish-IsSystem :
      (q : E.PublishPacket) (c : Common E) (ps : List (Task E))
      → IsSystem E V c ps
      → IsSystem E V (record c { shared = (Topics.publish E q c.shared).1 }) ps
  publish-IsSystem q c ps s = record {
    valid = publish-IsValid E V L q c.shared s.valid;
    worlds = publish-AllWorlds q c ps s.worlds;
    apart = s.apart;
  }

module _ (E : Env) (C : Crates) (N : Net E) (V : View E.bus) (L : IsBroadcast E.bus V) where
  abbrev Valid : Node E C → Type 0
  Valid n = IsSystem E V n.system.common n.system.tasks

  sync_once-Valid :
      (sender_id : String) (e : SyncEvent E.PublishPacket) (n : Node E C)
      → Valid n
      → Valid (sync_once E C sender_id e n)
  unfolding sync_once
  sync_once-Valid sender_id e n v =
      let x =
        listen_once E C sender_id e
          (record { shared = n.system.common.shared; server = n.server }) in
      let c = n.system.common in
      elim n.listening as (λ b. Valid (if b then listened E C n x else n)) [
        | true ↦
            listen_once-Preserves E C (λ s. IsSystem E V (record c { shared = s }) n.system.tasks)
              (λ q s. publish-IsSystem E V L q (record c { shared = s }) n.system.tasks) sender_id e
              (record { shared = c.shared; server = n.server }) v
        | false ↦ v
      ]

  -- Whatever order the connections and the Redis client of a broker take their turns in, and
  -- whatever comes in: if the topics are valid, each task keeps the invariant of a connection and
  -- no receiver belongs to two tasks at first, this is so afterwards.
  pub run_node-IsSystem :
      (sender_id : String) (es : List (NodeEvent N.Raw E.PublishPacket)) (n : Node E C)
      → IsSystem E V n.system.common n.system.tasks
      → let n' = run_node E C N sender_id es n in IsSystem E V n'.system.common n'.system.tasks
  unfolding run_node node_once
  run_node-IsSystem sender_id [] n v = v
  run_node-IsSystem sender_id (served e ∷ es) n v =
      run_node-IsSystem sender_id es (node_once E C N sender_id (served e) n)
        (serve_once-Valid E N V L e n.system v)
  run_node-IsSystem sender_id (synced e ∷ es) n v =
      run_node-IsSystem sender_id es (sync_once E C sender_id e n) (sync_once-Valid sender_id e n v)

module _ (E : Env) (C : Crates) (N : Net E) (K : IsJson C) (B : BuildsGiven E.mqtt) where
  sync_once-other :
      (own other text : String) (p q : E.PublishPacket) (n : Node E C)
      → n.listening ≡ true
      → other ≢ own
      → C.to_text (redis_message E C other p) ≡ some text
      → E.build (E.topic_name p) (E.payload p) (some (E.retain p)) ≡ some q
      → sync_once E C own (from_redis text) n
        ≡ listened E C n (
          ok tt,
          record { shared = (Topics.publish E q n.system.common.shared).1; server = n.server },
        )
  unfolding sync_once listen_once
  sync_once-other own other text p q n on ne e built =
      let w : Synced E C = record { shared = n.system.common.shared; server = n.server } in
      ap (λ x. if x then listened E C n (handle_message E C own text w) else n) on
      ∙ ap (listened E C n) (handle_message_other E C K B other own text p q w ne e built).0

  module _ (V : View E.bus) (L : IsBroadcast E.bus V) (S : IsConnected E.io)
      (sent : E.Stream → List ℕ) (W : IsStream E.io sent) where
    -- A broker whose connections keep the invariant, on streams that stay connected, with a Redis
    -- client that listens and a timeout of at most 65533 seconds. Another broker, with another
    -- identifier, has written a packet as a text, whose packet this one can build; the codec reads
    -- back what it writes, and the builder keeps the fields it is given. When the text has come in,
    -- and then a task that is subscribed to just the packet's topic, with nothing to read and
    -- nothing missed, takes a message, the task still runs, its stream has got exactly the packet
    -- built, which has the topic and the payload of the other broker's, and it has again nothing to
    -- read and nothing missed.
    pub run_node-forwards :
        (own other text : String) (p q : E.PublishPacket) (n : Node E C) (j : ℕ) (b : Task E)
        (r : E.Receiver)
        → E.settings.general.timeout < 65534
        → IsSystem E V n.system.common n.system.tasks
        → n.listening ≡ true
        → other ≢ own
        → C.to_text (redis_message E C other p) ≡ some text
        → E.build (E.topic_name p) (E.payload p) (some (E.retain p)) ≡ some q
        → task_at j n.system.tasks ≡ some b
        → IsIdle E V n.system.common (E.topic_name p) r b
        → let n' =
            run_node E C N own (synced (from_redis text) ∷ served (task j received) ∷ []) n in
          ((b' : Task E) × (task_at j n'.system.tasks ≡ some b')
            × IsForwarded E V sent q (E.topic_name p) r b n'.system.common b')
          × (E.topic_name q ≡ E.topic_name p)
          × (E.payload q ≡ E.payload p)
    unfolding run_node node_once serve_once
    run_node-forwards own other text p q n j b r h v on ne e built found idle =
        let t = E.topic_name p in
        let c = n.system.common in
        let ps = n.system.tasks in
        let c' : Common E = record c { shared = (Topics.publish E q c.shared).1 } in
        let same = B.built_topic t (E.payload p) (some (E.retain p)) q built in
        let (queue, missed) = published-queue E V L q t r b c ps j v found idle same in
        let v' = publish-IsSystem E V L q c ps v in
        let i = All-at E (λ x. IsWorld E V (enter E c' x)) j ps b v'.worlds found in
        let (b', at, forwarded, _) =
          step_task-forwards E V L S sent W j q c' ps b t r h i found idle.running idle.one queue
            missed in
        (
          subst
              (λ (m : Node E C).
                let s = node_once E C N own (served (task j received)) m in
                (b' : Task E) × (task_at j s.system.tasks ≡ some b')
                × IsForwarded E V sent q t r b s.system.common b')
              (sym (sync_once-other own other text p q n on ne e built)) (b', at, forwarded),
          same,
          B.built_payload t (E.payload p) (some (E.retain p)) q built,
        )
