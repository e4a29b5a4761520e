-- ===== src/Server/Node.antt =====
-- A broker with its Redis client: the task that `main_loop` of src/main.rs spawns for
-- src/redis_client.rs takes its turns between those of the connections.
pub mod Relay
use mcloudtt.Prelude.{String, Bool, true, false, List, [], ◌∷◌, if◌then◌else◌}
use mcloudtt.Error.{Result, is_ok}
use mcloudtt.Env.{Env}
use mcloudtt.Redis.{Crates, Synced, SyncEvent, listen_once}
use mcloudtt.Server.{Net, ServerEvent, System, serve_once}

pub data NodeEvent (Raw : Type 0) (Publish : Type 0) : Type 0 where
  served : ServerEvent Raw → NodeEvent Raw Publish
  synced : SyncEvent Publish → NodeEvent Raw Publish

module _ (E : Env) (C : Crates) where
  pub record Node : Type 0 where
    pub system : System E
    pub server : C.Server
    -- The task of the Redis client has not panicked.
    pub listening : Bool

module _ (E : Env) (C : Crates) where
  -- What a turn of `redis_client.listen()` leaves.
  abbrev pub listened : Node E C → Result (Unit {0}) × Synced E C → Node E C
  listened n (r, w) = record {
    system = record n.system { common = record n.system.common { shared = w.shared } };
    server = w.server;
    listening = is_ok r;
  }

  unfoldable pub sync_once : String → SyncEvent E.PublishPacket → Node E C → Node E C
  sync_once sender_id e n =
      if n.listening
      then listened n (
          listen_once E C sender_id e
            (record { shared = n.system.common.shared; server = n.server }))
      else n

module _ (E : Env) (C : Crates) (N : Net E) where
  unfoldable pub node_once : String → NodeEvent N.Raw E.PublishPacket → Node E C → Node E C
  node_once sender_id (served e) n = record n { system = serve_once E N e n.system }
  node_once sender_id (synced e) n = sync_once E C sender_id e n

  -- The tasks of `main_loop`, in the order that the environment chooses.
  unfoldable pub run_node : String → List (NodeEvent N.Raw E.PublishPacket) → Node E C → Node E C
  run_node sender_id [] n = n
  run_node sender_id (e ∷ es) n = run_node sender_id es (node_once sender_id e n)
