-- ===== src/Server.antt =====
-- src/main.rs: the accept loop, and the tasks of the connections, which share the topics. A step of a
-- task is one iteration of its loop; which task goes on, and what comes in, is up to the environment.
pub mod Step
pub mod Invariant
pub mod Serving
pub mod Delivery
pub mod Arrival
pub mod Turns
pub mod FanOut
pub mod HungUp
pub mod Overflow
pub mod Isolation
pub mod Retained
pub mod Streams
pub mod Start
pub mod Node
use mcloudtt.Prelude.{
  ℕ, zero, suc, String, Bool, true, false, List, [], ◌∷◌, ◌++◌, ◌⊎◌, inl, inr, if◌then◌else◌,
}
use mcloudtt.Error.{Result, ok, err, panic}
use mcloudtt.Env.{Env}
use mcloudtt.Topics.{Shared}
use mcloudtt.Client.State
use mcloudtt.Client.State.{Client, World}
use mcloudtt.Client.Connection.{Event, iterate}
use mcloudtt.Client.Ended.{drop_all}

-- A `TcpStream`, which is used as it is or after a TLS handshake; left is the handshake's error.
pub record Net (E : Env) : Type 1 where
  pub Raw : Type 0
  pub plain : Raw → E.Stream
  pub tls_accept : Raw → String ⊎ E.Stream

pub data Listener : Type 0 where
  tcp ws : Listener

-- What an `accept` returned, with the identifier that the client draws; or an iteration of a task.
pub data ServerEvent (Raw : Type 0) : Type 0 where
  accepted : Listener → String ⊎ (Raw × String) → String → ServerEvent Raw
  task : ℕ → Event → ServerEvent Raw

module _ (E : Env) where
  -- What the tasks share.
  pub record Common : Type 0 where
    pub shared : Shared E
    pub queue : E.Queue
    pub bq : E.Bq

  -- `tokio::spawn(async move { client.handle_raw_tcp_stream(stream, addr).await })`
  pub record Task : Type 0 where
    pub addr : String
    pub client : Client E
    pub stream : E.Stream
    pub running : Bool

  pub record System : Type 0 where
    pub common : Common
    pub tasks : List Task

module _ (E : Env) where
  abbrev pub enter : Common E → Task E → World E
  enter c p = record {
    client = p.client;
    shared = c.shared;
    queue = c.queue;
    bq = c.bq;
    stream = p.stream;
  }

  -- A task that is over drops its client.
  unfoldable pub ended : Task E → World E → Common E × Task E
  ended p w = (
    record { shared = drop_all E w.client.receivers w.shared; queue = w.queue; bq = w.bq },
    record p { client = record w.client { receivers = [] }; stream = w.stream; running = false },
  )

  -- The loop goes on, or has returned an error, or has panicked.
  unfoldable pub settle : Task E → Result (Unit {0}) × World E → Common E × Task E
  unfolding ended
  settle p (ok _, w) = (
    record { shared = w.shared; queue = w.queue; bq = w.bq },
    record p { client = w.client; stream = w.stream },
  )
  settle p (err _, w) = ended p w
  settle p (panic, w) = ended p w

  unfoldable pub run_task : Event → Common E → Task E → Common E × Task E
  unfolding settle
  run_task e c p = if p.running then settle p (iterate E p.addr e (enter c p)) else (c, p)

  -- The task with the given number, if there is one.
  unfoldable pub step_task : ℕ → Event → Common E → List (Task E) → Common E × List (Task E)
  step_task i e c [] = (c, [])
  step_task zero e c (p ∷ ps) = let (c', p') = run_task e c p in (c', p' ∷ ps)
  step_task (suc i) e c (p ∷ ps) = let (c', ps') = step_task i e c ps in (c', p ∷ ps')

module _ (E : Env) (N : Net E) where
  -- A stream whose handshake failed is dropped with its new client.
  unfoldable pub spawned : String → Client E → String ⊎ E.Stream → System E → System E
  spawned addr client (inl e) s = s
  spawned addr client (inr stream) s = record s {
    tasks =
        s.tasks ++ record { addr = addr; client = client; stream = stream; running = true } ∷ [];
  }

  unfoldable pub handle_new_connection : N.Raw → String → String → System E → System E
  unfolding spawned
  handle_new_connection raw addr id s =
      let client = State.new E id in
      spawned addr client (if E.features.secure then N.tls_accept raw else inr (N.plain raw)) s

  -- The arms of the `select!` of the loop that asks both listeners. An error of `accept` is only logged.
  unfoldable pub on_accept : Listener → String ⊎ (N.Raw × String) → String → System E → System E
  on_accept tcp (inl e) id s = s
  on_accept tcp (inr (stream, addr)) id s = handle_new_connection stream addr id s
  on_accept ws (inl e) id s = s
  on_accept ws (inr (stream, addr)) id s = handle_new_connection stream addr id s

  -- The body of the loop without WebSocket: its listener is bound and never asked.
  unfoldable pub on_accept_tcp : Listener → String ⊎ (N.Raw × String) → String → System E → System E
  on_accept_tcp tcp (inl e) id s = s
  on_accept_tcp tcp (inr (stream, addr)) id s = handle_new_connection stream addr id s
  on_accept_tcp ws r id s = s

  unfoldable pub serve_once : ServerEvent N.Raw → System E → System E
  serve_once (accepted l r id) s =
      if E.settings.general.websocket then on_accept l r id s else on_accept_tcp l r id s
  serve_once (task i e) s =
      let (c, ps) = step_task E i e s.common s.tasks in record { common = c; tasks = ps }

  -- The loop of `main_loop`, with the tasks that it has spawned.
  unfoldable pub serve : List (ServerEvent N.Raw) → System E → System E
  serve [] s = s
  serve (e ∷ es) s = serve es (serve_once e s)
