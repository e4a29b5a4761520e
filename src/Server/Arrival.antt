-- ===== src/Server/Arrival.antt =====
-- A task that takes a message: from its receiver to its stream (src/main.rs, src/tcp_handling.rs).
use mcloudtt.Prelude.{
  last, ℕ, ◌<◌, ◌≤◌, String, some, ◌≡◌, refl, sym, ap, ◌∙◌, true, List, [], ◌∷◌, ◌++◌, ◌-◌, arith,
}
use mathlib.Core.Path.{subst}
use mcloudtt.BTreeMap.{get}
use mcloudtt.Broadcast.{View, IsBroadcast}
use mcloudtt.Mqtt.{Packet}
use mcloudtt.Env.{Env, Message, IsStream, IsConnected}
use mcloudtt.Topics
use mcloudtt.Topics.{Shared}
use mcloudtt.Topics.Delivery.{Reads, publish-delivers, publish-missed}
use mcloudtt.Client.Written.{returned}
use mcloudtt.Client.Connection.{received, received_branch}
use mcloudtt.Client.Connection.Arrive.{iterate-ready, received_branch-returns}
use mcloudtt.Client.Connection.Forward.{poll_single, get_single}
use mcloudtt.Client.Connection.Receive.{received_branch-ok, received_branch-shared}
use mcloudtt.Client.Invariant.{IsWorld}
use mcloudtt.Server.{Common, Task, enter, settle, step_task}
use mcloudtt.Server.Invariant.{IsSystem}
use mcloudtt.Server.Delivery.{task_at, step_task_running, All-at}

module _ (E : Env) (V : View E.bus) where
  -- The task runs, is subscribed to one topic, has the messages to read, and nothing missed.
  pub record IsWaiting (c : Common E) (t : String) (r : E.Receiver)
      (ms : List (Message E.PublishPacket)) (b : Task E) : Type 0 where
    pub running : b.running ≡ true
    pub one : b.client.receivers ≡ (t, r) ∷ []
    pub unread : V.unread r c.shared.hub ≡ ms
    pub none_missed : V.missed r c.shared.hub ≡ 0

  -- The task runs, is subscribed to one topic, and has nothing to read and nothing missed.
  pub record IsIdle (c : Common E) (t : String) (r : E.Receiver) (b : Task E) : Type 0 where
    pub running : b.running ≡ true
    pub one : b.client.receivers ≡ (t, r) ∷ []
    pub empty : V.unread r c.shared.hub ≡ []
    pub none_missed : V.missed r c.shared.hub ≡ 0

  -- The task still runs, its stream has got the packet, and it has again nothing to read.
  pub record IsForwarded (sent : E.Stream → List ℕ) (p : E.PublishPacket) (t : String)
      (r : E.Receiver) (b : Task E) (c : Common E) (b' : Task E) : Type 0 where
    pub idle : IsIdle c t r b'
    pub bytes : sent b'.stream ≡ sent b.stream ++ E.encode_mqtt (Packet.publish p)

  -- A channel has room for one message.
  alone :
      (r : E.Receiver) (p : E.PublishPacket) (s : Shared E)
      → 1024 ≤ V.capacity (V.sender_of r)
      → V.unread r s.hub ≡ []
      → last (V.capacity (V.sender_of r)) (V.unread r s.hub ++ Message.publish p ∷ [])
        ≡ Message.publish p ∷ []
  alone r p s room empty =
      let full : 1 - V.capacity (V.sender_of r) ≡ 0 = omega (arith, room) in rw (empty, full) refl

module _ (E : Env) (V : View E.bus) where
  -- After a publication the one reader has just the packet to read.
  pub published-queue :
      (L : IsBroadcast E.bus V) (q : E.PublishPacket) (t : String) (r : E.Receiver) (b : Task E)
      (c : Common E) (ps : List (Task E)) (j : ℕ)
      → IsSystem E V c ps
      → task_at j ps ≡ some b
      → IsIdle E V c t r b
      → E.topic_name q ≡ t
      → let s = (Topics.publish E q c.shared).1 in
        (V.unread r s.hub ≡ Message.publish q ∷ []) × (V.missed r s.hub ≡ 0)
  published-queue L q t r b c ps j v found idle same =
      let reads =
        (All-at E (λ p. IsWorld E V (enter E c p)) j ps b v.worlds found).subscribed t r
          (rw idle.one (get_single E V L t r)) in
      let room : 1024 ≤ V.capacity (V.sender_of r) =
        rw reads.attached (v.valid.roomy t reads.channel reads.found) in
      let d = subst (λ x. Reads E V r x c.shared) (sym same) reads in
      (
        publish-delivers E V L q c.shared r d ∙ alone E V r q c.shared room idle.empty,
        publish-missed E V L q c.shared r d
            ∙ rw (idle.empty, idle.none_missed) (omega (arith, room)),
      )

module _ (E : Env) (V : View E.bus) (L : IsBroadcast E.bus V) (C : IsConnected E.io)
    (sent : E.Stream → List ℕ) (S : IsStream E.io sent) where
  -- An iteration of a task that has packets to read: it takes the first.
  pub step_task-takes :
      (j : ℕ) (p : E.PublishPacket) (ms : List (Message E.PublishPacket)) (c : Common E)
      (ps : List (Task E)) (b : Task E) (t : String) (r : E.Receiver)
      → E.settings.general.timeout < 65534
      → IsWorld E V (enter E c b)
      → task_at j ps ≡ some b
      → b.running ≡ true
      → b.client.receivers ≡ (t, r) ∷ []
      → V.unread r c.shared.hub ≡ Message.publish p ∷ ms
      → V.missed r c.shared.hub ≡ 0
      → let x = step_task E j received c ps in
        (b' : Task E) × (task_at j x.1 ≡ some b')
        × IsWaiting E V x.0 t r ms b'
        × (sent b'.stream ≡ sent b.stream ++ E.encode_mqtt (Packet.publish p))
        × (x.0.shared.hub ≡ (E.bus.recv r c.shared.hub).1)
  unfolding settle
  step_task-takes j p ms c ps b t r h i found on one queue none_missed =
      let w = enter E c b in
      let entry : get t w.client.receivers ≡ some r = rw one (get_single E V L t r) in
      let live = (i.subscribed t r entry).live in
      let w' = (received_branch E t w).1 in
      let e =
        returned E (received_branch E t) w
          (received_branch-returns E V L C t r p ms w entry live none_missed queue) in
      let ran =
        iterate-ready E b.addr t w h (poll_single E V L w t r (Message.publish p) ms one live queue)
        ∙ e in
      let (bytes, receivers, rest, missed, _) =
        received_branch-ok E V L sent S t r p ms w w' entry live none_missed queue e in
      let (common, tasks) = step_task_running E j received c ps b found on in
      let step = ap (settle E b) ran in
      let hub = ap (λ x. x.shared.hub) (common ∙ ap (λ x. x.0) step) in
      (
        record b { client = w'.client; stream = w'.stream },
        tasks ∙ ap (λ x. some x.1) step,
        record {
          running = on;
          one = receivers ∙ one;
          unread = ap (V.unread r) hub ∙ rest;
          none_missed = ap (V.missed r) hub ∙ missed;
        },
        bytes,
        hub ∙ received_branch-shared E V L sent S t r p ms w w' entry live none_missed queue e,
      )

  -- An iteration of a task that has one packet to read.
  pub step_task-forwards :
      (j : ℕ) (p : E.PublishPacket) (c : Common E) (ps : List (Task E)) (b : Task E) (t : String)
      (r : E.Receiver)
      → E.settings.general.timeout < 65534
      → IsWorld E V (enter E c b)
      → task_at j ps ≡ some b
      → b.running ≡ true
      → b.client.receivers ≡ (t, r) ∷ []
      → V.unread r c.shared.hub ≡ Message.publish p ∷ []
      → V.missed r c.shared.hub ≡ 0
      → let x = step_task E j received c ps in
        (b' : Task E) × (task_at j x.1 ≡ some b')
        × IsForwarded E V sent p t r b x.0 b'
        × (x.0.shared.hub ≡ (E.bus.recv r c.shared.hub).1)
  step_task-forwards j p c ps b t r h i found on one queue none_missed =
      let (b', at, waiting, bytes, hub) =
        step_task-takes j p [] c ps b t r h i found on one queue none_missed in
      (
        b',
        at,
        record {
          idle = record {
            running = waiting.running;
            one = waiting.one;
            empty = waiting.unread;
            none_missed = waiting.none_missed;
          };
          bytes = bytes;
        },
        hub,
      )
