-- ===== src/Server/FanOut.antt =====
-- A packet from the stream of one client to the streams of all its subscribers (src/main.rs).
use mcloudtt.Prelude.{ℕ, ◌<◌, String, some, ◌≡◌, ◌≢◌, refl, ◌∙◌, true, List, [], ◌∷◌, inr, All, map}
use mcloudtt.BTreeMap.{get}
use mcloudtt.Broadcast.{View, IsBroadcast}
use mcloudtt.Mqtt.{Packet}
use mcloudtt.Env.{Env, Message, IsStream, IsConnected}
use mcloudtt.Client.Connection.{read, buffer}
use mcloudtt.Client.Connection.Forward.{get_single}
use mcloudtt.Client.Invariant.{IsWorld}
use mcloudtt.Server.{Net, task, Task, System, enter, serve_once, serve}
use mcloudtt.Server.Step.{Away}
use mcloudtt.Server.Invariant.{IsSystem}
use mcloudtt.Server.Serving.{serve_once-Valid}
use mcloudtt.Server.Delivery.{task_at, task_at-step_task, All-at, apart_at, step_task-SameQueue}
use mcloudtt.Server.Arrival.{IsIdle, published-queue}
use mcloudtt.Server.Turns.{Subscriber, Different, turn, Holds, HasGot, turns-HasGot}

module _ (E : Env) (V : View E.bus) (L : IsBroadcast E.bus V) (C : IsConnected E.io)
    (sent : E.Stream → List ℕ) (S : IsStream E.io sent) (N : Net E) where
  -- A subscriber with nothing to read, that is not the publisher.
  abbrev pub IsWaiting : ℕ → String → System E → Subscriber E → Type 0
  IsWaiting i t s x =
      (i ≢ x.number)
      × (task_at x.number s.tasks ≡ some x.known)
      × IsIdle E V s.common t x.reader x.known

  published-Holds :
      (i : ℕ) (bytes : List ℕ) (p : E.PublishPacket) (s : System E) (a : Task E) (x : Subscriber E)
      → E.settings.general.timeout < 65534
      → IsSystem E V s.common s.tasks
      → task_at i s.tasks ≡ some a
      → a.running ≡ true
      → E.decode_mqtt (buffer bytes) ≡ inr (some (Packet.publish p))
      → IsWaiting i (E.topic_name p) s x
      → Holds E V
          (serve_once E N (task i (read bytes)) s)
          (E.topic_name p)
          (Message.publish p ∷ [])
          x
  unfolding serve_once
  published-Holds i bytes p s a x timeout v found on e (ne, at, idle) =
      let t = E.topic_name p in
      let entry : get t x.known.client.receivers ≡ some x.reader =
        rw idle.one (get_single E V L t x.reader) in
      let reads =
        (All-at E (λ q. IsWorld E V (enter E s.common q)) x.number s.tasks x.known v.worlds
            at).subscribed
          t x.reader entry in
      let away : Away E x.reader a =
        λ f y. apart_at E i x.number s.tasks a x.known f t x.reader v.apart ne found at y entry in
      let (queue, missed) =
        step_task-SameQueue E V L i bytes p s.common s.tasks a x.reader t timeout v found on e reads
          away in
      let (one, none_missed) =
        published-queue E V L p t x.reader x.known s.common s.tasks x.number v at idle refl in
      record {
        found = task_at-step_task E i x.number (read bytes) s.common s.tasks ne ∙ at;
        running = idle.running;
        one = idle.one;
        unread = queue ∙ one;
        none_missed = missed ∙ none_missed;
      }

  published-AllHold :
      (i : ℕ) (bytes : List ℕ) (p : E.PublishPacket) (s : System E) (a : Task E)
      (xs : List (Subscriber E))
      → E.settings.general.timeout < 65534
      → IsSystem E V s.common s.tasks
      → task_at i s.tasks ≡ some a
      → a.running ≡ true
      → E.decode_mqtt (buffer bytes) ≡ inr (some (Packet.publish p))
      → All (IsWaiting i (E.topic_name p) s) xs
      → All
          (Holds E V
            (serve_once E N (task i (read bytes)) s)
            (E.topic_name p)
            (Message.publish p ∷ []))
          xs
  published-AllHold i bytes p s a [] timeout v found on e w = tt
  published-AllHold i bytes p s a (x ∷ xs) timeout v found on e w = (
    published-Holds i bytes p s a x timeout v found on e w.0,
    published-AllHold i bytes p s a xs timeout v found on e w.1,
  )

  -- The tasks of the server are in a state that keeps the invariant, streams stay connected, and
  -- the timeout is at most 65533 seconds. A task reads the bytes of a PUBLISH, and then any number
  -- of other tasks take a message, each once: each runs, is subscribed to just the packet's topic,
  -- and has nothing to read and nothing missed. Then each of them still runs, its stream has got
  -- exactly the packet, and it has again nothing to read and nothing missed.
  pub serve-fan_out :
      (i : ℕ) (bytes : List ℕ) (p : E.PublishPacket) (s : System E) (a : Task E)
      (xs : List (Subscriber E))
      → E.settings.general.timeout < 65534
      → IsSystem E V s.common s.tasks
      → task_at i s.tasks ≡ some a
      → a.running ≡ true
      → E.decode_mqtt (buffer bytes) ≡ inr (some (Packet.publish p))
      → Different E xs
      → All (IsWaiting i (E.topic_name p) s) xs
      → All
          (HasGot E V sent p (E.topic_name p) (serve E N (task i (read bytes) ∷ map (turn E) xs) s))
          xs
  unfolding serve
  serve-fan_out i bytes p s a xs timeout v found on e d w =
      (turns-HasGot E V L C sent S N p (E.topic_name p) xs (serve_once E N (task i (read bytes)) s)
        timeout (serve_once-Valid E N V L (task i (read bytes)) s v)
        (published-AllHold i bytes p s a xs timeout v found on e w) d).0
