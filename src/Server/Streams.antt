-- ===== src/Server/Streams.antt =====
-- What the stream of a subscriber gets while all tasks take turns in any order (src/main.rs).
pub mod Reading
pub mod Delivered
pub mod Subscribed
use mcloudtt.Prelude.{
  ℕ, zero, suc, ◌+◌, ◌≤◌, ◌<◌, String, some, none, ◌≡◌, ◌≢◌, refl, sym, ap, ◌∙◌, true, List, [],
  ◌∷◌, ◌++◌, ◌⊎◌, inl, inr, All, map, length, length-append, length-map, append_assoc, append-nil,
  last-all, arith, replicate,
}
use mathlib.Core.List.{map-append}
use mathlib.Core.Path.{subst}
use mcloudtt.Error.{Result, ok, err, panic}
use mcloudtt.BTreeMap
use mcloudtt.BTreeMap.{get}
use mcloudtt.Broadcast.{View, IsBroadcast}
use mcloudtt.Mqtt.{Packet}
use mcloudtt.Env.{Env, Message, IsStream, IsConnected}
use mcloudtt.Topics.Delivery.{Reads}
use mcloudtt.Topics.History.{packets_on, messages_on, messages_on-map, packets_on-append}
use mcloudtt.Topics.Interleaving.{arrivals-last}
use mcloudtt.Client.State.{World}
use mcloudtt.Client.Publications.{of_event, of_timers, of_turn}
use mcloudtt.Client.Connection.{
  received, key_of, poll, received_from, received_ready, branch, iterate, sleep_secs,
}
use mcloudtt.Client.Connection.Timers.{sleep_secs-eq}
use mcloudtt.Client.Connection.Forward.{stream_of, get_single}
use mcloudtt.Client.Invariant.{IsWorld}
use mcloudtt.Server.{
  Net, ServerEvent, accepted, task, Common, Task, System, enter, settle, step_task, serve_once,
  serve,
}
use mcloudtt.Server.Step.{of_task}
use mcloudtt.Server.Invariant.{IsSystem, of_step}
use mcloudtt.Server.Serving.{serve_once-Valid}
use mcloudtt.Server.Delivery.{task_at, step_task_running, All-at}
use mcloudtt.Server.Arrival.{IsWaiting, step_task-takes}
use mcloudtt.Server.Isolation.{Arrived, Spares, Spared, of_server, published, serve_once-Spared}

module _ (E : Env) where
  -- A turn that takes a message publishes nothing.
  of_timers-received : (r : Result ℕ) (w : World E) → of_timers E r received w.client.will ≡ []
  unfolding of_timers of_event
  of_timers-received (ok secs) w = refl
  of_timers-received (err x) w = refl
  of_timers-received panic w = refl

  pub of_step-received :
      (j : ℕ) (c : Common E) (ps : List (Task E)) → of_step E j received c ps ≡ []
  unfolding of_step of_task of_turn
  of_step-received j c [] = refl
  of_step-received zero c (p ∷ ps) =
      let silent = of_timers-received (sleep_secs E) (enter E c p) in ground arith
  of_step-received (suc j) c (p ∷ ps) = of_step-received j c ps

  pub stream_of-append :
      (ps qs : List E.PublishPacket) → stream_of E (ps ++ qs) ≡ stream_of E ps ++ stream_of E qs
  unfolding stream_of
  stream_of-append [] qs = refl
  stream_of-append (p ∷ ps) qs =
      ap (◌++◌ (E.encode_mqtt (Packet.publish p))) (stream_of-append ps qs)
      ∙ sym (append_assoc (E.encode_mqtt (Packet.publish p)) (stream_of E ps) (stream_of E qs))

module _ (E : Env) (V : View E.bus) (L : IsBroadcast E.bus V) where
  -- With nothing to read the future is pending.
  poll_idle :
      (w : World E) (t : String) (r : E.Receiver)
      → w.client.receivers ≡ (t, r) ∷ []
      → V.live r w.shared.hub ≡ true
      → V.unread r w.shared.hub ≡ []
      → poll E w ≡ none
  unfolding poll key_of BTreeMap.find
  poll_idle w t r one live empty =
      let none_left = (L.is_empty_iff r w.shared.hub live).1 empty in ground (arith, none_left, one)

  -- A turn of a task that has nothing to read changes nothing.
  pub step_task-idle :
      (j : ℕ) (c : Common E) (ps : List (Task E)) (b : Task E) (t : String) (r : E.Receiver)
      → E.settings.general.timeout < 65534
      → IsWorld E V (enter E c b)
      → task_at j ps ≡ some b
      → IsWaiting E V c t r [] b
      → let x = step_task E j received c ps in (x.0 ≡ c) × (task_at j x.1 ≡ some b)
  unfolding settle iterate branch received_ready received_from
  step_task-idle j c ps b t r h i found waits =
      let live = (i.subscribed t r (rw waits.one (get_single E V L t r))).live in
      let (common, tasks) = step_task_running E j received c ps b found waits.running in
      let ready = poll_idle (enter E c b) t r waits.one live waits.unread in
      let ran : settle E b (iterate E b.addr received (enter E c b)) ≡ (c, b) =
        rw (sleep_secs-eq E h, ready, received_from) refl in
      (common ∙ ap (λ x. x.0) ran, tasks ∙ ap (λ x. some x.1) ran)
