-- ===== src/Server/HungUp.antt =====
-- A peer that hangs up (src/tcp_handling.rs, src/main.rs), and the task of its connection.
use mcloudtt.Prelude.{
  ℕ, zero, suc, String, some, ◌≡◌, refl, sym, ap, ◌∙◌, true, false, List, [], ◌∷◌, ◌⊎◌, inl, inr,
}
use mathlib.Core.Path.{subst}
use mcloudtt.Error.{
  Result, ok, err, panic, MCloudError, continue, fail, client_error, unexpected_client_disconnected,
}
use mcloudtt.Client.State.{Client, World}
use mcloudtt.BTreeMap.{get}
use mcloudtt.Broadcast.{View, IsBroadcast}
use mcloudtt.Env.{Env}
use mcloudtt.Topics.Delivery.{Reads}
use mcloudtt.Topics.Queues.{SameQueue}
use mcloudtt.Client.Invariant.{IsWorld}
use mcloudtt.Client.Ended.{drop_all, drop_all-topics, drop_all-dead, drop_all-Keeps}
use mcloudtt.Client.Connection.{
  Event, read, read_nothing, read_error, received, timed_out, tick, iterate, branch, sleep_secs,
}
use mcloudtt.Server.{
  Net, ServerEvent, accepted, task, Common, Task, System, enter, ended, settle, run_task, step_task,
  spawned, handle_new_connection, serve_once, serve,
}
use mcloudtt.Server.Step.{Away}
use mcloudtt.Server.Serving.{accepted_cases}
use mcloudtt.Server.Invariant.{IsSystem}
use mcloudtt.Server.Delivery.{task_at, task_at-append, step_task_running, All-at}

-- The stream is at its end, or cannot be read.
abbrev pub IsHangUp : Event → Type 0
IsHangUp (read bytes) = ⊥
IsHangUp read_nothing = Unit
IsHangUp (read_error text) = Unit
IsHangUp received = ⊥
IsHangUp timed_out = ⊥
IsHangUp tick = ⊥

module _ (E : Env) where
  -- The task, when it is over and nothing more has been written.
  abbrev pub over : Task E → Task E
  over a = record a { client = record a.client { receivers = [] }; running = false }

  -- Also when the set-up of the timers panics.
  settle-fail :
      (a : Task E) (x : MCloudError) (r : Result ℕ) (w : World E)
      → settle E a (continue r (λ n. fail x) w) ≡ ended E a w
  unfolding settle
  settle-fail a x (ok n) w = refl
  settle-fail a x (err y) w = refl
  settle-fail a x panic w = refl

  settle-hang_up :
      (a : Task E) (e : Event) (c : Common E)
      → IsHangUp e
      → settle E a (iterate E a.addr e (enter E c a)) ≡ ended E a (enter E c a)
  unfolding iterate branch
  settle-hang_up a (read bytes) c h = absurd h
  settle-hang_up a read_nothing c h =
      settle-fail a (unexpected_client_disconnected a.addr) (sleep_secs E) (enter E c a)
  settle-hang_up a (read_error text) c h =
      settle-fail a (client_error a.addr) (sleep_secs E) (enter E c a)
  settle-hang_up a received c h = absurd h
  settle-hang_up a timed_out c h = absurd h
  settle-hang_up a tick c h = absurd h

  step_task-over :
      (i : ℕ) (e : Event) (c : Common E) (ps : List (Task E)) (a : Task E)
      → IsHangUp e
      → task_at i ps ≡ some a
      → a.running ≡ true
      → ((step_task E i e c ps).0.shared ≡ drop_all E a.client.receivers c.shared)
        × (task_at i (step_task E i e c ps).1 ≡ some (over a))
  unfolding ended
  step_task-over i e c ps a h found on =
      let (common, list) = step_task_running E i e c ps a found on in
      let end = settle-hang_up a e c h in
      (ap (λ x. x.shared) common ∙ ap (λ x. x.0.shared) end, list ∙ ap (λ x. some x.1) end)

module _ (E : Env) (V : View E.bus) (L : IsBroadcast E.bus V) where
  -- The tasks of the server are in a state that keeps the invariant, and the stream of one of them
  -- is at its end or cannot be read. After its turn the topics are the same, so its will has not
  -- been published; no receiver of its client is live; and each reader of a topic that is not one
  -- of its receivers still reads the topic, with the same to read and the same number missed.
  pub step_task-hung_up :
      (i : ℕ) (e : Event) (c : Common E) (ps : List (Task E)) (a : Task E)
      → IsHangUp e
      → IsSystem E V c ps
      → task_at i ps ≡ some a
      → a.running ≡ true
      → let c' = (step_task E i e c ps).0 in
        (c'.shared.topics ≡ c.shared.topics)
        × ((f : String) (r : E.Receiver)
            → get f a.client.receivers ≡ some r
            → V.live r c'.shared.hub ≡ false)
        × ((r : E.Receiver) (t : String)
            → Reads E V r t c.shared
            → Away E r a
            → Reads E V r t c'.shared × SameQueue E V r c.shared c'.shared)
  step_task-hung_up i e c ps a h s found on =
      let step = (step_task-over E i e c ps a h found on).0 in
      let w = All-at E (λ q. IsWorld E V (enter E c q)) i ps a s.worlds found in
      let kept =
        (drop_all-Keeps E V L a.client.receivers c.shared w.sorted w.valid w.subscribed).1 in
      rw step (
        drop_all-topics E a.client.receivers c.shared,
        λ f r entry. drop_all-dead E V L a.client.receivers c.shared f r entry,
        λ r t d away. let (d', same) = kept r t away d in (d', (same.1, same.2)),
      )

module _ (E : Env) (N : Net E) where
  -- The task with the number is over.
  abbrev pub IsOver : ℕ → Task E → System E → Type 0
  IsOver i a s = task_at i s.tasks ≡ some (over E a)

  spawned-IsOver :
      (i : ℕ) (a : Task E) (addr : String) (client : Client E) (x : String ⊎ E.Stream)
      (s : System E)
      → IsOver i a s
      → IsOver i a (spawned E N addr client x s)
  unfolding spawned
  spawned-IsOver i a addr client (inl e) s h = h
  spawned-IsOver i a addr client (inr stream) s h = task_at-append i s.tasks _ (over E a) h

  handle_new_connection-IsOver :
      (i : ℕ) (a : Task E) (raw : N.Raw) (addr id : String) (s : System E)
      → IsOver i a s
      → IsOver i a (handle_new_connection E N raw addr id s)
  unfolding handle_new_connection
  handle_new_connection-IsOver i a raw addr id s h = spawned-IsOver i a addr _ _ s h

  -- A task that is over does nothing when it has a turn.
  step_task-idle :
      (i j : ℕ) (e : Event) (c : Common E) (ps : List (Task E)) (a : Task E)
      → task_at i ps ≡ some (over E a)
      → task_at i (step_task E j e c ps).1 ≡ some (over E a)
  unfolding step_task run_task
  step_task-idle i j e c [] a h = h
  step_task-idle zero zero e c (p ∷ ps) a h =
      let same : p ≡ over E a = cc in ap (λ q. some (run_task E e c q).1) same
  step_task-idle zero (suc j) e c (p ∷ ps) a h = h
  step_task-idle (suc i) zero e c (p ∷ ps) a h = h
  step_task-idle (suc i) (suc j) e c (p ∷ ps) a h = step_task-idle i j e c ps a h

  serve_once-IsOver :
      (i : ℕ) (a : Task E) (e : ServerEvent N.Raw) (s : System E)
      → IsOver i a s
      → IsOver i a (serve_once E N e s)
  unfolding serve_once
  serve_once-IsOver i a (accepted l x id) s h = elim (accepted_cases E N l x id s) [
    | inl e ↦ subst (IsOver i a) (sym e) h
    | inr (raw, addr, e) ↦
        subst (IsOver i a) (sym e) (handle_new_connection-IsOver i a raw addr id s h)
  ]
  serve_once-IsOver i a (task j e) s h = step_task-idle i j e s.common s.tasks a h

  serve-IsOver :
      (i : ℕ) (a : Task E) (es : List (ServerEvent N.Raw)) (s : System E)
      → IsOver i a s
      → IsOver i a (serve E N es s)
  unfolding serve
  serve-IsOver i a [] s h = h
  serve-IsOver i a (e ∷ es) s h =
      serve-IsOver i a es (serve_once E N e s) (serve_once-IsOver i a e s h)

  -- The stream of a running task of the server is at its end or cannot be read. When the task has
  -- had its turn, it is over: whatever the server does afterwards, also when the task is given a
  -- turn again, it does not run, its client has no receiver, and nothing more is written to its
  -- stream.
  pub serve-hung_up :
      (i : ℕ) (e : Event) (es : List (ServerEvent N.Raw)) (s : System E) (a : Task E)
      → IsHangUp e
      → task_at i s.tasks ≡ some a
      → a.running ≡ true
      → task_at i (serve E N (task i e ∷ es) s).tasks ≡ some (over E a)
  unfolding serve serve_once
  serve-hung_up i e es s a h found on =
      serve-IsOver i a es (serve_once E N (task i e) s)
        (step_task-over E i e s.common s.tasks a h found on).1
