-- ===== src/Server/Delivery.antt =====
-- A packet from one connection to the readers of the others (src/main.rs, src/tcp_handling.rs).
use mcloudtt.Prelude.{
  ℕ, zero, suc, ◌<◌, String, Option, some, none, ◌≡◌, ◌≢◌, refl, ap, ◌∙◌, true, List, [], ◌∷◌, ◌++◌,
  inr, All,
}
use mathlib.Core.Path.{subst}
use mcloudtt.Error.{Result, ok, err, panic}
use mcloudtt.BTreeMap.{get}
use mcloudtt.Broadcast.{View, IsBroadcast}
use mcloudtt.Mqtt.{Packet}
use mcloudtt.Env.{Env}
use mcloudtt.Topics
use mcloudtt.Topics.{Shared}
use mcloudtt.Topics.Delivery.{Reads, publish-Reads}
use mcloudtt.Client.State.{World}
use mcloudtt.Client.Publish.{handle_publish_packet}
use mcloudtt.Client.Connection.{Event, read, buffer, iterate}
use mcloudtt.Client.Invariant.{IsWorld}
use mcloudtt.Client.Invariant.Loop.{iterate-IsWorld}
use mcloudtt.Topics.Queues.{SameQueue}
use mcloudtt.Client.Ended.{drop_all-Keeps}
use mcloudtt.Client.Connection.Published.{handle_publish_packet-Holds, iterate-read}
use mcloudtt.Server.{Common, Task, enter, ended, settle, run_task, step_task}
use mcloudtt.Server.Step.{Away}
use mcloudtt.Server.Invariant.{Apart, Pairwise, IsSystem}

-- The task with a number.
abbrev pub task_at : {A : Type 0} → ℕ → List A → Option A
task_at i [] = none
task_at zero (x ∷ xs) = some x
task_at (suc i) (x ∷ xs) = task_at i xs

-- Tasks that are added behind the others.
pub task_at-append :
    {A : Type 0} (i : ℕ) (xs ys : List A) (a : A)
    → task_at i xs ≡ some a
    → task_at i (xs ++ ys) ≡ some a
task_at-append i [] ys a e = cc
task_at-append zero (x ∷ xs) ys a e = e
task_at-append (suc i) (x ∷ xs) ys a e = task_at-append i xs ys a e

module _ (E : Env) where
  pub task_at-step_task :
      (i j : ℕ) (e : Event) (c : Common E) (ps : List (Task E))
      → i ≢ j
      → task_at j (step_task E i e c ps).1 ≡ task_at j ps
  unfolding step_task
  task_at-step_task i j e c [] ne = refl
  task_at-step_task zero zero e c (p ∷ ps) ne = absurd (ne refl)
  task_at-step_task zero (suc j) e c (p ∷ ps) ne = refl
  task_at-step_task (suc i) zero e c (p ∷ ps) ne = refl
  task_at-step_task (suc i) (suc j) e c (p ∷ ps) ne =
      task_at-step_task i j e c ps (λ same. ne (ap suc same))

  some-injective : (p a : Task E) → some p ≡ some a → p ≡ a
  some-injective p a e = cc

  run_task_running :
      (e : Event) (c : Common E) (p : Task E)
      → p.running ≡ true
      → run_task E e c p ≡ settle E p (iterate E p.addr e (enter E c p))
  unfolding run_task
  run_task_running e c p on = rw on refl

  -- The step of a task that goes on.
  pub step_task_running :
      (i : ℕ) (e : Event) (c : Common E) (ps : List (Task E)) (a : Task E)
      → task_at i ps ≡ some a
      → a.running ≡ true
      → let x = settle E a (iterate E a.addr e (enter E c a)) in
        ((step_task E i e c ps).0 ≡ x.0) × (task_at i (step_task E i e c ps).1 ≡ some x.1)
  unfolding step_task
  step_task_running i e c [] a found on = cc
  step_task_running zero e c (p ∷ ps) a found on =
      let step : Task E → Common E × Task E = λ q. settle E q (iterate E q.addr e (enter E c q)) in
      subst
        (λ q.
          q.running ≡ true
          → ((run_task E e c p).0 ≡ (step q).0) × (some (run_task E e c p).1 ≡ some (step q).1))
        (some-injective p a found)
        (λ on'. let run = run_task_running e c p on' in (ap (λ x. x.0) run, ap (λ x. some x.1) run))
        on
  step_task_running (suc i) e c (p ∷ ps) a found on = step_task_running i e c ps a found on

  pub All-at :
      (P : Task E → Type 0) (i : ℕ) (ps : List (Task E)) (a : Task E)
      → All P ps
      → task_at i ps ≡ some a
      → P a
  All-at P i [] a h e = cc
  All-at P zero (p ∷ ps) a h e = subst P (some-injective p a e) h.0
  All-at P (suc i) (p ∷ ps) a h e = All-at P i ps a h.1 e

  -- Two different tasks have no receiver in common.
  pub apart_at :
      (i j : ℕ) (ps : List (Task E)) (a b : Task E) (f g : String) (r : E.Receiver)
      → Pairwise E ps
      → i ≢ j
      → task_at i ps ≡ some a
      → task_at j ps ≡ some b
      → get f a.client.receivers ≡ some r
      → get g b.client.receivers ≢ some r
  apart_at i j [] a b f g r h ne e e' = cc
  apart_at zero zero (p ∷ ps) a b f g r h ne e e' = absurd (ne refl)
  apart_at zero (suc j) (p ∷ ps) a b f g r h ne e e' = λ x y.
      All-at (Apart E a) j ps b (subst (λ q. All (Apart E q) ps) (some-injective p a e) h.0) e' f r
        x g y
  apart_at (suc i) zero (p ∷ ps) a b f g r h ne e e' = λ x y.
      All-at (Apart E b) i ps a (subst (λ q. All (Apart E q) ps) (some-injective p b e') h.0) e g r
        y f x
  apart_at (suc i) (suc j) (p ∷ ps) a b f g r h ne e e' =
      apart_at i j ps a b f g r h.1 (λ same. ne (ap suc same)) e e'

module _ (E : Env) (V : View E.bus) (L : IsBroadcast E.bus V) where
  settle-SameQueue :
      (a : Task E) (x : Result (Unit {0}) × World E) (r : E.Receiver) (t : String)
      → IsWorld E V x.1
      → ((f : String) → get f x.1.client.receivers ≢ some r)
      → Reads E V r t x.1.shared
      → SameQueue E V r x.1.shared (settle E a x).0.shared
  unfolding settle ended
  settle-SameQueue a (ok u, w) r t i away d = (refl, refl)
  settle-SameQueue a (err e, w) r t i away d =
      let (d', k) =
        (drop_all-Keeps E V L w.client.receivers w.shared i.sorted i.valid i.subscribed).1 r t away
          d in
      (k.1, k.2)
  settle-SameQueue a (panic, w) r t i away d =
      let (d', k) =
        (drop_all-Keeps E V L w.client.receivers w.shared i.sorted i.valid i.subscribed).1 r t away
          d in
      (k.1, k.2)

  -- The tasks are in a state that keeps the invariant, and one of them reads a PUBLISH; the timeout
  -- is at most 65533 seconds. However the handling of the packet ends, and also when the connection
  -- ends with it, every reader that is not the task's own has to read, and has missed, what it
  -- would after the packet is published once.
  pub step_task-SameQueue :
      (i : ℕ) (bytes : List ℕ) (p : E.PublishPacket) (c : Common E) (ps : List (Task E))
      (a : Task E) (r : E.Receiver) (t : String)
      → E.settings.general.timeout < 65534
      → IsSystem E V c ps
      → task_at i ps ≡ some a
      → a.running ≡ true
      → E.decode_mqtt (buffer bytes) ≡ inr (some (Packet.publish p))
      → Reads E V r t c.shared
      → Away E r a
      → SameQueue E V r (Topics.publish E p c.shared).1 (step_task E i (read bytes) c ps).0.shared
  step_task-SameQueue i bytes p c ps a r t h s found on e d away =
      let w = enter E c a in
      let x = iterate E a.addr (read bytes) w in
      let (shared, receivers) = handle_publish_packet-Holds E p w in
      let end : x.1 ≡ (handle_publish_packet E p w).1 = iterate-read E a.addr bytes p w h e in
      let shared' : x.1.shared ≡ (Topics.publish E p c.shared).1 =
        ap (λ y. y.shared) end ∙ shared in
      let receivers' : x.1.client.receivers ≡ a.client.receivers =
        ap (λ y. y.client.receivers) end ∙ receivers in
      let i' = All-at E (λ q. IsWorld E V (enter E c q)) i ps a s.worlds found in
      let (queue, missed) =
        settle-SameQueue a x r t (iterate-IsWorld E V L a.addr (read bytes) w i')
          (λ f. rw receivers' (away f))
          (rw shared' (publish-Reads E V L p c.shared r t s.valid d)) in
      let step = ap (λ y. y.shared) (step_task_running E i (read bytes) c ps a found on).0 in
      rw (step, ← shared') (queue, missed)
