-- ===== src/Server/Isolation.antt =====
-- What the readers of one connection can notice of the others (src/main.rs).
use mcloudtt.Prelude.{
  ℕ, zero, suc, String, some, ◌≡◌, ◌≢◌, refl, sym, ap, ◌∙◌, List, [], ◌∷◌, ◌++◌, ◌⊎◌, inl, inr, All,
}
use mathlib.Core.Path.{subst}
use mcloudtt.BTreeMap.{get}
use mcloudtt.Broadcast.{View, IsBroadcast}
use mcloudtt.Env.{Env}
use mcloudtt.Topics.{Shared}
use mcloudtt.Topics.Invariant.{IsValid}
use mcloudtt.Topics.Delivery.{Reads}
use mcloudtt.Topics.History.{messages_on, messages_on-append}
use mcloudtt.Topics.Interleaving.{
  arrivals, reader, publish_all-arrivals, arrivals-nil, arrivals-append,
}
use mcloudtt.Topics.Retained.{publish_all}
use mcloudtt.Client.State
use mcloudtt.Client.State.{World}
use mcloudtt.Client.Connection.{Event}
use mcloudtt.Topics.Queues.{SameQueue}
use mcloudtt.Client.Invariant.{IsWorld}
use mcloudtt.Server.{
  Net, ServerEvent, accepted, task, Common, Task, System, enter, step_task, spawned,
  handle_new_connection, serve_once, serve,
}
use mcloudtt.Server.Step.{Away, Undisturbed, Undisturbed-nil, run_task-Stepped}
use mcloudtt.Server.Invariant.{IsSystem, of_step}
use mcloudtt.Server.Serving.{serve_once-Valid, accepted_cases}
use mcloudtt.Server.Delivery.{task_at, task_at-append, task_at-step_task, apart_at, All-at}

module _ (E : Env) (V : View E.bus) (L : IsBroadcast E.bus V) where
  -- One task has gone on, and a reader belongs to another.
  step_task-Undisturbed :
      (i : ℕ) (e : Event) (c : Common E) (ps : List (Task E)) (r : E.Receiver) (t : String)
      → IsSystem E V c ps
      → Reads E V r t c.shared
      → ((a : Task E) → task_at i ps ≡ some a → Away E r a)
      → Undisturbed E V (of_step E i e c ps) c.shared (step_task E i e c ps).0.shared r t
  unfolding step_task of_step
  step_task-Undisturbed i e c [] r t s d away = Undisturbed-nil E V c.shared r t d
  step_task-Undisturbed zero e c (p ∷ ps) r t s d away =
      ((run_task-Stepped E V L e c p s.worlds.0).guests r t d (away p refl)).0
  step_task-Undisturbed (suc i) e c (p ∷ ps) r t s d away =
      step_task-Undisturbed i e c ps r t
        (record { valid = s.valid; worlds = s.worlds.1; apart = s.apart.1 }) d away

module _ (E : Env) (N : Net E) where
  -- The specification: what an event publishes, and what a run publishes, in order.
  unfoldable pub of_server : ServerEvent N.Raw → System E → List E.PublishPacket
  of_server (accepted l x id) s = []
  of_server (task i e) s = of_step E i e s.common s.tasks

  unfoldable pub published : List (ServerEvent N.Raw) → System E → List E.PublishPacket
  published [] s = []
  published (e ∷ es) s = of_server e s ++ published es (serve_once E N e s)

module _ (E : Env) (V : View E.bus) where
  -- The packets have come to a reader of the topic, and nothing else has happened to it.
  abbrev pub Arrived : E.Receiver → String → List E.PublishPacket → Shared E → Shared E → Type 0
  Arrived r t ps s s' =
      reader E V r s' ≡ arrivals (V.capacity (V.sender_of r)) (messages_on E t ps) (reader E V r s)

module _ (E : Env) (V : View E.bus) (L : IsBroadcast E.bus V) where
  SameQueue-Arrived :
      (qs : List E.PublishPacket) (s s' : Shared E) (r : E.Receiver) (t : String)
      → IsValid E V s
      → Reads E V r t s
      → SameQueue E V r (publish_all E qs s) s'
      → Arrived E V r t qs s s'
  SameQueue-Arrived qs s s' r t v d same =
      let both : reader E V r s' ≡ reader E V r (publish_all E qs s) = λ i. (same.0 i, same.1 i) in
      both ∙ publish_all-arrivals E V L qs s r t v d

  Arrived-nil : (r : E.Receiver) (t : String) (s : Shared E) → Arrived E V r t [] s s
  unfolding messages_on
  Arrived-nil r t s = sym (arrivals-nil _ (reader E V r s))

  Arrived-trans :
      (r : E.Receiver) (t : String) (ps qs : List E.PublishPacket) (s s' s'' : Shared E)
      → Arrived E V r t ps s s'
      → Arrived E V r t qs s' s''
      → Arrived E V r t (ps ++ qs) s s''
  Arrived-trans r t ps qs s s' s'' e e' =
      let cap = V.capacity (V.sender_of r) in
      e'
      ∙ ap (arrivals cap (messages_on E t qs)) e
      ∙ sym (arrivals-append cap (messages_on E t ps) (messages_on E t qs) (reader E V r s))
      ∙ ap (λ ms. arrivals cap ms (reader E V r s)) (sym (messages_on-append E t ps qs))

module _ (E : Env) (N : Net E) where
  -- The event is not an iteration of the task.
  abbrev pub Spares : ℕ → ServerEvent N.Raw → Type 0
  Spares j (accepted l x id) = Unit
  Spares j (task i e) = i ≢ j

  -- The task is where it was, and what the tasks share is as it was.
  abbrev pub Same : ℕ → Task E → System E → System E → Type 0
  Same j b s s' = (task_at j s'.tasks ≡ some b) × (s'.common ≡ s.common)

  spawned-Same :
      (addr id : String) (x : String ⊎ E.Stream) (s : System E) (j : ℕ) (b : Task E)
      → task_at j s.tasks ≡ some b
      → Same j b s (spawned E N addr (State.new E id) x s)
  unfolding spawned
  spawned-Same addr id (inl e) s j b h = (h, refl)
  spawned-Same addr id (inr stream) s j b h = (task_at-append j s.tasks _ b h, refl)

  pub handle_new_connection-Same :
      (raw : N.Raw) (addr id : String) (s : System E) (j : ℕ) (b : Task E)
      → task_at j s.tasks ≡ some b
      → Same j b s (handle_new_connection E N raw addr id s)
  unfolding handle_new_connection
  handle_new_connection-Same raw addr id s j b h = spawned-Same addr id _ s j b h

module _ (E : Env) (N : Net E) (V : View E.bus) (L : IsBroadcast E.bus V) where
  -- The task is where it was, and the packets have come to its reader.
  abbrev pub Spared :
      ℕ → Task E → E.Receiver → String → List E.PublishPacket → System E → System E → Type 0
  Spared j b r t ps s s' =
      (task_at j s'.tasks ≡ some b) × Arrived E V r t ps s.common.shared s'.common.shared

  Same-Spared :
      (j : ℕ) (b : Task E) (r : E.Receiver) (t : String) (s s' : System E)
      → Same E N j b s s'
      → Spared j b r t [] s s'
  Same-Spared j b r t s s' (h, e) =
      (h, ap (λ c. reader E V r c.shared) e ∙ Arrived-nil E V L r t s.common.shared)

  pub serve_once-Spared :
      (e : ServerEvent N.Raw) (s : System E) (j : ℕ) (b : Task E) (t : String) (r : E.Receiver)
      → IsSystem E V s.common s.tasks
      → task_at j s.tasks ≡ some b
      → get t b.client.receivers ≡ some r
      → Spares E N j e
      → Spared j b r t (of_server E N e s) s (serve_once E N e s)
  unfolding serve_once of_server
  serve_once-Spared (accepted l x id) s j b t r v h entry ne = elim (accepted_cases E N l x id s) [
    | inl e ↦ subst (Spared j b r t [] s) (sym e) (Same-Spared j b r t s s (h, refl))
    | inr (raw, addr, e) ↦
        subst (Spared j b r t [] s) (sym e)
          (Same-Spared j b r t s _ (handle_new_connection-Same E N raw addr id s j b h))
  ]
  serve_once-Spared (task i e) s j b t r v h entry ne =
      let d =
        (All-at E (λ q. IsWorld E V (enter E s.common q)) j s.tasks b v.worlds h).subscribed t r
          entry in
      let u =
        step_task-Undisturbed E V L i e s.common s.tasks r t v d
          (λ a x f y. apart_at E i j s.tasks a b f t r v.apart ne x h y entry) in
      (
        task_at-step_task E i j e s.common s.tasks ne ∙ h,
        SameQueue-Arrived E V L (of_step E i e s.common s.tasks) s.common.shared
            (step_task E i e s.common s.tasks).0.shared r t v.valid d u.1,
      )

  -- A run of the server in which a task has no turn, in a state that keeps the invariant: the task
  -- is as it was, and for each of its receivers, what it has to read, and how many messages it has
  -- missed, is what comes of the arrival, one after another at its channel, of exactly the packets
  -- on its topic that the other tasks publish in the run, in order. A running task publishes the
  -- PUBLISH that it reads, and its stored will when the timeout is over or a DISCONNECT asks for
  -- it, and nothing else; if the timers of the loop cannot be set up, it publishes nothing.
  pub serve-Arrived :
      (es : List (ServerEvent N.Raw)) (s : System E) (j : ℕ) (b : Task E) (t : String)
      (r : E.Receiver)
      → IsSystem E V s.common s.tasks
      → task_at j s.tasks ≡ some b
      → get t b.client.receivers ≡ some r
      → All (Spares E N j) es
      → let s' = serve E N es s in
        (task_at j s'.tasks ≡ some b)
        × Arrived E V r t (published E N es s) s.common.shared s'.common.shared
  unfolding serve published
  serve-Arrived [] s j b t r v h entry ne = Same-Spared j b r t s s (h, refl)
  serve-Arrived (e ∷ es) s j b t r v h entry ne =
      let s₁ = serve_once E N e s in
      let (h₁, a₁) = serve_once-Spared e s j b t r v h entry ne.0 in
      let (h₂, a₂) = serve-Arrived es s₁ j b t r (serve_once-Valid E N V L e s v) h₁ entry ne.1 in
      (
        h₂,
        Arrived-trans E V L r t (of_server E N e s) (published E N es s₁) s.common.shared
            s₁.common.shared (serve E N es s₁).common.shared a₁ a₂,
      )
