-- ===== src/Server/Overflow.antt =====
-- The server whose timeout cannot be set up (src/tcp_handling.rs, src/main.rs): the sum on `u16` panics.
use mcloudtt.Prelude.{
  ℕ, zero, suc, ◌<◌, ◌≤◌, String, some, ◌≡◌, refl, ap, ◌∙◌, sym, Bool, true, false, ◌||◌, List, [],
  ◌∷◌, ◌⊎◌, inl, inr, if◌then◌else◌, arith,
}
use mathlib.Core.Path.{subst}
use mcloudtt.Error.{panic, continue}
use mcloudtt.Env.{Env}
use mcloudtt.Client.State.{World}
use mcloudtt.Client.Ended.{drop_all-topics}
use mcloudtt.Client.Connection.{Event, iterate, branch, sleep_secs, wrapped}
use mcloudtt.Server.{
  Net, Listener, ServerEvent, accepted, task, Common, Task, System, enter, ended, settle, run_task,
  step_task, serve_once, serve,
}
use mcloudtt.Server.Serving.{accepted_cases}
use mcloudtt.Server.Delivery.{task_at}
use mcloudtt.Server.Isolation.{handle_new_connection-Same}
use mcloudtt.Server.HungUp.{over}

-- Whether two numbers of tasks are the same.
pub same_task : ℕ → ℕ → Bool
same_task zero zero = true
same_task zero (suc j) = false
same_task (suc i) zero = false
same_task (suc i) (suc j) = same_task i j

-- A timeout to which 2 cannot be added on `u16`, in a build with overflow checks.
pub record IsTooLong (E : Env) : Type 0 where
  pub long : 65534 ≤ E.settings.general.timeout
  pub of_u16 : E.settings.general.timeout < 65536
  pub checks : E.features.overflow_checks ≡ true

module _ (E : Env) where
  -- The task once it has had a turn.
  pub stopped : Task E → Task E
  stopped a = if a.running then over E a else a

  -- The task after a run in which it has had a turn, or none.
  pub after : Bool → Task E → Task E
  after true a = stopped a
  after false a = a

  -- Topics, the queue to Redis and BigQuery are as they were.
  pub record IsUntouched (c c' : Common E) : Type 0 where
    pub topics : c'.shared.topics ≡ c.shared.topics
    pub queue : c'.queue ≡ c.queue
    pub bq : c'.bq ≡ c.bq

  stopped-stopped : (a : Task E) (b : Bool) → a.running ≡ b → stopped (stopped a) ≡ stopped a
  unfolding stopped
  stopped-stopped a true e = rw (e, stopped) refl
  stopped-stopped a false e = rw (e, stopped) refl

  after-after : (x y : Bool) (a : Task E) → after y (after x a) ≡ after (x || y) a
  unfolding after
  after-after true true a = stopped-stopped a _ refl
  after-after true false a = refl
  after-after false y a = refl

  sleep_secs-panic : IsTooLong E → sleep_secs E ≡ panic
  unfolding sleep_secs wrapped
  sleep_secs-panic h = ground (arith, h.long, h.of_u16, h.checks)

  iterate-panic :
      (addr : String) (e : Event) (w : World E) → IsTooLong E → iterate E addr e w ≡ (panic, w)
  unfolding iterate
  iterate-panic addr e w h = ap (λ r. continue r (λ _. branch E addr e) w) (sleep_secs-panic h)

  -- A turn of a task ends it, and nothing else happens.
  run_task-panic :
      (e : Event) (c : Common E) (p : Task E)
      → IsTooLong E
      → IsUntouched c (run_task E e c p).0 × ((run_task E e c p).1 ≡ stopped p)
  unfolding run_task settle ended stopped
  run_task-panic e c p h =
      elim p.running
        as (λ b.
          let x = if b then settle E p (iterate E p.addr e (enter E c p)) else (c, p) in
          IsUntouched c x.0 × (x.1 ≡ (if b then over E p else p))) [
            | true ↦ rw (iterate-panic p.addr e (enter E c p) h) (
              record {
                topics = drop_all-topics E p.client.receivers c.shared;
                queue = refl;
                bq = refl;
              },
              refl,
            )
            | false ↦ (record { topics = refl; queue = refl; bq = refl }, refl)
          ]

  step_task-panic :
      (i j : ℕ) (e : Event) (c : Common E) (ps : List (Task E))
      → IsTooLong E
      → IsUntouched c (step_task E i e c ps).0
        × ((a : Task E)
            → task_at j ps ≡ some a
            → task_at j (step_task E i e c ps).1 ≡ some (after (same_task i j) a))
  unfolding step_task same_task after
  step_task-panic i j e c [] h = (record { topics = refl; queue = refl; bq = refl }, λ a f. cc)
  step_task-panic zero zero e c (p ∷ ps) h =
      let (same, step) = run_task-panic e c p h in
      (same, λ a f. let found : p ≡ a = cc in ap some step ∙ ap (λ q. some (stopped q)) found)
  step_task-panic zero (suc j) e c (p ∷ ps) h = ((run_task-panic e c p h).0, λ a f. f)
  step_task-panic (suc i) zero e c (p ∷ ps) h = ((step_task-panic i zero e c ps h).0, λ a f. f)
  step_task-panic (suc i) (suc j) e c (p ∷ ps) h = step_task-panic i j e c ps h

module _ (E : Env) (N : Net E) where
  -- Whether the task has a turn.
  pub has_turn : ℕ → List (ServerEvent N.Raw) → Bool
  has_turn j [] = false
  has_turn j (accepted l x id ∷ es) = has_turn j es
  has_turn j (task i e ∷ es) = same_task i j || has_turn j es

  -- What the tasks share is as it was, and the task is what it is after its turn, if it has one.
  abbrev Panicked : Bool → ℕ → Task E → System E → System E → Type 0
  Panicked b j a s s' = IsUntouched E s.common s'.common × (task_at j s'.tasks ≡ some (after E b a))

  unmoved :
      (j : ℕ) (a : Task E) (s s' : System E)
      → s'.common ≡ s.common
      → task_at j s'.tasks ≡ some a
      → Panicked false j a s s'
  unfolding after
  unmoved j a s s' e f = (
    record {
      topics = ap (λ c. c.shared.topics) e;
      queue = ap (λ c. c.queue) e;
      bq = ap (λ c. c.bq) e;
    },
    f,
  )

  accepted-Panicked :
      (l : Listener) (x : String ⊎ (N.Raw × String)) (id : String) (s : System E) (j : ℕ)
      (a : Task E)
      → task_at j s.tasks ≡ some a
      → Panicked false j a s (serve_once E N (accepted l x id) s)
  accepted-Panicked l x id s j a f = elim (accepted_cases E N l x id s) [
    | inl e ↦ subst (Panicked false j a s) (sym e) (unmoved j a s s refl f)
    | inr (raw, addr, e) ↦
        let (found, same) = handle_new_connection-Same E N raw addr id s j a f in
        subst (Panicked false j a s) (sym e) (unmoved j a s _ same found)
  ]

  Panicked-trans :
      (x y : Bool) (j : ℕ) (a : Task E) (s s' s'' : System E)
      → Panicked x j a s s'
      → Panicked y j (after E x a) s' s''
      → Panicked (x || y) j a s s''
  Panicked-trans x y j a s s' s'' (c, f) (c', f') = (
    record { topics = c'.topics ∙ c.topics; queue = c'.queue ∙ c.queue; bq = c'.bq ∙ c.bq },
    f' ∙ ap some (after-after E x y a),
  )

  -- The timeout of the settings is 65534 or 65535, and the build has overflow checks. Whatever the
  -- server does: the topics with their retained messages, what is queued for Redis and what
  -- BigQuery has are as they were, and a running task that has had a turn is over, with its
  -- receivers dropped and nothing written to its stream; a task that has had none is as it was.
  pub serve_overflow :
      (es : List (ServerEvent N.Raw)) (s : System E) (j : ℕ) (a : Task E)
      → IsTooLong E
      → task_at j s.tasks ≡ some a
      → IsUntouched E s.common (serve E N es s).common
        × (task_at j (serve E N es s).tasks ≡ some (after E (has_turn j es) a))
  unfolding serve serve_once has_turn
  serve_overflow [] s j a h f = unmoved j a s s refl f
  serve_overflow (accepted l x id ∷ es) s j a h f =
      let s' = serve_once E N (accepted l x id) s in
      let first = accepted-Panicked l x id s j a f in
      Panicked-trans false (has_turn j es) j a s s' (serve E N es s') first
        (serve_overflow es s' j _ h first.1)
  serve_overflow (task i e ∷ es) s j a h f =
      let s' = serve_once E N (task i e) s in
      let turn = step_task-panic E i j e s.common s.tasks h in
      let first : Panicked (same_task i j) j a s s' = (turn.0, turn.1 a f) in
      Panicked-trans (same_task i j) (has_turn j es) j a s s' (serve E N es s') first
        (serve_overflow es s' j _ h first.1)
