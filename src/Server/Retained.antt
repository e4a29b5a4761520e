-- ===== src/Server/Retained.antt =====
-- The retained messages while the tasks take turns (src/main.rs).
use mcloudtt.Prelude.{
  ℕ, zero, suc, String, ◌≡◌, refl, sym, ap, ◌∙◌, true, false, List, [], ◌∷◌, ◌⊎◌, inl, inr,
  if◌then◌else◌,
}
use mcloudtt.Error.{Result, ok, err, panic}
use mcloudtt.Env.{Env}
use mcloudtt.Topics.{Shared, get_retained_message}
use mcloudtt.Topics.Retained.{last_retained, last_retained-append, get_retained_message-topics}
use mcloudtt.Client.State
use mcloudtt.Client.State.{World, Client}
use mcloudtt.Client.Connection.{Event, iterate}
use mcloudtt.Client.Ended.{drop_all-topics}
use mcloudtt.Client.Publications.{of_turn}
use mcloudtt.Client.Kept.Loop.{iterate-Tracked}
use mcloudtt.Client.Retains.{RetainsLast, RetainsLast-IsTracked}
use mcloudtt.Server.{
  Net, ServerEvent, accepted, task, Common, Task, System, enter, ended, settle, run_task, step_task,
  spawned, handle_new_connection, serve_once, serve,
}
use mcloudtt.Server.Step.{of_task}
use mcloudtt.Server.Serving.{accepted_cases}
use mcloudtt.Server.Invariant.{of_step}
use mcloudtt.Server.Isolation.{of_server, published}

module _ (E : Env) where
  -- The state has the retained message that is due after the packets.
  abbrev Due : String → List E.PublishPacket → Shared E → Shared E → Type 0
  Due t ps s s' = get_retained_message E t s' ≡ last_retained E t (get_retained_message E t s) ps

  settle-retained :
      (t : String) (a : Task E) (x : Result (Unit {0}) × World E)
      → get_retained_message E t (settle E a x).0.shared ≡ get_retained_message E t x.1.shared
  unfolding settle ended
  settle-retained t a (ok u, w) = refl
  settle-retained t a (err e, w) =
      get_retained_message-topics E t w.shared _ (drop_all-topics E w.client.receivers w.shared)
  settle-retained t a (panic, w) =
      get_retained_message-topics E t w.shared _ (drop_all-topics E w.client.receivers w.shared)

  run_task-Due :
      (t : String) (e : Event) (c : Common E) (p : Task E)
      → Due t (of_task E e c p) c.shared (run_task E e c p).0.shared
  unfolding run_task of_task last_retained
  run_task-Due t e c p =
      let w = enter E c p in
      let step = settle E p (iterate E p.addr e w) in
      elim p.running
        as (λ b.
          Due t (if b then of_turn E e w else []) c.shared (if b then step else (c, p)).0.shared) [
            | true ↦
                settle-retained t p (iterate E p.addr e w)
                ∙ iterate-Tracked E (RetainsLast E t (get_retained_message E t c.shared))
                    (RetainsLast-IsTracked E t (get_retained_message E t c.shared)) p.addr e [] w
                    refl
            | false ↦ refl
          ]

  step_task-Due :
      (t : String) (i : ℕ) (e : Event) (c : Common E) (ps : List (Task E))
      → Due t (of_step E i e c ps) c.shared (step_task E i e c ps).0.shared
  unfolding step_task of_step last_retained
  step_task-Due t i e c [] = refl
  step_task-Due t zero e c (p ∷ ps) = run_task-Due t e c p
  step_task-Due t (suc i) e c (p ∷ ps) = step_task-Due t i e c ps

module _ (E : Env) (N : Net E) where
  spawned-common :
      (addr : String) (client : Client E) (x : String ⊎ E.Stream) (s : System E)
      → (spawned E N addr client x s).common ≡ s.common
  unfolding spawned
  spawned-common addr client (inl e) s = refl
  spawned-common addr client (inr stream) s = refl

  -- A new connection leaves what the tasks share.
  handle_new_connection-common :
      (raw : N.Raw) (addr id : String) (s : System E)
      → (handle_new_connection E N raw addr id s).common ≡ s.common
  unfolding handle_new_connection
  handle_new_connection-common raw addr id s = spawned-common addr (State.new E id) _ s

  serve_once-Due :
      (t : String) (e : ServerEvent N.Raw) (s : System E)
      → Due E t (of_server E N e s) s.common.shared (serve_once E N e s).common.shared
  unfolding serve_once of_server last_retained
  serve_once-Due t (accepted l x id) s = elim (accepted_cases E N l x id s) [
    | inl e ↦ ap (λ u. get_retained_message E t u.common.shared) e
    | inr (raw, addr, e) ↦
        ap (λ u. get_retained_message E t u.common.shared) e
        ∙ ap (λ c. get_retained_message E t c.shared) (handle_new_connection-common raw addr id s)
  ]
  serve_once-Due t (task i e) s = step_task-Due E t i e s.common s.tasks

  -- Whatever order the server's tasks take their turns in, whoever connects and whatever comes in:
  -- the retained message of a topic is afterwards the last packet on it, of those that the tasks
  -- have published, that asked to be retained, and the one from before if there was none. A running
  -- task publishes the PUBLISH that it reads, and its stored will when the timeout is over or a
  -- DISCONNECT asks for it, and nothing else; if the timers of the loop cannot be set up, it
  -- publishes nothing.
  pub serve-retained :
      (es : List (ServerEvent N.Raw)) (s : System E) (t : String)
      → get_retained_message E t (serve E N es s).common.shared
        ≡ last_retained E t (get_retained_message E t s.common.shared) (published E N es s)
  unfolding serve published last_retained
  serve-retained [] s t = refl
  serve-retained (e ∷ es) s t =
      let s₁ = serve_once E N e s in
      let old = get_retained_message E t s.common.shared in
      serve-retained es s₁ t
      ∙ ap (λ o. last_retained E t o (published E N es s₁)) (serve_once-Due t e s)
      ∙ sym (last_retained-append E t old (of_server E N e s) (published E N es s₁))
