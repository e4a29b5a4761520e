-- ===== src/Server/Serving.antt =====
-- Whole runs of the server (src/main.rs).
use mcloudtt.Prelude.{
  String, ◌≡◌, refl, sym, true, false, List, [], ◌∷◌, ◌⊎◌, inl, inr, if◌then◌else◌,
}
use mathlib.Core.Path.{subst}
use mcloudtt.Broadcast.{View, IsBroadcast}
use mcloudtt.Env.{Env}
use mcloudtt.Client.State
use mcloudtt.Client.State.{Client}
use mcloudtt.Server.{
  Net, Listener, tcp, ws, ServerEvent, accepted, task, System, spawned, handle_new_connection,
  on_accept, on_accept_tcp, serve_once, serve,
}
use mcloudtt.Server.Invariant.{IsSystem, append-IsSystem, step_task-Advanced}

module _ (E : Env) (N : Net E) where
  -- An accept changes nothing, or hands a connection on.
  pub accepted_cases :
      (l : Listener) (x : String ⊎ (N.Raw × String)) (id : String) (s : System E)
      → (serve_once E N (accepted l x id) s ≡ s)
        ⊎ ((raw : N.Raw) × (addr : String) × (serve_once E N (accepted l x id) s
              ≡ handle_new_connection E N raw addr id s))
  unfolding serve_once on_accept on_accept_tcp
  accepted_cases l x id s =
      elim E.settings.general.websocket
        as (λ b.
          let s' = if b then on_accept E N l x id s else on_accept_tcp E N l x id s in
          (s' ≡ s)
          ⊎ ((raw : N.Raw) × (addr : String) × (s' ≡ handle_new_connection E N raw addr id s))) [
            | true ↦ either l x
            | false ↦ only_tcp l x
          ]
    where
      either :
          (l : Listener) (x : String ⊎ (N.Raw × String))
          → (on_accept E N l x id s ≡ s)
            ⊎ ((raw : N.Raw) × (addr : String) × (on_accept E N l x id s
                  ≡ handle_new_connection E N raw addr id s))
      either tcp (inl e) = inl refl
      either tcp (inr (raw, addr)) = inr (raw, addr, refl)
      either ws (inl e) = inl refl
      either ws (inr (raw, addr)) = inr (raw, addr, refl)

      only_tcp :
          (l : Listener) (x : String ⊎ (N.Raw × String))
          → (on_accept_tcp E N l x id s ≡ s)
            ⊎ ((raw : N.Raw) × (addr : String) × (on_accept_tcp E N l x id s
                  ≡ handle_new_connection E N raw addr id s))
      only_tcp tcp (inl e) = inl refl
      only_tcp tcp (inr (raw, addr)) = inr (raw, addr, refl)
      only_tcp ws x = inl refl

module _ (E : Env) (N : Net E) (V : View E.bus) (L : IsBroadcast E.bus V) where
  abbrev pub Valid : System E → Type 0
  Valid s = IsSystem E V s.common s.tasks

  spawned-Valid :
      (addr id : String) (x : String ⊎ E.Stream) (s : System E)
      → Valid s
      → Valid (spawned E N addr (State.new E id) x s)
  unfolding spawned State.new
  spawned-Valid addr id (inl e) s v = v
  spawned-Valid addr id (inr stream) s v = append-IsSystem E V L s.common s.tasks _ refl v

  handle_new_connection-Valid :
      (raw : N.Raw) (addr id : String) (s : System E)
      → Valid s
      → Valid (handle_new_connection E N raw addr id s)
  unfolding handle_new_connection
  handle_new_connection-Valid raw addr id s v = spawned-Valid addr id _ s v

  pub serve_once-Valid :
      (e : ServerEvent N.Raw) (s : System E) → Valid s → Valid (serve_once E N e s)
  unfolding serve_once
  serve_once-Valid (accepted l x id) s v = elim (accepted_cases E N l x id s) [
    | inl e ↦ subst Valid (sym e) v
    | inr (raw, addr, e) ↦ subst Valid (sym e) (handle_new_connection-Valid raw addr id s v)
  ]
  serve_once-Valid (task i e) s v = (step_task-Advanced E V L i e s.common s.tasks v).system

  -- Whole runs keep the invariant of all tasks.
  pub serve-IsSystem :
      (es : List (ServerEvent N.Raw)) (s : System E)
      → IsSystem E V s.common s.tasks
      → IsSystem E V (serve E N es s).common (serve E N es s).tasks
  unfolding serve
  serve-IsSystem [] s v = v
  serve-IsSystem (e ∷ es) s v = serve-IsSystem es (serve_once E N e s) (serve_once-Valid e s v)
