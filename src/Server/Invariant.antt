-- ===== src/Server/Invariant.antt =====
-- The invariant of all connections together (src/main.rs).
use mcloudtt.Prelude.{
  ℕ, zero, suc, String, some, ◌≡◌, ◌≢◌, ap, List, [], ◌∷◌, ◌++◌, All, All-append, arith,
}
use mcloudtt.BTreeMap.{get}
use mcloudtt.Broadcast.{View, IsBroadcast}
use mcloudtt.Env.{Env}
use mcloudtt.Topics.Invariant.{IsValid}
use mcloudtt.Topics.Delivery.{Reads}
use mcloudtt.Client.Connection.{Event}
use mcloudtt.Client.Invariant.{IsWorld}
use mcloudtt.Server.{Common, Task, enter, run_task, step_task}
use mcloudtt.Server.Step.{Away, of_task, Undisturbed, Undisturbed-nil, Stepped, run_task-Stepped}

module _ (E : Env) where
  -- Two tasks have no receiver in common.
  abbrev pub Apart : Task E → Task E → Type 0
  Apart p q = (f : String) (r : E.Receiver) → get f p.client.receivers ≡ some r → Away E r q

  abbrev pub Pairwise : List (Task E) → Type 0
  Pairwise [] = Unit
  Pairwise (p ∷ ps) = All (Apart p) ps × Pairwise ps

module _ (E : Env) (V : View E.bus) where
  abbrev pub AllWorlds : Common E → List (Task E) → Type 0
  AllWorlds c ps = All (λ p. IsWorld E V (enter E c p)) ps

  pub record IsSystem (c : Common E) (ps : List (Task E)) : Type 0 where
    pub valid : IsValid E V c.shared
    pub worlds : AllWorlds c ps
    pub apart : Pairwise E ps

module _ (E : Env) where
  -- What a turn of the task with the number publishes.
  unfoldable pub of_step : ℕ → Event → Common E → List (Task E) → List E.PublishPacket
  of_step i e c [] = []
  of_step zero e c (p ∷ ps) = of_task E e c p
  of_step (suc i) e c (p ∷ ps) = of_step i e c ps

module _ (E : Env) (V : View E.bus) (L : IsBroadcast E.bus V) where
  -- All tasks after one of them has gone on.
  pub record Advanced (qs : List E.PublishPacket) (c : Common E) (ps : List (Task E))
      (c' : Common E) (ps' : List (Task E)) : Type 0 where
    pub system : IsSystem E V c' ps'
    pub guests :
        (r : E.Receiver) (t : String)
        → Reads E V r t c.shared
        → All (Away E r) ps
        → Undisturbed E V qs c.shared c'.shared r t × All (Away E r) ps'

  -- The other tasks keep their readers.
  others-AllWorlds :
      (ms : List E.PublishPacket) (c c' : Common E) (p p' : Task E) (qs : List (Task E))
      → Stepped E V ms c p c' p'
      → AllWorlds E V c qs
      → All (Apart E p) qs
      → AllWorlds E V c' qs × All (Apart E p') qs
  others-AllWorlds ms c c' p p' [] st h a = (tt, tt)
  others-AllWorlds ms c c' p p' (q ∷ qs) st h a =
      let (worlds, apart) = others-AllWorlds ms c c' p p' qs st h.1 a.1 in
      let guest : (f : String) (r : E.Receiver)
          → get f q.client.receivers ≡ some r
          → Undisturbed E V ms c.shared c'.shared r f × Away E r p' =
        λ f r e. st.guests r f (h.0.subscribed f r e) (λ g e'. a.0 g r e' f e) in
      (
        (
          record {
            valid = st.world.valid;
            sorted = h.0.sorted;
            subscribed = λ f r e. (guest f r e).0.0;
          },
          worlds,
        ),
        (λ f r e g e'. (guest g r e').1 f e, apart),
      )

  AllAway-Apart :
      (p : Task E) (ps : List (Task E))
      → ((f : String) (r : E.Receiver) → get f p.client.receivers ≡ some r → All (Away E r) ps)
      → All (Apart E p) ps
  AllAway-Apart p [] h = tt
  AllAway-Apart p (q ∷ ps) h = (λ f r e. (h f r e).0, AllAway-Apart p ps (λ f r e. (h f r e).1))

  Apart-AllAway :
      (p : Task E) (ps : List (Task E)) (f : String) (r : E.Receiver)
      → All (Apart E p) ps
      → get f p.client.receivers ≡ some r
      → All (Away E r) ps
  Apart-AllAway p [] f r a e = tt
  Apart-AllAway p (q ∷ ps) f r a e = (a.0 f r e, Apart-AllAway p ps f r a.1 e)

  pub step_task-Advanced :
      (i : ℕ) (e : Event) (c : Common E) (ps : List (Task E))
      → IsSystem E V c ps
      → Advanced (of_step E i e c ps) c ps (step_task E i e c ps).0 (step_task E i e c ps).1
  unfolding step_task of_step
  step_task-Advanced i e c [] s = record {
    system = s;
    guests = λ r t d a. (Undisturbed-nil E V c.shared r t d, tt);
  }
  step_task-Advanced zero e c (p ∷ ps) s =
      let (c', p') = run_task E e c p in
      let st = run_task-Stepped E V L e c p s.worlds.0 in
      let (worlds, apart) =
        others-AllWorlds (of_task E e c p) c c' p p' ps st s.worlds.1 s.apart.0 in
      record {
        system = record {
          valid = st.world.valid;
          worlds = (st.world, worlds);
          apart = (apart, s.apart.1);
        };
        guests = λ r t d a. let (u, away) = st.guests r t d a.0 in (u, (away, a.1));
      }
  step_task-Advanced (suc i) e c (p ∷ ps) s =
      let (c', ps') = step_task E i e c ps in
      let rest =
        step_task-Advanced i e c ps
          (record { valid = s.valid; worlds = s.worlds.1; apart = s.apart.1 }) in
      let guest : (f : String) (r : E.Receiver)
          → get f p.client.receivers ≡ some r
          → Undisturbed E V (of_step E i e c ps) c.shared c'.shared r f × All (Away E r) ps' =
        λ f r e'.
          rest.guests r f (s.worlds.0.subscribed f r e') (Apart-AllAway p ps f r s.apart.0 e') in
      record {
        system = record {
          valid = rest.system.valid;
          worlds = (
            record {
              valid = rest.system.valid;
              sorted = s.worlds.0.sorted;
              subscribed = λ f r e'. (guest f r e').0.0;
            },
            rest.system.worlds,
          );
          apart = (AllAway-Apart p ps' (λ f r e'. (guest f r e').1), rest.system.apart);
        };
        guests = λ r t d a. let (u, away) = rest.guests r t d a.1 in (u, (a.0, away));
      }

  -- A task that has just been made has no receivers.
  pub append-IsSystem :
      (c : Common E) (ps : List (Task E)) (q : Task E)
      → q.client.receivers ≡ []
      → IsSystem E V c ps
      → IsSystem E V c (ps ++ q ∷ [])
  unfolding get
  append-IsSystem c ps q new s = record {
    valid = s.valid;
    worlds =
        All-append (λ p. IsWorld E V (enter E c p)) ps (q ∷ []) s.worlds
          (
            record {
              valid = s.valid;
              sorted = rw new tt;
              subscribed = λ f r e. absurd (empty f r e);
            },
            tt,
          );
    apart = pairwise ps s.apart;
  }
    where
      empty : (f : String) (r : E.Receiver) → get f q.client.receivers ≢ some r
      empty f r e = ground (arith, ap (get f) new)

      apart_all :
          (p : Task E) (qs : List (Task E)) → All (Apart E p) qs → All (Apart E p) (qs ++ q ∷ [])
      apart_all p qs a = All-append (Apart E p) qs (q ∷ []) a ((λ f r e g. empty g r), tt)

      pairwise : (qs : List (Task E)) → Pairwise E qs → Pairwise E (qs ++ q ∷ [])
      pairwise [] a = (tt, tt)
      pairwise (p ∷ qs) a = (apart_all p qs a.0, pairwise qs a.1)
