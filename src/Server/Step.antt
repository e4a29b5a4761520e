-- ===== src/Server/Step.antt =====
-- An iteration of one task, and the readers of the others (src/main.rs).
use mcloudtt.Prelude.{String, some, ◌≢◌, refl, true, false, List, [], if◌then◌else◌, ◌∙◌}
use mcloudtt.Error.{Result, ok, err, panic}
use mcloudtt.BTreeMap.{get}
use mcloudtt.Broadcast.{View, IsBroadcast}
use mcloudtt.Env.{Env}
use mcloudtt.Topics.{Shared}
use mcloudtt.Topics.Delivery.{Reads}
use mcloudtt.Topics.Retained.{publish_all}
use mcloudtt.Client.State.{World}
use mcloudtt.Client.Connection.{Event, iterate}
use mcloudtt.Client.Invariant.{IsWorld, client-IsWorld}
use mcloudtt.Client.Kept.Loop.{iterate-Tracked}
use mcloudtt.Client.Publications.{of_turn}
use mcloudtt.Topics.Queues.{SameQueue}
use mcloudtt.Client.Guests.{Guest, Hosts, Hosts-IsTracked}
use mcloudtt.Client.Invariant.Loop.{iterate-IsWorld}
use mcloudtt.Client.Ended.{drop_all-Keeps}
use mcloudtt.Server.{Common, Task, enter, ended, settle, run_task}

module _ (E : Env) where
  -- The task does not have the receiver.
  abbrev pub Away : E.Receiver → Task E → Type 0
  Away r p = (f : String) → get f p.client.receivers ≢ some r

  -- What a turn of a task publishes; a task that is over has no turn.
  unfoldable pub of_task : Event → Common E → Task E → List E.PublishPacket
  of_task e c p = if p.running then of_turn E e (enter E c p) else []

module _ (E : Env) (V : View E.bus) where
  -- What a reader that belongs to none of the tasks goes through while packets are published.
  abbrev pub Undisturbed : List E.PublishPacket → Shared E → Shared E → E.Receiver → String → Type 0
  Undisturbed ps s s' r t = Reads E V r t s' × SameQueue E V r (publish_all E ps s) s'

  -- One task has gone on, and has published the packets.
  pub record Stepped (ps : List E.PublishPacket) (c : Common E) (p : Task E) (c' : Common E)
      (p' : Task E) : Type 0 where
    pub world : IsWorld E V (enter E c' p')
    pub guests :
        (r : E.Receiver) (t : String)
        → Reads E V r t c.shared
        → Away E r p
        → Undisturbed ps c.shared c'.shared r t × Away E r p'

  -- Nothing has been published.
  pub Undisturbed-nil :
      (s : Shared E) (r : E.Receiver) (t : String) → Reads E V r t s → Undisturbed [] s s r t
  unfolding publish_all
  Undisturbed-nil s r t d = (d, (refl, refl))

module _ (E : Env) (V : View E.bus) (L : IsBroadcast E.bus V) where
  ended-Stepped :
      (ps : List E.PublishPacket) (c : Common E) (p : Task E) (w : World E)
      → IsWorld E V w
      → ((r : E.Receiver) (t : String)
          → Reads E V r t c.shared
          → Away E r p
          → Guest E V r t c.shared ps w)
      → Stepped E V ps c p (ended E p w).0 (ended E p w).1
  unfolding ended get
  ended-Stepped ps c p w i h =
      let (v, kept) =
        drop_all-Keeps E V L w.client.receivers w.shared i.sorted i.valid i.subscribed in
      record {
        world = record { valid = v; sorted = tt; subscribed = λ f r e. absurd (cc e) };
        guests = λ r t d a.
            let g = h r t d a in
            let (d', k) = kept r t g.apart g.reads in
            ((d', (k.1 ∙ g.history.0, k.2 ∙ g.history.1)), λ f e. cc e);
      }

  settle-Stepped :
      (ps : List E.PublishPacket) (c : Common E) (p : Task E) (x : Result (Unit {0}) × World E)
      → IsWorld E V x.1
      → ((r : E.Receiver) (t : String)
          → Reads E V r t c.shared
          → Away E r p
          → Guest E V r t c.shared ps x.1)
      → Stepped E V ps c p (settle E p x).0 (settle E p x).1
  unfolding settle
  settle-Stepped ps c p (ok a, w) i h = record {
    world = client-IsWorld E V w _ refl refl i;
    guests = λ r t d a'. let g = h r t d a' in ((g.reads, g.history), g.apart);
  }
  settle-Stepped ps c p (err e, w) i h = ended-Stepped ps c p w i h
  settle-Stepped ps c p (panic, w) i h = ended-Stepped ps c p w i h

  -- An iteration of one task, seen by the readers of the others.
  pub run_task-Stepped :
      (e : Event) (c : Common E) (p : Task E)
      → IsWorld E V (enter E c p)
      → Stepped E V (of_task E e c p) c p (run_task E e c p).0 (run_task E e c p).1
  unfolding run_task of_task publish_all
  run_task-Stepped e c p i =
      let w = enter E c p in
      let step = settle E p (iterate E p.addr e w) in
      elim p.running
        as (λ b.
          let x = if b then step else (c, p) in
          Stepped E V (if b then of_turn E e w else []) c p x.0 x.1) [
            | true ↦
                settle-Stepped (of_turn E e w) c p (iterate E p.addr e w)
                  (iterate-IsWorld E V L p.addr e w i)
                  (λ r t d a.
                    (iterate-Tracked E (Hosts E V r t c.shared)
                      (Hosts-IsTracked E V L r t c.shared i.valid d) p.addr e [] w
                      (i, record { reads = d; apart = a; history = (refl, refl) })).1)
            | false ↦ record {
              world = i;
              guests = λ r t d a. (Undisturbed-nil E V c.shared r t d, a);
            }
          ]
