-- ===== src/Server/Turns.antt =====
-- Subscribers of a topic that take their turns one after another (src/main.rs).
use mcloudtt.Prelude.{ℕ, ◌<◌, String, some, ◌≡◌, ◌≢◌, sym, ap, ◌∙◌, true, List, [], ◌∷◌, All, map}
use mcloudtt.BTreeMap.{get}
use mcloudtt.Broadcast.{View, IsBroadcast}
use mcloudtt.Env.{Env, Message, IsStream, IsConnected}
use mcloudtt.Topics.Delivery.{Reads}
use mcloudtt.Client.Connection.{received}
use mcloudtt.Client.Connection.Forward.{get_single}
use mcloudtt.Client.Invariant.{IsWorld}
use mcloudtt.Server.{Net, ServerEvent, task, Task, System, enter, serve_once, serve}
use mcloudtt.Server.Invariant.{IsSystem}
use mcloudtt.Server.Serving.{serve_once-Valid}
use mcloudtt.Server.Delivery.{task_at, task_at-step_task, All-at, apart_at}
use mcloudtt.Server.Arrival.{IsForwarded, step_task-forwards}

module _ (E : Env) where
  -- A task that subscribes to one topic: its number, what it is, and its receiver.
  pub record Subscriber : Type 0 where
    pub number : ℕ
    pub known : Task E
    pub reader : E.Receiver

module _ (E : Env) where
  -- The tasks have different numbers.
  abbrev pub Different : List (Subscriber E) → Type 0
  Different [] = Unit
  Different (x ∷ xs) = All (λ y. x.number ≢ y.number) xs × Different xs

  abbrev pub turn : {Raw : Type 0} → Subscriber E → ServerEvent Raw
  turn x = task x.number received

module _ (E : Env) (V : View E.bus) where
  -- The task runs, is subscribed to the topic, and has these packets to read and nothing missed.
  pub record Holds (s : System E) (t : String) (ms : List (Message E.PublishPacket))
      (x : Subscriber E) : Type 0 where
    pub found : task_at x.number s.tasks ≡ some x.known
    pub running : x.known.running ≡ true
    pub one : x.known.client.receivers ≡ (t, x.reader) ∷ []
    pub unread : V.unread x.reader s.common.shared.hub ≡ ms
    pub none_missed : V.missed x.reader s.common.shared.hub ≡ 0

  -- The task still runs, its stream has got the packet, and it has nothing to read.
  pub HasGot :
      (sent : E.Stream → List ℕ) (p : E.PublishPacket) (t : String) (s : System E)
      (x : Subscriber E)
      → Type 0
  HasGot sent p t s x =
      (b : Task E) × (task_at x.number s.tasks ≡ some b)
      × IsForwarded E V sent p t x.reader x.known s.common b

module _ (E : Env) (V : View E.bus) (L : IsBroadcast E.bus V) (C : IsConnected E.io)
    (sent : E.Stream → List ℕ) (S : IsStream E.io sent) (N : Net E) where
  Holds-entry :
      (s : System E) (t : String) (ms : List (Message E.PublishPacket)) (x : Subscriber E)
      → Holds E V s t ms x
      → get t x.known.client.receivers ≡ some x.reader
  Holds-entry s t ms x h = rw h.one (get_single E V L t x.reader)

  Holds-Reads :
      (s : System E) (t : String) (ms : List (Message E.PublishPacket)) (x : Subscriber E)
      → IsSystem E V s.common s.tasks
      → Holds E V s t ms x
      → Reads E V x.reader t s.common.shared
  Holds-Reads s t ms x v h =
      (All-at E (λ q. IsWorld E V (enter E s.common q)) x.number s.tasks x.known v.worlds
          h.found).subscribed
        t x.reader (Holds-entry s t ms x h)

  -- The turn of one subscriber changes nothing for another.
  turn-Holds :
      (p : E.PublishPacket) (s : System E) (t : String) (ms : List (Message E.PublishPacket))
      (x y : Subscriber E)
      → E.settings.general.timeout < 65534
      → IsSystem E V s.common s.tasks
      → Holds E V s t (Message.publish p ∷ []) x
      → Holds E V s t ms y
      → x.number ≢ y.number
      → Holds E V (serve_once E N (turn E x) s) t ms y
  unfolding serve_once
  turn-Holds p s t ms x y timeout v h k ne =
      let i =
        All-at E (λ q. IsWorld E V (enter E s.common q)) x.number s.tasks x.known v.worlds
          h.found in
      let (_, _, _, hub) =
        step_task-forwards E V L C sent S x.number p s.common s.tasks x.known t x.reader timeout i
          h.found h.running h.one h.unread h.none_missed in
      let mine = Holds-Reads s t (Message.publish p ∷ []) x v h in
      let other = Holds-Reads s t ms y v k in
      let apart : y.reader ≢ x.reader = λ same.
        apart_at E x.number y.number s.tasks x.known y.known t t y.reader v.apart ne h.found k.found
          (Holds-entry s t (Message.publish p ∷ []) x h ∙ ap some (sym same))
          (Holds-entry s t ms y k) in
      let (_, unread, missed) =
        L.recv_keeps x.reader s.common.shared.hub y.reader mine.live other.live apart in
      record {
        found = task_at-step_task E x.number y.number received s.common s.tasks ne ∙ k.found;
        running = k.running;
        one = k.one;
        unread = ap (V.unread y.reader) hub ∙ unread ∙ k.unread;
        none_missed = ap (V.missed y.reader) hub ∙ missed ∙ k.none_missed;
      }

  turn-AllHold :
      (p : E.PublishPacket) (s : System E) (t : String) (x : Subscriber E)
      (ys : List (Subscriber E))
      → E.settings.general.timeout < 65534
      → IsSystem E V s.common s.tasks
      → Holds E V s t (Message.publish p ∷ []) x
      → All (Holds E V s t (Message.publish p ∷ [])) ys
      → All (λ y. x.number ≢ y.number) ys
      → All (Holds E V (serve_once E N (turn E x) s) t (Message.publish p ∷ [])) ys
  turn-AllHold p s t x [] timeout v h ks ne = tt
  turn-AllHold p s t x (y ∷ ys) timeout v h ks ne = (
    turn-Holds p s t (Message.publish p ∷ []) x y timeout v h ks.0 ne.0,
    turn-AllHold p s t x ys timeout v h ks.1 ne.1,
  )

  -- Once they have had their turns, all have got the packet; others notice nothing.
  pub turns-HasGot :
      (p : E.PublishPacket) (t : String) (xs : List (Subscriber E)) (s : System E)
      → E.settings.general.timeout < 65534
      → IsSystem E V s.common s.tasks
      → All (Holds E V s t (Message.publish p ∷ [])) xs
      → Different E xs
      → let s' = serve E N (map (turn E) xs) s in
        All (HasGot E V sent p t s') xs
        × ((y : Subscriber E)
            → Holds E V s t [] y
            → All (λ x. x.number ≢ y.number) xs
            → Holds E V s' t [] y)
  unfolding serve serve_once HasGot
  turns-HasGot p t [] s timeout v hs d = (tt, λ y k ne. k)
  turns-HasGot p t (x ∷ xs) s timeout v hs d =
      let s₁ = serve_once E N (turn E x) s in
      let h = hs.0 in
      let i =
        All-at E (λ q. IsWorld E V (enter E s.common q)) x.number s.tasks x.known v.worlds
          h.found in
      let (b, found, forwarded, _) =
        step_task-forwards E V L C sent S x.number p s.common s.tasks x.known t x.reader timeout i
          h.found h.running h.one h.unread h.none_missed in
      let v₁ = serve_once-Valid E N V L (turn E x) s v in
      let (got, keeps) =
        turns-HasGot p t xs s₁ timeout v₁ (turn-AllHold p s t x xs timeout v h hs.1 d.0) d.1 in
      let now : Subscriber E = record x { known = b } in
      let held : Holds E V s₁ t [] now = record {
        found = found;
        running = forwarded.idle.running;
        one = forwarded.idle.one;
        unread = forwarded.idle.empty;
        none_missed = forwarded.idle.none_missed;
      } in
      let later = keeps now held (swap_all x xs d.0) in
      (
        (
          (
            b,
            later.found,
            record {
              idle = record {
                running = later.running;
                one = later.one;
                empty = later.unread;
                none_missed = later.none_missed;
              };
              bytes = forwarded.bytes;
            },
          ),
          got,
        ),
        λ y k ne. keeps y (turn-Holds p s t [] x y timeout v h k ne.0) ne.1,
      )
    where
      swap_all :
          (x : Subscriber E) (ys : List (Subscriber E))
          → All (λ y. x.number ≢ y.number) ys
          → All (λ y. y.number ≢ x.number) ys
      swap_all x [] d = tt
      swap_all x (y ∷ ys) d = (λ e. d.0 (sym e), swap_all x ys d.1)
