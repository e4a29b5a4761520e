-- ===== src/Server/Streams/Reading.antt =====
-- One step of the server, seen by a subscriber that only takes messages (src/main.rs).
use mcloudtt.Prelude.{
  ℕ, ◌+◌, ◌-◌, ◌≤◌, ◌<◌, String, some, ◌≡◌, ◌≢◌, refl, sym, ap, ◌∙◌, List, [], ◌∷◌, ◌++◌, ◌⊎◌, inl,
  inr, map, length, length-append, length-map, append_assoc, append-nil, drop, length-drop,
  last-all, arith,
}
use mathlib.Core.List.{map-append}
use mathlib.Core.Path.{subst}
use mcloudtt.Broadcast.{View, IsBroadcast}
use mcloudtt.Mqtt.{Packet}
use mcloudtt.Env.{Env, Message, IsStream, IsConnected}
use mcloudtt.Topics.History.{packets_on, messages_on, messages_on-map, packets_on-append}
use mcloudtt.Topics.Interleaving.{arrivals, arrivals-last}
use mcloudtt.Client.Connection.{received}
use mcloudtt.Client.Connection.Forward.{stream_of, get_single}
use mcloudtt.Client.Invariant.{IsWorld}
use mcloudtt.Server.{Net, ServerEvent, accepted, task, Task, System, enter, serve_once}
use mcloudtt.Server.Invariant.{IsSystem}
use mcloudtt.Server.Delivery.{task_at, All-at}
use mcloudtt.Server.Arrival.{IsWaiting, step_task-takes}
use mcloudtt.Server.Isolation.{Spares, of_server, serve_once-Spared}
use mcloudtt.Server.Streams.{of_step-received, stream_of-append, step_task-idle}

module _ (E : Env) (V : View E.bus) where
  -- The task with the number runs, is subscribed to just the topic, has missed nothing, and has
  -- these packets to read.
  pub record IsReading (s : System E) (j : ℕ) (t : String) (r : E.Receiver)
      (qs : List E.PublishPacket) (b : Task E) : Type 0 where
    pub found : task_at j s.tasks ≡ some b
    pub waits : IsWaiting E V s.common t r (map Message.publish qs) b

module _ (E : Env) where
  -- What the stream has got, and then what is left to read, is what it had got, and then what was to
  -- read, and then the packets of the topic.
  abbrev pub Conserved :
      (E.Stream → List ℕ)
      → String
      → Task E
      → List E.PublishPacket
      → Task E
      → List E.PublishPacket
      → List E.PublishPacket
      → Type 0
  Conserved sent t b qs b' qs' ps =
      sent b'.stream ++ stream_of E qs' ≡ sent b.stream ++ stream_of E (qs ++ packets_on E t ps)

  pub Conserved-trans :
      (sent : E.Stream → List ℕ) (t : String) (b b₁ b' : Task E)
      (qs qs₁ qs' ps ps' : List E.PublishPacket)
      → Conserved sent t b qs b₁ qs₁ ps
      → Conserved sent t b₁ qs₁ b' qs' ps'
      → Conserved sent t b qs b' qs' (ps ++ ps')
  Conserved-trans sent t b b₁ b' qs qs₁ qs' ps ps' e e' =
      let more = stream_of E (packets_on E t ps') in
      let here = sent b.stream in
      e'
      ∙ ap (◌++◌ (sent b₁.stream)) (stream_of-append E qs₁ (packets_on E t ps'))
      ∙ sym (append_assoc (sent b₁.stream) (stream_of E qs₁) more)
      ∙ ap (λ x. x ++ more) e
      ∙ append_assoc here (stream_of E (qs ++ packets_on E t ps)) more
      ∙ ap (◌++◌ here) (
          sym (stream_of-append E (qs ++ packets_on E t ps) (packets_on E t ps'))
          ∙ ap (stream_of E) (
              append_assoc qs (packets_on E t ps) (packets_on E t ps')
              ∙ ap (◌++◌ qs) (sym (packets_on-append E t ps ps'))))

  -- The task's own turns only take messages.
  abbrev pub IsPatient : {Raw : Type 0} → ℕ → ServerEvent Raw → Type 0
  IsPatient j (accepted l x id) = Unit
  IsPatient j (task i e) = (i ≢ j) ⊎ ((i ≡ j) × (e ≡ received))

module _ (E : Env) (V : View E.bus) (L : IsBroadcast E.bus V) (C : IsConnected E.io)
    (sent : E.Stream → List ℕ) (S : IsStream E.io sent) (N : Net E) where
  -- The task goes on reading, and no packet of the topic is lost or sent twice.
  abbrev pub GoesOn :
      System E
      → ℕ
      → String
      → E.Receiver
      → List E.PublishPacket
      → Task E
      → List E.PublishPacket
      → Type 0
  GoesOn s j t r qs b ps =
      (b' : Task E) × (qs' : List E.PublishPacket) × IsReading E V s j t r qs' b'
      × Conserved E sent t b qs b' qs' ps
      × (length qs' ≤ length qs + length (packets_on E t ps))

  -- The channel has room for what comes.
  Arrived-unread :
      (s : System E) (j : ℕ) (t : String) (r : E.Receiver) (qs ps : List E.PublishPacket)
      (b : Task E)
      → IsSystem E V s.common s.tasks
      → IsReading E V s j t r qs b
      → length qs + length (packets_on E t ps) ≤ 1024
      → arrivals
          (V.capacity (V.sender_of r))
          (messages_on E t ps)
          (V.unread r s.common.shared.hub, V.missed r s.common.shared.hub)
        ≡ (map Message.publish (qs ++ packets_on E t ps), 0)
  Arrived-unread s j t r qs ps b v reading room =
      let cap = V.capacity (V.sender_of r) in
      let queue : List (Message E.PublishPacket) = map Message.publish qs in
      let ms = messages_on E t ps in
      let d =
        (All-at E (λ q. IsWorld E V (enter E s.common q)) j s.tasks b v.worlds
            reading.found).subscribed
          t r (rw reading.waits.one (get_single E V L t r)) in
      let big : 1024 ≤ cap = rw d.attached (v.valid.roomy t d.channel d.found) in
      let size : length queue ≡ length qs = length-map qs Message.publish in
      let same = messages_on-map E t ps in
      let size' : length ms ≡ length (packets_on E t ps) =
        ap length same ∙ length-map (packets_on E t ps) Message.publish in
      let fits : length (queue ++ ms) ≤ cap = omega (arith, length-append queue ms) in
      let all = last-all cap (queue ++ ms) fits in
      let none_lost : 0 + (length queue + length ms - cap) ≡ 0 =
        omega (arith, length-append queue ms) in
      let both : queue ++ ms ≡ map Message.publish (qs ++ packets_on E t ps) =
        ap (◌++◌ queue) same ∙ sym (map-append Message.publish qs (packets_on E t ps)) in
      ap (arrivals cap ms) (λ i. (reading.waits.unread i, reading.waits.none_missed i))
      ∙ arrivals-last cap ms queue 0 (omega arith)
      ∙ (λ i. ((all ∙ both) i, none_lost i))

  -- Another task has its turn, or somebody connects.
  spared-GoesOn :
      (e : ServerEvent N.Raw) (s : System E) (j : ℕ) (t : String) (r : E.Receiver)
      (qs : List E.PublishPacket) (b : Task E)
      → IsSystem E V s.common s.tasks
      → IsReading E V s j t r qs b
      → Spares E N j e
      → length qs + length (packets_on E t (of_server E N e s)) ≤ 1024
      → GoesOn (serve_once E N e s) j t r qs b (of_server E N e s)
  spared-GoesOn e s j t r qs b v reading ne room =
      let ps = of_server E N e s in
      let (found, came) =
        serve_once-Spared E N V L e s j b t r v reading.found
          (rw reading.waits.one (get_single E V L t r)) ne in
      let queue = came ∙ Arrived-unread s j t r qs ps b v reading room in
      (
        b,
        qs ++ packets_on E t ps,
        record {
          found = found;
          waits = record {
            running = reading.waits.running;
            one = reading.waits.one;
            unread = ap (λ x. x.0) queue;
            none_missed = ap (λ x. x.1) queue;
          };
        },
        refl,
        omega (arith, length-append qs (packets_on E t ps)),
      )

  -- The task has its turn, and takes a message if there is one.
  pub received-GoesOn :
      (s : System E) (j : ℕ) (t : String) (r : E.Receiver) (qs : List E.PublishPacket) (b : Task E)
      → E.settings.general.timeout < 65534
      → IsSystem E V s.common s.tasks
      → IsReading E V s j t r qs b
      → (b' : Task E) × IsReading E V (serve_once E N (task j received) s) j t r (drop 1 qs) b'
        × (sent b'.stream ++ stream_of E (drop 1 qs) ≡ sent b.stream ++ stream_of E qs)
  unfolding serve_once stream_of
  received-GoesOn s j t r [] b h v reading =
      let i = All-at E (λ q. IsWorld E V (enter E s.common q)) j s.tasks b v.worlds reading.found in
      let (same, found) =
        step_task-idle E V L j s.common s.tasks b t r h i reading.found reading.waits in
      (
        b,
        record {
          found = found;
          waits = subst (λ c. IsWaiting E V c t r [] b) (sym same) reading.waits;
        },
        refl,
      )
  received-GoesOn s j t r (q ∷ qs) b h v reading =
      let i = All-at E (λ q. IsWorld E V (enter E s.common q)) j s.tasks b v.worlds reading.found in
      let (b', found, waits, bytes, _) =
        step_task-takes E V L C sent S j q (map Message.publish qs) s.common s.tasks b t r h i
          reading.found reading.waits.running reading.waits.one reading.waits.unread
          reading.waits.none_missed in
      (
        b',
        record { found = found; waits = waits },
        ap (λ x. x ++ stream_of E qs) bytes
            ∙ append_assoc (sent b.stream) (E.encode_mqtt (Packet.publish q)) (stream_of E qs),
      )

  own-GoesOn :
      (s : System E) (j : ℕ) (t : String) (r : E.Receiver) (qs : List E.PublishPacket) (b : Task E)
      → E.settings.general.timeout < 65534
      → IsSystem E V s.common s.tasks
      → IsReading E V s j t r qs b
      → GoesOn (serve_once E N (task j received) s) j t r qs b (of_server E N (task j received) s)
  unfolding packets_on of_server
  own-GoesOn s j t r qs b h v reading =
      let s' = serve_once E N (task j received) s in
      let (b', reading', bytes) = received-GoesOn s j t r qs b h v reading in
      let shorter = length-drop 1 qs in
      subst (GoesOn s' j t r qs b) (sym (of_step-received E j s.common s.tasks)) (
        b',
        drop 1 qs,
        reading',
        bytes ∙ ap (λ ps. sent b.stream ++ stream_of E ps) (sym (append-nil qs)),
        omega (arith, shorter),
      )

  -- Any step of the server that leaves room.
  pub patient-GoesOn :
      (e : ServerEvent N.Raw) (s : System E) (j : ℕ) (t : String) (r : E.Receiver)
      (qs : List E.PublishPacket) (b : Task E)
      → E.settings.general.timeout < 65534
      → IsSystem E V s.common s.tasks
      → IsReading E V s j t r qs b
      → IsPatient E j e
      → length qs + length (packets_on E t (of_server E N e s)) ≤ 1024
      → GoesOn (serve_once E N e s) j t r qs b (of_server E N e s)
  patient-GoesOn (accepted l x id) s j t r qs b h v reading patient room =
      spared-GoesOn (accepted l x id) s j t r qs b v reading tt room
  patient-GoesOn (task i e) s j t r qs b h v reading (inl ne) room =
      spared-GoesOn (task i e) s j t r qs b v reading ne room
  patient-GoesOn (task i e) s j t r qs b h v reading (inr (here, taken)) room =
      subst (λ x. GoesOn (serve_once E N x s) j t r qs b (of_server E N x s))
        (λ k. task (sym here k) (sym taken k)) (own-GoesOn s j t r qs b h v reading)
