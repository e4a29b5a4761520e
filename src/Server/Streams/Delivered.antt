-- ===== src/Server/Streams/Delivered.antt =====
-- Whole runs of the server (src/main.rs), seen by a subscriber that only takes messages.
use mcloudtt.Prelude.{
  ℕ, zero, suc, ◌+◌, ◌≤◌, ◌<◌, String, ◌≡◌, refl, sym, ap, ◌∙◌, List, [], ◌∷◌, ◌++◌, All, length,
  length-append, length-drop, append-nil, drop, arith, replicate,
}
use mcloudtt.Broadcast.{View, IsBroadcast}
use mcloudtt.Env.{Env, IsStream, IsConnected}
use mcloudtt.Topics.History.{packets_on, packets_on-append}
use mcloudtt.Client.Connection.{received}
use mcloudtt.Client.Connection.Forward.{stream_of}
use mcloudtt.Server.{Net, ServerEvent, task, Task, System, serve_once, serve}
use mcloudtt.Server.Invariant.{IsSystem}
use mcloudtt.Server.Serving.{serve_once-Valid, serve-IsSystem}
use mcloudtt.Server.Isolation.{of_server, published}
use mcloudtt.Server.Streams.Reading.{
  IsReading, Conserved-trans, IsPatient, received-GoesOn, patient-GoesOn,
}

module _ (E : Env) (V : View E.bus) (L : IsBroadcast E.bus V) (C : IsConnected E.io)
    (sent : E.Stream → List ℕ) (S : IsStream E.io sent) (N : Net E) where
  -- The tasks of the server are in a state that keeps the invariant, streams stay connected, and
  -- the timeout is at most 65533 seconds. A task runs, is subscribed to just one topic, has missed
  -- nothing, and has some packets to read. After any order of connections and turns in which the
  -- task's own turns only take messages, and in which the packets that it had to read and those
  -- published on its topic are at most 1024: the task still runs with its subscription, has missed
  -- nothing, and has no more packets to read than those were, and what its stream has got, followed
  -- by what it has still to read, is what it had got at first, followed by what it had to read at
  -- first and then by the packets published on its topic, in order. A running task publishes the
  -- PUBLISH that it reads, and its stored will when the timeout is over or a DISCONNECT asks for
  -- it, and nothing else.
  pub serve-conserves :
      (es : List (ServerEvent N.Raw)) (s : System E) (j : ℕ) (t : String) (r : E.Receiver)
      (qs : List E.PublishPacket) (b : Task E)
      → E.settings.general.timeout < 65534
      → IsSystem E V s.common s.tasks
      → IsReading E V s j t r qs b
      → All (IsPatient E j) es
      → length qs + length (packets_on E t (published E N es s)) ≤ 1024
      → (b' : Task E) × (qs' : List E.PublishPacket) × IsReading E V (serve E N es s) j t r qs' b'
        × (sent b'.stream ++ stream_of E qs'
            ≡ sent b.stream ++ stream_of E (qs ++ packets_on E t (published E N es s)))
        × (length qs' ≤ length qs + length (packets_on E t (published E N es s)))
  unfolding serve published packets_on
  serve-conserves [] s j t r qs b h v reading patient room = (
    b,
    qs,
    reading,
    ap (λ ps. sent b.stream ++ stream_of E ps) (sym (append-nil qs)),
    omega arith,
  )
  serve-conserves (e ∷ es) s j t r qs b h v reading patient room =
      let s₁ = serve_once E N e s in
      let ps = of_server E N e s in
      let rest = published E N es s₁ in
      let size =
        ap length (packets_on-append E t ps rest)
        ∙ length-append (packets_on E t ps) (packets_on E t rest) in
      let (b₁, qs₁, reading₁, step, few) =
        patient-GoesOn E V L C sent S N e s j t r qs b h v reading patient.0
          (omega (arith, size)) in
      let (b', qs', reading', later, few') =
        serve-conserves es s₁ j t r qs₁ b₁ h (serve_once-Valid E N V L e s v) reading₁ patient.1
          (omega (arith, size)) in
      (
        b',
        qs',
        reading',
        Conserved-trans E sent t b b₁ b' qs qs₁ qs' ps rest step later,
        omega (arith, size),
      )

  -- Turns of the task alone.
  own_turns :
      (n : ℕ) (s : System E) (j : ℕ) (t : String) (r : E.Receiver) (qs : List E.PublishPacket)
      (b : Task E)
      → E.settings.general.timeout < 65534
      → IsSystem E V s.common s.tasks
      → IsReading E V s j t r qs b
      → length qs ≤ n
      → (b' : Task E) × IsReading E V (serve E N (replicate n (task j received)) s) j t r [] b'
        × (sent b'.stream ≡ sent b.stream ++ stream_of E qs)
  unfolding serve stream_of
  own_turns zero s j t r [] b h v reading few = (b, reading, sym (append-nil (sent b.stream)))
  own_turns zero s j t r (q ∷ qs) b h v reading few = absurd (omega arith)
  own_turns (suc n) s j t r qs b h v reading few =
      let (b₁, reading₁, bytes) = received-GoesOn E V L C sent S N s j t r qs b h v reading in
      let shorter = length-drop 1 qs in
      let (b', reading', bytes') =
        own_turns n (serve_once E N (task j received) s) j t r (drop 1 qs) b₁ h
          (serve_once-Valid E N V L (task j received) s v) reading₁ (omega (arith, shorter)) in
      (b', reading', bytes' ∙ bytes)

module _ (E : Env) (N : Net E) where
  serve-append :
      (es es' : List (ServerEvent N.Raw)) (s : System E)
      → serve E N (es ++ es') s ≡ serve E N es' (serve E N es s)
  unfolding serve
  serve-append [] es' s = refl
  serve-append (e ∷ es) es' s = serve-append es es' (serve_once E N e s)

module _ (E : Env) (V : View E.bus) (L : IsBroadcast E.bus V) (C : IsConnected E.io)
    (sent : E.Stream → List ℕ) (S : IsStream E.io sent) (N : Net E) where
  -- The tasks of the server are in a state that keeps the invariant, streams stay connected, and
  -- the timeout is at most 65533 seconds. A task runs, is subscribed to just one topic, has missed
  -- nothing, and has some packets to read. The server goes on in any order of connections and
  -- turns, in which the task's own turns only take messages, and the packets that it had to read
  -- and those that are published on its topic are at most 1024; then the task has turns of its own,
  -- at least as many as those packets. Now the task still runs, its stream has got exactly the
  -- packets that it had to read and then those that were published on its topic, each once and in
  -- order, and it has nothing to read and nothing missed. A running task publishes the PUBLISH that
  -- it reads, and its stored will when the timeout is over or a DISCONNECT asks for it, and nothing
  -- else.
  pub serve-delivers :
      (es : List (ServerEvent N.Raw)) (n : ℕ) (s : System E) (j : ℕ) (t : String) (r : E.Receiver)
      (qs : List E.PublishPacket) (b : Task E)
      → E.settings.general.timeout < 65534
      → IsSystem E V s.common s.tasks
      → IsReading E V s j t r qs b
      → All (IsPatient E j) es
      → length qs + length (packets_on E t (published E N es s)) ≤ 1024
      → length qs + length (packets_on E t (published E N es s)) ≤ n
      → let s' = serve E N (es ++ replicate n (task j received)) s in
        (b' : Task E) × IsReading E V s' j t r [] b'
        × (sent b'.stream
            ≡ sent b.stream ++ stream_of E (qs ++ packets_on E t (published E N es s)))
  serve-delivers es n s j t r qs b h v reading patient room enough =
      let (b₁, qs₁, reading₁, kept, few) =
        serve-conserves E V L C sent S N es s j t r qs b h v reading patient room in
      let (b', reading', bytes) =
        own_turns E V L C sent S N n (serve E N es s) j t r qs₁ b₁ h (serve-IsSystem E N V L es s v)
          reading₁ (omega (arith, few)) in
      rw (serve-append E N es (replicate n (task j received)) s) (b', reading', bytes ∙ kept)
