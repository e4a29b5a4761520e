-- ===== src/Client/Connection.antt =====
-- `handle_raw_tcp_stream` of src/tcp_handling.rs: the event loop of a connection. Which branch of
-- `select!` is ready is up to the environment, which gives a list of events, one for each iteration.
pub mod Timers
pub mod Expiry
pub mod Receive
pub mod Acknowledged
pub mod Ends
pub mod Errors
pub mod Forward
pub mod Arrive
pub mod Lagged
pub mod Resent
pub mod Published
pub mod Will
pub mod Queues
pub mod Drained
use mcloudtt.Prelude.{
  ℕ, ◌+◌, ◌-◌, ◌%◌, ◌^◌, String, Option, none, some, Bool, true, false, not, List, [], ◌∷◌, ◌++◌,
  if◌then◌else◌, ltb, eqb, unwrap_or, retain, take, replicate, length,
}
use mcloudtt.Error.{
  Action, Result, ok, err, panic, pure, fail, gets, modify, unwrap, ◌>>=◌, ◌>>◌, client_error,
  unexpected_client_disconnected, from, io_failed,
}
use mcloudtt.BTreeMap
use mcloudtt.BTreeMap.{BTreeMap}
use mcloudtt.Broadcast.{Received, message, lagged, closed}
use mcloudtt.Mqtt.{QoS, at_most_once, at_least_once, exactly_once, Packet}
use mcloudtt.Env.{Env, Message}
use mcloudtt.Client.State.{World, OutgoingMessage, write_to_stream, set_outgoing}
use mcloudtt.Client.Session.{handle_packet, publish_will}

-- A branch of `select!` that is ready. `read` carries the bytes that came in, at least one and at
-- most as many as the buffer holds.
pub data Event : Type 0 where
  read : List ℕ → Event
  read_nothing : Event
  read_error : String → Event
  -- a receiver has a message
  received : Event
  -- the time of `SETTINGS.general.timeout + 2` seconds has passed
  timed_out : Event
  -- a second has passed
  tick : Event

abbrev pub buffer_size : ℕ
buffer_size = 1024

-- `[0; 1024]` with the bytes read in front.
abbrev pub buffer : List ℕ → List ℕ
buffer bytes = take buffer_size (bytes ++ replicate buffer_size 0)

-- Arithmetic on a w-bit number: past the range it panics under overflow checks, and else wraps.
unfoldable pub wrapped : Bool → Bool → ℕ → Result ℕ
wrapped false checks n = ok n
wrapped true true n = panic
wrapped true false n = ok n

module _ (E : Env) where
  -- `(SETTINGS.general.timeout + 2).into()`, on `u16`
  unfoldable pub sleep_secs : Result ℕ
  unfolding wrapped
  sleep_secs =
      let t = E.settings.general.timeout in
      wrapped (ltb 65535 (t + 2)) E.features.overflow_checks ((t + 2) % 2 ^ 16)

  -- `counter.0 -= 1`, on `u32`
  unfoldable pub decrement : ℕ → Result ℕ
  unfolding wrapped
  decrement n = wrapped (eqb n 0) E.features.overflow_checks ((n + 2 ^ 32 - 1) % 2 ^ 32)

  abbrev pub lift : {A : Type 0} → Result A → Action (World E) A
  lift r w = (r, w)

  -- Any error of a packet's handler ends the connection.
  unfoldable pub closing : String → Result (Unit {0}) → Result (Unit {0})
  closing addr (ok _) = ok tt
  closing addr (err _) = err (client_error addr)
  closing addr panic = panic

  unfoldable pub read_branch : String → List ℕ → Action (World E) (Unit {0})
  unfolding closing
  read_branch addr bytes w =
      let (r, w') = handle_packet E addr (buffer bytes) w in (closing addr r, w')

  abbrev pub has_message : World E → String × E.Receiver → Bool
  has_message w e = not (E.bus.is_empty e.1 w.shared.hub)

  unfoldable pub key_of : Option (String × E.Receiver) → Option String
  key_of none = none
  key_of (some (key, receiver)) = some key

  -- `ReceiverFuture::poll`: the first key whose receiver has a message; `none` is `Pending`.
  unfoldable pub poll : World E → Option String
  unfolding key_of
  poll w = key_of (BTreeMap.find (has_message w) w.client.receivers)

  unfoldable pub remember : QoS → E.PublishPacket → World E → World E
  remember at_most_once packet w = w
  remember at_least_once packet w =
      set_outgoing E
        (w.client.outgoing_messages
          ++ record { packet = packet; counter = unwrap_or (E.message_expiry_interval packet) 1 }
            ∷ [])
        w
  remember exactly_once packet w = w

  unfoldable pub on_message : Received (Message E.PublishPacket) → Action (World E) (Unit {0})
  unfolding remember
  on_message (message (Message.publish packet)) = do
    modify (remember (E.qos packet) packet)
    write_to_stream E (Packet.publish packet)
  on_message (lagged _) = pure tt
  on_message closed = pure tt

  unfoldable pub recv : E.Receiver → Action (World E) (Received (Message E.PublishPacket))
  recv r w =
      let (m, h) = E.bus.recv r w.shared.hub in
      (ok m, record w { shared = record w.shared { hub = h } })

  unfoldable pub received_branch : String → Action (World E) (Unit {0})
  unfolding on_message recv
  received_branch key = do
    receiver ← unwrap (← gets (λ w. BTreeMap.get key w.client.receivers))
    m ← recv receiver
    on_message m

  unfoldable pub shutdown : Action (World E) (Unit {0})
  shutdown w =
      let (e, s) = E.io.shutdown w.stream in
      (elim e [ none ↦ ok tt | some text ↦ err (from (io_failed text)) ], record w { stream = s })

  -- After the will is published the loop goes on.
  unfoldable pub timed_out_branch : Action (World E) (Unit {0})
  unfolding shutdown
  timed_out_branch = publish_will E >> shutdown

  unfoldable pub resend : OutgoingMessage E → Action (World E) (Unit {0})
  resend m = if eqb m.counter 0 then pure tt else write_to_stream E (Packet.publish m.packet)

  -- `packet.counter.0 -= 1` writes to the list in place.
  unfoldable pub count_down :
      List (OutgoingMessage E)
      → OutgoingMessage E
      → List (OutgoingMessage E)
      → ℕ
      → Action (World E) (OutgoingMessage E)
  unfolding resend
  count_down before m rest counter =
      let m' = record m { counter = counter } in
      modify (set_outgoing E (before ++ m' ∷ rest)) >> (resend m' >> pure m')

  -- The loop over `outgoing_messages.iter_mut()`: those before have been counted down already.
  unfoldable pub resend_each :
      List (OutgoingMessage E) → List (OutgoingMessage E) → Action (World E) (Unit {0})
  unfolding count_down decrement
  resend_each before [] = pure tt
  resend_each before (m ∷ rest) = do
    m' ← lift (decrement m.counter) >>= count_down before m rest
    resend_each (before ++ m' ∷ []) rest

  abbrev pub unexpired : OutgoingMessage E → Bool
  unexpired m = not (eqb m.counter 0)

  unfoldable pub tick_branch : Action (World E) (Unit {0})
  tick_branch = do
    messages ← gets (λ w. w.client.outgoing_messages)
    resend_each [] messages
    modify (λ w. set_outgoing E (retain unexpired w.client.outgoing_messages) w)

  -- A branch that is not enabled is not taken.
  unfoldable pub received_from : Option String → Action (World E) (Unit {0})
  received_from none = pure tt
  received_from (some key) = received_branch key

  unfoldable pub received_ready : Action (World E) (Unit {0})
  unfolding received_from
  received_ready w = received_from (poll w) w

  unfoldable pub tick_over : List (OutgoingMessage E) → Action (World E) (Unit {0})
  tick_over [] = pure tt
  tick_over (m ∷ ms) = tick_branch

  unfoldable pub tick_ready : Action (World E) (Unit {0})
  unfolding tick_over
  tick_ready w = tick_over w.client.outgoing_messages w

  unfoldable pub branch : String → Event → Action (World E) (Unit {0})
  branch addr (read bytes) = read_branch addr bytes
  branch addr read_nothing = fail (unexpected_client_disconnected addr)
  branch addr (read_error _) = fail (client_error addr)
  branch addr received = received_ready
  branch addr timed_out = timed_out_branch
  branch addr tick = tick_ready

  -- One iteration of the loop; the branches' timers are set up first.
  unfoldable pub iterate : String → Event → Action (World E) (Unit {0})
  unfolding branch received_ready tick_ready sleep_secs
  iterate addr event = do secs ← lift sleep_secs; branch addr event

  -- The loop, which is left by an error or a panic only: `ok` says that it still runs.
  unfoldable pub handle_raw_tcp_stream : String → List Event → Action (World E) (Unit {0})
  handle_raw_tcp_stream addr [] = pure tt
  handle_raw_tcp_stream addr (e ∷ es) = iterate addr e >> handle_raw_tcp_stream addr es
