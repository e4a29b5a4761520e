-- ===== src/Client/Kept/Loop.antt =====
-- What is kept by the dispatch of a packet and by the event loop (src/tcp_handling.rs).
use mcloudtt.Prelude.{
  ℕ, String, Option, none, some, List, [], ◌∷◌, ◌++◌, refl, sym, ◌⊎◌, inl, inr, append-nil,
}
use mathlib.Core.Path.{subst}
use mcloudtt.Error.{
  Result, ok, err, panic, Preserves, >>-Preserves, continue, fail, client_disconnected,
}
use mcloudtt.Mqtt.{Packet, DisconnectReason, disconnect_with_will_message, other}
use mcloudtt.Env.{Env}
use mcloudtt.Topics
use mcloudtt.Client.State.{World}
use mcloudtt.Client.Publish.{handle_publish_packet, handle_publishack_packet}
use mcloudtt.Client.Session.{
  publish_stored, on_decoded, publish_will, will_on, handle_disconnect_packet,
  handle_pingreq_packet, handle_decoded, handle_packet,
}
use mcloudtt.Client.Connection.{
  Event, read, read_nothing, read_error, received, timed_out, tick, read_branch, shutdown,
  timed_out_branch, poll, received_ready, tick_ready, branch, iterate, sleep_secs,
  handle_raw_tcp_stream, buffer,
}
use mcloudtt.Client.Connection.Published.{handle_publish_packet-Holds}
use mcloudtt.Client.Publications.{
  of_will, of_reason, of_packet, of_decoded, of_event, of_timers, of_turn,
}
use mcloudtt.Client.Kept.{IsKept, IsTracked, write_to_stream-Kept}
use mcloudtt.Client.Kept.Handlers.{handle_subscribe_packet-Kept, handle_unsubscribe_packet-Kept}
use mcloudtt.Client.Kept.Silent.{
  handle_connect_packet-Kept, received_from-Kept, tick_over-Kept, shutdown-Kept,
}

module _ (E : Env) (J : List E.PublishPacket → World E → Type 0) (K : IsTracked E J) where
  -- Nothing has been published.
  nothing : (ps : List E.PublishPacket) (w : World E) → J ps w → J (ps ++ []) w
  nothing ps w j = subst (λ qs. J qs w) (sym (append-nil ps)) j

  handle_publish_packet-Tracked :
      (p : E.PublishPacket) (ps : List E.PublishPacket) (w : World E)
      → J ps w
      → J (ps ++ p ∷ []) (handle_publish_packet E p w).1
  handle_publish_packet-Tracked p ps w j =
      let (shared, receivers) = handle_publish_packet-Holds E p w in
      (K.silent (ps ++ p ∷ [])).client (record w { shared = (Topics.publish E p w.shared).1 })
        (handle_publish_packet E p w).1 shared receivers (K.publishes p ps w j)

  publish_stored-Tracked :
      (o : Option E.FinalWill) (ps : List E.PublishPacket) (w : World E)
      → J ps w
      → J (ps ++ of_will E o) (publish_stored E o w).1
  unfolding publish_stored of_will
  publish_stored-Tracked none ps w j = nothing ps w j
  publish_stored-Tracked (some x) ps w j = handle_publish_packet-Tracked (E.from_will x) ps w j

  publish_will-Tracked :
      (ps : List E.PublishPacket) (w : World E)
      → J ps w
      → J (ps ++ of_will E w.client.will) (publish_will E w).1
  unfolding publish_will
  publish_will-Tracked ps w j = publish_stored-Tracked w.client.will ps w j

  will_on-Tracked :
      (r : DisconnectReason) (ps : List E.PublishPacket) (w : World E)
      → J ps w
      → J (ps ++ of_reason E r w.client.will) (will_on E r w).1
  unfolding will_on of_reason
  will_on-Tracked disconnect_with_will_message ps w j = publish_will-Tracked ps w j
  will_on-Tracked (other n) ps w j = nothing ps w j

  -- The action that comes after a publication publishes nothing.
  continue-Tracked :
      (qs : List E.PublishPacket) (r : Result (Unit {0}))
      (m : World E → Result (Unit {0}) × World E) (w : World E)
      → Preserves (J qs) m
      → J qs w
      → J qs (continue r (λ u. m) w).1
  continue-Tracked qs (ok u) m w h j = h w j
  continue-Tracked qs (err e) m w h j = j
  continue-Tracked qs panic m w h j = j

  handle_decoded-Tracked :
      (peer : String) (p : Option (Packet E.PublishPacket E.FinalWill)) (ps : List E.PublishPacket)
      (w : World E)
      → J ps w
      → J (ps ++ of_packet E p w.client.will) (handle_decoded E peer p w).1
  unfolding handle_decoded handle_disconnect_packet handle_pingreq_packet handle_publishack_packet
      of_packet
  handle_decoded-Tracked peer (some (Packet.connect p)) ps w j =
      handle_connect_packet-Kept E (J (ps ++ [])) (K.silent (ps ++ [])) p w (nothing ps w j)
  handle_decoded-Tracked peer (some Packet.ping_request) ps w j =
      write_to_stream-Kept E (J (ps ++ [])) (K.silent (ps ++ [])).client _ w (nothing ps w j)
  handle_decoded-Tracked peer (some (Packet.publish p)) ps w j =
      handle_publish_packet-Tracked p ps w j
  handle_decoded-Tracked peer (some (Packet.subscribe p)) ps w j =
      handle_subscribe_packet-Kept E (J (ps ++ [])) (K.silent (ps ++ [])) p w (nothing ps w j)
  handle_decoded-Tracked peer (some (Packet.disconnect p)) ps w j =
      continue-Tracked (ps ++ of_reason E p.reason_code w.client.will) (will_on E p.reason_code w).0
        (fail (client_disconnected peer)) (will_on E p.reason_code w).1 (λ x i. i)
        (will_on-Tracked p.reason_code ps w j)
  handle_decoded-Tracked peer (some (Packet.unsubscribe p)) ps w j =
      handle_unsubscribe_packet-Kept E (J (ps ++ [])) (K.silent (ps ++ [])) p w (nothing ps w j)
  handle_decoded-Tracked peer (some (Packet.publish_ack p)) ps w j =
      (K.silent (ps ++ [])).client w _ refl refl (nothing ps w j)
  handle_decoded-Tracked peer _ ps w j = nothing ps w j

  on_decoded-Tracked :
      (peer : String) (d : String ⊎ Option (Packet E.PublishPacket E.FinalWill))
      (ps : List E.PublishPacket) (w : World E)
      → J ps w
      → J (ps ++ of_decoded E d w.client.will) (on_decoded E peer d w).1
  unfolding on_decoded of_decoded
  on_decoded-Tracked peer (inl e) ps w j = nothing ps w j
  on_decoded-Tracked peer (inr p) ps w j = handle_decoded-Tracked peer p ps w j

  branch-Tracked :
      (addr : String) (e : Event) (ps : List E.PublishPacket) (w : World E)
      → J ps w
      → J (ps ++ of_event E e w.client.will) (branch E addr e w).1
  unfolding branch received_ready tick_ready read_branch handle_packet timed_out_branch publish_will
      of_event
  branch-Tracked addr (read bytes) ps w j =
      on_decoded-Tracked addr (E.decode_mqtt (buffer bytes)) ps w j
  branch-Tracked addr read_nothing ps w j = nothing ps w j
  branch-Tracked addr (read_error t) ps w j = nothing ps w j
  branch-Tracked addr received ps w j =
      received_from-Kept E (J (ps ++ [])) (K.silent (ps ++ [])) (poll E w) w (nothing ps w j)
  branch-Tracked addr timed_out ps w j =
      let qs = ps ++ of_will E w.client.will in
      continue-Tracked qs (publish_will E w).0 (shutdown E) (publish_will E w).1
        (shutdown-Kept E (J qs) (K.silent qs)) (publish_will-Tracked ps w j)
  branch-Tracked addr tick ps w j =
      tick_over-Kept E (J (ps ++ [])) (K.silent (ps ++ [])) w.client.outgoing_messages w
        (nothing ps w j)

  timers-Tracked :
      (r : Result ℕ) (addr : String) (e : Event) (ps : List E.PublishPacket) (w : World E)
      → J ps w
      → J (ps ++ of_timers E r e w.client.will) (continue r (λ secs. branch E addr e) w).1
  unfolding of_timers
  timers-Tracked (ok secs) addr e ps w j = branch-Tracked addr e ps w j
  timers-Tracked (err x) addr e ps w j = nothing ps w j
  timers-Tracked panic addr e ps w j = nothing ps w j

  -- A turn of the loop publishes what the specification says, in any world.
  pub iterate-Tracked :
      (addr : String) (e : Event) (ps : List E.PublishPacket) (w : World E)
      → J ps w
      → J (ps ++ of_turn E e w) (iterate E addr e w).1
  unfolding iterate of_turn
  iterate-Tracked addr e ps w j = timers-Tracked (sleep_secs E) addr e ps w j

module _ (E : Env) (I : World E → Type 0) (K : IsKept E I) where
  pub iterate-Kept : (addr : String) (e : Event) → Preserves I (iterate E addr e)
  iterate-Kept addr e w i =
      iterate-Tracked E (λ ps. I)
        (record { silent = λ ps. K.silent; publishes = λ p ps. K.publishes p }) addr e [] w i

  pub handle_raw_tcp_stream-Kept :
      (addr : String) (es : List Event) → Preserves I (handle_raw_tcp_stream E addr es)
  unfolding handle_raw_tcp_stream
  handle_raw_tcp_stream-Kept addr [] w i = i
  handle_raw_tcp_stream-Kept addr (e ∷ es) w i =
      >>-Preserves I (iterate E addr e) (handle_raw_tcp_stream E addr es) (iterate-Kept addr e)
        (handle_raw_tcp_stream-Kept addr es) w i
