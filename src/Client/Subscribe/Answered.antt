-- ===== src/Client/Subscribe/Answered.antt =====
-- `handle_subscribe_packet` (src/tcp_handling.rs) on a stream that stays connected.
use mcloudtt.Prelude.{String, Option, none, some, true, ◌≡◌, refl, ℕ, List, [], ◌∷◌, ◌++◌, map}
use mcloudtt.Error.{Result, ok, err, panic, is_ok}
use mcloudtt.Mqtt.{
  TopicFilter, concrete, wildcard, shared_concrete, shared_wildcard, SubscribePacket,
  SubscribeAckReason, Packet,
}
use mcloudtt.Env.{Env, IsStream, IsConnected}
use mcloudtt.Topics
use mcloudtt.Topics.Retained.{subscribe-is_ok}
use mcloudtt.Client.State.{World}
use mcloudtt.Client.Written.{returned, write_to_stream-returns}
use mcloudtt.Client.Subscribe.{
  send_retained, subscribe_concrete, subscribe_each, suback, handle_subscribe_packet,
}
use mcloudtt.Client.Subscribe.Suback.{answer, retained_bytes, handle_subscribe_packet-sends}

module _ (E : Env) (C : IsConnected E.io) where
  send_retained-returns :
      (o : Option E.PublishPacket) (w : World E) → (send_retained E o w).0 ≡ ok tt
  unfolding send_retained
  send_retained-returns none w = refl
  send_retained-returns (some p) w = write_to_stream-returns E C (Packet.publish p) w

  is_ok-result : {A : Type 0} (r : Result A) → is_ok r ≡ true → (a : A) × (r ≡ ok a)
  is_ok-result (ok a) h = (a, refl)
  is_ok-result (err e) h = cc
  is_ok-result panic h = cc

  subscribe_concrete-returns : (f : String) (w : World E) → (subscribe_concrete E f w).0 ≡ ok tt
  unfolding subscribe_concrete
  subscribe_concrete-returns f w =
      let (r, e) = is_ok-result (Topics.subscribe E f w.shared).0 (subscribe-is_ok E f w.shared) in
      rw e (send_retained-returns _ _)

  subscribe_each-returns :
      (fs : List TopicFilter) (codes : List SubscribeAckReason) (w : World E)
      → is_ok (subscribe_each E fs codes w).0 ≡ true
  unfolding subscribe_each
  subscribe_each-returns [] codes w = refl
  subscribe_each-returns (concrete f n ∷ fs) codes w =
      rw (returned E (subscribe_concrete E f) w (subscribe_concrete-returns f w))
        (subscribe_each-returns fs _ (subscribe_concrete E f w).1)
  subscribe_each-returns (wildcard f n ∷ fs) codes w = subscribe_each-returns fs _ w
  subscribe_each-returns (shared_concrete ∷ fs) codes w = subscribe_each-returns fs _ w
  subscribe_each-returns (shared_wildcard ∷ fs) codes w = subscribe_each-returns fs _ w

  -- On a stream that stays connected a SUBSCRIBE is handled to the end, whatever it asks for: the
  -- client has got the retained messages of its concrete filters, in the order of the request, and
  -- then a SUBACK with the request's packet id and one reason for each filter, by the filter's kind
  -- alone.
  pub handle_subscribe_packet-answers :
      (sent : E.Stream → List ℕ) (S : IsStream E.io sent) (p : SubscribePacket) (w : World E)
      → let x = handle_subscribe_packet E p w in
        (x.0 ≡ ok tt)
        × (sent x.1.stream
            ≡ sent w.stream
              ++ (retained_bytes E p.subscription_topics w.shared
                  ++ E.encode_mqtt (suback E p (map answer p.subscription_topics))))
  unfolding handle_subscribe_packet
  handle_subscribe_packet-answers sent S p w =
      let each = subscribe_each E p.subscription_topics [] w in
      let (codes, e) = is_ok-result each.0 (subscribe_each-returns p.subscription_topics [] w) in
      let done : (handle_subscribe_packet E p w).0 ≡ ok tt =
        rw e (write_to_stream-returns E C (suback E p codes) each.1) in
      (
        done,
        handle_subscribe_packet-sends E sent S p w _
            (returned E (handle_subscribe_packet E p) w done),
      )
