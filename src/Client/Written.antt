-- ===== src/Client/Written.antt =====
-- What reaches the client's stream (src/tcp_handling.rs), in terms of the promise of `write_all`.
use mcloudtt.Prelude.{ℕ, ◌≡◌, refl, ap, List, ◌++◌, Option-cases, inl, inr, arith}
use mcloudtt.Error.{ok, Action}
use mcloudtt.Mqtt.{Packet}
use mcloudtt.Env.{Env, IsStream, IsConnected}
use mcloudtt.Client.State.{World, write_to_stream, written}

module _ (E : Env) where
  -- A run that ends well, with the world it ends in.
  pub returned :
      (m : Action (World E) (Unit {0})) (w : World E) → (m w).0 ≡ ok tt → m w ≡ (ok tt, (m w).1)
  returned m w e = ap (λ r. (r, (m w).1)) e

  pub write_to_stream-returns :
      IsConnected E.io
      → (packet : Packet E.PublishPacket E.FinalWill) (w : World E)
      → (write_to_stream E packet w).0 ≡ ok tt
  unfolding write_to_stream written
  write_to_stream-returns C packet w = rw (C.write_all_succeeds (E.encode_mqtt packet) w.stream)

module _ (E : Env) (sent : E.Stream → List ℕ) (S : IsStream E.io sent) where
  -- A successful call has sent the encoded packet, and changed nothing else.
  pub write_to_stream-ok :
      (p : Packet E.PublishPacket E.FinalWill) (w w' : World E)
      → write_to_stream E p w ≡ (ok tt, w')
      → (sent w'.stream ≡ sent w.stream ++ E.encode_mqtt p) × (w' ≡ record w { stream = w'.stream })
  unfolding write_to_stream written
  write_to_stream-ok p w w' e = elim (Option-cases (E.write_all (E.encode_mqtt p) w.stream).0) [
    | inl success ↦
        let same : (write_to_stream E p w).1 ≡ w' = ap (λ x. x.1) e in
        rw (← same) (S.write_all_sends (E.encode_mqtt p) w.stream success, refl)
    | inr (t, failure) ↦
        let ended : written E (E.write_all (E.encode_mqtt p) w.stream).0 ≡ ok tt =
          ap (λ x. x.0) e in
        ground arith
  ]
