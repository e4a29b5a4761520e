-- ===== src/Client/Session.antt =====
-- The other packet handlers of src/tcp_handling.rs, the will, and the dispatch of a packet.
use mcloudtt.Prelude.{ℕ, String, Option, none, some, false, List, [], ◌⊎◌, inl, inr}
use mcloudtt.Error.{
  Action, pure, fail, modify, ◌>>◌, client_disconnected, decode_packet_error, unknown_packet_type,
}
use mcloudtt.Mqtt.{
  Packet, ConnectReason, ConnectPacket, ConnectAckPacket, DisconnectPacket, DisconnectReason,
  at_least_once, disconnect_with_will_message, other,
}
use mcloudtt.Env.{Env}
use mcloudtt.Client.State.{World, write_to_stream}
use mcloudtt.Client.Publish.{handle_publish_packet, handle_publishack_packet}
use mcloudtt.Client.Subscribe.{handle_subscribe_packet, handle_unsubscribe_packet}

module _ (E : Env) where
  unfoldable pub handle_pingreq_packet : Action (World E) (Unit {0})
  handle_pingreq_packet = write_to_stream E Packet.ping_response

  unfoldable pub connect_ack : String → ConnectAckPacket
  connect_ack id = record {
    session_present = false;
    reason_code = ConnectReason.success;
    session_expiry_interval = none;
    receive_maximum = none;
    maximum_qos = some at_least_once;
    retain_available = none;
    maximum_packet_size = some 1024;
    assigned_client_identifier = some id;
    topic_alias_maximum = none;
    reason_string = none;
    user_properties = [];
    wildcard_subscription_available = none;
    subscription_identifiers_available = none;
    shared_subscription_available = none;
    server_keep_alive = some E.settings.general.timeout;
    response_information = none;
    server_reference = none;
    authentication_method = none;
    authentication_data = none;
  }

  -- `if let Some(will) = &packet.will`
  unfoldable pub store_will : Option E.FinalWill → World E → World E
  store_will none w = w
  store_will (some will) w = record w { client = record w.client { will = some will } }

  unfoldable pub handle_connect_packet : ConnectPacket E.FinalWill → Action (World E) (Unit {0})
  unfolding store_will connect_ack
  handle_connect_packet packet = do
    modify (store_will packet.will)
    λ w. write_to_stream E (Packet.connect_ack (connect_ack w.client.id)) w

  unfoldable pub publish_stored : Option E.FinalWill → Action (World E) (Unit {0})
  publish_stored none = pure tt
  publish_stored (some will) = handle_publish_packet E (E.from_will will)

  -- The stored will stays stored.
  unfoldable pub publish_will : Action (World E) (Unit {0})
  unfolding publish_stored
  publish_will w = publish_stored w.client.will w

  unfoldable pub will_on : DisconnectReason → Action (World E) (Unit {0})
  will_on disconnect_with_will_message = publish_will
  will_on (other _) = pure tt

  unfoldable pub handle_disconnect_packet : String → DisconnectPacket → Action (World E) (Unit {0})
  unfolding will_on
  handle_disconnect_packet peer packet =
      will_on packet.reason_code >> fail (client_disconnected peer)

  unfoldable pub handle_decoded :
      String → Option (Packet E.PublishPacket E.FinalWill) → Action (World E) (Unit {0})
  handle_decoded peer (some (Packet.connect p)) = handle_connect_packet p
  handle_decoded peer (some Packet.ping_request) = handle_pingreq_packet
  handle_decoded peer (some (Packet.publish p)) = handle_publish_packet E p
  handle_decoded peer (some (Packet.subscribe p)) = handle_subscribe_packet E p
  handle_decoded peer (some (Packet.disconnect p)) = handle_disconnect_packet peer p
  handle_decoded peer (some (Packet.unsubscribe p)) = handle_unsubscribe_packet E p
  handle_decoded peer (some (Packet.publish_ack p)) = handle_publishack_packet E p
  handle_decoded peer _ = fail unknown_packet_type

  unfoldable pub on_decoded :
      String → String ⊎ Option (Packet E.PublishPacket E.FinalWill) → Action (World E) (Unit {0})
  on_decoded peer (inl e) = fail (decode_packet_error e)
  on_decoded peer (inr packet) = handle_decoded peer packet

  -- The whole buffer of 1024 bytes is decoded, once.
  unfoldable pub handle_packet : String → List ℕ → Action (World E) (Unit {0})
  unfolding on_decoded
  handle_packet peer buf = on_decoded peer (E.decode_mqtt buf)
