-- ===== src/Tests/Esp32.antt =====
-- A round of the device of examples/esp32-client/src/main.rs.
use mcloudtt.Error.{ok, ◌>>◌}
use mcloudtt.Esp32.Wifi.{EspWifi, Link, connection, prepare}
use mcloudtt.Esp32.Wifi.Joins.{IsEspWifi, IsReliable, connection-prepare}
use mcloudtt.Prelude.{
  String, Option, none, some, Bool, ◌+◌, ◌*◌, ◌≤◌, ◌≡◌, refl, true, false, [], ◌∷◌,
}
use mcloudtt.Esp32.{
  Written, connect_packet, publish_packet, bytes_of, polling, Device, link_up, configured, opened,
  motion, connected, greeted, replied, announced, paused, started, Reach, here, next,
}
use mcloudtt.Esp32.Polite.{polite, publications, owed, IsFramed, started-polite}

-- The sensor was triggered, and the broker has answered.
abbrev done : Device
done = record { phase = polling; written = connect_packet ∷ publish_packet ∷ []; slept = 32100 }

reaches_done : Reach started done
reaches_done =
    next
      (next
        (next
          (next
            (next
              (next (next (next (next here (link_up _ refl)) (configured _ refl)) (opened _ refl))
                (motion _ refl))
              (connected _ refl))
            (greeted _ refl))
          (replied _ refl))
        (announced _ refl))
      (paused _ refl)

started-polite_example :
    (polite false done.written ≡ true)
    × (30000 * publications done.written ≤ 32100 + owed polling)
    × ((x : Written) → IsFramed (bytes_of x))
started-polite_example = started-polite done reaches_done

-- A controller that keeps whether it is started, and its credentials. Nobody answers it.
abbrev wifi : EspWifi
wifi = record {
  Controller = Bool × Option (String × String);
  is_connected = λ c. false;
  wait_for_disconnected = λ c. c;
  is_started = λ c. some c.0;
  set_configuration = λ s p c. (true, (c.0, some (s, p)));
  start = λ c. (true, (true, c.1));
  connect = λ c. (false, c);
}

wifi-IsEspWifi : IsEspWifi wifi (λ c. c.1)
wifi-IsEspWifi = record {
  configures = λ s p c e. refl;
  starts = λ c e. (refl, refl);
  connect_keeps = λ c. (refl, refl);
  wait_keeps = λ c. (refl, refl);
}

wifi-IsReliable : IsReliable wifi
wifi-IsReliable = record { configuration_succeeds = λ s p c. refl; start_succeeds = λ c. refl }

abbrev off : Link wifi
off = record { controller = (false, none); slept = 0 }

connection-prepare_example :
    let x = (connection wifi "net" "secret" 3 >> prepare wifi "net" "secret") off in
    (x.0 ≡ ok tt)
    × (some x.1.controller.0 ≡ some true)
    × (x.1.controller.1 ≡ some ("net", "secret"))
connection-prepare_example =
    connection-prepare wifi (λ c. c.1) wifi-IsEspWifi wifi-IsReliable "net" "secret" 3 off
      (λ e. absurd (cc e))
