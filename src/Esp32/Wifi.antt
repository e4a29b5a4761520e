-- ===== src/Esp32/Wifi.antt =====
-- examples/esp32-client/src/main.rs: the task `connection`, which keeps the wireless link up. The crate
-- esp_wifi is an argument.
pub mod Joins
use mcloudtt.Prelude.{
  ℕ, zero, suc, ◌+◌, String, Option, none, some, Bool, true, false, ◌≡◌, if◌then◌else◌,
}
use mcloudtt.Error.{Action, ok, panic, pure, modify, ◌>>=◌, ◌>>◌}

-- A call returns false for an error; `is_started` is `none` for an error.
pub record EspWifi : Type 1 where
  pub Controller : Type 0
  -- `get_wifi_state()` is `StaConnected`
  pub is_connected : Controller → Bool
  -- `wait_for_event(WifiEvent::StaDisconnected)`
  pub wait_for_disconnected : Controller → Controller
  pub is_started : Controller → Option Bool
  pub set_configuration : String → String → Controller → Bool × Controller
  pub start : Controller → Bool × Controller
  pub connect : Controller → Bool × Controller

module _ (W : EspWifi) where
  pub record Link : Type 0 where
    pub controller : W.Controller
    -- milliseconds of all timers so far
    pub slept : ℕ

module _ (W : EspWifi) (ssid password : String) where
  abbrev pub five_seconds : Link W → Link W
  five_seconds l = record l { slept = l.slept + 5000 }

  -- "wait until we're no longer connected"
  unfoldable pub wait_while_connected : Link W → Link W
  wait_while_connected l =
      if W.is_connected l.controller
      then five_seconds (record l { controller = W.wait_for_disconnected l.controller })
      else l

  -- A call of the controller, with its `unwrap`.
  abbrev pub call : (W.Controller → Bool × W.Controller) → Action (Link W) (Unit {0})
  call f l =
      let (done, c) = f l.controller in (if done then ok tt else panic, record l { controller = c })

  abbrev pub has_started : Option Bool → Bool
  has_started (some true) = true
  has_started (some false) = false
  has_started none = false

  unfoldable pub start_if_not : Action (Link W) (Unit {0})
  start_if_not l =
      if has_started (W.is_started l.controller)
      then pure tt l
      else (call (W.set_configuration ssid password) >> call W.start) l

  -- One round of the loop up to the call of `connect`.
  unfoldable pub prepare : Action (Link W) (Unit {0})
  unfolding wait_while_connected start_if_not
  prepare = modify wait_while_connected >> start_if_not

  -- After an error of `connect` the task waits.
  unfoldable pub connect_once : Link W → Link W
  connect_once l =
      let (done, c) = W.connect l.controller in
      if done then record l { controller = c } else five_seconds (record l { controller = c })

  -- So many rounds of the loop.
  unfoldable pub connection : ℕ → Action (Link W) (Unit {0})
  unfolding prepare connect_once
  connection zero = pure tt
  connection (suc n) = do prepare; modify connect_once; connection n
