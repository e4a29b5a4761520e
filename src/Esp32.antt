-- ===== src/Esp32.antt =====
-- examples/esp32-client/src/main.rs: the task that connects to a broker and publishes when its motion
-- sensor is triggered, as a step relation. The link, the sensor and the socket choose the step.
pub mod Polite
pub mod Wifi
use mcloudtt.Prelude.{ℕ, ◌+◌, ◌≡◌, List, [], ◌∷◌, ◌++◌}

-- The two constants that the task writes.
pub data Written : Type 0 where
  connect_packet publish_packet : Written

-- `CONNECT_PACKET` and `PUBLISH_PACKET`
unfoldable pub bytes_of : Written → List ℕ
bytes_of connect_packet =
    16 ∷ 14 ∷ 0 ∷ 0 ∷ 5 ∷ 0 ∷ 0 ∷ 0 ∷ 0 ∷ 0 ∷ 5 ∷ 101 ∷ 115 ∷ 112 ∷ 51 ∷ 50 ∷ []
bytes_of publish_packet =
    48 ∷ 34 ∷ 0 ∷ 8 ∷ 101 ∷ 115 ∷ 112 ∷ 51 ∷ 50 ∷ 45 ∷ 99 ∷ 51 ∷ 0 ∷ 77 ∷ 111 ∷ 116 ∷ 105 ∷ 111
    ∷ 110 ∷ 32 ∷ 115 ∷ 101 ∷ 110 ∷ 115 ∷ 111 ∷ 114 ∷ 32 ∷ 116 ∷ 114 ∷ 105 ∷ 103 ∷ 103 ∷ 101 ∷ 114
    ∷ 101 ∷ 100 ∷ []

-- Where the task stands; `panicked` is the `unwrap` of a reply that is not UTF-8.
pub data Phase : Type 0 where
  no_link no_address opening polling connecting greeting waiting announcing pausing leaving
        panicked :
      Phase

pub record Device : Type 0 where
  pub phase : Phase
  -- what has been written to the socket of the outer loop's round
  pub written : List Written
  -- milliseconds of all timers so far
  pub slept : ℕ

abbrev pub go : Phase → ℕ → Device → Device
go phase ms d = record { phase = phase; written = d.written; slept = d.slept + ms }

abbrev pub write : Written → Device → Device
write x d = record d { written = d.written ++ x ∷ [] }

pub data Step : Device → Device → Type 0 where
  link_down : (d : Device) → d.phase ≡ no_link → Step d (go no_link 500 d)
  link_up : (d : Device) → d.phase ≡ no_link → Step d (go no_address 0 d)
  unconfigured : (d : Device) → d.phase ≡ no_address → Step d (go no_address 500 d)
  configured : (d : Device) → d.phase ≡ no_address → Step d (go opening 0 d)
  -- a new socket
  opened : (d : Device) → d.phase ≡ opening → Step d (go polling 1000 (record d { written = [] }))
  still : (d : Device) → d.phase ≡ polling → Step d (go polling 100 d)
  motion : (d : Device) → d.phase ≡ polling → Step d (go connecting 100 d)
  connect_error : (d : Device) → d.phase ≡ connecting → Step d (go polling 0 d)
  connected : (d : Device) → d.phase ≡ connecting → Step d (go greeting 0 d)
  greet_error : (d : Device) → d.phase ≡ greeting → Step d (go leaving 0 d)
  greeted : (d : Device) → d.phase ≡ greeting → Step d (go waiting 0 (write connect_packet d))
  -- the end of the stream, or an error
  unread : (d : Device) → d.phase ≡ waiting → Step d (go leaving 0 d)
  no_text : (d : Device) → d.phase ≡ waiting → Step d (go panicked 0 d)
  replied : (d : Device) → d.phase ≡ waiting → Step d (go announcing 1000 d)
  -- the result of the second `write_all` is not looked at
  announce_error : (d : Device) → d.phase ≡ announcing → Step d (go pausing 0 d)
  announced : (d : Device) → d.phase ≡ announcing → Step d (go pausing 0 (write publish_packet d))
  paused : (d : Device) → d.phase ≡ pausing → Step d (go polling 30000 d)
  left : (d : Device) → d.phase ≡ leaving → Step d (go opening 120000 d)

-- The device when the task begins.
abbrev pub started : Device
started = record { phase = no_link; written = []; slept = 0 }

pub data Reach (s : Device) : Device → Type 0 where
  here : Reach s s
  next : {d d' : Device} → Reach s d → Step d d' → Reach s d'
