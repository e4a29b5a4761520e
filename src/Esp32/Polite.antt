-- ===== src/Esp32/Polite.antt =====
-- What the device of examples/esp32-client/src/main.rs writes.
use mcloudtt.Prelude.{
  ap, ℕ, suc, ◌+◌, ◌*◌, ◌≤◌, ◌≡◌, refl, Bool, true, false, ◌&&◌, List, [], ◌∷◌, ◌++◌, arith, length,
}
use mathlib.Core.Path.{subst}
use mcloudtt.Esp32.{
  Written, connect_packet, publish_packet, bytes_of, Phase, no_link, no_address, opening, polling,
  connecting, greeting, waiting, announcing, pausing, leaving, panicked, Device, go, Step,
  link_down, link_up, unconfigured, configured, opened, still, motion, connect_error, connected,
  greet_error, greeted, unread, no_text, replied, announce_error, announced, paused, left, started,
  Reach, here, next,
}

-- Whether a PUBLISH may come next: there was a CONNECT, and no PUBLISH since.
allowed : Bool → List Written → Bool
allowed b [] = b
allowed b (connect_packet ∷ xs) = allowed true xs
allowed b (publish_packet ∷ xs) = allowed false xs

-- Each PUBLISH comes after a CONNECT of its own.
pub polite : Bool → List Written → Bool
polite b [] = true
polite b (connect_packet ∷ xs) = polite true xs
polite b (publish_packet ∷ xs) = b && polite false xs

pub publications : List Written → ℕ
publications [] = 0
publications (connect_packet ∷ xs) = publications xs
publications (publish_packet ∷ xs) = suc (publications xs)

-- Milliseconds of waiting that a PUBLISH just written may still have before it.
pub owed : Phase → ℕ
owed pausing = 30000
owed _ = 0

-- The number after the first byte is that of the bytes that follow, fewer than 128.
pub IsFramed : List ℕ → Type 0
IsFramed [] = ⊥
IsFramed (b ∷ []) = ⊥
IsFramed (b ∷ n ∷ xs) = (n ≡ length xs) × (n ≤ 127)

bytes_of-IsFramed : (x : Written) → IsFramed (bytes_of x)
unfolding bytes_of IsFramed
bytes_of-IsFramed connect_packet = (refl, omega arith)
bytes_of-IsFramed publish_packet = (refl, omega arith)

allowed-append :
    (b : Bool) (xs ys : List Written) → allowed b (xs ++ ys) ≡ allowed (allowed b xs) ys
unfolding allowed
allowed-append b [] ys = refl
allowed-append b (connect_packet ∷ xs) ys = allowed-append true xs ys
allowed-append b (publish_packet ∷ xs) ys = allowed-append false xs ys

polite-append :
    (b : Bool) (xs ys : List Written)
    → polite b (xs ++ ys) ≡ (polite b xs && polite (allowed b xs) ys)
unfolding allowed polite
polite-append b [] ys = refl
polite-append b (connect_packet ∷ xs) ys = polite-append true xs ys
polite-append true (publish_packet ∷ xs) ys = polite-append false xs ys
polite-append false (publish_packet ∷ xs) ys = refl

publications-append :
    (xs ys : List Written) → publications (xs ++ ys) ≡ publications xs + publications ys
unfolding publications
publications-append [] ys = omega arith
publications-append (connect_packet ∷ xs) ys = publications-append xs ys
publications-append (publish_packet ∷ xs) ys = omega (arith, publications-append xs ys)

-- In the phases between a CONNECT and the PUBLISH.
abbrev Ready : Phase → List Written → Type 0
Ready waiting xs = allowed false xs ≡ true
Ready announcing xs = allowed false xs ≡ true
Ready _ xs = Unit

record IsPolite (d : Device) : Type 0 where
  in_turn : polite false d.written ≡ true
  ready : Ready d.phase d.written
  paced : 30000 * publications d.written ≤ d.slept + owed d.phase

-- Nothing has been written.
move :
    {from : Phase} (phase : Phase) (ms : ℕ) (d : Device)
    → d.phase ≡ from
    → owed from ≤ ms
    → Ready phase d.written
    → IsPolite d
    → IsPolite (go phase ms d)
move phase ms d e o r h = record {
  in_turn = h.in_turn;
  ready = r;
  paced = omega (arith, h.paced, o, ap owed e);
}

Step-IsPolite : {d d' : Device} → Step d d' → IsPolite d → IsPolite d'
unfolding allowed polite publications owed
Step-IsPolite (link_down d e) h = move no_link 500 d e (omega arith) tt h
Step-IsPolite (link_up d e) h = move no_address 0 d e (omega arith) tt h
Step-IsPolite (unconfigured d e) h = move no_address 500 d e (omega arith) tt h
Step-IsPolite (configured d e) h = move opening 0 d e (omega arith) tt h
Step-IsPolite (opened d e) h = record { in_turn = refl; ready = tt; paced = omega arith }
Step-IsPolite (still d e) h = move polling 100 d e (omega arith) tt h
Step-IsPolite (motion d e) h = move connecting 100 d e (omega arith) tt h
Step-IsPolite (connect_error d e) h = move polling 0 d e (omega arith) tt h
Step-IsPolite (connected d e) h = move greeting 0 d e (omega arith) tt h
Step-IsPolite (greet_error d e) h = move leaving 0 d e (omega arith) tt h
Step-IsPolite (greeted d e) h = record {
  in_turn = rw (polite-append false d.written (connect_packet ∷ []), h.in_turn) refl;
  ready = allowed-append false d.written (connect_packet ∷ []);
  paced = omega (arith, publications-append d.written (connect_packet ∷ []), h.paced, ap owed e);
}
Step-IsPolite (unread d e) h = move leaving 0 d e (omega arith) tt h
Step-IsPolite (no_text d e) h = move panicked 0 d e (omega arith) tt h
Step-IsPolite (replied d e) h =
    move announcing 1000 d e (omega arith) (subst (λ p. Ready p d.written) e h.ready) h
Step-IsPolite (announce_error d e) h = move pausing 0 d e (omega arith) tt h
Step-IsPolite (announced d e) h =
    let turn : allowed false d.written ≡ true = subst (λ p. Ready p d.written) e h.ready in
    record {
      in_turn = rw (polite-append false d.written (publish_packet ∷ []), h.in_turn, turn) refl;
      ready = tt;
      paced =
          omega (arith, publications-append d.written (publish_packet ∷ []), h.paced, ap owed e);
    }
Step-IsPolite (paused d e) h = move polling 30000 d e (omega arith) tt h
Step-IsPolite (left d e) h = move opening 120000 d e (omega arith) tt h

Reach-IsPolite : {d : Device} → Reach started d → IsPolite d
unfolding polite publications owed
Reach-IsPolite here = record { in_turn = refl; ready = tt; paced = omega arith }
Reach-IsPolite (next r s) = Step-IsPolite s (Reach-IsPolite r)

-- Whatever the link, the sensor and the socket do, at any point of the device's run: on the socket
-- of the present round each PUBLISH stands behind a CONNECT of its own, and since its start the
-- device has waited 30 seconds or more for each PUBLISH on it; between a write of a PUBLISH and the
-- end of the wait after it, 30 seconds may be missing from the sum. The second byte of both packets
-- is the number of the bytes behind it, and fits one byte of the length.
pub started-polite :
    (d : Device)
    → Reach started d
    → (polite false d.written ≡ true)
      × (30000 * publications d.written ≤ d.slept + owed d.phase)
      × ((x : Written) → IsFramed (bytes_of x))
started-polite d r = let h = Reach-IsPolite r in (h.in_turn, h.paced, bytes_of-IsFramed)
