-- ===== src/Esp32/Wifi/Joins.antt =====
-- The rounds of the task of the wireless link (examples/esp32-client/src/main.rs).
use mcloudtt.Prelude.{
  ℕ, zero, suc, String, Option, none, some, Bool, true, false, ◌≡◌, refl, ap, sym, ◌∙◌, Bool-cases,
  inl, inr, arith,
}
use mathlib.Core.Path.{subst}
use mcloudtt.Error.{ok, >>=-eq-ok, modify, ◌>>◌}
use mcloudtt.Esp32.Wifi.{
  EspWifi, Link, wait_while_connected, call, has_started, start_if_not, prepare, connect_once,
  connection,
}

-- What the crate documents, for what has been configured last.
pub record IsEspWifi (W : EspWifi) (configured : W.Controller → Option (String × String))
    : Type 0 where
  pub configures :
      (s p : String) (c : W.Controller)
      → (W.set_configuration s p c).0 ≡ true
      → configured (W.set_configuration s p c).1 ≡ some (s, p)
  pub starts :
      (c : W.Controller)
      → (W.start c).0 ≡ true
      → (W.is_started (W.start c).1 ≡ some true) × (configured (W.start c).1 ≡ configured c)
  -- connecting and losing the connection stop nothing
  pub connect_keeps :
      (c : W.Controller)
      → (W.is_started (W.connect c).1 ≡ W.is_started c)
        × (configured (W.connect c).1 ≡ configured c)
  pub wait_keeps :
      (c : W.Controller)
      → (W.is_started (W.wait_for_disconnected c) ≡ W.is_started c)
        × (configured (W.wait_for_disconnected c) ≡ configured c)

module _ (W : EspWifi) (configured : W.Controller → Option (String × String))
    (S : IsEspWifi W configured) (ssid password : String) where
  -- A controller that has been started has the credentials.
  abbrev pub IsSetUp : Link W → Type 0
  IsSetUp l =
      W.is_started l.controller ≡ some true → configured l.controller ≡ some (ssid, password)

  abbrev pub IsReady : Link W → Type 0
  IsReady l =
      (W.is_started l.controller ≡ some true) × (configured l.controller ≡ some (ssid, password))

  has_started-true : (o : Option Bool) → has_started W ssid password o ≡ true → o ≡ some true
  has_started-true none e = cc
  has_started-true (some true) e = refl
  has_started-true (some false) e = cc

  call-ok :
      (f : W.Controller → Bool × W.Controller) (l l' : Link W)
      → call W ssid password f l ≡ (ok tt, l')
      → ((f l.controller).0 ≡ true) × ((f l.controller).1 ≡ l'.controller)
  call-ok f l l' e = elim (Bool-cases (f l.controller).0) [
    | inl done ↦ (done, ap (λ x. x.1.controller) e)
    | inr failed ↦ ground (arith, ap (λ x. x.0) e)
  ]

  wait-IsSetUp : (l : Link W) → IsSetUp l → IsSetUp (wait_while_connected W ssid password l)
  unfolding wait_while_connected
  wait-IsSetUp l h = elim (Bool-cases (W.is_connected l.controller)) [
    | inl up ↦
        let (started, kept) = S.wait_keeps l.controller in rw up (λ s. kept ∙ h (sym started ∙ s))
    | inr down ↦ rw down h
  ]

  start_if_not-IsReady :
      (l l' : Link W) → IsSetUp l → start_if_not W ssid password l ≡ (ok tt, l') → IsReady l'
  unfolding start_if_not
  start_if_not-IsReady l l' h e =
      elim (Bool-cases (has_started W ssid password (W.is_started l.controller))) [
        | inl on ↦
            let s = has_started-true (W.is_started l.controller) on in
            let same : l ≡ l' = ap (λ x. x.1) (rw on at e) in subst IsReady same (s, h s)
        | inr off ↦
            let (_, l₁, e₁, e₂) =
              >>=-eq-ok (call W ssid password (W.set_configuration ssid password))
                (λ _. call W ssid password W.start) l tt l' (rw off at e) in
            let (done, c₁) = call-ok (W.set_configuration ssid password) l l₁ e₁ in
            let (done', c₂) = call-ok W.start l₁ l' e₂ in
            let (started, kept) = S.starts l₁.controller done' in
            (
              ap W.is_started (sym c₂) ∙ started,
              ap configured (sym c₂)
                  ∙ kept
                  ∙ ap configured (sym c₁)
                  ∙ S.configures ssid password l.controller done,
            )
      ]

  connect-IsSetUp : (l : Link W) → IsReady l → IsSetUp (connect_once W ssid password l)
  unfolding connect_once
  connect-IsSetUp l (started, credentials) =
      let (_, kept) = S.connect_keeps l.controller in
      elim (Bool-cases (W.connect l.controller).0) [
        | inl done ↦ rw done (λ s. kept ∙ credentials)
        | inr failed ↦ rw failed (λ s. kept ∙ credentials)
      ]

  prepare-IsReady :
      (l l' : Link W) → IsSetUp l → prepare W ssid password l ≡ (ok tt, l') → IsReady l'
  unfolding prepare
  prepare-IsReady l l' h e =
      start_if_not-IsReady (wait_while_connected W ssid password l) l' (wait-IsSetUp l h) e

  connection-IsSetUp :
      (n : ℕ) (l l' : Link W)
      → IsSetUp l
      → connection W ssid password n l ≡ (ok tt, l')
      → IsSetUp l'
  unfolding connection
  connection-IsSetUp zero l l' h e = subst IsSetUp (ap (λ x. x.1) e) h
  connection-IsSetUp (suc n) l l' h e =
      let (_, l₁, e₁, e₂) =
        >>=-eq-ok (prepare W ssid password)
          (λ _. modify (connect_once W ssid password) >> connection W ssid password n) l tt l' e in
      connection-IsSetUp n (connect_once W ssid password l₁) l'
        (connect-IsSetUp l₁ (prepare-IsReady l l₁ h e₁)) e₂

  -- Whatever calls fail, whenever the round gets that far.
  connection-prepare-IsReady :
      (n : ℕ) (l l₁ l₂ : Link W)
      → IsSetUp l
      → connection W ssid password n l ≡ (ok tt, l₁)
      → prepare W ssid password l₁ ≡ (ok tt, l₂)
      → IsReady l₂
  connection-prepare-IsReady n l l₁ l₂ h e e' =
      prepare-IsReady l₁ l₂ (connection-IsSetUp n l l₁ h e) e'

-- The set-up of the controller does not fail; a `connect` may.
pub record IsReliable (W : EspWifi) : Type 0 where
  pub configuration_succeeds :
      (s p : String) (c : W.Controller) → (W.set_configuration s p c).0 ≡ true
  pub start_succeeds : (c : W.Controller) → (W.start c).0 ≡ true

module _ (W : EspWifi) (R : IsReliable W) (ssid password : String) where
  start_if_not-returns : (l : Link W) → (start_if_not W ssid password l).0 ≡ ok tt
  unfolding start_if_not
  start_if_not-returns l =
      elim (Bool-cases (has_started W ssid password (W.is_started l.controller))) [
        | inl on ↦ rw on refl
        | inr off ↦
            rw
              (
                off,
                R.configuration_succeeds ssid password l.controller,
                R.start_succeeds (W.set_configuration ssid password l.controller).1,
              )
              refl
      ]

  prepare-returns : (l : Link W) → (prepare W ssid password l).0 ≡ ok tt
  unfolding prepare
  prepare-returns l = start_if_not-returns (wait_while_connected W ssid password l)

  connection-returns : (n : ℕ) (l : Link W) → (connection W ssid password n l).0 ≡ ok tt
  unfolding connection
  connection-returns zero l = refl
  connection-returns (suc n) l =
      let w = (prepare W ssid password l).1 in
      let e : prepare W ssid password l ≡ (ok tt, w) = ap (λ r. (r, w)) (prepare-returns l) in
      rw e (connection-returns n (connect_once W ssid password w))

module _ (W : EspWifi) (configured : W.Controller → Option (String × String))
    (S : IsEspWifi W configured) (R : IsReliable W) where
  -- The task of the wireless link, with a controller that does what the crate documents and whose
  -- configuration and start do not fail, and that has the credentials if it is started at first.
  -- After any number of rounds, also if no call to connect succeeds, the next round gets to its
  -- call without a panic, and by then the controller is started and has the credentials.
  pub connection-prepare :
      (ssid password : String) (n : ℕ) (l : Link W)
      → (W.is_started l.controller ≡ some true → configured l.controller ≡ some (ssid, password))
      → let x = (connection W ssid password n >> prepare W ssid password) l in
        (x.0 ≡ ok tt)
        × (W.is_started x.1.controller ≡ some true)
        × (configured x.1.controller ≡ some (ssid, password))
  connection-prepare ssid password n l h =
      let l₁ = (connection W ssid password n l).1 in
      let e : connection W ssid password n l ≡ (ok tt, l₁) =
        ap (λ r. (r, l₁)) (connection-returns W R ssid password n l) in
      let l₂ = (prepare W ssid password l₁).1 in
      let done = prepare-returns W R ssid password l₁ in
      let e' : prepare W ssid password l₁ ≡ (ok tt, l₂) = ap (λ r. (r, l₂)) done in
      let (started, credentials) =
        connection-prepare-IsReady W configured S ssid password n l l₁ l₂ h e e' in
      rw e (done, started, credentials)
