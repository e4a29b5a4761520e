-- ===== src/Server/Start/Ends.antt =====
-- How the start of the server ends (src/main.rs).
use Prim.Native.String.{◌++◌}
use mcloudtt.Prelude.{
  ℕ, String, none, some, Option-cases, List, [], ◌∷◌, ◌⊎◌, inl, inr, ◌≡◌, ◌≢◌, refl, sym, ap, ◌↔◌,
  true, false, arith, if◌then◌else◌,
}
use mathlib.Core.Path.{subst}
use mcloudtt.Error.{
  Action, ok, panic, ◌>>=◌, >>=-eq-ok, Preserves, >>=-Preserves, unwrap, unwrap-Preserves, pure,
  ok-injective, gets, Result-cases,
}
use mcloudtt.Config.{Configuration, load, load_unwrapped, static_settings}
use mcloudtt.BTreeMap.{get}
use mcloudtt.Broadcast.{View, IsBroadcast}
use mcloudtt.Env.{Env}
use mcloudtt.Topics.{Channel}
use mcloudtt.Topics.Invariant.{IsValid}
use mcloudtt.Redis.{Crates, get_all_retained_messages}
use mcloudtt.Redis.Thread.{new}
use mcloudtt.Redis.Boot.{get_all_retained_messages-IsValid}
use mcloudtt.Server.{ServerEvent, System, serve}
use mcloudtt.Server.Invariant.{IsSystem}
use mcloudtt.Server.Serving.{serve-IsSystem}
use mcloudtt.Server.Start.{
  Host, Boot, net, load_certs, load_keys, listener_addr, question, bind_port, with_redis,
  start_redis, load_tls, start, initial, main_loop, on_redis, bound, configured, forced,
}

module _ (E : Env) (C : Crates) (H : Host E) where
  -- The address of a port.
  abbrev pub address : ℕ → String
  address port = listener_addr E H ++ ":" ++ H.decimal port

  -- Both ports are free, the certificates can be read, and the key file has no RSA key.
  abbrev pub NoKeys : Configuration → Boot E C H → Type 0
  NoKeys settings b =
      let (r, os) = H.bind (address settings.ports.tcp) b.os in
      let (r', os') = H.bind (address settings.ports.ws) os in
      (r ≡ none)
      × ((r' ≡ none)
          × (((cs : List H.Certificate) × (load_certs E H settings.tls.certfile os' ≡ inr cs))
              × (load_keys E H settings.tls.keyfile os' ≡ inr [])))

  chosen :
      (x : String ⊎ H.Acceptor) (b : Boot E C H) → (question E C H (configured E C H x) b).0 ≢ panic
  chosen (inl e) b = λ p. cc p
  chosen (inr a) b = λ p. cc p

  load_tls-panic_iff :
      (settings : Configuration) (b : Boot E C H) (x : H.IoError ⊎ List H.Certificate)
      (y : H.IoError ⊎ List H.PrivateKey)
      → load_certs E H settings.tls.certfile b.os ≡ x
      → load_keys E H settings.tls.keyfile b.os ≡ y
      → ((load_tls E C H settings b).0 ≡ panic)
        ↔ (((cs : List H.Certificate) × (x ≡ inr cs)) × (y ≡ inr []))
  unfolding load_tls
  load_tls-panic_iff settings b (inl e) y p q = rw p ((λ z. absurd (cc z)), λ z. absurd (cc z.0.1))
  load_tls-panic_iff settings b (inr cs) (inl e) p q =
      rw (p, q) ((λ z. absurd (cc z)), λ z. absurd (cc z.1))
  load_tls-panic_iff settings b (inr cs) (inr []) p q =
      rw (p, q) ((λ _. ((cs, refl), refl)), λ _. refl)
  load_tls-panic_iff settings b (inr cs) (inr (k ∷ ks)) p q =
      rw (p, q) ((λ z. absurd (chosen (H.with_single_cert cs k) b z)), λ z. absurd (cc (z.1)))

  bind_port-panic_iff :
      {A : Type 0}
      → (port : ℕ) (k : Unit {0} → Action (Boot E C H) A) (b : Boot E C H) (Q : Type 0)
      → (((k tt (record b { os = (H.bind (address port) b.os).1 })).0 ≡ panic) ↔ Q)
      → (((bind_port E C H port >>= k) b).0 ≡ panic) ↔ (((H.bind (address port) b.os).0 ≡ none) × Q)
  unfolding bind_port
  bind_port-panic_iff port k b Q h = elim (Option-cases (H.bind (address port) b.os).0) [
    | inl e ↦ rw (e, bind_port) ((λ z. (refl, h.0 z)), λ z. h.1 z.1)
    | inr (x, e) ↦ rw (e, bind_port) ((λ z. absurd (cc z)), λ z. absurd (cc z.0))
  ]

  -- The start once the settings are there.
  abbrev loaded : Configuration → Action (Boot E C H) H.Acceptor
  loaded settings = start_redis E C H settings >>= λ _. bind_port E C H settings.ports.tcp >>= λ _.
      bind_port E C H settings.ports.ws >>= λ _. load_tls E C H settings

  loaded-panic_iff :
      (settings : Configuration) (b : Boot E C H)
      → E.features.redis ≡ false
      → ((loaded settings b).0 ≡ panic) ↔ NoKeys settings b
  unfolding start_redis
  loaded-panic_iff settings b off =
      let os = (H.bind (address settings.ports.tcp) b.os).1 in
      let os' = (H.bind (address settings.ports.ws) os).1 in
      let rest : Unit {0} → Action (Boot E C H) H.Acceptor = λ _. load_tls E C H settings in
      subst
        (λ x.
          (((if x then with_redis E C H settings else pure tt) >>= λ _.
          bind_port E C H settings.ports.tcp >>= λ _. bind_port E C H settings.ports.ws >>= rest)
              b).0
            ≡ panic
          ↔ NoKeys settings b)
        (sym off)
        (bind_port-panic_iff settings.ports.tcp (λ _. bind_port E C H settings.ports.ws >>= rest) b
          _
          (bind_port-panic_iff settings.ports.ws rest (record b { os = os }) _
            (load_tls-panic_iff settings (record b { os = os' }) _ _ refl refl)))

  -- In a build without Redis the start of the server panics if and only if the settings cannot be
  -- loaded, or they are loaded, both of their ports can be bound, their certificates can be read,
  -- and their key file can be read and has no RSA key.
  pub start-panic_iff :
      (b : Boot E C H)
      → E.features.redis ≡ false
      → ((start E C H b).0 ≡ panic) ↔ (
          ((settings : Configuration) → load H.config ≢ ok settings)
          ⊎ ((settings : Configuration) × (load H.config ≡ ok settings) × NoKeys settings b))
  unfolding start static_settings load_unwrapped
  start-panic_iff b off = elim (Result-cases (load H.config)) [
    | inl (s, e) ↦
        let (to, back) = loaded-panic_iff s b off in
        rw e (
          (λ p. inr (s, refl, to p)),
          λ h. elim h [
            | inl none_loaded ↦ absurd (none_loaded s refl)
            | inr (s', same, h) ↦ back (subst (λ x. NoKeys x b) (sym (ok-injective s s' same)) h)
          ],
        )
    | inr (inl (x, e)) ↦ rw e ((λ p. inl (λ s same. cc)), λ h. refl)
    | inr (inr e) ↦ rw e ((λ p. inl (λ s same. cc)), λ h. refl)
  ]

module _ (E : Env) (C : Crates) (H : Host E) (V : View E.bus) (L : IsBroadcast E.bus V) where
  abbrev Kept : Boot E C H → Type 0
  Kept b = IsValid E V b.synced.shared

  question-Kept : {A : Type 0} → (x : H.IoError ⊎ A) → Preserves Kept (question E C H x)
  question-Kept (inl e) b v = v
  question-Kept (inr a) b v = v

  bind_port-Kept : (port : ℕ) → Preserves Kept (bind_port E C H port)
  unfolding bind_port
  bind_port-Kept port b v =
      let (r, os) = H.bind (address E C H port) b.os in
      question-Kept (bound E C H r) (record b { os = os }) v

  with_redis-Kept : (settings : Configuration) → Preserves Kept (with_redis E C H settings)
  unfolding with_redis
  with_redis-Kept settings =
      let restore : Action (Boot E C H) (Unit {0}) =
        on_redis E C H (get_all_retained_messages E C) in
      >>=-Preserves Kept (unwrap settings.redis)
        (λ r. unwrap (new H.opening r.host r.port H.rng) >>= λ _. restore)
        (unwrap-Preserves Kept settings.redis)
        (λ r.
          >>=-Preserves Kept (unwrap (new H.opening r.host r.port H.rng)) (λ _. restore)
            (unwrap-Preserves Kept (new H.opening r.host r.port H.rng))
            (λ _ b. get_all_retained_messages-IsValid E C V L b.synced))

  start_redis-Kept : (settings : Configuration) → Preserves Kept (start_redis E C H settings)
  unfolding start_redis
  start_redis-Kept settings b v =
      elim E.features.redis
        as (λ x. Kept ((if x then with_redis E C H settings else pure tt) b).1) [
          | true ↦ with_redis-Kept settings b v
          | false ↦ v
        ]

  load_tls-Kept :
      (settings : Configuration) (b : Boot E C H) (x : H.IoError ⊎ List H.Certificate)
      (y : H.IoError ⊎ List H.PrivateKey)
      → load_certs E H settings.tls.certfile b.os ≡ x
      → load_keys E H settings.tls.keyfile b.os ≡ y
      → Kept b
      → Kept (load_tls E C H settings b).1
  unfolding load_tls
  load_tls-Kept settings b (inl e) y p q v = rw (p, load_tls) v
  load_tls-Kept settings b (inr cs) (inl e) p q v = rw (p, q, load_tls) v
  load_tls-Kept settings b (inr cs) (inr []) p q v = rw (p, q, load_tls) v
  load_tls-Kept settings b (inr cs) (inr (k ∷ ks)) p q v =
      rw (p, q, load_tls) (question-Kept (configured E C H (H.with_single_cert cs k)) b v)

  loaded-Kept : (settings : Configuration) → Preserves Kept (loaded E C H settings)
  loaded-Kept settings =
      let ws : Unit {0} → Action (Boot E C H) H.Acceptor =
        λ _. bind_port E C H settings.ports.ws >>= λ _. load_tls E C H settings in
      let tcp : Unit {0} → Action (Boot E C H) H.Acceptor =
        λ _. bind_port E C H settings.ports.tcp >>= ws in
      >>=-Preserves Kept (start_redis E C H settings) tcp (start_redis-Kept settings) (λ _.
        >>=-Preserves Kept (bind_port E C H settings.ports.tcp) ws
          (bind_port-Kept settings.ports.tcp)
          (λ _.
            >>=-Preserves Kept (bind_port E C H settings.ports.ws) (λ _. load_tls E C H settings)
              (bind_port-Kept settings.ports.ws) (λ _ b. load_tls-Kept settings b _ _ refl refl)))

  start-Kept : Preserves Kept (start E C H)
  unfolding start
  start-Kept = >>=-Preserves Kept (forced E C H) (loaded E C H) (λ b v. v) loaded-Kept

  -- A server that starts without topics, whatever it restores from Redis, and has got to its loop:
  -- after any connections and any steps of their tasks, the topics are valid, each task keeps the
  -- invariant of a connection, and no receiver belongs to two tasks.
  pub main_loop-IsSystem :
      (es : List (ServerEvent H.Raw)) (queue : E.Queue) (bq : E.Bq) (b b' : Boot E C H)
      (s : System E)
      → b.synced.shared.topics ≡ []
      → main_loop E C H es queue bq b ≡ (ok s, b')
      → IsSystem E V s.common s.tasks
  unfolding main_loop get
  main_loop-IsSystem es queue bq b b' s empty e =
      let none_yet : IsValid E V b.synced.shared = record {
        sorted = rw empty tt;
        known = λ t c f. absurd (nothing t c f);
        roomy = λ t c f. absurd (nothing t c f);
        distinct = λ t u c d f g same. absurd (nothing t c f);
      } in
      let (acceptor, b₁, e₁, e₂) =
        >>=-eq-ok (start E C H)
          (λ a. gets (initial E C H queue bq) >>= λ s. pure (serve E (net E H a) es s)) b s b' e in
      let valid : Kept b₁ = subst (λ x. Kept x.1) e₁ (start-Kept b none_yet) in
      let none_running : IsSystem E V (initial E C H queue bq b₁).common [] = record {
        valid = valid;
        worlds = tt;
        apart = tt;
      } in
      subst (λ x. IsSystem E V x.common x.tasks) (ok-injective _ s (ap (λ x. x.0) e₂))
        (serve-IsSystem E (net E H acceptor) V L es (initial E C H queue bq b₁) none_running)
    where
      nothing : (t : String) (c : Channel E) → get t b.synced.shared.topics ≢ some c
      nothing t c f = ground (arith, ap (get t) empty)
