-- ===== src/Server/Start.antt =====
-- src/main.rs: from the start of `main_loop` to its loop. Files, listeners, PEM and TLS are an argument.
pub mod Ends
use Prim.Native.String.{◌++◌}
use mcloudtt.Prelude.{
  ℕ, String, Option, none, some, List, [], ◌∷◌, ◌⊎◌, inl, inr, Bool, true, false, map,
  if◌then◌else◌,
}
use mcloudtt.Error.{
  Action, Result, ok, err, panic, from, io_failed, pure, fail, gets, unwrap, ◌>>=◌, ◌>>◌,
}
use mcloudtt.Config.{Configuration, Redis, ConfigCrate, static_settings}
use mcloudtt.Env.{Env}
use mcloudtt.Redis.{Crates, Synced, get_all_retained_messages}
use mcloudtt.Redis.Thread.{Opening, RedisClient, new}
use mcloudtt.Server.{Net, ServerEvent, System, serve}

pub record Host (E : Env) : Type 1 where
  pub IoError : Type 0
  -- `io::Error::new(InvalidInput, text)`, and the texts that `{}` and `{:?}` print
  pub invalid_input : String → IoError
  pub display : IoError → String
  pub debug : IoError → String
  -- `format!("{}", n)`
  pub decimal : ℕ → String
  pub config : ConfigCrate
  pub opening : Opening
  pub rng : opening.Rng
  pub Os : Type 0
  -- `TcpListener::bind`; `none` is `Ok`.
  pub bind : String → Os → Option IoError × Os
  pub File : Type 0
  pub file_open : String → Os → IoError ⊎ File
  -- The types of rustls that wrap the bytes
  pub Certificate : Type 0
  pub certificate : List ℕ → Certificate
  pub PrivateKey : Type 0
  pub private_key : List ℕ → PrivateKey
  -- `rustls_pemfile`; `none` is an error of reading.
  pub certs : File → Option (List (List ℕ))
  pub rsa_private_keys : File → Option (List (List ℕ))
  -- `with_single_cert`; left is the text of a `rustls::Error`.
  pub Acceptor : Type 0
  pub with_single_cert : List Certificate → PrivateKey → String ⊎ Acceptor
  pub Raw : Type 0
  pub plain : Raw → E.Stream
  pub tls_accept : Acceptor → Raw → String ⊎ E.Stream

module _ (E : Env) (C : Crates) (H : Host E) where
  pub record Boot : Type 0 where
    pub synced : Synced E C
    pub os : H.Os

module _ (E : Env) (H : Host E) where
  -- The network, with the acceptor that each new connection gets a clone of.
  abbrev pub net : H.Acceptor → Net E
  net acceptor = record { Raw = H.Raw; plain = H.plain; tls_accept = H.tls_accept acceptor }

  -- `.map_err(|_| …)` and `.map(…)` on what was read from a PEM file
  abbrev pub parsed :
      {A : Type 0} → String → (List ℕ → A) → Option (List (List ℕ)) → H.IoError ⊎ List A
  parsed text f none = inl (H.invalid_input text)
  parsed text f (some ders) = inr (map f ders)

  unfoldable pub load_certs : String → H.Os → H.IoError ⊎ List H.Certificate
  load_certs path os = elim (H.file_open path os) [
    | inl e ↦ inl e
    | inr file ↦ parsed "invalid cert" H.certificate (H.certs file)
  ]

  unfoldable pub load_keys : String → H.Os → H.IoError ⊎ List H.PrivateKey
  load_keys path os = elim (H.file_open path os) [
    | inl e ↦ inl e
    | inr file ↦ parsed "invalid key" H.private_key (H.rsa_private_keys file)
  ]

  -- `LISTENER_ADDR`
  unfoldable pub listener_addr : String
  listener_addr = if E.features.docker then "0.0.0.0" else "127.0.0.1"

-- `keys.remove(0)`, which panics on an empty `Vec`
abbrev pub first : {A : Type 0} → List A → Option A
first [] = none
first (x ∷ xs) = some x

module _ (E : Env) (C : Crates) (H : Host E) where
  -- `?` on an `io::Result`
  abbrev pub question : {A : Type 0} → H.IoError ⊎ A → Action (Boot E C H) A
  question (inl e) = fail (from (io_failed (H.display e)))
  question (inr a) = pure a

  -- `.map_err(|e| io::Error::new(InvalidInput, format!("{text}: {:?}", e)))`
  abbrev pub labelled : {A : Type 0} → String → H.IoError ⊎ A → H.IoError ⊎ A
  labelled text (inl e) = inl (H.invalid_input (text ++ H.debug e))
  labelled text (inr a) = inr a

  abbrev pub bound : Option H.IoError → H.IoError ⊎ Unit {0}
  bound none = inr tt
  bound (some e) = inl e

  unfoldable pub bind_port : ℕ → Action (Boot E C H) (Unit {0})
  bind_port port b =
      let (r, os) = H.bind (listener_addr E H ++ ":" ++ H.decimal port) b.os in
      question (bound r) (record b { os = os })

  abbrev pub on_redis : Action (Synced E C) (Unit {0}) → Action (Boot E C H) (Unit {0})
  on_redis m b = let (r, s) = m b.synced in (r, record b { synced = s })

  -- The block of the feature `redis`, without the task that it spawns, which gets the client.
  unfoldable pub with_redis : Configuration → Action (Boot E C H) (Unit {0})
  with_redis settings = do
    redis ← unwrap settings.redis
    client ← unwrap (new H.opening redis.host redis.port H.rng)
    on_redis (get_all_retained_messages E C)

  unfoldable pub start_redis : Configuration → Action (Boot E C H) (Unit {0})
  start_redis settings = if E.features.redis then with_redis settings else pure tt

  -- `.map_err(|e| io::Error::new(InvalidInput, e))?`
  abbrev pub configured : String ⊎ H.Acceptor → H.IoError ⊎ H.Acceptor
  configured (inl e) = inl (H.invalid_input e)
  configured (inr a) = inr a

  unfoldable pub load_tls : Configuration → Action (Boot E C H) H.Acceptor
  load_tls settings = do
    certs ← question (
        labelled "Error loading TLS certificates: "
          (load_certs E H settings.tls.certfile (← gets (λ b. b.os))))
    keys ← question (
        labelled "Error loading TLS keys: "
          (load_keys E H settings.tls.keyfile (← gets (λ b. b.os))))
    key ← unwrap (first keys)
    question (configured (H.with_single_cert certs key))

  -- The first use of `SETTINGS`, before which nothing has been opened.
  abbrev pub forced : Action (Boot E C H) Configuration
  forced b = (static_settings H.config, b)

  unfoldable pub start : Action (Boot E C H) H.Acceptor
  start = do
    settings ← forced
    start_redis settings
    bind_port settings.ports.tcp
    bind_port settings.ports.ws
    load_tls settings

  -- The server when its loop begins.
  abbrev pub initial : E.Queue → E.Bq → Boot E C H → System E
  initial queue bq b = record {
    common = record { shared = b.synced.shared; queue = queue; bq = bq };
    tasks = [];
  }

  -- The loop and its tasks read `SETTINGS` as the settings of `E`. The loop does not return: `ok` is where the events have led.
  unfoldable pub main_loop :
      List (ServerEvent H.Raw) → E.Queue → E.Bq → Action (Boot E C H) (System E)
  unfolding start
  main_loop es queue bq = do
    acceptor ← start
    s ← gets (initial queue bq)
    pure (serve E (net E H acceptor) es s)
