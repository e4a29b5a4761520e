-- ===== src/Tests/Start.antt =====
-- The start of src/main.rs on small inputs: the key file has the given keys.
use mcloudtt.Prelude.{
  ℕ, String, none, some, ◌≡◌, ◌≢◌, ◌↔◌, ◌⊎◌, inr, refl, List, [], ◌∷◌, true, false,
}
use mcloudtt.Error.{ok, panic}
use mcloudtt.Env.{Env}
use mcloudtt.Config.{Configuration, load, load_unwrapped, static_settings}
use mcloudtt.Client.Connection.{read}
use mcloudtt.Redis.{get_all_retained_messages, restore_each}
use mcloudtt.Redis.Thread.{new}
use mcloudtt.Server.{ServerEvent, accepted, task, tcp, System, serve}
use mcloudtt.Server.Invariant.{IsSystem}
use mcloudtt.Server.Start.{
  Host, Boot, net, load_certs, load_keys, bind_port, with_redis, start_redis, load_tls, start,
  initial, main_loop,
}
use mcloudtt.Server.Start.Ends.{NoKeys, start-panic_iff, main_loop-IsSystem}
use mcloudtt.Tests.Setup.{env, view, laws, no_topics}
use mcloudtt.Tests.Redis.{crates, broker}

abbrev host : (E : Env) → E.Stream → List (List ℕ) → Host E
host E stream keys = record {
  IoError = String;
  invalid_input = λ text. text;
  display = λ e. e;
  debug = λ e. e;
  decimal = λ n. "1";
  config = record {
    Config = Unit {0};
    build = λ sources. inr tt;
    try_deserialize = λ c. inr E.settings;
  };
  opening = record {
    Client = Unit {0};
    open_client = λ url. some tt;
    decimal = λ n. "1";
    Rng = Unit {0};
    alphanumeric = λ n rng. "two";
  };
  rng = tt;
  Os = Unit {0};
  bind = λ addr os. (none, os);
  File = String;
  file_open = λ path os. inr path;
  Certificate = List ℕ;
  certificate = λ der. der;
  PrivateKey = List ℕ;
  private_key = λ der. der;
  certs = λ file. some ((1 ∷ []) ∷ []);
  rsa_private_keys = λ file. some keys;
  Acceptor = Unit {0};
  with_single_cert = λ certs key. inr tt;
  Raw = Unit {0};
  plain = λ raw. stream;
  tls_accept = λ acceptor raw. inr stream;
}

-- The broker without Redis.
abbrev alone : Env
alone = record env {
  features = record {
    redis = false;
    bq_logging = false;
    secure = true;
    docker = false;
    overflow_checks = true;
  };
}

abbrev alone_boot : Boot alone crates (host alone [] [])
alone_boot = record {
  synced = record { shared = record { topics = []; hub = no_topics.hub }; server = [] };
  os = tt;
}

start-panic_iff_example : ((start alone crates (host alone [] []) alone_boot).0 ≡ panic) ↔ (
    ((settings : Configuration) → load (host alone [] []).config ≢ ok settings)
    ⊎ ((settings : Configuration) × (load (host alone [] []).config ≡ ok settings)
        × NoKeys alone crates (host alone [] []) settings alone_boot))
start-panic_iff_example = start-panic_iff alone crates (host alone [] []) alone_boot refl

abbrev keyed : Host env
keyed = host env [] ((2 ∷ []) ∷ [])

abbrev boot : Boot env crates keyed
boot = record { synced = broker; os = tt }

abbrev events : List (ServerEvent keyed.Raw)
events = accepted tcp (inr (tt, "one")) "first" ∷ task 0 (read (48 ∷ 5 ∷ [])) ∷ []

abbrev served : System env
served = serve env (net env keyed tt) events (initial env crates keyed [] [] boot)

runs : main_loop env crates keyed events [] [] boot ≡ (ok served, boot)
unfolding main_loop start static_settings load_unwrapped load start_redis with_redis new
    get_all_retained_messages restore_each bind_port load_tls load_certs load_keys
runs = refl

main_loop-IsSystem_example : IsSystem env view served.common served.tasks
main_loop-IsSystem_example =
    main_loop-IsSystem env crates keyed view laws events [] [] boot boot served refl runs
