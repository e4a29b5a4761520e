-- ===== src/Demo.antt =====
-- examples/demo_client.rs: a column of a CSV file is published, record by record. The crates paho_mqtt
-- and csv are an argument; a record that cannot be read is `none`.
pub mod Column
use mcloudtt.Prelude.{
  ℕ, zero, suc, ◌+◌, String, Option, none, some, Bool, true, false, List, [], ◌∷◌,
}
use mcloudtt.Error.{Action, ok, panic, pure, modify, unwrap, ◌>>=◌, ◌>>◌}

-- A call returns false for an error.
pub record Paho : Type 1 where
  pub Connection : Type 0
  pub connect : Connection → Bool × Connection
  pub publish : String → String → Connection → Bool × Connection
  pub disconnect : Connection → Bool × Connection

pub record Args : Type 0 where
  pub host : String
  pub topic : String
  pub file : String
  pub column : ℕ
  pub interval : ℕ

module _ (P : Paho) where
  pub record Client : Type 0 where
    pub connection : P.Connection
    -- seconds
    pub slept : ℕ

-- `StringRecord::get`
abbrev pub get_field : ℕ → List String → Option String
get_field i [] = none
get_field zero (x ∷ xs) = some x
get_field (suc i) (x ∷ xs) = get_field i xs

module _ (P : Paho) (args : Args) where
  -- A call of the client, with its `unwrap`.
  abbrev pub unwrapped : Bool × P.Connection → Action (Client P) (Unit {0})
  unwrapped (true, connection) c = (ok tt, record c { connection = connection })
  unwrapped (false, connection) c = (panic, record c { connection = connection })

  abbrev pub send : String → Action (Client P) (Unit {0})
  send text c = unwrapped (P.publish args.topic text c.connection) c

  unfoldable pub publish_record : Option (List String) → Action (Client P) (Unit {0})
  publish_record result = do
    record_fields ← unwrap result
    text ← unwrap (get_field args.column record_fields)
    send text
    modify (λ c. record c { slept = c.slept + args.interval })

  unfoldable pub publish_records : List (Option (List String)) → Action (Client P) (Unit {0})
  publish_records [] = pure tt
  publish_records (r ∷ rs) = publish_record r >> publish_records rs

  -- From the connection to the end of `main`.
  unfoldable pub run : List (Option (List String)) → Action (Client P) (Unit {0})
  run records = do
    (λ c. unwrapped (P.connect c.connection) c)
    publish_records records
    (λ c. unwrapped (P.disconnect c.connection) c)
