-- ===== src/Tests/Demo.antt =====
-- examples/demo_client.rs on three records, of which the last has no second field.
use mcloudtt.Prelude.{String, Option, some, refl, List, [], ◌∷◌, ◌++◌, true}
use mcloudtt.Demo.{Paho, Args, Client, publish_records}
use mcloudtt.Demo.Column.{IsOnline, IsPublished, publish_records-column}

abbrev paho : Paho
paho = record {
  Connection = List (String × String);
  connect = λ c. (true, c);
  publish = λ t x c. (true, c ++ (t, x) ∷ []);
  disconnect = λ c. (true, c);
}

paho-IsOnline : IsOnline paho (λ c. c)
paho-IsOnline = record { publish_succeeds = λ t x c. refl; publish_sends = λ t x c. refl }

abbrev example_args : Args
example_args = record {
  host = "ssl://localhost:1883";
  topic = "weather";
  file = "weather.csv";
  column = 1;
  interval = 5;
}

abbrev records : List (Option (List String))
records = some ("mon" ∷ "12" ∷ []) ∷ some ("tue" ∷ "14" ∷ []) ∷ some ("wed" ∷ []) ∷ []

abbrev unsent : Client paho
unsent = record { connection = []; slept = 0 }

publish_records-column_example :
    IsPublished paho example_args
      (λ c. c)
      paho-IsOnline
      records
      unsent
      (publish_records paho example_args records unsent)
publish_records-column_example =
    publish_records-column paho example_args (λ c. c) paho-IsOnline records unsent
