-- ===== src/Lib.antt =====
-- The broker MCloudTT, whose code is in src/: clients connect over TCP, subscribe to topics and
-- publish; the broker hands each packet to the subscribers of its topic and keeps the last retained
-- packet of each topic.
--
-- A connection is a `Client` with an event loop. A packet that it reads goes to a handler; the
-- handlers share the `Topics`, which keep a broadcast channel for each topic. A subscriber's loop
-- takes what comes in on its receivers and writes it to its stream. At QoS 1 it keeps what it has
-- written until the PUBACK comes or the expiry interval is over, and writes it again each second.
--
-- The files, and the code that they model:
--
-- - Topics: src/topics.rs. `Shared` is the map of topics and the state of all channels; `add`,
--   `subscribe`, `publish`, `get_retained_message`, `send_message` and `Channel::new` (here `new`)
--   carry the source's names. Below it Runs has the equations of each branch; Invariant, Retained,
--   Delivery, Readers, Queues, History, Interleaving and Traces the theorems.
-- - Client: src/tcp_handling.rs. State has `Client` and the `World` that a handler can change;
--   Publish, Subscribe and Session the packet handlers and their dispatch `handle_packet`;
--   Connection the event loop `handle_raw_tcp_stream`, with `ReceiverFuture::poll` as `poll`. Below
--   them stand the theorems: Publish/Puback and Publish/Answered, Subscribe/Suback,
--   Subscribe/Answered and Subscribe/Unsuback; of the loop Connection/Timers, Connection/Expiry,
--   Connection/Receive, Connection/Acknowledged, Connection/Ends, Connection/Errors,
--   Connection/Forward, Connection/Arrive, Connection/Lagged, Connection/Resent,
--   Connection/Published, Connection/Will, Connection/Queues and Connection/Drained. UnitTests has
--   the unit tests of the file, each a function that says whether it passes, and below it the
--   theorems; Topics/UnitTests has the test of src/topics.rs. Publications says which packets a
--   turn of the loop publishes. Kept is the rule for a property of the whole loop that may also
--   speak of the packets published so far: `IsTracked` and `IsKept` list the steps that it must
--   survive. Invariant, Guests and Retains are the three that use it: what a connection keeps of
--   its own, what it leaves to the readers of others, and the retained messages. Ended is the end
--   of a client, whose receivers are dropped.
-- - Error: src/error.rs, and the `Action` that a fallible call on a state is: a function to a
--   result and the new state. A panic is a result too.
-- - Server: src/main.rs. `serve` is the loop of `main_loop` with the tasks of
--   `handle_new_connection`: a `ServerEvent` is an accepted connection or one iteration of a task,
--   so a list of them is an interleaving. The tasks share `Common` and have each a `Task`.
--   Invariant is the invariant of all connections together; Serving, Delivery, Arrival, Turns,
--   FanOut, Isolation, Retained, Streams and HungUp are about runs of it, and Overflow about runs
--   with a timeout that cannot be set up; `published` of Isolation is the list of the packets that
--   a run publishes. Node is a broker with its Redis client, whose turns stand between those of the
--   connections; Node/Relay the packets that come from another broker. Step is one iteration of a
--   task. Start has `main_loop` up to its loop, with `load_certs` and `load_keys`; Start/Ends how
--   it ends.
-- - Redis: src/redis_client.rs. `RedisMessage`, `publish`, `handle_message`,
--   `get_all_retained_messages` and `listen` on the topics and the server, with the crates redis
--   and serde_json as the argument `Crates`. Redis/Thread has `RedisClient::new`, `get_connection`
--   and `receive_from_redis`. Redis/Sync, Redis/Restore, Redis/Boot and Redis/HandOver have the
--   theorems.
-- - Config: src/config.rs and `SETTINGS` of src/main.rs. Below it Toml reads plain TOML, Documented
--   says what the crates config and serde promise of such a text, and UnitTests has the tests of
--   the file, with UnitTests/Passes about them. Bigquery: src/bigquery.rs. Esp32: `task` of
--   examples/esp32-client/src/main.rs as a step relation, with Polite about its runs; Esp32/Wifi
--   its `connection`, with Joins about its rounds. Generator: examples/package_generator.rs. Demo:
--   examples/demo_client.rs, with Column about what it publishes.
-- - Mqtt, Broadcast and Env: what the broker uses and does not implement. A packet codec, broadcast
--   channels, a byte stream, a queue, BigQuery, the settings and the features are the fields of
--   `Env`, over which everything is stated. `IsBroadcast` says what tokio documents of its
--   channels; Broadcast/Reference is a hub that can be run.
-- - BTreeMap and Prelude: the standard library's ordered map and the helpers on numbers, lists and
--   options. Tests: a broker that runs on small inputs.
--
-- Bounds. Bytes, packet ids and counters are natural numbers; where the source computes on u16 (the
-- timeout) or u32 (the expiry counter), `wrapped` says what an overflow does, with the overflow
-- checks of a debug build and without. The buffer holds 1024 bytes and a channel at least 1024
-- messages. No definition needs fuel: the event loop is a recursion on the list of events, one for
-- each iteration, and stands for every run up to any point.
--
-- `select!` takes any branch that is ready, so an event list is one choice of the environment; a
-- branch that is not ready does nothing. Time is no number here: an event says that a timer has run
-- out. In Client what others do between two events is a change of the shared topics; in Server it
-- is their steps.
--
-- Not modelled: sockets, TLS, files and PEM, which are arguments; the set-up of logging in `main`;
-- the way of a text through the Redis server and of a packet through the queue to the Redis client,
-- which are events; the log lines; the fuzz targets, and the set-up of the chip in
-- examples/esp32-client; and the crate mqtt_v5_fork, which is an argument.
pub mod Prelude
pub mod Error
pub mod BTreeMap
pub mod Mqtt
pub mod Broadcast
pub mod Config
pub mod Demo
pub mod Esp32
pub mod Generator
pub mod Env
pub mod Topics
pub mod Bigquery
pub mod Client
pub mod Server
pub mod Redis
pub mod Tests
