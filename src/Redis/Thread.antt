-- ===== src/Redis/Thread.antt =====
-- The thread of the Redis client that reads its channel (src/redis_client.rs), and how the client is
-- made. A try to connect and a `PubSub` are what the Redis server answers, so they are events.
use Prim.Native.String.{◌++◌}
use mcloudtt.Prelude.{ℕ, suc, String, Option, none, some, List, [], ◌∷◌, ◌⊎◌, inl, inr, ◌+◌}
use mcloudtt.Error.{Action, ok, err, from, send_failed, redis_failed, pure, fail, ignore, ◌>>◌}

-- What is in `RedisClient` besides the topics and the receiver.
pub record RedisClient (Client : Type 0) : Type 0 where
  pub client : Client
  pub sender_id : String

-- The crates redis and rand: `Client::open`, `none` being an error, `{}` of a number, and a `String`
-- of the first characters that are drawn.
pub record Opening : Type 1 where
  pub Client : Type 0
  pub open_client : String → Option Client
  pub decimal : ℕ → String
  pub Rng : Type 0
  pub alphanumeric : ℕ → Rng → String

-- `RedisClient::new`; `none` is a panic.
unfoldable pub new : (O : Opening) → String → ℕ → O.Rng → Option (RedisClient O.Client)
new O host port rng = elim (O.open_client ("redis://" ++ host ++ ":" ++ O.decimal port)) [
  | none ↦ none
  | some client ↦ some (record { client = client; sender_id = O.alphanumeric 8 rng })
]

-- `RedisClient::get_connection` on what each try answers, left being an error: the connection, the
-- seconds that were slept, and the answers that were not asked for; `none` while it still tries.
unfoldable pub get_connection :
    {Connection : Type 0}
    → List (String ⊎ Connection)
    → Option (Connection × ℕ × List (String ⊎ Connection))
get_connection [] = none
get_connection (inr con ∷ answers) = some (con, 0, answers)
get_connection (inl e ∷ answers) = elim (get_connection answers) [
  | none ↦ none
  | some x ↦ some (x.0, suc x.1, x.2)
]

-- An iteration of `receive_from_redis`: no connection, no subscription, no message, or a message
-- with what its `get_payload` returned, left being the text of an error.
pub data Turn : Type 0 where
  unconnected unsubscribed interrupted : Turn
  arrived : String ⊎ String → Turn

-- The mpsc channel to `listen`; `none`: its receiver is gone.
pub record Mpsc : Type 1 where
  pub Queue : Type 0
  pub blocking_send : String → Queue → Option Queue
  -- `{}` of the `SendError`
  pub send_error : String

module _ (M : Mpsc) where
  pub record Thread : Type 0 where
    pub queue : M.Queue
    -- seconds that the thread has slept
    pub slept : ℕ

module _ (M : Mpsc) where
  abbrev pub sent : Option M.Queue → Action (Thread M) (Unit {0})
  sent none t = (err (from (send_failed M.send_error)), t)
  sent (some queue) t = (ok tt, record t { queue = queue })

  unfoldable pub handle_redis_message : String ⊎ String → Action (Thread M) (Unit {0})
  handle_redis_message (inl e) t = fail (from (redis_failed e)) t
  handle_redis_message (inr message) t = sent (M.blocking_send message t.queue) t

  -- An error is only logged.
  unfoldable pub receive_once : Turn → Action (Thread M) (Unit {0})
  unfolding handle_redis_message
  receive_once unconnected = λ t. (ok tt, record t { slept = t.slept + 1 })
  receive_once unsubscribed = pure tt
  receive_once interrupted = pure tt
  receive_once (arrived payload) = ignore (handle_redis_message payload)

  unfoldable pub receive_from_redis : List Turn → Action (Thread M) (Unit {0})
  receive_from_redis [] = pure tt
  receive_from_redis (x ∷ xs) = receive_once x >> receive_from_redis xs
