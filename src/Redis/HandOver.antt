-- ===== src/Redis/HandOver.antt =====
-- What the thread of the Redis client hands over (src/redis_client.rs).
use mcloudtt.Prelude.{
  ℕ, suc, String, some, List, [], ◌∷◌, ◌++◌, append_assoc, append-nil, ◌⊎◌, inl, inr, ◌≡◌, refl,
  sym, ap, ◌∙◌, arith, length, map, ◌+◌,
}
use mcloudtt.Error.{ok, ignore, ◌>>◌}
use mcloudtt.Redis.Thread.{
  get_connection, Turn, unconnected, unsubscribed, interrupted, arrived, Mpsc, Thread, sent,
  handle_redis_message, receive_once, receive_from_redis,
}

-- A channel that has its receiver takes a message behind those that it holds.
pub record IsOpen (M : Mpsc) (held : M.Queue → List String) : Type 0 where
  pub blocking_send_open :
      (m : String) (q : M.Queue)
      → (q' : M.Queue) × (M.blocking_send m q ≡ some q') × (held q' ≡ held q ++ m ∷ [])

-- The payloads that can be read, in order, and the number of tries without a connection.
pub payloads : List Turn → List String
payloads [] = []
payloads (arrived (inr message) ∷ xs) = message ∷ payloads xs
payloads (arrived (inl e) ∷ xs) = payloads xs
payloads (unconnected ∷ xs) = payloads xs
payloads (unsubscribed ∷ xs) = payloads xs
payloads (interrupted ∷ xs) = payloads xs

pub failures : List Turn → ℕ
failures [] = 0
failures (unconnected ∷ xs) = suc (failures xs)
failures (arrived p ∷ xs) = failures xs
failures (unsubscribed ∷ xs) = failures xs
failures (interrupted ∷ xs) = failures xs

module _ (M : Mpsc) where
  handed_over :
      (m : String) (xs : List Turn) (t : Thread M) (q' : M.Queue)
      → M.blocking_send m t.queue ≡ some q'
      → receive_from_redis M (arrived (inr m) ∷ xs) t
        ≡ receive_from_redis M xs (record t { queue = q' })
  unfolding receive_from_redis receive_once handle_redis_message
  handed_over m xs t q' e = ap (λ o. (ignore (sent M o) >> receive_from_redis M xs) t) e

module _ (M : Mpsc) (held : M.Queue → List String) (O : IsOpen M held) where
  -- While the loop of the Redis client takes texts, the thread that reads from Redis hands over
  -- exactly the payloads that can be read, in order; no failed connection, subscription, read or
  -- payload ends it, and it has slept one second for each try without a connection.
  pub receive_from_redis-payloads :
      (xs : List Turn) (t : Thread M)
      → let (r, t') = receive_from_redis M xs t in
        (r ≡ ok tt)
        × (held t'.queue ≡ held t.queue ++ payloads xs)
        × (t'.slept ≡ t.slept + failures xs)
  unfolding receive_from_redis receive_once handle_redis_message payloads failures
  receive_from_redis-payloads [] t = (refl, sym (append-nil (held t.queue)), omega arith)
  receive_from_redis-payloads (unconnected ∷ xs) t =
      let (r, q, s) = receive_from_redis-payloads xs (record t { slept = t.slept + 1 }) in
      (r, q, omega (arith, s))
  receive_from_redis-payloads (unsubscribed ∷ xs) t = receive_from_redis-payloads xs t
  receive_from_redis-payloads (interrupted ∷ xs) t = receive_from_redis-payloads xs t
  receive_from_redis-payloads (arrived (inl e) ∷ xs) t = receive_from_redis-payloads xs t
  receive_from_redis-payloads (arrived (inr m) ∷ xs) t =
      let (q', e, h) = O.blocking_send_open m t.queue in
      let (r, q, s) = receive_from_redis-payloads xs (record t { queue = q' }) in
      rw (handed_over M m xs t q' e) (
        r,
        q ∙ ap (λ x. x ++ payloads xs) h ∙ append_assoc (held t.queue) (m ∷ []) (payloads xs),
        s,
      )

-- `get_connection` returns the first connection, after one second for each error before it.
pub get_connection-retries :
    {Connection : Type 0}
    → (es : List String) (con : Connection) (answers : List (String ⊎ Connection))
    → get_connection (map inl es ++ inr con ∷ answers) ≡ some (con, length es, answers)
unfolding get_connection
get_connection-retries [] con answers = refl
get_connection-retries (e ∷ es) con answers = rw (get_connection-retries es con answers) refl
