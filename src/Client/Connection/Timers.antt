-- ===== src/Client/Connection/Timers.antt =====
-- The machine arithmetic of the loop (src/tcp_handling.rs): the timeout and the expiry counters.
use mcloudtt.Prelude.{ℕ, ◌+◌, ◌-◌, ◌^◌, ◌<◌, ◌≡◌, true, arith}
use mcloudtt.Error.{ok}
use mcloudtt.Env.{Env}
use mcloudtt.Client.Connection.{wrapped, sleep_secs, decrement}

module _ (E : Env) where
  -- For a timeout of at most 65533 seconds the loop waits two seconds longer, without overflow.
  pub sleep_secs-eq :
      E.settings.general.timeout < 65534 → sleep_secs E ≡ ok (E.settings.general.timeout + 2)
  unfolding sleep_secs wrapped
  sleep_secs-eq h = ground arith

  pub decrement_pos : (n : ℕ) → 0 < n → n < 2 ^ 32 → decrement E n ≡ ok (n - 1)
  unfolding decrement wrapped
  decrement_pos n h k = ground arith

  -- A counter of 0 does not go below 0: a debug build panics, a release build starts at 2 ^ 32 - 1.
  pub decrement_zero : decrement E 0 ≡ wrapped true E.features.overflow_checks 4294967295
  unfolding decrement wrapped
  decrement_zero = ground arith
