-- ===== src/Agent/Waiting.antt =====
-- internal/agent/agent.go: `getConn`, the wait of a forward connection for the connection to the
-- server. Times are in nanoseconds.
pub mod Bound
mod Runs
use mule.Base.{ℕ, zero, suc, ◌+◌, ◌*◌, Bool, true, false, Option, none, some, ltb}

-- What each turn of the loop finds: the connection in use, the clock, and whether the context is
-- done when `select` is left.
pub record Turns : Type 0 where
  pub conn : ℕ → Option ℕ
  pub now : ℕ → ℕ
  pub cancelled : ℕ → Bool

pub data Found : Type 0 where
  connected : ℕ → Found
  not_connected canceled : Found

abbrev pub poll_interval : ℕ
poll_interval = 25 * 1000000

-- A turn: a connection is taken even after the deadline.
abbrev pub poll : Option ℕ → Bool → Bool → Option Found → Option Found
poll (some conn) late done next = some (connected conn)
poll none true done next = some not_connected
poll none false true next = some canceled
poll none false false next = next

-- The loop from a turn on; `none` is a loop that has not ended within so many turns.
unfoldable pub get_conn_from : ℕ → Turns → ℕ → ℕ → Option Found
get_conn_from zero turns deadline i = none
get_conn_from (suc fuel) turns deadline i =
    let next = get_conn_from fuel turns deadline (suc i) in
    poll (turns.conn i) (ltb deadline (turns.now i)) (turns.cancelled i) next

-- With the time of the call and the configured timeout, which is positive.
unfoldable pub get_conn : ℕ → Turns → (start timeout : ℕ) → Option Found
unfolding get_conn_from
get_conn fuel turns start timeout = get_conn_from fuel turns (start + timeout) 0
