-- ===== src/Agent/Reconnect.antt =====
-- internal/agent/agent.go: the loop that keeps the connection to the server, its delays, and the
-- connection that the other goroutines use. A connection is a number.
pub mod Delays
pub mod Backoff
use mule.Base.{
  ℕ, suc, ◌+◌, ◌-◌, ◌*◌, ◌/◌, ◌==◌, Bool, true, false, ◌||◌, [], ◌∷◌, List, Option, none, some,
  if◌then◌else◌, ℤ, pos, negsuc, leb_ℤ, ltb_ℤ,
}
use mule.Config.Limits.{second}
use mule.Agent.Settings.{Config}

abbrev pub max_reconnect_delay : ℤ
max_reconnect_delay = pos (60 * second)

-- `d / 2` rounds towards zero. `d * 2` is without the wrap of int64: its operand is at most half
-- of a duration.
abbrev pub half : ℤ → ℤ
half (pos n) = pos (n / 2)
half (negsuc n) = if n == 0 then pos 0 else negsuc ((n - 1) / 2)

abbrev pub double : ℤ → ℤ
double (pos n) = pos (n * 2)
double (negsuc n) = negsuc (n * 2 + 1)

abbrev pub delay_limit : ℤ → ℤ
delay_limit base = if ltb_ℤ max_reconnect_delay base then base else max_reconnect_delay

unfoldable pub next_reconnect_delay : ℤ → ℤ → ℤ
next_reconnect_delay current base =
    if leb_ℤ (delay_limit base) current || ltb_ℤ (half (delay_limit base)) current
    then delay_limit base
    else double current

-- The connection in use, the gauge of QUIC connections and the status of this agent.
pub record Agent : Type 0 where
  pub conn : Option ℕ
  pub quic_connections : ℕ
  pub connected : Bool

abbrev pub is_conn : ℕ → Option ℕ → Bool
is_conn conn none = false
is_conn conn (some current) = current == conn

abbrev pub set_conn : ℕ → Agent → Agent
set_conn conn a = record a { conn = some conn }

abbrev pub clear_conn : ℕ → Agent → Agent
clear_conn conn a = if is_conn conn a.conn then record a { conn = none } else a

abbrev pub close_conn : Agent → Agent
close_conn a = record a { conn = none }

abbrev pub count_conn : Agent → Agent
count_conn a = record a { quic_connections = suc a.quic_connections; connected = true }

abbrev pub discount_conn : Agent → Agent
discount_conn a = record a { quic_connections = a.quic_connections - 1; connected = false }

-- What a turn of the loop meets: a dial that fails, or a connection that ends, with whether `Run`
-- closed it and whether it had lasted `stableConnectionMinimum`. `woke` is what
-- `waitForReconnect` gives.
pub data Turn : Type 0 where
  refused : (woke : Bool) → Turn
  served : (conn : ℕ) (closed stable woke : Bool) → Turn

-- What can be seen: the connection in service, and each wait.
pub data Report : Type 0 where
  online : Agent → Report
  waiting : ℤ → Agent → Report

abbrev pub in_service : ℕ → Agent → Agent
in_service conn a = count_conn (set_conn conn a)

abbrev pub out_of_service : ℕ → Bool → Agent → Agent
out_of_service conn closed a = discount_conn (clear_conn conn (if closed then close_conn a else a))

-- The turns end when the context does.
unfoldable pub maintain_connection : Config → ℤ → Agent → List Turn → List Report
unfolding next_reconnect_delay
maintain_connection cfg delay a [] = []
maintain_connection cfg delay a (refused woke ∷ turns) =
    let rest = maintain_connection cfg (next_reconnect_delay delay cfg.reconnect_delay) a turns in
    waiting delay a ∷ (if woke then rest else [])
maintain_connection cfg delay a (served conn closed stable woke ∷ turns) =
    let reset = if stable then cfg.reconnect_delay else delay in
    let left = out_of_service conn closed (in_service conn a) in
    let rest =
      maintain_connection cfg (next_reconnect_delay reset cfg.reconnect_delay) left turns in
    online (in_service conn a) ∷ waiting reset left ∷ (if woke then rest else [])
