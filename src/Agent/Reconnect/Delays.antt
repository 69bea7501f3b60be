-- ===== src/Agent/Reconnect/Delays.antt =====
-- The delays and the states of the loop, whatever it meets.
use mule.Base.{ℕ, ◌≡◌, true, false, none, some, ℤ, pos, negsuc, ◌≤ℤ◌, arith}
use mule.Config.Limits.{IsPositive}
use mule.Agent.Settings.{Config}
use mule.Agent.Reconnect.{delay_limit, next_reconnect_delay, Agent, Report, online, waiting}

-- Between the configured delay and the limit.
abbrev pub InRange : ℤ → ℤ → Type 0
InRange base delay = (base ≤ℤ delay) × (delay ≤ℤ delay_limit base)

pub next_reconnect_delay-InRange :
    (current base : ℤ)
    → IsPositive base
    → InRange base current
    → InRange base (next_reconnect_delay current base)
unfolding next_reconnect_delay
next_reconnect_delay-InRange (pos c) (pos b) p h = ground arith
next_reconnect_delay-InRange (negsuc c) (pos b) p h = ground arith
next_reconnect_delay-InRange c (negsuc b) p h = ground arith

-- The agent between two connections, and with one in service.
abbrev pub is_offline : Agent
is_offline = record { conn = none; quic_connections = 0; connected = false }

abbrev pub Online : Agent → Type 0
Online a = (conn : ℕ) × (a ≡ record { conn = some conn; quic_connections = 1; connected = true })

abbrev pub Sound : ℤ → Report → Type 0
Sound base (online a) = Online a
Sound base (waiting delay a) = InRange base delay × (a ≡ is_offline)
