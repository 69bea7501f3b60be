-- ===== src/Runtime/Ledger.antt =====
-- The slots of a semaphore and the units of a gauge, as what a goroutine holds of them.
use mule.Base.{ℕ, suc, ◌-◌, ◌≤◌, ◌≡◌, Bool, true, false, ◌&&◌, if◌then◌else◌}
use mule.Runtime.Program.{
  Slot, dials, probes, connections, Gauge, active_tcp_connections, active_quic_streams, Action,
  Answer, try_slot, free_slot, raise, lower,
}
use mule.Runtime.Monitor.{Monitor}

pub data Resource : Type 0 where
  slot : Slot → Resource
  gauge : Gauge → Resource

abbrev pub same_slot : Slot → Slot → Bool
same_slot dials dials = true
same_slot probes probes = true
same_slot connections connections = true
same_slot s t = false

abbrev pub same_gauge : Gauge → Gauge → Bool
same_gauge active_tcp_connections active_tcp_connections = true
same_gauge active_quic_streams active_quic_streams = true
same_gauge g h = false

abbrev pub takes : Resource → (a : Action) → Answer a → Bool
takes (slot s) (try_slot t) r = same_slot s t && r
takes (gauge g) (raise h) r = same_gauge g h
takes x a r = false

abbrev pub gives : Resource → Action → Bool
gives (slot s) (free_slot t) = same_slot s t
gives (gauge g) (lower h) = same_gauge g h
gives x a = false

abbrev pub after : Resource → ℕ → (a : Action) → Answer a → ℕ
after x n a r = if takes x a r then suc n else if gives x a then n - 1 else n

-- What a goroutine gives back it holds, and it returns with nothing.
abbrev pub ledger : Resource → Monitor ℕ
ledger x = record { follow = after x; allowed = λ h a. gives x a ≡ true → 1 ≤ h; done = λ h. h ≡ 0 }
