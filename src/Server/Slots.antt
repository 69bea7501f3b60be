-- ===== src/Server/Slots.antt =====
-- Every goroutine of the server gives back what it takes, and so the semaphores keep within their
-- capacity and the gauges return to zero.
use mule.Base.{ℕ, zero, suc, ◌≡◌, ◌≤◌, Text, true, false, arith, List}
use mule.Runtime.Program.{Program, Action, Answer, Slot, probes, free_slot}
use mule.Runtime.Conduct.{Link}
use mule.Runtime.Monitor.{Keeps}
use mule.Runtime.Ledger.{Resource, slot, ledger, gives}
use mule.Runtime.System.{System, Reach, Moves}
use mule.Runtime.Sharing.{Reach-fits, Reach-gives}
use mule.Server.Settings.{Config}
use mule.Server.Streams.{
  handle_probe, serve_frame, handle_agent_stream, probe_frame, handle_probe_stream, legacy_frame,
  serve_legacy_connection, accept_probes, serve_probe_connection,
}
use mule.Server.Goroutines.{
  Serves, agent_stream, probe_stream, legacy_probe, reverse_tcp, Starts, serves, probe_connection,
}
use mule.Server.Reverse.{handle_reverse_tcp, serve_reverse}

module _ (cfg : Config) (x : Resource) where
  Serves-ledger :
      {agent_id : Text} {l : Link} {p : Program} → Serves cfg agent_id l p → Keeps (ledger x) 0 p
  unfolding handle_agent_stream serve_frame handle_probe handle_probe_stream probe_frame
      serve_legacy_connection legacy_frame serve_reverse handle_reverse_tcp
  Serves-ledger agent_stream = ground arith
  Serves-ledger probe_stream = ground arith
  Serves-ledger legacy_probe = ground arith
  Serves-ledger (reverse_tcp tcp) = ground arith

  -- A probe connection holds its slot while it accepts streams.
  accept_probes-ledger :
      (agent_id : Text) (streams held : ℕ)
      → (gives x (free_slot probes) ≡ true → held ≡ 1)
      → (gives x (free_slot probes) ≡ false → held ≡ 0)
      → Keeps (ledger x) held (accept_probes cfg agent_id streams)
  unfolding accept_probes
  accept_probes-ledger agent_id zero held one none = ground arith
  accept_probes-ledger agent_id (suc n) held one none =
      ground (arith, accept_probes-ledger agent_id n held one none)

  Starts-ledger : (p : Program) → Starts cfg p → Keeps (ledger x) 0 p
  unfolding serve_probe_connection
  Starts-ledger p (serves s) = Serves-ledger s
  Starts-ledger p (probe_connection agent_id n) =
      ground (arith, accept_probes-ledger agent_id n 0, accept_probes-ledger agent_id n 1)

module _ (cfg : Config) (x : Resource) (capacity : ℕ) {t : System}
    (reached : Reach x capacity (Starts cfg) t) where
  -- However the goroutines of the server interleave, one that gives back a slot of a semaphore or
  -- lowers a gauge finds it above zero: it does not block, and no gauge falls below zero.
  pub given_back :
      {a : Action} {r : Answer a} {qs : List Program}
      → Moves t.running a r qs
      → gives x a ≡ true
      → 1 ≤ t.used
  given_back = Reach-gives x capacity (Starts cfg) (Starts-ledger cfg x) reached

-- However the goroutines of the server interleave, a semaphore holds no more than its capacity.
pub slots_fit :
    (cfg : Config) (s : Slot) (capacity : ℕ) {t : System}
    → Reach (slot s) capacity (Starts cfg) t
    → t.used ≤ capacity
slots_fit cfg s capacity = Reach-fits s capacity (Starts cfg)
