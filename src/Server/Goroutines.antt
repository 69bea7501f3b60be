-- ===== src/Server/Goroutines.antt =====
-- The goroutines that the server starts for its peers and its reverse listeners.
use mule.Base.{ℕ, Text}
use mule.Runtime.Program.{Program}
use mule.Runtime.Conduct.{Link, with_stream, with_tcp, with_nothing}
use mule.Server.Settings.{Config}
use mule.Server.Streams.{
  handle_agent_stream, handle_probe_stream, serve_probe_connection, serve_legacy_connection,
}
use mule.Server.Reverse.{Accepted, serve_reverse}

-- Those that join a stream to a TCP connection or probe a target, with what they are given.
pub data Serves (cfg : Config) (agent_id : Text) : Link → Program → Type 0 where
  agent_stream : Serves cfg agent_id with_stream (handle_agent_stream cfg agent_id)
  probe_stream : Serves cfg agent_id with_stream (handle_probe_stream cfg agent_id)
  legacy_probe : Serves cfg agent_id with_nothing (serve_legacy_connection cfg agent_id)
  reverse_tcp : (tcp : Accepted) → Serves cfg agent_id with_tcp (serve_reverse tcp)

pub data Starts (cfg : Config) : Program → Type 0 where
  serves : {agent_id : Text} {l : Link} {p : Program} → Serves cfg agent_id l p → Starts cfg p
  probe_connection :
      (agent_id : Text) (streams : ℕ) → Starts cfg (serve_probe_connection cfg agent_id streams)
