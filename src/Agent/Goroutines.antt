-- ===== src/Agent/Goroutines.antt =====
-- The goroutines that the agent starts for its listeners and for the server.
use mule.Runtime.Program.{Program}
use mule.Runtime.Conduct.{Link, with_stream, with_tcp}
use mule.Agent.Settings.{Config}
use mule.Agent.Streams.{Accepted, serve_forward, handle_reverse_stream}

-- With what they are given.
pub data Serves (cfg : Config) : Link → Program → Type 0 where
  forward_tcp : (tcp : Accepted) → Serves cfg with_tcp (serve_forward cfg tcp)
  reverse_stream : Serves cfg with_stream (handle_reverse_stream cfg)

pub data Starts (cfg : Config) : Program → Type 0 where
  serves : {l : Link} {p : Program} → Serves cfg l p → Starts cfg p
