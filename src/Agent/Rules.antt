-- ===== src/Agent/Rules.antt =====
-- The rules that the agent's goroutines keep: what they dial, and how they treat their stream and
-- their TCP connection.
use mule.Base.{◌≡◌, false, some, none, List, lookup, arith, Text}
use mule.Protocol.Frame.{Frame, type_open, direction_reverse}
use mule.Runtime.Program.{Program, Event, Trace, Run}
use mule.Runtime.Monitor.{Keeps, Obeyed, Keeps-Obeyed, state_after, Keeps-done}
use mule.Runtime.Dialing.{dialing}
use mule.Runtime.Conduct.{Link, conduct}
use mule.Agent.Settings.{Config}
use mule.Agent.Streams.{handle_forward_tcp, serve_forward, serve_frame, handle_reverse_stream}
use mule.Agent.Goroutines.{Serves, forward_tcp, reverse_stream}

-- The configured target for the service that the frame names.
abbrev pub Permitted : Config → Frame → Text → Type 0
Permitted cfg frame target =
    (frame.type ≡ type_open)
    × (frame.direction ≡ direction_reverse)
    × (lookup frame.service cfg.reverse ≡ some target)

module _ (cfg : Config) where
  Serves-dialing :
      {l : Link} {p : Program} → Serves cfg l p → Keeps (dialing (Permitted cfg)) none p
  unfolding serve_forward handle_forward_tcp handle_reverse_stream serve_frame
  Serves-dialing (forward_tcp tcp) = ground arith
  Serves-dialing reverse_stream = ground arith

  Serves-conduct : {l : Link} {p : Program} → Serves cfg l p → Keeps conduct l p
  unfolding serve_forward handle_forward_tcp handle_reverse_stream serve_frame
  Serves-conduct (forward_tcp tcp) = ground arith
  Serves-conduct reverse_stream = ground arith

  module _ {l : Link} {p : Program} {es : List Event} (serves : Serves cfg l p) where
    -- Whatever the server sends and whatever the calls return, the agent dials only a target
    -- that its own configuration gives for the reverse service named in the last frame
    -- received, which is an OPEN in the reverse direction.
    pub agent_dials_configured_targets : Trace p es → Obeyed (dialing (Permitted cfg)) none es
    agent_dials_configured_targets t =
        Keeps-Obeyed (dialing (Permitted cfg)) t none (Serves-dialing serves)

    -- At every point of a run, a goroutine of the agent exchanges frames only on an open stream
    -- under the handshake deadline, and joins the stream to a TCP connection only when both are
    -- open, the sides have agreed by OK and the deadline is off.
    pub agent_joins_agreed : Trace p es → Obeyed conduct l es
    agent_joins_agreed t = Keeps-Obeyed conduct t l (Serves-conduct serves)

    -- On every path to its return, errors included, a goroutine of the agent closes its stream
    -- and its TCP connection.
    pub agent_returns_closed :
        Run p es
        → ((state_after conduct l es).stream ≡ false) × ((state_after conduct l es).tcp ≡ false)
    agent_returns_closed run = Keeps-done conduct run l (Serves-conduct serves)
