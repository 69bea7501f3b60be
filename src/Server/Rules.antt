-- ===== src/Server/Rules.antt =====
-- The rules that the server's goroutines keep: what they dial, and how they treat their stream
-- and their TCP connection.
use mule.Base.{◌≡◌, ◌⊎◌, Text, false, some, none, List, arith}
use mule.Protocol.Frame.{Frame, type_open, type_probe, direction_forward}
use mule.Runtime.Program.{Program, Event, Trace, Run}
use mule.Runtime.Monitor.{Keeps, Obeyed, Keeps-Obeyed, state_after, Keeps-done}
use mule.Runtime.Dialing.{dialing}
use mule.Runtime.Conduct.{Link, conduct}
use mule.Server.Settings.{Config}
use mule.Server.Policy.{forward_target}
use mule.Server.Streams.{
  handle_probe, serve_frame, handle_agent_stream, probe_frame, handle_probe_stream, legacy_frame,
  serve_legacy_connection,
}
use mule.Server.Goroutines.{Serves, agent_stream, probe_stream, legacy_probe, reverse_tcp}
use mule.Server.Reverse.{handle_reverse_tcp, serve_reverse}

-- The configured target of that agent for the service that the frame names.
abbrev pub Permitted : Config → Text → Frame → Text → Type 0
Permitted cfg agent_id frame target =
    ((frame.type ≡ type_open) ⊎ (frame.type ≡ type_probe))
    × (frame.direction ≡ direction_forward)
    × (forward_target cfg agent_id frame.service ≡ some target)

module _ (cfg : Config) (agent_id : Text) where
  Serves-dialing :
      {l : Link} {p : Program}
      → Serves cfg agent_id l p
      → Keeps (dialing (Permitted cfg agent_id)) none p
  unfolding handle_agent_stream serve_frame handle_probe handle_probe_stream probe_frame
      serve_legacy_connection legacy_frame serve_reverse handle_reverse_tcp
  Serves-dialing agent_stream = ground arith
  Serves-dialing probe_stream = ground arith
  Serves-dialing legacy_probe = ground arith
  Serves-dialing (reverse_tcp tcp) = ground arith

  Serves-conduct : {l : Link} {p : Program} → Serves cfg agent_id l p → Keeps conduct l p
  unfolding handle_agent_stream serve_frame handle_probe handle_probe_stream probe_frame
      serve_legacy_connection legacy_frame serve_reverse handle_reverse_tcp
  Serves-conduct agent_stream = ground arith
  Serves-conduct probe_stream = ground arith
  Serves-conduct legacy_probe = ground arith
  Serves-conduct (reverse_tcp tcp) = ground arith

  module _ {l : Link} {p : Program} {es : List Event} (serves : Serves cfg agent_id l p) where
    -- Whatever a goroutine of the server receives and whatever its calls return, it dials only
    -- targets that the configuration of the authenticated agent gives for the service named in
    -- the last frame received, which asks for the forward direction.
    pub dials_configured_targets : Trace p es → Obeyed (dialing (Permitted cfg agent_id)) none es
    dials_configured_targets t =
        Keeps-Obeyed (dialing (Permitted cfg agent_id)) t none (Serves-dialing serves)

    -- At every point of a run, a goroutine of the server exchanges frames only on an open stream
    -- under the handshake deadline, and joins the stream to a TCP connection only when both are
    -- open, the sides have agreed by OK and the deadline is off.
    pub joins_agreed : Trace p es → Obeyed conduct l es
    joins_agreed t = Keeps-Obeyed conduct t l (Serves-conduct serves)

    -- On every path to its return, errors included, a goroutine of the server closes its stream
    -- and its TCP connection.
    pub returns_closed :
        Run p es
        → (state_after conduct l es).stream ≡ false × (state_after conduct l es).tcp ≡ false
    returns_closed run = Keeps-done conduct run l (Serves-conduct serves)
