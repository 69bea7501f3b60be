-- ===== src/Server/Streams.antt =====
-- internal/server/server.go: the goroutines that serve a stream or a reverse connection. `return`
-- is what the caller does next, and the deferred calls stand where they run.
use mule.Base.{
  ℕ, zero, suc, Text, not, ◌||◌, [], Option, none, some, if◌then◌else◌, ◌==◌, Result, ok, err,
}
use mule.Protocol.Frame.{
  Frame, Error, type_open, type_ok, type_error, type_probe, error_dial_failed, error_overloaded,
  error_unauthorized, direction_forward, direction_reverse,
}
use mule.Runtime.Program.{
  Program, finish, act, ◌then◌, try_slot, free_slot, raise, lower, add, receive, send, set_deadline,
  clear_deadline, close_stream, dial, close_tcp, accept_stream, close_peer, pipe, dials, probes,
  active_tcp_connections, active_quic_streams, tcp_connections_total, streams_total,
  stream_errors_total, target_dial_errors, bytes_client_to_target, bytes_target_to_client,
}
use mule.Server.Settings.{Config}
use mule.Server.Policy.{forward_target, reverse_allowed}

abbrev pub answer : ℕ → ℕ → Frame
answer type code = record {
  type = type;
  code = code;
  direction = 0;
  service = [];
  peer_id = [];
  listener = [];
  source_addr = [];
  connection_id = [];
}

-- `WriteFrame(stream, Frame{Type: TypeError, Code: code})` and `stream.Close()`.
abbrev pub reject : ℕ → Program → Program
reject code return = send (answer type_error code) then close_stream then return

module _ (cfg : Config) (agent_id : Text) where
  abbrev pub accept_probe : Program → Program
  accept_probe return = send (answer type_ok 0) then close_stream then return

  abbrev pub probe_target : Option Text → Program → Program
  probe_target none return = reject error_unauthorized return
  probe_target (some target) return = act (try_slot dials) λ free.
      if free
      then (act (dial target) λ connected.
          if connected
          then (close_tcp then accept_probe (free_slot dials then return))
          else reject error_dial_failed (free_slot dials then return))
      else reject error_overloaded return

  unfoldable pub handle_probe : Frame → Program → Program
  handle_probe frame return =
      if frame.direction == direction_forward
      then probe_target (forward_target cfg agent_id frame.service) return
      else if frame.direction == direction_reverse
      then (if reverse_allowed cfg agent_id frame.service
          then accept_probe return
          else reject error_unauthorized return)
      else reject error_unauthorized return

  -- The deferred calls: of every stream, and of one that is connected to its target.
  abbrev pub leave_stream : Program
  leave_stream = lower active_quic_streams then finish

  abbrev pub leave_target : Program
  leave_target = lower active_tcp_connections then close_tcp then leave_stream

  abbrev pub tunnel : Program
  tunnel =
      clear_deadline
      then act pipe λ count.
        add bytes_client_to_target count.b_to_a
        then add bytes_target_to_client count.a_to_b
        then leave_target

  abbrev pub dial_target : Text → Program
  dial_target target = act (dial target) λ connected.
      free_slot dials
      then (if connected
          then (add tcp_connections_total 1
              then raise active_tcp_connections
              then act (send (answer type_ok 0))
                  λ sent. if sent then tunnel else (close_stream then leave_target))
          else (add target_dial_errors 1
              then add stream_errors_total 1
              then reject error_dial_failed leave_stream))

  abbrev pub serve_target : Option Text → Program
  serve_target none = reject error_unauthorized leave_stream
  serve_target (some target) =
      act (try_slot dials)
        λ free. if free then dial_target target else reject error_overloaded leave_stream

  unfoldable pub serve_frame : Result Error Frame → Program
  unfolding handle_probe
  serve_frame (err e) = add stream_errors_total 1 then reject error_unauthorized leave_stream
  serve_frame (ok frame) =
      if frame.type == type_probe
      then handle_probe frame leave_stream
      else if not (frame.type == type_open) || not (frame.direction == direction_forward)
      then reject error_unauthorized leave_stream
      else serve_target (forward_target cfg agent_id frame.service)

  unfoldable pub handle_agent_stream : Program
  unfolding serve_frame
  handle_agent_stream =
      add streams_total 1
      then raise active_quic_streams
      then set_deadline
      then act receive serve_frame

  -- The frame of a stream on a probe connection: what is not a probe ends the connection.
  unfoldable pub probe_frame : Result Error Frame → Program
  unfolding handle_probe
  probe_frame (err e) = reject error_unauthorized (close_peer 3 then finish)
  probe_frame (ok frame) =
      if not (frame.type == type_probe)
      then reject error_unauthorized (close_peer 3 then finish)
      else handle_probe frame finish

  -- The function literal in `handleProbeConnection`.
  unfoldable pub handle_probe_stream : Program
  unfolding probe_frame
  handle_probe_stream = set_deadline then act receive probe_frame

  -- `handleProbeConnection` with the goroutine round it, for a peer that opens so many streams,
  -- after which `AcceptStream` fails; it starts a `handle_probe_stream` for each.
  unfoldable pub accept_probes : ℕ → Program
  accept_probes zero = accept_stream then close_peer 0 then free_slot probes then finish
  accept_probes (suc streams) = accept_stream then accept_probes streams

  unfoldable pub serve_probe_connection : ℕ → Program
  unfolding accept_probes
  serve_probe_connection streams =
      act (try_slot probes)
        λ free. if free then accept_probes streams else (close_peer 2 then finish)

  abbrev pub leave_legacy : Program
  leave_legacy = close_peer 0 then free_slot probes then finish

  unfoldable pub legacy_frame : Result Error Frame → Program
  unfolding handle_probe
  legacy_frame (err e) = reject error_unauthorized leave_legacy
  legacy_frame (ok frame) =
      if not (frame.type == type_probe)
      then reject error_unauthorized leave_legacy
      else handle_probe frame leave_legacy

  -- `handleLegacyProbeConnection` with the goroutine round it.
  unfoldable pub serve_legacy_connection : Program
  unfolding legacy_frame
  serve_legacy_connection = act (try_slot probes) λ free.
      if free
      then (act accept_stream λ accepted.
          if accepted then (set_deadline then act receive legacy_frame) else leave_legacy)
      else (close_peer 2 then finish)
