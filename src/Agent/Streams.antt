-- ===== src/Agent/Streams.antt =====
-- internal/agent/agent.go: the goroutines that serve a forward connection or a reverse stream.
-- `return` is what the caller does next, and the deferred calls stand where they run.
use mule.Base.{
  ℕ, Text, Bool, not, ◌||◌, [], Option, none, some, lookup, if◌then◌else◌, ◌==◌, Result, ok, err,
}
use mule.Protocol.Frame.{
  Frame, Error, type_open, type_ok, type_error, error_dial_failed, error_unauthorized,
  direction_forward, direction_reverse,
}
use mule.Runtime.Program.{
  Program, finish, act, ◌then◌, try_slot, free_slot, raise, lower, add, receive, send, set_deadline,
  clear_deadline, close_stream, dial, close_tcp, find_peer, open_stream, pipe, connections,
  active_tcp_connections, active_quic_streams, tcp_connections_total, streams_total,
  stream_errors_total, target_dial_errors, bytes_client_to_target, bytes_target_to_client,
}
use mule.Agent.Settings.{Config}

-- What a listener knows of a connection that it accepted.
pub record Accepted : Type 0 where
  pub service : Text
  pub listener : Text
  pub remote_addr : Text
  pub connection_id : Text

abbrev pub open_frame : Config → Accepted → Frame
open_frame cfg tcp = record {
  type = type_open;
  code = 0;
  direction = direction_forward;
  service = tcp.service;
  peer_id = cfg.agent_id;
  listener = tcp.listener;
  source_addr = if cfg.send_client_addr then tcp.remote_addr else [];
  connection_id = tcp.connection_id;
}

-- `err != nil || resp.Type != protocol.TypeOK`.
abbrev pub refuses : Result Error Frame → Bool
refuses (err e) = Bool.true
refuses (ok resp) = not (resp.type == type_ok)

abbrev pub leave_tcp : Program → Program
leave_tcp return = lower active_tcp_connections then close_tcp then return

abbrev pub leave_forward : Program → Program
leave_forward return = lower active_quic_streams then leave_tcp return

abbrev pub fail_forward : Program → Program
fail_forward return = add stream_errors_total 1 then close_stream then leave_forward return

abbrev pub carry : Program → Program
carry return =
    clear_deadline
    then act pipe λ count.
      add bytes_client_to_target count.a_to_b
      then add bytes_target_to_client count.b_to_a
      then leave_forward return

abbrev pub ask : Config → Accepted → Program → Program
ask cfg tcp return =
    add streams_total 1
    then raise active_quic_streams
    then set_deadline
    then act (send (open_frame cfg tcp)) λ sent.
      if sent
      then (act receive λ resp. if refuses resp then fail_forward return else carry return)
      else fail_forward return

unfoldable pub handle_forward_tcp : Config → Accepted → Program → Program
handle_forward_tcp cfg tcp return =
    add tcp_connections_total 1
    then raise active_tcp_connections
    then act find_peer λ connected.
      if connected
      then (act open_stream λ opened.
          if opened then ask cfg tcp return else (add stream_errors_total 1 then leave_tcp return))
      else leave_tcp return

-- `acceptForward`, from an accepted connection on, with the goroutine that it starts.
unfoldable pub serve_forward : Config → Accepted → Program
unfolding handle_forward_tcp
serve_forward cfg tcp = act (try_slot connections) λ free.
    if free
    then handle_forward_tcp cfg tcp (free_slot connections then finish)
    else (close_tcp then finish)

abbrev pub answer : ℕ → ℕ → Frame
answer type code = record {
  type = type;
  code = code;
  direction = 0;
  service = [];
  peer_id = [];
  listener = [];
  source_addr = [];
  connection_id = [];
}

abbrev pub leave_stream : Program
leave_stream = lower active_quic_streams then finish

-- `WriteFrame(stream, Frame{Type: TypeError, Code: code})` and `stream.Close()`.
abbrev pub reject : ℕ → Program
reject code = send (answer type_error code) then close_stream then leave_stream

abbrev pub leave_target : Program
leave_target = lower active_tcp_connections then close_tcp then leave_stream

abbrev pub tunnel : Program
tunnel =
    clear_deadline
    then act pipe λ count.
      add bytes_client_to_target count.b_to_a
      then add bytes_target_to_client count.a_to_b
      then leave_target

abbrev pub serve_target : Option Text → Program
serve_target none = reject error_unauthorized
serve_target (some target) = act (dial target) λ connected.
    if connected
    then (add tcp_connections_total 1
        then raise active_tcp_connections
        then act (send (answer type_ok 0))
            λ sent. if sent then tunnel else (close_stream then leave_target))
    else (add target_dial_errors 1 then add stream_errors_total 1 then reject error_dial_failed)

abbrev pub bad_open : Program
bad_open = add stream_errors_total 1 then reject error_unauthorized

unfoldable pub serve_frame : Config → Result Error Frame → Program
serve_frame cfg (err e) = bad_open
serve_frame cfg (ok frame) =
    if not (frame.type == type_open) || not (frame.direction == direction_reverse)
    then bad_open
    else serve_target (lookup frame.service cfg.reverse)

unfoldable pub handle_reverse_stream : Config → Program
unfolding serve_frame
handle_reverse_stream cfg =
    add streams_total 1
    then raise active_quic_streams
    then set_deadline
    then act receive (serve_frame cfg)
