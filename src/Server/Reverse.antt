-- ===== src/Server/Reverse.antt =====
-- internal/server/server.go: what a reverse listener does with a TCP connection.
use mule.Base.{Text, Bool, ◌==◌, if◌then◌else◌, Result, ok, err}
use mule.Protocol.Frame.{Frame, Error, type_open, type_ok, direction_reverse}
use mule.Runtime.Program.{
  Program, finish, act, ◌then◌, try_slot, free_slot, raise, lower, add, receive, send, set_deadline,
  clear_deadline, close_stream, close_tcp, find_peer, open_stream, pipe, connections,
  active_tcp_connections, active_quic_streams, tcp_connections_total, streams_total,
  stream_errors_total, bytes_client_to_target, bytes_target_to_client,
}

-- What a listener knows of a connection that it accepted.
pub record Accepted : Type 0 where
  pub agent_id : Text
  pub service : Text
  pub listener : Text
  pub source_addr : Text
  pub connection_id : Text

abbrev pub open_frame : Accepted → Frame
open_frame tcp = record {
  type = type_open;
  code = 0;
  direction = direction_reverse;
  service = tcp.service;
  peer_id = tcp.agent_id;
  listener = tcp.listener;
  source_addr = tcp.source_addr;
  connection_id = tcp.connection_id;
}

abbrev pub answered_ok : Result Error Frame → Bool
answered_ok (err e) = Bool.false
answered_ok (ok resp) = resp.type == type_ok

-- The deferred calls, as far as they are due; `return` is what the goroutine round it does.
abbrev pub leave_tcp : Program → Program
leave_tcp return = lower active_tcp_connections then close_tcp then return

abbrev pub leave_stream : Program → Program
leave_stream return = lower active_quic_streams then leave_tcp return

abbrev pub carry : Program → Program
carry return =
    clear_deadline
    then act pipe λ count.
      add bytes_client_to_target count.a_to_b
      then add bytes_target_to_client count.b_to_a
      then leave_stream return

abbrev pub ask : Accepted → Program → Program
ask tcp return =
    add streams_total 1
    then raise active_quic_streams
    then set_deadline
    then act (send (open_frame tcp)) λ sent.
      if sent
      then (act receive λ resp.
          if answered_ok resp then carry return else (close_stream then leave_stream return))
      else (close_stream then leave_stream return)

-- A deadline on the opening of the stream is not an action of this goroutine on the stream.
unfoldable pub handle_reverse_tcp : Accepted → Program → Program
handle_reverse_tcp tcp return =
    add tcp_connections_total 1
    then raise active_tcp_connections
    then act find_peer λ connected.
      if connected
      then (act open_stream λ opened.
          if opened then ask tcp return else (add stream_errors_total 1 then leave_tcp return))
      else leave_tcp return

-- `acceptReverse`, from an accepted connection on, with the goroutine that it starts.
unfoldable pub serve_reverse : Accepted → Program
unfolding handle_reverse_tcp
serve_reverse tcp = act (try_slot connections) λ free.
    if free
    then handle_reverse_tcp tcp (free_slot connections then finish)
    else (close_tcp then finish)
