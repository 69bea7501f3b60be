-- ===== src/Agent/Runs.antt =====
-- A concrete agent, its runs, and the theorems at them.
use mule.Base.{if◌then◌else◌, ◌≡◌, refl, true, false, [], ◌∷◌, List, ok, none, codes, pos, lookup}
use mule.Protocol.Frame.{Frame, type_open, type_ok, direction_reverse}
use mule.Runtime.Program.{
  bytes_client_to_target, bytes_target_to_client, act, Event, did, Trace, next, cut, Run, returned,
  then_run, receive, dial, try_slot, free_slot, connections, raise, lower, find_peer, add,
  set_deadline, close_tcp, streams_total, tcp_connections_total, active_quic_streams,
  active_tcp_connections, finish,
}
use mule.Runtime.Monitor.{Obeyed, state_after}
use mule.Runtime.Conduct.{conduct, with_stream, with_tcp}
use mule.Runtime.Dialing.{dialing}
use mule.Runtime.System.{System}
use mule.Config.Limits.{second}
use mule.Agent.Settings.{Config}
use mule.Agent.Reconnect.{Turn, refused, served, next_reconnect_delay, maintain_connection}
use mule.Agent.Reconnect.Delays.{is_offline}
use mule.Agent.Reconnect.Backoff.{refusals, waits, backoff_doubles}
use mule.Agent.Streams.{
  Accepted, answer, open_frame, handle_forward_tcp, serve_forward, serve_frame,
  handle_reverse_stream,
}
use mule.Agent.Goroutines.{forward_tcp, reverse_stream}
use mule.Runtime.Environment.{
  Environment, smooth, run_in, sent_frames, dialled_targets, joins, counted,
}
use mule.Agent.Verdicts.{
  serve_forward-verdict, handle_reverse_stream-verdict, asked_target, target_answer, targets,
  target_joins,
}
use mule.Agent.Rules.{
  Permitted, agent_dials_configured_targets, agent_joins_agreed, agent_returns_closed,
}

abbrev demo : Config
demo = record {
  server = codes "tunnel.example.org:4400";
  agent_id = codes "gpu-1";
  secret_file = codes "/etc/mule/gpu-1";
  forward = (codes "ssh", codes "127.0.0.1:2222") ∷ [];
  reverse = (codes "web", codes "127.0.0.1:8080") ∷ [];
  connect_timeout = pos 0;
  handshake_timeout = pos 0;
  idle_timeout = pos 0;
  max_connections = pos 0;
  keep_alive = pos 0;
  reconnect_delay = pos second;
  send_client_addr = false;
}

-- The delays of agent_test.go.
doubled_delay : next_reconnect_delay (pos second) (pos second) ≡ pos 2000000000
unfolding next_reconnect_delay
doubled_delay = refl

capped_delay : next_reconnect_delay (pos 32000000000) (pos second) ≡ pos 60000000000
unfolding next_reconnect_delay
capped_delay = refl

long_base : next_reconnect_delay (pos 120000000000) (pos 120000000000) ≡ pos 120000000000
unfolding next_reconnect_delay
long_base = refl

abbrev turns : List Turn
turns = refused true ∷ served 7 false true true ∷ served 8 true false false ∷ []

backoff_doubles_example :
    maintain_connection demo (pos second) is_offline (refusals 9) ≡ waits second is_offline 0 9
backoff_doubles_example = backoff_doubles demo second is_offline 9 refl

abbrev open_web : Frame
open_web = record (answer type_open 0) { direction = direction_reverse; service = codes "web" }

abbrev dialled : List Event
dialled =
    did (add streams_total 1) tt
    ∷ did (raise active_quic_streams) tt
    ∷ did set_deadline tt
    ∷ did receive (ok open_web)
    ∷ did (dial (codes "127.0.0.1:8080")) true
    ∷ []

dialled_trace : Trace (handle_reverse_stream demo) dialled
unfolding handle_reverse_stream serve_frame lookup
dialled_trace = next tt (next tt (next tt (next (ok open_web) (next true cut))))

agent_dials_configured_targets_example : Obeyed (dialing (Permitted demo)) none dialled
agent_dials_configured_targets_example =
    agent_dials_configured_targets demo reverse_stream dialled_trace

agent_joins_agreed_example : Obeyed conduct with_stream dialled
agent_joins_agreed_example = agent_joins_agreed demo reverse_stream dialled_trace

-- A client while the agent is not connected.
abbrev client : Accepted
client = record {
  service = codes "ssh";
  listener = codes "127.0.0.1:2222";
  remote_addr = codes "127.0.0.1:5000";
  connection_id = codes "00";
}

abbrev offline : List Event
offline =
    did (try_slot connections) true
    ∷ did (add tcp_connections_total 1) tt
    ∷ did (raise active_tcp_connections) tt
    ∷ did find_peer false
    ∷ did (lower active_tcp_connections) tt
    ∷ did close_tcp tt
    ∷ did (free_slot connections) tt
    ∷ []

offline_complete : Run (serve_forward demo client) offline
unfolding serve_forward handle_forward_tcp
offline_complete =
    then_run true (
      then_run tt (then_run tt (then_run false (then_run tt (then_run tt (then_run tt returned))))))

agent_returns_closed_example :
    ((state_after conduct with_tcp offline).stream ≡ false)
    × ((state_after conduct with_tcp offline).tcp ≡ false)
agent_returns_closed_example = agent_returns_closed demo (forward_tcp client) offline_complete

abbrev leaving : System
leaving = record { used = 1; running = act (free_slot connections) (λ _. finish) ∷ [] }

abbrev left : System
left = record { used = 0; running = finish ∷ [] }

abbrev calm : Environment
calm = smooth (ok open_web) (record { a_to_b = 5; b_to_a = 7 })

-- The server answers by OK.
abbrev agreed : Environment
agreed = smooth (ok (answer type_ok 0)) (record { a_to_b = 5; b_to_a = 7 })

serve_forward-verdict_example :
    let es = run_in agreed (serve_forward demo client) in
    (sent_frames es ≡ open_frame demo client ∷ [])
    × (dialled_targets es ≡ [])
    × (joins es ≡ 1)
    × (counted bytes_client_to_target es ≡ 5)
    × (counted bytes_target_to_client es ≡ 7)
serve_forward-verdict_example = serve_forward-verdict demo client agreed

handle_reverse_stream-verdict_example :
    let es = run_in calm (handle_reverse_stream demo) in
    let target = asked_target demo (ok open_web) in
    (sent_frames es ≡ target_answer calm target ∷ [])
    × (dialled_targets es ≡ targets target)
    × (joins es ≡ (if target_joins calm target then 1 else 0))
    × (counted bytes_client_to_target es ≡ (if target_joins calm target then 7 else 0))
    × (counted bytes_target_to_client es ≡ (if target_joins calm target then 5 else 0))
handle_reverse_stream-verdict_example = handle_reverse_stream-verdict demo calm
