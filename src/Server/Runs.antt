-- ===== src/Server/Runs.antt =====
-- A concrete server, its runs, and the theorems at them.
use mule.Base.{
  if◌then◌else◌, ◌==◌, ◌≡◌, ◌↔◌, refl, true, false, [], ◌∷◌, List, ok, some, none, codes, lookup,
  pos,
}
use mule.Protocol.Frame.{Frame, type_open, type_ok, direction_forward}
use mule.Runtime.Program.{
  bytes_client_to_target, bytes_target_to_client, act, Event, did, Trace, next, cut, Run, returned,
  then_run, receive, dial, try_slot, free_slot, dials, connections, raise, lower, find_peer, add,
  set_deadline, close_tcp, streams_total, tcp_connections_total, active_quic_streams,
  active_tcp_connections, finish,
}
use mule.Runtime.Monitor.{Obeyed, state_after}
use mule.Runtime.Conduct.{conduct, with_stream, with_tcp}
use mule.Runtime.Dialing.{dialing}
use mule.Runtime.System.{System}
use mule.Config.Limits.{second}
use mule.Server.Settings.{AgentConfig, Config, apply_defaults, validate_config}
use mule.Server.Settings.Defaults.{IsAcceptable, server_defaulted_iff}
use mule.Server.Policy.{find_agent, forward_target, reverse_allowed}
use mule.Server.Streams.{answer, handle_agent_stream, serve_frame, handle_probe}
use mule.Server.Reverse.{Accepted, open_frame, handle_reverse_tcp, serve_reverse}
use mule.Server.Goroutines.{agent_stream, reverse_tcp}
use mule.Runtime.Environment.{
  Environment, smooth, run_in, sent_frames, dialled_targets, joins, counted,
}
use mule.Server.Verdicts.{
  verdict, joined, verdict_frame, verdict_targets, verdict_joins, handle_agent_stream-verdict,
  serve_reverse-verdict,
}
use mule.Server.Rules.{Permitted, dials_configured_targets, joins_agreed, returns_closed}

abbrev gpu : AgentConfig
gpu = record {
  id = codes "gpu-1";
  secret_file = codes "/etc/mule/gpu-1";
  forward = (codes "ssh", codes "127.0.0.1:22") ∷ [];
  reverse = (codes "web", codes ":8080") ∷ [];
}

abbrev demo : Config
demo = record {
  listen_udp = codes ":4400";
  agents = gpu ∷ [];
  handshake_timeout = pos 0;
  idle_timeout = pos second;
  dial_timeout = pos 0;
  max_streams = pos 1;
  max_pending_dials = pos 2;
  keep_alive = pos 0;
}

ssh_target : forward_target demo (codes "gpu-1") (codes "ssh") ≡ some (codes "127.0.0.1:22")
unfolding find_agent lookup
ssh_target = refl

web_is_no_forward : forward_target demo (codes "gpu-1") (codes "web") ≡ none
unfolding find_agent lookup
web_is_no_forward = refl

web_reverse : reverse_allowed demo (codes "gpu-1") (codes "web") ≡ true
unfolding find_agent lookup
web_reverse = refl

server_defaulted_iff_example : (validate_config (apply_defaults demo) ≡ ok tt) ↔ IsAcceptable demo
server_defaulted_iff_example = server_defaulted_iff demo

abbrev open_ssh : Frame
open_ssh = record (answer type_open 0) { direction = direction_forward; service = codes "ssh" }

abbrev dialled : List Event
dialled =
    did (add streams_total 1) tt
    ∷ did (raise active_quic_streams) tt
    ∷ did set_deadline tt
    ∷ did receive (ok open_ssh)
    ∷ did (try_slot dials) true
    ∷ did (dial (codes "127.0.0.1:22")) true
    ∷ []

dialled_trace : Trace (handle_agent_stream demo (codes "gpu-1")) dialled
unfolding handle_agent_stream serve_frame find_agent handle_probe lookup
dialled_trace = next tt (next tt (next tt (next (ok open_ssh) (next true (next true cut)))))

dials_configured_targets_example : Obeyed (dialing (Permitted demo (codes "gpu-1"))) none dialled
dials_configured_targets_example =
    dials_configured_targets demo (codes "gpu-1") agent_stream dialled_trace

joins_agreed_example : Obeyed conduct with_stream dialled
joins_agreed_example = joins_agreed demo (codes "gpu-1") agent_stream dialled_trace

-- A reverse connection for an agent that is offline.
abbrev visitor : Accepted
visitor = record {
  agent_id = codes "gpu-1";
  service = codes "web";
  listener = codes ":8080";
  source_addr = codes "10.0.0.1:5000";
  connection_id = codes "00";
}

abbrev offline : List Event
offline =
    did (try_slot connections) true
    ∷ did (add tcp_connections_total 1) tt
    ∷ did (raise active_tcp_connections) tt
    ∷ did find_peer false
    ∷ did (lower active_tcp_connections) tt
    ∷ did close_tcp tt
    ∷ did (free_slot connections) tt
    ∷ []

offline_complete : Run (serve_reverse visitor) offline
unfolding serve_reverse handle_reverse_tcp
offline_complete =
    then_run true (
      then_run tt (then_run tt (then_run false (then_run tt (then_run tt (then_run tt returned))))))

returns_closed_example :
    ((state_after conduct with_tcp offline).stream ≡ false)
    × ((state_after conduct with_tcp offline).tcp ≡ false)
returns_closed_example = returns_closed demo (codes "gpu-1") (reverse_tcp visitor) offline_complete

abbrev leaving : System
leaving = record { used = 1; running = act (free_slot connections) (λ _. finish) ∷ [] }

abbrev left : System
left = record { used = 0; running = finish ∷ [] }

abbrev calm : Environment
calm = smooth (ok open_ssh) (record { a_to_b = 5; b_to_a = 7 })

handle_agent_stream-verdict_example :
    let es = run_in calm (handle_agent_stream demo (codes "gpu-1")) in
    let v = verdict demo (codes "gpu-1") calm in
    (sent_frames es ≡ verdict_frame v ∷ [])
    × (dialled_targets es ≡ verdict_targets v)
    × (joins es ≡ verdict_joins calm v)
    × (counted bytes_client_to_target es ≡ (if verdict_joins calm v == 1 then 7 else 0))
    × (counted bytes_target_to_client es ≡ (if verdict_joins calm v == 1 then 5 else 0))
handle_agent_stream-verdict_example = handle_agent_stream-verdict demo (codes "gpu-1") calm

joined_to_ssh : verdict demo (codes "gpu-1") calm ≡ joined (codes "127.0.0.1:22")
unfolding find_agent lookup
joined_to_ssh = refl

-- The agent answers by OK.
abbrev agreed : Environment
agreed = smooth (ok (answer type_ok 0)) (record { a_to_b = 5; b_to_a = 7 })

serve_reverse-verdict_example :
    let es = run_in agreed (serve_reverse visitor) in
    (sent_frames es ≡ open_frame visitor ∷ [])
    × (dialled_targets es ≡ [])
    × (joins es ≡ 1)
    × (counted bytes_client_to_target es ≡ 5)
    × (counted bytes_target_to_client es ≡ 7)
serve_reverse-verdict_example = serve_reverse-verdict visitor agreed
